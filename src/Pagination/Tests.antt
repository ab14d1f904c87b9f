-- ===== src/Pagination/Tests.antt =====
-- Pages at concrete inputs.
use navmesh_go.Base.{◌≡◌, refl}
use navmesh_go.Base.Int.{pos}
use navmesh_go.Base.Text.{codes, trim_space}
use navmesh_go.Base.Strconv.{parse_int}
use navmesh_go.Pagination.{parse_page}

parse_page_test :
    parse_page (codes " 3 ") (codes "500") (pos 100) ≡ record { page = pos 3; size = pos 100 }
unfolding parse_page trim_space parse_int
parse_page_test = refl
