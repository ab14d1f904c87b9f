-- ===== src/Pagination.antt =====
-- services/index.go, ParsePage: the page of a list, from the parameters of a request.
mod Tests
use navmesh_go.Base.{ℕ, ◌≡◌, Bool, true, if◌then◌else◌, arith}
use navmesh_go.Base.Int.{ℤ, pos, leb_ℤ, ltb_ℤ, ◌≤ℤ◌}
use navmesh_go.Base.Text.{Text, trim_space}
use navmesh_go.Upgrade.Version.{str2_int}

pub record PageOptions : Type 0 where
  pub page : ℤ
  pub size : ℤ

abbrev pub default_max_page_size : ℤ
default_max_page_size = pos 100

abbrev page_of : ℤ → ℤ
page_of page = if leb_ℤ page (pos 0) then pos 1 else page

abbrev size_of : ℤ → ℤ → ℤ
size_of size max_size =
    let asked = if leb_ℤ size (pos 0) then pos 20 else size in
    let limit = if leb_ℤ max_size (pos 0) then default_max_page_size else max_size in
    if ltb_ℤ limit asked then limit else asked

-- The texts are the parameters `page` and `size`, empty if they are missing.
unfoldable pub parse_page : Text → Text → ℤ → PageOptions
unfolding str2_int
parse_page page_text size_text max_size = record {
  page = page_of (str2_int page_text);
  size = size_of (str2_int size_text) max_size;
}

bounds :
    (page size max_size : ℤ)
    → pos 1 ≤ℤ max_size
    → (pos 1 ≤ℤ page_of page)
      × (pos 1 ≤ℤ size_of size max_size)
      × (size_of size max_size ≤ℤ max_size)
bounds page size max_size h = (ground arith, ground arith, ground arith)

-- Whatever the parameters, with a positive limit the page is at least 1, and the size between 1 and
-- the limit.
pub parse_page_bounds :
    (page_text size_text : Text) (max_size : ℤ)
    → pos 1 ≤ℤ max_size
    → (pos 1 ≤ℤ (parse_page page_text size_text max_size).page)
      × (pos 1 ≤ℤ (parse_page page_text size_text max_size).size)
      × ((parse_page page_text size_text max_size).size ≤ℤ max_size)
unfolding parse_page
parse_page_bounds page_text size_text max_size h =
    bounds (str2_int page_text) (str2_int size_text) max_size h
