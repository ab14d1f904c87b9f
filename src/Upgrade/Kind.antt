-- ===== src/Upgrade/Kind.antt =====
-- services/device_upgrade_service.go: the kinds of releases, and small helpers.
use navmesh_go.Base.{Bool, ◌||◌, List, [], ◌∷◌, ◌++◌, if◌then◌else◌}
use navmesh_go.Base.Int.{ℤ, ltb_ℤ}
use navmesh_go.Base.Text.{Text, codes, eq_text, is_empty, trim_space, to_lower, member}
use navmesh_go.Domain.{release_type_rain, release_type_hipnames, release_type_navmesh}

unfoldable pub normalize_upgrade_release_type : Text → Text
normalize_upgrade_release_type value =
    let v = to_lower (trim_space value) in
    if is_empty v || eq_text v (codes "navmesh_client")
    then release_type_navmesh
    else if eq_text v release_type_rain || eq_text v (codes "device_software")
    then release_type_rain
    else if eq_text v release_type_hipnames || eq_text v (codes "standalone")
    then release_type_hipnames
    else v

unfoldable pub is_online_upgradeable_release_type : Text → Bool
unfolding normalize_upgrade_release_type
is_online_upgradeable_release_type value =
    let v = normalize_upgrade_release_type value in
    eq_text v release_type_navmesh || eq_text v release_type_rain || eq_text v release_type_hipnames

unfoldable pub upgrade_event_title : Text → Bool → Text
unfolding normalize_upgrade_release_type
upgrade_event_title release_type success =
    let v = normalize_upgrade_release_type release_type in
    let name =
      if eq_text v release_type_rain
      then codes "北斗降雨"
      else if eq_text v release_type_hipnames
      then codes "单机版解算"
      else codes "客户端" in
    if success then name ++ codes "升级成功" else name ++ codes "升级失败"

unfoldable pub clamp_int : ℤ → ℤ → ℤ → ℤ
clamp_int value min_value max_value =
    if ltb_ℤ value min_value then min_value else if ltb_ℤ max_value value then max_value else value

unfoldable pub min_int : ℤ → ℤ → ℤ
min_int a b = if ltb_ℤ a b then a else b

unfoldable pub first_non_empty_string : List Text → Text
first_non_empty_string [] = []
first_non_empty_string (value ∷ rest) =
    if is_empty (trim_space value) then first_non_empty_string rest else trim_space value

unfoldable pub unique_from : List Text → List Text → List Text
unique_from seen [] = []
unique_from seen (value ∷ rest) =
    let v = trim_space value in
    let skipped = unique_from seen rest in
    let taken = v ∷ unique_from (v ∷ seen) rest in
    if is_empty v || member v seen then skipped else taken

-- uniqueTrimmedStrings
unfoldable pub unique_trimmed_strings : List Text → List Text
unfolding unique_from
unique_trimmed_strings values = unique_from [] values
