-- ===== src/Upgrade/Platform.antt =====
-- services/device_upgrade_service.go: the names of operating systems and architectures.
-- Go visits the keys of a map in an order of its choice, so the loop over the aliases takes the order
-- as the list `order`.
pub mod Order
use navmesh_go.Base.{
  ℕ, ◌≡◌, refl, Bool, true, false, ◌||◌, ◌&&◌, Option, none, some, List, [], ◌∷◌, map, ◌==◌, any,
  if◌then◌else◌,
}
use navmesh_go.Base.Text.{
  Text, codes, eq_text, is_empty, trim_space, to_lower, fields, join, member,
}
use navmesh_go.Base.Assoc.{Assoc, lookup}

unfoldable pub aliases : Assoc Text
aliases =
    (codes "aarch64", codes "arm64")
    ∷ (codes "armv8", codes "arm64")
    ∷ (codes "x86_64", codes "amd64")
    ∷ (codes "x86 64", codes "amd64")
    ∷ (codes "x64", codes "amd64")
    ∷ (codes "macos", codes "darwin")
    ∷ (codes "osx", codes "darwin")
    ∷ (codes "win32", codes "windows")
    ∷ (codes "win64", codes "windows")
    ∷ (codes "linux", codes "linux")
    ∷ (codes "ubuntu", codes "linux")
    ∷ (codes "debian", codes "linux")
    ∷ (codes "centos", codes "linux")
    ∷ (codes "rhel", codes "linux")
    ∷ (codes "redhat", codes "linux")
    ∷ (codes "fedora", codes "linux")
    ∷ (codes "rocky", codes "linux")
    ∷ (codes "almalinux", codes "linux")
    ∷ (codes "opensuse", codes "linux")
    ∷ (codes "suse", codes "linux")
    ∷ (codes "alpine", codes "linux")
    ∷ []

abbrev pub separator : ℕ → ℕ
separator c = if c == b'_' || c == b'-' || c == b'/' then b' ' else c

-- The words of a name, separated by one blank each.
unfoldable pub spaced : Text → Text
spaced raw = join (codes " ") (fields (map separator raw))

unfoldable pub platform_name_contains_token : Text → Text → Bool
platform_name_contains_token value token =
    if eq_text value token then true else member token (fields value)

-- The first alias that is a token of the name decides.
unfoldable pub first_alias : Text → Assoc Text → Text
unfolding platform_name_contains_token
first_alias value [] = value
first_alias value ((alias, normalized) ∷ rest) =
    if platform_name_contains_token value alias then normalized else first_alias value rest

unfoldable pub or_else : Option Text → Text → Text
or_else none t = t
or_else (some u) t = u

unfoldable pub normalize_platform_name : Assoc Text → Text → Text
unfolding or_else lookup aliases spaced first_alias
normalize_platform_name order value =
    let raw = to_lower (trim_space value) in
    let name = spaced raw in
    or_else (lookup raw aliases) (or_else (lookup name aliases) (first_alias name order))

unfoldable pub same_platform : Assoc Text → Assoc Text → Text → Text → Bool
unfolding normalize_platform_name
same_platform order order' current target =
    let c = normalize_platform_name order current in
    let t = normalize_platform_name order' target in
    is_empty c || is_empty t || eq_text t (codes "all") || eq_text c t

unfoldable pub same_device_type : Text → Text → Bool
same_device_type current target =
    let c = trim_space current in
    let t = trim_space target in is_empty t || eq_text t (codes "all") || is_empty c || eq_text c t
