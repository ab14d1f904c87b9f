-- ===== src/Config/Portable.antt =====
-- The configuration that is made next to the program, and the upgrade of an older one, in utils/config.go.
-- `rand` is rand.Read on a slice of some length, which may fail. Decoding and encoding are left out.
use navmesh_go.Base.{
  ℕ, ◌+◌, ◌-◌, ◌/◌, ◌%◌, Bool, true, false, ◌||◌, Option, none, some, List, [], ◌∷◌, ◌==◌, ltb,
  if◌then◌else◌,
}
use navmesh_go.Base.Assoc.{◌>>=◌}
use navmesh_go.Base.Text.{Text, codes, eq_text, is_empty, trim_space, member}
use navmesh_go.Config.{
  Node, node, document, mapping, scalar, other_kind, Content, set_value, find_value,
  root_mapping_node, on_root, set_config_string, config_string_value,
  ensure_performance_config_defaults,
}

-- hex.EncodeToString
abbrev pub hex_digit : ℕ → ℕ
hex_digit n = if ltb n 10 then b'0' + n else b'a' + (n - 10)

unfoldable pub hex_encode : List ℕ → Text
hex_encode [] = []
hex_encode (b ∷ bytes) = hex_digit (b / 16) ∷ hex_digit (b % 16) ∷ hex_encode bytes

abbrev pub Rand : Type 0
Rand = ℕ → Option (List ℕ)

-- A size that is zero or less is 0.
unfoldable pub random_config_secret : Rand → ℕ → Option Text
unfolding hex_encode
random_config_secret rand size = do
  bytes ← rand (if ltb 0 size then size else 32)
  some (hex_encode bytes)

-- A blank value or the one that the default configuration has is replaced.
unfoldable pub replace_secret : Rand → Node → List Text → (public : Text) → ℕ → Option Node
unfolding random_config_secret config_string_value set_config_string
replace_secret rand cfg keys public size =
    let value = config_string_value cfg keys in
    if is_empty value || eq_text value public
    then random_config_secret rand size >>= (λ secret. some (set_config_string cfg keys secret))
    else some cfg

-- The keys of the paths, and the paths.
abbrev pub paths_of : (Text → Text → Text) → Text → List (List Text × Text)
paths_of join base_dir =
    let data_dir = join base_dir (codes "data") in
    (codes "sqlite" ∷ codes "path" ∷ [], data_dir)
    ∷ (codes "local" ∷ codes "oss-path" ∷ [], join data_dir (codes "oss"))
    ∷ (codes "local" ∷ codes "cache-path" ∷ [], join data_dir (codes "cache.json"))
    ∷ (codes "local" ∷ codes "ip2geo-path" ∷ [], join data_dir (codes "ip2geo"))
    ∷ (codes "zap" ∷ codes "director" ∷ [], join base_dir (codes "logback"))
    ∷ (codes "navmesh" ∷ codes "data-dir" ∷ [], join data_dir (codes "navmesh"))
    ∷ []

-- The calls of setConfigPath, in order.
unfoldable pub set_config_paths : (Text → Text) → Node → List (List Text × Text) → Node
unfolding set_config_string
set_config_paths clean cfg [] = cfg
set_config_paths clean cfg ((keys, path) ∷ paths) =
    set_config_paths clean (set_config_string cfg keys (clean path)) paths

abbrev pub signing_key : List Text
signing_key = codes "jwt" ∷ codes "signing-key" ∷ []

abbrev pub register_token : List Text
register_token = codes "navmesh" ∷ codes "device-register-token" ∷ []

abbrev pub public_key : Text
public_key = codes "navmesh"

abbrev pub public_token : Text
public_token = codes "navfirst@2020"

unfoldable pub materialize_default_config :
    Rand
    → (clean : Text → Text) → (join : Text → Text → Text) → (base_dir : Text) → Node
    → Option Node
unfolding set_config_paths replace_secret ensure_performance_config_defaults
materialize_default_config rand clean join base_dir default_config = do
  let placed = set_config_paths clean default_config (paths_of join base_dir)
  let complete = (ensure_performance_config_defaults placed).0
  cfg ← replace_secret rand complete signing_key public_key 32
  replace_secret rand cfg register_token public_token 24

-- strings.TrimSuffix(path, "/")
abbrev pub trim_slash : Text → Text
trim_slash [] = []
trim_slash (c ∷ []) = if c == b'/' then [] else c ∷ []
trim_slash (c ∷ d ∷ s) = c ∷ trim_slash (d ∷ s)

unfoldable pub is_legacy_relative_path : Text → Bool
is_legacy_relative_path path = member (trim_slash (trim_space path)) (
    codes "./data"
    ∷ codes "data"
    ∷ codes "./data/oss"
    ∷ codes "data/oss"
    ∷ codes "./data/cache.json"
    ∷ codes "data/cache.json"
    ∷ codes "./data/ip2geo"
    ∷ codes "data/ip2geo"
    ∷ codes "./data/navmesh"
    ∷ codes "data/navmesh"
    ∷ codes "logback"
    ∷ codes "./logback"
    ∷ [])

-- The value node of the last key, if it is to be changed.
abbrev pub upgraded : Text → Option Node → Option Node
upgraded value none = none
upgraded value (some (node scalar tag old content)) =
    if is_legacy_relative_path old then some (node scalar (codes "!!str") value content) else none
upgraded value (some (node mapping tag old content)) = none
upgraded value (some (node document tag old content)) = none
upgraded value (some (node other_kind tag old content)) = none

abbrev pub in_mapping : (Content → Option Content) → Option Node → Option Node
in_mapping change none = none
in_mapping change (some (node mapping tag value content)) = do
  content' ← change content
  some (node mapping tag value content')
in_mapping change (some (node document tag value content)) = none
in_mapping change (some (node scalar tag value content)) = none
in_mapping change (some (node other_kind tag value content)) = none

-- The content with the path upgraded under a key and those that follow, if it is.
unfoldable pub upgrade_keys : Text → Text → List Text → Content → Option Content
unfolding is_legacy_relative_path find_value set_value
upgrade_keys value key [] content = do
  new ← upgraded value (find_value key content)
  some (set_value key new content)
upgrade_keys value key (k ∷ ks) content = do
  new ← in_mapping (upgrade_keys value k ks) (find_value key content)
  some (set_value key new content)

abbrev pub root_content : Option Node → Option Content
root_content none = none
root_content (some (node kind tag value content)) = some content

abbrev pub or_unchanged : Node → Option Content → Node × Bool
or_unchanged cfg none = (cfg, false)
or_unchanged cfg (some content) = (on_root (λ old. content) cfg, true)

-- The configuration, and whether it changed. Every call of the code gives keys.
unfoldable pub upgrade_legacy_config_path :
    (clean : Text → Text) → Node → List Text → (path : Text) → Node × Bool
unfolding upgrade_keys on_root root_mapping_node
upgrade_legacy_config_path clean cfg [] path = (cfg, false)
upgrade_legacy_config_path clean cfg (key ∷ keys) path =
    or_unchanged cfg (root_content (root_mapping_node cfg) >>= upgrade_keys (clean path) key keys)
