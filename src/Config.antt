-- ===== src/Config.antt =====
-- utils/config.go: the configuration, which is a tree of YAML nodes that the code reads and changes.
-- Of a node these are the kind, the tag, the value and the content. The content of a mapping is the keys
-- and the values in turn. A change through a pointer is a new tree. The paths are those of Unix, where
-- ToSlash changes nothing; `clean` and `join` are filepath.Clean and filepath.Join. The files, the
-- arguments and the environment of the program are not modelled.
pub mod Trees
pub mod Read
pub mod Defaults
pub mod Portable
pub mod Secrets
pub mod Legacy
pub mod Upgrade
mod Tests
use navmesh_go.Base.{
  ◌≡◌, Bool, true, false, ◌||◌, not, Option, none, some, List, [], ◌∷◌, ◌++◌, if◌then◌else◌,
}
use navmesh_go.Base.Text.{Text, codes, eq_text, is_empty, trim_space, member}

pub data Kind : Type 0 where
  document mapping scalar other_kind : Kind

mutual
  pub data Node : Type 0 where
    node : Kind → (tag value : Text) → Content → Node

  pub data Content : Type 0 where
    nil : Content
    cell : Node → Content → Content

abbrev pub value_of : Node → Text
value_of (node kind tag value content) = value

abbrev pub fresh_mapping : Content → Node
fresh_mapping content = node mapping [] [] content

unfoldable pub scalar_string_node : Text → Node
scalar_string_node value = node scalar (codes "!!str") value nil

-- The loop of mappingValueNode.
unfoldable pub find_value : Text → Content → Option Node
find_value key nil = none
find_value key (cell k nil) = none
find_value key (cell k (cell v rest)) =
    let later = find_value key rest in if eq_text (value_of k) key then some v else later

unfoldable pub mapping_value_node : Node → Text → Option Node
unfolding find_value
mapping_value_node (node mapping tag value content) key = find_value key content
mapping_value_node (node document tag value content) key = none
mapping_value_node (node scalar tag value content) key = none
mapping_value_node (node other_kind tag value content) key = none

-- setMappingValueNode on the content of a mapping.
unfoldable pub set_value : Text → Node → Content → Content
unfolding scalar_string_node
set_value key new nil = cell (scalar_string_node key) (cell new nil)
set_value key new (cell k nil) = cell k (cell (scalar_string_node key) (cell new nil))
set_value key new (cell k (cell v rest)) =
    let later = set_value key new rest in
    if eq_text (value_of k) key then cell k (cell new rest) else cell k (cell v later)

-- rootMappingNode, which creates nothing.
unfoldable pub root_mapping_node : Node → Option Node
root_mapping_node (node document tag value nil) = none
root_mapping_node (node document tag value (cell (node mapping t v c) rest)) =
    some (node mapping t v c)
root_mapping_node (node document tag value (cell (node document t v c) rest)) = none
root_mapping_node (node document tag value (cell (node scalar t v c) rest)) = none
root_mapping_node (node document tag value (cell (node other_kind t v c) rest)) = none
root_mapping_node (node mapping tag value content) = some (node mapping tag value content)
root_mapping_node (node scalar tag value content) = none
root_mapping_node (node other_kind tag value content) = none

-- A change of the content of a mapping; another node becomes a mapping without content first.
abbrev pub on_content : (Content → Content) → Node → Node
on_content change (node mapping tag value content) = node mapping tag value (change content)
on_content change (node document tag value content) = fresh_mapping (change nil)
on_content change (node scalar tag value content) = fresh_mapping (change nil)
on_content change (node other_kind tag value content) = fresh_mapping (change nil)

-- A change of the content of the mapping that rootMappingNode finds or creates.
unfoldable pub on_root : (Content → Content) → Node → Node
on_root change (node document tag value nil) =
    node document tag value (cell (fresh_mapping (change nil)) nil)
on_root change (node document tag value (cell root rest)) =
    node document tag value (cell (on_content change root) rest)
on_root change (node mapping tag value content) = node mapping tag value (change content)
on_root change (node scalar tag value content) = node mapping tag value (change nil)
on_root change (node other_kind tag value content) = node mapping tag value (change nil)

abbrev pub child_of : Option Node → Node
child_of none = fresh_mapping nil
child_of (some n) = n

-- The loop of setConfigScalar, for a key and those that follow it.
unfoldable pub set_keys : Text → List Text → Node → Content → Content
unfolding set_value find_value
set_keys key [] new content = set_value key new content
set_keys key (k ∷ ks) new content =
    set_value key (on_content (set_keys k ks new) (child_of (find_value key content))) content

unfoldable pub set_config_scalar : Node → List Text → (tag value : Text) → Node
unfolding set_keys on_root
set_config_scalar cfg [] tag value = cfg
set_config_scalar cfg (key ∷ keys) tag value =
    on_root (set_keys key keys (node scalar tag value nil)) cfg

unfoldable pub set_config_string : Node → List Text → Text → Node
unfolding set_config_scalar
set_config_string cfg keys value = set_config_scalar cfg keys (codes "!!str") value

abbrev pub with_node : (Node → Option Node) → Option Node → Option Node
with_node f none = none
with_node f (some n) = f n

-- The node under some keys.
unfoldable pub node_at : List Text → Node → Option Node
unfolding mapping_value_node
node_at [] n = some n
node_at (key ∷ keys) n = with_node (node_at keys) (mapping_value_node n key)

abbrev pub string_of : Option Node → Text
string_of none = []
string_of (some n) = trim_space (value_of n)

unfoldable pub config_string_value : Node → List Text → Text
unfolding node_at root_mapping_node
config_string_value cfg keys = string_of (with_node (node_at keys) (root_mapping_node cfg))

-- The configuration, and whether it changed.
unfoldable pub ensure_config_default : Node → List Text → (tag value : Text) → Node × Bool
unfolding config_string_value set_config_scalar
ensure_config_default cfg [] tag value = (cfg, false)
ensure_config_default cfg (key ∷ keys) tag value =
    if not (is_empty (config_string_value cfg (key ∷ keys)))
    then (cfg, false)
    else (set_config_scalar cfg (key ∷ keys) tag value, true)

-- The arguments of one call of ensureConfigDefault.
pub record Default : Type 0 where
  pub keys : List Text
  pub tag : Text
  pub value : Text

abbrev default_of : (section key tag value : Text) → Default
default_of section key tag value = record { keys = section ∷ key ∷ []; tag = tag; value = value }

abbrev pub performance_defaults : List Default
performance_defaults =
    default_of (codes "sqlite") (codes "log-mode") (codes "!!str") (codes "warn")
    ∷ default_of (codes "sqlite") (codes "max-idle-conns") (codes "!!int") (codes "8")
    ∷ default_of (codes "sqlite") (codes "max-open-conns") (codes "!!int") (codes "8")
    ∷ default_of (codes "navmesh") (codes "access-log-queue-size") (codes "!!int") (codes "8192")
    ∷ default_of (codes "navmesh") (codes "access-log-batch-size") (codes "!!int") (codes "200")
    ∷ default_of (codes "navmesh") (codes "access-log-flush-interval") (codes "!!str")
        (codes "100ms")
    ∷ default_of (codes "navmesh") (codes "database-slow-threshold") (codes "!!str") (codes "200ms")
    ∷ []

-- The calls of ensureConfigDefault for some defaults, in order.
unfoldable pub ensure_defaults : Node → List Default → Node × Bool
unfolding ensure_config_default
ensure_defaults cfg [] = (cfg, false)
ensure_defaults cfg (d ∷ ds) =
    let (cfg', changed) = ensure_config_default cfg d.keys d.tag d.value in
    let (last, more) = ensure_defaults cfg' ds in (last, changed || more)

unfoldable pub ensure_performance_config_defaults : Node → Node × Bool
unfolding ensure_defaults
ensure_performance_config_defaults cfg = ensure_defaults cfg performance_defaults
