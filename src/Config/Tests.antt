-- ===== src/Config/Tests.antt =====
-- The configuration at concrete inputs.
use navmesh_go.Base.{
  ℕ, zero, suc, ◌≡◌, refl, true, Option, none, some, List, [], ◌∷◌, ◌++◌, ◌<◌, subst, All, arith,
  length,
}
use navmesh_go.Base.Text.{Text, codes, eq_text, member, trim_space}
use navmesh_go.Config.{
  document, mapping, scalar, Node, node, Content, nil, cell, set_config_scalar, config_string_value,
  ensure_performance_config_defaults,
}
use navmesh_go.Config.Trees.{IsTree, AllTrees}
use navmesh_go.Config.Read.{IsWritten, set_config_scalar-IsWritten}
use navmesh_go.Config.Defaults.{IsComplete, ensure_performance-IsComplete}
use navmesh_go.Config.Portable.{
  Rand, signing_key, materialize_default_config, upgrade_legacy_config_path,
}
use navmesh_go.Config.Secrets.{some-injective, GivesBytes, HasSecrets, materialize-HasSecrets}
use navmesh_go.Config.Upgrade.{IsUpgraded, upgrade-IsUpgraded}

abbrev text_node : Text → Node
text_node value = node scalar (codes "!!str") value nil

abbrev section : List (Text × Text) → Content
section [] = nil
section ((key, value) ∷ rest) = cell (text_node key) (cell (text_node value) (section rest))

-- jwt and navmesh with the public secrets, and a path of an older version.
abbrev config : Node
config = node document [] [] (
    cell
      (node mapping [] [] (
        cell (text_node (codes "jwt")) (
          cell (node mapping [] [] (section ((codes "signing-key", codes "navmesh") ∷ []))) (
            cell (text_node (codes "sqlite"))
              (cell (node mapping [] [] (section ((codes "path", codes "./data/") ∷ []))) nil)))))
      nil)

config-IsTree : IsTree config
unfolding IsTree AllTrees
config-IsTree = (
  λ e. absurd cc,
  (
    (
      λ e. refl,
      (
        (λ e. refl, tt),
        (
          (λ e. refl, ((λ e. refl, tt), ((λ e. refl, tt), tt))),
          ((λ e. refl, tt), ((λ e. refl, ((λ e. refl, tt), ((λ e. refl, tt), tt))), tt)),
        ),
      ),
    ),
    tt,
  ),
)

read_test : config_string_value config signing_key ≡ codes "navmesh"
unfolding config_string_value trim_space eq_text
read_test = refl

abbrev zeros : ℕ → List ℕ
zeros zero = []
zeros (suc n) = 0 ∷ zeros n

abbrev rand : Rand
rand n = some (zeros n)

set_config_scalar-IsSet_example :
    IsWritten config
      (set_config_scalar config (codes "zap" ∷ codes "level" ∷ []) (codes "!!str") (codes " info"))
      (codes "zap" ∷ codes "level" ∷ [])
      (codes " info")
set_config_scalar-IsSet_example =
    set_config_scalar-IsWritten config (codes "zap") (codes "level" ∷ []) (codes "!!str")
      (codes " info") config-IsTree

ensure_performance-IsComplete_example :
    IsComplete config (ensure_performance_config_defaults config).0
ensure_performance-IsComplete_example = ensure_performance-IsComplete config config-IsTree

upgrade-IsUpgraded_example :
    IsUpgraded config (codes "sqlite" ∷ codes "path" ∷ []) (codes "/opt/nav/data") (
      upgrade_legacy_config_path
        (λ p. p)
        config
        (codes "sqlite" ∷ codes "path" ∷ [])
        (codes "/opt/nav/data"))
upgrade-IsUpgraded_example =
    upgrade-IsUpgraded (λ p. p) config (codes "sqlite") (codes "path" ∷ []) (codes "/opt/nav/data")
      config-IsTree

upgraded_test :
    (upgrade_legacy_config_path
      (λ p. p)
      config
      (codes "sqlite" ∷ codes "path" ∷ [])
      (codes "/opt/nav/data")).1
    ≡ true
unfolding upgrade_legacy_config_path trim_space eq_text member
upgraded_test = refl

length-zeros : (n : ℕ) → length (zeros n) ≡ n
length-zeros zero = refl
length-zeros (suc n) = omega (arith, length-zeros n)

zeros_small : (n : ℕ) → All (λ b. b < 256) (zeros n)
zeros_small zero = tt
zeros_small (suc n) = (omega arith, zeros_small n)

rand-GivesBytes : GivesBytes rand
rand-GivesBytes n bytes e =
    subst (λ l. (length l ≡ n) × All (λ b. b < 256) l) (some-injective e)
      (length-zeros n, zeros_small n)

abbrev join_paths : Text → Text → Text
join_paths a b = a ++ (b'/' ∷ b)

abbrev made : Option Node
made = materialize_default_config rand (λ p. p) join_paths (codes "/opt/nav") config

abbrev new_config : Node
new_config = elim made [ none ↦ config | some c ↦ c ]

materialize-HasSecrets_example : HasSecrets new_config
unfolding materialize_default_config eq_text trim_space
materialize-HasSecrets_example =
    materialize-HasSecrets rand rand-GivesBytes (λ p. p) join_paths (codes "/opt/nav") config
      new_config config-IsTree refl
