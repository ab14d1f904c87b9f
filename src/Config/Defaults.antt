-- ===== src/Config/Defaults.antt =====
-- The defaults that an older configuration is given.
use navmesh_go.Base.{
  ◌≡◌, ◌∙◌, refl, ap, Bool, true, false, List, [], ◌∷◌, if◌then◌else◌, Bool-cases, inl, inr, All,
}
use navmesh_go.Base.Text.{Text, is_empty, trim_space, eq_text}
use navmesh_go.Config.{
  Node, Default, performance_defaults, config_string_value, ensure_config_default, ensure_defaults,
  ensure_performance_config_defaults,
}
use navmesh_go.Config.Trees.{IsTree}
use navmesh_go.Config.Read.{diverge, set_config_scalar-IsWritten, set_config_scalar-IsTree}

abbrev has_keys : List Text → Bool
has_keys [] = false
has_keys (key ∷ keys) = true

-- A default that is read back as it is.
abbrev IsSound : Default → Type 0
IsSound d = (has_keys d.keys ≡ true) × (trim_space d.value ≡ d.value) × (is_empty d.value ≡ false)

-- Neither of the keys of a default and those of the later ones are a start of the other.
abbrev AreApart : List Default → Type 0
AreApart [] = Unit
AreApart (d ∷ ds) =
    All (λ e. (diverge d.keys e.keys ≡ true) × (diverge e.keys d.keys ≡ true)) ds × AreApart ds

-- The value that was there, or else the default.
abbrev pub expected : Node → Default → Text
expected cfg d =
    if is_empty (config_string_value cfg d.keys) then d.value else config_string_value cfg d.keys

-- What one call makes of a configuration.
record IsEnsured (cfg cfg' : Node) (d : Default) : Type 0 where
  tree : IsTree cfg'
  value : config_string_value cfg' d.keys ≡ expected cfg d
  others :
      (keys : List Text)
      → diverge d.keys keys ≡ true
      → config_string_value cfg' keys ≡ config_string_value cfg keys

ensure_config_default-IsEnsured :
    (cfg : Node) (keys : List Text) (tag value : Text)
    → IsTree cfg
    → (has_keys keys ≡ true) × (trim_space value ≡ value)
    → IsEnsured cfg
        (ensure_config_default cfg keys tag value).0
        (record { keys = keys; tag = tag; value = value })
unfolding ensure_config_default
ensure_config_default-IsEnsured cfg [] tag value h (some_keys, trimmed) = absurd cc
ensure_config_default-IsEnsured cfg (key ∷ keys) tag value h (some_keys, trimmed) =
    let d : Default = record { keys = key ∷ keys; tag = tag; value = value } in
    elim (Bool-cases (is_empty (config_string_value cfg (key ∷ keys)))) [
      | inl missing ↦
          let s = set_config_scalar-IsWritten cfg key keys tag value h in
          rw missing record {
            tree = set_config_scalar-IsTree cfg (key ∷ keys) tag value h;
            value = s.read ∙ trimmed ∙ rw missing refl;
            others = s.others;
          }
      | inr there ↦ rw there record { tree = h; value = rw there refl; others = λ keys' x. refl }
    ]

ensure_defaults-others :
    (cfg : Node) (ds : List Default) (keys : List Text)
    → IsTree cfg
    → All IsSound ds
    → All (λ d. diverge d.keys keys ≡ true) ds
    → config_string_value (ensure_defaults cfg ds).0 keys ≡ config_string_value cfg keys
unfolding ensure_defaults
ensure_defaults-others cfg [] keys h s a = refl
ensure_defaults-others cfg (d ∷ ds) keys h ((has, trimmed, not_blank), ss) (a, as') =
    let e = ensure_config_default-IsEnsured cfg d.keys d.tag d.value h (has, trimmed) in
    ensure_defaults-others (ensure_config_default cfg d.keys d.tag d.value).0 ds keys e.tree ss as'
    ∙ e.others keys a

-- What is expected of defaults whose keys a change left alone.
same_expected :
    (cfg cfg' cfg'' : Node) (keys : List Text) (ds : List Default)
    → ((other : List Text)
        → diverge keys other ≡ true
        → config_string_value cfg' other ≡ config_string_value cfg other)
    → All (λ e. (diverge keys e.keys ≡ true) × (diverge e.keys keys ≡ true)) ds
    → All (λ e. config_string_value cfg'' e.keys ≡ expected cfg' e) ds
    → All (λ e. config_string_value cfg'' e.keys ≡ expected cfg e) ds
same_expected cfg cfg' cfg'' keys [] others a h = tt
same_expected cfg cfg' cfg'' keys (e ∷ es) others ((a, b), as') (h, hs) = (
  h ∙ ap (λ t. if is_empty t then e.value else t) (others e.keys a),
  same_expected cfg cfg' cfg'' keys es others as' hs,
)

seconds :
    (keys : List Text) (ds : List Default)
    → All (λ e. (diverge keys e.keys ≡ true) × (diverge e.keys keys ≡ true)) ds
    → All (λ e. diverge e.keys keys ≡ true) ds
seconds keys [] a = tt
seconds keys (e ∷ es) ((a, b), as') = (b, seconds keys es as')

ensure_defaults-expected :
    (cfg : Node) (ds : List Default)
    → IsTree cfg
    → All IsSound ds
    → AreApart ds
    → All (λ d. config_string_value (ensure_defaults cfg ds).0 d.keys ≡ expected cfg d) ds
unfolding ensure_defaults
ensure_defaults-expected cfg [] h s a = tt
ensure_defaults-expected cfg (d ∷ ds) h ((has, trimmed, not_blank), ss) (a, as') =
    let cfg' = (ensure_config_default cfg d.keys d.tag d.value).0 in
    let e = ensure_config_default-IsEnsured cfg d.keys d.tag d.value h (has, trimmed) in
    (
      ensure_defaults-others cfg' ds d.keys e.tree ss (seconds d.keys ds a) ∙ e.value,
      same_expected cfg cfg' (ensure_defaults cfg' ds).0 d.keys ds e.others a
          (ensure_defaults-expected cfg' ds e.tree ss as'),
    )

-- A default whose value is there changes nothing.
ensure_config_default-there :
    (cfg : Node) (keys : List Text) (tag value : Text)
    → is_empty (config_string_value cfg keys) ≡ false
    → ensure_config_default cfg keys tag value ≡ (cfg, false)
unfolding ensure_config_default
ensure_config_default-there cfg [] tag value h = refl
ensure_config_default-there cfg (key ∷ keys) tag value h = rw h refl

ensure_defaults-there :
    (cfg : Node) (ds : List Default)
    → All (λ d. is_empty (config_string_value cfg d.keys) ≡ false) ds
    → ensure_defaults cfg ds ≡ (cfg, false)
unfolding ensure_defaults
ensure_defaults-there cfg [] h = refl
ensure_defaults-there cfg (d ∷ ds) (h, hs) =
    rw (ensure_config_default-there cfg d.keys d.tag d.value h, ensure_defaults-there cfg ds hs)
      refl

expected_there :
    (cfg : Node) (d : Default) → is_empty d.value ≡ false → is_empty (expected cfg d) ≡ false
expected_there cfg d h = elim (Bool-cases (is_empty (config_string_value cfg d.keys))) [
  | inl e ↦ rw e h
  | inr e ↦ rw e e
]

settings_there :
    (cfg cfg' : Node) (ds : List Default)
    → All IsSound ds
    → All (λ d. config_string_value cfg' d.keys ≡ expected cfg d) ds
    → All (λ d. is_empty (config_string_value cfg' d.keys) ≡ false) ds
settings_there cfg cfg' [] s h = tt
settings_there cfg cfg' (d ∷ ds) ((has, trimmed, not_blank), ss) (h, hs) =
    (ap is_empty h ∙ expected_there cfg d not_blank, settings_there cfg cfg' ds ss hs)

performance-IsSound : All IsSound performance_defaults
unfolding trim_space
performance-IsSound = (
  (refl, refl, refl),
  (
    (refl, refl, refl),
    (
      (refl, refl, refl),
      ((refl, refl, refl), ((refl, refl, refl), ((refl, refl, refl), ((refl, refl, refl), tt)))),
    ),
  ),
)

performance-AreApart : AreApart performance_defaults
unfolding eq_text
performance-AreApart = (
  (
    (refl, refl),
    ((refl, refl), ((refl, refl), ((refl, refl), ((refl, refl), ((refl, refl), tt))))),
  ),
  (
    ((refl, refl), ((refl, refl), ((refl, refl), ((refl, refl), ((refl, refl), tt))))),
    (
      ((refl, refl), ((refl, refl), ((refl, refl), ((refl, refl), tt)))),
      (
        ((refl, refl), ((refl, refl), ((refl, refl), tt))),
        (((refl, refl), ((refl, refl), tt)), (((refl, refl), tt), (tt, tt))),
      ),
    ),
  ),
)

-- What ensurePerformanceConfigDefaults makes of a configuration.
pub record IsComplete (cfg cfg' : Node) : Type 0 where
  pub values : All (λ d. config_string_value cfg' d.keys ≡ expected cfg d) performance_defaults
  pub others :
      (keys : List Text)
      → All (λ d. diverge d.keys keys ≡ true) performance_defaults
      → config_string_value cfg' keys ≡ config_string_value cfg keys
  pub complete : ensure_performance_config_defaults cfg' ≡ (cfg', false)

-- In a tree whose mappings have a value for each key, afterwards each of the seven settings has the
-- value that it had, or the default where that was blank; keys that are neither a start nor a
-- continuation of those of a setting are read as before; and a second call changes nothing and says so.
pub ensure_performance-IsComplete :
    (cfg : Node) → IsTree cfg → IsComplete cfg (ensure_performance_config_defaults cfg).0
unfolding ensure_performance_config_defaults
ensure_performance-IsComplete cfg h =
    let values =
      ensure_defaults-expected cfg performance_defaults h performance-IsSound
        performance-AreApart in
    let cfg' = (ensure_defaults cfg performance_defaults).0 in
    record {
      values = values;
      others =
          λ keys a. ensure_defaults-others cfg performance_defaults keys h performance-IsSound a;
      complete =
          ensure_defaults-there cfg' performance_defaults
            (settings_there cfg cfg' performance_defaults performance-IsSound values);
    }

ensure_defaults-IsTree :
    (cfg : Node) (ds : List Default)
    → IsTree cfg
    → All IsSound ds
    → IsTree (ensure_defaults cfg ds).0
unfolding ensure_defaults
ensure_defaults-IsTree cfg [] h s = h
ensure_defaults-IsTree cfg (d ∷ ds) h ((has, trimmed, not_blank), ss) =
    ensure_defaults-IsTree (ensure_config_default cfg d.keys d.tag d.value).0 ds
      (ensure_config_default-IsEnsured cfg d.keys d.tag d.value h (has, trimmed)).tree ss

pub ensure_performance-IsTree :
    (cfg : Node) → IsTree cfg → IsTree (ensure_performance_config_defaults cfg).0
unfolding ensure_performance_config_defaults
ensure_performance-IsTree cfg h =
    ensure_defaults-IsTree cfg performance_defaults h performance-IsSound
