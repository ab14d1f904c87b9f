-- ===== src/Config/Secrets.antt =====
-- The secrets of a new configuration.
use navmesh_go.Base.{
  ℕ, ◌*◌, ◌/◌, ◌%◌, ◌<◌, ◌≡◌, ◌≢◌, ◌∙◌, sym, refl, ap, subst, Bool, true, false, ◌||◌, Option, none,
  some, List, [], ◌∷◌, arith, ltb, Bool-cases, inl, inr, All, length, on_if,
}
use navmesh_go.Base.Assoc.{◌>>=◌, bind_assoc}
use navmesh_go.Base.Text.{
  Text, codes, is_space, trim_left, trim_right, trim, trim_space, eq_text, eq_text_iff, is_empty,
}
use navmesh_go.Config.{
  Node, set_config_string, config_string_value, ensure_performance_config_defaults,
}
use navmesh_go.Config.Trees.{IsTree}
use navmesh_go.Config.Read.{diverge, set_config_scalar-IsWritten, set_config_scalar-IsTree}
use navmesh_go.Config.Defaults.{ensure_performance-IsTree}
use navmesh_go.Config.Portable.{
  hex_digit, hex_encode, Rand, random_config_secret, replace_secret, paths_of, set_config_paths,
  signing_key, register_token, public_key, public_token, materialize_default_config,
}

-- What rand.Read gives, if it does not fail: as many bytes as it is asked for.
abbrev pub GivesBytes : Rand → Type 0
GivesBytes rand =
    (n : ℕ) (bytes : List ℕ) → rand n ≡ some bytes → (length bytes ≡ n) × All (λ b. b < 256) bytes

hex_digit-not_space : (n : ℕ) → n < 16 → is_space (hex_digit n) ≡ false
unfolding is_space
hex_digit-not_space n h = ground arith

hex_encode-not_space :
    (bytes : List ℕ) → All (λ b. b < 256) bytes → All (λ c. is_space c ≡ false) (hex_encode bytes)
unfolding hex_encode
hex_encode-not_space [] h = tt
hex_encode-not_space (b ∷ bytes) (h, hs) = (
  hex_digit-not_space (b / 16) (omega arith),
  (hex_digit-not_space (b % 16) (omega arith), hex_encode-not_space bytes hs),
)

trim_right_none : (p : ℕ → Bool) (s : Text) → All (λ c. p c ≡ false) s → trim_right p s ≡ s
unfolding trim_right
trim_right_none p [] h = refl
trim_right_none p (c ∷ []) (h, hs) = rw h refl
trim_right_none p (c ∷ d ∷ s) (h, hs) = rw (trim_right_none p (d ∷ s) hs) refl

trim_left_none : (p : ℕ → Bool) (s : Text) → All (λ c. p c ≡ false) s → trim_left p s ≡ s
unfolding trim_left
trim_left_none p [] h = refl
trim_left_none p (c ∷ s) (h, hs) = rw h refl

trim_space_none : (s : Text) → All (λ c. is_space c ≡ false) s → trim_space s ≡ s
unfolding trim_space trim
trim_space_none s h =
    ap (trim_right is_space) (trim_left_none is_space s h) ∙ trim_right_none is_space s h

length-hex_encode : (bytes : List ℕ) → length (hex_encode bytes) ≡ 2 * length bytes
unfolding hex_encode
length-hex_encode [] = refl
length-hex_encode (b ∷ bytes) = omega (arith, length-hex_encode bytes)

pub some-injective : {A : Type 0} {x y : A} → some x ≡ some y → x ≡ y
some-injective e = cc

or_first : (a b : Bool) → a || b ≡ false → a ≡ false
or_first a b h = ground arith

or_second : (a b : Bool) → a || b ≡ false → b ≡ false
or_second a b h = ground arith

-- A value that is neither blank nor the public one.
abbrev pub IsPrivate : Text → Text → Type 0
IsPrivate public value = (is_empty value ≡ false) × (eq_text value public ≡ false)

other_length :
    (public value : Text) → 0 < length value → length value ≢ length public → IsPrivate public value
other_length public [] some_text differs = absurd (omega arith)
other_length public (c ∷ s) some_text differs = (
  refl,
  elim (Bool-cases (eq_text (c ∷ s) public)) [
    | inl same ↦ absurd (differs (ap length ((eq_text_iff (c ∷ s) public).0 same)))
    | inr e ↦ e
  ],
)

-- What a secret that is replaced where it is public leaves.
record IsReplaced (cfg cfg' : Node) (keys : List Text) (public : Text) : Type 0 where
  tree : IsTree cfg'
  private_value : IsPrivate public (config_string_value cfg' keys)
  others :
      (keys' : List Text)
      → diverge keys keys' ≡ true
      → config_string_value cfg' keys' ≡ config_string_value cfg keys'

-- The secrets of the configuration are private.
pub record HasSecrets (cfg : Node) : Type 0 where
  pub key : IsPrivate public_key (config_string_value cfg signing_key)
  pub token : IsPrivate public_token (config_string_value cfg register_token)

module _ (rand : Rand) (gives : GivesBytes rand) where
  new_secret :
      (cfg : Node) (key : Text) (keys : List Text) (public : Text) (size : ℕ) (bytes : List ℕ)
      → IsTree cfg
      → 0 < size
      → 2 * size ≢ length public
      → rand size ≡ some bytes
      → IsReplaced cfg (set_config_string cfg (key ∷ keys) (hex_encode bytes)) (key ∷ keys) public
  unfolding set_config_string
  new_secret cfg key keys public size bytes h positive differs e =
      let (count, small) = gives size bytes e in
      let s = set_config_scalar-IsWritten cfg key keys (codes "!!str") (hex_encode bytes) h in
      let read = s.read ∙ trim_space_none (hex_encode bytes) (hex_encode-not_space bytes small) in
      let sized : length (hex_encode bytes) ≡ 2 * size =
        length-hex_encode bytes ∙ ap (λ n. 2 * n) count in
      record {
        tree = set_config_scalar-IsTree cfg (key ∷ keys) (codes "!!str") (hex_encode bytes) h;
        private_value =
            subst (IsPrivate public) (sym read)
              (other_length public (hex_encode bytes) (omega arith) (λ x. differs (sym sized ∙ x)));
        others = s.others;
      }

  -- The secret that is made, if there is one.
  made_secret :
      (cfg cfg' : Node) (key : Text) (keys : List Text) (public : Text) (size : ℕ)
      (bytes : Option (List ℕ))
      → IsTree cfg
      → 0 < size
      → 2 * size ≢ length public
      → rand size ≡ bytes
      → (bytes >>= (λ b. some (set_config_string cfg (key ∷ keys) (hex_encode b)))) ≡ some cfg'
      → IsReplaced cfg cfg' (key ∷ keys) public
  made_secret cfg cfg' key keys public size none h positive differs given e = absurd cc
  made_secret cfg cfg' key keys public size (some bytes) h positive differs given e =
      subst (λ c. IsReplaced cfg c (key ∷ keys) public) (some-injective e)
        (new_secret cfg key keys public size bytes h positive differs given)

  replace_secret-IsReplaced :
      (cfg cfg' : Node) (key : Text) (keys : List Text) (public : Text) (size : ℕ)
      → IsTree cfg
      → 0 < size
      → 2 * size ≢ length public
      → replace_secret rand cfg (key ∷ keys) public size ≡ some cfg'
      → IsReplaced cfg cfg' (key ∷ keys) public
  unfolding replace_secret random_config_secret
  replace_secret-IsReplaced cfg cfg' key keys public size h positive differs =
      let value = config_string_value cfg (key ∷ keys) in
      let sized : ltb 0 size ≡ true = ground arith in
      on_if (λ o. o ≡ some cfg' → IsReplaced cfg cfg' (key ∷ keys) public)
        (is_empty value || eq_text value public)
        (λ replaced. rw sized (λ e.
          made_secret cfg cfg' key keys public size (rand size) h positive differs refl
            (sym (bind_assoc (rand size) hex_encode (set_config_string cfg (key ∷ keys))) ∙ e)))
        (λ kept e.
          subst (λ c. IsReplaced cfg c (key ∷ keys) public) (some-injective e)
            record {
              tree = h;
              private_value = (
                or_first (is_empty value) (eq_text value public) kept,
                or_second (is_empty value) (eq_text value public) kept,
              );
              others = λ keys' d. refl;
            })

  set_config_paths-IsTree :
      (clean : Text → Text) (cfg : Node) (paths : List (List Text × Text))
      → IsTree cfg
      → IsTree (set_config_paths clean cfg paths)
  unfolding set_config_paths set_config_string
  set_config_paths-IsTree clean cfg [] h = h
  set_config_paths-IsTree clean cfg ((keys, path) ∷ paths) h =
      set_config_paths-IsTree clean (set_config_string cfg keys (clean path)) paths
        (set_config_scalar-IsTree cfg keys (codes "!!str") (clean path) h)

  with_secrets :
      (cfg cfg' : Node) (o : Option Node)
      → ((c : Node) → o ≡ some c → IsReplaced cfg c signing_key public_key)
      → (o >>= (λ c. replace_secret rand c register_token public_token 24)) ≡ some cfg'
      → HasSecrets cfg'
  unfolding eq_text
  with_secrets cfg cfg' none first e = absurd cc
  with_secrets cfg cfg' (some c) first e =
      let r = first c refl in
      let s =
        replace_secret-IsReplaced c cfg' (codes "navmesh") (codes "device-register-token" ∷ [])
          public_token 24 r.tree (omega arith) (λ x. absurd (omega arith)) e in
      record {
        key = subst (IsPrivate public_key) (sym (s.others signing_key refl)) r.private_value;
        token = s.private_value;
      }

  -- If rand.Read gives as many bytes as it is asked for, a configuration that is made from a tree whose
  -- mappings have a value for each key has a signing key and a register token that are neither blank
  -- nor those of the public default configuration, whatever the default configuration says.
  pub materialize-HasSecrets :
      (clean : Text → Text) (join : Text → Text → Text) (base_dir : Text)
      (default_config cfg : Node)
      → IsTree default_config
      → materialize_default_config rand clean join base_dir default_config ≡ some cfg
      → HasSecrets cfg
  unfolding materialize_default_config
  materialize-HasSecrets clean join base_dir default_config cfg h e =
      let placed = set_config_paths clean default_config (paths_of join base_dir) in
      let complete = (ensure_performance_config_defaults placed).0 in
      let tree =
        ensure_performance-IsTree placed
          (set_config_paths-IsTree clean default_config (paths_of join base_dir) h) in
      with_secrets complete cfg (replace_secret rand complete signing_key public_key 32)
        (λ c.
          replace_secret-IsReplaced complete c (codes "jwt") (codes "signing-key" ∷ []) public_key
            32 tree (omega arith) (λ x. absurd (omega arith)))
        e
