-- ===== src/Base/Text.antt =====
-- Go strings as lists of code points, with the functions of package strings that the program calls.
-- `strings.ToLower` is modelled on the ASCII letters; it leaves the other code points as they are.
use Prim.Native.Nat.{ℕ, ◌+◌}
use Prim.Native.Char.{code}
use Prim.Native.String.{String}
use mathlib.Core.Path.{◌≡◌, refl}
use mathlib.Core.Logic.{◌↔◌}
use mathlib.Core.Bool.{Bool, true, false, ◌&&◌, ◌||◌, not}
use mathlib.Core.List.{List, [], ◌∷◌, ◌++◌, map}
use native.Mathlib.Omega.{arith}
use navmesh_go.Base.Tests.{leb, ◌==◌, if◌then◌else◌}
use navmesh_go.Base.Lists.{any, keep}

abbrev pub Text : Type 0
Text = List ℕ

-- A text literal.
abbrev pub codes : String → Text
codes String.[] = []
codes (String.◌∷◌ c s) = code c ∷ codes s

-- s == t
unfoldable pub eq_text : Text → Text → Bool
eq_text [] [] = true
eq_text [] (b ∷ ys) = false
eq_text (a ∷ xs) [] = false
eq_text (a ∷ xs) (b ∷ ys) = a == b && eq_text xs ys

eq_text-true : (s t : Text) → eq_text s t ≡ true → s ≡ t
unfolding eq_text
eq_text-true [] [] h = refl
eq_text-true [] (b ∷ ys) h = cc
eq_text-true (a ∷ xs) [] h = cc
eq_text-true (a ∷ xs) (b ∷ ys) h = ground (arith, eq_text-true xs ys)

pub eq_text_refl : (s : Text) → eq_text s s ≡ true
unfolding eq_text
eq_text_refl [] = refl
eq_text_refl (a ∷ xs) = ground (arith, eq_text_refl xs)

pub eq_text_iff : (s t : Text) → (eq_text s t ≡ true) ↔ (s ≡ t)
eq_text_iff s t = (eq_text-true s t, λ e. rw e (eq_text_refl t))

-- s == ""
abbrev pub is_empty : Text → Bool
is_empty [] = true
is_empty (a ∷ xs) = false

-- unicode.IsSpace
unfoldable pub is_space : ℕ → Bool
is_space c =
    (leb 9 c && leb c 13)
    || c == 32
    || c == 0x85
    || c == 0xa0
    || c == 0x1680
    || (leb 0x2000 c && leb c 0x200a)
    || c == 0x2028
    || c == 0x2029
    || c == 0x202f
    || c == 0x205f
    || c == 0x3000

-- strings.TrimLeftFunc
unfoldable pub trim_left : (ℕ → Bool) → Text → Text
trim_left p [] = []
trim_left p (c ∷ s) = let rest = trim_left p s in if p c then rest else c ∷ s

-- strings.TrimRightFunc
unfoldable pub trim_right : (ℕ → Bool) → Text → Text
trim_right p [] = []
trim_right p (c ∷ s) = elim (trim_right p s) [ [] ↦ if p c then [] else c ∷ [] | d ∷ r ↦ c ∷ d ∷ r ]

-- strings.TrimFunc
unfoldable pub trim : (ℕ → Bool) → Text → Text
unfolding trim_left trim_right
trim p s = trim_right p (trim_left p s)

-- strings.TrimSpace
unfoldable pub trim_space : Text → Text
unfolding trim is_space
trim_space s = trim is_space s

-- strings.Trim(s, cutset)
unfoldable pub trim_set : Text → Text → Text
unfolding trim
trim_set s cutset = trim (λ c. any (λ d. d == c) cutset) s

abbrev pub lower : ℕ → ℕ
lower c = if leb b'A' c && leb c b'Z' then c + 32 else c

-- strings.ToLower
unfoldable pub to_lower : Text → Text
to_lower s = map lower s

-- The pieces of `s` between the separators, of which the first is still open: strings.Split with a
-- separator of one character gives the first and the others.
unfoldable pub split_head : ℕ → Text → Text
split_head sep [] = []
split_head sep (c ∷ s) = let rest = split_head sep s in if c == sep then [] else c ∷ rest

unfoldable pub split_tail : ℕ → Text → List Text
unfolding split_head
split_tail sep [] = []
split_tail sep (c ∷ s) =
    let rest = split_tail sep s in if c == sep then split_head sep s ∷ rest else rest

unfoldable pub split : ℕ → Text → List Text
unfolding split_tail
split sep s = split_head sep s ∷ split_tail sep s

-- strings.Join
unfoldable pub join_rest : Text → List Text → Text
join_rest sep [] = []
join_rest sep (t ∷ ts) = sep ++ (t ++ join_rest sep ts)

unfoldable pub join : Text → List Text → Text
unfolding join_rest
join sep [] = []
join sep (t ∷ ts) = t ++ join_rest sep ts

-- strings.HasPrefix
unfoldable pub has_prefix : Text → Text → Bool
has_prefix s [] = true
has_prefix [] (p ∷ ps) = false
has_prefix (c ∷ s) (p ∷ ps) = c == p && has_prefix s ps

-- strings.Contains
unfoldable pub contains : Text → Text → Bool
unfolding has_prefix
contains [] sub = has_prefix [] sub
contains (c ∷ s) sub = has_prefix (c ∷ s) sub || contains s sub

-- strings.Split(strings.TrimSpace(…)) at work
split_test : split b',' (codes "a,,b c,") ≡ codes "a" ∷ [] ∷ codes "b c" ∷ [] ∷ []
unfolding split
split_test = refl

trim_test : trim_space (codes "  a b ") ≡ codes "a b"
unfolding trim_space
trim_test = refl

cons_head : ℕ → List Text → List Text
cons_head c [] = (c ∷ []) ∷ []
cons_head c (w ∷ ws) = (c ∷ w) ∷ ws

-- The pieces between white space.
words : Text → List Text
unfolding cons_head is_space
words [] = [] ∷ []
words (c ∷ s) = let rest = words s in if is_space c then [] ∷ rest else cons_head c rest

-- strings.Fields
unfoldable pub fields : Text → List Text
unfolding words keep
fields s = keep (λ w. not (is_empty w)) (words s)

skip : Text → Text → Text
skip s [] = s
skip [] (p ∷ ps) = []
skip (c ∷ s) (p ∷ ps) = skip s ps

-- strings.TrimPrefix
unfoldable pub trim_prefix : Text → Text → Text
unfolding skip has_prefix
trim_prefix s prefix = if has_prefix s prefix then skip s prefix else s

fields_test : fields (codes " a  bc ") ≡ codes "a" ∷ codes "bc" ∷ []
unfolding fields
fields_test = refl

-- Membership in a list of texts.
unfoldable pub member : Text → List Text → Bool
member t [] = false
member t (u ∷ us) = eq_text u t || member t us
