-- ===== src/Base/Strconv.antt =====
-- strconv.Atoi and strconv.Itoa on code points, for the 64-bit int.
use Prim.Native.Nat.{ℕ, ◌+◌, ◌-◌, ◌*◌, ◌^◌}
use mathlib.Core.Path.{◌≡◌, refl}
use mathlib.Core.Bool.{Bool, true, false, ◌&&◌}
use mathlib.Core.Option.{Option, none, some}
use mathlib.Core.List.{[], ◌∷◌}
use navmesh_go.Base.Tests.{leb, ltb, ◌==◌, if◌then◌else◌}
use navmesh_go.Base.Int.{ℤ, pos, negsuc, sub_ℕ}
use navmesh_go.Base.Text.{Text, codes}

pub data Unsigned : Type 0 where
  value : ℕ → Unsigned
  syntax_error range_error : Unsigned

abbrev pub is_digit : ℕ → Bool
is_digit c = leb b'0' c && leb c b'9'

-- ParseUint(s, 10, 64) after `n` was read: it stops at the first character that is no digit, and at
-- the first digit that takes the value past 64 bits.
unfoldable pub parse_uint_from : ℕ → Text → Unsigned
parse_uint_from n [] = value n
parse_uint_from n (c ∷ s) =
    let next = n * 10 + (c - b'0') in
    let rest = parse_uint_from next s in
    if is_digit c then if ltb next (2 ^ 64) then rest else range_error else syntax_error

unfoldable pub parse_uint : Text → Unsigned
unfolding parse_uint_from
parse_uint [] = syntax_error
parse_uint (c ∷ s) = parse_uint_from 0 (c ∷ s)

-- The number that is returned, and whether the error is nil.
unfoldable pub clip : Bool → Unsigned → ℤ × Bool
clip negative syntax_error = (pos 0, false)
clip true range_error = (negsuc (2 ^ 63 - 1), false)
clip false range_error = (pos (2 ^ 63 - 1), false)
clip true (value n) = if ltb (2 ^ 63) n then (negsuc (2 ^ 63 - 1), false) else (sub_ℕ 0 n, true)
clip false (value n) = if ltb n (2 ^ 63) then (pos n, true) else (pos (2 ^ 63 - 1), false)

-- n, err := strconv.Atoi(s)
unfoldable pub parse_int : Text → ℤ × Bool
unfolding parse_uint clip
parse_int [] = (pos 0, false)
parse_int (c ∷ s) =
    if c == b'-'
    then clip true (parse_uint s)
    else if c == b'+'
    then clip false (parse_uint s)
    else clip false (parse_uint (c ∷ s))

abbrev if_ok : ℤ × Bool → Option ℤ
if_ok (n, true) = some n
if_ok (n, false) = none

-- The number, if the error is nil.
unfoldable pub atoi : Text → Option ℤ
unfolding parse_int
atoi s = if_ok (parse_int s)

atoi_test : atoi (codes "-12") ≡ some (negsuc 11)
unfolding atoi
atoi_test = refl
