-- ===== src/AccessLog/Utf8.antt =====
-- httpgateway/log.go, truncateUTF8: a text is cut at the start of a character.
use navmesh_go.Base.{
  ℕ, zero, suc, ◌+◌, ◌-◌, ◌≤◌, ◌<◌, ◌≡◌, ◌∙◌, sym, refl, ap, Bool, true, false, List, [], ◌∷◌, ◌++◌,
  arith, leb, ltb, if◌then◌else◌, length, take, take_all, All, Bool-cases, inl, inr, length-append,
}

-- The byte at an index; 0 outside, where the code does not look.
abbrev pub byte_at : List ℕ → ℕ → ℕ
byte_at [] i = 0
byte_at (b ∷ bs) zero = b
byte_at (b ∷ bs) (suc i) = byte_at bs i

-- utf8.RuneStart
unfoldable pub is_rune_start : ℕ → Bool
is_rune_start b = if leb 128 b then leb 192 b else true

-- The loop over `cut`.
unfoldable pub cut_back : List ℕ → ℕ → ℕ
cut_back value zero = 0
cut_back value (suc c) =
    let back = cut_back value c in
    if ltb (suc c) (length value)
    then if is_rune_start (byte_at value (suc c)) then suc c else back
    else suc c

unfoldable pub truncate_utf8 : List ℕ → ℕ → List ℕ
unfolding cut_back is_rune_start
truncate_utf8 value max_bytes =
    if leb max_bytes 0
    then value
    else if leb (length value) max_bytes
    then value
    else take (cut_back value max_bytes) value

-- A character: a first byte, and the bytes that continue it.
pub record Rune : Type 0 where
  pub first : ℕ
  pub others : List ℕ

abbrev pub IsRune : Rune → Type 0
IsRune r = (is_rune_start r.first ≡ true) × (All (λ b. is_rune_start b ≡ false) r.others)

abbrev pub bytes : List Rune → List ℕ
bytes [] = []
bytes (r ∷ rs) = (r.first ∷ r.others) ++ bytes rs

abbrev pub width : Rune → ℕ
width r = suc (length r.others)

-- The characters from the start that fit whole into a number of bytes.
abbrev pub fitting : ℕ → List Rune → List Rune
fitting n [] = []
fitting n (r ∷ rs) = let rest = fitting (n - width r) rs in if leb (width r) n then r ∷ rest else []

byte_at-append : (xs ys : List ℕ) (i : ℕ) → byte_at (xs ++ ys) (length xs + i) ≡ byte_at ys i
byte_at-append [] ys i = ap (byte_at ys) (omega arith)
byte_at-append (x ∷ xs) ys i =
    let e : suc (length xs) + i ≡ suc (length xs + i) = omega arith in rw e (byte_at-append xs ys i)

byte_at-others :
    (xs ys : List ℕ) (i : ℕ)
    → All (λ b. is_rune_start b ≡ false) xs
    → i < length xs
    → is_rune_start (byte_at (xs ++ ys) i) ≡ false
byte_at-others [] ys i h lt = absurd (omega arith)
byte_at-others (x ∷ xs) ys zero (hx, hs) lt = hx
byte_at-others (x ∷ xs) ys (suc i) (hx, hs) lt = byte_at-others xs ys i hs (omega arith)

-- A cut inside the first character goes back to its start.
cut_back_inside :
    (r : Rune) (rest : List ℕ) (c : ℕ)
    → IsRune r
    → c < width r
    → cut_back ((r.first ∷ r.others) ++ rest) c ≡ 0
unfolding cut_back
cut_back_inside r rest zero h lt = refl
cut_back_inside r rest (suc c) h lt = ground (
  arith,
  length-append r.others rest,
  byte_at-others r.others rest c h.1,
  cut_back_inside r rest c h,
)

-- What follows a character begins with the start of one, if there is anything.
abbrev Starts : List ℕ → Type 0
Starts [] = Unit
Starts (b ∷ bs) = is_rune_start b ≡ true

Starts-at :
    (rest : List ℕ) (n : ℕ)
    → Starts rest
    → ltb n (n + length rest) ≡ true
    → is_rune_start (byte_at rest 0) ≡ true
Starts-at [] n s h = absurd (ground arith)
Starts-at (b ∷ bs) n s h = s

cut_back_beyond :
    (x : ℕ) (xs rest : List ℕ) (d : ℕ)
    → Starts rest
    → cut_back ((x ∷ xs) ++ rest) (suc (length xs + d)) ≡ suc (length xs) + cut_back rest d
unfolding cut_back
cut_back_beyond x xs rest zero s =
    let e : length xs + 0 ≡ length xs = omega arith in
    ground (
      arith,
      length-append xs rest,
      byte_at-append xs rest 0,
      Starts-at rest (suc (length xs)) s,
      e,
    )
cut_back_beyond x xs rest (suc d) s =
    let e : length xs + suc d ≡ suc (length xs + d) = omega arith in
    rw e (
      ground (
        arith,
        length-append xs rest,
        byte_at-append xs rest (suc d),
        e,
        cut_back_beyond x xs rest d s,
      ))

bytes-Starts : (rs : List Rune) → All IsRune rs → Starts (bytes rs)
bytes-Starts [] h = tt
bytes-Starts (r ∷ rs) (h, hs) = h.0

take-append : (xs ys : List ℕ) (n : ℕ) → take (length xs + n) (xs ++ ys) ≡ xs ++ take n ys
take-append [] ys n = ap (λ k. take k ys) (omega arith)
take-append (x ∷ xs) ys n =
    let e : suc (length xs) + n ≡ suc (length xs + n) = omega arith in
    rw e (ap (◌∷◌ x) (take-append xs ys n))

cut-fitting :
    (rs : List Rune) (n : ℕ)
    → All IsRune rs
    → n ≤ length (bytes rs)
    → take (cut_back (bytes rs) n) (bytes rs) ≡ bytes (fitting n rs)
cut-fitting [] n h le = take_all (cut_back [] n) [] (omega arith)
cut-fitting (r ∷ rs) n (h, hs) le = elim (Bool-cases (leb (width r) n)) [
  | inl fits ↦
      let d = n - width r in
      let whole = bytes (r ∷ rs) in
      let e : n ≡ suc (length r.others + d) = ground arith in
      let room : d ≤ length (bytes rs) = ground (arith, length-append r.others (bytes rs)) in
      ap (λ k. take k whole)
        (ap (cut_back whole) e ∙ cut_back_beyond r.first r.others (bytes rs) d (bytes-Starts rs hs))
      ∙ take-append (r.first ∷ r.others) (bytes rs) (cut_back (bytes rs) d)
      ∙ ap (λ t. (r.first ∷ r.others) ++ t) (cut-fitting rs d hs room)
      ∙ rw fits refl
  | inr over ↦ rw (over, cut_back_inside r (bytes rs) n h (ground arith)) refl
]

fitting_all : (rs : List Rune) (n : ℕ) → length (bytes rs) ≤ n → fitting n rs ≡ rs
fitting_all [] n h = refl
fitting_all (r ∷ rs) n h =
    let room : leb (width r) n ≡ true = ground (arith, length-append r.others (bytes rs)) in
    rw room (
      ap (◌∷◌ r) (fitting_all rs (n - width r) (ground (arith, length-append r.others (bytes rs)))))

-- A text of whole characters is cut to the longest start of whole characters that fits.
pub truncate_utf8-fitting :
    (rs : List Rune) (max_bytes : ℕ)
    → All IsRune rs
    → 1 ≤ max_bytes
    → truncate_utf8 (bytes rs) max_bytes ≡ bytes (fitting max_bytes rs)
unfolding truncate_utf8
truncate_utf8-fitting rs max_bytes h positive =
    let some_room : leb max_bytes 0 ≡ false = ground arith in
    elim (Bool-cases (leb (length (bytes rs)) max_bytes)) [
      | inl short ↦ rw (some_room, short) (ap bytes (sym (fitting_all rs max_bytes (ground arith))))
      | inr long ↦ rw (some_room, long) (cut-fitting rs max_bytes h (ground arith))
    ]
