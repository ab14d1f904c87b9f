-- ===== src/Messages/Types.antt =====
-- The normalized list of the types of a recipient accepts what the list of the request does.
use navmesh_go.Base.{
  ℕ, ◌≡◌, ◌∙◌, sym, refl, ap, Bool, true, false, ◌||◌, ◌&&◌, not, List, [], ◌∷◌, ◌++◌, arith,
  if◌then◌else◌, ◌==◌, All, Bool-cases, inl, inr,
}
use navmesh_go.Base.Text.{
  Text, eq_text, eq_text_iff, is_empty, is_space, trim_left, trim_right, trim, trim_space, to_lower,
  split_head, split_tail, split, join_rest, join, member,
}
use navmesh_go.Base.Trim.{trim_space-trim_space, trim_space-to_lower, to_lower-to_lower}
use navmesh_go.Messages.{
  unique_items, clean_type, comma, normalize_message_types, has_item,
  recipient_accepts_message_type,
}

abbrev NoComma : Text → Type 0
NoComma t = All (λ c. (c == b',') ≡ false) t

split_head-join :
    (t : Text) (ts : List Text) → NoComma t → split_head b',' (t ++ join_rest comma ts) ≡ t
unfolding split_head join_rest
split_head-join [] [] h = refl
split_head-join [] (u ∷ us) h = refl
split_head-join (c ∷ t) ts (h, hs) = rw h (ap (◌∷◌ c) (split_head-join t ts hs))

split_tail-append : (t s : Text) → NoComma t → split_tail b',' (t ++ s) ≡ split_tail b',' s
unfolding split_tail
split_tail-append [] s h = refl
split_tail-append (c ∷ t) s (h, hs) = rw h (split_tail-append t s hs)

split_tail-join : (ts : List Text) → All NoComma ts → split_tail b',' (join_rest comma ts) ≡ ts
unfolding split_tail join_rest
split_tail-join [] h = refl
split_tail-join (u ∷ us) (h, hs) =
    rw (split_head-join u us h, split_tail-append u (join_rest comma us) h, split_tail-join us hs)
      refl

-- What is joined is split again.
split-join :
    (t : Text) (ts : List Text) → All NoComma (t ∷ ts) → split b',' (join comma (t ∷ ts)) ≡ t ∷ ts
unfolding split join
split-join t ts (h, hs) =
    rw (split_head-join t ts h, split_tail-append t (join_rest comma ts) h, split_tail-join ts hs)
      refl

split_head-NoComma : (s : Text) → NoComma (split_head b',' s)
unfolding split_head
split_head-NoComma [] = tt
split_head-NoComma (c ∷ s) = elim (Bool-cases (c == b',')) [
  | inl e ↦ rw e tt
  | inr e ↦ rw e (e, split_head-NoComma s)
]

split_tail-NoComma : (s : Text) → All NoComma (split_tail b',' s)
unfolding split_tail
split_tail-NoComma [] = tt
split_tail-NoComma (c ∷ s) = elim (Bool-cases (c == b',')) [
  | inl e ↦ rw e (split_head-NoComma s, split_tail-NoComma s)
  | inr e ↦ rw e (split_tail-NoComma s)
]

trim_left-NoComma : (p : ℕ → Bool) (s : Text) → NoComma s → NoComma (trim_left p s)
unfolding trim_left
trim_left-NoComma p [] h = tt
trim_left-NoComma p (c ∷ s) (h, hs) = elim (Bool-cases (p c)) [
  | inl e ↦ rw e (trim_left-NoComma p s hs)
  | inr e ↦ rw e (h, hs)
]

trim_right-NoComma : (p : ℕ → Bool) (s : Text) → NoComma s → NoComma (trim_right p s)
unfolding trim_right
trim_right-NoComma p [] h = tt
trim_right-NoComma p (c ∷ s) (h, hs) = go (trim_right p s) (trim_right-NoComma p s hs)
  where
    go :
        (r : Text)
        → NoComma r
        → NoComma (elim r [ [] ↦ if p c then [] else c ∷ [] | d ∷ r ↦ c ∷ d ∷ r ])
    go [] k = elim (Bool-cases (p c)) [ inl e ↦ rw e tt | inr e ↦ rw e (h, tt) ]
    go (d ∷ r) k = (h, k)

to_lower-NoComma : (s : Text) → NoComma s → NoComma (to_lower s)
unfolding to_lower
to_lower-NoComma [] h = tt
to_lower-NoComma (c ∷ s) (h, hs) = (ground arith, to_lower-NoComma s hs)

clean_type-NoComma : (s : Text) → NoComma s → NoComma (clean_type s)
unfolding trim_space trim
clean_type-NoComma s h =
    to_lower-NoComma (trim_space s)
      (trim_right-NoComma is_space (trim_left is_space s) (trim_left-NoComma is_space s h))

clean_type-clean_type : (s : Text) → clean_type (clean_type s) ≡ clean_type s
clean_type-clean_type s =
    ap to_lower (trim_space-to_lower (trim_space s))
    ∙ to_lower-to_lower (trim_space (trim_space s))
    ∙ ap to_lower (trim_space-trim_space s)

-- A normalized item.
abbrev IsClean : Text → Type 0
IsClean item = NoComma item × (clean_type item ≡ item)

unique_items-IsClean :
    (seen parts : List Text) → All NoComma parts → All IsClean (unique_items clean_type seen parts)
unfolding unique_items
unique_items-IsClean seen [] h = tt
unique_items-IsClean seen (part ∷ parts) (h, hs) =
    let item = clean_type part in
    elim (Bool-cases (is_empty item || member item seen)) [
      | inl e ↦ rw e (unique_items-IsClean seen parts hs)
      | inr e ↦ rw e (
        (clean_type-NoComma part h, clean_type-clean_type part),
        unique_items-IsClean (item ∷ seen) parts hs,
      )
    ]

eq-empty :
    (item wanted : Text)
    → is_empty item ≡ true
    → is_empty wanted ≡ false
    → eq_text item wanted ≡ false
unfolding eq_text
eq-empty [] [] h k = absurd cc
eq-empty [] (w ∷ ws) h k = refl
eq-empty (c ∷ s) wanted h k = absurd cc

member-seen :
    (item wanted : Text) (seen : List Text)
    → eq_text item wanted ≡ true
    → member item seen ≡ member wanted seen
member-seen item wanted seen h = ap (λ t. member t seen) ((eq_text_iff item wanted).0 h)

not_both : false ≡ true → ⊥
not_both e = cc

seen_if :
    (item : Text) (seen : List Text)
    → is_empty item || member item seen ≡ true
    → ¬ (is_empty item ≡ true)
    → member item seen ≡ true
seen_if item seen h k = elim (Bool-cases (is_empty item)) [
  | inl e ↦ absurd (k e)
  | inr e ↦ ground arith
]

parts_of : (s : Text) → All NoComma (split b',' s)
unfolding split
parts_of s = (split_head-NoComma s, split_tail-NoComma s)

-- The loops find the same items.
has_item-unique_items :
    (wanted : Text) (seen parts : List Text)
    → is_empty wanted ≡ false
    → (has_item clean_type wanted parts || member wanted seen)
      ≡ (member wanted (unique_items clean_type seen parts) || member wanted seen)
unfolding has_item unique_items member
has_item-unique_items wanted seen [] some_text = refl
has_item-unique_items wanted seen (part ∷ parts) some_text =
    let item = clean_type part in
    let blank = λ (e : is_empty item ≡ true). eq-empty item wanted e some_text in
    elim (Bool-cases (is_empty item || member item seen)) [
      | inl e ↦
          let rest = has_item-unique_items wanted seen parts some_text in
          let known : eq_text item wanted ≡ true → member wanted seen ≡ true = λ same.
            sym (member-seen item wanted seen same)
            ∙ seen_if item seen e (λ b. not_both (sym (blank b) ∙ same)) in
          rw e (elim (Bool-cases (eq_text item wanted)) [
            | inl same ↦ let m = known same in ground arith
            | inr differs ↦ ground arith
          ])
      | inr e ↦
          let rest = has_item-unique_items wanted (item ∷ seen) parts some_text in
          rw e (ground arith)
    ]

has_item-member :
    (wanted : Text) (items : List Text)
    → All IsClean items
    → has_item clean_type wanted items ≡ member wanted items
unfolding has_item member
has_item-member wanted [] h = refl
has_item-member wanted (item ∷ items) ((no_comma, clean), hs) =
    rw (clean, has_item-member wanted items hs) refl

commas : (items : List Text) → All IsClean items → All NoComma items
commas [] h = tt
commas (i ∷ is) ((n, c), hs) = (n, commas is hs)

no_items :
    (wanted : Text)
    → is_empty wanted ≡ false
    → has_item clean_type wanted (split b',' (join comma [])) ≡ member wanted []
unfolding has_item member split join split_head split_tail trim_space trim trim_left trim_right
    to_lower eq_text
no_items [] h = absurd cc
no_items (w ∷ ws) h = refl

-- The items of a text of normalized items.
has_item-join :
    (wanted : Text) (items : List Text)
    → is_empty wanted ≡ false
    → All IsClean items
    → has_item clean_type wanted (split b',' (join comma items)) ≡ member wanted items
has_item-join wanted [] some_text h = no_items wanted some_text
has_item-join wanted (t ∷ ts) some_text h =
    rw (split-join t ts (commas (t ∷ ts) h)) (has_item-member wanted (t ∷ ts) h)

or_false : (b : Bool) → b || false ≡ b
or_false true = refl
or_false false = refl

-- Whatever the list of types and the type, a recipient accepts a type with the normalized list exactly
-- when it does with the list that was given.
pub accepts-normalize_message_types :
    (message_types message_type : Text)
    → recipient_accepts_message_type (normalize_message_types message_types) message_type
      ≡ recipient_accepts_message_type message_types message_type
unfolding recipient_accepts_message_type normalize_message_types member
accepts-normalize_message_types message_types message_type =
    let wanted = clean_type message_type in
    let parts = split b',' message_types in
    let pieces : All NoComma parts = parts_of message_types in
    elim (Bool-cases (is_empty wanted)) [
      | inl e ↦ rw e refl
      | inr e ↦
          rw
            (has_item-join wanted (unique_items clean_type [] parts) e
              (unique_items-IsClean [] parts pieces))
            (ap (λ b. not (is_empty wanted) && b)
              (sym (or_false (member wanted (unique_items clean_type [] parts)))
                ∙ sym (has_item-unique_items wanted [] parts e)
                ∙ or_false (has_item clean_type wanted parts)))
    ]
