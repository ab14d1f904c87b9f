-- ===== src/TcpMappings/Unique.antt =====
-- No two enabled mappings have the same public port.
use navmesh_go.Base.{
  ℕ, ◌≡◌, ◌∙◌, sym, refl, ap, subst, true, false, ◌||◌, not, Option, none, some, [], ◌∷◌, ◌⊎◌, inl,
  inr, arith, ◌==◌, if◌then◌else◌, Bool-cases, on_if,
}
use navmesh_go.Base.Text.{Text, eq_text, eq_text_iff, is_empty, trim_space}
use navmesh_go.Base.Trim.{trim_space-trim_space}
use navmesh_go.Base.Assoc.{Assoc, lookup}
use navmesh_go.Base.Map.{get, put, get-put}
use navmesh_go.Domain.{status_enabled}
use navmesh_go.TcpMappings.{
  TcpMapping, SaveTcpMappingRequest, TcpPortRange, SaveError, World, normalize_tcp_mapping_request,
  is_taken, validate_tcp_public_port, choose_port, check_port, check_request, row_of, Table, Saved,
  write_row, unless, with_port, save,
}

abbrev pub IsEnabled : ℕ → TcpMapping → Type 0
IsEnabled port row = (row.status ≡ status_enabled) × (row.public_port ≡ port)

-- Rows that are enabled at one port have one guid.
abbrev pub IsUnique : Table → Type 0
IsUnique rows =
    (port : ℕ) (g h : Text) (a b : TcpMapping)
    → get rows g ≡ some a
    → get rows h ≡ some b
    → IsEnabled port a
    → IsEnabled port b
    → g ≡ h

some-injective : {A : Type 0} {x y : A} → some x ≡ some y → x ≡ y
some-injective e = cc

-- A row that blocks a port is seen.
not_taken :
    (current : Text) (port : ℕ) (es : Assoc TcpMapping) (h : Text) (b : TcpMapping)
    → is_taken current port es ≡ false
    → lookup h es ≡ some b
    → IsEnabled port b
    → (is_empty (trim_space current) ≡ false) × (h ≡ trim_space current)
unfolding is_taken lookup
not_taken current port [] h b free found enabled = absurd cc
not_taken current port ((g, r) ∷ es) h b free found (on, at) = elim (Bool-cases (eq_text g h)) [
  | inl here ↦
      let e : some r ≡ some b =
        subst (λ t. (if t then some r else lookup h es) ≡ some b) here found in
      let status : (r.status == status_enabled) ≡ true =
        ground (arith, ap TcpMapping.status (some-injective e)) in
      let same_port : (r.public_port == port) ≡ true =
        ground (arith, ap TcpMapping.public_port (some-injective e)) in
      let clear : is_empty (trim_space current) || not (eq_text g (trim_space current)) ≡ false =
        ground arith in
      (
        ground arith,
        sym ((eq_text_iff g h).0 here) ∙ (eq_text_iff g (trim_space current)).0 (ground arith),
      )
  | inr other ↦ not_taken current port es h b (ground arith) (ground arith) (on, at)
]

where_is :
    (rows : Table) (key : Text) (row : TcpMapping) (j : Text) (c : TcpMapping)
    → (if eq_text key j then some row else get rows j) ≡ some c
    → ((key ≡ j) × (row ≡ c)) ⊎ (get rows j ≡ some c)
where_is rows key row j c found = elim (Bool-cases (eq_text key j)) [
  | inl e ↦ inl (
    (eq_text_iff key j).0 e,
    some-injective (subst (λ t. (if t then some row else get rows j) ≡ some c) e found),
  )
  | inr e ↦ inr (subst (λ t. (if t then some row else get rows j) ≡ some c) e found)
]

-- A table with a row more, or with another one in its place.
put-IsUnique :
    (rows : Table) (current key : Text) (row : TcpMapping)
    → IsUnique rows
    → (row.status ≡ status_enabled → is_taken current row.public_port rows.entries ≡ false)
    → (is_empty (trim_space current) ≡ false → trim_space current ≡ key)
    → IsUnique (put rows key row)
unfolding get
put-IsUnique rows current key row unique free own port g h a b ga hb ea eb =
    let at_key : (j : Text) (c : TcpMapping)
        → get (put rows key row) j ≡ some c
        → ((key ≡ j) × (row ≡ c)) ⊎ (get rows j ≡ some c) =
      λ j c found. where_is rows key row j c (sym (get-put rows key j row) ∙ found) in
    let collides : (j : Text) (c : TcpMapping)
        → row.status ≡ status_enabled
        → get rows j ≡ some c
        → IsEnabled row.public_port c
        → j ≡ key =
      λ j c on found e.
        let (not_blank, same) =
          not_taken current row.public_port rows.entries j c (free on) found e in
        same ∙ own not_blank in
    elim (at_key g a ga) [
      | inl (kg, ra) ↦ elim (at_key h b hb) [
        | inl (kh, rb) ↦ sym kg ∙ kh
        | inr old ↦
            sym kg
            ∙ sym (
                collides h b (ap TcpMapping.status ra ∙ ea.0) old
                  (eb.0, eb.1 ∙ sym ea.1 ∙ sym (ap TcpMapping.public_port ra)))
      ]
      | inr old_g ↦ elim (at_key h b hb) [
        | inl (kh, rb) ↦
            collides g a (ap TcpMapping.status rb ∙ eb.0) old_g
              (ea.0, ea.1 ∙ sym eb.1 ∙ sym (ap TcpMapping.public_port rb))
            ∙ kh
        | inr old_h ↦ unique port g h a b old_g old_h ea eb
      ]
    ]

-- A port that passes the checks for an enabled mapping is not taken.
check_port_free :
    (world : World) (range : TcpPortRange) (rows : Assoc TcpMapping) (req : SaveTcpMappingRequest)
    (port : ℕ)
    → check_port world range rows req port ≡ none
    → req.status ≡ status_enabled
    → is_taken req.guid port rows ≡ false
unfolding check_port validate_tcp_public_port
check_port_free world range rows req port ok enabled = ground arith

key_of :
    (world : World) (req : SaveTcpMappingRequest)
    → trim_space req.guid ≡ req.guid
    → is_empty (trim_space req.guid) ≡ false
    → trim_space req.guid ≡ (if is_empty req.guid then world.new_guid else req.guid)
key_of world req trimmed not_blank =
    let e : is_empty req.guid ≡ false = ap is_empty (sym trimmed) ∙ not_blank in rw e trimmed

write_row-IsUnique :
    (world : World) (req : SaveTcpMappingRequest) (port : ℕ) (rows : Table)
    → trim_space req.guid ≡ req.guid
    → IsUnique rows
    → (req.status ≡ status_enabled → is_taken req.guid port rows.entries ≡ false)
    → IsUnique (write_row world req port rows).0
unfolding write_row row_of
write_row-IsUnique world req port rows trimmed unique free =
    let P : Saved → Type 0 = λ s. IsUnique s.0 in
    on_if P world.find_fails (λ x. unique)
      (λ x.
        on_if P world.save_fails (λ y. unique)
          (λ y.
            put-IsUnique rows req.guid (if is_empty req.guid then world.new_guid else req.guid)
              (row_of world req port (get rows req.guid)) unique free
              (λ not_blank. key_of world req trimmed not_blank)))

with_port-IsUnique :
    (world : World) (range : TcpPortRange) (req : SaveTcpMappingRequest) (rows : Table)
    (port : SaveError ⊎ ℕ)
    → trim_space req.guid ≡ req.guid
    → IsUnique rows
    → IsUnique (with_port world range rows req port).0
with_port-IsUnique world range req rows (inl e) trimmed unique = unique
with_port-IsUnique world range req rows (inr port) trimmed unique =
    go (check_port world range rows.entries req port) refl
  where
    go :
        (c : Option SaveError)
        → check_port world range rows.entries req port ≡ c
        → IsUnique (unless c rows (write_row world req port rows)).0
    go (some e) ok = unique
    go none ok =
        write_row-IsUnique world req port rows trimmed unique
          (check_port_free world range rows.entries req port ok)

unless-IsUnique :
    (c : Option SaveError) (rows : Table) (saved : Saved)
    → IsUnique rows
    → IsUnique saved.0
    → IsUnique (unless c rows saved).0
unless-IsUnique none rows saved h k = k
unless-IsUnique (some e) rows saved h k = h

-- Whatever is requested and whatever fails, if no two enabled mappings had the same public port before
-- Save, none have after it.
pub save-IsUnique :
    (world : World) (range : TcpPortRange) (req : SaveTcpMappingRequest) (rows : Table)
    → IsUnique rows
    → IsUnique (save world range req rows).0
unfolding save normalize_tcp_mapping_request
save-IsUnique world range req rows unique =
    let normalized = normalize_tcp_mapping_request req in
    unless-IsUnique (check_request world normalized) rows
      (with_port world range rows normalized (choose_port world range rows.entries normalized))
      unique
      (with_port-IsUnique world range normalized rows
        (choose_port world range rows.entries normalized) (trim_space-trim_space req.guid) unique)
