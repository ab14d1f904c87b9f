-- ===== src/TcpMappings/Ports.antt =====
-- The range of the public ports, and the port that is chosen.
use navmesh_go.Base.{
  ℕ, zero, suc, ◌+◌, ◌-◌, ◌≤◌, ◌<◌, ◌≡◌, ◌∙◌, refl, ap, subst, Bool, true, false, Option, none,
  some, ◌⊎◌, inl, inr, arith, ltb, ◌==◌, Bool-cases, on_if,
}
use navmesh_go.Base.Int.{ℤ, pos, negsuc}
use navmesh_go.Base.Assoc.{Assoc}
use navmesh_go.TcpMappings.{
  TcpMapping, SaveTcpMappingRequest, TcpPortRange, SaveError, no_port, World,
  default_tcp_public_port_min, default_tcp_public_port_max, port_or, tcp_mapping_port_range,
  is_taken, next_port, next_available_public_port, validate_tcp_public_port, choose_port,
  check_port,
}

-- The first port from one on that is not used, if there is one below an end.
abbrev IsFirst : (ℕ → Bool) → (start end : ℕ) → Option ℕ → Type 0
IsFirst used start end none = (port : ℕ) → start ≤ port → port < end → used port ≡ true
IsFirst used start end (some p) =
    (start ≤ p)
    × (p < end)
    × (used p ≡ false)
    × ((port : ℕ) → start ≤ port → port < p → used port ≡ true)

widen :
    (used : ℕ → Bool) (start end : ℕ) (o : Option ℕ)
    → used start ≡ true
    → IsFirst used (suc start) end o
    → IsFirst used start end o
widen used start end none u h = λ port low high. elim (Bool-cases (port == start)) [
  | inl e ↦ let same : port ≡ start = ground arith in ap used same ∙ u
  | inr e ↦ h port (ground arith) high
]
widen used start end (some p) u (low, high, free, below) = (
  omega arith,
  high,
  free,
  λ port l m. elim (Bool-cases (port == start)) [
    | inl e ↦ let same : port ≡ start = ground arith in ap used same ∙ u
    | inr e ↦ below port (ground arith) m
  ],
)

next_port-IsFirst :
    (used : ℕ → Bool) (left start : ℕ)
    → IsFirst used start (start + left) (next_port used left start)
unfolding next_port
next_port-IsFirst used zero start = λ port low high. absurd (omega arith)
next_port-IsFirst used (suc left) start = elim (Bool-cases (used start)) [
  | inl u ↦ rw u (
      widen used start (start + suc left) (next_port used left (suc start)) u (
        subst (λ end. IsFirst used (suc start) end (next_port used left (suc start))) (omega arith)
          (next_port-IsFirst used left (suc start))))
  | inr u ↦ rw u (omega arith, omega arith, u, λ port low high. absurd (omega arith))
]

abbrev IsRange : TcpPortRange → Type 0
IsRange range = (1 ≤ range.low) × (range.low ≤ range.high) × (range.high ≤ 65535)

port_or_bounds :
    (def : ℕ) (n : ℤ) → 1 ≤ def → def ≤ 65535 → (1 ≤ port_or def n) × (port_or def n ≤ 65535)
port_or_bounds def (pos n) low high = ground arith
port_or_bounds def (negsuc n) low high = (low, high)

tcp_mapping_port_range-IsRange : (low high : ℤ) → IsRange (tcp_mapping_port_range low high)
unfolding tcp_mapping_port_range
tcp_mapping_port_range-IsRange low high =
    let (a, b) = port_or_bounds default_tcp_public_port_min low (omega arith) (omega arith) in
    let (c, d) = port_or_bounds default_tcp_public_port_max high (omega arith) (omega arith) in
    on_if IsRange
      (ltb (port_or default_tcp_public_port_max high) (port_or default_tcp_public_port_min low))
      (λ x. (omega arith, omega arith, omega arith)) (λ x. (a, ground arith, d))

-- What Save makes of a request without a port, if the queries answer: a port that passes the checks and
-- is the first one that is free, or an error when no port of the range is free.
abbrev pub IsChosen :
    World → TcpPortRange → Assoc TcpMapping → SaveTcpMappingRequest → SaveError ⊎ ℕ → Type 0
IsChosen world range rows req (inl e) =
    (e ≡ no_port)
    × ((port : ℕ) → range.low ≤ port → port ≤ range.high → is_taken req.guid port rows ≡ true)
IsChosen world range rows req (inr port) =
    (check_port world range rows req port ≡ none)
    × ((q : ℕ) → range.low ≤ q → q < port → is_taken req.guid q rows ≡ true)

check_port-none :
    (world : World) (range : TcpPortRange) (rows : Assoc TcpMapping) (req : SaveTcpMappingRequest)
    (port : ℕ)
    → IsRange range
    → world.check_fails ≡ false
    → range.low ≤ port
    → port ≤ range.high
    → is_taken req.guid port rows ≡ false
    → check_port world range rows req port ≡ none
unfolding check_port validate_tcp_public_port
check_port-none world range rows req port bounds works low high free = ground arith

first-IsChosen :
    (world : World) (range : TcpPortRange) (rows : Assoc TcpMapping) (req : SaveTcpMappingRequest)
    (o : Option ℕ)
    → IsRange range
    → world.check_fails ≡ false
    → IsFirst (λ port. is_taken req.guid port rows) range.low (suc range.high) o
    → IsChosen world range rows req (elim o [ none ↦ inl no_port | some port ↦ inr port ])
first-IsChosen world range rows req none bounds works first =
    (refl, λ port low high. first port low (omega arith))
first-IsChosen world range rows req (some port) bounds works (low, high, free, below) =
    (check_port-none world range rows req port bounds works low (omega arith) free, below)

-- For any settings of the range, if the queries of the ports answer, a request without a port gets the
-- first port of the range that no other enabled mapping has, which passes all checks of Save, or, when
-- there is none, the error that says so.
pub choose_port-IsChosen :
    (world : World) (low high : ℤ) (rows : Assoc TcpMapping) (req : SaveTcpMappingRequest)
    → req.public_port ≡ 0
    → world.ports_fail ≡ false
    → world.check_fails ≡ false
    → IsChosen world
        (tcp_mapping_port_range low high)
        rows
        req
        (choose_port world (tcp_mapping_port_range low high) rows req)
unfolding choose_port next_available_public_port
choose_port-IsChosen world low high rows req no_request answers works =
    let range = tcp_mapping_port_range low high in
    let bounds = tcp_mapping_port_range-IsRange low high in
    let end : range.low + (suc range.high - range.low) ≡ suc range.high = omega arith in
    let zero_port : (req.public_port == 0) ≡ true = ground arith in
    rw zero_port (
      on_if (IsChosen world range rows req) world.ports_fail (λ x. absurd cc)
        (λ x.
          (first-IsChosen world range rows req
            (next_port (λ port. is_taken req.guid port rows) (suc range.high - range.low) range.low)
            bounds works
            (subst
              (λ e.
                IsFirst (λ port. is_taken req.guid port rows) range.low e
                  (next_port (λ port. is_taken req.guid port rows) (suc range.high - range.low)
                    range.low))
              end
              (next_port-IsFirst (λ port. is_taken req.guid port rows) (suc range.high - range.low)
                range.low)))))
