-- ===== src/Client/Backoff.antt =====
-- The wait before the client connects again, in cmd/navmesh-client/main.go. A time is a number of
-- nanoseconds in 64 bits. A number of failures that is less than zero is 0.
use navmesh_go.Base.{
  ℕ, zero, suc, ◌-◌, ◌*◌, ◌^◌, ◌≤◌, ◌<◌, ◌≡◌, false, arith, min, leb, if◌then◌else◌, Bool-cases,
  inl, inr,
}
use navmesh_go.Base.Int.{ℤ, pos, leb_ℤ, ltb_ℤ, add_ℤ, of_bits64, to_bits64}

pub record Reconnect : Type 0 where
  pub reconnect_wait : ℤ
  pub reconnect_max : ℤ

abbrev pub default_wait : ℤ
default_wait = pos (5 * 10 ^ 9)

abbrev at_least : ℤ → ℤ → Reconnect
at_least wait longest =
    if ltb_ℤ longest wait
    then record { reconnect_wait = wait; reconnect_max = wait }
    else record { reconnect_wait = wait; reconnect_max = longest }

-- The two flags, as parseFlags leaves them.
unfoldable pub normalize_reconnect : (wait longest : ℤ) → Reconnect
normalize_reconnect wait longest =
    at_least (if leb_ℤ wait (pos 0) then default_wait else wait) longest

-- delay *= 2, which wraps around.
unfoldable pub double64 : ℤ → ℤ
double64 d = of_bits64 (to_bits64 (add_ℤ d d))

-- The loop, with the rounds that are left.
unfoldable pub backoff_from : ℤ → ℕ → ℤ → ℤ
unfolding double64
backoff_from longest zero delay = delay
backoff_from longest (suc left) delay =
    let doubled = double64 delay in
    let later = backoff_from longest left doubled in
    if leb_ℤ longest doubled then longest else later

unfoldable pub backoff_delay : Reconnect → ℕ → ℤ
unfolding backoff_from
backoff_delay cfg failures =
    if leb failures 1
    then cfg.reconnect_wait
    else backoff_from cfg.reconnect_max (failures - 1) cfg.reconnect_wait

-- A number that is doubled some times.
abbrev pub doubled_times : ℕ → ℕ → ℕ
doubled_times zero d = d
doubled_times (suc n) d = doubled_times n (2 * d)

doubled_times_grow : (n d : ℕ) → d ≤ doubled_times n d
doubled_times_grow zero d = omega arith
doubled_times_grow (suc n) d = omega (arith, doubled_times_grow n (2 * d))

double64_exact : (d : ℕ) → d < 2 ^ 62 → double64 (pos d) ≡ pos (2 * d)
unfolding double64
double64_exact d h = ground arith

backoff_from-min :
    (longest left d : ℕ)
    → d ≤ longest
    → longest < 2 ^ 62
    → backoff_from (pos longest) left (pos d) ≡ pos (min (doubled_times left d) longest)
unfolding backoff_from
backoff_from-min longest zero d le bound = ground arith
backoff_from-min longest (suc left) d le bound =
    rw (double64_exact d (omega arith)) (elim (Bool-cases (leb_ℤ (pos longest) (pos (2 * d)))) [
      | inl e ↦ let grow = doubled_times_grow left (2 * d) in rw e (ground arith)
      | inr e ↦ rw e (backoff_from-min longest left (2 * d) (ground arith) bound)
    ])

-- With positive flags of which the longest wait is not less than the first and less than 2 ^ 62
-- nanoseconds, the wait after some failures is the first one, doubled for each failure after the first,
-- or the longest one if that is less.
pub backoff_delay-min :
    (wait longest failures : ℕ)
    → 1 ≤ wait
    → wait ≤ longest
    → longest < 2 ^ 62
    → backoff_delay (normalize_reconnect (pos wait) (pos longest)) failures
      ≡ pos (min (doubled_times (failures - 1) wait) longest)
unfolding backoff_delay normalize_reconnect
backoff_delay-min wait longest failures positive le bound =
    let p : leb_ℤ (pos wait) (pos 0) ≡ false = ground arith in
    let q : ltb_ℤ (pos longest) (pos wait) ≡ false = ground arith in
    rw (p, q)
      (elim (Bool-cases (leb failures 1)) [
        | inl e ↦ let z : failures - 1 ≡ 0 = ground arith in rw (e, z) (ground arith)
        | inr e ↦ rw e (backoff_from-min longest (failures - 1) wait le bound)
      ])
