-- ===== src/Policy/Permits.antt =====
-- The counts of the sessions against the permits that are held.
use navmesh_go.Base.{
  ℕ, zero, suc, ◌+◌, ◌-◌, ◌≤◌, ◌<◌, ◌≡◌, ◌∙◌, refl, ap, false, Option, none, some, List, [], ◌∷◌,
  arith, if◌then◌else◌, or_zero, length, All, Bool-cases, inl, inr, Option-cases,
}
use navmesh_go.Base.Int.{pos}
use navmesh_go.Base.Text.{Text, is_empty, trim_space, eq_text, eq_text_iff}
use navmesh_go.Base.Map.{get, put, get-put, get-delete, get-empty}
use navmesh_go.Policy.{
  RuntimePolicy, RuntimeSettings, SessionPermit, Acquired, permit, denied, sweep_source_hits,
  sessions_of, concurrent_full, device_full, check_rate, admit, acquire, release,
  new_runtime_policy,
}

-- The sessions of a device among the permits.
abbrev pub of_device : Text → List SessionPermit → ℕ
of_device device [] = 0
of_device device (x ∷ xs) =
    if eq_text x.device_guid device then suc (of_device device xs) else of_device device xs

-- What a schedule does: a call of `Acquire`, with the settings and the time, or the release of one of
-- the permits that are held, by its position.
pub data Call : Type 0 where
  acquires : RuntimeSettings → ℕ → Text → Text → Call
  releases : ℕ → Call

-- The policy with the permits that are held.
pub record System : Type 0 where
  pub policy : RuntimePolicy
  pub held : List SessionPermit

abbrev pub nth : List SessionPermit → ℕ → Option SessionPermit
nth [] i = none
nth (x ∷ xs) zero = some x
nth (x ∷ xs) (suc i) = nth xs i

abbrev pub remove_nth : List SessionPermit → ℕ → List SessionPermit
remove_nth [] i = []
remove_nth (x ∷ xs) zero = xs
remove_nth (x ∷ xs) (suc i) = x ∷ remove_nth xs i

abbrev take_permit : Acquired → List SessionPermit → List SessionPermit
take_permit (permit x) held = x ∷ held
take_permit (denied d) held = held

-- Each permit is released once: a release hands back a permit that is held, if there is one.
unfoldable pub step : System → Call → System
step s (acquires settings now device source) =
    let (policy, result) = acquire settings now device source s.policy in
    record { policy = policy; held = take_permit result s.held }
step s (releases i) = record {
  policy = release (nth s.held i) s.policy;
  held = remove_nth s.held i;
}

unfoldable pub run : System → List Call → System
unfolding step
run s [] = s
run s (c ∷ cs) = run (step s c) cs

pub record IsCounted (s : System) : Type 0 where
  pub all : s.policy.total ≡ length s.held
  pub each :
      (device : Text)
      → is_empty device ≡ false
      → sessions_of s.policy device ≡ of_device device s.held

check_rate-counts :
    (settings : RuntimeSettings) (now : ℕ) (source : Text) (p : RuntimePolicy)
    → ((check_rate settings now source p).0.total ≡ p.total)
      × ((check_rate settings now source p).0.by_device ≡ p.by_device)
unfolding check_rate
check_rate-counts settings now source p = ground arith

sweep-counts :
    (now : ℕ) (p : RuntimePolicy)
    → ((sweep_source_hits now p).total ≡ p.total)
      × ((sweep_source_hits now p).by_device ≡ p.by_device)
unfolding sweep_source_hits
sweep-counts now p = ground arith

-- What `Acquire` does to the counts, and that the limits had room.
abbrev Counts : RuntimeSettings → Text → RuntimePolicy → RuntimePolicy × Acquired → Type 0
Counts settings device p (q, denied d) = (q.total ≡ p.total) × (q.by_device ≡ p.by_device)
Counts settings device p (q, permit x) =
    (q.total ≡ p.total + 1)
    × (x.device_guid ≡ device)
    × (concurrent_full settings p ≡ false)
    × (device_full settings device p ≡ false)
    × ((g : Text)
        → is_empty g ≡ false
        → sessions_of q g ≡ (if eq_text device g then sessions_of p g + 1 else sessions_of p g))

added :
    (device g : Text) (p : RuntimePolicy)
    → is_empty g ≡ false
    → or_zero
        (get
          (if is_empty device
            then p.by_device
            else put p.by_device device (sessions_of p device + 1))
          g)
        0
      ≡ (if eq_text device g then sessions_of p g + 1 else sessions_of p g)
added device g p named =
    ground (arith, get-put p.by_device device g (sessions_of p device + 1), eq_text_iff device g)

admit-Counts :
    (settings : RuntimeSettings) (device source : Text) (p : RuntimePolicy)
    → Counts settings device p (admit settings device source p)
unfolding admit
admit-Counts settings device source p = elim (Bool-cases (concurrent_full settings p)) [
  | inl full ↦ rw full (refl, refl)
  | inr room ↦ elim (Bool-cases (device_full settings device p)) [
    | inl full ↦ rw (room, full) (refl, refl)
    | inr place ↦ rw (room, place) (refl, refl, room, place, λ g named. added device g p named)
  ]
]

Counts-cong :
    (settings : RuntimeSettings) (device : Text) (p p' : RuntimePolicy) (q : RuntimePolicy)
    (r : Acquired)
    → p'.total ≡ p.total
    → p'.by_device ≡ p.by_device
    → Counts settings device p' (q, r)
    → Counts settings device p (q, r)
Counts-cong settings device p p' q (denied d) t b (q_total, q_device) = (q_total ∙ t, q_device ∙ b)
Counts-cong settings device p p' q (permit x) t b (q_total, name, room, place, each) = (
  q_total ∙ ap (λ n. n + 1) t,
  name,
  ground arith,
  ground arith,
  λ g named.
      each g named
      ∙ ap (λ m. if eq_text device g then or_zero (get m g) 0 + 1 else or_zero (get m g) 0) b,
)

acquire-Counts :
    (settings : RuntimeSettings) (now : ℕ) (device source : Text) (p : RuntimePolicy)
    → Counts settings (trim_space device) p (acquire settings now device source p)
unfolding acquire
acquire-Counts settings now device source p =
    let swept = sweep_source_hits now p in
    let checked = check_rate settings now (trim_space source) swept in
    let (total, by_device) = check_rate-counts settings now (trim_space source) swept in
    let (total', by_device') = sweep-counts now p in
    let admitted = admit settings (trim_space device) (trim_space source) checked.0 in
    elim (Bool-cases checked.1) [
      | inl passed ↦ rw passed (
          Counts-cong settings (trim_space device) p checked.0 admitted.0 admitted.1
            (total ∙ total') (by_device ∙ by_device')
            (admit-Counts settings (trim_space device) (trim_space source) checked.0))
      | inr blocked ↦ rw blocked (total ∙ total', by_device ∙ by_device')
    ]

take-IsCounted :
    (settings : RuntimeSettings) (device : Text) (s : System) (q : RuntimePolicy) (r : Acquired)
    → IsCounted s
    → Counts settings device s.policy (q, r)
    → IsCounted (record { policy = q; held = take_permit r s.held })
take-IsCounted settings device s q (denied d) v (total, by_device) = record {
  all = total ∙ v.all;
  each = λ g named. ap (λ m. or_zero (get m g) 0) by_device ∙ v.each g named;
}
take-IsCounted settings device s q (permit x) v (total, name, room, place, each) = record {
  all = omega (arith, total, v.all);
  each = λ g named. ground (arith, each g named, v.each g named, name);
}

length-remove_nth :
    (xs : List SessionPermit) (i : ℕ) (x : SessionPermit)
    → nth xs i ≡ some x
    → suc (length (remove_nth xs i)) ≡ length xs
length-remove_nth [] i x e = cc
length-remove_nth (y ∷ xs) zero x e = refl
length-remove_nth (y ∷ xs) (suc i) x e = ap suc (length-remove_nth xs i x e)

of_device-remove_nth :
    (g : Text) (xs : List SessionPermit) (i : ℕ) (x : SessionPermit)
    → nth xs i ≡ some x
    → of_device g xs ≡ (
        if eq_text x.device_guid g
        then suc (of_device g (remove_nth xs i))
        else of_device g (remove_nth xs i))
of_device-remove_nth g [] i x e = cc
of_device-remove_nth g (y ∷ xs) zero x e = ground arith
of_device-remove_nth g (y ∷ xs) (suc i) x e = ground (arith, of_device-remove_nth g xs i x e)

remove_nth-none : (xs : List SessionPermit) (i : ℕ) → nth xs i ≡ none → remove_nth xs i ≡ xs
remove_nth-none [] i e = refl
remove_nth-none (y ∷ xs) zero e = cc
remove_nth-none (y ∷ xs) (suc i) e = ap (◌∷◌ y) (remove_nth-none xs i e)

sessions_of-release :
    (x : SessionPermit) (p : RuntimePolicy) (g : Text)
    → is_empty g ≡ false
    → sessions_of (release (some x) p) g
      ≡ (if eq_text x.device_guid g then sessions_of p g - 1 else sessions_of p g)
unfolding release
sessions_of-release x p g named = ground (
  arith,
  get-delete p.by_device x.device_guid g,
  get-put p.by_device x.device_guid g (sessions_of p x.device_guid - 1),
  eq_text_iff x.device_guid g,
)

release-total : (x : SessionPermit) (p : RuntimePolicy) → (release (some x) p).total ≡ p.total - 1
unfolding release
release-total x p = ground arith

release-IsCounted : (s : System) (i : ℕ) → IsCounted s → IsCounted (step s (releases i))
unfolding step release
release-IsCounted s i v = elim (Option-cases (nth s.held i)) [
  | inl gone ↦ rw (gone, remove_nth-none s.held i gone) v
  | inr (x, e) ↦ rw e (record {
    all = omega (arith, release-total x s.policy, v.all, length-remove_nth s.held i x e);
    each = λ g named. ground (
      arith,
      sessions_of-release x s.policy g named,
      v.each g named,
      of_device-remove_nth g s.held i x e,
    );
  })
]

step-IsCounted : (s : System) (c : Call) → IsCounted s → IsCounted (step s c)
unfolding step
step-IsCounted s (acquires settings now device source) v =
    let acquired = acquire settings now device source s.policy in
    take-IsCounted settings (trim_space device) s acquired.0 acquired.1 v
      (acquire-Counts settings now device source s.policy)
step-IsCounted s (releases i) v = release-IsCounted s i v

run-IsCounted : (s : System) (cs : List Call) → IsCounted s → IsCounted (run s cs)
unfolding run
run-IsCounted s [] v = v
run-IsCounted s (c ∷ cs) v = run-IsCounted (step s c) cs (step-IsCounted s c v)

pub start : System
start = record { policy = new_runtime_policy; held = [] }

start-IsCounted : IsCounted start
unfolding start new_runtime_policy
start-IsCounted = record { all = refl; each = λ g named. ap (λ o. or_zero o 0) (get-empty g) }

-- The counts are exact: after any calls and releases, each permit released at most once, `total` is
-- the number of permits that are held, and a device's count the number of those for the device.
pub run-start_counts :
    (cs : List Call)
    → ((run start cs).policy.total ≡ length (run start cs).held)
      × ((device : Text)
          → is_empty device ≡ false
          → sessions_of (run start cs).policy device ≡ of_device device (run start cs).held)
run-start_counts cs = let v = run-IsCounted start cs start-IsCounted in (v.all, v.each)

-- The settings of every call have these limits.
abbrev pub HasLimits : ℕ → ℕ → Call → Type 0
HasLimits most most_device (acquires settings now device source) =
    (settings.max_concurrent_sessions ≡ pos most) × (settings.max_device_sessions ≡ pos most_device)
HasLimits most most_device (releases i) = Unit

record IsWithin (most most_device : ℕ) (held : List SessionPermit) : Type 0 where
  all : length held ≤ most
  each : (device : Text) → is_empty device ≡ false → of_device device held ≤ most_device

module _ (most most_device : ℕ) (some_room : 0 < most) (some_place : 0 < most_device) where
  take-IsWithin :
      (settings : RuntimeSettings) (device : Text) (s : System) (q : RuntimePolicy) (r : Acquired)
      → settings.max_concurrent_sessions ≡ pos most
      → settings.max_device_sessions ≡ pos most_device
      → IsCounted s
      → IsWithin most most_device s.held
      → Counts settings device s.policy (q, r)
      → IsWithin most most_device (take_permit r s.held)
  take-IsWithin settings device s q (denied d) m d' v w k = w
  take-IsWithin settings device s q (permit x) m d' v w (total, name, room, place, each) = record {
    all = ground (arith, v.all);
    each = λ g named. ground (arith, v.each g named, w.each g named, eq_text_iff x.device_guid g);
  }

  remove-IsWithin :
      (s : System) (i : ℕ)
      → IsWithin most most_device s.held
      → IsWithin most most_device (remove_nth s.held i)
  remove-IsWithin s i w = elim (Option-cases (nth s.held i)) [
    | inl gone ↦ rw (remove_nth-none s.held i gone) w
    | inr (x, e) ↦ record {
      all = omega (arith, length-remove_nth s.held i x e, w.all);
      each = λ g named. ground (arith, of_device-remove_nth g s.held i x e, w.each g named);
    }
  ]

  run-IsWithin :
      (s : System) (cs : List Call)
      → All (HasLimits most most_device) cs
      → IsCounted s
      → IsWithin most most_device s.held
      → IsWithin most most_device (run s cs).held
  unfolding run step
  run-IsWithin s [] l v w = w
  run-IsWithin s (acquires settings now device source ∷ cs) l v w =
      let acquired = acquire settings now device source s.policy in
      run-IsWithin (step s (acquires settings now device source)) cs l.1
        (step-IsCounted s (acquires settings now device source) v)
        (take-IsWithin settings (trim_space device) s acquired.0 acquired.1 l.0.0 l.0.1 v w
          (acquire-Counts settings now device source s.policy))
  run-IsWithin s (releases i ∷ cs) l v w =
      run-IsWithin (step s (releases i)) cs l.1 (step-IsCounted s (releases i) v)
        (remove-IsWithin s i w)

  -- With positive limits that do not change, no schedule of calls and releases ever holds more
  -- permits than the limit for all, or more permits for a device than the limit for a device.
  pub run-start_limits :
      (cs : List Call)
      → All (HasLimits most most_device) cs
      → (length (run start cs).held ≤ most)
        × ((device : Text)
            → is_empty device ≡ false
            → of_device device (run start cs).held ≤ most_device)
  unfolding start
  run-start_limits cs l =
      let w =
        run-IsWithin start cs l start-IsCounted
          (record { all = omega arith; each = λ g named. omega arith }) in
      (w.all, w.each)
