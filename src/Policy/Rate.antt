-- ===== src/Policy/Rate.antt =====
-- The rate limit against the history of the calls.
use navmesh_go.Base.{
  ℕ, ◌+◌, ◌≤◌, ◌<◌, ◌≡◌, ◌≢◌, ◌∙◌, sym, refl, ap, Bool, true, false, ◌&&◌, not, Option, none, some,
  List, [], ◌∷◌, ◌++◌, arith, ltb, ◌==◌, if◌then◌else◌, or_zero, length, keep, keep-append,
  keep-keep, length-append, length-keep-le, Bool-cases, inl, inr, ◌⊎◌,
}
use mathlib.Core.List.{append-nil, append_assoc}
use navmesh_go.Base.Int.{pos}
use navmesh_go.Base.Text.{Text, is_empty, trim_space, eq_text, eq_text_iff}
use navmesh_go.Base.Assoc.{bind}
use navmesh_go.Base.Map.{get, get-put, get-replace_all, get-empty}
use navmesh_go.Policy.{
  RuntimePolicy, RuntimeSettings, SessionPermit, Acquired, permit, denied, rate_limit_exceeded,
  minute, is_fresh, fresh_or_none, sweep_source_hits, hits_of, check_rate, admit, acquire, release,
  new_runtime_policy,
}

pub data Call : Type 0 where
  acquires : ℕ → Text → Text → Call
  releases : Option SessionPermit → Call

pub step : RuntimeSettings → RuntimePolicy → Call → RuntimePolicy
step settings p (acquires now device source) = (acquire settings now device source p).0
step settings p (releases held) = release held p

pub run : RuntimeSettings → RuntimePolicy → List Call → RuntimePolicy
run settings p [] = p
run settings p (c ∷ cs) = run settings (step settings p c) cs

abbrev pub within_rate : Acquired → Bool
within_rate (permit held) = true
within_rate (denied rate_limit_exceeded) = false
within_rate (denied other) = true

-- The times of the calls from `source` that the rate limit let pass.
pub passed : Text → RuntimeSettings → RuntimePolicy → List Call → List ℕ
passed source settings p [] = []
passed source settings p (acquires now device from ∷ cs) =
    let rest = passed source settings (step settings p (acquires now device from)) cs in
    if eq_text (trim_space from) source && within_rate (acquire settings now device from p).1
    then now ∷ rest
    else rest
passed source settings p (releases held ∷ cs) =
    passed source settings (step settings p (releases held)) cs

-- The calls come in the order of their times, from `t` on and no later than `end`.
abbrev pub InOrder : ℕ → ℕ → List Call → Type 0
InOrder t end [] = t ≤ end
InOrder t end (acquires now device source ∷ cs) = (t ≤ now) × InOrder now end cs
InOrder t end (releases held ∷ cs) = InOrder t end cs

-- From the time `t` on the fresh hits of the source are the fresh times of the history, and few.
record Tracks (limit : ℕ) (source : Text) (t : ℕ) (history : List ℕ) (p : RuntimePolicy)
    : Type 0 where
  same : (now : ℕ) → t ≤ now → keep (is_fresh now) (hits_of p source) ≡ keep (is_fresh now) history
  few : (now : ℕ) → t ≤ now → length (keep (is_fresh now) history) ≤ limit

fresh_before : (t now : ℕ) → t ≤ now → (x : ℕ) → is_fresh now x ≡ true → is_fresh t x ≡ true
unfolding is_fresh
fresh_before t now h x f = ground arith

some_or_none : List ℕ → Option (List ℕ)
some_or_none l = elim l [ [] ↦ none | h ∷ hs ↦ some (h ∷ hs) ]

or_zero-some_or_none : (l : List ℕ) → or_zero (some_or_none l) [] ≡ l
unfolding some_or_none
or_zero-some_or_none [] = refl
or_zero-some_or_none (h ∷ hs) = refl

bind-fresh :
    (t : ℕ) (o : Option (List ℕ))
    → or_zero (bind (fresh_or_none t) o) [] ≡ keep (is_fresh t) (or_zero o [])
unfolding keep some_or_none
bind-fresh t none = refl
bind-fresh t (some l) = or_zero-some_or_none (keep (is_fresh t) l)

sweep-hits :
    (t now : ℕ) (p : RuntimePolicy) (source : Text)
    → t ≤ now
    → keep (is_fresh now) (hits_of (sweep_source_hits t p) source)
      ≡ keep (is_fresh now) (hits_of p source)
unfolding sweep_source_hits
sweep-hits t now p source h =
    elim (Bool-cases (not (p.last_hit_sweep == 0) && ltb t (p.last_hit_sweep + minute))) [
      | inl recent ↦ rw recent
      | inr due ↦
          rw (due, get-replace_all (fresh_or_none t) p.source_hits source)
            (ap (keep (is_fresh now)) (bind-fresh t (get p.source_hits source))
              ∙ keep-keep (is_fresh t) (is_fresh now) (hits_of p source) (fresh_before t now h))
    ]

admit-source_hits :
    (settings : RuntimeSettings) (device source : Text) (p : RuntimePolicy)
    → ((admit settings device source p).0.source_hits ≡ p.source_hits)
      × (within_rate (admit settings device source p).1 ≡ true)
unfolding admit
admit-source_hits settings device source p = ground arith

module _ (settings : RuntimeSettings) (limit : ℕ)
    (limited : settings.rate_limit_per_minute ≡ pos limit) (positive : 0 < limit) (s : Text)
    (named : is_empty s ≡ false) where
  -- The hits that `Acquire` leaves, for the source `s`, and whether it lets the call pass.
  check-hits_self :
      (now : ℕ) (p : RuntimePolicy)
      → let kept = keep (is_fresh now) (hits_of p s) in
        let (checked, passes) = check_rate settings now s p in
        ((passes ≡ false) × (hits_of checked s ≡ kept))
        ⊎ ((passes ≡ true) × (hits_of checked s ≡ kept ++ now ∷ []) × (length kept < limit))
  unfolding check_rate
  check-hits_self now p = ground (
    arith,
    limited,
    get-put p.source_hits s s (keep (is_fresh now) (hits_of p s)),
    get-put p.source_hits s s (keep (is_fresh now) (hits_of p s) ++ now ∷ []),
    eq_text_iff s s,
  )

  check-hits_other :
      (now : ℕ) (from : Text) (p : RuntimePolicy)
      → from ≢ s
      → hits_of (check_rate settings now from p).0 s ≡ hits_of p s
  unfolding check_rate
  check-hits_other now from p o = ground (
    arith,
    get-put p.source_hits from s (keep (is_fresh now) (hits_of p from)),
    get-put p.source_hits from s (keep (is_fresh now) (hits_of p from) ++ now ∷ []),
    eq_text_iff from s,
  )

  acquire_lem :
      (now : ℕ) (device from : Text) (p : RuntimePolicy)
      → let checked = check_rate settings now (trim_space from) (sweep_source_hits now p) in
        ((acquire settings now device from p).0.source_hits ≡ checked.0.source_hits)
        × (within_rate (acquire settings now device from p).1 ≡ checked.1)
  unfolding acquire
  acquire_lem now device from p =
      let checked = check_rate settings now (trim_space from) (sweep_source_hits now p) in
      ground (arith, admit-source_hits settings (trim_space device) (trim_space from) checked.0)

  -- What a call does to what is tracked: a hit that passes joins the history.
  Tracks-passed :
      (t now : ℕ) (history : List ℕ) (p q : RuntimePolicy)
      → t ≤ now
      → Tracks limit s t history p
      → hits_of q s ≡ keep (is_fresh now) (hits_of p s) ++ now ∷ []
      → length (keep (is_fresh now) (hits_of p s)) < limit
      → Tracks limit s now (history ++ now ∷ []) q
  Tracks-passed t now history p q h v e small = record {
    same = λ later l.
        ap (keep (is_fresh later)) e
        ∙ keep-append (is_fresh later) (keep (is_fresh now) (hits_of p s)) (now ∷ [])
        ∙ ap (λ xs. xs ++ keep (is_fresh later) (now ∷ []))
            (keep-keep (is_fresh now) (is_fresh later) (hits_of p s) (fresh_before now later l)
              ∙ v.same later (omega arith))
        ∙ sym (keep-append (is_fresh later) history (now ∷ []));
    few = λ later l.
        let last = length-keep-le (is_fresh later) (now ∷ []) in
        let old : length (keep (is_fresh later) history)
            ≤ length (keep (is_fresh now) (hits_of p s)) =
          rw
            (
              ← v.same later (omega arith),
              ← keep-keep (is_fresh now) (is_fresh later) (hits_of p s) (fresh_before now later l),
            )
            (length-keep-le (is_fresh later) (keep (is_fresh now) (hits_of p s))) in
        omega (
          arith,
          ap length (keep-append (is_fresh later) history (now ∷ [])),
          length-append (keep (is_fresh later) history) (keep (is_fresh later) (now ∷ [])),
          last,
          old,
          small,
        );
  }

  Tracks-same :
      (t now : ℕ) (history : List ℕ) (p q : RuntimePolicy)
      → t ≤ now
      → Tracks limit s t history p
      → ((later : ℕ)
          → now ≤ later
          → keep (is_fresh later) (hits_of q s) ≡ keep (is_fresh later) (hits_of p s))
      → Tracks limit s now history q
  Tracks-same t now history p q h v e = record {
    same = λ later l. e later l ∙ v.same later (omega arith);
    few = λ later l. v.few later (omega arith);
  }

  abbrev with_hit : ℕ → Text → Acquired → List ℕ → List ℕ
  with_hit now from r history =
      if eq_text (trim_space from) s && within_rate r then history ++ now ∷ [] else history

  acquire-Tracks_self :
      (t now : ℕ) (device from : Text) (history : List ℕ) (p : RuntimePolicy)
      → t ≤ now
      → trim_space from ≡ s
      → Tracks limit s t history p
      → Tracks limit s now
          (if within_rate (acquire settings now device from p).1
            then history ++ now ∷ []
            else history)
          (acquire settings now device from p).0
  acquire-Tracks_self t now device from history p h e v =
      let swept = sweep_source_hits now p in
      let (hits, passes) = acquire_lem now device from p in
      let before : Tracks limit s now history swept =
        Tracks-same t now history p swept h v (λ later l. sweep-hits now later p s l) in
      let hits' : hits_of (acquire settings now device from p).0 s
          ≡ hits_of (check_rate settings now s swept).0 s =
        ap (λ m. or_zero (get m s) []) hits
        ∙ ap (λ src. hits_of (check_rate settings now src swept).0 s) e in
      let passes' : within_rate (acquire settings now device from p).1
          ≡ (check_rate settings now s swept).1 =
        passes ∙ ap (λ src. (check_rate settings now src swept).1) e in
      elim (check-hits_self now swept) [
        | inl (no_pass, kept) ↦
            rw (passes', no_pass)
              (Tracks-same now now history swept _ (omega arith) before (λ later l.
                ap (keep (is_fresh later)) (hits' ∙ kept)
                ∙ keep-keep (is_fresh now) (is_fresh later) (hits_of swept s)
                    (fresh_before now later l)))
        | inr (pass, kept, small) ↦
            rw (passes', pass)
              (Tracks-passed now now history swept _ (omega arith) before (hits' ∙ kept) small)
      ]

  acquire-Tracks :
      (t now : ℕ) (device from : Text) (history : List ℕ) (p : RuntimePolicy)
      → t ≤ now
      → Tracks limit s t history p
      → Tracks limit s now
          (with_hit now from (acquire settings now device from p).1 history)
          (acquire settings now device from p).0
  acquire-Tracks t now device from history p h v = elim (Bool-cases (eq_text (trim_space from) s)) [
    | inl mine ↦ rw mine (
        acquire-Tracks_self t now device from history p h ((eq_text_iff (trim_space from) s).0 mine)
          v)
    | inr other ↦
        let differs : trim_space from ≢ s = λ e. cc ((eq_text_iff (trim_space from) s).1 e) in
        rw other (
          Tracks-same t now history p _ h v (λ later l.
            ap (keep (is_fresh later)) (
              ap (λ m. or_zero (get m s) []) (acquire_lem now device from p).0
              ∙ check-hits_other now (trim_space from) (sweep_source_hits now p) differs)
            ∙ sweep-hits now later p s l))
  ]

  release-hits :
      (held : Option SessionPermit) (p : RuntimePolicy) → hits_of (release held p) s ≡ hits_of p s
  unfolding release
  release-hits none p = refl
  release-hits (some x) p = refl

  run-few :
      (t end : ℕ) (history : List ℕ) (p : RuntimePolicy) (cs : List Call)
      → InOrder t end cs
      → Tracks limit s t history p
      → length (keep (is_fresh end) (history ++ passed s settings p cs)) ≤ limit
  unfolding passed step
  run-few t end history p [] o v = rw append-nil (v.few end o)
  run-few t end history p (releases held ∷ cs) o v = run-few t end history (release held p) cs o (
      Tracks-same t t history p (release held p) (omega arith) v
        (λ later l. ap (keep (is_fresh later)) (release-hits held p)))
  run-few t end history p (acquires now device from ∷ cs) o v =
      let next =
        run-few now end (with_hit now from (acquire settings now device from p).1 history)
          (acquire settings now device from p).0 cs o.1
          (acquire-Tracks t now device from history p o.0 v) in
      elim (Bool-cases
        (eq_text (trim_space from) s && within_rate (acquire settings now device from p).1)) [
          | inl hit ↦ rw hit (rw (hit, append_assoc) at next)
          | inr no_hit ↦ rw no_hit (rw no_hit at next)
        ]

  -- The rate limit holds against the history of the calls: with a positive limit, and settings that
  -- do not change, at any time at most `limit` of the calls from a source that the limit let pass are
  -- less than a minute old, whatever calls and releases came in between, in the order of their times.
  pub passed-few :
      (end : ℕ) (cs : List Call)
      → InOrder 0 end cs
      → length (keep (is_fresh end) (passed s settings new_runtime_policy cs)) ≤ limit
  unfolding new_runtime_policy
  passed-few end cs o = run-few 0 end [] new_runtime_policy cs o (record {
    same = λ now l. ap (λ m. keep (is_fresh now) (or_zero m [])) (get-empty s);
    few = λ now l. omega (arith, length-keep-le (is_fresh now) []);
  })
