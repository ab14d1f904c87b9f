-- ===== src/Telemetry/Spacing.antt =====
-- How far apart the persisted samples of a device are.
use navmesh_go.Base.{
  ℕ, ◌+◌, ◌^◌, ◌/◌, ◌≤◌, ◌<◌, ◌≡◌, ◌≢◌, ◌∙◌, refl, ap, true, false, List, [], ◌∷◌, arith, All, ◌⊎◌,
  inl, inr,
}
use navmesh_go.Base.Int.{ℤ, pos, leb_ℤ, eq_ℤ_iff, sub64_exact}
use navmesh_go.Base.Text.{Text, is_empty, trim_space, eq_text_iff}
use navmesh_go.Base.Map.{get-put, get-delete}
use navmesh_go.Telemetry.{
  Sampler, time_of, milliseconds, should_persist, save_persisted, forget, forget_sample,
}

pub data Call : Type 0 where
  samples : Text → ℤ → ℤ → Call
  saves forgets : Text → ℤ → Call
  drops : Text → Call

unfoldable pub step : Sampler → Call → Sampler
step s (samples guid now interval) = (should_persist guid now interval s).0
step s (saves guid now) = save_persisted guid now s
step s (forgets guid at) = forget guid at s
step s (drops guid) = forget_sample guid s

unfoldable pub run : Sampler → List Call → Sampler
run s [] = s
run s (c ∷ cs) = run (step s c) cs

-- A call that does not change the entry of `g`: one on another device, or a sample that is refused.
abbrev pub guid_of : Call → Text
guid_of (samples guid now interval) = trim_space guid
guid_of (saves guid now) = trim_space guid
guid_of (forgets guid at) = trim_space guid
guid_of (drops guid) = trim_space guid

time_of-step :
    (s : Sampler) (g : Text) (c : Call)
    → guid_of c ≢ g
    → time_of (step s c).last_save g ≡ time_of s.last_save g
unfolding step should_persist save_persisted forget forget_sample
time_of-step s g (samples guid now interval) o =
    ground (arith, get-put s.last_save (trim_space guid) g now, eq_text_iff (trim_space guid) g)
time_of-step s g (saves guid now) o =
    ground (arith, get-put s.last_save (trim_space guid) g now, eq_text_iff (trim_space guid) g)
time_of-step s g (forgets guid at) o =
    ground (arith, get-delete s.last_save (trim_space guid) g, eq_text_iff (trim_space guid) g)
time_of-step s g (drops guid) o =
    ground (arith, get-delete s.last_save (trim_space guid) g, eq_text_iff (trim_space guid) g)

time_of-run :
    (s : Sampler) (g : Text) (cs : List Call)
    → All (λ c. guid_of c ≢ g) cs
    → time_of (run s cs).last_save g ≡ time_of s.last_save g
unfolding run
time_of-run s g [] o = refl
time_of-run s g (c ∷ cs) o = time_of-run (step s c) g cs o.1 ∙ time_of-step s g c o.0

-- An accepted sample reserves its time.
accepted_time :
    (guid : Text) (now interval : ℤ) (s : Sampler)
    → is_empty (trim_space guid) ≡ false
    → leb_ℤ interval (pos 0) ≡ false
    → (should_persist guid now interval s).1 ≡ true
    → time_of (should_persist guid now interval s).0.last_save (trim_space guid) ≡ now
unfolding should_persist
accepted_time guid now interval s named positive h = ground (
  arith,
  get-put s.last_save (trim_space guid) (trim_space guid) now,
  eq_text_iff (trim_space guid) (trim_space guid),
)

-- The test of `ShouldPersist`, for times in the range of an int64.
accepted_after :
    (guid : Text) (before now interval : ℕ) (s : Sampler)
    → is_empty (trim_space guid) ≡ false
    → 0 < before
    → before < 2 ^ 63
    → now < 2 ^ 63
    → 0 < interval
    → time_of s.last_save (trim_space guid) ≡ pos before
    → (should_persist guid (pos now) (pos interval) s).1 ≡ true
    → before + interval / 10 ^ 6 ≤ now
unfolding should_persist milliseconds
accepted_after guid before now interval s named b₀ b n i e h =
    ground (arith, sub64_exact now before n b, e)

-- A sample that is refused in the state `s`.
abbrev pub Refused : Sampler → Call → Type 0
Refused s (samples guid now interval) = (should_persist guid now interval s).1 ≡ false
Refused s (saves guid now) = ⊥
Refused s (forgets guid at) = ⊥
Refused s (drops guid) = ⊥

-- Calls on other devices than `g`, and samples that are refused.
abbrev pub Quiet : Text → Sampler → List Call → Type 0
Quiet g s [] = Unit
Quiet g s (c ∷ cs) = ((guid_of c ≢ g) ⊎ Refused s c) × Quiet g (step s c) cs

Refused-same : (s : Sampler) (c : Call) → Refused s c → step s c ≡ s
unfolding step should_persist
Refused-same s (samples guid now interval) h = ground arith
Refused-same s (saves guid now) h = absurd h
Refused-same s (forgets guid at) h = absurd h
Refused-same s (drops guid) h = absurd h

time_of-Quiet :
    (s : Sampler) (g : Text) (cs : List Call)
    → Quiet g s cs
    → time_of (run s cs).last_save g ≡ time_of s.last_save g
unfolding run
time_of-Quiet s g [] q = refl
time_of-Quiet s g (c ∷ cs) (inl other, q) =
    time_of-Quiet (step s c) g cs q ∙ time_of-step s g c other
time_of-Quiet s g (c ∷ cs) (inr refused, q) =
    time_of-Quiet (step s c) g cs q
    ∙ ap (λ (t : Sampler). time_of t.last_save g) (Refused-same s c refused)

-- If between two samples of a device that `ShouldPersist` accepts there are only calls on other devices
-- and refused samples, so that nothing is saved or forgotten for the device in between, then the two
-- are at least the second call's interval apart, in whole milliseconds; for positive times in the range
-- of an int64, positive intervals, and a device guid that is not blank.
pub should_persist_spacing :
    (guid : Text) (before now first interval : ℕ) (s : Sampler) (cs : List Call)
    → is_empty (trim_space guid) ≡ false
    → 0 < before
    → before < 2 ^ 63
    → now < 2 ^ 63
    → 0 < first
    → 0 < interval
    → (should_persist guid (pos before) (pos first) s).1 ≡ true
    → Quiet (trim_space guid) (should_persist guid (pos before) (pos first) s).0 cs
    → (should_persist guid
        (pos now)
        (pos interval)
        (run (should_persist guid (pos before) (pos first) s).0 cs)).1
      ≡ true
    → before + interval / 10 ^ 6 ≤ now
should_persist_spacing guid before now first interval s cs named b₀ b n f i taken q again =
    let s' = (should_persist guid (pos before) (pos first) s).0 in
    accepted_after guid before now interval (run s' cs) named b₀ b n i
      (time_of-Quiet s' (trim_space guid) cs q
        ∙ accepted_time guid (pos before) (pos first) s named (ground arith) taken)
      again

forget_self :
    (guid : Text) (reserved : ℤ) (s : Sampler)
    → is_empty (trim_space guid) ≡ false
    → time_of s.last_save (trim_space guid) ≡ reserved
    → time_of (forget guid reserved s).last_save (trim_space guid) ≡ pos 0
unfolding forget
forget_self guid reserved s named e = ground (
  arith,
  eq_ℤ_iff (time_of s.last_save (trim_space guid)) reserved,
  get-delete s.last_save (trim_space guid) (trim_space guid),
  eq_text_iff (trim_space guid) (trim_space guid),
)

unset_accepted :
    (guid : Text) (now interval : ℤ) (s : Sampler)
    → time_of s.last_save (trim_space guid) ≡ pos 0
    → (should_persist guid now interval s).1 ≡ true
unfolding should_persist
unset_accepted guid now interval s e = ground arith

-- A sample whose write failed can be given back: after `Forget` with the time of an accepted sample
-- the next sample of the device is accepted, whatever its time, with calls on other devices and
-- refused samples in between.
pub should_persist-forget :
    (guid : Text) (reserved now first interval : ℤ) (s : Sampler) (cs : List Call)
    → is_empty (trim_space guid) ≡ false
    → leb_ℤ first (pos 0) ≡ false
    → (should_persist guid reserved first s).1 ≡ true
    → Quiet (trim_space guid) (should_persist guid reserved first s).0 cs
    → (should_persist guid now interval
        (forget guid reserved (run (should_persist guid reserved first s).0 cs))).1
      ≡ true
should_persist-forget guid reserved now first interval s cs named positive taken q =
    let s' = run (should_persist guid reserved first s).0 cs in
    unset_accepted guid now interval (forget guid reserved s') (
      forget_self guid reserved s' named (
        time_of-Quiet (should_persist guid reserved first s).0 (trim_space guid) cs q
        ∙ accepted_time guid reserved first s named positive taken))

-- `Forget` leaves a device alone that was saved at another time since.
pub forget_stale :
    (guid : Text) (reserved later : ℤ) (s : Sampler)
    → later ≢ reserved
    → forget guid reserved (save_persisted guid later s) ≡ save_persisted guid later s
unfolding forget save_persisted
forget_stale guid reserved later s d = ground (
  arith,
  get-put s.last_save (trim_space guid) (trim_space guid) later,
  eq_text_iff (trim_space guid) (trim_space guid),
  eq_ℤ_iff later reserved,
)
