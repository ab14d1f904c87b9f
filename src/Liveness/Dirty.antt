-- ===== src/Liveness/Dirty.antt =====
-- What `Touch` and `ack` leave in the registry.
use navmesh_go.Base.{
  ◌≡◌, ◌∙◌, subst, refl, ap, false, not, Option, none, some, List, [], ◌∷◌, arith, Bool-cases, inl,
  inr, if◌then◌else◌,
}
use navmesh_go.Base.Int.{ℤ, pos, leb_ℤ, ltb_ℤ}
use navmesh_go.Base.Text.{Text, is_empty, trim_space, eq_text, eq_text_iff}
use navmesh_go.Base.Assoc.{Assoc, Distinct, kept, lookup}
use navmesh_go.Base.Map.{Map, get, delete, get-put, get-delete}
use navmesh_go.Liveness.{LivenessRegistry, time_of, ack_entries, touch, last_seen}

-- What is left of an entry when the snapshot's entry is acknowledged.
abbrev pub after_ack : Option ℤ → Option ℤ → Option ℤ
after_ack none o = o
after_ack (some flushed_at) o = kept (λ at. not (leb_ℤ at flushed_at)) o

ack_one :
    (dirty : Map ℤ) (guid g : Text) (flushed_at : ℤ)
    → get (if leb_ℤ (time_of dirty guid) flushed_at then delete dirty guid else dirty) g
      ≡ (if eq_text guid g then after_ack (some flushed_at) (get dirty g) else get dirty g)
ack_one dirty guid g flushed_at = ground (arith, get-delete dirty guid g, eq_text_iff guid g)

-- Entry by entry: an acknowledged device stays dirty exactly if it was touched after its snapshot.
pub get-ack_entries :
    (items : Assoc ℤ) (dirty : Map ℤ) (g : Text)
    → Distinct items
    → get (ack_entries items dirty) g ≡ after_ack (lookup g items) (get dirty g)
unfolding ack_entries lookup
get-ack_entries [] dirty g d = refl
get-ack_entries ((guid, flushed_at) ∷ rest) dirty g d =
    get-ack_entries rest
      (if leb_ℤ (time_of dirty guid) flushed_at then delete dirty guid else dirty) g d.1
    ∙ ap (after_ack (lookup g rest)) (ack_one dirty guid g flushed_at)
    ∙ elim (Bool-cases (eq_text guid g)) [
      | inl same ↦
          let absent : lookup g rest ≡ none =
            subst (λ k. lookup k rest ≡ none) ((eq_text_iff guid g).0 same) d.0 in
          rw (same, absent) refl
      | inr other ↦ rw other refl
    ]

-- The time that `Touch` records: the clock's, if it is given none.
abbrev pub seen_time : ℤ → ℤ → ℤ
seen_time now at = if leb_ℤ at (pos 0) then now else at

abbrev pub later_of : ℤ → ℤ → ℤ
later_of a b = if ltb_ℤ a b then b else a

-- A touch: the clock's time, the guid and the time that is passed.
abbrev pub Touch : Type 0
Touch = ℤ × Text × ℤ

-- The latest time among `start` and the touches of the guid `g`, which has no space around it.
abbrev pub latest : Text → ℤ → List Touch → ℤ
latest g start [] = start
latest g start ((now, guid, at) ∷ rest) =
    latest g (if eq_text (trim_space guid) g then later_of start (seen_time now at) else start) rest

module _ {Handle : Type 0} where
  abbrev pub touch_all : LivenessRegistry Handle → List Touch → LivenessRegistry Handle
  touch_all r [] = r
  touch_all r ((now, guid, at) ∷ rest) = touch_all (touch now guid at r) rest

  time_of-touch :
      (now at : ℤ) (guid g : Text) (r : LivenessRegistry Handle)
      → is_empty g ≡ false
      → time_of (touch now guid at r).dirty g ≡ (
          if eq_text (trim_space guid) g
          then later_of (time_of r.dirty g) (seen_time now at)
          else time_of r.dirty g)
  unfolding touch
  time_of-touch now at guid g r named = ground (
    arith,
    get-put r.dirty (trim_space guid) g (seen_time now at),
    eq_text_iff (trim_space guid) g,
  )

  time_of-touch_all :
      (g : Text) (touches : List Touch) (r : LivenessRegistry Handle)
      → is_empty g ≡ false
      → time_of (touch_all r touches).dirty g ≡ latest g (time_of r.dirty g) touches
  time_of-touch_all g [] r named = refl
  time_of-touch_all g ((now, guid, at) ∷ rest) r named =
      time_of-touch_all g rest (touch now guid at r) named
      ∙ ap (λ t. latest g t rest) (time_of-touch now at guid g r named)

  -- After any touches `LastSeen` of a device is the latest of their times and its own: the order in
  -- which they come and older times that come late make no difference. A touch with no positive
  -- time counts with the clock's time, and guids are compared without the spaces around them.
  pub last_seen-touch_all :
      (device_guid : Text) (touches : List Touch) (r : LivenessRegistry Handle)
      → is_empty (trim_space device_guid) ≡ false
      → last_seen (touch_all r touches) device_guid
        ≡ latest (trim_space device_guid) (last_seen r device_guid) touches
  unfolding last_seen
  last_seen-touch_all device_guid touches r named =
      time_of-touch_all (trim_space device_guid) touches r named
