-- ===== src/Traffic/Totals.antt =====
-- The sums of the days of an interface, its state, and a meter that says what both are to be.
use navmesh_go.Base.{
  ℕ, ◌+◌, ◌-◌, ◌≡◌, ◌∙◌, refl, ap, subst, Bool, true, false, ◌||◌, ◌&&◌, not, Option, none, some,
  List, [], ◌∷◌, arith, ltb, if◌then◌else◌, Bool-cases, inl, inr,
}
use navmesh_go.Base.Int.{ℤ}
use navmesh_go.Base.Text.{Text, eq_text, eq_text_iff, is_empty, trim_space}
use navmesh_go.Traffic.{
  DeviceTrafficState, DeviceTrafficDaily, TrafficTables, is_state, find_state, update_states,
  traffic_counter_reset, Delta, is_day, new_day, add_to_day, upsert_daily_delta, Sample,
  moved_state, delta_of, count_delta,
}

-- The last counters of an interface, with the boot that they belong to.
pub record Counters : Type 0 where
  pub rx : ℕ
  pub tx : ℕ
  pub boot_id : Text

-- What is to be known of an interface: its last counters, and the bytes that they moved.
pub record Meter : Type 0 where
  pub last : Option Counters
  pub rx : ℕ
  pub tx : ℕ

abbrev pub counters_of : Sample → Counters
counters_of s = record { rx = s.rx; tx = s.tx; boot_id = trim_space s.boot_id }

-- The counters began again, by a lower value or another boot.
abbrev pub began_again : Counters → Sample → Bool
began_again c s =
    ltb s.rx c.rx
    || ltb s.tx c.tx
    || (not (is_empty (trim_space s.boot_id))
        && not (is_empty (trim_space c.boot_id))
        && not (eq_text (trim_space s.boot_id) (trim_space c.boot_id)))

abbrev pub move : Sample → Option Counters → Meter → Meter
move s none m = record m { last = some (counters_of s) }
move s (some c) m = if began_again c s then record m { last = some (counters_of s) } else record {
  last = some (counters_of s);
  rx = m.rx + (s.rx - c.rx);
  tx = m.tx + (s.tx - c.tx);
}

-- A sample of this interface moves the meter; another one does not.
abbrev pub meter_step : Text → Text → Sample → Meter → Meter
meter_step guid iface s m =
    if eq_text s.device_guid guid && eq_text s.iface iface then move s m.last m else m

abbrev is_row : Text → Text → DeviceTrafficDaily → Bool
is_row guid iface row = eq_text row.device_guid guid && eq_text row.iface iface

abbrev pub total_rx : Text → Text → List DeviceTrafficDaily → ℕ
total_rx guid iface [] = 0
total_rx guid iface (row ∷ rows) =
    let rest = total_rx guid iface rows in
    if is_row guid iface row then row.rx_bytes + rest else rest

abbrev pub total_tx : Text → Text → List DeviceTrafficDaily → ℕ
total_tx guid iface [] = 0
total_tx guid iface (row ∷ rows) =
    let rest = total_tx guid iface rows in
    if is_row guid iface row then row.tx_bytes + rest else rest

abbrev part : Text → Text → Delta → ℕ → ℕ
part guid iface d n = if eq_text d.device_guid guid && eq_text d.iface iface then n else 0

-- A row of the same day is one of the same interface.
same_row :
    (guid iface : Text) (d : Delta) (row : DeviceTrafficDaily)
    → is_day d row ≡ true
    → is_row guid iface row ≡ (eq_text d.device_guid guid && eq_text d.iface iface)
same_row guid iface d row h =
    let e : row.device_guid ≡ d.device_guid =
      (eq_text_iff row.device_guid d.device_guid).0 (ground arith) in
    let f : row.iface ≡ d.iface = (eq_text_iff row.iface d.iface).0 (ground arith) in
    ap (λ t. eq_text t guid && eq_text row.iface iface) e
    ∙ ap (λ t. eq_text d.device_guid guid && eq_text t iface) f

total_rx-upsert :
    (guid iface : Text) (d : Delta) (rows : List DeviceTrafficDaily)
    → total_rx guid iface (upsert_daily_delta d rows)
      ≡ total_rx guid iface rows + part guid iface d d.rx
unfolding upsert_daily_delta new_day add_to_day
total_rx-upsert guid iface d [] = ground arith
total_rx-upsert guid iface d (row ∷ rows) = elim (Bool-cases (is_day d row)) [
  | inl e ↦ let same = same_row guid iface d row e in rw e (ground arith)
  | inr e ↦ let rest = total_rx-upsert guid iface d rows in rw e (ground arith)
]

total_tx-upsert :
    (guid iface : Text) (d : Delta) (rows : List DeviceTrafficDaily)
    → total_tx guid iface (upsert_daily_delta d rows)
      ≡ total_tx guid iface rows + part guid iface d d.tx
unfolding upsert_daily_delta new_day add_to_day
total_tx-upsert guid iface d [] = ground arith
total_tx-upsert guid iface d (row ∷ rows) = elim (Bool-cases (is_day d row)) [
  | inl e ↦ let same = same_row guid iface d row e in rw e (ground arith)
  | inr e ↦ let rest = total_tx-upsert guid iface d rows in rw e (ground arith)
]

abbrev pub state_counters : Option DeviceTrafficState → Option Counters
state_counters none = none
state_counters (some state) =
    some (record { rx = state.rx_bytes; tx = state.tx_bytes; boot_id = state.traffic_boot_id })

-- The tables say what the meter says.
abbrev pub Shows : Text → Text → TrafficTables → Meter → Type 0
Shows guid iface tables m =
    (state_counters (find_state guid iface tables.states) ≡ m.last)
    × (total_rx guid iface tables.daily ≡ m.rx)
    × (total_tx guid iface tables.daily ≡ m.tx)

pub find_state-update_states :
    (s : Sample) (ss : List DeviceTrafficState) (old : DeviceTrafficState)
    → find_state s.device_guid s.iface ss ≡ some old
    → state_counters
        (find_state s.device_guid s.iface (update_states s.device_guid s.iface (moved_state s) ss))
      ≡ some (counters_of s)
unfolding find_state update_states
find_state-update_states s [] old h = absurd cc
find_state-update_states s (x ∷ ss) old h = elim (Bool-cases (is_state s.device_guid s.iface x)) [
  | inl e ↦ rw (e, e) refl
  | inr e ↦
      rw (e, e)
        (find_state-update_states s ss old
          (subst (λ t. (if t then some x else find_state s.device_guid s.iface ss) ≡ some old) e h))
]

-- Another interface keeps its state.
pub find_state-update_states_other :
    (guid iface : Text) (s : Sample) (ss : List DeviceTrafficState)
    → eq_text s.device_guid guid && eq_text s.iface iface ≡ false
    → find_state guid iface (update_states s.device_guid s.iface (moved_state s) ss)
      ≡ find_state guid iface ss
unfolding find_state update_states
find_state-update_states_other guid iface s [] other = refl
find_state-update_states_other guid iface s (x ∷ ss) other =
    let rest = find_state-update_states_other guid iface s ss other in
    elim (Bool-cases (is_state s.device_guid s.iface x)) [
      | inl e ↦
          let g : x.device_guid ≡ s.device_guid =
            (eq_text_iff x.device_guid s.device_guid).0 (ground arith) in
          let i : x.iface ≡ s.iface = (eq_text_iff x.iface s.iface).0 (ground arith) in
          let not_it : is_state guid iface x ≡ false =
            ap (λ t. eq_text t guid && eq_text x.iface iface) g
            ∙ ap (λ t. eq_text s.device_guid guid && eq_text t iface) i
            ∙ other in
          rw (e, not_it) rest
      | inr e ↦ elim (Bool-cases (is_state guid iface x)) [
        | inl f ↦ rw (e, f) refl
        | inr f ↦ rw (e, f) rest
      ]
    ]

pub total_rx-count_delta :
    (guid iface : Text) (day_of : ℤ → Text) (s : Sample) (state : DeviceTrafficState)
    (daily : List DeviceTrafficDaily)
    → total_rx guid iface (count_delta day_of s state daily)
      ≡ total_rx guid iface daily
        + (if eq_text s.device_guid guid && eq_text s.iface iface
            then if traffic_counter_reset state s.rx s.tx s.boot_id
              then 0
              else s.rx - state.rx_bytes
            else 0)
unfolding count_delta
total_rx-count_delta guid iface day_of s state daily =
    let a = total_rx-upsert guid iface (delta_of day_of s 0 0 1) daily in
    let b =
      total_rx-upsert guid iface
        (delta_of day_of s (s.rx - state.rx_bytes) (s.tx - state.tx_bytes) 0) daily in
    ground arith

pub total_tx-count_delta :
    (guid iface : Text) (day_of : ℤ → Text) (s : Sample) (state : DeviceTrafficState)
    (daily : List DeviceTrafficDaily)
    → total_tx guid iface (count_delta day_of s state daily)
      ≡ total_tx guid iface daily
        + (if eq_text s.device_guid guid && eq_text s.iface iface
            then if traffic_counter_reset state s.rx s.tx s.boot_id
              then 0
              else s.tx - state.tx_bytes
            else 0)
unfolding count_delta
total_tx-count_delta guid iface day_of s state daily =
    let a = total_tx-upsert guid iface (delta_of day_of s 0 0 1) daily in
    let b =
      total_tx-upsert guid iface
        (delta_of day_of s (s.rx - state.rx_bytes) (s.tx - state.tx_bytes) 0) daily in
    ground arith
