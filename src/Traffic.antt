-- ===== src/Traffic.antt =====
-- services/device_traffic_service.go: the traffic of the devices, which the heartbeats report as counters.
-- `day_of` gives the day of a time in the time zone of the program. The sums of bytes stay below 2 ^ 63.
-- The name of an interface is ASCII, so that its bytes are its characters. A call is one transaction; one
-- that fails changes nothing.
pub mod Totals
pub mod Run
mod Tests
use navmesh_go.Base.{
  ℕ, zero, suc, ◌+◌, ◌-◌, ◌*◌, ◌≡◌, Bool, true, false, ◌||◌, ◌&&◌, not, Option, none, some, List,
  [], ◌∷◌, ltb, leb, take, if◌then◌else◌,
}
use navmesh_go.Base.Int.{ℤ, pos, negsuc, add_ℤ, leb_ℤ, ltb_ℤ}
use navmesh_go.Base.Text.{Text, eq_text, is_empty, trim_space}

-- The fields of HeartbeatRequest that are read here.
pub record TrafficSample : Type 0 where
  pub traffic_iface : Text
  pub traffic_boot_id : Text
  pub traffic_rx_bytes : ℤ
  pub traffic_tx_bytes : ℤ
  pub traffic_sample_time : ℤ

-- domains/device_traffic.go
pub record DeviceTrafficState : Type 0 where
  pub device_guid : Text
  pub iface : Text
  pub traffic_boot_id : Text
  pub rx_bytes : ℕ
  pub tx_bytes : ℕ
  pub sample_time : ℤ
  pub create_time : ℤ
  pub update_time : ℤ

pub record DeviceTrafficDaily : Type 0 where
  pub device_guid : Text
  pub iface : Text
  pub day : Text
  pub rx_bytes : ℕ
  pub tx_bytes : ℕ
  pub total_bytes : ℕ
  pub sample_count : ℕ
  pub reset_count : ℕ
  pub first_seen_time : ℤ
  pub last_seen_time : ℤ
  pub create_time : ℤ
  pub update_time : ℤ

pub record TrafficTables : Type 0 where
  pub states : List DeviceTrafficState
  pub daily : List DeviceTrafficDaily

unfoldable pub normalize_traffic_interface : Text → Text
normalize_traffic_interface value = take 64 (trim_space value)

abbrev magnitude : ℤ → ℕ
magnitude (pos n) = n
magnitude (negsuc n) = 0

abbrev ten_minutes : ℤ
ten_minutes = pos (10 * 60 * 1000)

-- The time of a sample, or the time of the server where it is missing or more than ten minutes off.
unfoldable pub sample_time_of : (now time : ℤ) → ℤ
sample_time_of now time =
    let t = if leb_ℤ time (pos 0) then now else time in
    if ltb_ℤ (add_ℤ t ten_minutes) now || ltb_ℤ (add_ℤ now ten_minutes) t then now else t

abbrev pub is_state : Text → Text → DeviceTrafficState → Bool
is_state guid iface s = eq_text s.device_guid guid && eq_text s.iface iface

unfoldable pub find_state : Text → Text → List DeviceTrafficState → Option DeviceTrafficState
find_state guid iface [] = none
find_state guid iface (s ∷ ss) =
    let later = find_state guid iface ss in if is_state guid iface s then some s else later

-- The update of the states with a guid and an interface.
unfoldable pub update_states :
    Text
    → Text
    → (DeviceTrafficState → DeviceTrafficState)
    → List DeviceTrafficState
    → List DeviceTrafficState
update_states guid iface change [] = []
update_states guid iface change (s ∷ ss) =
    let rest = update_states guid iface change ss in
    if is_state guid iface s then change s ∷ rest else s ∷ rest

unfoldable pub traffic_counter_reset : DeviceTrafficState → (rx tx : ℕ) → (boot_id : Text) → Bool
traffic_counter_reset state rx tx boot_id =
    let id = trim_space boot_id in
    let old = trim_space state.traffic_boot_id in
    ltb rx state.rx_bytes
    || ltb tx state.tx_bytes
    || (not (is_empty id) && not (is_empty old) && not (eq_text id old))

-- The change of a day.
pub record Delta : Type 0 where
  pub device_guid : Text
  pub iface : Text
  pub day : Text
  pub rx : ℕ
  pub tx : ℕ
  pub resets : ℕ
  pub sample_time : ℤ
  pub now : ℤ

abbrev pub is_day : Delta → DeviceTrafficDaily → Bool
is_day d row =
    eq_text row.device_guid d.device_guid && eq_text row.iface d.iface && eq_text row.day d.day

unfoldable pub new_day : Delta → DeviceTrafficDaily
new_day d = record {
  device_guid = d.device_guid;
  iface = d.iface;
  day = d.day;
  rx_bytes = d.rx;
  tx_bytes = d.tx;
  total_bytes = d.rx + d.tx;
  sample_count = 1;
  reset_count = d.resets;
  first_seen_time = d.sample_time;
  last_seen_time = d.sample_time;
  create_time = d.now;
  update_time = d.now;
}

unfoldable pub add_to_day : Delta → DeviceTrafficDaily → DeviceTrafficDaily
add_to_day d row = record row {
  rx_bytes = row.rx_bytes + d.rx;
  tx_bytes = row.tx_bytes + d.tx;
  total_bytes = row.total_bytes + (d.rx + d.tx);
  sample_count = suc row.sample_count;
  reset_count = row.reset_count + d.resets;
  last_seen_time = d.sample_time;
  update_time = d.now;
}

-- An insertion that updates the row that conflicts with it.
unfoldable pub upsert_daily_delta : Delta → List DeviceTrafficDaily → List DeviceTrafficDaily
unfolding new_day add_to_day
upsert_daily_delta d [] = new_day d ∷ []
upsert_daily_delta d (row ∷ rows) =
    let rest = upsert_daily_delta d rows in
    if is_day d row then add_to_day d row ∷ rows else row ∷ rest

-- A sample with its counters, after the checks.
pub record Sample : Type 0 where
  pub device_guid : Text
  pub iface : Text
  pub boot_id : Text
  pub rx : ℕ
  pub tx : ℕ
  pub time : ℤ
  pub now : ℤ

abbrev pub new_state : Sample → DeviceTrafficState
new_state s = record {
  device_guid = s.device_guid;
  iface = s.iface;
  traffic_boot_id = trim_space s.boot_id;
  rx_bytes = s.rx;
  tx_bytes = s.tx;
  sample_time = s.time;
  create_time = s.now;
  update_time = s.now;
}

abbrev pub moved_state : Sample → DeviceTrafficState → DeviceTrafficState
moved_state s state = record state {
  traffic_boot_id = trim_space s.boot_id;
  rx_bytes = s.rx;
  tx_bytes = s.tx;
  sample_time = s.time;
  update_time = s.now;
}

abbrev pub delta_of : (ℤ → Text) → Sample → (rx tx resets : ℕ) → Delta
delta_of day_of s rx tx resets = record {
  device_guid = s.device_guid;
  iface = s.iface;
  day = day_of s.time;
  rx = rx;
  tx = tx;
  resets = resets;
  sample_time = s.time;
  now = s.now;
}

-- The rows of the days after a sample, for the state that was there.
unfoldable pub count_delta :
    (ℤ → Text) → Sample → DeviceTrafficState → List DeviceTrafficDaily → List DeviceTrafficDaily
unfolding traffic_counter_reset upsert_daily_delta
count_delta day_of s state daily =
    let rx = s.rx - state.rx_bytes in
    let tx = s.tx - state.tx_bytes in
    if traffic_counter_reset state s.rx s.tx s.boot_id
    then upsert_daily_delta (delta_of day_of s 0 0 1) daily
    else if ltb 0 rx || ltb 0 tx
    then upsert_daily_delta (delta_of day_of s rx tx 0) daily
    else daily

abbrev pub apply_sample :
    (ℤ → Text) → Sample → TrafficTables → Option DeviceTrafficState → TrafficTables
apply_sample day_of s tables none = record tables { states = new_state s ∷ tables.states }
apply_sample day_of s tables (some state) = record {
  states = update_states s.device_guid s.iface (moved_state s) tables.states;
  daily = count_delta day_of s state tables.daily;
}

unfoldable pub record_sample : (ℤ → Text) → Sample → TrafficTables → TrafficTables
unfolding find_state count_delta update_states
record_sample day_of s tables =
    apply_sample day_of s tables (find_state s.device_guid s.iface tables.states)

-- The sample of a heartbeat, if it has one.
unfoldable pub sample_of : Text → TrafficSample → ℤ → Option Sample
unfolding normalize_traffic_interface sample_time_of
sample_of guid req now =
    let device_guid = trim_space guid in
    let iface = normalize_traffic_interface req.traffic_iface in
    if is_empty device_guid || is_empty iface
    then none
    else if ltb_ℤ req.traffic_rx_bytes (pos 0) || ltb_ℤ req.traffic_tx_bytes (pos 0)
    then none
    else some (record {
      device_guid = device_guid;
      iface = iface;
      boot_id = req.traffic_boot_id;
      rx = magnitude req.traffic_rx_bytes;
      tx = magnitude req.traffic_tx_bytes;
      time = sample_time_of now req.traffic_sample_time;
      now = now;
    })

abbrev pub record_some : (ℤ → Text) → Bool → TrafficTables → Option Sample → TrafficTables
record_some day_of fails tables none = tables
record_some day_of fails tables (some s) = if fails then tables else record_sample day_of s tables

unfoldable pub record_heartbeat_sample :
    (ℤ → Text)
    → (guid : Text) → TrafficSample
    → (now : ℤ) → (fails : Bool) → TrafficTables
    → TrafficTables
unfolding record_sample sample_of
record_heartbeat_sample day_of guid req now fails tables =
    record_some day_of fails tables (sample_of guid req now)
