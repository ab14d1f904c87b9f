-- ===== src/Telemetry.antt =====
-- services/liveness_registry.go, TelemetrySampler: it spaces the telemetry writes of a device.
-- Receivers are not nil. Each method is one step, under the sampler's mutex.
pub mod Spacing
mod Tests
use navmesh_go.Base.{ℕ, suc, ◌^◌, ◌/◌, Bool, true, false, ◌||◌, ◌&&◌, if◌then◌else◌, or_zero}
use navmesh_go.Base.Int.{ℤ, pos, negsuc, leb_ℤ, ltb_ℤ, eq_ℤ, sub64, sub_ℕ}
use navmesh_go.Base.Text.{Text, is_empty, trim_space}
use navmesh_go.Base.Map.{Map, empty, get, delete, put}

-- m[k], 0 if the key is missing.
abbrev pub time_of : Map ℤ → Text → ℤ
time_of m guid = or_zero (get m guid) (pos 0)

-- TelemetrySampler
pub record Sampler : Type 0 where
  pub last_save : Map ℤ

pub new_sampler : Sampler
new_sampler = record { last_save = empty }

-- `interval` is a time.Duration, in nanoseconds.
pub milliseconds : ℤ → ℤ
milliseconds (pos n) = pos (n / 10 ^ 6)
milliseconds (negsuc n) = sub_ℕ 0 (suc n / 10 ^ 6)

pub should_persist : Text → ℤ → ℤ → Sampler → Sampler × Bool
unfolding milliseconds
should_persist device_guid now interval s =
    let guid = trim_space device_guid in
    let last = time_of s.last_save guid in
    if is_empty guid || leb_ℤ interval (pos 0)
    then (s, true)
    else if ltb_ℤ (pos 0) last && ltb_ℤ (sub64 now last) (milliseconds interval)
    then (s, false)
    else (record s { last_save = put s.last_save guid now }, true)

pub save_persisted : Text → ℤ → Sampler → Sampler
save_persisted device_guid now s =
    let guid = trim_space device_guid in
    if is_empty guid then s else record s { last_save = put s.last_save guid now }

pub forget : Text → ℤ → Sampler → Sampler
forget device_guid reserved_at s =
    let guid = trim_space device_guid in
    if is_empty guid
    then s
    else if eq_ℤ (time_of s.last_save guid) reserved_at
    then record s { last_save = delete s.last_save guid }
    else s

pub forget_sample : Text → Sampler → Sampler
forget_sample device_guid s =
    let guid = trim_space device_guid in
    if is_empty guid then s else record s { last_save = delete s.last_save guid }
