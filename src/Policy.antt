-- ===== src/Policy.antt =====
-- services/runtime_policy.go: how many sessions may run at a time, and how often a source may open one.
-- Times are nanoseconds since Go's zero time, so 0 is the zero `time.Time`. The settings that
-- `currentSettings` returns are an argument of `acquire`; `load_settings` reads them from the setting
-- table, of which `row` gives the value of a key. `time.ParseDuration` is the argument `parse_duration`.
pub mod Rate
pub mod Permits
mod Tests
use navmesh_go.Base.{
  ℕ, zero, suc, ◌+◌, ◌-◌, ◌*◌, ◌^◌, ◌<◌, ◌≡◌, Bool, true, false, ◌||◌, ◌&&◌, not, Option, none,
  some, List, [], ◌∷◌, ◌++◌, ltb, leb, ◌==◌, if◌then◌else◌, or_zero, length, keep,
}
use navmesh_go.Base.Int.{ℤ, pos, negsuc, leb_ℤ, ltb_ℤ}
use navmesh_go.Base.Text.{Text, codes, is_empty, trim_space}
use navmesh_go.Base.Strconv.{atoi}
use navmesh_go.Base.Map.{Map, empty, get, delete, put, replace_all}

pub record SessionPermit : Type 0 where
  pub device_guid : Text
  pub source_ip : Text

pub record RuntimeSettings : Type 0 where
  pub max_concurrent_sessions : ℤ
  pub max_device_sessions : ℤ
  pub rate_limit_per_minute : ℤ
  pub session_idle_timeout : ℤ

pub record RuntimePolicy : Type 0 where
  pub total : ℕ
  pub by_device : Map ℕ
  pub source_hits : Map (List ℕ)
  pub last_hit_sweep : ℕ
  pub last_settings : ℕ
  pub settings : RuntimeSettings

pub data Denial : Type 0 where
  rate_limit_exceeded max_concurrent_exceeded max_device_exceeded : Denial

pub data Acquired : Type 0 where
  permit : SessionPermit → Acquired
  denied : Denial → Acquired

abbrev pub second : ℕ
second = 10 ^ 9

abbrev pub minute : ℕ
minute = 60 * 10 ^ 9

pub default_runtime_settings : RuntimeSettings
default_runtime_settings = record {
  max_concurrent_sessions = pos 0;
  max_device_sessions = pos 0;
  rate_limit_per_minute = pos 0;
  session_idle_timeout = pos (30 * minute);
}

pub new_runtime_policy : RuntimePolicy
unfolding default_runtime_settings
new_runtime_policy = record {
  total = 0;
  by_device = empty;
  source_hits = empty;
  last_hit_sweep = 0;
  last_settings = 0;
  settings = default_runtime_settings;
}

-- settingIntValue: `row key` is none if the query fails.
pub setting_int_value : (Text → Option Text) → Text → ℤ → ℤ
setting_int_value row key def = elim (row key) [
  | none ↦ def
  | some value ↦ elim (atoi (trim_space value)) [ none ↦ def | some n ↦ n ]
]

pub setting_duration_value : (Text → Option Text) → (Text → Option ℤ) → Text → ℤ → ℤ
setting_duration_value row parse_duration key def = elim (row key) [
  | none ↦ def
  | some value ↦ elim (parse_duration (trim_space value)) [
    | none ↦ def
    | some d ↦ if leb_ℤ d (pos 0) then def else d
  ]
]

pub load_runtime_settings : (Text → Option Text) → (Text → Option ℤ) → RuntimeSettings
unfolding default_runtime_settings setting_int_value setting_duration_value
load_runtime_settings row parse_duration =
    let def = default_runtime_settings in
    record {
      max_concurrent_sessions =
          setting_int_value row (codes "max_concurrent_sessions") def.max_concurrent_sessions;
      max_device_sessions =
          setting_int_value row (codes "max_device_sessions") def.max_device_sessions;
      rate_limit_per_minute =
          setting_int_value row (codes "rate_limit_per_minute") def.rate_limit_per_minute;
      session_idle_timeout =
          setting_duration_value row parse_duration (codes "session_idle_timeout")
            def.session_idle_timeout;
    }

-- The settings are read again when they are five seconds old.
pub current_settings :
    (Text → Option Text) → (Text → Option ℤ) → ℕ → RuntimePolicy → RuntimePolicy × RuntimeSettings
current_settings row parse_duration now p =
    let loaded = load_runtime_settings row parse_duration in
    if ltb now (p.last_settings + 5 * second)
    then (p, p.settings)
    else (record p { settings = loaded; last_settings = now }, loaded)

-- `hit.After(now.Add(-time.Minute))`
pub is_fresh : ℕ → ℕ → Bool
is_fresh now hit = ltb now (hit + minute)

abbrev pub fresh_or_none : ℕ → List ℕ → Option (List ℕ)
fresh_or_none now hits = elim (keep (is_fresh now) hits) [ [] ↦ none | h ∷ hs ↦ some (h ∷ hs) ]

pub sweep_source_hits : ℕ → RuntimePolicy → RuntimePolicy
unfolding is_fresh
sweep_source_hits now p =
    if not (p.last_hit_sweep == 0) && ltb now (p.last_hit_sweep + minute) then p else record p {
      source_hits = replace_all (fresh_or_none now) p.source_hits;
      last_hit_sweep = now;
    }

abbrev pub hits_of : RuntimePolicy → Text → List ℕ
hits_of p source_ip = or_zero (get p.source_hits source_ip) []

abbrev pub sessions_of : RuntimePolicy → Text → ℕ
sessions_of p device_guid = or_zero (get p.by_device device_guid) 0

-- The rate limit of `Acquire`: the policy with the source's hits, and whether the call goes on.
pub check_rate : RuntimeSettings → ℕ → Text → RuntimePolicy → RuntimePolicy × Bool
unfolding is_fresh
check_rate settings now source_ip p =
    let kept = keep (is_fresh now) (hits_of p source_ip) in
    if ltb_ℤ (pos 0) settings.rate_limit_per_minute && not (is_empty source_ip)
    then if leb_ℤ settings.rate_limit_per_minute (pos (length kept))
      then (record p { source_hits = put p.source_hits source_ip kept }, false)
      else (record p { source_hits = put p.source_hits source_ip (kept ++ now ∷ []) }, true)
    else (p, true)

abbrev pub concurrent_full : RuntimeSettings → RuntimePolicy → Bool
concurrent_full settings p =
    ltb_ℤ (pos 0) settings.max_concurrent_sessions
    && leb_ℤ settings.max_concurrent_sessions (pos p.total)

abbrev pub device_full : RuntimeSettings → Text → RuntimePolicy → Bool
device_full settings device_guid p =
    ltb_ℤ (pos 0) settings.max_device_sessions
    && not (is_empty device_guid)
    && leb_ℤ settings.max_device_sessions (pos (sessions_of p device_guid))

-- The session limits of `Acquire`, and what it counts.
pub admit : RuntimeSettings → Text → Text → RuntimePolicy → RuntimePolicy × Acquired
admit settings device_guid source_ip p =
    if concurrent_full settings p
    then (p, denied max_concurrent_exceeded)
    else if device_full settings device_guid p
    then (p, denied max_device_exceeded)
    else (
      record p {
        total = p.total + 1;
        by_device =
            if is_empty device_guid
            then p.by_device
            else put p.by_device device_guid (sessions_of p device_guid + 1);
      },
      permit (record { device_guid = device_guid; source_ip = source_ip }),
    )

pub acquire : RuntimeSettings → ℕ → Text → Text → RuntimePolicy → RuntimePolicy × Acquired
unfolding sweep_source_hits check_rate admit
acquire settings now device_guid source_ip p =
    let device = trim_space device_guid in
    let source = trim_space source_ip in
    let (checked, passed) = check_rate settings now source (sweep_source_hits now p) in
    if passed then admit settings device source checked else (checked, denied rate_limit_exceeded)

pub release : Option SessionPermit → RuntimePolicy → RuntimePolicy
release none p = p
release (some held) p =
    let left = sessions_of p held.device_guid - 1 in
    record p {
      total = if ltb 0 p.total then p.total - 1 else p.total;
      by_device =
          if not (is_empty held.device_guid) && ltb 0 (sessions_of p held.device_guid)
          then if left == 0
            then delete p.by_device held.device_guid
            else put p.by_device held.device_guid left
          else p.by_device;
    }
