-- ===== src/AccessLog.antt =====
-- httpgateway/log.go: the log of HTTP accesses, which a goroutine writes in batches.
-- A step is one call of Enqueue or Stop, or one round of the select in `run`. The database answers
-- each attempt to insert with nothing or with the message of an error; `stored` holds the rows that it
-- took. The times that a batch takes, and the reports of drops to the log, are not modelled.
pub mod Utf8
pub mod Counts
pub mod Order
mod Tests
unfoldable pub use Utf8.{truncate_utf8}
use navmesh_go.Base.{
  ℕ, zero, suc, ◌+◌, ◌-◌, ◌≡◌, Bool, true, false, ◌||◌, Option, none, some, List, [], ◌∷◌, ◌++◌,
  map, ltb, leb, if◌then◌else◌, length, max,
}
use navmesh_go.Base.Int.{ℤ, pos, leb_ℤ}
use navmesh_go.Base.Text.{Text, codes, to_lower, contains}

-- The texts are the bytes of Go's strings.
pub record MappingLogInput : Type 0 where
  pub mapping_guid : List ℕ
  pub device_guid : List ℕ
  pub host : List ℕ
  pub method : List ℕ
  pub path : List ℕ
  pub source_ip : List ℕ
  pub status_code : ℤ
  pub duration_ms : ℤ
  pub tunnel_open_ms : ℤ
  pub upstream_ms : ℤ
  pub first_byte_ms : ℤ
  pub reused_conn : Bool
  pub bytes_in : ℤ
  pub bytes_out : ℤ
  pub error_message : List ℕ
  pub create_time : ℤ

pub record HttpAccessLog : Type 0 where
  pub mapping_guid : List ℕ
  pub device_guid : List ℕ
  pub host : List ℕ
  pub method : List ℕ
  pub path : List ℕ
  pub source_ip : List ℕ
  pub status_code : ℤ
  pub duration_ms : ℤ
  pub tunnel_open_ms : ℤ
  pub upstream_ms : ℤ
  pub first_byte_ms : ℤ
  pub reused_conn : Bool
  pub bytes_in : ℤ
  pub bytes_out : ℤ
  pub error_message : List ℕ
  pub create_time : ℤ

abbrev time_or : ℤ → ℤ → ℤ
time_or now t = if leb_ℤ t (pos 0) then now else t

unfoldable pub normalize_access_log_input : ℤ → MappingLogInput → MappingLogInput
unfolding truncate_utf8
normalize_access_log_input now input = record input {
  mapping_guid = truncate_utf8 input.mapping_guid 64;
  device_guid = truncate_utf8 input.device_guid 64;
  host = truncate_utf8 input.host 255;
  method = truncate_utf8 input.method 16;
  path = truncate_utf8 input.path 1024;
  source_ip = truncate_utf8 input.source_ip 64;
  error_message = truncate_utf8 input.error_message 512;
  create_time = time_or now input.create_time;
}

unfoldable pub access_log_row : ℤ → MappingLogInput → HttpAccessLog
access_log_row now input = record {
  mapping_guid = input.mapping_guid;
  device_guid = input.device_guid;
  host = input.host;
  method = input.method;
  path = input.path;
  source_ip = input.source_ip;
  status_code = input.status_code;
  duration_ms = input.duration_ms;
  tunnel_open_ms = input.tunnel_open_ms;
  upstream_ms = input.upstream_ms;
  first_byte_ms = input.first_byte_ms;
  reused_conn = input.reused_conn;
  bytes_in = input.bytes_in;
  bytes_out = input.bytes_out;
  error_message = input.error_message;
  create_time = time_or now input.create_time;
}

pub record AccessLogWriter : Type 0 where
  pub queue : List MappingLogInput
  pub queue_cap : ℕ
  pub batch_size : ℕ
  pub batch : List HttpAccessLog
  pub stopping : Bool
  pub done : Bool
  pub enqueued : ℕ
  pub dropped : ℕ
  pub queue_peak : ℕ
  pub written : ℕ
  pub batches : ℕ
  pub retries : ℕ
  pub write_errors : ℕ
  pub stored : List HttpAccessLog

abbrev pub default_access_log_queue_size : ℕ
default_access_log_queue_size = 8192

abbrev pub default_access_log_batch_size : ℕ
default_access_log_batch_size = 200

abbrev pub maximum_access_log_batch_size : ℕ
maximum_access_log_batch_size = 1000

-- A size that is zero or less is 0 here.
unfoldable pub sane_batch_size : ℕ → ℕ
sane_batch_size n =
    if ltb 0 n
    then if ltb maximum_access_log_batch_size n then maximum_access_log_batch_size else n
    else default_access_log_batch_size

unfoldable pub new_access_log_writer : ℕ → ℕ → AccessLogWriter
unfolding sane_batch_size
new_access_log_writer queue_size batch_size = record {
  queue = [];
  queue_cap = if ltb 0 queue_size then queue_size else default_access_log_queue_size;
  batch_size = sane_batch_size batch_size;
  batch = [];
  stopping = false;
  done = false;
  enqueued = 0;
  dropped = 0;
  queue_peak = 0;
  written = 0;
  batches = 0;
  retries = 0;
  write_errors = 0;
  stored = [];
}

-- The part of Enqueue under the lock.
unfoldable pub offer : MappingLogInput → AccessLogWriter → AccessLogWriter × Bool
offer input w =
    if w.stopping
    then (w, false)
    else if ltb (length w.queue) w.queue_cap
    then (
      record w {
        queue = w.queue ++ (input ∷ []);
        enqueued = suc w.enqueued;
        queue_peak = max w.queue_peak (suc (length w.queue));
      },
      true,
    )
    else (record w { dropped = suc w.dropped }, false)

unfoldable pub enqueue : ℤ → MappingLogInput → AccessLogWriter → AccessLogWriter × Bool
unfolding offer normalize_access_log_input
enqueue now input w = offer (normalize_access_log_input now input) w

unfoldable pub is_sqlite_busy_error : Text → Bool
is_sqlite_busy_error error =
    let message = to_lower error in
    contains message (codes "database is locked")
    || contains message (codes "database table is locked")
    || contains message (codes "database is busy")

abbrev pub access_log_write_max_attempts : ℕ
access_log_write_max_attempts = 3

-- len(accessLogWriteRetryDelays)
abbrev pub retry_delays : ℕ
retry_delays = 2

-- What an attempt to insert gives: nothing, or the message of the error.
abbrev pub Answers : Type 0
Answers = ℕ → Option Text

-- The attempts from one on, with the number that are left: the number of retries, and whether the
-- rows were taken.
unfoldable pub write_attempts : ℕ → ℕ → Answers → ℕ × Bool
unfolding is_sqlite_busy_error
write_attempts zero attempt answers = (access_log_write_max_attempts - 1, false)
write_attempts (suc left) attempt answers = elim (answers attempt) [
  | none ↦ (attempt, true)
  | some error ↦ elim (is_sqlite_busy_error error) [
    | true ↦ elim (leb retry_delays attempt) [
      | true ↦ (attempt, false)
      | false ↦ write_attempts left (suc attempt) answers
    ]
    | false ↦ (attempt, false)
  ]
]

unfoldable pub write_access_log_batch : Answers → List HttpAccessLog → ℕ × Bool
unfolding write_attempts
write_access_log_batch answers [] = (0, true)
write_access_log_batch answers (row ∷ rows) = write_attempts access_log_write_max_attempts 0 answers

-- The counters after a batch was tried.
unfoldable pub count_batch : List HttpAccessLog → ℕ × Bool → AccessLogWriter → AccessLogWriter
count_batch rows (retries, true) w = record w {
  batch = [];
  retries = w.retries + retries;
  written = w.written + length rows;
  batches = suc w.batches;
  stored = w.stored ++ rows;
}
count_batch rows (retries, false) w = record w {
  batch = [];
  retries = w.retries + retries;
  dropped = w.dropped + length rows;
  write_errors = suc w.write_errors;
}

unfoldable pub flush_rows : Answers → List HttpAccessLog → AccessLogWriter → AccessLogWriter
unfolding count_batch write_access_log_batch
flush_rows answers [] w = w
flush_rows answers (row ∷ rows) w =
    count_batch (row ∷ rows) (write_access_log_batch answers (row ∷ rows)) w

unfoldable pub flush : Answers → AccessLogWriter → AccessLogWriter
unfolding flush_rows
flush answers w = flush_rows answers w.batch w

-- An input joins the batch, which is written when it is full.
unfoldable pub add_to_batch : ℤ → Answers → MappingLogInput → AccessLogWriter → AccessLogWriter
unfolding flush access_log_row
add_to_batch now answers input w =
    let w' = record w { batch = w.batch ++ (access_log_row now input ∷ []) } in
    if leb w'.batch_size (length w'.batch) then flush answers w' else w'

unfoldable pub receive : ℤ → Answers → List MappingLogInput → AccessLogWriter → AccessLogWriter
unfolding add_to_batch
receive now answers [] w = w
receive now answers (input ∷ rest) w = add_to_batch now answers input (record w { queue = rest })

-- After Stop the goroutine empties the queue, writes the last batch and returns.
unfoldable pub finish : Answers → List MappingLogInput → AccessLogWriter → AccessLogWriter
unfolding flush
finish answers [] w = if w.stopping then record (flush answers w) { done = true } else w
finish answers (input ∷ rest) w = w

pub data Event : Type 0 where
  put : ℤ → MappingLogInput → Event
  take : ℤ → Answers → Event
  tick : Answers → Event
  stop : Event
  last : Answers → Event

-- The writer, with the inputs that Enqueue took and the number of those that it refused for want of
-- room, both of which the code does not keep. A refusal is counted here by what Enqueue returned, not
-- by the counters of the code: it returned false, and the writer was not stopping.
pub record History : Type 0 where
  pub writer : AccessLogWriter
  pub accepted : List MappingLogInput
  pub refused : ℕ

unfoldable pub put_event : MappingLogInput → History → AccessLogWriter × Bool → History
put_event input h (w, true) = record h { writer = w; accepted = h.accepted ++ (input ∷ []) }
put_event input h (w, false) = record h {
  writer = w;
  refused = if h.writer.stopping then h.refused else suc h.refused;
}

-- The goroutine makes no step after it has returned.
unfoldable pub on_worker : (AccessLogWriter → AccessLogWriter) → History → History
on_worker f h = if h.writer.done then h else record h { writer = f h.writer }

unfoldable pub on_event : Event → History → History
unfolding put_event enqueue normalize_access_log_input on_worker receive finish
on_event (put now input) h =
    put_event (normalize_access_log_input now input) h (enqueue now input h.writer)
on_event (take now answers) h = on_worker (λ w. receive now answers w.queue w) h
on_event (tick answers) h = on_worker (flush answers) h
on_event stop h = record h { writer = record h.writer { stopping = true } }
on_event (last answers) h = on_worker (λ w. finish answers w.queue w) h

unfoldable pub run : List Event → History → History
unfolding on_event
run [] h = h
run (e ∷ es) h = run es (on_event e h)

unfoldable pub start : ℕ → ℕ → History
unfolding new_access_log_writer
start queue_size batch_size = record {
  writer = new_access_log_writer queue_size batch_size;
  accepted = [];
  refused = 0;
}
