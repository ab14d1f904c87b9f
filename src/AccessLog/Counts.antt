-- ===== src/AccessLog/Counts.antt =====
-- The counters of the access log account for every input.
use navmesh_go.Base.{
  ℕ, ◌+◌, ◌≤◌, ◌<◌, ◌≡◌, refl, ap, Bool, true, false, List, [], ◌∷◌, ◌++◌, arith, leb, ltb, length,
  Bool-cases, on_if, inl, inr, length-append,
}
use navmesh_go.Base.Int.{ℤ}
use navmesh_go.AccessLog.{
  MappingLogInput, HttpAccessLog, AccessLogWriter, maximum_access_log_batch_size, sane_batch_size,
  new_access_log_writer, normalize_access_log_input, access_log_row, enqueue, offer, Answers,
  count_batch, flush_rows, flush, add_to_batch, receive, finish, Event, put, take, tick, stop, last,
  History, put_event, on_worker, on_event, run, start,
}

-- Every input that was taken or refused for want of room is written, dropped, in the batch or in the
-- queue; the queue and the batch keep to their sizes; and after the end nothing is left.
pub record IsBalanced (h : History) : Type 0 where
  pub total :
      h.writer.enqueued + h.refused
      ≡ h.writer.written + h.writer.dropped + length h.writer.batch + length h.writer.queue
  pub taken : length h.accepted ≡ h.writer.enqueued
  pub rows : length h.writer.stored ≡ h.writer.written
  pub queue_room : length h.writer.queue ≤ h.writer.queue_cap
  pub peak : h.writer.queue_peak ≤ h.writer.queue_cap
  pub batch_room : length h.writer.batch < h.writer.batch_size
  pub sane : h.writer.batch_size ≤ maximum_access_log_batch_size
  pub stopped : h.writer.done ≡ true → h.writer.stopping ≡ true
  pub emptied : h.writer.done ≡ true → length h.writer.batch + length h.writer.queue ≡ 0

-- What of a writer a flush keeps, and what it moves from the batch to the counters.
pub record Flushed (w w' : AccessLogWriter) : Type 0 where
  pub moved : w'.written + w'.dropped ≡ w.written + w.dropped + length w.batch
  pub rows : length w'.stored + w.written ≡ w'.written + length w.stored
  pub batch : length w'.batch ≡ 0
  pub queue : w'.queue ≡ w.queue
  pub queue_cap : w'.queue_cap ≡ w.queue_cap
  pub batch_size : w'.batch_size ≡ w.batch_size
  pub stopping : w'.stopping ≡ w.stopping
  pub done : w'.done ≡ w.done
  pub enqueued : w'.enqueued ≡ w.enqueued
  pub peak : w'.queue_peak ≡ w.queue_peak

count_batch-Flushed :
    (rows : List HttpAccessLog) (r : ℕ × Bool) (w : AccessLogWriter)
    → w.batch ≡ rows
    → Flushed w (count_batch rows r w)
unfolding count_batch
count_batch-Flushed rows (n, true) w e = ground (arith, length-append w.stored rows, ap length e)
count_batch-Flushed rows (n, false) w e = ground (arith, ap length e)

flush_rows-Flushed :
    (answers : Answers) (rows : List HttpAccessLog) (w : AccessLogWriter)
    → w.batch ≡ rows
    → Flushed w (flush_rows answers rows w)
unfolding flush_rows
flush_rows-Flushed answers [] w e = ground (arith, ap length e)
flush_rows-Flushed answers (row ∷ rows) w e = count_batch-Flushed (row ∷ rows) _ w e

pub flush-Flushed : (answers : Answers) (w : AccessLogWriter) → Flushed w (flush answers w)
unfolding flush
flush-Flushed answers w = flush_rows-Flushed answers w.batch w refl

-- The invariant of a history with another writer.
abbrev Balances : History → AccessLogWriter → Type 0
Balances h w = IsBalanced (record h { writer = w })

flush-IsBalanced :
    (answers : Answers) (h : History) (w : AccessLogWriter)
    → Balances h w
    → Balances h (flush answers w)
flush-IsBalanced answers h w b =
    let f = flush-Flushed answers w in let queue = ap length f.queue in ground arith

receive-IsBalanced :
    (now : ℤ) (answers : Answers) (queue : List MappingLogInput) (h : History) (w : AccessLogWriter)
    → w.queue ≡ queue
    → w.done ≡ false
    → Balances h w
    → Balances h (receive now answers queue w)
unfolding receive add_to_batch
receive-IsBalanced now answers [] h w e running b = b
receive-IsBalanced now answers (input ∷ rest) h w e running b =
    let w' = record w { queue = rest; batch = w.batch ++ (access_log_row now input ∷ []) } in
    let f = flush-Flushed answers w' in
    let one_less = ap length e in
    let one_more = length-append w.batch (access_log_row now input ∷ []) in
    let queue = ap length f.queue in
    elim (Bool-cases (leb w'.batch_size (length w'.batch))) [
      | inl full ↦ rw full (ground arith)
      | inr room ↦ rw room (ground arith)
    ]

finish-IsBalanced :
    (answers : Answers) (queue : List MappingLogInput) (h : History) (w : AccessLogWriter)
    → w.queue ≡ queue
    → w.done ≡ false
    → Balances h w
    → Balances h (finish answers queue w)
unfolding finish
finish-IsBalanced answers [] h w e running b =
    let f = flush-Flushed answers w in
    let empty_queue = ap length e in
    let queue = ap length f.queue in
    on_if (Balances h) w.stopping (λ stopping. ground arith) (λ going. b)
finish-IsBalanced answers (input ∷ rest) h w e running b = b

worker-IsBalanced :
    (f : AccessLogWriter → AccessLogWriter) (h : History)
    → (h.writer.done ≡ false → Balances h (f h.writer))
    → IsBalanced h
    → IsBalanced (on_worker f h)
unfolding on_worker
worker-IsBalanced f h k b = on_if IsBalanced h.writer.done (λ over. b) k

put-IsBalanced :
    (i : MappingLogInput) (h : History)
    → IsBalanced h
    → IsBalanced (put_event i h (offer i h.writer))
unfolding put_event offer
put-IsBalanced i h b =
    let more = length-append h.writer.queue (i ∷ []) in
    let known = length-append h.accepted (i ∷ []) in
    let P = λ (r : AccessLogWriter × Bool). IsBalanced (put_event i h r) in
    on_if P h.writer.stopping (λ stopping. ground arith)
      (λ going.
        on_if P (ltb (length h.writer.queue) h.writer.queue_cap) (λ room. ground arith)
          (λ full. ground arith))

event-IsBalanced : (e : Event) (h : History) → IsBalanced h → IsBalanced (on_event e h)
unfolding on_event enqueue
event-IsBalanced (put now input) h b = put-IsBalanced (normalize_access_log_input now input) h b
event-IsBalanced (take now answers) h b =
    worker-IsBalanced (λ w. receive now answers w.queue w) h
      (λ k. receive-IsBalanced now answers h.writer.queue h h.writer refl k b) b
event-IsBalanced (tick answers) h b =
    worker-IsBalanced (flush answers) h (λ k. flush-IsBalanced answers h h.writer b) b
event-IsBalanced stop h b = ground arith
event-IsBalanced (last answers) h b =
    worker-IsBalanced (λ w. finish answers w.queue w) h
      (λ k. finish-IsBalanced answers h.writer.queue h h.writer refl k b) b

start-IsBalanced : (queue_size batch_size : ℕ) → IsBalanced (start queue_size batch_size)
unfolding start new_access_log_writer sane_batch_size
start-IsBalanced queue_size batch_size = ground arith

run_from-IsBalanced : (es : List Event) (h : History) → IsBalanced h → IsBalanced (run es h)
unfolding run
run_from-IsBalanced [] h b = b
run_from-IsBalanced (e ∷ es) h b = run_from-IsBalanced es (on_event e h) (event-IsBalanced e h b)

-- For every size of the queue and of the batches, after any calls and rounds of the goroutine, and
-- whatever the database answers, the counters account for every input that was taken or refused for
-- want of room, the queue and the batch keep to their sizes, and the end leaves nothing behind.
pub run-IsBalanced :
    (queue_size batch_size : ℕ) (es : List Event)
    → IsBalanced (run es (start queue_size batch_size))
run-IsBalanced queue_size batch_size es =
    run_from-IsBalanced es (start queue_size batch_size) (start-IsBalanced queue_size batch_size)
