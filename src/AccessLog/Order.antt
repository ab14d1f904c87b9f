-- ===== src/AccessLog/Order.antt =====
-- The rows that are written are the inputs, in order.
use mathlib.Core.List.{append_assoc, map-append}
use navmesh_go.Base.{
  ℕ, ◌≡◌, ◌∙◌, sym, refl, ap, subst, Bool, true, false, List, [], ◌∷◌, ◌++◌, map, arith, leb, ltb,
  length, All, on_if, Bool-cases, inl, inr,
}
use navmesh_go.Base.Int.{ℤ, pos, leb_ℤ, ◌≤ℤ◌}
use navmesh_go.AccessLog.Counts.{flush-Flushed}
use navmesh_go.AccessLog.{
  MappingLogInput, HttpAccessLog, AccessLogWriter, access_log_write_max_attempts,
  normalize_access_log_input, access_log_row, offer, enqueue, Answers, write_attempts,
  write_access_log_batch, count_batch, flush_rows, flush, add_to_batch, receive, finish, Event, put,
  take, tick, stop, last, History, put_event, on_worker, on_event, run, new_access_log_writer,
  start,
}

-- The row of an input that has its time.
abbrev pub row_of : MappingLogInput → HttpAccessLog
row_of input = access_log_row (pos 0) input

abbrev IsTimed : MappingLogInput → Type 0
IsTimed input = leb_ℤ input.create_time (pos 0) ≡ false

abbrev all_rows : AccessLogWriter → List HttpAccessLog
all_rows w = w.stored ++ (w.batch ++ map row_of w.queue)

-- The rows written, in the batch and in the queue are those of the inputs that were taken.
pub record IsInOrder (h : History) : Type 0 where
  pub rows : all_rows h.writer ≡ map row_of h.accepted
  pub timed : All IsTimed h.writer.queue

-- The database takes the rows at one of the attempts that the code makes.
abbrev pub Takes : Answers → Type 0
Takes answers = (write_attempts access_log_write_max_attempts 0 answers).1 ≡ true

abbrev pub Works : Event → Type 0
Works (put now input) = pos 1 ≤ℤ now
Works (take now answers) = Takes answers
Works (tick answers) = Takes answers
Works stop = Unit
Works (last answers) = Takes answers

count_batch-all_rows :
    (rows : List HttpAccessLog) (r : ℕ × Bool) (w : AccessLogWriter)
    → r.1 ≡ true
    → w.batch ≡ rows
    → all_rows (count_batch rows r w) ≡ all_rows w
unfolding count_batch
count_batch-all_rows rows (n, true) w h e =
    append_assoc w.stored rows (map row_of w.queue)
    ∙ ap (λ t. w.stored ++ (t ++ map row_of w.queue)) (sym e)
count_batch-all_rows rows (n, false) w h e = absurd cc

flush_rows-all_rows :
    (answers : Answers) (rows : List HttpAccessLog) (w : AccessLogWriter)
    → Takes answers
    → w.batch ≡ rows
    → all_rows (flush_rows answers rows w) ≡ all_rows w
unfolding flush_rows write_access_log_batch
flush_rows-all_rows answers [] w h e = refl
flush_rows-all_rows answers (row ∷ rows) w h e = count_batch-all_rows (row ∷ rows) _ w h e

flush-all_rows :
    (answers : Answers) (w : AccessLogWriter)
    → Takes answers
    → all_rows (flush answers w) ≡ all_rows w
unfolding flush
flush-all_rows answers w h = flush_rows-all_rows answers w.batch w h refl

abbrev InOrder : History → AccessLogWriter → Type 0
InOrder h w = IsInOrder (record h { writer = w })

flush-queue : (answers : Answers) (w : AccessLogWriter) → (flush answers w).queue ≡ w.queue
flush-queue answers w = (flush-Flushed answers w).queue

flush-InOrder :
    (answers : Answers) (h : History) (w : AccessLogWriter)
    → Takes answers
    → InOrder h w
    → InOrder h (flush answers w)
flush-InOrder answers h w k o = record {
  rows = flush-all_rows answers w k ∙ o.rows;
  timed = rw (flush-queue answers w) o.timed;
}

timed_row :
    (now : ℤ) (input : MappingLogInput) → IsTimed input → access_log_row now input ≡ row_of input
unfolding access_log_row
timed_row now input t = rw t refl

receive-InOrder :
    (now : ℤ) (answers : Answers) (queue : List MappingLogInput) (h : History) (w : AccessLogWriter)
    → w.queue ≡ queue
    → Takes answers
    → InOrder h w
    → InOrder h (receive now answers queue w)
unfolding receive add_to_batch
receive-InOrder now answers [] h w e k o = o
receive-InOrder now answers (input ∷ rest) h w e k o =
    let timed : All IsTimed (input ∷ rest) = subst (All IsTimed) e o.timed in
    let w' = record w { queue = rest; batch = w.batch ++ (access_log_row now input ∷ []) } in
    let moved : all_rows w' ≡ all_rows w =
      ap (λ t. w.stored ++ t)
        (append_assoc w.batch (access_log_row now input ∷ []) (map row_of rest)
          ∙ ap (λ r. w.batch ++ (r ∷ map row_of rest)) (timed_row now input timed.0)
          ∙ ap (λ q. w.batch ++ map row_of q) (sym e)) in
    let o' : InOrder h w' = record { rows = moved ∙ o.rows; timed = timed.1 } in
    on_if (InOrder h) (leb w'.batch_size (length w'.batch))
      (λ full. flush-InOrder answers h w' k o') (λ room. o')

finish-InOrder :
    (answers : Answers) (queue : List MappingLogInput) (h : History) (w : AccessLogWriter)
    → Takes answers
    → InOrder h w
    → InOrder h (finish answers queue w)
unfolding finish
finish-InOrder answers [] h w k o =
    let f = flush-InOrder answers h w k o in
    on_if (InOrder h) w.stopping (λ stopping. record { rows = f.rows; timed = f.timed })
      (λ going. o)
finish-InOrder answers (input ∷ rest) h w k o = o

All-append_one :
    (xs : List MappingLogInput) (x : MappingLogInput)
    → All IsTimed xs
    → IsTimed x
    → All IsTimed (xs ++ (x ∷ []))
All-append_one [] x h k = (k, tt)
All-append_one (y ∷ ys) x (h, hs) k = (h, All-append_one ys x hs k)

append_last :
    (a b c d : List HttpAccessLog) (x : HttpAccessLog)
    → a ++ (b ++ c) ≡ d
    → a ++ (b ++ (c ++ (x ∷ []))) ≡ d ++ (x ∷ [])
append_last a b c d x h =
    ap (λ t. a ++ t) (sym (append_assoc b c (x ∷ [])))
    ∙ sym (append_assoc a (b ++ c) (x ∷ []))
    ∙ ap (λ t. t ++ (x ∷ [])) h

put-InOrder :
    (i : MappingLogInput) (h : History)
    → IsTimed i
    → IsInOrder h
    → IsInOrder (put_event i h (offer i h.writer))
unfolding put_event offer
put-InOrder i h t o =
    let w = h.writer in
    let P = λ (r : AccessLogWriter × Bool). IsInOrder (put_event i h r) in
    on_if P w.stopping (λ stopping. record { rows = o.rows; timed = o.timed })
      (λ going.
        on_if P (ltb (length w.queue) w.queue_cap)
          (λ room. record {
            rows =
                ap (λ t. w.stored ++ (w.batch ++ t)) (map-append row_of w.queue (i ∷ []))
                ∙ append_last w.stored w.batch (map row_of w.queue) (map row_of h.accepted)
                    (row_of i) o.rows
                ∙ sym (map-append row_of h.accepted (i ∷ []));
            timed = All-append_one w.queue i o.timed t;
          })
          (λ full. record { rows = o.rows; timed = o.timed }))

worker-InOrder :
    (f : AccessLogWriter → AccessLogWriter) (h : History)
    → (IsInOrder h → InOrder h (f h.writer))
    → IsInOrder h
    → IsInOrder (on_worker f h)
unfolding on_worker
worker-InOrder f h k o = on_if IsInOrder h.writer.done (λ over. o) (λ running. k o)

normalize-IsTimed :
    (now : ℤ) (input : MappingLogInput)
    → pos 1 ≤ℤ now
    → IsTimed (normalize_access_log_input now input)
unfolding normalize_access_log_input
normalize-IsTimed now input h = elim (Bool-cases (leb_ℤ input.create_time (pos 0))) [
  | inl missing ↦ rw missing (ground arith)
  | inr given ↦ rw given given
]

event-InOrder : (e : Event) (h : History) → Works e → IsInOrder h → IsInOrder (on_event e h)
unfolding on_event enqueue
event-InOrder (put now input) h k o =
    put-InOrder (normalize_access_log_input now input) h (normalize-IsTimed now input k) o
event-InOrder (take now answers) h k o =
    worker-InOrder (λ w. receive now answers w.queue w) h
      (receive-InOrder now answers h.writer.queue h h.writer refl k) o
event-InOrder (tick answers) h k o =
    worker-InOrder (flush answers) h (flush-InOrder answers h h.writer k) o
event-InOrder stop h k o = record { rows = o.rows; timed = o.timed }
event-InOrder (last answers) h k o =
    worker-InOrder (λ w. finish answers w.queue w) h
      (finish-InOrder answers h.writer.queue h h.writer k) o

run_from-InOrder :
    (es : List Event) (h : History) → All Works es → IsInOrder h → IsInOrder (run es h)
unfolding run
run_from-InOrder [] h k o = o
run_from-InOrder (e ∷ es) h (k, ks) o =
    run_from-InOrder es (on_event e h) ks (event-InOrder e h k o)

-- If the clock is positive and the database takes each batch at one of the attempts, also after busy
-- answers, then the rows written, in the batch and in the queue are those of the inputs that were
-- taken, each once and in their order.
pub run-InOrder :
    (queue_size batch_size : ℕ) (es : List Event)
    → All Works es
    → IsInOrder (run es (start queue_size batch_size))
unfolding start new_access_log_writer
run-InOrder queue_size batch_size es k =
    run_from-InOrder es (start queue_size batch_size) k (record { rows = refl; timed = tt })
