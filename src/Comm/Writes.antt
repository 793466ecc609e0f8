-- ===== src/Comm/Writes.antt =====
-- The write side of TcpComm over any sequence of events of the event loop.
use stradvision.Comm.{
  Effect, Task, TcpComm, async_write, create, disconnect_task, flush_task, is_empty, on_write_error,
  on_written, run_task, send_task, undefined,
}
use stradvision.Common.{
  Bool, Bool-cases, List, [], ap, append-nil, append_assoc, arith, false, if◌then◌else◌, inl, inr,
  not, refl, sym, take, true, ℕ, ◌++◌, ◌||◌, ◌∙◌, ◌∷◌, ◌≡◌,
}

-- What the event loop does: it runs a posted task, or reports the end of the write in flight.
pub data Event : Type 0 where
  task : Task → Event
  written : Event
  write_failed : ℕ → Event

-- A connection with what asio has of it: whether a write is in flight, the buffers that were given to
-- `async_write` and those it finished, and whether a write failed.
pub record Wire : Type 0 where
  pub comm : TcpComm
  pub in_flight : Bool
  pub begun : List (List ℕ)
  pub finished : List (List ℕ)
  pub failed : Bool

abbrev pub buffers : List Effect → List (List ℕ)
buffers [] = []
buffers (async_write buf ∷ es) = buf ∷ buffers es
buffers (_ ∷ es) = buffers es

abbrev pub Defined : List Effect → Type 0
Defined [] = Unit {0}
Defined (undefined ∷ es) = ⊥
Defined (_ ∷ es) = Defined es

abbrev ask : Wire → TcpComm × List Effect → Bool → Wire
ask w (c, es) busy = record w {
  comm = c;
  in_flight = not (is_empty (buffers es)) || busy;
  begun = w.begun ++ buffers es;
}

-- asio reports the end of a write only if one is in flight.
unfoldable pub step : Wire → Event → Wire
unfolding run_task on_written on_write_error
step w (task t) = ask w (run_task w.comm t) w.in_flight
step w written =
    if w.in_flight
    then ask (record w { finished = w.finished ++ take 1 w.comm.write_queue }) (on_written w.comm)
        false
    else w
step w (write_failed e) =
    if w.in_flight then record (ask w (on_write_error w.comm e) false) { failed = true } else w

unfoldable pub run : Wire → List Event → Wire
run w [] = w
run w (e ∷ es) = run (step w e) es

abbrev pub sent : List Event → List (List ℕ)
sent [] = []
sent (task (send_task buf) ∷ es) = buf ∷ sent es
sent (_ ∷ es) = sent es

abbrev pub idle_wire : TcpComm → Wire
idle_wire c = record { comm = c; in_flight = false; begun = []; finished = []; failed = false }

-- A write is in flight exactly while the queue holds its buffer, and it is the oldest.
pub record Inv (w : Wire) : Type 0 where
  pub busy : w.failed ≡ false → w.in_flight ≡ not (is_empty w.comm.write_queue)
  pub in_order : w.failed ≡ false → w.begun ≡ w.finished ++ take 1 w.comm.write_queue

module _ (w : Wire) (v : Inv w) where
  send-Inv :
      (buf : List ℕ) (queue : List (List ℕ))
      → w.comm.write_queue ≡ queue
      → Inv (step w (task (send_task buf)))
  unfolding step
  send-Inv buf [] e = ground (arith, append-nil w.begun, append-nil w.finished)
  send-Inv buf (x ∷ queue) e = ground (arith, append-nil w.begun)

  written-Inv : (queue : List (List ℕ)) → w.comm.write_queue ≡ queue → Inv (step w written)
  unfolding step
  written-Inv [] e = ground (arith, append-nil w.begun, append-nil w.finished)
  written-Inv (x ∷ []) e = ground (arith, append-nil w.begun, append-nil (w.finished ++ (x ∷ [])))
  written-Inv (x ∷ y ∷ queue) e = ground (arith, append-nil w.begun)

  disconnect-Inv : Inv (step w (task disconnect_task))
  unfolding step
  disconnect-Inv = ground (arith, append-nil w.begun)

  flush-Inv : Inv (step w (task flush_task))
  unfolding step
  flush-Inv = ground (arith, append-nil w.begun)

pub step-Inv : (w : Wire) (e : Event) → Inv w → Inv (step w e)
step-Inv w (task (send_task buf)) v = send-Inv w v buf w.comm.write_queue refl
step-Inv w (task disconnect_task) v = disconnect-Inv w v
step-Inv w (task flush_task) v = flush-Inv w v
step-Inv w written v = written-Inv w v w.comm.write_queue refl
step-Inv w (write_failed e) v = unfold step in ground arith

pub run-Inv : (es : List Event) (w : Wire) → Inv w → Inv (run w es)
unfolding run
run-Inv [] w v = v
run-Inv (e ∷ es) w v = run-Inv es (step w e) (step-Inv w e v)

-- Everything that was queued so far, in order.
abbrev pub stock : Wire → List (List ℕ)
stock w = w.finished ++ w.comm.write_queue

module _ (w : Wire) (v : Inv w) where
  written-stock :
      (queue : List (List ℕ))
      → w.comm.write_queue ≡ queue
      → (step w written).failed ≡ false
      → stock (step w written) ≡ stock w
  unfolding step
  written-stock [] e f = ground (arith, append-nil w.finished)
  written-stock (x ∷ []) e f = ground (arith, append-nil (w.finished ++ (x ∷ [])))
  written-stock (x ∷ y ∷ queue) e f = ground (arith, append_assoc w.finished (x ∷ []) (y ∷ queue))

  pub step-stock :
      (e : Event) → (step w e).failed ≡ false → stock (step w e) ≡ stock w ++ sent (e ∷ [])
  step-stock (task (send_task buf)) f =
      unfold step in sym (append_assoc w.finished w.comm.write_queue (buf ∷ []))
  step-stock (task disconnect_task) f = unfold step in ground (arith, append-nil (stock w))
  step-stock (task flush_task) f = unfold step in ground (arith, append-nil (stock w))
  step-stock written f = written-stock w.comm.write_queue refl f ∙ sym (append-nil (stock w))
  step-stock (write_failed e) f = unfold step in ground (arith, append-nil (stock w))

-- A failure is remembered.
step-failed : (w : Wire) (e : Event) → w.failed ≡ true → (step w e).failed ≡ true
unfolding step
step-failed w (task t) f = f
step-failed w written f = ground arith
step-failed w (write_failed e) f = ground arith

run-failed : (es : List Event) (w : Wire) → w.failed ≡ true → (run w es).failed ≡ true
unfolding run
run-failed [] w f = f
run-failed (e ∷ es) w f = run-failed es (step w e) (step-failed w e f)

sent-cons : (e : Event) (es : List Event) → sent (e ∷ []) ++ sent es ≡ sent (e ∷ es)
sent-cons (task (send_task buf)) es = refl
sent-cons (task disconnect_task) es = refl
sent-cons (task flush_task) es = refl
sent-cons written es = refl
sent-cons (write_failed e) es = refl

pub run-stock :
    (es : List Event) (w : Wire)
    → Inv w
    → (run w es).failed ≡ false
    → stock (run w es) ≡ stock w ++ sent es
unfolding run
run-stock [] w v f = sym (append-nil (stock w))
run-stock (e ∷ es) w v f =
    run-stock es (step w e) (step-Inv w e v) f
    ∙ ap (λ (t : List (List ℕ)). t ++ sent es) (step-stock w v e alive)
    ∙ append_assoc (stock w) (sent (e ∷ [])) (sent es)
    ∙ ap (◌++◌ (stock w)) (sent-cons e es)
  where
    alive : (step w e).failed ≡ false
    alive = elim (Bool-cases (step w e).failed) [
      | inl t ↦ cc (run-failed es (step w e) t)
      | inr t ↦ t
    ]

pub idle-Inv : Inv (idle_wire create)
unfolding create
idle-Inv = record { busy = λ f. refl; in_order = λ f. refl }

-- Whatever the event loop does, as long as no write fails: the buffers that were written and those in
-- the queue are, in order, the buffers that were sent, with none lost or doubled; and the buffers given
-- to asio are those that were written and, while the queue is not empty, its front, so that at most one
-- write is in flight.
pub run_in_order :
    (es : List Event)
    → (run (idle_wire create) es).failed ≡ false
    → let w = run (idle_wire create) es in
      (w.finished ++ w.comm.write_queue ≡ sent es)
      × (w.begun ≡ w.finished ++ take 1 w.comm.write_queue)
      × (w.in_flight ≡ not (is_empty w.comm.write_queue))
run_in_order es f = (
  run-stock es (idle_wire create) idle-Inv f ∙ (unfold create in refl),
  (run-Inv es (idle_wire create) idle-Inv).in_order f,
  (run-Inv es (idle_wire create) idle-Inv).busy f,
)
