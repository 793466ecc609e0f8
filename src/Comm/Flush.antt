-- ===== src/Comm/Flush.antt =====
-- `flushAndDisconnect`: what is queued is still written, and then the socket is closed.
use stradvision.Comm.{disconnect_task, flush_task, send_task}
use stradvision.Comm.Writes.{
  Event, Inv, Wire, run, run-stock, sent, step, step-Inv, stock, task, write_failed, written,
}
use stradvision.Common.{
  List, [], ap, append-nil, arith, false, length, refl, replicate, suc, sym, true, zero, ℕ, ◌++◌,
  ◌∙◌, ◌∷◌, ◌≡◌, ◌≢◌,
}

module _ (w : Wire) (v : Inv w) (live : w.comm.is_open ≡ true) where
  close_written :
      (queue : List (List ℕ))
      → w.comm.write_queue ≡ queue
      → (step w written).comm.is_open ≡ false
      → (step w written).comm.write_queue ≡ []
  unfolding step
  close_written [] e c = ground arith
  close_written (x ∷ []) e c = ground arith
  close_written (x ∷ y ∷ queue) e c = ground arith

  close_flush :
      (queue : List (List ℕ))
      → w.comm.write_queue ≡ queue
      → (step w (task flush_task)).comm.is_open ≡ false
      → (step w (task flush_task)).comm.write_queue ≡ []
  unfolding step
  close_flush [] e c = ground arith
  close_flush (x ∷ queue) e c = ground arith

-- If an event other than the closure of `disconnect` closes the open socket of a connection whose queue
-- and writes agree, no frame is left in the queue.
pub close_when_drained :
    (w : Wire) (e : Event)
    → Inv w
    → w.comm.is_open ≡ true
    → e ≢ task disconnect_task
    → (step w e).comm.is_open ≡ false
    → (step w e).comm.write_queue ≡ []
close_when_drained w (task (send_task buf)) v o ne c = unfold step in ground arith
close_when_drained w (task disconnect_task) v o ne c = absurd (ne refl)
close_when_drained w (task flush_task) v o ne c = close_flush w v o w.comm.write_queue refl c
close_when_drained w written v o ne c = close_written w v o w.comm.write_queue refl c
close_when_drained w (write_failed e) v o ne c = unfold step in ground arith

-- The state in which `flush_task` leaves a connection with frames in its queue.
pub record IsFlushing (w : Wire) : Type 0 where
  pub inv : Inv w
  pub alive : w.failed ≡ false
  pub live : w.comm.is_open ≡ true
  pub shutting_down : w.comm.is_shutting_down ≡ true

module _ (w : Wire) (x : List ℕ) (f : IsFlushing w) where
  last_written :
      w.comm.write_queue ≡ x ∷ []
      → let w' = step w written in
        (w'.comm.is_open ≡ false) × (w'.comm.write_queue ≡ []) × (w'.failed ≡ false)
  unfolding step
  last_written e =
      let busy = f.inv.busy f.alive in
      let alive = f.alive in let live = f.live in let down = f.shutting_down in ground arith

  next_written :
      (y : List ℕ) (queue : List (List ℕ))
      → w.comm.write_queue ≡ x ∷ y ∷ queue
      → IsFlushing (step w written) × ((step w written).comm.write_queue ≡ y ∷ queue)
  next_written y queue e = (
    record {
      inv = step-Inv w written f.inv;
      alive = parts.0;
      live = parts.1;
      shutting_down = parts.2;
    },
    parts.3,
  )
    where
      parts :
          ((step w written).failed ≡ false)
          × ((step w written).comm.is_open ≡ true)
          × ((step w written).comm.is_shutting_down ≡ true)
          × ((step w written).comm.write_queue ≡ y ∷ queue)
      parts =
          let busy = f.inv.busy f.alive in
          let alive = f.alive in
          let live = f.live in let down = f.shutting_down in unfold step in ground arith

drain :
    (queue : List (List ℕ)) (w : Wire) (x : List ℕ)
    → w.comm.write_queue ≡ x ∷ queue
    → IsFlushing w
    → let w' = run w (replicate (length (x ∷ queue)) written) in
      (w'.comm.is_open ≡ false) × (w'.comm.write_queue ≡ []) × (w'.failed ≡ false)
unfolding run
drain [] w x e f = last_written w x f e
drain (y ∷ queue) w x e f =
    let (g, e') = next_written w x f y queue e in drain queue (step w written) y e' g

sent-replicate : (n : ℕ) → sent (replicate n written) ≡ []
sent-replicate zero = refl
sent-replicate (suc n) = sent-replicate n

flush-IsFlushing :
    (w : Wire) (x : List ℕ) (queue : List (List ℕ))
    → Inv w
    → w.failed ≡ false
    → w.comm.is_open ≡ true
    → w.comm.write_queue ≡ x ∷ queue
    → IsFlushing (step w (task flush_task))
      × ((step w (task flush_task)).comm.write_queue ≡ x ∷ queue)
flush-IsFlushing w x queue v a l e = (
  record {
    inv = step-Inv w (task flush_task) v;
    alive = unfold step in ground arith;
    live = unfold step in ground arith;
    shutting_down = unfold step in ground arith;
  },
  unfold step in ground arith,
)

-- After a flush is asked for on an open connection with frames in its queue, as many finished writes as
-- there are frames write every frame, in order, and leave the queue empty and the socket closed.
pub flush_drains :
    (w : Wire) (x : List ℕ) (queue : List (List ℕ))
    → Inv w
    → w.failed ≡ false
    → w.comm.is_open ≡ true
    → w.comm.write_queue ≡ x ∷ queue
    → let w' = run w (task flush_task ∷ replicate (length (x ∷ queue)) written) in
      (w'.comm.is_open ≡ false)
      × (w'.comm.write_queue ≡ [])
      × (w'.finished ≡ w.finished ++ (x ∷ queue))
flush_drains w x queue v a l e =
    let (f, e') = flush-IsFlushing w x queue v a l e in
    let (closed, empty, alive) = drain queue (step w (task flush_task)) x e' f in
    let none_left : (run w es).comm.write_queue ≡ [] = unfold run in empty in
    (
      unfold run in closed,
      none_left,
      sym (append-nil (run w es).finished)
          ∙ ap (◌++◌ (run w es).finished) (sym none_left)
          ∙ run-stock es w v (unfold run in alive)
          ∙ ap (◌++◌ (stock w)) (sent-replicate (length (x ∷ queue)))
          ∙ append-nil (stock w)
          ∙ ap (◌++◌ w.finished) e,
    )
  where
    es : List Event
    es = task flush_task ∷ replicate (length (x ∷ queue)) written
