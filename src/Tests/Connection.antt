-- ===== src/Tests/Connection.antt =====
-- The connection at concrete inputs.
use stradvision.Comm.{Effect, TcpComm, create, flush_task, is_empty, read_header, send_task, start}
use stradvision.Comm.Flush.{close_when_drained, flush_drains}
use stradvision.Comm.Reads.{IsListening, Reader, delivered, phase_of, run_reads}
use stradvision.Comm.Stream.{all_sealed, receive_stream, stream}
use stradvision.Comm.Writes.{Event, Inv, Wire, idle_wire, run, run_in_order, step, task, written}
use stradvision.Common.{
  ℕ, List, [], arith, false, not, refl, replicate, some, take, true, ◌++◌, ◌∷◌, ◌≡◌,
}
use stradvision.Parser.{get_header_size}
use stradvision.Tests.Wire.{hello-IsSendable, hello_message}

abbrev listening : TcpComm
listening = record {
  is_open = true;
  read_buffer = replicate 32 0;
  write_queue = [];
  has_msg_handler = true;
  has_err_handler = true;
  is_shutting_down = false;
}

abbrev reader : Reader
reader = record { comm = listening; phase = phase_of (start listening) }

reader-IsListening : IsListening reader
unfolding start read_header get_header_size
reader-IsListening = record { waits = refl; handled = refl; room = omega arith }

-- Two messages, and two bytes of a third one.
receive_stream_example :
    let ms = hello_message ∷ hello_message ∷ [] in
    (bytes : List ℕ) × (r' : Reader) × (es : List Effect) × (stream ms ≡ some bytes)
    × (run_reads 9 5 (λ m. false) reader (bytes ++ (0 ∷ 0 ∷ [])) ≡ some (r', es, 0 ∷ 0 ∷ []))
    × (delivered es ≡ all_sealed ms)
    × IsListening r'
receive_stream_example =
    receive_stream 5 (λ m. false) (hello_message ∷ hello_message ∷ []) 9 reader (0 ∷ 0 ∷ [])
      (hello-IsSendable, (hello-IsSendable, tt)) (refl, (refl, tt)) (omega arith) (omega arith)
      reader-IsListening

abbrev two_sends : List Event
two_sends =
    task (send_task (1 ∷ [])) ∷ task (send_task (2 ∷ [])) ∷ written ∷ task (send_task (3 ∷ [])) ∷ []

two_sends_alive : (run (idle_wire create) two_sends).failed ≡ false
unfolding run step create
two_sends_alive = refl

run_in_order_example :
    ((run (idle_wire create) two_sends).finished
        ++ (run (idle_wire create) two_sends).comm.write_queue
      ≡ (1 ∷ []) ∷ (2 ∷ []) ∷ (3 ∷ []) ∷ [])
    × ((run (idle_wire create) two_sends).begun
        ≡ (run (idle_wire create) two_sends).finished
          ++ take 1 (run (idle_wire create) two_sends).comm.write_queue)
    × ((run (idle_wire create) two_sends).in_flight
        ≡ not (is_empty (run (idle_wire create) two_sends).comm.write_queue))
run_in_order_example = run_in_order two_sends two_sends_alive

abbrev queued : Wire
queued = record {
  comm = record listening { write_queue = (1 ∷ []) ∷ (2 ∷ []) ∷ [] };
  in_flight = true;
  begun = (1 ∷ []) ∷ [];
  finished = [];
  failed = false;
}

queued-Inv : Inv queued
queued-Inv = record { busy = λ f. refl; in_order = λ f. refl }

flush_drains_example :
    let w' = run queued (task flush_task ∷ replicate 2 written) in
    (w'.comm.is_open ≡ false)
    × (w'.comm.write_queue ≡ [])
    × (w'.finished ≡ (1 ∷ []) ∷ (2 ∷ []) ∷ [])
flush_drains_example = flush_drains queued (1 ∷ []) ((2 ∷ []) ∷ []) queued-Inv refl refl refl

abbrev closing : Wire
closing = record queued {
  comm = record listening { write_queue = (1 ∷ []) ∷ []; is_shutting_down = true };
}

closing-Inv : Inv closing
closing-Inv = record { busy = λ f. refl; in_order = λ f. refl }

closes : (step closing written).comm.is_open ≡ false
unfolding step
closes = refl

close_when_drained_example : (step closing written).comm.write_queue ≡ []
close_when_drained_example = close_when_drained closing written closing-Inv refl (λ e. cc) closes
