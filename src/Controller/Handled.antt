-- ===== src/Controller/Handled.antt =====
-- What a message or an error does to `active_connections`.
use stradvision.Common.{
  ℕ, IsU32, Option, arith, false, fault, if_both, none, ok, refl, some, throw, true, u32, ◌+◌, ◌==◌,
  ◌≡◌,
}
use stradvision.Controller.{
  Controller, Entry, HandlerResult, acked, drop_session, on_error, on_message, register, session_of,
}
use stradvision.Controller.Cases.{on_message_cases}
use stradvision.Controller.Gauge.{gauge}
use stradvision.Controller.Steps.{or_error}
use stradvision.Dict.{find}
use stradvision.Message.{Message}
use stradvision.Session.{PendingCommand, acknowledge, add_rtt, handle_ack, milliseconds_between}

abbrev pub threw : HandlerResult → ℕ
threw (ok _) = 0
threw (throw _) = 1
threw fault = 0

-- The gauge keeps its width, and went up and down by these numbers.
abbrev pub Moves : ℕ → ℕ → ℕ → ℕ → Type 0
Moves up down before after = IsU32 after × (u32 (after + down) ≡ u32 (before + up))

drop_session-gauge : (o : Option (ℕ × Entry)) (c : Controller) → gauge (drop_session o c) ≡ gauge c
drop_session-gauge none c = refl
drop_session-gauge (some (k, e)) c = if_both (λ x. gauge x ≡ gauge c) (e.session.id == 0) refl refl

pub on_error-Moves :
    (conn : ℕ) (c : Controller) → IsU32 (gauge c) → Moves 0 1 (gauge c) (gauge (on_error conn c))
unfolding on_error
on_error-Moves conn c w = omega (arith, drop_session-gauge (session_of conn c) c)

acked-gauge : (now k id : ℕ) (e : Entry) (c : Controller) → gauge (acked now k e id c) ≡ gauge c
unfolding acked handle_ack
acked-gauge now k id e c = sampled_one (find id e.session.pending_cmds)
  where
    sampled_one :
        (o : Option PendingCommand)
        → (acknowledge now id e.session c.tracker o).1.active_connections ≡ gauge c
    sampled_one none = refl
    sampled_one (some pc) =
        elim e.session.has_tracker
          as (λ b.
            (add_rtt b (milliseconds_between now pc.last_send) c.tracker).active_connections
            ≡ gauge c) [ true ↦ refl | false ↦ refl ]

-- The gauge after a message was handled, or its exception was caught.
pub on_message-Moves :
    (now wall fresh conn : ℕ) (msg : Message) (c : Controller)
    → IsU32 (gauge c)
    → let r = on_message now wall fresh conn msg c in
      Moves 0 (threw r) (gauge c) (gauge (or_error conn c r))
on_message-Moves now wall fresh conn msg c w =
    on_message_cases (λ r. Moves 0 (threw r) (gauge c) (gauge (or_error conn c r))) now wall fresh
      conn c
      (record {
        throws = λ what. on_error-Moves conn c w;
        faults = omega arith;
        stays = λ calls rests. omega arith;
        registers = λ id. unfold register in omega arith;
        beats = λ k e h. omega arith;
        stores = λ states. omega arith;
        acks = λ k id e h. omega (arith, acked-gauge now k id e c);
      })
      msg
