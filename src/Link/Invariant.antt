-- ===== src/Link/Invariant.antt =====
-- What holds of a link in every state that it reaches.
use stradvision.Session.Checks
use stradvision.Agent.{Agent}
use stradvision.Comm.Stream.{sealed}
use stradvision.Common.{ℕ, All, IsU32, List, [], inl, inr, some, ◌++◌, ◌∷◌, ◌≡◌, ◌⊎◌}
use stradvision.Dict.{find}
use stradvision.Link.{Link}
use stradvision.Message.{Heap, Message, ack, cmd_set_mode, heartbeat, nack, state}
use stradvision.Payload.{serialize_ack, serialize_nack, serialize_set_mode}
use stradvision.Session.{PendingCommand}
use stradvision.Session.Checks.{IsValid}

abbrev pub Among : {A : Type 0} → A → List A → Type 0
Among x [] = ⊥
Among x (y ∷ ys) = (y ≡ x) ⊎ Among x ys

-- A mode command that was made.
pub record WellSent (made : List (ℕ × ℕ)) (m : Message) : Type 0 where
  pub is_command : m.header.type ≡ cmd_set_mode
  pub id_fits : IsU32 m.header.header_id
  pub mode : ℕ
  pub mode_fits : IsU32 mode
  pub was_made : Among (m.header.header_id, mode) made
  pub says : m.payload ≡ serialize_set_mode (record { mode = mode })

-- A report, or a reply to a message that was handled.
abbrev pub IsReplyTo : ℕ → Message → Type 0
IsReplyTo id r =
    ((r.header.type ≡ ack) × (r.payload ≡ serialize_ack (record { cmd_id = id })))
    ⊎ ((reason : List ℕ) × (r.header.type ≡ nack)
        × (r.payload ≡ serialize_nack (record { cmd_id = id; reason = reason })))

abbrev pub IsAnswer : List ℕ → Message → Type 0
IsAnswer handled r =
    (r.header.type ≡ heartbeat)
    ⊎ (r.header.type ≡ state)
    ⊎ ((id : ℕ) × IsU32 id × Among id handled × IsReplyTo id r)

-- The types of the agent's message objects.
pub record HasTypes (a : Agent) : Type 0 where
  pub acks_by : a.msg_ack.header.type ≡ ack
  pub nacks_by : a.msg_nack.header.type ≡ nack
  pub beats_by : a.msg_hb.header.type ≡ heartbeat
  pub states_by : a.msg_state.header.type ≡ state

-- The mode that the agent had at first, or that a command gave it.
abbrev pub IsModeOf : ℕ → List (ℕ × ℕ) → ℕ → Type 0
IsModeOf first made mode = (mode ≡ first) ⊎ ((id : ℕ) × Among (id, mode) made)

-- Every pending command points to the session's message object, which was then sent.
abbrev pub PointsTo : List (ℕ × ℕ) → ℕ → Heap → ℕ × PendingCommand → Type 0
PointsTo made p heap x = (x.1.msg ≡ p) × WellSent made (heap p)

-- Where a command may be that was made.
abbrev pub IsTraced : ℕ → List (ℕ × PendingCommand) → List ℕ → List ℕ → Type 0
IsTraced id pending handled given_up =
    ((pc : PendingCommand) × (find id pending ≡ some pc)) ⊎ Among id handled ⊎ Among id given_up

pub record Inv (first : ℕ) (l : Link) : Type 0 where
  pub valid : Checks.IsValid l.entry.session
  pub object : (l.messages.heap l.entry.session.msg_set_mode).header.type ≡ cmd_set_mode
  pub pending :
      All
        (PointsTo l.commanded l.entry.session.msg_set_mode l.messages.heap)
        l.entry.session.pending_cmds
  pub down : All (WellSent l.commanded) l.down
  pub types : HasTypes l.agent
  pub mode : IsModeOf first l.commanded l.agent.current_mode
  pub up : All (IsAnswer l.handled) l.up
  pub known : (id : ℕ) → Among id l.handled → (mode : ℕ) × Among (id, mode) l.commanded
  pub traced :
      (id mode : ℕ)
      → Among (id, mode) l.commanded
      → IsTraced id l.entry.session.pending_cmds l.handled l.given_up

pub All-map {ℓ κ κ'} :
    {A : Type ℓ} (P : A → Type κ) (Q : A → Type κ') (xs : List A)
    → ((x : A) → P x → Q x)
    → All P xs
    → All Q xs
All-map P Q [] f h = tt
All-map P Q (x ∷ xs) f h = (f x h.0, All-map P Q xs f h.1)

pub Among-append : {A : Type 0} (x : A) (xs ys : List A) → Among x ys → Among x (xs ++ ys)
Among-append x [] ys h = h
Among-append x (y ∷ xs) ys h = inr (Among-append x xs ys h)

pub WellSent-later :
    (made : List (ℕ × ℕ)) (x : ℕ × ℕ) (m : Message) → WellSent made m → WellSent (x ∷ made) m
WellSent-later made x m w = record {
  is_command = w.is_command;
  id_fits = w.id_fits;
  mode = w.mode;
  mode_fits = w.mode_fits;
  was_made = inr w.was_made;
  says = w.says;
}

pub IsAnswer-later :
    (handled : List ℕ) (id : ℕ) (r : Message) → IsAnswer handled r → IsAnswer (id ∷ handled) r
IsAnswer-later handled id r (inl t) = inl t
IsAnswer-later handled id r (inr (inl t)) = inr (inl t)
IsAnswer-later handled id r (inr (inr (i, w, h, reply))) = inr (inr (i, w, inr h, reply))

pub append-Among : {A : Type 0} (x : A) (xs ys : List A) → Among x xs → Among x (xs ++ ys)
append-Among x [] ys h = absurd h
append-Among x (y ∷ xs) ys (inl e) = inl e
append-Among x (y ∷ xs) ys (inr h) = inr (append-Among x xs ys h)

pub WellSent-sealed :
    (made : List (ℕ × ℕ)) (m : Message) → WellSent made m → WellSent made (sealed m)
WellSent-sealed made m w = record {
  is_command = w.is_command;
  id_fits = w.id_fits;
  mode = w.mode;
  mode_fits = w.mode_fits;
  was_made = w.was_made;
  says = w.says;
}
