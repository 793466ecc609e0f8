-- ===== src/Link/Safety.antt =====
-- What is so in every state that a fresh link reaches.
use stradvision.Common.{ℕ}
use stradvision.Link.{IsFresh, Link, Reach}
use stradvision.Link.Answering.{Reach-Inv}
use stradvision.Link.Invariant.{Among, IsModeOf, IsTraced}

-- Along any steps of a session and its agent from a fresh link, with mode commands of 32 bits while the
-- session is healthy, checks of the timeouts that keep the session, reports, and messages that are handled
-- in order and may be lost on both ways: the agent's mode is its first one or the mode of a command that
-- was made, and every message that the agent has handled bears the id of a command that was made.
pub mode_was_commanded :
    (k : ℕ) (l l' : Link)
    → IsFresh l
    → Reach k l l'
    → IsModeOf l.agent.current_mode l'.commanded l'.agent.current_mode
      × ((id : ℕ) → Among id l'.handled → (mode : ℕ) × Among (id, mode) l'.commanded)
mode_was_commanded k l l' f r = let inv = Reach-Inv k l l' f r in (inv.mode, inv.known)

-- Along any steps of a session and its agent from a fresh link, with mode commands of 32 bits while the
-- session is healthy, checks of the timeouts that keep it, reports, and messages that may be lost on both
-- ways: each command that was made is still pending, or the agent has handled a message with its id, or a
-- check of the timeouts has given it up.
pub command-IsTraced :
    (k id mode : ℕ) (l l' : Link)
    → IsFresh l
    → Reach k l l'
    → Among (id, mode) l'.commanded
    → IsTraced id l'.entry.session.pending_cmds l'.handled l'.given_up
command-IsTraced k id mode l l' f r h = let inv = Reach-Inv k l l' f r in inv.traced id mode h
