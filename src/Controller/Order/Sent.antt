-- ===== src/Controller/Order/Sent.antt =====
-- A broadcast and the flush of a shutdown, session by session.
use mathlib.Core.List.{Permᴰ}
use stradvision.Session
use stradvision.Common.{ℕ, Bool, List, [], ap, if◌then◌else◌, refl, ◌++◌, ◌∷◌, ◌≡◌}
use stradvision.Common.Perms.{flat, flat-Perm}
use stradvision.Controller.{ControllerCall, Entry, Sessions, healthy_entry, on_links}
use stradvision.Controller.Commands.{broadcast_command, flush_all}
use stradvision.Message.{Heap}
use stradvision.Session.{Session, flush_pending_commands}

pub broadcast-Perm :
    (now msg : ℕ) (is_open : ℕ → Bool) (heap : Heap) (xs ys : Sessions)
    → Permᴰ xs ys
    → Permᴰ (broadcast_command now is_open heap msg xs) (broadcast_command now is_open heap msg ys)
unfolding broadcast_command
broadcast-Perm now msg is_open heap xs ys p = rw (parts xs, parts ys) (flat-Perm sent p)
  where
    sent : ℕ × Entry → List ControllerCall
    sent x =
        if healthy_entry now is_open x.1
        then on_links x.1.conn (Session.send x.1.session heap msg)
        else []

    parts : (zs : Sessions) → broadcast_command now is_open heap msg zs ≡ flat sent zs
    parts [] = refl
    parts (z ∷ zs) = ap (λ calls. sent z ++ calls) (parts zs)

pub flush_all-Perm :
    (heap : Heap) (xs ys : Sessions)
    → Permᴰ xs ys
    → Permᴰ (flush_all heap xs).0 (flush_all heap ys).0
      × Permᴰ (flush_all heap xs).1 (flush_all heap ys).1
unfolding flush_all
flush_all-Perm heap xs ys p = rw (parts xs, parts ys) (flat-Perm flushed p, flat-Perm sent p)
  where
    flushed : ℕ × Entry → Sessions
    flushed x = (x.0, record x.1 { session = (flush_pending_commands x.1.session heap).0 }) ∷ []

    sent : ℕ × Entry → List ControllerCall
    sent x = on_links x.1.conn (flush_pending_commands x.1.session heap).1

    parts : (zs : Sessions) → flush_all heap zs ≡ (flat flushed zs, flat sent zs)
    parts [] = refl
    parts (z ∷ zs) =
        ap (λ (r : Sessions × List ControllerCall). (flushed z ++ r.0, sent z ++ r.1)) (parts zs)
