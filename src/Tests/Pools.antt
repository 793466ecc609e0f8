-- ===== src/Tests/Pools.antt =====
-- The message pool at concrete inputs.
use stradvision.Common.{List, [], arith, ◌+◌, ◌∷◌, ◌≡◌, ◌≢◌, ◌≤◌}
use stradvision.Message.{Heap, ack, hello, message, nack}
use stradvision.Pool.{acquire, available, deletes, release, split_back}
use stradvision.Pool.Freed.{freed_once, made}
use stradvision.Pool.Ownership.{
  AreAllowed, IsAllowed, PoolEvent, acquire_apart, acquires, count, empty_world, pool_run,
  pool_step, releases,
}

abbrev blank : Heap
blank p = message 0 hello [] 0 0 0

-- Two messages are acquired, and the first goes back to the pool.
abbrev history : List PoolEvent
history =
    acquires (message 1 hello [] 0 0 0) 100
    ∷ acquires (message 2 ack [] 0 0 0) 200
    ∷ releases 100
    ∷ []

history-AreAllowed : AreAllowed (empty_world blank) history
unfolding pool_step acquire split_back release
history-AreAllowed = (omega arith, (omega arith, (omega arith, tt)))

freed_once_example :
    let w = pool_run (empty_world blank) history in
    (count 100 (deletes w.owner) + count 100 w.live ≡ 1) × (1 ≤ 1)
unfolding made pool_step acquire split_back release available
freed_once_example = freed_once blank history 100 history-AreAllowed

fresh-IsAllowed :
    IsAllowed (pool_run (empty_world blank) history) (acquires (message 3 nack [] 0 0 0) 300)
unfolding pool_run pool_step acquire split_back release
fresh-IsAllowed = omega arith

second_held : 1 ≤ count 200 (pool_run (empty_world blank) history).live
unfolding pool_run pool_step acquire split_back release
second_held = omega arith

acquire_apart_example :
    let w = pool_run (empty_world blank) history in
    let (s', p) = acquire (message 3 nack [] 0 0 0) 300 w.owner in
    (p ≢ 200) × (s'.heap p ≡ message 3 nack [] 0 0 0) × (s'.heap 200 ≡ w.owner.heap 200)
acquire_apart_example =
    acquire_apart blank history (message 3 nack [] 0 0 0) 300 200 history-AreAllowed fresh-IsAllowed
      second_held
