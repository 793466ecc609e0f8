-- ===== src/Pool.antt =====
-- include/core/pool/MessagePool.hpp. A pointer is a number; `new` is an argument, the pointer that it
-- returns. The constructor's arguments are the message that it makes. The deleter of a `shared_ptr`
-- calls `release`.
pub mod Ownership
pub mod Freed
use stradvision.Common.{ℕ, List, Option, [], length, none, some, ◌++◌, ◌∷◌}
use stradvision.Message.{Heap, Message, store}

pub record MessagePool : Type 0 where
  pub pool : List ℕ
  pub heap : Heap

-- The pool at its first use, with the memory as it is, and the pointers that the destructor deletes.
abbrev pub get_instance : Heap → MessagePool
get_instance heap = record { pool = []; heap = heap }

abbrev pub deletes : MessagePool → List ℕ
deletes s = s.pool

-- `back()` and what `pop_back()` leaves, or `none` of an empty vector.
abbrev pub split_on : ℕ → Option (List ℕ × ℕ) → Option (List ℕ × ℕ)
split_on x none = some ([], x)
split_on x (some (front, back)) = some (x ∷ front, back)

unfoldable pub split_back : List ℕ → Option (List ℕ × ℕ)
split_back [] = none
split_back (x ∷ xs) = split_on x (split_back xs)

abbrev pub take_pointer : Message → ℕ → MessagePool → Option (List ℕ × ℕ) → MessagePool × ℕ
take_pointer m fresh s none = (record s { heap = store s.heap fresh m }, fresh)
take_pointer m fresh s (some (front, back)) =
    (record s { pool = front; heap = store s.heap back m }, back)

unfoldable pub acquire : Message → ℕ → MessagePool → MessagePool × ℕ
acquire m fresh s = take_pointer m fresh s (split_back s.pool)

unfoldable pub available : MessagePool → ℕ
available s = length s.pool

unfoldable pub release : ℕ → MessagePool → MessagePool
release ptr s = record s { pool = s.pool ++ (ptr ∷ []) }
