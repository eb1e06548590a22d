-- ===== src/Mutex/Queue.antt =====
-- What a mutex promises its clients: one owner at a time, and a queue of those who wait, served in
-- the order in which they came.
use co_context.Prelude.{◌≡◌, Option, none, some, List, [], ◌∷◌, ◌++◌}
use co_context.Awaiters.{Ptr}

pub record FairLock : Type 0 where
  pub owner : Option Ptr
  pub queue : List Ptr

-- A step that a client cannot see, or one of: take the free lock, join the queue, hand the lock to
-- the first in the queue, free the lock when nobody waits.
pub data FairStep (q : FairLock) : FairLock → Type 0 where
  stay : FairStep q q
  take :
      (a : Ptr) → q.owner ≡ none → q.queue ≡ [] → FairStep q (record { owner = some a; queue = [] })
  join :
      (a b : Ptr)
      → q.owner ≡ some b
      → FairStep q (record { owner = some b; queue = q.queue ++ a ∷ [] })
  hand_over :
      (a b : Ptr) (rest : List Ptr)
      → q.owner ≡ some a
      → q.queue ≡ b ∷ rest
      → FairStep q (record { owner = some b; queue = rest })
  free :
      (a : Ptr) → q.owner ≡ some a → q.queue ≡ [] → FairStep q (record { owner = none; queue = [] })

-- Nobody owns it and nobody waits.
abbrev pub free_lock : FairLock
free_lock = record { owner = none; queue = [] }
