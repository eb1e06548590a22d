-- ===== src/Condition/Tests.antt =====
-- Three awaiters: 8 is in `to_resume`, and 24 and 16 are on a stack.
use co_context.Prelude.{◌++◌, ◌≡◌, refl, [], ◌∷◌, some, ◌==◌, if◌then◌else◌, arith}
use co_context.Awaiters.{Links}
use co_context.Condition.{Condition, notify_one}
use co_context.Condition.Notify.{Waiting, notify_one_lem}
use co_context.Mutex.{
  new_mutex, locked_no_awaiting, holding, System, update, start, Reach, here, later, registers,
  try_lock,
}
use co_context.Mutex.Queue.{FairLock}
use co_context.Mutex.Safety.{Represents}
use co_context.Condition.Waking.{try_notify, try_notify_lem}

abbrev links : Links
links p = if p == 24 then 16 else 0

abbrev stacked : Condition
stacked = record { awaiting = 24; to_resume_head = 0; to_resume_tail = 8; next = links }

abbrev stacked-Waiting : Waiting stacked (16 ∷ 24 ∷ [])
stacked-Waiting = record {
  resume = [];
  stack = 24 ∷ 16 ∷ [];
  order = refl;
  chain = refl;
  stack_chain = (refl, (λ e. omega (arith, e)), (refl, (λ e. omega (arith, e)), refl));
  distinct = (((λ e. omega (arith, e)), tt), (tt, tt));
}

notify_one_example :
    (c' : Condition) × (notify_one 2 stacked ≡ some (some 16, c')) × Waiting c' (24 ∷ [])
notify_one_example = notify_one_lem 2 stacked 16 (24 ∷ []) stacked-Waiting (omega arith)

-- Another notification has filled `to_resume` meanwhile.
abbrev filled : Condition
filled = record { awaiting = 0; to_resume_head = 8; to_resume_tail = 8; next = links }

-- The awaiters at 16 and 24 are notified while the coroutine at 8 owns the mutex.
abbrev owned : System
owned = record {
  mtx = record (new_mutex links) { awaiting = locked_no_awaiting };
  pc = update (start links).pc 8 holding;
}

owned-Reach : Reach links owned
owned-Reach = later here (registers 8 (omega arith) (try_lock refl))

try_notify_example :
    (q : FairLock) × Represents owned q
    × Reach links (try_notify (16 ∷ 24 ∷ []) owned)
    × Represents
        (try_notify (16 ∷ 24 ∷ []) owned)
        (record { owner = some 8; queue = q.queue ++ 16 ∷ 24 ∷ [] })
try_notify_example =
    try_notify_lem (16 ∷ 24 ∷ []) 8 owned-Reach refl
      ((refl, omega arith), ((refl, omega arith), tt)) (((λ e. omega (arith, e)), tt), (tt, tt))
