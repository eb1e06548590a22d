-- ===== src/Condition.antt =====
-- include/co_context/co/condition_variable.hpp and lib/co_context/co/condition_variable.cpp: the
-- two lists of `condition_variable`. `notify_one` is in three parts, between which other threads
-- may run: its first critical section, the exchange with the loop, and its second critical section.
-- These parts say whom to wake; `Waking` has how that awaiter asks for the user's mutex. The loop
-- runs on fuel; `none` means that it ran out.
pub mod Turn
pub mod Notify
pub mod Lost
pub mod Everyone
pub mod Waking
mod Tests
use co_context.Prelude.{
  ℕ, zero, suc, Option, none, some, List, [], ◌∷◌, ◌++◌, not, ◌==◌, if◌then◌else◌,
}
use mathlib.Core.Option as Option
use co_context.Awaiters.{Ptr, Links, set_next}

pub record Condition : Type 0 where
  pub awaiting : Ptr
  pub to_resume_head : Ptr
  pub to_resume_tail : Ptr
  pub next : Links

-- `cv_wait_awaiter::await_suspend` up to the unlock of the user's mutex.
unfoldable pub await_suspend : Ptr → Condition → Condition
await_suspend a c = record c { next = set_next c.next a c.awaiting; awaiting = a }

-- Steps 1 and 2: the head of `to_resume` is to be woken, or there is none.
unfoldable pub take_ready : Condition → Option Ptr × Condition
take_ready c =
    if not (c.to_resume_head == 0)
    then (some c.to_resume_head, record c { to_resume_head = c.next c.to_resume_head })
    else (none, record c { to_resume_tail = 0 })

-- `while (pred != nullptr)` of step 3, to the links, `head` and `succ` at its end.
unfoldable pub turn_loop : ℕ → Links → (head succ pred : Ptr) → Option (Links × Ptr × Ptr)
turn_loop zero next head succ pred = none
turn_loop (suc fuel) next head succ pred =
    let next' = set_next next head succ in
    let rest = turn_loop fuel next' pred head (next' pred) in
    if not (pred == 0) then rest else some (next, head, succ)

-- Steps 4 and 5: whom to wake.
unfoldable pub publish : (head succ tail : Ptr) → Condition → Ptr × Condition
publish head succ tail c =
    if c.to_resume_head == 0
    then (head, record c { to_resume_head = succ; to_resume_tail = tail })
    else (let next = set_next c.next c.to_resume_tail head in
        (
          c.to_resume_head,
          record c { next = next; to_resume_head = next c.to_resume_head; to_resume_tail = tail },
        ))

-- From the awaiter at the top of the stack that was exchanged, through the loop and the second
-- critical section.
unfoldable pub turn_and_publish : ℕ → (top : Ptr) → Condition → Option (Ptr × Condition)
turn_and_publish fuel top c = elim (turn_loop fuel c.next top 0 (c.next top)) [
  | none ↦ none
  | some (next, head, succ) ↦ some (publish head succ top (record c { next = next }))
]

-- After the first critical section: done, or on to the stack.
unfoldable pub notify_after : ℕ → Option Ptr × Condition → Option (Option Ptr × Condition)
notify_after fuel (some a, c) = some (some a, c)
notify_after fuel (none, c) =
    if c.awaiting == 0
    then some (none, record c { awaiting = 0 })
    else elim (turn_and_publish fuel c.awaiting (record c { awaiting = 0 })) [
      | none ↦ none
      | some (a, c') ↦ some (some a, c')
    ]

-- `notify_one` with no other thread in between: the awaiter to wake, if any.
unfoldable pub notify_one : ℕ → Condition → Option (Option Ptr × Condition)
notify_one fuel c = notify_after fuel (take_ready c)

-- `try_notify_all` of `notify_all`: the awaiters of a list from this one on, in the order of waking.
unfoldable pub notify_list : ℕ → Links → (head : Ptr) → Option (List Ptr)
notify_list zero next head = none
notify_list (suc fuel) next head =
    let rest = notify_list fuel next (next head) in
    if not (head == 0) then Option.map (λ woken. head ∷ woken) rest else some []

-- What is left when both lists of `notify_all` were woken.
abbrev pub both_woken :
    (first second : Option (List Ptr)) → Condition → Option (List Ptr × Condition)
both_woken none second c = none
both_woken (some first) none c = none
both_woken (some first) (some second) c =
    some (first ++ second, record c { awaiting = 0; to_resume_head = 0 })

-- `notify_all` with no other thread in between: the awaiters to wake, in order.
unfoldable pub notify_all : ℕ → Condition → Option (List Ptr × Condition)
notify_all fuel c =
    both_woken (notify_list fuel c.next c.awaiting) (notify_list fuel c.next c.to_resume_head) c
