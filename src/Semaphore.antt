-- ===== src/Semaphore.antt =====
-- include/co_context/co/semaphore.hpp and lib/co_context/co/semaphore.cpp: each operation of the
-- counting semaphore as one step, with no other thread in between. The counter is a word of 64 bits
-- that stands for a signed number. A loop over a stack runs on fuel; `none` means that it ran out.
pub mod Order
pub mod Faults
pub mod Steps
mod Tests
use co_context.Prelude.{
  ℕ, zero, suc, ◌+◌, ◌-◌, ◌^◌, min, Bool, true, false, not, ◌==◌, leb, if◌then◌else◌, List, [], ◌∷◌,
  Option, none, some, word_add, word_sub,
}
use co_context.Prelude.Result.{Result, ok, fault, null_access}
use co_context.Awaiters.{Ptr, Links, set_next, reverse_loop}

pub record Semaphore : Type 0 where
  pub awaiting : Ptr
  pub to_resume : Ptr
  pub counter : ℕ
  pub next : Links

-- `counting_semaphore(desired)`
abbrev pub new_semaphore : ℕ → Links → Semaphore
new_semaphore desired next = record { awaiting = 0; to_resume = 0; counter = desired; next = next }

unfoldable pub is_negative : ℕ → Bool
is_negative c = leb (2 ^ 63) c

abbrev pub is_positive : ℕ → Bool
is_positive c = if is_negative c then false else not (c == 0)

-- `counter -= 1`
abbrev pub taken : Semaphore → Semaphore
taken s = record s { counter = word_sub (2 ^ 64) s.counter 1 }

unfoldable pub try_acquire : Semaphore → Bool × Semaphore
try_acquire s = if is_positive s.counter then (true, taken s) else (false, s)

-- Whether the coroutine goes on without waiting.
unfoldable pub await_ready : Semaphore → Bool × Semaphore
await_ready s = (is_positive s.counter, taken s)

unfoldable pub await_suspend : Ptr → Semaphore → Semaphore
await_suspend a s = record s { next = set_next s.next a s.awaiting; awaiting = a }

-- The awaiter to resume, if there is one.
unfoldable pub try_release : ℕ → Semaphore → Option (Option Ptr × Semaphore)
try_release fuel s =
    if not (s.to_resume == 0)
    then some (some s.to_resume, record s { to_resume = s.next s.to_resume })
    else if s.awaiting == 0
    then some (none, record s { awaiting = 0 })
    else elim (reverse_loop fuel s.next s.awaiting s.to_resume) [
      | none ↦ none
      | some (next, resume_head) ↦
          some
            (some resume_head, record s { awaiting = 0; next = next; to_resume = next resume_head })
    ]

-- `do { try_release()->co_spawn(); } while (++update < 0);`, which runs once more for each of
-- `more`. The result lists the awaiters whose `co_spawn` is called.
unfoldable pub wake : ℕ → (more : ℕ) → Semaphore → Option (Result (List Ptr × Semaphore))
wake fuel zero s = elim (try_release fuel s) [
  | none ↦ none
  | some (none, s') ↦ some (fault null_access)
  | some (some a, s') ↦ some (ok (a ∷ [], s'))
]
wake fuel (suc more) s = elim (try_release fuel s) [
  | none ↦ none
  | some (none, s') ↦ some (fault null_access)
  | some (some a, s') ↦ elim (wake fuel more s') [
    | none ↦ none
    | some (fault e) ↦ some (fault e)
    | some (ok (awoken, s'')) ↦ some (ok (a ∷ awoken, s''))
  ]
]

-- `update` is not negative. After `update = std::max(old_counter, -update)` the loop runs for the
-- smaller of the two distances from 0, and at least once.
unfoldable pub release : ℕ → (update : ℕ) → Semaphore → Option (Result (List Ptr × Semaphore))
release fuel update s =
    let old_counter = s.counter in
    let added = record s { counter = word_add (2 ^ 64) old_counter update } in
    if not (is_negative old_counter)
    then some (ok ([], added))
    else wake fuel (min (2 ^ 64 - old_counter) update - 1) added
