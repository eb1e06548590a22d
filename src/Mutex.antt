-- ===== src/Mutex.antt =====
-- include/co_context/co/mutex.hpp and lib/co_context/co/mutex.cpp: the coroutine mutex, as the
-- atomic steps of any number of coroutines. A coroutine is named by the address of its
-- `lock_awaiter`. A step holds at most one access to the atomic `awaiting`; `to_resume` and the
-- links of awaiters taken from `awaiting` are touched by the owner alone.
pub mod Queue
pub mod Invariant
pub mod Safety
pub mod Assertions
mod Tests
use co_context.Prelude.{
  ℕ, suc, ◌≤◌, ◌≡◌, ◌≢◌, Option, none, some, Bool, true, false, ◌==◌, if◌then◌else◌,
}
use co_context.Awaiters.{Ptr, Links, set_next, reverse_loop}

abbrev pub locked_no_awaiting : ℕ
locked_no_awaiting = 0

abbrev pub not_locked : ℕ
not_locked = 1

-- `awaiting` is one of the two constants above or the address of the top of a stack of awaiters.
pub record Mutex : Type 0 where
  pub awaiting : ℕ
  pub to_resume : Ptr
  pub next : Links

-- `mutex()`
abbrev pub new_mutex : Links → Mutex
new_mutex next = record { awaiting = not_locked; to_resume = 0; next = next }

-- Where a coroutine stands, with the local variables that are live there.
pub data Pc : Type 0 where
  idle : Pc
  trying : (old_state : ℕ) → Pc  -- in the loop of `register_awaiting`
  linked : (old_state : ℕ) → Pc  -- `this->next` is set, before the compare-exchange
  suspended : Pc  -- on the stack, or handed to the list to resume
  holding : Pc  -- the owner
  releasing : Pc  -- `unlock`, before the compare-exchange
  exchanging : Pc  -- `unlock`, before the exchange
  reversing : (top : Ptr) → Pc  -- `unlock`, before the loop

-- From the start of `unlock` on, and in between, the coroutine owns the mutex.
abbrev pub owns : Pc → Bool
owns holding = true
owns releasing = true
owns exchanging = true
owns (reversing top) = true
owns _ = false

-- `try_lock` and `register_awaiting` by the coroutine at `a`. A weak compare-exchange may fail
-- although the values agree; one that fails loads the value.
pub data Register (a : Ptr) (m : Mutex) : Pc → Mutex → Pc → Type 0 where
  try_lock :
      m.awaiting ≡ not_locked
      → Register a m idle (record m { awaiting = locked_no_awaiting }) holding
  try_lock_fails : m.awaiting ≢ not_locked → Register a m idle m idle
  load : Register a m idle m (trying m.awaiting)
  lock :
      {old : ℕ}
      → old ≡ not_locked
      → m.awaiting ≡ old
      → Register a m (trying old) (record m { awaiting = locked_no_awaiting }) holding
  lock_fails : {old : ℕ} → old ≡ not_locked → Register a m (trying old) m (trying m.awaiting)
  link :
      {old : ℕ}
      → old ≢ not_locked
      → Register a m (trying old) (record m { next = set_next m.next a old }) (linked old)
  push :
      {old : ℕ} → m.awaiting ≡ old → Register a m (linked old) (record m { awaiting = a }) suspended
  push_fails : {old : ℕ} → Register a m (linked old) m (trying m.awaiting)

-- `unlock`: the last argument is the awaiter whose `co_spawn` it calls, if any.
pub data Unlock (m : Mutex) : Pc → Mutex → Pc → Option Ptr → Type 0 where
  resume_next :
      m.to_resume ≢ 0
      → Unlock m holding (record m { to_resume = m.next m.to_resume }) idle (some m.to_resume)
  nothing_to_resume : m.to_resume ≡ 0 → Unlock m holding m releasing none
  release :
      m.awaiting ≡ locked_no_awaiting
      → Unlock m releasing (record m { awaiting = not_locked }) idle none
  release_fails : m.awaiting ≢ locked_no_awaiting → Unlock m releasing m exchanging none
  exchange :
      Unlock m exchanging (record m { awaiting = locked_no_awaiting }) (reversing m.awaiting) none
  resume_reversed :
      {top : Ptr} (fuel : ℕ) {next : Links} {head : Ptr}
      → reverse_loop fuel m.next top m.to_resume ≡ some (next, head)
      → Unlock m (reversing top) (record m { next = next; to_resume = next head }) idle (some head)

pub record System : Type 0 where
  pub mtx : Mutex
  pub pc : Ptr → Pc

abbrev pub update : (Ptr → Pc) → Ptr → Pc → Ptr → Pc
update pc a p b = if b == a then p else pc b

-- The coroutine of an awaiter that is spawned returns from its `co_await` as the owner.
abbrev pub wake : (Ptr → Pc) → Option Ptr → Ptr → Pc
wake pc none = pc
wake pc (some b) = update pc b holding

-- An awaiter is aligned, so its address is neither of the two constants.
pub data Step (s : System) : System → Type 0 where
  registers :
      (a : Ptr) {m : Mutex} {p : Pc}
      → 2 ≤ a
      → Register a s.mtx (s.pc a) m p
      → Step s (record { mtx = m; pc = update s.pc a p })
  unlocks :
      (a : Ptr) {m : Mutex} {p : Pc} {woken : Option Ptr}
      → Unlock s.mtx (s.pc a) m p woken
      → Step s (record { mtx = m; pc = wake (update s.pc a p) woken })

abbrev pub start : Links → System
start next = record { mtx = new_mutex next; pc = λ a. idle }

pub data Reach (next : Links) : System → Type 0 where
  here : Reach next (start next)
  later : {s t : System} → Reach next s → Step s t → Reach next t
