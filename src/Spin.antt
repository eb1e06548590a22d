-- ===== src/Spin.antt =====
-- include/co_context/detail/spinlock.hpp and lib/co_context/co/spin_mutex.cpp: locks of one atomic
-- flag, as the atomic steps of any number of users. The two differ only in what a user does between
-- two loads in the inner loop of `lock`: a thread pauses, a coroutine yields.
pub mod Exclusion
mod Tests
use co_context.Prelude.{ℕ, Bool, true, false, ◌≡◌, ◌==◌, if◌then◌else◌}

-- Where a user stands.
pub data Pc : Type 0 where
  idle : Pc
  locking : Pc  -- at the top of the loop of `lock`
  waiting : Pc  -- in the inner loop of `lock`
  trying : Pc  -- in `try_lock`, after a load that was false
  holding : Pc

-- An atomic access of one user, from the flag and its place to those after it.
pub data Access : (occupied : Bool) → Pc → Bool → Pc → Type 0 where
  lock : {o : Bool} → Access o idle o locking
  exchanged : Access false locking true holding
  exchange_fails : Access true locking true waiting
  still_occupied : Access true waiting true waiting
  seen_free : Access false waiting false locking
  try_load : Access false idle false trying
  try_load_fails : Access true idle true idle
  try_exchanged : Access false trying true holding
  try_exchange_fails : Access true trying true idle
  unlock : {o : Bool} → Access o holding false idle

pub record System : Type 0 where
  pub occupied : Bool
  pub pc : ℕ → Pc

abbrev pub update : (ℕ → Pc) → ℕ → Pc → ℕ → Pc
update pc a p b = if b == a then p else pc b

pub data Reach : System → Type 0 where
  here : Reach (record { occupied = false; pc = λ a. idle })
  later :
      {s : System} {o : Bool} {p : Pc} (a : ℕ)
      → Reach s
      → Access s.occupied (s.pc a) o p
      → Reach (record { occupied = o; pc = update s.pc a p })
