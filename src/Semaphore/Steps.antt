-- ===== src/Semaphore/Steps.antt =====
-- include/co_context/co/semaphore.hpp and lib/co_context/co/semaphore.cpp: the atomic steps of any
-- number of coroutines that acquire and of any number of threads that release. A coroutine is named
-- by the address of its awaiter. `notifier_mtx` is held for a whole loop of `release`; the part of
-- the lists that it guards is touched by its holder alone, so `try_release` is one step.
pub mod Numbers
pub mod Invariant
pub mod Moves
pub mod Acquiring
pub mod Releasing
pub mod Safety
mod Tests
use co_context.Prelude.{
  ℕ, suc, ◌+◌, ◌-◌, ◌^◌, ◌≤◌, ◌≡◌, ◌≢◌, min, Option, none, some, Bool, true, false, List, [], ◌∷◌,
  ◌++◌, ◌==◌, if◌then◌else◌, word_add,
}
use co_context.Prelude.Names.{update}
use co_context.Awaiters.{Ptr, Links, set_next}
use co_context.Semaphore.{
  Semaphore, new_semaphore, is_negative, is_positive, taken, await_ready, try_release,
}

-- Where a coroutine stands, with the local variables that are live there.
pub data Pc : Type 0 where
  idle : Pc
  registering : Pc  -- `await_ready` was false
  trying : (old_head : Ptr) → Pc  -- in the loop of `await_suspend`
  linked : (old_head : Ptr) → Pc  -- `this->next` is set, before the compare-exchange
  suspended : Pc
  seen : (old_counter : ℕ) → Pc  -- `try_acquire`, after the load
  goes_on : Pc  -- has what it acquired

-- `pending` has, for each call of `release` that found the counter below 0 and waits for
-- `notifier_mtx`, how many awaiters it has to wake, and `notifying` the same for the holder of the
-- mutex. `faulted` says that a release has called `co_spawn` on a null pointer. The three fields before
-- it count: permits given, at first or by a release; acquisitions begun,
-- or made by `try_acquire`; and those among them that got through.
pub record System : Type 0 where
  pub sem : Semaphore
  pub pc : Ptr → Pc
  pub pending : List ℕ
  pub notifying : Option ℕ
  pub permits : ℕ
  pub acquired : ℕ
  pub passed : ℕ
  pub faulted : Bool

-- How many awaiters `release(update)` wakes: `update = std::max(old_counter, -update)`, and the loop
-- runs up to 0.
abbrev pub owed : (old_counter update : ℕ) → ℕ
owed old_counter update = min (2 ^ 64 - old_counter) update

-- After a wake the loop goes on, or the mutex is unlocked.
abbrev pub left : ℕ → Option ℕ
left o = if o == 0 then none else some o

-- The steps that acquire. A weak compare-exchange may fail although the values agree.
pub data Acquire (s : System) (a : Ptr) : Pc → System → Type 0 where
  goes_through :
      {m : Semaphore}
      → await_ready s.sem ≡ (true, m)
      → Acquire s a idle (record s {
        sem = m;
        pc = update s.pc a goes_on;
        acquired = suc s.acquired;
        passed = suc s.passed;
      })
  has_to_wait :
      {m : Semaphore}
      → a ≢ 0
      → await_ready s.sem ≡ (false, m)
      → Acquire s a idle
          (record s { sem = m; pc = update s.pc a registering; acquired = suc s.acquired })
  load : Acquire s a registering (record s { pc = update s.pc a (trying s.sem.awaiting) })
  link :
      {old : Ptr}
      → Acquire s a (trying old) (record s {
        sem = record s.sem { next = set_next s.sem.next a old };
        pc = update s.pc a (linked old);
      })
  push :
      {old : Ptr}
      → s.sem.awaiting ≡ old
      → Acquire s a
          (linked old)
          (record s { sem = record s.sem { awaiting = a }; pc = update s.pc a suspended })
  push_fails :
      {old : Ptr}
      → Acquire s a (linked old) (record s { pc = update s.pc a (trying s.sem.awaiting) })
  try_load : Acquire s a idle (record s { pc = update s.pc a (seen s.sem.counter) })
  try_refuses :
      {old : ℕ}
      → is_positive old ≡ false
      → Acquire s a (seen old) (record s { pc = update s.pc a idle })
  try_exchange :
      {old : ℕ}
      → s.sem.counter ≡ old
      → is_positive old ≡ true
      → Acquire s a (seen old) (record s {
        sem = taken s.sem;
        pc = update s.pc a goes_on;
        acquired = suc s.acquired;
        passed = suc s.passed;
      })
  try_fails :
      {old : ℕ}
      → s.sem.counter ≢ old
      → Acquire s a (seen old) (record s { pc = update s.pc a idle })
  leave : Acquire s a goes_on (record s { pc = update s.pc a idle })

-- `counter.fetch_add(update)`, and the test of its result.
abbrev pub added : System → ℕ → System
added s update = record s {
  sem = record s.sem { counter = word_add (2 ^ 64) s.sem.counter update };
  pending = if is_negative s.sem.counter then owed s.sem.counter update ∷ s.pending else s.pending;
  permits = s.permits + update;
}

pub data Step (s : System) : System → Type 0 where
  acquires : (a : Ptr) {t : System} → Acquire s a (s.pc a) t → Step s t
  -- A release of at least 1; `Faults` has what a release of nothing does.
  adds : (update : ℕ) → 1 ≤ update → Step s (added s update)
  locks :
      (xs : List ℕ) (o : ℕ) (ys : List ℕ)
      → s.pending ≡ xs ++ o ∷ ys
      → s.notifying ≡ none
      → Step s (record s { pending = xs ++ ys; notifying = some o })
  wakes :
      (fuel o : ℕ) (a : Ptr) {m : Semaphore}
      → s.notifying ≡ some (suc o)
      → try_release fuel s.sem ≡ some (some a, m)
      → Step s (record s {
        sem = m;
        pc = update s.pc a goes_on;
        notifying = left o;
        passed = suc s.passed;
      })
  -- `try_release` gives nullptr, whose `co_spawn` is called: the release does not get further.
  meets_null :
      (fuel o : ℕ) {m : Semaphore}
      → s.notifying ≡ some (suc o)
      → try_release fuel s.sem ≡ some (none, m)
      → Step s (record s { sem = m; faulted = true })

-- `counting_semaphore(desired)`
abbrev pub start : ℕ → Links → System
start desired next = record {
  sem = new_semaphore desired next;
  pc = λ a. idle;
  pending = [];
  notifying = none;
  permits = desired;
  acquired = 0;
  passed = 0;
  faulted = false;
}

-- A run, which a fault ends.
pub data Reach (desired : ℕ) (next : Links) : System → Type 0 where
  here : Reach desired next (start desired next)
  later :
      {s t : System} → Reach desired next s → s.faulted ≡ false → Step s t → Reach desired next t
