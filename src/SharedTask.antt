-- ===== src/SharedTask.antt =====
-- include/co_context/shared_task.hpp: the promise of a shared task, as the atomic steps of the
-- coroutine itself and of any number of coroutines that await it. An awaiting coroutine is named by
-- the address of its `shared_task_waiter`. Exceptions and values are left out.
pub mod Invariant
pub mod Preserved
pub mod Safety
pub mod Wake
pub mod Refs
mod Tests
use co_context.Prelude.{ℕ, suc, ◌≤◌, ◌≡◌, ◌≢◌, ◌==◌, if◌then◌else◌}
use co_context.Awaiters.{Ptr, Links, set_next}

-- `started_no_waiters_value` is nullptr. The two others are addresses inside the promise, which no
-- waiter has.
abbrev pub started_no_waiters : ℕ
started_no_waiters = 0

abbrev pub value_ready : ℕ
value_ready = 1

abbrev pub not_started : ℕ
not_started = 2

-- Where an awaiting coroutine stands, with the local variables that are live there.
pub data Pc : Type 0 where
  idle : Pc
  checked : Pc  -- `await_ready` was false
  loaded : (old_waiters : ℕ) → Pc  -- `try_await`, before the test for the start
  starting : Pc  -- in `coroutine.resume()`
  trying : (old_waiters : ℕ) → Pc  -- at the top of the loop
  linked : (old_waiters : ℕ) → Pc  -- `m_next` is set, before the compare-exchange
  suspended : Pc
  goes_on : Pc  -- not suspended, or spawned after it was
  gone : Pc  -- the awaitable, which holds the waiter, is destroyed

-- Where the shared coroutine stands.
pub data Task : Type 0 where
  unstarted : Task
  running : Task
  waking : (waiter : Ptr) → Task  -- `final_awaiter`, before `co_spawn_auto`
  spawned : (waiter : Ptr) → Task  -- before `waiter = waiter->m_next`
  finished : Task
  read_freed : Task  -- it has read `waiter->m_next` of a waiter that was destroyed

-- `starts` counts the calls of `coroutine.resume()`.
pub record System : Type 0 where
  pub waiters : ℕ
  pub next : Links
  pub task : Task
  pub pc : Ptr → Pc
  pub starts : ℕ

abbrev pub update : (Ptr → Pc) → Ptr → Pc → Ptr → Pc
update pc a p b = if b == a then p else pc b

-- The loop of `final_awaiter` at this waiter, or at its end.
abbrev pub at_waiter : Ptr → Task
at_waiter p = if p == 0 then finished else waking p

-- A step of the coroutine at `a` that leaves the word and the task alone.
pub data Local (a : Ptr) (w : ℕ) (next : Links) : Pc → Links → Pc → Type 0 where
  is_ready : w ≡ value_ready → Local a w next idle next goes_on
  is_not_ready : w ≢ value_ready → Local a w next idle next checked
  load : Local a w next checked next (loaded w)
  start_fails :
      {old : ℕ} → old ≡ not_started → w ≢ old → Local a w next (loaded old) next (trying w)
  started_before : {old : ℕ} → old ≢ not_started → Local a w next (loaded old) next (trying old)
  resume_returns : Local a w next starting next (trying w)
  already_completed : {old : ℕ} → old ≡ value_ready → Local a w next (trying old) next goes_on
  link :
      {old : ℕ} → old ≢ value_ready → Local a w next (trying old) (set_next next a old) (linked old)
  push_fails : {old : ℕ} → Local a w next (linked old) next (trying w)
  leave : Local a w next goes_on next gone

-- A read of the link of a waiter that is destroyed is undefined, and ends the run: nobody moves after
-- it.
pub data Step (s : System) : System → Type 0 where
  moves :
      (a : Ptr) {next : Links} {p : Pc}
      → s.task ≢ read_freed
      → 3 ≤ a
      → Local a s.waiters s.next (s.pc a) next p
      → Step s (record s { next = next; pc = update s.pc a p })
  -- The compare-exchange of the first waiter, and `coroutine.resume()`.
  starts :
      (a : Ptr)
      → s.pc a ≡ loaded not_started
      → s.waiters ≡ not_started
      → Step s (record s {
        waiters = started_no_waiters;
        task = running;
        pc = update s.pc a starting;
        starts = suc s.starts;
      })
  pushes :
      (a : Ptr) {old : ℕ}
      → 3 ≤ a
      → s.pc a ≡ linked old
      → s.waiters ≡ old
      → Step s (record s { waiters = a; pc = update s.pc a suspended })
  -- `final_awaiter::await_suspend` up to the loop.
  finishes :
      s.task ≡ running → Step s (record s { waiters = value_ready; task = at_waiter s.waiters })
  spawns :
      {p : Ptr}
      → s.task ≡ waking p
      → Step s (record s { task = spawned p; pc = update s.pc p goes_on })
  advances :
      {p : Ptr}
      → s.task ≡ spawned p
      → s.pc p ≢ gone
      → Step s (record s { task = at_waiter (s.next p) })
  reads_freed :
      {p : Ptr} → s.task ≡ spawned p → s.pc p ≡ gone → Step s (record s { task = read_freed })

-- `shared_task_promise_base()`
abbrev pub start : Links → System
start next = record {
  waiters = not_started;
  next = next;
  task = unstarted;
  pc = λ a. idle;
  starts = 0;
}

pub data Reach (next : Links) : System → Type 0 where
  here : Reach next (start next)
  later : {s t : System} → Reach next s → Step s t → Reach next t
