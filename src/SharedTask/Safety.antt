-- ===== src/SharedTask/Safety.antt =====
-- What the invariant says about every reachable state of a shared task.
use mathlib.Core.Path.{subst}
use co_context.Prelude.{ℕ, ◌≡◌, ◌≢◌, refl, List, ◌==◌, if◌then◌else◌, arith, All, Listed}
use co_context.Awaiters.{Ptr, Links, Chain-cons}
use co_context.SharedTask.{
  value_ready, not_started, Pc, suspended, goes_on, gone, leave, Task, unstarted, running, waking,
  spawned, finished, read_freed, System, update, Step, moves, spawns, reads_freed, Reach, later,
}
use co_context.SharedTask.Invariant.{Waits, Heads}
use co_context.SharedTask.Preserved.{Reach-Inv, at_task, at_pc}

starts_of_Heads :
    (t : Task) (w n : ℕ) (next : Links) (pc : Ptr → Pc) (xs : List Ptr)
    → Heads t w n next pc xs
    → n ≡ (if w == not_started then 0 else 1)
starts_of_Heads unstarted w n next pc xs h = ground (arith, h.0, h.1)
starts_of_Heads running w n next pc xs h = ground (arith, h.0, h.1)
starts_of_Heads (waking p) w n next pc xs h = ground (arith, h.0, h.1)
starts_of_Heads (spawned p) w n next pc xs h = ground (arith, h.0, h.1)
starts_of_Heads finished w n next pc xs h = ground (arith, h.0, h.1)
starts_of_Heads read_freed w n next pc xs h = ground (arith, h.0, h.1)

-- However many coroutines await a shared task, `coroutine.resume()` was called once if the word is
-- no longer `not_started_value`, and never before.
pub starts_once :
    {next : Links} {s : System}
    → Reach next s
    → s.starts ≡ (if s.waiters == not_started then 0 else 1)
starts_once {next} {s} r =
    let v = Reach-Inv r in starts_of_Heads s.task s.waiters s.starts s.next s.pc v.waiting v.heads

-- In every reachable state a coroutine that went on after its `co_await`, whether it suspended or
-- not, finds the word at `value_ready_value`.
pub goes_on_when_ready :
    {next : Links} {s : System} (a : Ptr)
    → Reach next s
    → s.pc a ≡ goes_on
    → s.waiters ≡ value_ready
goes_on_when_ready a r e = at_pc (Reach-Inv r) a goes_on e

-- When `final_awaiter::await_suspend` has run its loop to the end, no coroutine is left suspended on
-- the task, in no interleaving of the compare-exchanges.
pub finished_leaves_none :
    {next : Links} {s : System} (a : Ptr) → Reach next s → s.task ≡ finished → s.pc a ≢ suspended
finished_leaves_none a r e z =
    let v = Reach-Inv r in
    let h = at_task v finished e in subst (Listed a) h.2 (at_pc v a suspended z)

pub waking-Waits :
    {next : Links} {s : System} {p : Ptr} → Reach next s → s.task ≡ waking p → Waits s.pc p
waking-Waits {next} {s} {p} r e =
    let v = Reach-Inv r in
    let h = at_task v (waking p) e in
    let (rest, split) = Chain-cons s.next p v.waiting h.2 h.3 in
    (subst (All (Waits s.pc)) split v.waits).0

-- Whatever waiter `final_awaiter` is about to pass to `co_spawn_auto`, its coroutine is suspended: no
-- coroutine is resumed twice or resumed while it runs.
pub resumes_suspended :
    {next : Links} {s : System} {p : Ptr} → Reach next s → s.task ≡ waking p → s.pc p ≡ suspended
resumes_suspended r e = (waking-Waits r e).0

-- In every reachable state in which `final_awaiter` is about to pass a waiter to `co_spawn_auto`,
-- further steps lead to a reachable state in which that waiter is destroyed and the loop has read its
-- `m_next`.
pub reads_destroyed :
    {next : Links} {s : System} {p : Ptr}
    → Reach next s
    → s.task ≡ waking p
    → (t : System) × Reach next t × (t.task ≡ read_freed)
reads_destroyed {next} {s} {p} r e =
    let mid : System = record s { task = spawned p; pc = update s.pc p goes_on } in
    let now : mid.pc p ≡ goes_on = ground arith in
    let step : Step mid (record mid { pc = update mid.pc p gone }) =
      moves p (λ z. cc) (waking-Waits r e).1 (rw now leave) in
    (
      record mid { pc = update mid.pc p gone; task = read_freed },
      later (later (later r (spawns e)) step) (reads_freed refl (ground arith)),
      refl,
    )
