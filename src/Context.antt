-- ===== src/Context.antt =====
-- lib/co_context/io_context.cpp: the loop of an `io_context` over its worker. The section's
-- parameters are those of the worker, the calls of io_uring that enter the kernel, `resume`, which
-- runs a coroutine up to its next suspension, and the constants of the configuration.
pub mod Round
pub mod Stop
pub mod Startup
mod Tests
use co_context.Prelude.{
  ℕ, zero, suc, ◌-◌, ◌^◌, Bool, true, false, not, ◌||◌, ◌&&◌, ◌==◌, ltb, leb, if◌then◌else◌, List,
  [], ◌∷◌, Option, none, some,
}
use co_context.Prelude.Result.{Result, ok, fault, assertion_failed, ◌>>=◌, ◌>>◌, assert}
use co_context.Worker.State.{Handle, CqEntry, Uring, Worker}
use co_context.Worker.Ready.{has_task_ready, number_to_schedule, schedule}
use co_context.Worker.Completion.{listen_on_co_spawn, poll_completion}

-- The calls that enter the kernel. The Boolean of a submission says whether its result is one that
-- the worker accepts; `wait_cq_entry` returns when a completion is ready.
pub record Enter (R : Type 0) : Type 0 where
  pub submit_and_wait : (will_wait : Bool) → R → Bool × R
  pub submit_and_get_events : R → Bool × R
  pub wait_cq_entry : R → R

-- The fields of an io_context, and those of `io_context_meta` that the loop reads.
pub record Context (R : Type 0) : Type 0 where
  pub worker : Worker R
  pub will_stop : Bool
  pub create_count : ℕ
  pub ready_count : ℕ

abbrev pub no_entry : List CqEntry → Bool
no_entry [] = true
no_entry (c ∷ cs) = false

-- An int32_t, given by its bit pattern, is above 0.
abbrev pub is_positive : ℕ → Bool
is_positive n = not (n == 0) && ltb n (2 ^ 31)

module _ {R : Type 0} (io : Uring R) (enter : Enter R) (resume : Handle → Worker R → Worker R)
    (is_using_eventfd : Bool) (event_fd k submission_threshold : ℕ) where
  unfoldable pub work_once : Worker R → Result (Worker R)
  work_once w = do (coro, w') ← schedule k w; ok (resume coro w')

  -- A threshold of -1U switches the check off.
  unfoldable pub check_submission_threshold : Worker R → Result (Worker R)
  check_submission_threshold w =
      if not (submission_threshold == 2 ^ 32 - 1) && leb submission_threshold w.requests_to_submit
      then (do
        let entered = enter.submit_and_get_events w.ring
        assert (entered.0)
        ok (record w { ring = entered.1; requests_to_submit = 0 }))
      else ok w

  unfoldable pub poll_submission : Worker R → Result (Worker R)
  poll_submission w =
      if not (w.requests_to_submit == 0)
      then (do
        let will_wait = not (has_task_ready w)
        let entered = enter.submit_and_wait will_wait w.ring
        assert (entered.0)
        ok (record w { ring = entered.1; requests_to_submit = 0 }))
      else ok w

  unfoldable pub wait_uring : Worker R → Worker R
  wait_uring w = record w { ring = enter.wait_cq_entry w.ring }

  unfoldable pub peek_uring : Worker R → Bool
  peek_uring w = not (no_entry (io.ready w.ring))

  -- `for (; num > 0; --num)`
  unfoldable pub work_times : ℕ → Worker R → Result (Worker R)
  work_times zero w = ok w
  work_times (suc num) w = do
    w' ← work_once w
    w'' ← check_submission_threshold w'
    work_times num w''

  unfoldable pub do_worker_part : Worker R → Result (Worker R)
  do_worker_part w = work_times (number_to_schedule w) w

  unfoldable pub do_completion_part_bad_path : Context R → Result (Context R)
  do_completion_part_bad_path c = do
    let waited =
        if not (peek_uring c.worker)
          && (is_positive c.worker.requests_to_reap || ltb 1 c.ready_count)
        then wait_uring c.worker
        else c.worker
    (handled_num, w) ← poll_completion io is_using_eventfd event_fd k waited
    let is_not_over = not (handled_num == 0) || ltb 1 c.ready_count || not (w.requests_to_reap == 0)
    ok (record c { worker = w; will_stop = if not is_not_over then true else c.will_stop })

  unfoldable pub do_completion_part : Context R → Result (Context R)
  do_completion_part c = do
    (handled_num, w) ←
        if peek_uring c.worker
        then poll_completion io is_using_eventfd event_fd k c.worker
        else ok (0, c.worker)
    let is_fast_path = not (w.requests_to_submit == 0) || has_task_ready w || not (handled_num == 0)
    if is_fast_path
        then ok (record c { worker = w })
        else do_completion_part_bad_path (record c { worker = w })

  -- The loop of `run`; `none` when the fuel runs out first.
  unfoldable pub run_loop : ℕ → Context R → Option (Result (Context R))
  run_loop zero c = none
  run_loop (suc fuel) c =
      if c.will_stop
      then some (ok c)
      else elim (do
        w ← do_worker_part c.worker
        w' ← poll_submission w
        do_completion_part (record c { worker = w' })) [
          | fault e ↦ some (fault e)
          | ok c' ↦ run_loop fuel c'
        ]
