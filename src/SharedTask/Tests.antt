-- ===== src/SharedTask/Tests.antt =====
-- A run in which two coroutines await a shared task that the first of them starts.
use co_context.Prelude.{◌+◌, ◌≡◌, refl, arith}
use co_context.Awaiters.{Ptr, Links}
use co_context.SharedTask.{
  is_not_ready, load, started_before, resume_returns, link, suspended, goes_on, finished, System,
  moves, starts, pushes, finishes, spawns, advances, Reach, here, later,
}
use co_context.SharedTask.Safety.{resumes_suspended}
use co_context.SharedTask.Wake.{Loop, resumes_all}
use co_context.SharedTask.Refs.{Handles, constructs, copies, destructs, move_assigns}
use co_context.SharedTask.Refs as Refs
use co_context.SharedTask.Refs.Invariant.{counted_and_destroyed}

abbrev no_links : Links
no_links a = 0

abbrev r_loaded : (s : System) × Reach no_links s
r_loaded = (
  _,
  later (later here (moves 8 (λ z. cc) (omega arith) (is_not_ready (λ e. omega (arith, e)))))
      (moves 8 (λ z. cc) (omega arith) load),
)

abbrev r_started : (s : System) × Reach no_links s
r_started = (_, later r_loaded.1 (starts 8 refl refl))

abbrev r_pushed : (s : System) × Reach no_links s
r_pushed = (
  _,
  later
      (later (later r_started.1 (moves 8 (λ z. cc) (omega arith) resume_returns))
        (moves 8 (λ z. cc) (omega arith) (link (λ e. omega (arith, e)))))
      (pushes 8 (omega arith) refl refl),
)

abbrev r_second : (s : System) × Reach no_links s
r_second = (
  _,
  later
      (later
        (later
          (later
            (later r_pushed.1
              (moves 16 (λ z. cc) (omega arith) (is_not_ready (λ e. omega (arith, e)))))
            (moves 16 (λ z. cc) (omega arith) load))
          (moves 16 (λ z. cc) (omega arith) (started_before (λ e. omega (arith, e)))))
        (moves 16 (λ z. cc) (omega arith) (link (λ e. omega (arith, e)))))
      (pushes 16 (omega arith) refl refl),
)

abbrev r_finishing : (s : System) × Reach no_links s
r_finishing = (_, later r_second.1 (finishes refl))

abbrev r_spawned : (s : System) × Reach no_links s
r_spawned = (_, later r_finishing.1 (spawns refl))

abbrev r_finished : (s : System) × Reach no_links s
r_finished = (
  _,
  later (later (later r_spawned.1 (advances refl (λ z. cc))) (spawns refl))
      (advances refl (λ z. cc)),
)

resumes_suspended_example : r_finishing.0.pc 16 ≡ suspended
resumes_suspended_example = resumes_suspended r_finishing.1 refl

resumes_all_example :
    (t : System) × Loop r_finishing.0 t
    × Reach no_links t
    × (t.task ≡ finished)
    × ((a : Ptr) → r_finishing.0.pc a ≡ suspended → t.pc a ≡ goes_on)
resumes_all_example = resumes_all r_finishing.1 refl tt

-- Two objects of the frame at 64, of which the first is destroyed.
abbrev two_objects : (s : Handles) × Refs.Reach s
two_objects = (
  _,
  Refs.later
      (Refs.later (Refs.later Refs.here (constructs 64 (λ e. omega (arith, e)) refl)) (copies 0))
      (destructs 0 (omega arith)),
)

counted_and_destroyed_example :
    (two_objects.0.frames.ref_count 64 ≡ 1)
    × (two_objects.0.frames.destroyed 64 + 1 ≡ two_objects.0.frames.made 64)
counted_and_destroyed_example =
    counted_and_destroyed 64 two_objects.1 (omega arith) (λ e. omega (arith, e))
