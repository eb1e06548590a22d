-- ===== src/Task/Tests.antt =====
-- A function that calls one that throws, and goes on with the exception.
use co_context.Prelude.{ℕ, ◌+◌, ◌≡◌, refl, none, some, ◌==◌, if◌then◌else◌, arith}
use co_context.Prelude.Result.{ok}
use co_context.Awaiters.{Ptr}
use co_context.Task.Promise.{Outcome, returned, rethrown, value_task, void_task, new_promise}
use co_context.Task.Machine.{Body, co_return, running, done, Frame, Heap, run, execute}
use co_context.Task.Calls.{
  IsSafe, Program, gives, raises, calls, meaning, outcome, coroutine, awaited_call, IsFresh, Same,
}
use co_context.Task.Calls.Runs.{call_lem}
use co_context.Task.Detached.{spawn, OnlyAt, detached_ends, detached_throws, detached_value_stays}

abbrev throws : Outcome ℕ ℕ → Program ℕ ℕ
throws (returned x) = raises (x + 4)
throws _ = raises 0

abbrev catches : Outcome ℕ ℕ → Program ℕ ℕ
catches (rethrown e) = gives e
catches _ = raises 1

abbrev inner : Program ℕ ℕ
inner = calls value_task (gives 3) throws

abbrev outer : Program ℕ ℕ
outer = calls void_task inner catches

abbrev empty : Heap ℕ ℕ
empty = record { frames = λ a. none; top = 2 }

empty-IsFresh : IsFresh empty
empty-IsFresh = (omega arith, λ a far. refl)

abbrev caller : Frame ℕ ℕ
caller = record { parent_coro = 1; promise = new_promise value_task; point = running }

abbrev one_frame : Heap ℕ ℕ
one_frame = record { frames = λ a. if a == 2 then some caller else none; top = 3 }

one_frame-IsFresh : IsFresh one_frame
one_frame-IsFresh = (omega arith, λ a far. ground arith)

abbrev ends_with_7 : Outcome ℕ ℕ → Body ℕ ℕ
ends_with_7 o = co_return 7

inner-IsSafe : IsSafe inner
inner-IsSafe = (tt, tt, tt)

outer-IsSafe : IsSafe outer
outer-IsSafe = (inner-IsSafe, tt, tt)

call_example :
    (n : ℕ) × (t : Heap ℕ ℕ) × Same one_frame t
    × ((m : ℕ)
        → run (n + m) (execute 2 (awaited_call void_task (coroutine outer) ends_with_7) one_frame)
          ≡ run m (execute 2 (ends_with_7 (outcome void_task (meaning outer))) t))
call_example =
    call_lem void_task outer ends_with_7 2 caller one_frame refl refl (omega arith) (omega arith)
      one_frame-IsFresh outer-IsSafe tt

detached_ends_example :
    (n : ℕ) × (t : Heap ℕ ℕ) × (run n (spawn void_task (coroutine outer) empty)
      ≡ some (ok (t, none)))
    × ((h : Ptr) → t.frames h ≡ empty.frames h)
detached_ends_example = detached_ends outer 7 empty outer-IsSafe refl empty-IsFresh

detached_throws_example :
    (n : ℕ) × (t : Heap ℕ ℕ) × (f : Frame ℕ ℕ) × (run n (spawn void_task (coroutine inner) empty)
      ≡ some (ok (t, some 7)))
    × (t.frames empty.top ≡ some f)
    × (f.point ≡ done)
    × OnlyAt empty.top empty t
detached_throws_example = detached_throws inner 7 empty inner-IsSafe refl empty-IsFresh

detached_value_stays_example :
    (n : ℕ) × (t : Heap ℕ ℕ) × (f : Frame ℕ ℕ) × (run n (spawn value_task (coroutine outer) empty)
      ≡ some (ok (t, none)))
    × (t.frames empty.top ≡ some f)
    × (f.point ≡ done)
detached_value_stays_example = detached_value_stays outer 7 empty outer-IsSafe refl empty-IsFresh
