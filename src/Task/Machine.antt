-- ===== src/Task/Machine.antt =====
-- include/co_context/task.hpp: the frames of tasks, and the transfers of control from one to the
-- next: a body runs until it is suspended, and then names the coroutine that goes on.
use co_context.Prelude.{
  ℕ, zero, suc, Option, none, some, Bool, true, false, ◌==◌, if◌then◌else◌, ◌⊎◌, inl, inr,
}
use co_context.Prelude.Result.{◌>>=◌, Result, ok, fault, assertion_failed, undefined_behaviour}
use co_context.Awaiters.{Ptr}
use co_context.Task.Promise.{
  Outcome, Promise, Kind, value_task, void_task, reference_task, new_promise, return_value,
  has_detached_flag, unhandled_exception, result, set_detached,
}

-- What the body of a coroutine does with tasks. `co_await` ends the program's use of the result at
-- once; `destroy` is the end of a task object, and `detach` is its method.
pub data Body (A E : Type 0) : Type 0 where
  co_return : A → Body A E
  throw : E → Body A E
  create : Kind → Body A E → (Ptr → Body A E) → Body A E
  co_await : Ptr → (Outcome A E → Body A E) → Body A E
  when_ready : Ptr → Body A E → Body A E
  destroy : Ptr → Body A E → Body A E
  detach : Kind → Ptr → Body A E → Body A E

-- Where a coroutine stands.
pub data Point (A E : Type 0) : Type 0 where
  initial : Body A E → Point A E
  running : Point A E
  awaits : Ptr → (Outcome A E → Body A E) → Point A E
  awaits_ready : Ptr → Body A E → Point A E
  done : Point A E

pub record Frame (A E : Type 0) : Type 0 where
  pub parent_coro : Ptr
  pub promise : Promise A E
  pub point : Point A E

-- The frames that exist, and an address from which on no frame was ever made.
pub record Heap (A E : Type 0) : Type 0 where
  pub frames : Ptr → Option (Frame A E)
  pub top : Ptr

-- `std::noop_coroutine()`, at an address that no frame has.
abbrev pub noop_coroutine : Ptr
noop_coroutine = 1

abbrev pub put : {A E : Type 0} → Ptr → Option (Frame A E) → Heap A E → Heap A E
put h o s = record s { frames = λ a. if a == h then o else s.frames a }

-- The frame at `h`, which must exist.
abbrev pub existing : {A E : Type 0} → Option (Frame A E) → Result (Frame A E)
existing none = fault undefined_behaviour
existing (some f) = ok f

abbrev pub frame_at : {A E : Type 0} → Ptr → Heap A E → Result (Frame A E)
frame_at h s = existing (s.frames h)

-- Who goes on: a coroutine, or whoever resumed the last one, with an exception.
pub data Control (E : Type 0) : Type 0 where
  transfer : Ptr → Control E
  escapes : E → Control E

-- The call of a coroutine: a frame that is suspended at its start, and the task that holds it.
unfoldable pub new_task : {A E : Type 0} → Kind → Body A E → Heap A E → Heap A E
new_task kind body s =
    record (put s.top
      (some
        (record { parent_coro = noop_coroutine; promise = new_promise kind; point = initial body }))
      s) { top = suc s.top }

-- `~task()`
unfoldable pub destroy_task : {A E : Type 0} → Ptr → Heap A E → Result (Heap A E)
destroy_task h s = if h == 0 then ok s else frame_at h s >>= (λ f. ok (put h none s))

-- `detach()`: for `task<void>` it writes the flag through the handle.
unfoldable pub detach_task : {A E : Type 0} → Kind → Ptr → Heap A E → Result (Heap A E)
detach_task value_task h s = ok s
detach_task reference_task h s = ok s
detach_task void_task h s =
    frame_at h s >>= (λ f. ok (put h (some (record f { promise = set_detached f.promise })) s))

abbrev pub is_done : {A E : Type 0} → Point A E → Bool
is_done done = true
is_done _ = false

-- `awaiter_base::await_ready()`
unfoldable pub await_ready : {A E : Type 0} → Ptr → Heap A E → Result Bool
await_ready h s = if h == 0 then ok true else frame_at h s >>= (λ f. ok (is_done f.point))

-- `awaiter_base::await_suspend(awaiting_coro)`, after the awaiting coroutine is suspended.
unfoldable pub await_suspend :
    {A E : Type 0}
    → Ptr
    → (awaiting_coro : Ptr) → Point A E
    → Heap A E
    → Result (Heap A E × Control E)
await_suspend h awaiting_coro point s = frame_at awaiting_coro s >>= (λ f.
    let s' = put awaiting_coro (some (record f { point = point })) s in
    frame_at h s'
    >>= (λ g. ok (put h (some (record g { parent_coro = awaiting_coro })) s', transfer h)))

-- `await_resume()`
unfoldable pub await_resume : {A E : Type 0} → Ptr → Heap A E → Result (Outcome A E)
await_resume h s =
    if h == 0 then fault assertion_failed else frame_at h s >>= (λ f. result f.promise)

abbrev pub ended : {A E : Type 0} → Frame A E → Promise A E → Frame A E
ended f promise = record f { promise = promise; point = done }

-- The final awaiter: the parent goes on, and the frame of a detached task is destroyed.
abbrev pub final_suspend :
    {A E : Type 0} → Ptr → Frame A E → Promise A E → Heap A E → Heap A E × Control E
final_suspend h f promise s = (
  put h (if has_detached_flag promise then none else some (ended f promise)) s,
  transfer f.parent_coro,
)

abbrev pub thrown :
    {A E : Type 0} → Ptr → E → Frame A E → Option (Promise A E) → Heap A E → Heap A E × Control E
thrown h e f (some promise) s = final_suspend h f promise s
thrown h e f none s = (put h (some (record f { point = done })) s, escapes e)

-- The end of the body of `h`, with a value or an exception.
unfoldable pub complete : {A E : Type 0} → Ptr → A ⊎ E → Heap A E → Result (Heap A E × Control E)
complete h (inl a) s = frame_at h s >>= (λ f. ok (final_suspend h f (return_value a f.promise) s))
complete h (inr e) s =
    frame_at h s
    >>= (λ f. unhandled_exception e f.promise >>= (λ promise. ok (thrown h e f promise s)))

-- The coroutine at `h` runs its body until it is suspended.
unfoldable pub execute : {A E : Type 0} → Ptr → Body A E → Heap A E → Result (Heap A E × Control E)
execute h (co_return a) s = complete h (inl a) s
execute h (throw e) s = complete h (inr e) s
execute h (create kind body k) s = execute h (k s.top) (new_task kind body s)
execute h (co_await t k) s = await_ready t s >>= (λ ready.
    if ready
    then (await_resume t s >>= (λ o. execute h (k o) s))
    else await_suspend t h (awaits t k) s)
execute h (when_ready t k) s =
    await_ready t s
    >>= (λ ready. if ready then execute h k s else await_suspend t h (awaits_ready t k) s)
execute h (destroy t k) s = destroy_task t s >>= (λ s'. execute h k s')
execute h (detach kind t k) s = detach_task kind t s >>= (λ s'. execute h k s')

-- A coroutine goes on from where it stands.
unfoldable pub continue :
    {A E : Type 0} → Ptr → Point A E → Heap A E → Result (Heap A E × Control E)
continue h (initial body) s = execute h body s
continue h (awaits t k) s = await_resume t s >>= (λ o. execute h (k o) s)
continue h (awaits_ready t k) s = execute h k s
continue h running s = fault undefined_behaviour
continue h done s = fault undefined_behaviour

unfoldable pub resume : {A E : Type 0} → Ptr → Heap A E → Result (Heap A E × Control E)
resume h s =
    frame_at h s >>= (λ f. continue h f.point (put h (some (record f { point = running })) s))

-- Transfers, one after the other, until the coroutine that does nothing; `none` means that the fuel
-- ran out. An exception that escapes reaches whoever called `resume()`.
unfoldable pub run :
    {A E : Type 0} → ℕ → Result (Heap A E × Control E) → Option (Result (Heap A E × Option E))
run zero r = none
run (suc fuel) (fault e) = some (fault e)
run (suc fuel) (ok (s, escapes e)) = some (ok (s, some e))
run (suc fuel) (ok (s, transfer h)) =
    if h == noop_coroutine then some (ok (s, none)) else run fuel (resume h s)
