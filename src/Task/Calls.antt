-- ===== src/Task/Calls.antt =====
-- Coroutines that call each other as functions do: each task is awaited where it is made, and
-- destroyed after its result is read.
pub mod Steps
pub mod Frames
pub mod Runs
use mathlib.Core.Path.{subst}
use native.Mathlib.Decide.{ℕ_discrete}
use co_context.Prelude.{
  ℕ, zero, suc, ◌+◌, ◌≤◌, ◌<◌, ◌≡◌, ◌≢◌, refl, sym, ap, ◌∙◌, Option, none, some, Bool, true, false,
  ◌==◌, if◌then◌else◌, ◌⊎◌, inl, inr, arith,
}
use co_context.Prelude.Result.{Result, ok, fault}
use co_context.Awaiters.{Ptr}
use co_context.Task.Promise.{
  Outcome, returned, finished, rethrown, Promise, Kind, value_task, void_task, reference_task,
  of_value, of_void, of_reference, exception, has_exception, exception_ptr, new_promise,
  return_value, result,
}
use co_context.Task.Machine.{
  Body, co_return, throw, create, co_await, destroy, Point, initial, running, awaits, done, Frame,
  Heap, noop_coroutine, put, Control, transfer, escapes, new_task, destroy_task, await_ready,
  await_suspend, await_resume, ended, complete, execute, continue, resume, run,
}

-- A program of functions that return a value or throw, and go on with what their callees gave.
pub data Program (A E : Type 0) : Type 0 where
  gives : A → Program A E
  raises : E → Program A E
  calls : Kind → Program A E → (Outcome A E → Program A E) → Program A E

abbrev pub outcome : {A E : Type 0} → Kind → A ⊎ E → Outcome A E
outcome kind (inr e) = rethrown e
outcome value_task (inl a) = returned a
outcome void_task (inl a) = finished
outcome reference_task (inl a) = returned a

-- What a function gives.
abbrev pub meaning : {A E : Type 0} → Program A E → A ⊎ E
meaning (gives a) = inl a
meaning (raises e) = inr e
meaning (calls kind p k) = meaning (k (outcome kind (meaning p)))

-- A function of `task<T>` that ends with an exception is undefined.
abbrev pub CanEnd : {A E : Type 0} → Kind → A ⊎ E → Type 0
CanEnd value_task (inr e) = ⊥
CanEnd _ _ = Unit {0}

-- No function that the program calls as a `task<T>` ends with an exception.
abbrev pub IsSafe : {A E : Type 0} → Program A E → Type 0
IsSafe (gives a) = Unit {0}
IsSafe (raises e) = Unit {0}
IsSafe (calls kind p k) = IsSafe p × CanEnd kind (meaning p) × IsSafe (k (outcome kind (meaning p)))

-- `co_await callee()`: the task is made, awaited and destroyed.
abbrev pub awaited_call : {A E : Type 0} → Kind → Body A E → (Outcome A E → Body A E) → Body A E
awaited_call kind callee k = create kind callee (λ t. co_await t (λ o. destroy t (k o)))

-- The function as a coroutine.
abbrev pub coroutine : {A E : Type 0} → Program A E → Body A E
coroutine (gives a) = co_return a
coroutine (raises e) = throw e
coroutine (calls kind p k) = awaited_call kind (coroutine p) (λ o. coroutine (k o))

module _ {A E : Type 0} where
  -- No frame was made at an address above `top`, which is above the addresses with a meaning.
  abbrev pub IsFresh : Heap A E → Type 0
  IsFresh s = (2 ≤ s.top) × ((a : Ptr) → s.top ≤ a → s.frames a ≡ none)

  -- Two heaps with the same frames, the second after more calls.
  abbrev pub Same : Heap A E → Heap A E → Type 0
  Same s t = ((a : Ptr) → t.frames a ≡ s.frames a) × (s.top ≤ t.top)

  -- From this body of `h` on, control reaches the end of the body with this value or exception, and
  -- every frame made on the way is destroyed.
  abbrev pub Reaches : Ptr → Body A E → A ⊎ E → Heap A E → Type 0
  Reaches h body r s =
      (n : ℕ) × (t : Heap A E) × ((fuel m : ℕ)
        → fuel ≡ n + m
        → run fuel (execute h body s) ≡ run m (complete h r t))
      × Same s t
