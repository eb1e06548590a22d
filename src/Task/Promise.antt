-- ===== src/Task/Promise.antt =====
-- include/co_context/task.hpp: the promises of `task<T>`, `task<void>` and `task<T &>`. The values
-- and exceptions are of any types; a reference is the address of an object, which is a value too.
use co_context.Prelude.{ℕ, ◌-◌, ◌^◌, Option, none, some, Bool, true, false, ◌==◌, if◌then◌else◌}
use co_context.Prelude.Result.{
  Result, ok, fault, assertion_failed, null_access, undefined_behaviour,
}

-- What awaiting a task gives.
pub data Outcome (A E : Type 0) : Type 0 where
  returned : A → Outcome A E
  finished : Outcome A E  -- of `task<void>`
  rethrown : E → Outcome A E

pub data ValueState : Type 0 where
  mono value exception : ValueState

-- The union of a value and an exception.
pub data Storage (A E : Type 0) : Type 0 where
  raw : Storage A E
  has_value : A → Storage A E
  has_exception : E → Storage A E

-- The union of a flag and an exception: a word, or the pointer to an exception. The word 0 is the
-- null pointer too, and no exception lies at the address `is_detached`.
pub data FlagOrException (E : Type 0) : Type 0 where
  flag : ℕ → FlagOrException E
  exception_ptr : E → FlagOrException E

pub data Promise (A E : Type 0) : Type 0 where
  of_value : (state : ValueState) (storage : Storage A E) → Promise A E
  of_void : (word : FlagOrException E) → Promise A E
  of_reference : (pointer : Option A) (thrown : Option E) → Promise A E

-- The three templates.
pub data Kind : Type 0 where
  value_task void_task reference_task : Kind

abbrev pub is_detached : ℕ
is_detached = 2 ^ 64 - 1

abbrev pub new_promise : {A E : Type 0} → Kind → Promise A E
new_promise value_task = of_value mono raw
new_promise void_task = of_void (flag 0)
new_promise reference_task = of_reference none none

-- `return_value(result)`, or `return_void()`, which has no value.
abbrev pub return_value : {A E : Type 0} → A → Promise A E → Promise A E
return_value a (of_value state storage) = of_value value (has_value a)
return_value a (of_void word) = of_void word
return_value a (of_reference pointer thrown) = of_reference (some a) thrown

-- Whether the flag of a `task<void>` is set.
abbrev pub has_detached_flag : {A E : Type 0} → Promise A E → Bool
has_detached_flag (of_void (flag w)) = w == is_detached
has_detached_flag _ = false

-- `unhandled_exception()`: nothing, if it throws the exception again. `task<T>` assigns to the member
-- `exception_ptr` of a union in which no exception was constructed, which is undefined; in
-- `task<void>` that member is the word 0, a null exception.
abbrev pub unhandled_exception : {A E : Type 0} → E → Promise A E → Result (Option (Promise A E))
unhandled_exception e (of_value state (has_exception old)) =
    ok (some (of_value exception (has_exception e)))
unhandled_exception e (of_value state _) = fault undefined_behaviour
unhandled_exception e (of_void (flag w)) =
    if w == is_detached then ok none else ok (some (of_void (exception_ptr e)))
unhandled_exception e (of_void (exception_ptr old)) = ok (some (of_void (exception_ptr e)))
unhandled_exception e (of_reference pointer thrown) = ok (some (of_reference pointer (some e)))

-- `result()`. To read the member of a union that it does not hold is undefined.
abbrev pub result : {A E : Type 0} → Promise A E → Result (Outcome A E)
result (of_value exception (has_exception e)) = ok (rethrown e)
result (of_value exception _) = fault undefined_behaviour
result (of_value value (has_value a)) = ok (returned a)
result (of_value value _) = fault undefined_behaviour
result (of_value mono storage) = fault assertion_failed
result (of_void (flag w)) = elim (w == 0) [ true ↦ ok finished | false ↦ fault undefined_behaviour ]
result (of_void (exception_ptr e)) = ok (rethrown e)
result (of_reference pointer (some e)) = ok (rethrown e)
result (of_reference (some a) none) = ok (returned a)
result (of_reference none none) = fault null_access

-- `is_detached_flag = is_detached`, for `task<void>` only.
abbrev pub set_detached : {A E : Type 0} → Promise A E → Promise A E
set_detached (of_void word) = of_void (flag is_detached)
set_detached promise = promise
