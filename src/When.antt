-- ===== src/When.antt =====
-- include/co_context/co/when_all.hpp and include/co_context/co/when_any.hpp: `all`, `any` and `some`,
-- which spawn one task for each of their nodes and wait until enough of them have ended. Tasks are
-- named by their position. Between two of its `co_await`s a task is one step: the atomic accesses of
-- the thread-safe variant are not interleaved.
pub mod Offset
pub mod All
pub mod Start
pub mod Any
pub mod Some
mod Tests
use co_context.Prelude.{
  ℕ, zero, suc, ◌-◌, ◌+◌, ◌^◌, ◌≡◌, List, [], ◌∷◌, Bool, true, false, ◌==◌, leb, ltb, not, Option,
  none, some, if◌then◌else◌, word_add, word_sub, set, get_or, replicate,
}
use co_context.TypeList.{count, first_n, remove, at}

-- The types are compared by `is_same`, and `void` is one of them.
module _ {A : Type 0} (is_same : A → A → Bool) (void : A) where
  -- `all_trait::buffer_offset_v`, a size_t; none where it does not compile.
  unfoldable pub buffer_offset : List A → ℕ → Option ℕ
  buffer_offset ts idx = elim (first_n ts (idx + 1)) [
    | none ↦ none
    | some l ↦ some (word_sub (2 ^ 64) idx (count is_same l void))
  ]

  abbrev pub is_void_at : List A → ℕ → Bool
  is_void_at ts idx = elim (at ts idx) [ none ↦ false | some t ↦ is_same void t ]

-- `spawned` counts the calls of `co_spawn_handle(await_handle)`. An entry of the buffer is none
-- until it is constructed.
pub record AllMeta (V : Type 0) : Type 0 where
  pub wait_num : ℕ
  pub buffer : ℕ → Option V
  pub spawned : ℕ

pub record AnyMeta (V : Type 0) : Type 0 where
  pub idx : ℕ
  pub finish_count : ℕ
  pub buffer : Option V
  pub spawned : ℕ

-- `index_value`, whose variant starts with std::monostate.
pub record IndexValue (V : Type 0) : Type 0 where
  pub index : ℕ
  pub value : Option V

pub record SomeMeta (V : Type 0) : Type 0 where
  pub buffer : List (IndexValue V)
  pub idx : ℕ
  pub min_complete : ℕ
  pub spawned : ℕ

module _ {V : Type 0} where
  unfoldable pub all_meta : ℕ → AllMeta V
  all_meta n = record { wait_num = n; buffer = λ k. none; spawned = 0 }

  unfoldable pub count_down : (is_thread_safe : Bool) → AllMeta V → AllMeta V
  count_down is_thread_safe m =
      let left = word_sub (2 ^ 32) m.wait_num 1 in
      let need_wakeup = if is_thread_safe then m.wait_num == 1 else left == 0 in
      record m { wait_num = left; spawned = if need_wakeup then suc m.spawned else m.spawned }

  abbrev pub construct_at : ℕ → V → (ℕ → Option V) → ℕ → Option V
  construct_at location v buffer k = if k == location then some v else buffer k

  unfoldable pub any_meta : AnyMeta V
  any_meta = record { idx = 2 ^ 32 - 1; finish_count = 0; buffer = none; spawned = 0 }

  unfoldable pub any_is_cancelled : AnyMeta V → Bool
  any_is_cancelled m = not (m.finish_count == 0)

  unfoldable pub any_preempt : AnyMeta V → Bool × AnyMeta V
  any_preempt m =
      (m.finish_count == 0, record m { finish_count = word_add (2 ^ 32) m.finish_count 1 })

  abbrev pub no_value : IndexValue V
  no_value = record { index = 0; value = none }

  unfoldable pub some_meta : ℕ → SomeMeta V
  some_meta min_complete = record {
    buffer = replicate min_complete no_value;
    idx = 0;
    min_complete = min_complete;
    spawned = 0;
  }

  unfoldable pub some_is_cancelled : ℕ → SomeMeta V → Bool
  some_is_cancelled min_complete m = leb min_complete m.idx

  unfoldable pub some_preempt : SomeMeta V → ℕ × SomeMeta V
  some_preempt m = (m.idx, record m { idx = word_add (2 ^ 32) m.idx 1 })

-- What a task does with the value of its node; the value of a void node is not used.
module _ {A V : Type 0} (is_same : A → A → Bool) (void : A) (ts : List A) where
  unfoldable pub all_evaluate_to : (is_thread_safe : Bool) → (idx : ℕ) → V → AllMeta V → AllMeta V
  all_evaluate_to is_thread_safe idx v m =
      let located : ℕ → Option V = elim (buffer_offset is_same void ts idx) [
        | none ↦ m.buffer
        | some location ↦ construct_at location v m.buffer
      ] in
      let buffer = if is_void_at is_same void ts idx then m.buffer else located in
      count_down is_thread_safe (record m { buffer = buffer })

  unfoldable pub any_evaluate_to : (idx : ℕ) → V → AnyMeta V → AnyMeta V
  any_evaluate_to idx v m =
      let (first, m') = any_preempt m in
      let buffer = if is_void_at is_same void ts idx then m'.buffer else some v in
      if first then record m' { buffer = buffer; idx = idx; spawned = suc m'.spawned } else m'

  unfoldable pub some_evaluate_to : (min_complete : ℕ) → (idx : ℕ) → V → SomeMeta V → SomeMeta V
  some_evaluate_to min_complete idx v m =
      let (rank, m') = some_preempt m in
      let entry : IndexValue V = record {
        index = idx;
        value =
            if is_void_at is_same void ts idx
            then (get_or m'.buffer rank no_value).value
            else some v;
      } in
      let spawned = if rank + 1 == min_complete then suc m'.spawned else m'.spawned in
      if ltb rank min_complete
      then record m' { buffer = set m'.buffer rank entry; spawned = spawned }
      else m'
