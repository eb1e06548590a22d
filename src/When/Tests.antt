-- ===== src/When/Tests.antt =====
-- Three tasks, of which the second has no value. Types are numbers, and void is 0.
use co_context.Prelude.{
  ℕ, zero, suc, ◌⊎◌, ◌≡◌, ◌<◌, ◌==◌, refl, List, [], ◌∷◌, Bool, true, none, some, inl, inr, arith,
}
use co_context.TypeList.{at, remove, filter, filter_onto}
use co_context.When.{
  all_meta, AnyMeta, any_meta, any_evaluate_to, any_preempt, any_is_cancelled, buffer_offset,
  SomeMeta, some_meta, some_evaluate_to, some_is_cancelled, some_preempt,
}
use co_context.When.Offset.{buffer_offset-at}
use co_context.When.All.{all_run, Ended, all_spawned, all_result}
use co_context.When.Start.{TaskPc, ended, gave_up, here, begins, ends}
use co_context.When.Any.{AnyRun, any_lem}
use co_context.When.Some.{SomeRun, some_lem, some_wakes}

abbrev same : ℕ → ℕ → Bool
same a b = a == b

abbrev types : List ℕ
types = 7 ∷ 0 ∷ 9 ∷ []

abbrev all_ends : List (ℕ × ℕ)
all_ends = (2, 90) ∷ (0, 70) ∷ (1, 0) ∷ []

buffer_offset_example :
    (k : ℕ) × (buffer_offset same 0 types 2 ≡ some k) × (at (remove same types 0) k ≡ some 9)
unfolding at
buffer_offset_example = buffer_offset-at same 0 types 2 9 (omega arith) refl refl

all_spawned_example : (all_run same 0 types true all_ends (all_meta 3)).spawned ≡ 1
all_spawned_example =
    all_spawned same 0 types true all_ends (omega arith) (omega arith) (omega arith)

all_result_example :
    (i : ℕ) × (v : ℕ) × (at types i ≡ some 9)
    × (buffer_offset same 0 types i ≡ some 1)
    × Ended i v all_ends
    × ((all_run same 0 types true all_ends (all_meta 3)).buffer 1 ≡ some v)
unfolding at remove filter filter_onto
all_result_example =
    all_result same 0 types true all_ends 1 9 (omega arith) refl
      (
        ((λ e. omega (arith, e)), ((λ e. omega (arith, e)), tt)),
        (((λ e. omega (arith, e)), tt), (tt, tt)),
      )
      ((9, refl), ((7, refl), ((0, refl), tt))) refl

-- The second task ends first; the third begins after that and gives up.
abbrev any_state :
    (m : AnyMeta ℕ) × (pc : ℕ → TaskPc) × AnyRun same 0 types ((0, 70) ∷ (1, 0) ∷ []) m pc
unfolding any_meta any_evaluate_to any_preempt any_is_cancelled
any_state = (
  _,
  _,
  begins 2 (omega arith) refl (
      ends 0 70 (omega arith) refl (
        ends 1 0 (omega arith) refl
          (begins 1 (omega arith) refl (begins 0 (omega arith) refl here)))),
)

any_lem_example : any_state.0 ≡ record { idx = 1; finish_count = 2; buffer = none; spawned = 1 }
unfolding any_meta any_evaluate_to any_preempt any_is_cancelled at
any_lem_example = any_lem same 0 types (omega arith) (any_state.2)

any_over : (i : ℕ) → i < 3 → (any_state.1 i ≡ ended) ⊎ (any_state.1 i ≡ gave_up)
unfolding any_meta any_evaluate_to any_preempt any_is_cancelled
any_over zero h = inl refl
any_over (suc zero) h = inl refl
any_over (suc (suc zero)) h = inr refl
any_over (suc (suc (suc i))) h = absurd (omega (arith, h))

abbrev some_state :
    (m : SomeMeta ℕ) × (pc : ℕ → TaskPc) × SomeRun same 0 types 2 ((2, 90) ∷ (1, 0) ∷ []) m pc
unfolding some_meta some_evaluate_to some_preempt some_is_cancelled
some_state = (
  _,
  _,
  begins 0 (omega arith) refl (
      ends 2 90 (omega arith) refl (
        ends 1 0 (omega arith) refl
          (begins 1 (omega arith) refl (begins 2 (omega arith) refl here)))),
)

some_over : (i : ℕ) → i < 3 → (some_state.1 i ≡ ended) ⊎ (some_state.1 i ≡ gave_up)
unfolding some_meta some_evaluate_to some_preempt some_is_cancelled
some_over zero h = inr refl
some_over (suc zero) h = inl refl
some_over (suc (suc zero)) h = inl refl
some_over (suc (suc (suc i))) h = absurd (omega (arith, h))

some_lem_example : some_state.0 ≡ record {
  buffer = record { index = 1; value = none } ∷ record { index = 2; value = some 90 } ∷ [];
  idx = 2;
  min_complete = 2;
  spawned = 1;
}
unfolding at
some_lem_example = some_lem same 0 types 2 (omega arith) (omega arith) (some_state.2)

some_wakes_example : some_state.0.spawned ≡ 1
some_wakes_example =
    some_wakes same 0 types 2 (omega arith) (omega arith) (omega arith) (some_state.2) some_over
