-- ===== src/When/Any.antt =====
-- `any`: the coroutine gets the first of the results.
use co_context.Prelude.{
  ℕ, suc, ◌+◌, ◌-◌, ◌^◌, ◌%◌, ◌≤◌, ◌<◌, ◌≡◌, refl, ap, ◌∙◌, List, [], ◌∷◌, Bool, true, false, none,
  some, if◌then◌else◌, inl, inr, arith, length, ◌==◌, ◌⊎◌,
}
use co_context.When.{AnyMeta, any_meta, any_is_cancelled, any_preempt, any_evaluate_to, is_void_at}
use co_context.When.Start.{TaskPc, ended, gave_up, Run, Run-Kept, after, all_ended, length-Run}

module _ {A V : Type 0} (is_same : A → A → Bool) (void : A) (ts : List A) where
  -- What `any` promises when these tasks have ended, the latest first.
  abbrev pub promised : List (ℕ × V) → AnyMeta V
  promised [] = record { idx = 2 ^ 32 - 1; finish_count = 0; buffer = none; spawned = 0 }
  promised (e ∷ []) = record {
    idx = e.0;
    finish_count = 1;
    buffer = if is_void_at is_same void ts e.0 then none else some e.1;
    spawned = 1;
  }
  promised (e ∷ f ∷ es) = record (promised (f ∷ es)) { finish_count = suc (suc (length es)) }

  abbrev pub AnyRun : List (ℕ × V) → AnyMeta V → (ℕ → TaskPc) → Type 0
  AnyRun = Run any_meta any_is_cancelled (any_evaluate_to is_same void ts) (length ts)

  abbrev ends_after : List (ℕ × V) → AnyMeta V
  ends_after = after any_meta any_is_cancelled (any_evaluate_to is_same void ts) (length ts)

  promised_count : (es : List (ℕ × V)) → (promised es).finish_count ≡ length es
  promised_count [] = refl
  promised_count (e ∷ []) = refl
  promised_count (e ∷ f ∷ es) = refl

  evaluate_later :
      (i : ℕ) (v : V) (m : AnyMeta V)
      → 1 ≤ m.finish_count
      → m.finish_count + 1 < 2 ^ 32
      → any_evaluate_to is_same void ts i v m ≡ record m { finish_count = suc m.finish_count }
  unfolding any_evaluate_to any_preempt
  evaluate_later i v m ge lt =
      let wrap : (m.finish_count + 1) % 2 ^ 32 ≡ suc m.finish_count = ground (arith, lt) in
      let later : (m.finish_count == 0) ≡ false = ground (arith, ge) in rw (later, wrap)

  after-promised : (es : List (ℕ × V)) → length es < 2 ^ 32 → ends_after es ≡ promised es
  unfolding any_meta any_evaluate_to any_preempt
  after-promised [] h = refl
  after-promised (e ∷ []) h = refl
  after-promised (e ∷ f ∷ es) h =
      let rest = after-promised (f ∷ es) (omega (arith, h)) in
      let c = promised_count (f ∷ es) in
      ap (any_evaluate_to is_same void ts e.0 e.1) rest
      ∙ evaluate_later e.0 e.1 (promised (f ∷ es)) (omega (arith, c)) (omega (arith, c, h))
      ∙ ap (λ c. record (promised (f ∷ es)) { finish_count = suc c }) c

  promised_spawned : (es : List (ℕ × V)) → 1 ≤ length es → (promised es).spawned ≡ 1
  promised_spawned [] h = absurd (omega (arith, h))
  promised_spawned (e ∷ []) h = refl
  promised_spawned (e ∷ f ∷ es) h = promised_spawned (f ∷ es) (omega arith)

  -- Whatever the tasks did in whatever order, `any` holds the position and the value of the first
  -- that ended, and the coroutine was spawned once, and not before the first ended.
  pub any_lem :
      {es : List (ℕ × V)} {m : AnyMeta V} {pc : ℕ → TaskPc}
      → length ts < 2 ^ 32
      → AnyRun es m pc
      → m ≡ promised es
  any_lem {es} short r =
      let k = Run-Kept any_meta any_is_cancelled (any_evaluate_to is_same void ts) (length ts) r in
      let le =
        length-Run any_meta any_is_cancelled (any_evaluate_to is_same void ts) (length ts) r in
      k.shared ∙ after-promised es (omega (arith, le, short))

  cancelled_after : (fs : List (ℕ × V)) → any_is_cancelled (ends_after fs) ≡ true → 1 ≤ length fs
  unfolding any_is_cancelled any_meta
  cancelled_after [] c = cc
  cancelled_after (f ∷ fs) c = omega arith

  -- When every task of `any` has ended or given up, the coroutine was spawned: a task gives up only
  -- after another has ended.
  pub any_wakes :
      {es : List (ℕ × V)} {m : AnyMeta V} {pc : ℕ → TaskPc}
      → 1 ≤ length ts
      → length ts < 2 ^ 32
      → AnyRun es m pc
      → ((i : ℕ) → i < length ts → (pc i ≡ ended) ⊎ (pc i ≡ gave_up))
      → m.spawned ≡ 1
  any_wakes {es} ge short r over =
      let some_ended : 1 ≤ length es =
        elim (all_ended any_meta any_is_cancelled (any_evaluate_to is_same void ts) (length ts) r
          over) [
            | inl all ↦ omega (arith, all, ge)
            | inr (fs, le, c) ↦ omega (arith, le, cancelled_after fs c)
          ] in
      ap (λ a. a.spawned) (any_lem short r) ∙ promised_spawned es some_ended
