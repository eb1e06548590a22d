-- ===== src/When/All.antt =====
-- `all`: when the coroutine is woken, and what is in the buffer then.
use native.Mathlib.Decide.{dec_lt}
use mathlib.Core.Path.{subst}
use co_context.Prelude.{
  ℕ, suc, ◌^◌, ◌≤◌, ◌<◌, ◌≡◌, ◌≢◌, refl, sym, ap, ◌∙◌, List, [], ◌∷◌, Bool, true, false, not, some,
  if◌then◌else◌, Bool-cases, inl, inr, arith, length, ◌==◌, Listed, Distinct, Fresh, All, ◌⊎◌,
}
use co_context.Prelude.Counting.{Listed-all}
use co_context.TypeList.{remove, at}
use co_context.TypeList.Filter.{filter_lem}
use co_context.When.{
  AllMeta, all_meta, count_down, all_evaluate_to, buffer_offset, is_void_at, construct_at,
}
use co_context.When.Offset.{Valued, place, place_lt, place_onto, buffer_offset-place, at-length}

-- These tasks have ended with these values, in this order.
abbrev pub indices : {V : Type 0} → List (ℕ × V) → List ℕ
indices [] = []
indices (e ∷ es) = e.0 ∷ indices es

abbrev pub Ended : {V : Type 0} → ℕ → V → List (ℕ × V) → Type 0
Ended i v [] = ⊥
Ended i v (e ∷ es) = ((e.0 ≡ i) × (e.1 ≡ v)) ⊎ Ended i v es

module _ {A : Type 0} (is_same : A → A → Bool) (void : A) (ts : List A) where
  pub is_void-at :
      (i : ℕ) (t : A) → at ts i ≡ some t → is_void_at is_same void ts i ≡ is_same void t
  is_void-at i t e = rw (is_void_at, e)

  places_differ :
      (i j : ℕ) (t u : A)
      → i ≢ j
      → Valued is_same void ts i t
      → Valued is_same void ts j u
      → place is_same void i ts ≢ place is_same void j ts
  places_differ i j t u ne hi hj e = elim (dec_lt i j) [
    | yes lt ↦ omega (arith, e, place_lt is_same void ts i j t lt hi)
    | no ge ↦ omega (arith, e, place_lt is_same void ts j i u (omega (arith, ge, ne)) hj)
  ]

length-indices : {V : Type 0} (es : List (ℕ × V)) → length (indices es) ≡ length es
length-indices [] = refl
length-indices (e ∷ es) = ap suc (length-indices es)

indices_below :
    {A V : Type 0} (ts : List A) (es : List (ℕ × V))
    → All (λ e. (u : A) × (at ts e.0 ≡ some u)) es
    → (b : ℕ) → Listed b (indices es)
    → b < length ts
indices_below ts [] h b l = absurd l
indices_below ts (e ∷ es) h b (inl z) =
    subst (λ c. c < length ts) z (at-length ts (e.0) (h.0.0) (h.0.1))
indices_below ts (e ∷ es) h b (inr l) = indices_below ts es h.1 b l

module _ {A V : Type 0} (is_same : A → A → Bool) (void : A) (ts : List A) (safe : Bool) where
  abbrev pub all_run : List (ℕ × V) → AllMeta V → AllMeta V
  all_run [] m = m
  all_run (e ∷ es) m = all_run es (all_evaluate_to is_same void ts safe e.0 e.1 m)

  evaluate_counts :
      (i : ℕ) (v : V) (m : AllMeta V)
      → 1 ≤ m.wait_num
      → m.wait_num < 2 ^ 32
      → let m' = all_evaluate_to is_same void ts safe i v m in
        (suc m'.wait_num ≡ m.wait_num)
        × (m'.spawned ≡ (if m.wait_num == 1 then suc m.spawned else m.spawned))
  unfolding all_evaluate_to count_down
  evaluate_counts i v m ge lt = elim (Bool-cases safe) [
    | inl s ↦ (ground (arith, ge, lt), rw s)
    | inr s ↦ (ground (arith, ge, lt), ground (arith, s, ge, lt))
  ]

  -- The coroutine is spawned when as many tasks have ended as it waits for, and not before.
  all_run_spawned :
      (es : List (ℕ × V)) (m : AllMeta V)
      → 1 ≤ m.wait_num
      → length es ≤ m.wait_num
      → m.wait_num < 2 ^ 32
      → (all_run es m).spawned ≡ (if length es == m.wait_num then suc m.spawned else m.spawned)
  all_run_spawned [] m ge le lt = ground (arith, ge)
  all_run_spawned (e ∷ []) m ge le lt =
      let (w, s) = evaluate_counts e.0 e.1 m ge lt in s ∙ ground arith
  all_run_spawned (e ∷ f ∷ es) m ge le lt =
      let m' = all_evaluate_to is_same void ts safe e.0 e.1 m in
      let (w, s) = evaluate_counts e.0 e.1 m ge lt in
      let rest =
        all_run_spawned (f ∷ es) m' (omega (arith, w, le)) (omega (arith, w, le))
          (omega (arith, w, lt)) in
      rest ∙ ground (arith, w, s, le)

  evaluate_void :
      (i : ℕ) (v : V) (m : AllMeta V)
      → is_void_at is_same void ts i ≡ true
      → (all_evaluate_to is_same void ts safe i v m).buffer ≡ m.buffer
  unfolding all_evaluate_to count_down
  evaluate_void i v m y = rw (all_evaluate_to, count_down, y)

  evaluate_valued :
      (i k : ℕ) (v : V) (m : AllMeta V)
      → is_void_at is_same void ts i ≡ false
      → buffer_offset is_same void ts i ≡ some k
      → (all_evaluate_to is_same void ts safe i v m).buffer ≡ construct_at k v m.buffer
  unfolding all_evaluate_to count_down
  evaluate_valued i k v m n e = rw (all_evaluate_to, count_down, n, e)

  evaluate_own :
      (i : ℕ) (v : V) (t : A) (m : AllMeta V)
      → length ts < 2 ^ 32
      → Valued is_same void ts i t
      → (all_evaluate_to is_same void ts safe i v m).buffer (place is_same void i ts) ≡ some v
  evaluate_own i v t m short h =
      rw
        (evaluate_valued i (place is_same void i ts) v m
          (is_void-at is_same void ts i t (h.0) ∙ h.1)
          (buffer_offset-place is_same void ts i t short h))
        (ground arith)

  evaluate_other :
      (i j : ℕ) (w : V) (t u : A) (m : AllMeta V)
      → length ts < 2 ^ 32
      → i ≢ j
      → Valued is_same void ts i t
      → at ts j ≡ some u
      → (all_evaluate_to is_same void ts safe j w m).buffer (place is_same void i ts)
        ≡ m.buffer (place is_same void i ts)
  evaluate_other i j w t u m short ne hi hj = elim (Bool-cases (is_same void u)) [
    | inl y ↦ rw (evaluate_void j w m (is_void-at is_same void ts j u hj ∙ y))
    | inr n ↦
        let apart = places_differ is_same void ts i j t u ne hi (hj, n) in
        rw
          (evaluate_valued j (place is_same void j ts) w m (is_void-at is_same void ts j u hj ∙ n)
            (buffer_offset-place is_same void ts j u short (hj, n)))
          (ground (arith, apart))
  ]

  -- Tasks that exist, each once.
  abbrev pub Each : List (ℕ × V) → Type 0
  Each es = Distinct (indices es) × All (λ e. (u : A) × (at ts e.0 ≡ some u)) es

  all_run_other :
      (es : List (ℕ × V)) (i : ℕ) (t : A) (m : AllMeta V)
      → length ts < 2 ^ 32
      → Fresh i (indices es)
      → All (λ e. (u : A) × (at ts e.0 ≡ some u)) es
      → Valued is_same void ts i t
      → (all_run es m).buffer (place is_same void i ts) ≡ m.buffer (place is_same void i ts)
  all_run_other [] i t m short f each h = refl
  all_run_other (e ∷ es) i t m short f each h =
      let (u, there) = each.0 in
      all_run_other es i t (all_evaluate_to is_same void ts safe e.0 e.1 m) short f.1 each.1 h
      ∙ evaluate_other i (e.0) (e.1) t u m short (λ z. f.0 (sym z)) h there

  all_run_entry :
      (es : List (ℕ × V)) (i : ℕ) (t : A) (m : AllMeta V)
      → length ts < 2 ^ 32
      → Each es
      → Listed i (indices es)
      → Valued is_same void ts i t
      → (v : V) × Ended i v es × ((all_run es m).buffer (place is_same void i ts) ≡ some v)
  all_run_entry [] i t m short each l h = absurd l
  all_run_entry (e ∷ es) i t m short each (inl z) h =
      let at_i = subst (λ j. Fresh j (indices es)) z (each.0.0) in
      let own : (all_evaluate_to is_same void ts safe e.0 e.1 m).buffer (place is_same void i ts)
          ≡ some e.1 =
        rw z (evaluate_own i e.1 t m short h) in
      (
        e.1,
        inl (z, refl),
        all_run_other es i t (all_evaluate_to is_same void ts safe e.0 e.1 m) short at_i each.1.1 h
            ∙ own,
      )
  all_run_entry (e ∷ es) i t m short each (inr l) h =
      let (v, ended, found) =
        all_run_entry es i t (all_evaluate_to is_same void ts safe e.0 e.1 m) short
          (each.0.1, each.1.1) l h in
      (v, inr ended, found)

  -- While fewer tasks have ended than there are, the coroutine is not spawned; when all have ended,
  -- it is spawned once. With and without atomic accesses.
  pub all_spawned :
      (es : List (ℕ × V))
      → 1 ≤ length ts
      → length ts < 2 ^ 32
      → length es ≤ length ts
      → (all_run es (all_meta (length ts))).spawned ≡ (if length es == length ts then 1 else 0)
  unfolding all_meta
  all_spawned es ge short le = all_run_spawned es (all_meta (length ts)) ge le short

  -- When each task has ended, in whatever order, every entry of the buffer is constructed, from the
  -- value of the task whose offset it has and whose type it is.
  pub all_result :
      (es : List (ℕ × V)) (k : ℕ) (t : A)
      → length ts < 2 ^ 32
      → length es ≡ length ts
      → Distinct (indices es)
      → All (λ e. (u : A) × (at ts e.0 ≡ some u)) es
      → at (remove is_same ts void) k ≡ some t
      → (i : ℕ) × (v : V) × (at ts i ≡ some t)
        × (buffer_offset is_same void ts i ≡ some k)
        × Ended i v es
        × ((all_run es (all_meta (length ts))).buffer k ≡ some v)
  unfolding remove
  all_result es k t short whole once there e =
      let kept = filter_lem (λ u. not (is_same void u)) ts in
      let (i, valued, here) = place_onto is_same void ts k t (rw kept at e) in
      let listed =
        Listed-all (length ts) (indices es) once (indices_below ts es there)
          (length-indices es ∙ whole) i (at-length ts i t valued.0) in
      let (v, ended, found) =
        all_run_entry es i t (all_meta (length ts)) short (once, there) listed valued in
      (
        i,
        v,
        valued.0,
        buffer_offset-place is_same void ts i t short valued ∙ ap some here,
        ended,
        rw here at found,
      )
