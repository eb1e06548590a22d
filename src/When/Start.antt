-- ===== src/When/Start.antt =====
-- The tasks that `any` and `some` spawn: each tests once, when it begins, whether it is cancelled,
-- and then waits for its node. `is_cancelled` and `evaluate` are those of the two functions.
use native.Mathlib.Decide.{ℕ_discrete}
use mathlib.Core.Path.{subst}
use co_context.Prelude.{
  ℕ, zero, suc, ◌≤◌, ◌<◌, ◌≡◌, ◌≢◌, refl, sym, ap, ◌∙◌, List, [], ◌∷◌, Bool, true, if◌then◌else◌,
  inl, inr, arith, length, ◌==◌, Listed, Distinct, ◌⊎◌,
}
use co_context.Prelude.Counting.{length-Distinct, length-covers, All-of_Listed}

pub data TaskPc : Type 0 where
  ready : TaskPc  -- spawned, and not resumed yet
  awaiting : TaskPc  -- in `co_await node`
  ended : TaskPc
  gave_up : TaskPc  -- it was cancelled when it began

abbrev pub finishers : {V : Type 0} → List (ℕ × V) → List ℕ
finishers [] = []
finishers (e ∷ es) = e.0 ∷ finishers es

pub length-finishers : {V : Type 0} (es : List (ℕ × V)) → length (finishers es) ≡ length es
length-finishers [] = refl
length-finishers (e ∷ es) = ap suc (length-finishers es)

abbrev pub goes : (ℕ → TaskPc) → ℕ → TaskPc → ℕ → TaskPc
goes pc i p j = if j == i then p else pc j

every_or :
    {Q : Type 0} (P : ℕ → Type 0) (n : ℕ)
    → ((i : ℕ) → i < n → P i ⊎ Q)
    → ((i : ℕ) → i < n → P i) ⊎ Q
every_or P zero h = inl (λ i lt. absurd (omega (arith, lt)))
every_or P (suc n) h = elim (every_or P n (λ i lt. h i (omega (arith, lt)))) [
  | inr q ↦ inr q
  | inl below ↦ elim (h n (omega arith)) [
    | inr q ↦ inr q
    | inl last ↦ inl (λ i lt. elim (ℕ_discrete i n) [
      | yes e ↦ subst P (sym e) last
      | no ne ↦ below i (omega (arith, lt, ne))
    ])
  ]
]

stays :
    (pc : ℕ → TaskPc) (i j : ℕ) (o p q : TaskPc) → pc i ≡ o → o ≢ q → pc j ≡ q → goes pc i p j ≡ q
stays pc i j o p q e ne h = elim (ℕ_discrete j i) [
  | yes z ↦ absurd (ne (sym e ∙ ap pc (sym z) ∙ h))
  | no z ↦ ground (arith, z, h)
]

comes : (pc : ℕ → TaskPc) (i j : ℕ) (p q : TaskPc) → goes pc i p j ≡ q → (p ≡ q) ⊎ (pc j ≡ q)
comes pc i j p q h = elim (ℕ_discrete j i) [
  | yes z ↦ inl (sym (ground (arith, z)) ∙ h)
  | no z ↦ inr (sym (ground (arith, z)) ∙ h)
]

module _ {M V : Type 0} (meta0 : M) (is_cancelled : M → Bool) (evaluate : ℕ → V → M → M)
    (n : ℕ) where
  -- The tasks that have ended, the latest first, what they share then, and where each task is.
  pub data Run : List (ℕ × V) → M → (ℕ → TaskPc) → Type 0 where
    here : Run [] meta0 (λ i. ready)
    begins :
        (i : ℕ) {es : List (ℕ × V)} {m : M} {pc : ℕ → TaskPc}
        → i < n
        → pc i ≡ ready
        → Run es m pc
        → Run es m (goes pc i (if is_cancelled m then gave_up else awaiting))
    ends :
        (i : ℕ) (v : V) {es : List (ℕ × V)} {m : M} {pc : ℕ → TaskPc}
        → i < n
        → pc i ≡ awaiting
        → Run es m pc
        → Run ((i, v) ∷ es) (evaluate i v m) (goes pc i ended)

  abbrev pub after : List (ℕ × V) → M
  after [] = meta0
  after (e ∷ es) = evaluate e.0 e.1 (after es)

  pub record Kept (es : List (ℕ × V)) (m : M) (pc : ℕ → TaskPc) : Type 0 where
    pub shared : m ≡ after es
    pub distinct : Distinct (finishers es)
    pub below : (i : ℕ) → Listed i (finishers es) → i < n
    pub listed : (i : ℕ) → Listed i (finishers es) → pc i ≡ ended
    pub named : (i : ℕ) → pc i ≡ ended → Listed i (finishers es)
    -- Who gave up found an earlier state cancelled.
    pub cancelled :
        (i : ℕ)
        → pc i ≡ gave_up
        → (fs : List (ℕ × V)) × (length fs ≤ length es) × (is_cancelled (after fs) ≡ true)

  pub Run-Kept : {es : List (ℕ × V)} {m : M} {pc : ℕ → TaskPc} → Run es m pc → Kept es m pc
  Run-Kept here = record {
    shared = refl;
    distinct = tt;
    below = λ i l. absurd l;
    listed = λ i l. absurd l;
    named = λ i e. cc;
    cancelled = λ i e. cc;
  }
  Run-Kept (begins i {es} {m} {pc} lt e r) =
      let k = Run-Kept r in
      record {
        shared = k.shared;
        distinct = k.distinct;
        below = k.below;
        listed = λ j l. stays pc i j ready _ ended e (λ z. cc) (k.listed j l);
        named = λ j h. elim (comes pc i j _ ended h) [
          | inl z ↦ absurd (ground (arith, z))
          | inr z ↦ k.named j z
        ];
        cancelled = λ j h. elim (comes pc i j _ gave_up h) [
          | inl z ↦ (es, omega arith, ap is_cancelled (sym k.shared) ∙ ground (arith, z))
          | inr z ↦ k.cancelled j z
        ];
      }
  Run-Kept (ends i v {es} {m} {pc} lt e r) =
      let k = Run-Kept r in
      let new : (j : ℕ) → Listed j (finishers es) → j ≢ i =
        λ j l z. let clash : awaiting ≡ ended = sym e ∙ ap pc (sym z) ∙ k.listed j l in cc in
      record {
        shared = ap (evaluate i v) k.shared;
        distinct = (All-of_Listed (λ j. j ≢ i) (finishers es) new, k.distinct);
        below = λ j l. elim l [ inl z ↦ subst (λ x. x < n) z lt | inr z ↦ k.below j z ];
        listed = λ j l. elim l [
          | inl z ↦ ground (arith, z)
          | inr z ↦ stays pc i j awaiting ended ended e (λ z. cc) (k.listed j z)
        ];
        named = λ j h. elim (ℕ_discrete i j) [
          | yes z ↦ inl z
          | no z ↦ inr (k.named j (sym (ground (arith, z)) ∙ h))
        ];
        cancelled = λ j h. elim (comes pc i j ended gave_up h) [
          | inl z ↦ cc
          | inr z ↦ let (fs, le, c) = k.cancelled j z in (fs, omega (arith, le), c)
        ];
      }

  -- When no task is left to begin or to end, all have ended, or some of them gave up.
  pub all_ended :
      {es : List (ℕ × V)} {m : M} {pc : ℕ → TaskPc}
      → Run es m pc
      → ((i : ℕ) → i < n → (pc i ≡ ended) ⊎ (pc i ≡ gave_up))
      → (n ≤ length es)
        ⊎ ((fs : List (ℕ × V)) × (length fs ≤ length es) × (is_cancelled (after fs) ≡ true))
  all_ended {es} {m} {pc} r over =
      let k = Run-Kept r in
      elim (every_or (λ i. Listed i (finishers es)) n
        (λ i lt. elim (over i lt) [ inl e ↦ inl (k.named i e) | inr e ↦ inr (k.cancelled i e) ])) [
          | inl each ↦ inl (omega (arith, length-finishers es, length-covers n (finishers es) each))
          | inr c ↦ inr c
        ]

  pub length-Run : {es : List (ℕ × V)} {m : M} {pc : ℕ → TaskPc} → Run es m pc → length es ≤ n
  length-Run {es} r =
      let k = Run-Kept r in
      omega (arith, length-finishers es, length-Distinct n (finishers es) k.distinct k.below)
