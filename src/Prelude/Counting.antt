-- ===== src/Prelude/Counting.antt =====
-- Lists of different numbers below a bound are no longer than the bound, and name every number below
-- it when they are as long.
use native.Mathlib.Decide.{ℕ_discrete}
use mathlib.Core.Path.{subst}
use Prim.Native.Nat.{ℕ, zero, suc, ◌≤◌, ◌<◌}
use mathlib.Core.Path.{◌≡◌, refl, sym, ap, ◌∙◌}
use mathlib.Core.Logic.{◌≢◌, ◌⊎◌, inl, inr}
use mathlib.Core.List.{List, [], ◌∷◌}
use native.Mathlib.Omega.{arith}
use co_context.Prelude.Lists.{length}
use co_context.Prelude.Predicates.{All, Listed, Fresh, Distinct}

pub Listed-dec : (a : ℕ) (xs : List ℕ) → Listed a xs ⊎ Fresh a xs
Listed-dec a [] = inr tt
Listed-dec a (x ∷ xs) = elim (ℕ_discrete x a) [
  | yes e ↦ inl (inl e)
  | no n ↦ elim (Listed-dec a xs) [ inl l ↦ inl (inr l) | inr f ↦ inr (n, f) ]
]

pub All-Listed : (P : ℕ → Type 0) (xs : List ℕ) → All P xs → (b : ℕ) → Listed b xs → P b
All-Listed P [] h b l = absurd l
All-Listed P (x ∷ xs) h b (inl e) = subst P e h.0
All-Listed P (x ∷ xs) h b (inr l) = All-Listed P xs h.1 b l

pub All-of_Listed : (P : ℕ → Type 0) (xs : List ℕ) → ((b : ℕ) → Listed b xs → P b) → All P xs
All-of_Listed P [] h = tt
All-of_Listed P (x ∷ xs) h = (h x (inl refl), All-of_Listed P xs (λ b l. h b (inr l)))

-- What is left of a list when one occurrence of `a` is taken out.
pub record Without (a : ℕ) (xs : List ℕ) : Type 0 where
  pub rest : List ℕ
  pub shorter : length xs ≡ suc (length rest)
  pub kept : (b : ℕ) → b ≢ a → Listed b xs → Listed b rest
  pub within : (b : ℕ) → Listed b rest → Listed b xs
  pub distinct : Distinct xs → Distinct rest × Fresh a rest

pub take_out : (a : ℕ) (xs : List ℕ) → Listed a xs → Without a xs
take_out a [] l = absurd l
take_out a (x ∷ xs) (inl e) = record {
  rest = xs;
  shorter = refl;
  kept = λ b ne l. elim l [ inl h ↦ absurd (ne (sym h ∙ e)) | inr h ↦ h ];
  within = λ b l. inr l;
  distinct = λ d. (d.1, subst (λ c. Fresh c xs) e d.0);
}
take_out a (x ∷ xs) (inr l) =
    let w = take_out a xs l in
    record {
      rest = x ∷ w.rest;
      shorter = ap suc w.shorter;
      kept = λ b ne m. elim m [ inl h ↦ inl h | inr h ↦ inr (w.kept b ne h) ];
      within = λ b m. elim m [ inl h ↦ inl h | inr h ↦ inr (w.within b h) ];
      distinct = λ d.
          let (tail, fresh) = w.distinct d.1 in
          (
            (
              All-of_Listed (λ y. y ≢ x) w.rest
                  (λ b m. All-Listed (λ y. y ≢ x) xs d.0 b (w.within b m)),
              tail,
            ),
            ((λ e. All-Listed (λ y. y ≢ x) xs d.0 a l (sym e)), fresh),
          );
    }

pub length-Distinct :
    (n : ℕ) (xs : List ℕ) → Distinct xs → ((b : ℕ) → Listed b xs → b < n) → length xs ≤ n
length-Distinct zero [] d h = omega arith
length-Distinct zero (x ∷ xs) d h = absurd (omega (arith, h x (inl refl)))
length-Distinct (suc n) xs d h = elim (Listed-dec n xs) [
  | inl l ↦
      let w = take_out n xs l in
      let (tail, fresh) = w.distinct d in
      omega (
        arith,
        w.shorter,
        length-Distinct n w.rest tail
            (λ b m. omega (arith, h b (w.within b m), All-Listed (λ y. y ≢ n) w.rest fresh b m)),
      )
  | inr f ↦ omega (
    arith,
    length-Distinct n xs d (λ b m. omega (arith, h b m, All-Listed (λ y. y ≢ n) xs f b m)),
  )
]

-- As many different numbers below `n` as there are name each of them.
pub Listed-all :
    (n : ℕ) (xs : List ℕ)
    → Distinct xs
    → ((b : ℕ) → Listed b xs → b < n)
    → length xs ≡ n
    → (i : ℕ) → i < n
    → Listed i xs
Listed-all n xs d h e i lt = elim (Listed-dec i xs) [
  | inl l ↦ l
  | inr f ↦ absurd (
      omega (
        arith,
        e,
        length-Distinct n (i ∷ xs) (f, d)
            (λ b m. elim m [ inl z ↦ subst (λ c. c < n) z lt | inr z ↦ h b z ]),
      ))
]

-- A list that names every number below `n` has at least `n` entries.
pub length-covers : (n : ℕ) (xs : List ℕ) → ((i : ℕ) → i < n → Listed i xs) → n ≤ length xs
length-covers zero xs h = omega arith
length-covers (suc n) xs h =
    let w = take_out n xs (h n (omega arith)) in
    omega (
      arith,
      w.shorter,
      length-covers n w.rest
          (λ i lt. w.kept i (λ e. omega (arith, lt, e)) (h i (omega (arith, lt)))),
    )
