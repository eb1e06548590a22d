-- ===== src/TypeList/Order.antt =====
-- Type lists taken apart and put together: the accumulating functions against plain lists.
use co_context.Prelude.{
  ℕ, zero, suc, ◌+◌, ◌-◌, ◌≤◌, ◌<◌, ◌≡◌, ◌≢◌, refl, sym, ap, ◌∙◌, List, [], ◌∷◌, ◌++◌, true, false,
  Option, none, some, ltb, leb, inl, inr, Bool-cases, arith, length, get_elem?, take, append-nil,
  append_assoc, reverse-cons, if◌then◌else◌,
}
use co_context.Prelude as Lists
use co_context.TypeList.{
  append, head, tails, last, drop_last_onto, drop_last, concat_onto, concat, reverse, kept_below,
  first_n, is_nil, reverse_append, reverse_sequence,
}

module _ {ℓ} {A : Type ℓ} where
  -- `reverse` is the reversal of lists.
  pub reverse_lem : (ts : List A) → reverse ts ≡ Lists.reverse ts
  unfolding reverse append
  reverse_lem [] = refl
  reverse_lem (t ∷ ts) = ap (λ l. l ++ t ∷ []) (reverse_lem ts) ∙ sym (reverse-cons t ts)

  reverse_append_lem : (ts app : List A) → reverse_append ts app ≡ Lists.reverse ts ++ app
  unfolding reverse_append
  reverse_append_lem [] app = refl
  reverse_append_lem (t ∷ ts) app =
      reverse_append_lem ts (t ∷ app)
      ∙ sym (append_assoc (Lists.reverse ts) (t ∷ []) app)
      ∙ ap (λ l. l ++ app) (sym (reverse-cons t ts))

  -- The reversal of a sequence of integers and that of a type list agree.
  pub reverse_sequence-reverse : (ts : List A) → reverse_sequence ts ≡ reverse ts
  unfolding reverse_sequence
  reverse_sequence-reverse [] = sym (reverse_lem [])
  reverse_sequence-reverse (t ∷ ts) =
      reverse_append_lem ts (t ∷ []) ∙ sym (reverse-cons t ts) ∙ sym (reverse_lem (t ∷ ts))

  drop_last_onto_lem :
      (t : A) (ts out : List A)
      → (init : List A) × (z : A) × (t ∷ ts ≡ init ++ z ∷ [])
        × (last (t ∷ ts) ≡ some z)
        × (drop_last_onto (t ∷ ts) out ≡ some (out ++ init))
  unfolding last drop_last_onto
  drop_last_onto_lem t [] out = ([], t, refl, refl, ap some (sym (append-nil out)))
  drop_last_onto_lem t (t2 ∷ ts) out =
      let (init, z, whole, end, rest) = drop_last_onto_lem t2 ts (out ++ t ∷ []) in
      (t ∷ init, z, ap (λ l. t ∷ l) whole, end, rest ∙ ap some (append_assoc out (t ∷ []) init))

  -- A list that is not empty is what `drop_last` leaves followed by `last`, and `head` followed by
  -- `tails`.
  pub parts_lem :
      (ts : List A)
      → ts ≢ []
      → (h : A) × (rest init : List A) × (z : A) × (head ts ≡ some h)
        × (tails ts ≡ some rest)
        × (last ts ≡ some z)
        × (drop_last ts ≡ some init)
        × (ts ≡ h ∷ rest)
        × (ts ≡ init ++ z ∷ [])
  unfolding head tails drop_last
  parts_lem [] ne = absurd (ne refl)
  parts_lem (t ∷ ts) ne =
      let (init, z, whole, end, rest) = drop_last_onto_lem t ts [] in
      (t, ts, init, z, refl, refl, end, rest, refl, whole)

  -- The lists of those below `n` put together, `d` of which are still to come.
  kept_below_lem :
      (n is d : ℕ) (ts acc : List A)
      → n - is ≡ d
      → concat_onto acc (kept_below n is ts) ≡ acc ++ take d ts
  unfolding concat_onto kept_below
  kept_below_lem n is zero [] acc h = sym (append-nil acc)
  kept_below_lem n is (suc d) [] acc h = sym (append-nil acc)
  kept_below_lem n is zero (t ∷ ts) acc h =
      let past : ltb is n ≡ false = ground arith in
      rw (past, append-nil acc)
        (kept_below_lem n (suc is) zero ts acc (omega arith) ∙ append-nil acc)
  kept_below_lem n is (suc d) (t ∷ ts) acc h =
      let below : ltb is n ≡ true = ground arith in
      rw below (
        kept_below_lem n (suc is) d ts (acc ++ t ∷ []) (omega arith)
        ∙ append_assoc acc (t ∷ []) (take d ts))

  -- The first `n` entries of a list that is not empty, if it has as many. The empty list has no
  -- first 0 entries.
  pub first_n_lem :
      (ts : List A) (n : ℕ)
      → first_n ts n
        ≡ (if is_nil ts then none else if leb n (length ts) then some (take n ts) else none)
  unfolding first_n concat kept_below concat_onto
  first_n_lem [] zero = refl
  first_n_lem [] (suc n) = ground arith
  first_n_lem (t ∷ ts) n = elim (Bool-cases (leb n (suc (length ts)))) [
    | inl few ↦ rw few (ap some (kept_below_lem n 0 n (t ∷ ts) [] (omega arith)))
    | inr many ↦ rw many
  ]
