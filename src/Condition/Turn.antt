-- ===== src/Condition/Turn.antt =====
-- The loop of `notify_one`, and what its second critical section makes of the turned list.
use mathlib.Core.Path.{subst}
use co_context.Prelude.{
  ℕ, zero, suc, ◌<◌, ◌≡◌, ◌≢◌, refl, sym, ap, ◌∙◌, some, List, [], ◌∷◌, ◌++◌, reverse, reverse-cons,
  append_assoc, false, ◌==◌, arith, length, Fresh, Distinct, Disjoint, Disjoint-cons,
}
use co_context.Awaiters.{Ptr, Links, set_next, Chain, Chain-turned, Chain-set_next}
use co_context.Condition.{turn_loop}

-- The loop ends with `head` at the oldest awaiter, whose link is null, and with `succ` at the list
-- of the others, oldest first.
abbrev pub Turns : ℕ → Links → (node succ : Ptr) → (xs ys : List Ptr) → Type 0
Turns fuel next node succ xs ys =
    (next' : Links) × (head succ' : Ptr) × (rest : List Ptr) × (turn_loop fuel next node succ
        (next node)
      ≡ some (next', head, succ'))
    × (reverse xs ++ ys ≡ head ∷ rest)
    × Chain next' succ' rest
    × (head ≢ 0)
    × (next' head ≡ 0)
    × ((a : Ptr) → Fresh a xs → next' a ≡ next a)

pub turn_loop_lem :
    (fuel : ℕ) (next : Links) (node succ x : Ptr) (xs ys : List Ptr)
    → length xs < fuel
    → Chain next node (x ∷ xs)
    → Chain next succ ys
    → Distinct (x ∷ xs)
    → Disjoint (x ∷ xs) ys
    → Turns fuel next node succ (x ∷ xs) ys
unfolding turn_loop
turn_loop_lem zero next node succ x xs ys h c d u v = absurd (omega arith)
turn_loop_lem (suc fuel) next node succ x [] ys h c d u v =
    let last : next node ≡ 0 = ap next (c.0) ∙ c.2 in
    (
      next,
      node,
      succ,
      ys,
      ground (arith, last),
      ap (λ t. t ∷ ys) (sym (c.0)),
      d,
      (λ z. c.1 (sym (c.0) ∙ z)),
      last,
      λ a f. refl,
    )
turn_loop_lem (suc fuel) next node succ x (y ∷ xs) ys h c d u v =
    let (next'', head, succ', rest, run, order, chain, ne, last, frame) =
      turn_loop_lem fuel next' (next node) node y xs (x ∷ ys) (omega arith) below above u.1
        (Disjoint-cons (y ∷ xs) x ys u.0 v.1) in
    (
      next'',
      head,
      succ',
      rest,
      rw more run,
      ap (λ l. l ++ ys) (reverse-cons x (y ∷ xs))
          ∙ append_assoc (reverse (y ∷ xs)) (x ∷ []) ys
          ∙ order,
      chain,
      ne,
      last,
      λ a f. frame a f.1 ∙ ground (arith, f.0),
    )
  where
    next' : Links
    next' = set_next next node succ

    more : (next node == 0) ≡ false
    more = ground (arith, ap next (c.0), c.2.0, c.2.1)

    below : Chain next' (next node) (y ∷ xs)
    below =
        Chain-set_next next node succ (next node) (y ∷ xs)
          (subst (λ t. Fresh t (y ∷ xs)) (sym (c.0)) u.0) (rw (c.0) (c.2))

    above : Chain next' node (x ∷ ys)
    above = (c.0, c.1, Chain-turned next node succ x ys c.0 d (rw (c.0) v.0))
