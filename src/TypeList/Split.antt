-- ===== src/TypeList/Split.antt =====
-- `split_if` and `split` against the pieces between the delimiters.
use mathlib.Core.Path.{ap₂}
use co_context.Prelude.{
  ◌≡◌, refl, sym, ap, ◌∙◌, List, [], ◌∷◌, ◌++◌, Bool, true, false, not, append-nil, append_assoc,
  All, ◌↔◌, reverse-cons, Bool-cases, inl, inr, if◌then◌else◌,
}
use co_context.Prelude as Lists
use co_context.TypeList.{append, remove_if, is_nil, split_onto, split_if, split}
use co_context.TypeList.Filter.{passing, passing-append, filter_lem}
use co_context.TypeList.Order.{reverse_lem}

module _ {ℓ} {A : Type ℓ} (p : A → Bool) where
  -- The piece before the first delimiter, and those after it.
  abbrev pub pieces : List A → List A × List (List A)
  pieces [] = ([], [])
  pieces (t ∷ ts) =
      let (piece, others) = pieces ts in if p t then ([], piece ∷ others) else (t ∷ piece, others)

abbrev pub nonempty {ℓ} : {A : Type ℓ} → List (List A) → List (List A)
nonempty = passing (λ l. not (is_nil l))

nonempty-reverse {ℓ} :
    {A : Type ℓ} (ls : List (List A)) → Lists.reverse (nonempty ls) ≡ nonempty (Lists.reverse ls)
nonempty-reverse [] = refl
nonempty-reverse ([] ∷ ls) =
    nonempty-reverse ls
    ∙ sym (
        ap nonempty (reverse-cons [] ls)
        ∙ passing-append (λ l. not (is_nil l)) (Lists.reverse ls) ([] ∷ [])
        ∙ append-nil (nonempty (Lists.reverse ls)))
nonempty-reverse ((t ∷ ts) ∷ ls) =
    reverse-cons (t ∷ ts) (nonempty ls)
    ∙ ap (λ l. l ++ (t ∷ ts) ∷ []) (nonempty-reverse ls)
    ∙ sym (
        ap nonempty (reverse-cons (t ∷ ts) ls)
        ∙ passing-append (λ l. not (is_nil l)) (Lists.reverse ls) ((t ∷ ts) ∷ []))

-- The pieces put back together with a delimiter between any two.
abbrev pub joined {ℓ} : {A : Type ℓ} → A → List A → List (List A) → List A
joined d piece [] = piece
joined d piece (other ∷ others) = piece ++ d ∷ joined d other others

joined-cons {ℓ} :
    {A : Type ℓ} (d t : A) (piece : List A) (others : List (List A))
    → joined d (t ∷ piece) others ≡ t ∷ joined d piece others
joined-cons d t piece [] = refl
joined-cons d t piece (other ∷ others) = refl

module _ {ℓ} {A : Type ℓ} (p : A → Bool) where
  pub joined-pieces :
      (d : A)
      → ((t : A) → p t ≡ true → t ≡ d)
      → (ts : List A) → joined d (pieces p ts).0 (pieces p ts).1 ≡ ts
  joined-pieces d only [] = refl
  joined-pieces d only (t ∷ ts) = elim (Bool-cases (p t)) [
    | inl delimiter ↦ rw delimiter (ap₂ ◌∷◌ (sym (only t delimiter)) (joined-pieces d only ts))
    | inr other ↦ rw other (
        joined-cons d t (pieces p ts).0 (pieces p ts).1 ∙ ap (λ l. t ∷ l) (joined-pieces d only ts))
  ]

  pieces-All : (ts : List A) → All (All (λ t. p t ≡ false)) ((pieces p ts).0 ∷ (pieces p ts).1)
  pieces-All [] = (tt, tt)
  pieces-All (t ∷ ts) = elim (Bool-cases (p t)) [
    | inl delimiter ↦ rw delimiter (tt, pieces-All ts)
    | inr other ↦ let rest = pieces-All ts in rw other ((other, rest.0), rest.1)
  ]

  split_onto_lem :
      (ts head_list : List A) (lists : List (List A))
      → split_onto p ts head_list lists
        ≡ nonempty (Lists.reverse lists ++ (head_list ++ (pieces p ts).0) ∷ (pieces p ts).1)
  unfolding split_onto remove_if append
  split_onto_lem [] head_list lists =
      reverse_lem (remove_if is_nil (head_list ∷ lists))
      ∙ ap Lists.reverse (filter_lem (λ l. not (is_nil l)) (head_list ∷ lists))
      ∙ nonempty-reverse (head_list ∷ lists)
      ∙ ap nonempty (reverse-cons head_list lists)
      ∙ ap (λ l. nonempty (Lists.reverse lists ++ l ∷ [])) (sym (append-nil head_list))
  split_onto_lem (t ∷ ts) head_list lists = elim (Bool-cases (p t)) [
    | inl delimiter ↦
        rw (delimiter, split_onto)
          (split_onto_lem ts [] (head_list ∷ lists)
            ∙ ap (λ l. nonempty (l ++ (pieces p ts).0 ∷ (pieces p ts).1))
                (reverse-cons head_list lists)
            ∙ ap nonempty (
                append_assoc (Lists.reverse lists) (head_list ∷ [])
                  ((pieces p ts).0 ∷ (pieces p ts).1))
            ∙ ap (λ l. nonempty (Lists.reverse lists ++ l ∷ (pieces p ts).0 ∷ (pieces p ts).1))
                (sym (append-nil head_list)))
    | inr other ↦
        rw (other, split_onto)
          (split_onto_lem ts (head_list ++ t ∷ []) lists
            ∙ ap (λ l. nonempty (Lists.reverse lists ++ l ∷ (pieces p ts).1))
                (append_assoc head_list (t ∷ []) (pieces p ts).0))
  ]

  -- `split_if` gives the pieces between the delimiters, in their order, without the empty ones.
  pub split_if_lem : (ts : List A) → split_if ts p ≡ nonempty ((pieces p ts).0 ∷ (pieces p ts).1)
  unfolding split_if
  split_if_lem ts = split_onto_lem ts [] []

-- Splitting at a delimiter gives the pieces that, with the delimiter between any two, make up the
-- list and do not contain it, in their order and without the empty ones.
pub split_lem {ℓ} :
    {A : Type ℓ} (is_same : A → A → Bool) (same_iff : (a b : A) → (is_same a b ≡ true) ↔ (a ≡ b))
    (ts : List A) (d : A)
    → (piece : List A) × (others : List (List A)) × (split is_same ts d ≡ nonempty (piece ∷ others))
      × (joined d piece others ≡ ts)
      × All (All (λ t. is_same d t ≡ false)) (piece ∷ others)
unfolding split
split_lem is_same same_iff ts d =
    let found = pieces (is_same d) ts in
    (
      found.0,
      found.1,
      split_if_lem (is_same d) ts,
      joined-pieces (is_same d) d (λ t e. sym ((same_iff d t).0 e)) ts,
      pieces-All (is_same d) ts,
    )
