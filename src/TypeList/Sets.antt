-- ===== src/TypeList/Sets.antt =====
-- `unique` and the operations on sets, by what each of their results contains.
use co_context.Prelude.{
  ◌≡◌, ◌↔◌, refl, sym, ap, ◌∙◌, List, [], ◌∷◌, ◌++◌, Bool, true, false, not, ◌&&◌, ◌||◌,
  if◌then◌else◌, Bool-cases, inl, inr, arith,
}
use co_context.TypeList.{
  append, fold, contain, add, unique, remove_if, concat_onto, union_set, intersection_set,
  difference_set, symmetric_difference_set,
}
use co_context.TypeList.Filter.{or_assoc, filter_lem, contain-cons, contain-append, contain-passing}

and_comm : (a b : Bool) → a && b ≡ b && a
and_comm a b = ground arith

or_false : (a : Bool) → a || false ≡ a
or_false true = refl
or_false false = refl

-- No entry of the list stands twice in it.
abbrev pub Once {ℓ} : {A : Type ℓ} → (A → A → Bool) → List A → Type 0
Once is_same [] = Unit
Once is_same (t ∷ ts) = (contain is_same ts t ≡ false) × Once is_same ts

module _ {ℓ} {A : Type ℓ} (is_same : A → A → Bool)
    (same_iff : (a b : A) → (is_same a b ≡ true) ↔ (a ≡ b)) where
  contain-nil : (e : A) → contain is_same [] e ≡ false
  unfolding contain fold
  contain-nil e = refl

  same_symm : (a b : A) → is_same a b ≡ is_same b a
  same_symm a b = elim (Bool-cases (is_same a b)) [
    | inl e ↦ e ∙ sym ((same_iff b a).1 (sym ((same_iff a b).0 e)))
    | inr apart ↦ elim (Bool-cases (is_same b a)) [
      | inl e ↦ (same_iff a b).1 (sym ((same_iff b a).0 e)) ∙ sym e
      | inr e ↦ apart ∙ sym e
    ]
  ]

  contain-add :
      (acc : List A) (t e : A)
      → contain is_same (add is_same acc t) e ≡ contain is_same acc e || is_same e t
  unfolding add append contain fold
  contain-add acc t e =
      let same : is_same e t ≡ true → contain is_same acc e ≡ contain is_same acc t =
        λ h. ap (contain is_same acc) ((same_iff e t).0 h) in
      elim (Bool-cases (contain is_same acc t)) [
        | inl old ↦ rw (old, if◌then◌else◌) (ground (arith, same, old))
        | inr new ↦
            rw (new, contain-append is_same acc (t ∷ []) e, contain-cons is_same t [] e)
              (ground arith)
      ]

  contain-unique_onto :
      (ts acc : List A) (e : A)
      → contain is_same (fold ts acc (add is_same)) e
        ≡ contain is_same acc e || contain is_same ts e
  unfolding fold
  contain-unique_onto [] acc e =
      sym (or_false (contain is_same acc e))
      ∙ ap (λ b. contain is_same acc e || b) (sym (contain-nil e))
  contain-unique_onto (t ∷ ts) acc e =
      contain-unique_onto ts (add is_same acc t) e
      ∙ ap (λ b. b || contain is_same ts e) (contain-add acc t e)
      ∙ or_assoc (contain is_same acc e) (is_same e t) (contain is_same ts e)
      ∙ ap (λ b. contain is_same acc e || b) (sym (contain-cons is_same t ts e))

  Once-snoc :
      (acc : List A) (t : A)
      → Once is_same acc
      → contain is_same acc t ≡ false
      → Once is_same (acc ++ t ∷ [])
  Once-snoc [] t h f = (contain-nil t, tt)
  Once-snoc (x ∷ acc) t h f =
      let apart : is_same t x || contain is_same acc t ≡ false =
        sym (contain-cons is_same x acc t) ∙ f in
      (
        rw (contain-append is_same acc (t ∷ []) x, contain-cons is_same t [] x, contain-nil x)
            (ground (arith, h.0, apart, same_symm x t)),
        Once-snoc acc t h.1 (ground (arith, apart)),
      )

  Once-add : (acc : List A) (t : A) → Once is_same acc → Once is_same (add is_same acc t)
  unfolding add append
  Once-add acc t h = elim (Bool-cases (contain is_same acc t)) [
    | inl old ↦ rw (old, if◌then◌else◌) h
    | inr fresh ↦ rw (fresh, if◌then◌else◌) (Once-snoc acc t h fresh)
  ]

  Once-unique_onto : (ts acc : List A) → Once is_same acc → Once is_same (fold ts acc (add is_same))
  unfolding fold
  Once-unique_onto [] acc h = h
  Once-unique_onto (t ∷ ts) acc h = Once-unique_onto ts (add is_same acc t) (Once-add acc t h)

  -- `unique` leaves no entry twice, and contains what the list contains.
  pub unique_lem :
      (ts : List A)
      → Once is_same (unique is_same ts)
        × ((e : A) → contain is_same (unique is_same ts) e ≡ contain is_same ts e)
  unfolding unique contain fold
  unique_lem ts = (Once-unique_onto ts [] tt, contain-unique_onto ts [])

  pub contain-difference_set :
      (in1 in2 : List A) (e : A)
      → contain is_same (difference_set is_same in1 in2) e
        ≡ contain is_same in1 e && not (contain is_same in2 e)
  unfolding difference_set remove_if
  contain-difference_set in1 in2 e =
      ap (λ l. contain is_same l e) (filter_lem (λ e. not (contain is_same in2 e)) in1)
      ∙ contain-passing is_same same_iff (λ e. not (contain is_same in2 e)) in1 e
      ∙ and_comm (not (contain is_same in2 e)) (contain is_same in1 e)

  -- The union contains what one of the two contains, nothing twice; the intersection what both
  -- contain; the difference what the first contains alone; the symmetric difference what exactly
  -- one of them contains.
  pub sets_lem :
      (in1 in2 : List A)
      → Once is_same (union_set is_same in1 in2)
        × ((e : A)
            → (contain is_same (union_set is_same in1 in2) e
                ≡ contain is_same in1 e || contain is_same in2 e)
              × (contain is_same (intersection_set is_same in1 in2) e
                  ≡ contain is_same in1 e && contain is_same in2 e)
              × (contain is_same (difference_set is_same in1 in2) e
                  ≡ contain is_same in1 e && not (contain is_same in2 e))
              × (contain is_same (symmetric_difference_set is_same in1 in2) e
                  ≡ (contain is_same in1 e && not (contain is_same in2 e))
                    || (contain is_same in2 e && not (contain is_same in1 e))))
  unfolding union_set intersection_set symmetric_difference_set concat_onto
  sets_lem in1 in2 = (
    (unique_lem (in1 ++ in2)).0,
    λ e. (
      (unique_lem (in1 ++ in2)).1 e ∙ contain-append is_same in1 in2 e,
      rw (filter_lem (contain is_same in1) in2)
          (contain-passing is_same same_iff (contain is_same in1) in2 e),
      contain-difference_set in1 in2 e,
      rw
          (
            contain-append is_same (difference_set is_same in1 in2) (difference_set is_same in2 in1)
                e,
            contain-difference_set in1 in2 e,
          )
          (ap (λ b. (contain is_same in1 e && not (contain is_same in2 e)) || b)
            (contain-difference_set in2 in1 e)),
    ),
  )
