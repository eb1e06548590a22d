-- ===== src/TypeList/Filter.antt =====
-- `filter` and what stands on it.
use co_context.Prelude.{
  ◌≡◌, ◌↔◌, refl, sym, ap, ◌∙◌, List, [], ◌∷◌, ◌++◌, Bool, true, false, ◌&&◌, ◌||◌, append-nil,
  append_assoc, if◌then◌else◌, Bool-cases, inl, inr,
}
use native.Mathlib.Omega.{arith}
use co_context.TypeList.{filter_onto, filter, contain, fold}

-- The entries that pass, in their order.
abbrev pub passing {ℓ} : {A : Type ℓ} → (A → Bool) → List A → List A
passing p [] = []
passing p (h ∷ ts) = if p h then h ∷ passing p ts else passing p ts

module _ {ℓ} {A : Type ℓ} (p : A → Bool) where
  filter_onto_lem : (ts out : List A) → filter_onto p ts out ≡ out ++ passing p ts
  unfolding filter_onto
  filter_onto_lem [] out = sym (append-nil out)
  filter_onto_lem (h ∷ ts) out = elim (Bool-cases (p h)) [
    | inl kept ↦
        rw (kept, filter_onto)
          (filter_onto_lem ts (out ++ h ∷ []) ∙ append_assoc out (h ∷ []) (passing p ts))
    | inr dropped ↦ rw (dropped, filter_onto) (filter_onto_lem ts out)
  ]

  -- `filter` keeps the entries that pass, in their order.
  pub filter_lem : (ts : List A) → filter p ts ≡ passing p ts
  unfolding filter
  filter_lem ts = filter_onto_lem ts []

  pub passing-append : (xs ys : List A) → passing p (xs ++ ys) ≡ passing p xs ++ passing p ys
  passing-append [] ys = refl
  passing-append (x ∷ xs) ys = elim (Bool-cases (p x)) [
    | inl kept ↦ rw kept (ap (λ l. x ∷ l) (passing-append xs ys))
    | inr dropped ↦ rw dropped (passing-append xs ys)
  ]

pub or_assoc : (a b c : Bool) → (a || b) || c ≡ a || (b || c)
or_assoc true b c = refl
or_assoc false b c = refl

module _ {ℓ} {A : Type ℓ} (is_same : A → A → Bool) where
  contain_onto :
      (ts : List A) (e : A) (acc : Bool)
      → fold ts acc (λ acc t. acc || is_same e t) ≡ acc || contain is_same ts e
  unfolding fold contain
  contain_onto [] e true = refl
  contain_onto [] e false = refl
  contain_onto (t ∷ ts) e true = contain_onto ts e true
  contain_onto (t ∷ ts) e false = refl

  pub contain-cons :
      (t : A) (ts : List A) (e : A)
      → contain is_same (t ∷ ts) e ≡ is_same e t || contain is_same ts e
  unfolding fold contain
  contain-cons t ts e = contain_onto ts e (is_same e t)

  pub contain-append :
      (xs ys : List A) (e : A)
      → contain is_same (xs ++ ys) e ≡ contain is_same xs e || contain is_same ys e
  unfolding contain fold
  contain-append [] ys e = refl
  contain-append (x ∷ xs) ys e =
      rw (contain-cons x (xs ++ ys) e, contain-cons x xs e, contain-append xs ys e)
        (sym (or_assoc (is_same e x) (contain is_same xs e) (contain is_same ys e)))

  pub contain-passing :
      (same_iff : (a b : A) → (is_same a b ≡ true) ↔ (a ≡ b)) (p : A → Bool) (ts : List A) (e : A)
      → contain is_same (passing p ts) e ≡ p e && contain is_same ts e
  unfolding contain fold
  contain-passing same_iff p [] e = ground arith
  contain-passing same_iff p (t ∷ ts) e =
      let same : is_same e t ≡ true → p e ≡ p t = λ h. ap p ((same_iff e t).0 h) in
      elim (Bool-cases (p t)) [
        | inl kept ↦
            rw (kept, contain-cons t ts e, contain-cons t (passing p ts) e)
              (ground (arith, same, kept, contain-passing same_iff p ts e))
        | inr dropped ↦
            rw (dropped, contain-cons t ts e)
              (ground (arith, same, dropped, contain-passing same_iff p ts e))
      ]
