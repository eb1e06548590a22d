-- ===== src/TypeList/Search.antt =====
-- `find` and `find_if`: the first place, or `npos`.
use native.Mathlib.Nat.{mod-eq_of_lt}
use co_context.Prelude.{
  ℕ, suc, ◌+◌, ◌%◌, ◌^◌, ◌<◌, ◌≡◌, ◌⊎◌, refl, ◌∙◌, List, [], ◌∷◌, Bool, true, some, length, take,
  Bool-cases, inl, inr, arith,
}
use co_context.TypeList.{at, npos, find_if_from, find_if, find_from, find}
use co_context.TypeList.Filter.{passing}

module _ {ℓ} {A : Type ℓ} where
  -- The entry at this place passes, and none before it does.
  pub record IsFirst (p : A → Bool) (ts : List A) (i : ℕ) : Type ℓ where
    pub entry : A
    pub place : at ts i ≡ some entry
    pub passes : p entry ≡ true
    pub none_before : passing p (take i ts) ≡ []

  find_if_from_lem :
      (p : A → Bool) (ts : List A) (offset : ℕ)
      → offset + length ts < 2 ^ 64
      → ((i : ℕ) × (find_if_from p ts offset ≡ offset + i) × (i < length ts) × IsFirst p ts i)
        ⊎ ((find_if_from p ts offset ≡ npos) × (passing p ts ≡ []))
  unfolding find_if_from at
  find_if_from_lem p [] offset h = inr (refl, refl)
  find_if_from_lem p (t ∷ ts) offset h = elim (Bool-cases (p t)) [
    | inl found ↦ inl (
      0,
      rw (found, find_if_from) (omega arith),
      omega arith,
      record { entry = t; place = refl; passes = found; none_before = refl },
    )
    | inr other ↦
        let next : (offset + 1) % 2 ^ 64 ≡ offset + 1 = mod-eq_of_lt (omega arith) in
        elim (find_if_from_lem p ts (offset + 1) (omega arith)) [
          | inl (i, run, inside, first) ↦ inl (
            suc i,
            rw (other, find_if_from, next) (run ∙ omega arith),
            omega arith,
            record {
              entry = first.entry;
              place = first.place;
              passes = first.passes;
              none_before = rw other (first.none_before);
            },
          )
          | inr (run, without) ↦ inr (rw (other, find_if_from, next) run, rw other without)
        ]
  ]

  -- In a list shorter than `npos`, `find_if` gives the first place where an entry passes, or `npos`
  -- if none does.
  pub find_if_lem :
      (p : A → Bool) (ts : List A)
      → length ts < npos
      → ((find_if ts p < npos) × IsFirst p ts (find_if ts p))
        ⊎ ((find_if ts p ≡ npos) × (passing p ts ≡ []))
  unfolding find_if
  find_if_lem p ts h = elim (find_if_from_lem p ts 0 (omega arith)) [
    | inl (i, run, inside, first) ↦
        let here : i ≡ find_if_from p ts 0 = omega arith in inl (omega arith, rw (← here) first)
    | inr (run, without) ↦ inr (run, without)
  ]

  find_from-find_if_from :
      (is_same : A → A → Bool) (e : A) (ts : List A) (offset : ℕ)
      → find_from is_same e ts offset ≡ find_if_from (is_same e) ts offset
  unfolding find_from find_if_from
  find_from-find_if_from is_same e [] offset = refl
  find_from-find_if_from is_same e (t ∷ ts) offset = elim (Bool-cases (is_same e t)) [
    | inl found ↦ rw (found, find_from, find_if_from) refl
    | inr other ↦
        rw (other, find_from, find_if_from)
          (find_from-find_if_from is_same e ts ((offset + 1) % 2 ^ 64))
  ]

  -- To find an entry is to find one that is the same.
  pub find-find_if :
      (is_same : A → A → Bool) (ts : List A) (e : A) → find is_same ts e ≡ find_if ts (is_same e)
  unfolding find find_if
  find-find_if is_same ts e = find_from-find_if_from is_same e ts 0
