-- ===== src/When/Offset.antt =====
-- `buffer_offset_v`: the places of the tasks that have a value among the entries of the buffer.
use co_context.Prelude.{
  ℕ, zero, suc, ◌+◌, ◌^◌, ◌%◌, ◌≤◌, ◌<◌, ◌≡◌, refl, ap, ◌∙◌, List, [], ◌∷◌, Bool, false, not, some,
  if◌then◌else◌, Bool-cases, inl, inr, arith, length, take, word_add, word_sub,
}
use co_context.TypeList.{count, first_n, remove, at, fold}
use co_context.TypeList.Order.{first_n_lem}
use co_context.TypeList.Filter.{passing, filter_lem}
use co_context.When.{buffer_offset}

module _ {A : Type 0} where
  pub at-length : (ts : List A) (idx : ℕ) (t : A) → at ts idx ≡ some t → idx < length ts
  unfolding at
  at-length [] idx t h = cc
  at-length (u ∷ ts) zero t h = omega arith
  at-length (u ∷ ts) (suc idx) t h = omega (arith, at-length ts idx t h)

module _ {A : Type 0} (is_same : A → A → Bool) (void : A) where
  abbrev pub voids : List A → ℕ
  voids [] = 0
  voids (t ∷ ts) = (if is_same void t then 1 else 0) + voids ts

  -- How many of the first `idx` types are not void.
  abbrev pub place : ℕ → List A → ℕ
  place zero ts = 0
  place (suc idx) [] = 0
  place (suc idx) (t ∷ ts) = if is_same void t then place idx ts else suc (place idx ts)

  -- The task at `idx` has a value, of this type.
  abbrev pub Valued : List A → ℕ → A → Type 0
  Valued ts idx t = (at ts idx ≡ some t) × (is_same void t ≡ false)

  count_onto :
      (ts : List A) (acc : ℕ)
      → acc + length ts < 2 ^ 32
      → fold ts acc (λ acc t. word_add (2 ^ 32) acc (if is_same void t then 1 else 0))
        ≡ acc + voids ts
  unfolding fold
  count_onto [] acc h = ground arith
  count_onto (t ∷ ts) acc h = elim (Bool-cases (is_same void t)) [
    | inl y ↦
        rw (y, fold) (count_onto ts ((acc + 1) % 2 ^ 32) (ground (arith, h)) ∙ ground (arith, h, y))
    | inr n ↦
        rw (n, fold) (count_onto ts ((acc + 0) % 2 ^ 32) (ground (arith, h)) ∙ ground (arith, h, n))
  ]

  voids-take :
      (ts : List A) (idx : ℕ) (t : A)
      → Valued ts idx t
      → voids (take (suc idx) ts) + place idx ts ≡ idx
  unfolding at
  voids-take [] idx t h = cc
  voids-take (u ∷ ts) zero t h = ground (arith, h.0, h.1)
  voids-take (u ∷ ts) (suc idx) t h = ground (arith, voids-take ts idx t h)

  pub place_at :
      (ts : List A) (idx : ℕ) (t : A)
      → Valued ts idx t
      → at (passing (λ u. not (is_same void u)) ts) (place idx ts) ≡ some t
  unfolding at
  place_at [] idx t h = h.0
  place_at (u ∷ ts) zero t h = ground (arith, h.0, h.1)
  place_at (u ∷ ts) (suc idx) t h = elim (Bool-cases (is_same void u)) [
    | inl y ↦ rw y (place_at ts idx t h)
    | inr n ↦ rw n (place_at ts idx t h)
  ]

  pub place_lt : (ts : List A) (i j : ℕ) (t : A) → i < j → Valued ts i t → place i ts < place j ts
  unfolding at
  place_lt [] i j t h v = cc
  place_lt (u ∷ ts) i zero t h v = absurd (omega (arith, h))
  place_lt (u ∷ ts) zero (suc j) t h v = ground (arith, v.0, v.1)
  place_lt (u ∷ ts) (suc i) (suc j) t h v = ground (arith, place_lt ts i j t (omega (arith, h)) v)

  length-take : (n : ℕ) (ts : List A) → length (take n ts) ≤ length ts
  length-take zero ts = omega arith
  length-take (suc n) [] = omega arith
  length-take (suc n) (t ∷ ts) = omega (arith, length-take n ts)

  first_n_all :
      (ts : List A) (idx : ℕ) → idx < length ts → first_n ts (idx + 1) ≡ some (take (suc idx) ts)
  first_n_all [] idx h = absurd (omega (arith, h))
  first_n_all (t ∷ ts) idx h = first_n_lem (t ∷ ts) (idx + 1) ∙ ground (arith, h)

  offset_word :
      (c v idx p : ℕ) → c ≡ 0 + v → v + p ≡ idx → idx < 2 ^ 32 → word_sub (2 ^ 64) idx c ≡ p
  offset_word c v idx p e sum h = ground arith

  -- The offset of a task that has a value is the number of tasks before it that have one.
  pub buffer_offset-place :
      (ts : List A) (idx : ℕ) (t : A)
      → length ts < 2 ^ 32
      → Valued ts idx t
      → buffer_offset is_same void ts idx ≡ some (place idx ts)
  unfolding buffer_offset count
  buffer_offset-place ts idx t short v =
      let inside = at-length ts idx t v.0 in
      let few = length-take (suc idx) ts in
      let counted = count_onto (take (suc idx) ts) 0 (omega (arith, few, short)) in
      let sum = voids-take ts idx t v in
      rw (buffer_offset, first_n_all ts idx inside)
        (ap some (
          offset_word _ (voids (take (suc idx) ts)) idx (place idx ts) counted sum
            (omega (arith, inside, short))))

  -- The entry of the buffer that a task constructs has the type of its value.
  pub buffer_offset-at :
      (ts : List A) (idx : ℕ) (t : A)
      → length ts < 2 ^ 32
      → at ts idx ≡ some t
      → is_same void t ≡ false
      → (k : ℕ) × (buffer_offset is_same void ts idx ≡ some k)
        × (at (remove is_same ts void) k ≡ some t)
  unfolding remove
  buffer_offset-at ts idx t short e nv = (
    place idx ts,
    buffer_offset-place ts idx t short (e, nv),
    rw (filter_lem (λ u. not (is_same void u)) ts) (place_at ts idx t (e, nv)),
  )

  -- Every entry that is not void is the one of a task.
  pub place_onto :
      (ts : List A) (k : ℕ) (t : A)
      → at (passing (λ u. not (is_same void u)) ts) k ≡ some t
      → (idx : ℕ) × Valued ts idx t × (place idx ts ≡ k)
  unfolding at
  place_onto [] k t h = cc
  place_onto (u ∷ ts) zero t h = elim (Bool-cases (is_same void u)) [
    | inl y ↦ let (idx, v, e) = place_onto ts zero t (rw y at h) in (suc idx, v, rw y e)
    | inr n ↦
        let same : some u ≡ some t = rw n at h in (zero, (same, ground (arith, n, same)), refl)
  ]
  place_onto (u ∷ ts) (suc k) t h = elim (Bool-cases (is_same void u)) [
    | inl y ↦ let (idx, v, e) = place_onto ts (suc k) t (rw y at h) in (suc idx, v, rw y e)
    | inr n ↦ let (idx, v, e) = place_onto ts k t (rw n at h) in (suc idx, v, rw n (ap suc e))
  ]
