-- ===== src/SharedTask/Refs/Counts.antt =====
-- The reference count of a shared task is the number of objects that hold it, and the frame is
-- destroyed when the last of them goes.
use co_context.Prelude.{
  ℕ, zero, suc, ◌+◌, ◌-◌, ◌^◌, ◌%◌, ◌≡◌, ◌≢◌, ◌<◌, ◌≤◌, refl, sym, ap, ◌∙◌, List, [], ◌∷◌, ◌++◌,
  true, false, ◌==◌, if◌then◌else◌, length, set, get_or, arith,
}
use native.Mathlib.Decide.{ℕ_discrete}
use mathlib.Core.Path.{subst}
use co_context.SharedTask.Refs.{Frames, change, add_ref, try_detach, destroy, copied}

abbrev pub one_if : (x c : ℕ) → ℕ
one_if x c = if x == c then 1 else 0

-- How many objects hold the frame.
abbrev pub holders : ℕ → List ℕ → ℕ
holders c [] = 0
holders c (x ∷ xs) = one_if x c + holders c xs

pub holders-append : (c : ℕ) (xs ys : List ℕ) → holders c (xs ++ ys) ≡ holders c xs + holders c ys
holders-append c [] ys = omega arith
holders-append c (x ∷ xs) ys = omega (arith, holders-append c xs ys)

pub holders-set :
    (c : ℕ) (xs : List ℕ) (i v : ℕ)
    → i < length xs
    → holders c (set xs i v) + one_if (get_or xs i 0) c ≡ holders c xs + one_if v c
holders-set c [] i v h = absurd (omega (arith, h))
holders-set c (x ∷ xs) zero v h = omega arith
holders-set c (x ∷ xs) (suc i) v h = omega (arith, holders-set c xs i v (omega (arith, h)))

pub holders_le : (c : ℕ) (xs : List ℕ) → holders c xs ≤ length xs
holders_le c [] = omega arith
holders_le c (x ∷ xs) = ground (arith, holders_le c xs)

pub held : (xs : List ℕ) (i : ℕ) → get_or xs i 0 ≢ 0 → 1 ≤ holders (get_or xs i 0) xs
held [] i ne = absurd (ne refl)
held (x ∷ xs) zero ne = ground arith
held (x ∷ xs) (suc i) ne = ground (arith, held xs i ne)

-- The frames agree with these numbers of holders.
pub record Agrees (hold : ℕ → ℕ) (f : Frames) : Type 0 where
  pub counted : (c : ℕ) → c ≢ 0 → f.ref_count c ≡ hold c
  pub balance : (c : ℕ) → c ≢ 0 → f.destroyed c + (if hold c == 0 then 0 else 1) ≡ f.made c

pub restate :
    {hold hold' : ℕ → ℕ} {f : Frames}
    → ((c : ℕ) → c ≢ 0 → hold' c ≡ hold c)
    → Agrees hold f
    → Agrees hold' f
restate same a = record {
  counted = λ c nz. a.counted c nz ∙ sym (same c nz);
  balance = λ c nz. rw (same c nz) (a.balance c nz);
}

add_ref-Agrees :
    {hold : ℕ → ℕ} {f : Frames} (h : ℕ)
    → h ≢ 0
    → Agrees hold f
    → 1 ≤ hold h
    → hold h + 1 < 2 ^ 32
    → Agrees (λ c. hold c + one_if h c) (add_ref h f)
unfolding add_ref
add_ref-Agrees {hold} h nz a some_one fits = record {
  counted = λ c cnz. elim (ℕ_discrete c h) [
    | yes e ↦ ground (arith, e, ap hold e, a.counted h nz, fits)
    | no ne ↦ ground (arith, ne, a.counted c cnz)
  ];
  balance = λ c cnz. elim (ℕ_discrete c h) [
    | yes e ↦ ground (arith, e, ap hold e, a.balance c cnz, some_one)
    | no ne ↦ ground (arith, ne, a.balance c cnz)
  ];
}

-- `destroy` when this is the last object, and when it is not.
last-Agrees :
    {hold : ℕ → ℕ} {f : Frames} (h : ℕ)
    → h ≢ 0
    → Agrees hold f
    → hold h ≡ 1
    → Agrees (λ c. hold c - one_if h c) (destroy h f)
unfolding destroy try_detach
last-Agrees {hold} {f} h nz a one =
    let counts = a.counted h nz in
    let now : destroy h f ≡ record f {
      ref_count = change f.ref_count h 0;
      destroyed = change f.destroyed h (suc (f.destroyed h));
    } =
      let not_null : (h == 0) ≡ false = ground (arith, nz) in
      let last : (f.ref_count h == 1) ≡ true = ground (arith, counts, one) in
      let zero : (f.ref_count h + (2 ^ 32 - 1)) % 2 ^ 32 ≡ 0 = ground (arith, counts, one) in
      rw (not_null, last, zero) in
    subst (Agrees (λ c. hold c - one_if h c)) (sym now) (record {
      counted = λ c cnz. elim (ℕ_discrete c h) [
        | yes e ↦ ground (arith, e, ap hold e, one)
        | no ne ↦ ground (arith, ne, a.counted c cnz)
      ];
      balance = λ c cnz. elim (ℕ_discrete c h) [
        | yes e ↦ ground (arith, e, ap hold e, ap f.destroyed e, a.balance c cnz, one)
        | no ne ↦ ground (arith, ne, a.balance c cnz)
      ];
    })

others-Agrees :
    {hold : ℕ → ℕ} {f : Frames} (h : ℕ)
    → h ≢ 0
    → Agrees hold f
    → 2 ≤ hold h
    → hold h < 2 ^ 32
    → Agrees (λ c. hold c - one_if h c) (destroy h f)
unfolding destroy try_detach
others-Agrees {hold} {f} h nz a many fits =
    let counts = a.counted h nz in
    let now : destroy h f ≡ record f { ref_count = change f.ref_count h (f.ref_count h - 1) } =
      let not_null : (h == 0) ≡ false = ground (arith, nz) in
      let shared : (f.ref_count h == 1) ≡ false = ground (arith, counts, many) in
      let fewer : (f.ref_count h + (2 ^ 32 - 1)) % 2 ^ 32 ≡ f.ref_count h - 1 =
        ground (arith, counts, many, fits) in
      rw (not_null, shared, fewer) in
    subst (Agrees (λ c. hold c - one_if h c)) (sym now) (record {
      counted = λ c cnz. elim (ℕ_discrete c h) [
        | yes e ↦ ground (arith, e, ap hold e, counts, many)
        | no ne ↦ ground (arith, ne, a.counted c cnz)
      ];
      balance = λ c cnz. elim (ℕ_discrete c h) [
        | yes e ↦ ground (arith, e, ap hold e, a.balance c cnz, many)
        | no ne ↦ ground (arith, ne, a.balance c cnz)
      ];
    })

pub copied-Agrees :
    {hold : ℕ → ℕ} {f : Frames} (h : ℕ)
    → Agrees hold f
    → (h ≢ 0 → (1 ≤ hold h) × (hold h + 1 < 2 ^ 32))
    → Agrees (λ c. hold c + one_if h c) (copied h f)
unfolding copied add_ref
copied-Agrees {hold} {f} h a room = elim (ℕ_discrete h 0) [
  | yes z ↦
      let same : copied h f ≡ f = ground (arith, z) in
      subst (Agrees (λ c. hold c + one_if h c)) (sym same)
        (restate (λ c nz. ground (arith, z, nz)) a)
  | no nz ↦
      let same : copied h f ≡ add_ref h f = ground (arith, nz) in
      subst (Agrees (λ c. hold c + one_if h c)) (sym same)
        (add_ref-Agrees h nz a (room nz).0 (room nz).1)
]

pub destroy-Agrees :
    {hold : ℕ → ℕ} {f : Frames} (h : ℕ)
    → Agrees hold f
    → (h ≢ 0 → (1 ≤ hold h) × (hold h < 2 ^ 32))
    → Agrees (λ c. hold c - one_if h c) (destroy h f)
unfolding destroy try_detach
destroy-Agrees {hold} {f} h a room = elim (ℕ_discrete h 0) [
  | yes z ↦
      let same : destroy h f ≡ f = ground (arith, z) in
      subst (Agrees (λ c. hold c - one_if h c)) (sym same)
        (restate (λ c nz. ground (arith, z, nz)) a)
  | no nz ↦ elim (ℕ_discrete (hold h) 1) [
    | yes one ↦ last-Agrees h nz a one
    | no more ↦ others-Agrees h nz a (omega (arith, (room nz).0, more)) (room nz).1
  ]
]
