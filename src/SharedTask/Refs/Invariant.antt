-- ===== src/SharedTask/Refs/Invariant.antt =====
-- Every operation on the objects of a shared task keeps the count right.
use native.Mathlib.Decide.{ℕ_discrete}
use mathlib.Core.Path.{subst}
use co_context.Prelude.{
  ℕ, zero, suc, ◌+◌, ◌-◌, ◌^◌, ◌≡◌, ◌≢◌, ◌<◌, ◌≤◌, refl, ap, ◌∙◌, List, [], ◌∷◌, ◌++◌, ◌==◌,
  if◌then◌else◌, length, set, get_or, true, false, arith, length-set, length-append, get_or-set_ne,
  get_or-set_self,
}
use co_context.SharedTask.Refs.{
  destroy, make, Handles, coroutine_of, copied, copy_assign, move_assign, Step, constructs, copies,
  moves, destructs, copy_assigns, move_assigns, swaps, Reach, here, later,
}
use co_context.SharedTask.Refs.Counts.{
  one_if, holders, holders-append, holders-set, holders_le, held, Agrees, restate, copied-Agrees,
  destroy-Agrees,
}

abbrev Inv : Handles → Type 0
Inv s = Agrees (λ c. holders c s.objects) s.frames

null_one : (c : ℕ) → c ≢ 0 → one_if 0 c ≡ 0
null_one c nz = ground (arith, nz)

own_le : (c : ℕ) (xs : List ℕ) (i : ℕ) → c ≢ 0 → one_if (get_or xs i 0) c ≤ holders c xs
own_le c [] i nz = ground (arith, nz)
own_le c (x ∷ xs) zero nz = omega arith
own_le c (x ∷ xs) (suc i) nz = omega (arith, own_le c xs i nz)

-- After a write of the entry at `j` to `i`, the entry at `j` is as before.
copied_entry :
    (xs : List ℕ) (i j : ℕ) → i < length xs → get_or (set xs i (get_or xs j 0)) j 0 ≡ get_or xs j 0
copied_entry xs i j lt = elim (ℕ_discrete i j) [
  | yes e ↦
      subst (λ n. get_or (set xs i (get_or xs j 0)) n 0 ≡ get_or xs j 0) e
        (get_or-set_self xs i (get_or xs j 0) 0 lt)
  | no ne ↦ get_or-set_ne xs (get_or xs j 0) 0 ne
]

-- The number of holders when `v` is then written to `j`.
twice_set :
    (c : ℕ) (xs : List ℕ) (i j v : ℕ)
    → i < length xs
    → j < length xs
    → holders c (set (set xs i (get_or xs j 0)) j v) + one_if (get_or xs i 0) c
      ≡ holders c xs + one_if v c
twice_set c xs i j v lti ltj =
    let first = holders-set c xs i (get_or xs j 0) lti in
    let second =
      holders-set c (set xs i (get_or xs j 0)) j v
        (omega (arith, ltj, length-set xs i (get_or xs j 0))) in
    omega (arith, first, second, ap (λ x. one_if x c) (copied_entry xs i j lti))

constructs-Inv :
    (s : Handles) (c : ℕ)
    → c ≢ 0
    → s.frames.made c ≡ 0
    → Inv s
    → Inv (record { objects = s.objects ++ c ∷ []; frames = make c s.frames })
unfolding make
constructs-Inv s c nz new v =
    let before = v.balance c nz in
    let none : holders c s.objects ≡ 0 = ground (arith, before, new) in
    restate (λ b bnz. holders-append b s.objects (c ∷ []))
      (record {
        counted = λ b bnz. elim (ℕ_discrete b c) [
          | yes e ↦ ground (arith, e, ap (λ x. holders x s.objects) e, none)
          | no ne ↦ ground (arith, ne, v.counted b bnz)
        ];
        balance = λ b bnz. elim (ℕ_discrete b c) [
          | yes e ↦ ground (
            arith,
            e,
            ap (λ x. holders x s.objects) e,
            ap s.frames.destroyed e,
            before,
            new,
            none,
          )
          | no ne ↦ ground (arith, ne, v.balance b bnz)
        ];
      })

module _ (s : Handles) (v : Inv s) (short : length s.objects + 1 < 2 ^ 32) where
  room :
      (i : ℕ)
      → coroutine_of s.objects i ≢ 0
      → (1 ≤ holders (coroutine_of s.objects i) s.objects)
        × (holders (coroutine_of s.objects i) s.objects + 1 < 2 ^ 32)
  room i nz =
      (held s.objects i nz, omega (arith, short, holders_le (coroutine_of s.objects i) s.objects))

  destroyed_at :
      (i : ℕ)
      → Agrees
          (λ c. holders c s.objects - one_if (coroutine_of s.objects i) c)
          (destroy (coroutine_of s.objects i) s.frames)
  destroyed_at i =
      destroy-Agrees (coroutine_of s.objects i) v
        (λ nz. ((room i nz).0, omega (arith, (room i nz).1)))

  copies-Inv :
      (i : ℕ)
      → Inv (record {
        objects = s.objects ++ coroutine_of s.objects i ∷ [];
        frames = copied (coroutine_of s.objects i) s.frames;
      })
  copies-Inv i =
      restate (λ c nz. holders-append c s.objects (coroutine_of s.objects i ∷ []) ∙ omega arith)
        (copied-Agrees (coroutine_of s.objects i) v (room i))

  moves-Inv :
      (i : ℕ)
      → i < length s.objects
      → Inv (record s { objects = set s.objects i 0 ++ coroutine_of s.objects i ∷ [] })
  moves-Inv i lt =
      restate
        (λ c nz. omega (
          arith,
          null_one c nz,
          holders-append c (set s.objects i 0) (coroutine_of s.objects i ∷ []),
          holders-set c s.objects i 0 lt,
        ))
        v

  destructs-Inv :
      (i : ℕ)
      → i < length s.objects
      → Inv (record s {
        objects = set s.objects i 0;
        frames = destroy (coroutine_of s.objects i) s.frames;
      })
  destructs-Inv i lt =
      restate (λ c nz. omega (arith, null_one c nz, holders-set c s.objects i 0 lt))
        (destroyed_at i)

  copy_assigns-Inv : (i j : ℕ) → i < length s.objects → Inv (copy_assign i j s)
  unfolding copy_assign
  copy_assigns-Inv i j lt =
      elim (ℕ_discrete (coroutine_of s.objects i) (coroutine_of s.objects j)) [
        | yes e ↦
            let same : (coroutine_of s.objects i == coroutine_of s.objects j) ≡ true =
              ground (arith, e) in
            rw same v
        | no ne ↦
            let other : (coroutine_of s.objects i == coroutine_of s.objects j) ≡ false =
              ground (arith, ne) in
            let none : one_if (coroutine_of s.objects i) (coroutine_of s.objects j) ≡ 0 =
              ground (arith, ne) in
            rw other (
              restate
                (λ c nz. omega (
                  arith,
                  own_le c s.objects i nz,
                  holders-set c s.objects i (coroutine_of s.objects j) lt,
                ))
                (copied-Agrees (coroutine_of s.objects j) (destroyed_at i) (λ nz.
                  let (one, fits) = room j nz in
                  (omega (arith, none, one), omega (arith, none, fits)))))
      ]

  move_assigns-Inv :
      (i j : ℕ) → i < length s.objects → j < length s.objects → Inv (move_assign i j s)
  unfolding move_assign
  move_assigns-Inv i j lti ltj = elim (ℕ_discrete i j) [
    | yes e ↦ let same : (i == j) ≡ true = ground (arith, e) in rw same v
    | no ne ↦
        let other : (i == j) ≡ false = ground (arith, ne) in
        rw other (
          restate
            (λ c nz.
              omega (
                arith,
                null_one c nz,
                own_le c s.objects i nz,
                twice_set c s.objects i j 0 lti ltj,
              ))
            (destroyed_at i))
  ]

  swaps-Inv :
      (i j : ℕ)
      → i < length s.objects
      → j < length s.objects
      → Inv (record s {
        objects = set (set s.objects i (coroutine_of s.objects j)) j (coroutine_of s.objects i);
      })
  swaps-Inv i j lti ltj =
      restate (λ c nz. omega (arith, twice_set c s.objects i j (coroutine_of s.objects i) lti ltj))
        v

length-Step : {s t : Handles} → Step s t → length s.objects ≤ length t.objects
unfolding copy_assign move_assign
length-Step {s} (constructs c nz new) = omega (arith, length-append s.objects (c ∷ []))
length-Step {s} (copies i) = omega (arith, length-append s.objects (coroutine_of s.objects i ∷ []))
length-Step {s} (moves i lt) = omega (
  arith,
  length-append (set s.objects i 0) (coroutine_of s.objects i ∷ []),
  length-set s.objects i 0,
)
length-Step {s} (destructs i lt) = omega (arith, length-set s.objects i 0)
length-Step {s} (copy_assigns i j lt) =
    ground (arith, length-set s.objects i (coroutine_of s.objects j))
length-Step {s} (move_assigns i j lti ltj) = ground (
  arith,
  length-set s.objects i (coroutine_of s.objects j),
  length-set (set s.objects i (coroutine_of s.objects j)) j 0,
)
length-Step {s} (swaps i j lti ltj) = omega (
  arith,
  length-set s.objects i (coroutine_of s.objects j),
  length-set (set s.objects i (coroutine_of s.objects j)) j (coroutine_of s.objects i),
)

Step-Inv : {s t : Handles} → Inv s → length s.objects + 1 < 2 ^ 32 → Step s t → Inv t
Step-Inv {s} v short (constructs c nz new) = constructs-Inv s c nz new v
Step-Inv {s} v short (copies i) = copies-Inv s v short i
Step-Inv {s} v short (moves i lt) = moves-Inv s v short i lt
Step-Inv {s} v short (destructs i lt) = destructs-Inv s v short i lt
Step-Inv {s} v short (copy_assigns i j lt) = copy_assigns-Inv s v short i j lt
Step-Inv {s} v short (move_assigns i j lti ltj) = move_assigns-Inv s v short i j lti ltj
Step-Inv {s} v short (swaps i j lti ltj) = swaps-Inv s v short i j lti ltj

Reach-Inv : {s : Handles} → Reach s → length s.objects + 1 < 2 ^ 32 → Inv s
Reach-Inv here short = record { counted = λ c nz. refl; balance = λ c nz. refl }
Reach-Inv (later {s} {t} r st) short =
    let before : length s.objects + 1 < 2 ^ 32 = omega (arith, short, length-Step st) in
    Step-Inv (Reach-Inv r before) before st

-- Whatever objects are made, copied, moved, assigned, swapped and destroyed, fewer than 2 ^ 32 - 1 in
-- all: the reference count of a frame is the number of objects that hold it, and the frame was
-- destroyed as often as it was made if no object holds it, and otherwise once less.
pub counted_and_destroyed :
    {s : Handles} (c : ℕ)
    → Reach s
    → length s.objects + 1 < 2 ^ 32
    → c ≢ 0
    → (s.frames.ref_count c ≡ holders c s.objects)
      × (s.frames.destroyed c + (if holders c s.objects == 0 then 0 else 1) ≡ s.frames.made c)
counted_and_destroyed c r short nz = let v = Reach-Inv r short in (v.counted c nz, v.balance c nz)
