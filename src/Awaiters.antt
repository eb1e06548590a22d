-- ===== src/Awaiters.antt =====
-- Intrusive lists of awaiters: the `next` fields that lib/co_context/co/mutex.cpp and
-- lib/co_context/co/semaphore.cpp link, and the loop by which both turn a stack of awaiters round.
use mathlib.Core.Path.{subst}
use co_context.Prelude.{
  ℕ, zero, suc, ◌<◌, ◌≡◌, ◌≢◌, refl, sym, ap, ◌∙◌, Option, none, some, List, [], ◌∷◌, ◌++◌, reverse,
  reverse-cons, append_assoc, false, ◌==◌, if◌then◌else◌, arith, length, Fresh, All, Distinct,
  Disjoint, Disjoint-cons, Disjoint-nil, append-nil,
}

-- The address of an awaiter, a multiple of its alignment; 0 is nullptr.
abbrev pub Ptr : Type 0
Ptr = ℕ

-- The `next` field of the awaiter at each address.
abbrev pub Links : Type 0
Links = Ptr → Ptr

-- `p->next = q`
abbrev pub set_next : Links → Ptr → Ptr → Links
set_next next p q a = if a == p then q else next a

-- The list from `p` to nullptr holds these awaiters.
abbrev pub Chain : Links → Ptr → List Ptr → Type 0
Chain next p [] = p ≡ 0
Chain next p (x ∷ xs) = (p ≡ x) × (x ≢ 0) × Chain next (next x) xs

pub Chain-frame :
    (next next' : Links) (p : Ptr) (xs : List Ptr)
    → All (λ x. next' x ≡ next x) xs
    → Chain next p xs
    → Chain next' p xs
Chain-frame next next' p [] f c = c
Chain-frame next next' p (x ∷ xs) f c =
    (c.0, c.1, rw (f.0) (Chain-frame next next' (next x) xs f.1 c.2))

set_next-same :
    (next : Links) (a q : Ptr) (xs : List Ptr)
    → Fresh a xs
    → All (λ x. set_next next a q x ≡ next x) xs
set_next-same next a q [] f = tt
set_next-same next a q (x ∷ xs) f = (ground (arith, f.0), set_next-same next a q xs f.1)

-- A write to the link of another awaiter leaves a list as it is.
pub Chain-set_next :
    (next : Links) (a q p : Ptr) (xs : List Ptr)
    → Fresh a xs
    → Chain next p xs
    → Chain (set_next next a q) p xs
Chain-set_next next a q p xs f =
    Chain-frame next (set_next next a q) p xs (set_next-same next a q xs f)

-- do { tmp = node->next; node->next = resume_head; resume_head = node; node = tmp; }
-- while (node != nullptr); `none` means that the fuel ran out.
unfoldable pub reverse_loop : ℕ → Links → (node resume_head : Ptr) → Option (Links × Ptr)
reverse_loop zero next node resume_head = none
reverse_loop (suc fuel) next node resume_head =
    let tmp = next node in
    let next' = set_next next node resume_head in
    let rest = reverse_loop fuel next' tmp node in if tmp == 0 then some (next', node) else rest

-- An awaiter whose link is set to a list heads it.
pub Chain-turned :
    (next : Links) (node head x : Ptr) (ys : List Ptr)
    → node ≡ x
    → Chain next head ys
    → Fresh node ys
    → Chain (set_next next node head) (set_next next node head x) ys
Chain-turned next node head x ys e d f =
    let turned : set_next next node head x ≡ head = ground arith in
    rw turned (Chain-set_next next node head head ys f d)

abbrev pub Reverses : ℕ → Links → Ptr → Ptr → List Ptr → List Ptr → Type 0
Reverses fuel next node head xs ys =
    (next' : Links) × (p : Ptr) × (reverse_loop fuel next node head ≡ some (next', p))
    × Chain next' p (reverse xs ++ ys)
    × ((a : Ptr) → Fresh a xs → next' a ≡ next a)

-- With as much fuel as there are awaiters, the loop ends, and has put the awaiters of the stack in
-- the opposite order before the list `ys`; the links of other awaiters are as before.
pub reverse_loop_lem :
    (fuel : ℕ) (next : Links) (node head x : Ptr) (xs ys : List Ptr)
    → length xs < fuel
    → Chain next node (x ∷ xs)
    → Chain next head ys
    → Distinct (x ∷ xs)
    → Disjoint (x ∷ xs) ys
    → Reverses fuel next node head (x ∷ xs) ys
unfolding reverse_loop
reverse_loop_lem zero next node head x xs ys h c d u v = absurd (omega arith)
reverse_loop_lem (suc fuel) next node head x [] ys h c d u v = (
  set_next next node head,
  node,
  ground arith,
  (c.0, c.1, Chain-turned next node head x ys c.0 d (rw (c.0) v.0)),
  λ a f. ground (arith, f.0),
)
reverse_loop_lem (suc fuel) next node head x (y ∷ xs) ys h c d u v =
    let (next'', p, run, chain, frame) =
      reverse_loop_lem fuel next' (next node) node y xs (x ∷ ys) (omega arith) below above u.1
        (Disjoint-cons (y ∷ xs) x ys u.0 v.1) in
    (
      next'',
      p,
      rw more run,
      rw (reverse-cons x (y ∷ xs), append_assoc (reverse (y ∷ xs)) (x ∷ []) ys) chain,
      λ a f. frame a f.1 ∙ ground (arith, f.0),
    )
  where
    next' : Links
    next' = set_next next node head

    more : (next node == 0) ≡ false
    more = ground (arith, ap next (c.0), c.2.0, c.2.1)

    below : Chain next' (next node) (y ∷ xs)
    below =
        Chain-set_next next node head (next node) (y ∷ xs)
          (subst (λ t. Fresh t (y ∷ xs)) (sym (c.0)) u.0) (rw (c.0) (c.2))

    above : Chain next' node (x ∷ ys)
    above = (c.0, c.1, Chain-turned next node head x ys c.0 d (rw (c.0) v.0))

-- The fuel does not change the result.
pub reverse_loop_agree :
    (f g : ℕ) (next : Links) (node head : Ptr) (r t : Links × Ptr)
    → reverse_loop f next node head ≡ some r
    → reverse_loop g next node head ≡ some t
    → r ≡ t
unfolding reverse_loop
reverse_loop_agree zero g next node head r t p q = cc
reverse_loop_agree (suc f) zero next node head r t p q = cc
reverse_loop_agree (suc f) (suc g) next node head r t p q =
    ground (arith, reverse_loop_agree f g (set_next next node head) (next node) node r t)

pub Chain-null : (next : Links) (p : Ptr) (xs : List Ptr) → p ≡ 0 → Chain next p xs → xs ≡ []
Chain-null next p [] e c = refl
Chain-null next p (x ∷ xs) e c = absurd (c.1 (sym (c.0) ∙ e))

pub Chain-cons :
    (next : Links) (p : Ptr) (xs : List Ptr)
    → p ≢ 0
    → Chain next p xs
    → (rest : List Ptr) × (xs ≡ p ∷ rest)
Chain-cons next p [] ne c = absurd (ne c)
Chain-cons next p (x ∷ xs) ne c = (xs, ap (λ t. t ∷ xs) (sym (c.0)))

-- Whatever fuel made the loop end, the stack stands in the opposite order.
pub reverse_loop-Chain :
    (fuel : ℕ) (next : Links) (node head : Ptr) (xs : List Ptr) (r : Links × Ptr)
    → xs ≢ []
    → Chain next node xs
    → head ≡ 0
    → Distinct xs
    → reverse_loop fuel next node head ≡ some r
    → Chain r.0 r.1 (reverse xs) × ((a : Ptr) → Fresh a xs → r.0 a ≡ next a)
reverse_loop-Chain fuel next node head [] r ne c z d run = absurd (ne refl)
reverse_loop-Chain fuel next node head (x ∷ xs) r ne c z d run =
    let (next', p, run', chain, frame) =
      reverse_loop_lem (suc (length xs)) next node head x xs [] (omega arith) c z d
        (Disjoint-nil (x ∷ xs)) in
    subst
      (λ (t : Links × Ptr).
        Chain t.0 t.1 (reverse (x ∷ xs)) × ((a : Ptr) → Fresh a (x ∷ xs) → t.0 a ≡ next a))
      (reverse_loop_agree (suc (length xs)) fuel next node head (next', p) r run' run)
      (rw (append-nil (reverse (x ∷ xs))) at chain, frame)

-- The loop over a stack that is not empty ends.
pub reverse_loop_ends :
    (next : Links) (node head : Ptr) (xs : List Ptr)
    → xs ≢ []
    → Chain next node xs
    → head ≡ 0
    → Distinct xs
    → (next' : Links) × (p : Ptr) × (reverse_loop (length xs) next node head ≡ some (next', p))
reverse_loop_ends next node head [] ne c z d = absurd (ne refl)
reverse_loop_ends next node head (x ∷ xs) ne c z d =
    let (next', p, run, chain, frame) =
      reverse_loop_lem (suc (length xs)) next node head x xs [] (omega arith) c z d
        (Disjoint-nil (x ∷ xs)) in
    (next', p, run)
