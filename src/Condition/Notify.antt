-- ===== src/Condition/Notify.antt =====
-- Whom `notify_one` wakes.
use co_context.Prelude.{
  ℕ, ◌≤◌, ◌≡◌, ◌≢◌, refl, sym, ap, ◌∙◌, some, none, List, [], ◌∷◌, ◌++◌, reverse, append-nil, true,
  false, ◌==◌, arith, length, length-reverse, Distinct, Disjoint-nil,
}
use co_context.Awaiters.{Ptr, Chain}
use co_context.Condition.{
  Condition, take_ready, publish, turn_and_publish, notify_after, notify_one,
}
use co_context.Condition.Turn.{turn_loop_lem}

-- The coroutines that wait, the first to wake first.
pub record Waiting (c : Condition) (q : List Ptr) : Type 0 where
  pub resume : List Ptr
  pub stack : List Ptr
  pub order : q ≡ resume ++ reverse stack
  pub chain : Chain c.next c.to_resume_head resume
  pub stack_chain : Chain c.next c.awaiting stack
  pub distinct : Distinct stack

abbrev pub Notifies : ℕ → Condition → Ptr → List Ptr → Type 0
Notifies fuel c a q = (c' : Condition) × (notify_one fuel c ≡ some (some a, c')) × Waiting c' q

take_ready-none :
    (c : Condition) → c.to_resume_head ≡ 0 → take_ready c ≡ (none, record c { to_resume_tail = 0 })
unfolding take_ready
take_ready-none c e =
    let none_left : (c.to_resume_head == 0) ≡ true = ground arith in rw none_left refl

take_ready-some :
    (c : Condition) (a : Ptr)
    → c.to_resume_head ≢ 0
    → c.to_resume_head ≡ a
    → take_ready c ≡ (some a, record c { to_resume_head = c.next c.to_resume_head })
unfolding take_ready
take_ready-some c a ne e =
    let there : (c.to_resume_head == 0) ≡ false = ground arith in
    rw there (ap (λ p. (some p, record c { to_resume_head = c.next c.to_resume_head })) e)

notify_stack :
    (fuel : ℕ) (c : Condition) (a : Ptr) (q stack : List Ptr)
    → length stack ≤ fuel
    → a ∷ q ≡ reverse stack
    → c.to_resume_head ≡ 0
    → Chain c.next c.awaiting stack
    → Distinct stack
    → Notifies fuel c a q
unfolding notify_after notify_one turn_and_publish publish
notify_stack fuel c a q [] enough o e sc d = cc
notify_stack fuel c a q (x ∷ xs) enough o e sc d =
    let (next', head, succ, rest, run, order, chain, ne, last, frame) =
      turn_loop_lem fuel c.next c.awaiting 0 x xs [] (omega arith) sc refl d
        (Disjoint-nil (x ∷ xs)) in
    let none_left : (c.to_resume_head == 0) ≡ true = ground arith in
    let there : (c.awaiting == 0) ≡ false = ground (arith, sc.0, sc.1) in
    let whole : a ∷ q ≡ head ∷ rest = o ∙ sym (append-nil (reverse (x ∷ xs))) ∙ order in
    let first : head ≡ a = cc whole in
    let others : rest ≡ q = cc whole in
    (
      record { awaiting = 0; to_resume_head = succ; to_resume_tail = c.awaiting; next = next' },
      ap (notify_after fuel) (take_ready-none c e) ∙ rw (there, run, none_left, first) refl,
      record {
        resume = rest;
        stack = [];
        order = sym others ∙ sym (append-nil rest);
        chain = chain;
        stack_chain = refl;
        distinct = tt;
      },
    )

notify_from :
    (fuel : ℕ) (c : Condition) (a : Ptr) (q resume stack : List Ptr)
    → length (a ∷ q) ≤ fuel
    → a ∷ q ≡ resume ++ reverse stack
    → Chain c.next c.to_resume_head resume
    → Chain c.next c.awaiting stack
    → Distinct stack
    → Notifies fuel c a q
unfolding notify_after notify_one
notify_from fuel c a q [] stack enough o ch sc d =
    notify_stack fuel c a q stack (omega (arith, ap length o, length-reverse stack)) o ch sc d
notify_from fuel c a q (x ∷ xs) stack enough o ch sc d =
    let first : c.to_resume_head ≡ a = cc (o, ch.0) in
    (
      record c { to_resume_head = c.next c.to_resume_head },
      ap (notify_after fuel) (take_ready-some c a (λ z. ch.1 (sym (ch.0) ∙ z)) first),
      record {
        resume = xs;
        stack = stack;
        order = cc o;
        chain = rw (ch.0) (ch.2);
        stack_chain = sc;
        distinct = d;
      },
    )

-- With no other thread in between, `notify_one` wakes the coroutine that has waited longest, and
-- leaves the others waiting in their order. As much fuel as there are waiting coroutines is enough.
pub notify_one_lem :
    (fuel : ℕ) (c : Condition) (a : Ptr) (q : List Ptr)
    → Waiting c (a ∷ q)
    → length (a ∷ q) ≤ fuel
    → (c' : Condition) × (notify_one fuel c ≡ some (some a, c')) × Waiting c' q
notify_one_lem fuel c a q v enough =
    notify_from fuel c a q v.resume v.stack enough v.order v.chain v.stack_chain v.distinct
