-- ===== src/Semaphore/Order.antt =====
-- The coroutines that wait for a semaphore, and the order in which a release wakes them.
use mathlib.Core.List.{reverse-reverse}
use mathlib.Core.Path.{subst}
use co_context.Prelude.{
  ℕ, zero, suc, ◌+◌, ◌-◌, ◌^◌, ◌≤◌, ◌<◌, ◌≡◌, ◌≢◌, refl, sym, ap, ◌∙◌, List, [], ◌∷◌, ◌++◌, reverse,
  true, false, some, min, leb, ◌%◌, Fresh, All-append_left, All-append_right, All-reverse,
  append_assoc, reverse-cons, ◌==◌, if◌then◌else◌, arith, length, length-reverse, append-nil,
  Distinct, Disjoint-nil,
}
use co_context.Prelude.Result.{ok}
use co_context.Awaiters.{Ptr, set_next, Chain, Chain-set_next, reverse_loop_lem}
use co_context.Semaphore.{Semaphore, is_negative, try_release, wake, release, await_suspend}

-- The coroutines that wait, the first to wake first: those in order, and those on the stack.
pub record Queued (s : Semaphore) (q : List Ptr) : Type 0 where
  pub resume : List Ptr
  pub stack : List Ptr
  pub order : q ≡ resume ++ reverse stack
  pub chain : Chain s.next s.to_resume resume
  pub stack_chain : Chain s.next s.awaiting stack
  pub distinct : Distinct stack

abbrev pub Releases : ℕ → Semaphore → Ptr → List Ptr → Type 0
Releases fuel s a q =
    (s' : Semaphore) × (try_release fuel s ≡ some (some a, s'))
    × Queued s' q
    × (s'.counter ≡ s.counter)
    × ((b : Ptr) → Fresh b (a ∷ q) → s'.next b ≡ s.next b)

release_resume :
    (fuel : ℕ) (s : Semaphore) (a x : Ptr) (q xs stack : List Ptr)
    → a ∷ q ≡ (x ∷ xs) ++ reverse stack
    → Chain s.next s.to_resume (x ∷ xs)
    → Chain s.next s.awaiting stack
    → Distinct stack
    → Releases fuel s a q
unfolding try_release
release_resume fuel s a x q xs stack o c sc d =
    let there : (s.to_resume == 0) ≡ false = ground (arith, c.0, c.1) in
    let first : s.to_resume ≡ a = cc (o, c.0) in
    (
      record s { to_resume = s.next s.to_resume },
      rw (there, if◌then◌else◌, first) refl,
      record {
        resume = xs;
        stack = stack;
        order = cc o;
        chain = rw (c.0) (c.2);
        stack_chain = sc;
        distinct = d;
      },
      refl,
      λ b f. refl,
    )

release_stack :
    (fuel : ℕ) (s : Semaphore) (a : Ptr) (q stack : List Ptr)
    → length stack ≤ fuel
    → a ∷ q ≡ reverse stack
    → s.to_resume ≡ 0
    → Chain s.next s.awaiting stack
    → Distinct stack
    → Releases fuel s a q
unfolding try_release
release_stack fuel s a q [] enough o e sc d = cc
release_stack fuel s a q (x ∷ xs) enough o e sc d =
    let (next', p, run, c, frame) =
      reverse_loop_lem fuel s.next s.awaiting s.to_resume x xs [] (omega arith) sc e d
        (Disjoint-nil (x ∷ xs)) in
    let none_left : (s.to_resume == 0) ≡ true = ground arith in
    let there : (s.awaiting == 0) ≡ false = ground (arith, sc.0, sc.1) in
    let ordered : Chain next' p (a ∷ q) =
      subst (λ l. Chain next' p l) (append-nil (reverse (x ∷ xs)) ∙ sym o) c in
    (
      record s { awaiting = 0; next = next'; to_resume = next' p },
      rw (none_left, there, run, ← ordered.0) refl,
      record {
        resume = q;
        stack = [];
        order = sym (append-nil q);
        chain = rw (ordered.0) (ordered.2);
        stack_chain = refl;
        distinct = tt;
      },
      refl,
      λ b f. frame b (
          subst (Fresh b) (reverse-reverse (x ∷ xs))
            (All-reverse (λ y. y ≢ b) (reverse (x ∷ xs)) (subst (Fresh b) o f))),
    )

release_from :
    (fuel : ℕ) (s : Semaphore) (a : Ptr) (q resume stack : List Ptr)
    → length (a ∷ q) ≤ fuel
    → a ∷ q ≡ resume ++ reverse stack
    → Chain s.next s.to_resume resume
    → Chain s.next s.awaiting stack
    → Distinct stack
    → Releases fuel s a q
release_from fuel s a q [] stack enough o c sc d =
    release_stack fuel s a q stack (omega (arith, ap length o, length-reverse stack)) o c sc d
release_from fuel s a q (x ∷ xs) stack enough o c sc d =
    release_resume fuel s a x q xs stack o c sc d

-- With fuel for those that wait, `try_release` takes the first of them and leaves the others.
pub try_release_lem :
    (fuel : ℕ) (s : Semaphore) (a : Ptr) (q : List Ptr)
    → Queued s (a ∷ q)
    → length (a ∷ q) ≤ fuel
    → Releases fuel s a q
try_release_lem fuel s a q v enough =
    release_from fuel s a q v.resume v.stack enough v.order v.chain v.stack_chain v.distinct

abbrev pub Wakes : ℕ → (more : ℕ) → Semaphore → List Ptr → Type 0
Wakes fuel more s q =
    (awoken left : List Ptr) × (s' : Semaphore) × (wake fuel more s ≡ some (ok (awoken, s')))
    × (q ≡ awoken ++ left)
    × (length awoken ≡ suc more)
    × Queued s' left
    × (s'.counter ≡ s.counter)

wake_lem :
    (fuel more : ℕ) (s : Semaphore) (q : List Ptr)
    → Queued s q
    → more < length q
    → length q ≤ fuel
    → Wakes fuel more s q
unfolding wake
wake_lem fuel more s [] v some_left enough = absurd (omega arith)
wake_lem fuel zero s (a ∷ q) v some_left enough =
    let (s', run, v', same, kept) = try_release_lem fuel s a q v enough in
    (a ∷ [], q, s', rw (run, wake) refl, refl, refl, v', same)
wake_lem fuel (suc more) s (a ∷ q) v some_left enough =
    let (s', run, v', same, kept) = try_release_lem fuel s a q v enough in
    let (awoken, left, s'', run', parts, count, v'', same') =
      wake_lem fuel more s' q v' (omega arith) (omega arith) in
    (
      a ∷ awoken,
      left,
      s'',
      rw (run, wake, run') refl,
      ap (λ l. a ∷ l) parts,
      ap suc count,
      v'',
      same' ∙ same,
    )

-- When the counter says that coroutines wait, and `update` is above 0, a release adds `update` to
-- the counter and wakes the first `update` of those who wait, or all if they are fewer; the others
-- go on waiting in their order. As much fuel as there are waiting coroutines is enough.
pub release_lem :
    (fuel update : ℕ) (s : Semaphore) (q : List Ptr)
    → Queued s q
    → 0 < length q
    → length q ≤ 2 ^ 63
    → s.counter + length q ≡ 2 ^ 64
    → 0 < update
    → update < 2 ^ 63
    → length q ≤ fuel
    → (awoken left : List Ptr) × (s' : Semaphore) × (release fuel update s ≡ some (ok (awoken, s')))
      × (q ≡ awoken ++ left)
      × (length awoken ≡ min (length q) update)
      × Queued s' left
      × (s'.counter ≡ (s.counter + update) % 2 ^ 64)
unfolding release is_negative
release_lem fuel update s q v some_left few waiting positive small enough =
    let (awoken, left, s', run, parts, count, v', same) =
      wake_lem fuel (min (2 ^ 64 - s.counter) update - 1) added q v0 (omega arith) enough in
    let below : leb (2 ^ 63) s.counter ≡ true = ground arith in
    (awoken, left, s', rw below run, parts, omega arith, v', same)
  where
    added : Semaphore
    added = record s { counter = (s.counter + update) % 2 ^ 64 }

    v0 : Queued added q
    v0 = record {
      resume = v.resume;
      stack = v.stack;
      order = v.order;
      chain = v.chain;
      stack_chain = v.stack_chain;
      distinct = v.distinct;
    }

-- A coroutine whose awaiter is in no list yet joins behind those who wait.
pub await_suspend_lem :
    (a : Ptr) (s : Semaphore) (q : List Ptr)
    → a ≢ 0
    → Queued s q
    → Fresh a q
    → Queued (await_suspend a s) (q ++ a ∷ [])
unfolding await_suspend
await_suspend_lem a s q ne v fresh = record {
  resume = v.resume;
  stack = a ∷ v.stack;
  order =
      ap (λ l. l ++ a ∷ []) v.order
      ∙ append_assoc v.resume (reverse v.stack) (a ∷ [])
      ∙ ap (λ l. v.resume ++ l) (sym (reverse-cons a v.stack));
  chain = Chain-set_next s.next a s.awaiting s.to_resume v.resume f v.chain;
  stack_chain = (
    refl,
    ne,
    subst (λ p. Chain (set_next s.next a s.awaiting) p v.stack) (ground arith)
        (Chain-set_next s.next a s.awaiting s.awaiting v.stack g v.stack_chain),
  );
  distinct = (g, v.distinct);
}
  where
    parts : Fresh a (v.resume ++ reverse v.stack)
    parts = subst (Fresh a) v.order fresh

    f : Fresh a v.resume
    f = All-append_left (λ x. x ≢ a) v.resume (reverse v.stack) parts

    g : Fresh a v.stack
    g = subst (Fresh a) (reverse-reverse v.stack) (
        All-reverse (λ x. x ≢ a) (reverse v.stack)
          (All-append_right (λ x. x ≢ a) v.resume (reverse v.stack) parts))
