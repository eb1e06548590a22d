-- ===== src/Semaphore/Steps/Invariant.antt =====
-- The invariant of the semaphore: who waits, in which lists, and how many.
use mathlib.Core.List.{reverse-reverse}
use mathlib.Core.Path.{subst}
use co_context.Prelude.{
  ℕ, suc, ◌+◌, ◌-◌, ◌^◌, ◌<◌, ◌≡◌, ◌≢◌, refl, sym, ap, ◌∙◌, Option, none, some, Bool, true, false,
  List, [], ◌∷◌, ◌++◌, length, Fresh, Listed, inl, inr, reverse, All-append_left, All-append_right,
  All-reverse, append_assoc, reverse-cons,
}
use co_context.Prelude.Names.{Names}
use co_context.Awaiters.{Ptr, set_next, Chain-set_next}
use co_context.Semaphore.{Semaphore}
use co_context.Semaphore.Order.{Queued}
use co_context.Semaphore.Steps.{Pc, registering, trying, linked, suspended, System}
use co_context.Semaphore.Steps.Numbers.{Balanced}

-- Between the subtraction and the push.
abbrev pub joins : Pc → Bool
joins registering = true
joins (trying old) = true
joins (linked old) = true
joins _ = false

abbrev pub total : List ℕ → ℕ
total [] = 0
total (o ∷ os) = o + total os

abbrev pub optional : Option ℕ → ℕ
optional none = 0
optional (some o) = o

-- The wakes that the calls of `release` in progress still owe.
abbrev pub owing : System → ℕ
owing s = total s.pending + optional s.notifying

-- The lists: `queue` has the suspended coroutines, the first to wake first, and `joining` those that
-- are not pushed yet.
pub record Lists (s : System) (queue joining : List Ptr) : Type 0 where
  pub queued : Queued s.sem queue
  pub suspends : Names (λ c. c ≡ suspended) s.pc queue
  pub joiners : Names (λ c. joins c ≡ true) s.pc joining
  pub links : (b old : Ptr) → s.pc b ≡ linked old → s.sem.next b ≡ old
  pub addresses : (b : Ptr) → joins (s.pc b) ≡ true → b ≢ 0

-- The numbers, where `waiting` coroutines wait.
pub record Counts (s : System) (waiting : ℕ) : Type 0 where
  pub balanced : Balanced s.sem.counter s.permits s.acquired
  pub through : s.acquired ≡ s.passed + waiting
  pub short : waiting ≡ owing s + (s.acquired - s.permits)

pub record Inv (s : System) : Type 0 where
  pub queue : List Ptr
  pub joining : List Ptr
  pub lists : Lists s queue joining
  pub counts : Counts s (length queue + length joining)

-- No more permits and acquisitions than the counter can tell apart.
abbrev pub IsSmall : System → Type 0
IsSmall s = (s.permits < 2 ^ 63) × (s.acquired < 2 ^ 63)

-- Whatever does not touch the lists keeps them.
pub Queued-frame :
    (m m' : Semaphore) (q : List Ptr)
    → m'.awaiting ≡ m.awaiting
    → m'.to_resume ≡ m.to_resume
    → m'.next ≡ m.next
    → Queued m q
    → Queued m' q
Queued-frame m m' q e e' e'' v = record {
  resume = v.resume;
  stack = v.stack;
  order = v.order;
  chain = rw (e', e'') (v.chain);
  stack_chain = rw (e, e'') (v.stack_chain);
  distinct = v.distinct;
}

pub Fresh-parts :
    (m : Semaphore) (a : Ptr) (q : List Ptr) (v : Queued m q)
    → Fresh a q
    → Fresh a v.resume × Fresh a v.stack
Fresh-parts m a q v f =
    let parts : Fresh a (v.resume ++ reverse v.stack) = subst (Fresh a) v.order f in
    (
      All-append_left (λ x. x ≢ a) v.resume (reverse v.stack) parts,
      subst (Fresh a) (reverse-reverse v.stack) (
          All-reverse (λ x. x ≢ a) (reverse v.stack)
            (All-append_right (λ x. x ≢ a) v.resume (reverse v.stack) parts)),
    )

-- The link of a coroutine that is in no list.
pub Queued-set_next :
    (m : Semaphore) (a p : Ptr) (q : List Ptr)
    → Fresh a q
    → Queued m q
    → Queued (record m { next = set_next m.next a p }) q
Queued-set_next m a p q f v =
    let (f', g) = Fresh-parts m a q v f in
    record {
      resume = v.resume;
      stack = v.stack;
      order = v.order;
      chain = Chain-set_next m.next a p m.to_resume v.resume f' v.chain;
      stack_chain = Chain-set_next m.next a p m.awaiting v.stack g v.stack_chain;
      distinct = v.distinct;
    }

pub Queued-push :
    (m : Semaphore) (a : Ptr) (q : List Ptr)
    → m.next a ≡ m.awaiting
    → a ≢ 0
    → Fresh a q
    → Queued m q
    → Queued (record m { awaiting = a }) (q ++ a ∷ [])
Queued-push m a q e ne f v = record {
  resume = v.resume;
  stack = a ∷ v.stack;
  order =
      ap (λ l. l ++ a ∷ []) v.order
      ∙ append_assoc v.resume (reverse v.stack) (a ∷ [])
      ∙ ap (λ l. v.resume ++ l) (sym (reverse-cons a v.stack));
  chain = v.chain;
  stack_chain = (refl, ne, rw e (v.stack_chain));
  distinct = ((Fresh-parts m a q v f).1, v.distinct);
}

pub Listed-snoc-other : (b a : Ptr) (q : List Ptr) → b ≢ a → Listed b (q ++ a ∷ []) → Listed b q
Listed-snoc-other b a [] ne (inl e) = absurd (ne (sym e))
Listed-snoc-other b a [] ne (inr l) = absurd l
Listed-snoc-other b a (x ∷ q) ne (inl e) = inl e
Listed-snoc-other b a (x ∷ q) ne (inr l) = inr (Listed-snoc-other b a q ne l)

pub length-snoc : (q : List Ptr) (a : Ptr) → length (q ++ a ∷ []) ≡ suc (length q)
length-snoc [] a = refl
length-snoc (x ∷ q) a = ap suc (length-snoc q a)
