-- ===== src/Semaphore/Steps/Acquiring.antt =====
-- The steps that acquire keep the invariant.
use mathlib.Core.Path.{subst}
use co_context.Prelude.{
  ℕ, suc, ◌+◌, ◌^◌, ◌<◌, ◌≡◌, ◌≢◌, refl, sym, ap, Bool, true, false, List, [], ◌∷◌, ◌++◌, arith,
  length,
}
use co_context.Awaiters.{Ptr, Links, set_next}
use co_context.Semaphore.{Semaphore, await_ready, is_positive, taken}
use co_context.Semaphore.Order.{Queued}
use co_context.Semaphore.Steps.{
  Pc, idle, registering, trying, linked, suspended, seen, goes_on, System, Acquire, goes_through,
  has_to_wait, load, link, push, push_fails, try_load, try_refuses, try_exchange, try_fails, leave,
}
use co_context.Semaphore.Steps.Numbers.{Balanced, Balanced-taken, positive-lt, not_positive-le}
use co_context.Prelude.Names.{update, absent}
use co_context.Semaphore.Steps.Invariant.{
  joins, Counts, Inv, IsSmall, Queued-frame, Queued-set_next, length-snoc,
}
use co_context.Semaphore.Steps.Moves.{moves, registers, loops, pushes}

ready_parts :
    (b : Bool) (m m' : Semaphore)
    → await_ready m ≡ (b, m')
    → (is_positive m.counter ≡ b) × (taken m ≡ m')
unfolding await_ready
ready_parts b m m' e = (ap (λ (r : Bool × Semaphore). r.0) e, ap (λ (r : Bool × Semaphore). r.1) e)

Queued-taken :
    (m m' : Semaphore) (q : List Ptr) → taken m ≡ m' → Queued m q → Queued m' q × (m'.next ≡ m.next)
Queued-taken m m' q e v = (
  Queued-frame m m' q (ap (λ (x : Semaphore). x.awaiting) (sym e))
      (ap (λ (x : Semaphore). x.to_resume) (sym e)) (ap (λ (x : Semaphore). x.next) (sym e)) v,
  ap (λ (x : Semaphore). x.next) (sym e),
)

-- An acquisition that finds a permit, and one that finds none.
Counts-passes :
    {s : System} {n : ℕ} (v : Counts s n) (m : Semaphore) (pc : Ptr → Pc)
    → taken s.sem ≡ m
    → is_positive s.sem.counter ≡ true
    → s.permits < 2 ^ 63
    → suc s.acquired < 2 ^ 63
    → Counts (record s { sem = m; pc = pc; acquired = suc s.acquired; passed = suc s.passed }) n
Counts-passes {s} {n} v m pc e positive hp ha =
    let more =
      positive-lt s.sem.counter s.permits s.acquired v.balanced hp (omega (arith, ha)) positive in
    record {
      balanced =
          subst (λ (x : Semaphore). Balanced x.counter s.permits (suc s.acquired)) e
            (Balanced-taken s.sem.counter s.permits s.acquired v.balanced hp ha);
      through = omega (arith, v.through);
      short = omega (arith, v.short, more);
    }

Counts-waits :
    {s : System} {n : ℕ} (v : Counts s n) (m : Semaphore) (pc : Ptr → Pc) (n' : ℕ)
    → n' ≡ suc n
    → taken s.sem ≡ m
    → is_positive s.sem.counter ≡ false
    → s.permits < 2 ^ 63
    → suc s.acquired < 2 ^ 63
    → Counts (record s { sem = m; pc = pc; acquired = suc s.acquired }) n'
Counts-waits {s} {n} v m pc n' one_more e positive hp ha =
    let none_left =
      not_positive-le s.sem.counter s.permits s.acquired v.balanced hp (omega (arith, ha))
        positive in
    record {
      balanced =
          subst (λ (x : Semaphore). Balanced x.counter s.permits (suc s.acquired)) e
            (Balanced-taken s.sem.counter s.permits s.acquired v.balanced hp ha);
      through = omega (arith, v.through, one_more);
      short = omega (arith, v.short, none_left, one_more);
    }

-- A step that leaves the counter alone.
Counts-same :
    {s : System} {n : ℕ} (v : Counts s n) (m : Semaphore) (pc : Ptr → Pc) (n' : ℕ)
    → n' ≡ n
    → m.counter ≡ s.sem.counter
    → Counts (record s { sem = m; pc = pc }) n'
Counts-same {s} {n} v m pc n' same e = record {
  balanced = rw e (v.balanced);
  through = omega (arith, v.through, same);
  short = omega (arith, v.short, same);
}

linked-inj : (old old' : Ptr) → linked old ≡ linked old' → old ≡ old'
linked-inj old old' e = cc

set_next-at :
    (next : Links) (a old old' : Ptr) → linked old ≡ linked old' → set_next next a old a ≡ old'
set_next-at next a old old' e = ground (arith, linked-inj old old' e)

elsewhere :
    {s : System} (v : Inv s) (a : Ptr) (p : Pc)
    → s.pc a ≢ suspended
    → p ≢ suspended
    → joins (s.pc a) ≡ false
    → joins p ≡ false
    → Inv (record s { pc = update s.pc a p })
elsewhere {s} v a p up up' out out' = record {
  queue = v.queue;
  joining = v.joining;
  lists = moves v.lists a p s.sem s.permits s.acquired s.passed v.lists.queued refl up up' out out';
  counts =
      Counts-same v.counts s.sem (update s.pc a p) (length v.queue + length v.joining) refl refl;
}

-- Every step that acquires keeps the invariant.
pub Acquire-Inv :
    {s : System} (a : Ptr) {t : System} (here : Pc)
    → s.pc a ≡ here
    → Acquire s a here t
    → IsSmall t
    → Inv s
    → Inv t
Acquire-Inv {s} a here e (goes_through {m = m} run) (hp, ha) v =
    let (positive, taken_is) = ready_parts true s.sem m run in
    let (q, same) = Queued-taken s.sem m v.queue taken_is v.lists.queued in
    record {
      queue = v.queue;
      joining = v.joining;
      lists =
          moves v.lists a goes_on m s.permits (suc s.acquired) (suc s.passed) q same (λ z. cc)
            (λ z. cc) (rw e refl) refl;
      counts = Counts-passes v.counts m (update s.pc a goes_on) taken_is positive hp ha;
    }
Acquire-Inv {s} a here e (has_to_wait {m = m} ne run) (hp, ha) v =
    let (positive, taken_is) = ready_parts false s.sem m run in
    let (q, same) = Queued-taken s.sem m v.queue taken_is v.lists.queued in
    record {
      queue = v.queue;
      joining = a ∷ v.joining;
      lists = registers v.lists a m (suc s.acquired) q same ne e;
      counts =
          Counts-waits v.counts m (update s.pc a registering)
            (length v.queue + suc (length v.joining)) (omega arith) taken_is positive hp ha;
    }
Acquire-Inv {s} a here e load small v = record {
  queue = v.queue;
  joining = v.joining;
  lists =
      loops v.lists a (trying s.sem.awaiting) s.sem.next (rw e refl) refl v.lists.queued
        (λ b ne. refl) (λ old z. cc);
  counts =
      Counts-same v.counts s.sem (update s.pc a (trying s.sem.awaiting))
        (length v.queue + length v.joining) refl refl;
}
Acquire-Inv {s} a here e (link {old = old}) small v = record {
  queue = v.queue;
  joining = v.joining;
  lists =
      loops v.lists a (linked old) (set_next s.sem.next a old) (rw e refl) refl
        (Queued-set_next s.sem a old v.queue
          (absent (λ c. c ≡ suspended) v.lists.suspends a (λ z. cc)) v.lists.queued)
        (λ b ne. ground (arith, ne)) (λ old' z. set_next-at s.sem.next a old old' z);
  counts =
      Counts-same v.counts (record s.sem { next = set_next s.sem.next a old })
        (update s.pc a (linked old)) (length v.queue + length v.joining) refl refl;
}
Acquire-Inv {s} a here e (push {old = old} top) small v =
    let (rest, fewer, lists) = pushes v.lists a old e top in
    record {
      queue = v.queue ++ a ∷ [];
      joining = rest;
      lists = lists;
      counts =
          Counts-same v.counts (record s.sem { awaiting = a }) (update s.pc a suspended)
            (length (v.queue ++ a ∷ []) + length rest) (omega (arith, length-snoc v.queue a, fewer))
            refl;
    }
Acquire-Inv {s} a here e (push_fails {old = old}) small v = record {
  queue = v.queue;
  joining = v.joining;
  lists =
      loops v.lists a (trying s.sem.awaiting) s.sem.next (rw e refl) refl v.lists.queued
        (λ b ne. refl) (λ old z. cc);
  counts =
      Counts-same v.counts s.sem (update s.pc a (trying s.sem.awaiting))
        (length v.queue + length v.joining) refl refl;
}
Acquire-Inv {s} a here e try_load small v =
    elsewhere v a (seen s.sem.counter) (λ z. cc) (λ z. cc) (rw e refl) refl
Acquire-Inv {s} a here e (try_refuses none_left) small v =
    elsewhere v a idle (λ z. cc) (λ z. cc) (rw e refl) refl
Acquire-Inv {s} a here e (try_exchange {old = old} same positive) (hp, ha) v = record {
  queue = v.queue;
  joining = v.joining;
  lists =
      moves v.lists a goes_on (taken s.sem) s.permits (suc s.acquired) (suc s.passed)
        (Queued-taken s.sem (taken s.sem) v.queue refl v.lists.queued).0 refl (λ z. cc) (λ z. cc)
        (rw e refl) refl;
  counts =
      Counts-passes v.counts (taken s.sem) (update s.pc a goes_on) refl
        (subst (λ c. is_positive c ≡ true) (sym same) positive) hp ha;
}
Acquire-Inv {s} a here e (try_fails other) small v =
    elsewhere v a idle (λ z. cc) (λ z. cc) (rw e refl) refl
Acquire-Inv {s} a here e leave small v = elsewhere v a idle (λ z. cc) (λ z. cc) (rw e refl) refl
