-- ===== src/Mutex/Invariant/Unlocking.antt =====
-- The steps of `unlock` against a fair lock.
use mathlib.Core.List.{reverse-reverse}
use co_context.Prelude.{
  ℕ, ◌≡◌, ◌≢◌, refl, sym, ap, ◌∙◌, Option, none, some, true, List, [], ◌∷◌, ◌++◌, reverse,
  append-nil, inl, inr, arith, All, Fresh, Distinct, Disjoint, Disjoint-nil, Disjoint-symm, All-map,
  All-reverse, Distinct-reverse,
}
use co_context.Awaiters.{Ptr, Links, Chain, Chain-frame, Chain-null, Chain-cons, reverse_loop-Chain}
use co_context.Mutex.{
  Mutex, not_locked, locked_no_awaiting, Pc, idle, suspended, holding, releasing, exchanging,
  reversing, owns, Unlock, resume_next, nothing_to_resume, release, release_fails, exchange,
  resume_reversed, System, update, wake,
}
use co_context.Mutex.Queue.{FairLock, stay, hand_over, free}
use co_context.Mutex.Invariant.Defs.{Inv, Waits, Phase, Waits-Fresh, Waits-update}
use co_context.Mutex.Invariant.Registering.{Follows}

module _ {s : System} {q : FairLock} (v : Inv s q) (a : Ptr) (held : q.owner ≡ some a) where
  -- The first of the list in order is the next owner.
  hands :
      (next : Links) (head b : Ptr) (rest : List Ptr)
      → s.pc a ≢ suspended
      → Chain next head (b ∷ rest)
      → All (Waits s.pc) (b ∷ rest)
      → Distinct (b ∷ rest)
      → Disjoint (b ∷ rest) v.stack
      → Chain next s.mtx.awaiting v.stack
      → q.queue ≡ (b ∷ rest) ++ reverse v.stack
      → ((c : Ptr) → s.pc c ≢ suspended → next c ≡ s.mtx.next c)
      → Follows q (record {
        mtx = record s.mtx { next = next; to_resume = next head };
        pc = update (update s.pc a idle) b holding;
      })
  hands next head b rest awake c w d j stacked order same = (
    record { owner = some b; queue = rest ++ reverse v.stack },
    hand_over a b (rest ++ reverse v.stack) held order,
    record {
      resume = rest;
      taken = [];
      stack = v.stack;
      order = refl;
      chain = rw (c.0) (c.2);
      resume_waits = waits rest w.1 d.0;
      taken_waits = tt;
      stack_waits = waits v.stack v.stack_waits j.0;
      distinct = (d.1, tt, v.distinct.2);
      disjoint = (j.1, tt);
      unowned = λ e. cc;
      owned = λ x e.
          let now : update (update s.pc a idle) b holding x ≡ holding = ground arith in
          (rw now refl, stacked);
      owners = λ x inside. ground (arith, v.owners x, held);
      queued = λ x down. elim (rw order at (v.queued x (ground arith))) [
        | inl e ↦ absurd (ground arith)
        | inr later ↦ later
      ];
      links = λ x old at. ground (arith, v.links x old, same x);
    },
  )
    where
      waits :
          (xs : List Ptr)
          → All (Waits s.pc) xs
          → Fresh b xs
          → All (Waits (update (update s.pc a idle) b holding)) xs
      waits xs h f =
          Waits-update (update s.pc a idle) b holding xs f
            (Waits-update s.pc a idle xs (Waits-Fresh s.pc a xs awake h) h)

  -- The owner goes on to another place of `unlock`; the word may lose its stack to `taken`.
  goes_on :
      (p : Pc) (awaiting : ℕ) (taken stack : List Ptr)
      → s.pc a ≢ suspended
      → owns p ≡ true
      → p ≢ suspended
      → reverse taken ++ reverse stack ≡ reverse v.taken ++ reverse v.stack
      → All (Waits s.pc) taken
      → All (Waits s.pc) stack
      → Distinct taken × Distinct stack
      → Disjoint v.resume stack × Disjoint taken stack
      → Phase s.mtx.next p v.resume taken stack
      → Chain s.mtx.next awaiting stack
      → Follows q (record { mtx = record s.mtx { awaiting = awaiting }; pc = update s.pc a p })
  goes_on p awaiting taken stack awake inside up order wt ws d j phase stacked = (
    q,
    stay,
    record {
      resume = v.resume;
      taken = taken;
      stack = stack;
      order = v.order ∙ ap (λ l. v.resume ++ l) (sym order);
      chain = v.chain;
      resume_waits = waits v.resume v.resume_waits;
      taken_waits = waits taken wt;
      stack_waits = waits stack ws;
      distinct = (v.distinct.0, d.0, d.1);
      disjoint = j;
      unowned = λ e. cc;
      owned =
          λ b e. let now : update s.pc a p b ≡ p = ground (arith, held) in (rw now phase, stacked);
      owners = λ b inside'. ground (arith, v.owners b, held);
      queued = λ b down. ground (arith, v.queued b);
      links = λ b old at. ground (arith, v.links b old);
    },
  )
    where
      waits : (xs : List Ptr) → All (Waits s.pc) xs → All (Waits (update s.pc a p)) xs
      waits xs h = Waits-update s.pc a p xs (Waits-Fresh s.pc a xs awake h) h

  -- With the word at `locked_no_awaiting` and nothing to resume, nobody waits.
  frees :
      s.pc a ≡ releasing
      → s.mtx.awaiting ≡ locked_no_awaiting
      → Follows q (record { mtx = record s.mtx { awaiting = not_locked }; pc = update s.pc a idle })
  frees here word =
      let (no_taken, no_resume) = rw here at ((v.owned a held).0) in
      let no_stack = Chain-null s.mtx.next s.mtx.awaiting v.stack word (v.owned a held).1 in
      let none_left : q.queue ≡ [] = rw (v.order, no_resume, no_taken, no_stack) in
      (
        record { owner = none; queue = [] },
        free a held none_left,
        record {
          resume = [];
          taken = [];
          stack = [];
          order = refl;
          chain = rw no_resume at (v.chain);
          resume_waits = tt;
          taken_waits = tt;
          stack_waits = tt;
          distinct = (tt, tt, tt);
          disjoint = (tt, tt);
          unowned = λ e. (refl, refl, refl, refl);
          owned = λ b e. cc;
          owners = λ b inside. ground (arith, v.owners b, held);
          queued = λ b down. rw none_left at (v.queued b (ground arith));
          links = λ b old at. ground (arith, v.links b old);
        },
      )

  -- A step of `unlock` hands the lock to the first in the queue, frees it when nobody waits, or is
  -- not seen from outside.
  pub Unlock-Follows :
      {m : Mutex} {p : Pc} {woken : Option Ptr} (here : Pc)
      → s.pc a ≡ here
      → Unlock s.mtx here m p woken
      → Follows q (record { mtx = m; pc = wake (update s.pc a p) woken })
  Unlock-Follows here e (resume_next more) =
      let no_taken = rw e at ((v.owned a held).0) in
      let (rest, split) = Chain-cons s.mtx.next s.mtx.to_resume v.resume more v.chain in
      hands s.mtx.next s.mtx.to_resume s.mtx.to_resume rest (λ w. cc) (rw split at (v.chain))
        (rw split at (v.resume_waits)) (rw split at (v.distinct.0)) (rw split at (v.disjoint.0))
        (v.owned a held).1 (rw (v.order, split, no_taken)) (λ c n. refl)
  Unlock-Follows here e (nothing_to_resume nothing) =
      let no_taken = rw e at ((v.owned a held).0) in
      goes_on releasing s.mtx.awaiting v.taken v.stack (λ w. cc) refl (λ w. cc) refl v.taken_waits
        v.stack_waits (v.distinct.1, v.distinct.2) v.disjoint
        (no_taken, Chain-null s.mtx.next s.mtx.to_resume v.resume nothing v.chain)
        (v.owned a held).1
  Unlock-Follows here e (release word) = frees e word
  Unlock-Follows here e (release_fails word) =
      let (no_taken, no_resume) = rw e at ((v.owned a held).0) in
      goes_on exchanging s.mtx.awaiting v.taken v.stack (λ w. cc) refl (λ w. cc) refl v.taken_waits
        v.stack_waits (v.distinct.1, v.distinct.2) v.disjoint
        (no_taken, no_resume, λ z. word (rw z at ((v.owned a held).1))) (v.owned a held).1
  Unlock-Follows here e exchange =
      let (no_taken, no_resume, some_stack) = rw e at ((v.owned a held).0) in
      goes_on (reversing s.mtx.awaiting) locked_no_awaiting v.stack [] (λ w. cc) refl (λ w. cc)
        (rw (no_taken) (append-nil (reverse v.stack))) v.stack_waits tt (v.distinct.2, tt)
        (Disjoint-nil v.resume, Disjoint-nil v.stack) (no_resume, some_stack, (v.owned a held).1)
        refl
  Unlock-Follows here e (resume_reversed {top = top} fuel {next = next} {head = head} run) =
      let (no_resume, some_taken, taken_chain) = rw e at ((v.owned a held).0) in
      let nothing = rw no_resume at (v.chain) in
      let (chain, same) =
        reverse_loop-Chain fuel s.mtx.next top s.mtx.to_resume v.taken (next, head) some_taken
          taken_chain nothing v.distinct.1 run in
      let ne : head ≢ 0 = λ z. some_taken (
        sym (reverse-reverse v.taken)
        ∙ ap reverse (Chain-null next head (reverse v.taken) z chain)) in
      let stacked =
        Chain-frame s.mtx.next next s.mtx.awaiting v.stack
          (All-map (λ x. Fresh x v.taken) (λ x. next x ≡ s.mtx.next x) v.stack same
            (Disjoint-symm v.taken v.stack v.disjoint.1))
          (v.owned a held).1 in
      let (rest, split) = Chain-cons next head (reverse v.taken) ne chain in
      hands next head head rest (λ w. cc) (rw split at chain)
        (rw split at (All-reverse (Waits s.pc) v.taken v.taken_waits))
        (rw split at (Distinct-reverse v.taken v.distinct.1))
        (rw split at (All-reverse (λ x. Fresh x v.stack) v.taken v.disjoint.1)) stacked
        (rw (v.order, no_resume, split))
        (λ c n. same c (Waits-Fresh s.pc c v.taken n v.taken_waits))
