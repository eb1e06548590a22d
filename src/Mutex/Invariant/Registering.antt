-- ===== src/Mutex/Invariant/Registering.antt =====
-- The steps of `try_lock` and `register_awaiting` against a fair lock.
use native.Mathlib.Decide.{ℕ_discrete}
use co_context.Prelude.{
  ◌≤◌, ◌≡◌, ◌≢◌, refl, sym, ap, ◌∙◌, none, some, true, false, [], ◌∷◌, ◌++◌, reverse-cons,
  append_assoc, inl, inr, Option-cases, arith, Fresh, Disjoint-cons, Listed-snoc,
  Listed-append_left,
}
use co_context.Awaiters.{Ptr, Links, set_next, Chain-frame}
use co_context.Mutex.{
  Mutex, not_locked, locked_no_awaiting, Pc, idle, trying, linked, suspended, holding, owns,
  Register, try_lock, try_lock_fails, load, lock, lock_fails, link, push, push_fails, System,
  update,
}
use co_context.Mutex.Queue.{FairLock, FairStep, stay, take, join}
use co_context.Mutex.Invariant.Defs.{
  Inv, Waits-Fresh, Waits-update, Phase-owns, Phase-frame, Phase-push, agree_off,
  not-Chain-not_locked, update_self,
}

abbrev pub Follows : FairLock → System → Type 0
Follows q t = (q' : FairLock) × FairStep q q' × Inv t q'

module _ {s : System} {q : FairLock} (v : Inv s q) (a : Ptr) where
  -- The lock is free when the word says so.
  pub unlocked : s.mtx.awaiting ≡ not_locked → q.owner ≡ none
  unlocked e = elim (Option-cases q.owner) [
    | inl free ↦ free
    | inr (b, held) ↦
        absurd (
          not-Chain-not_locked s.mtx.next s.pc v.stack v.stack_waits (rw e at ((v.owned b held).1)))
  ]

  fresh : s.pc a ≢ suspended → Fresh a v.resume × Fresh a v.taken × Fresh a v.stack
  fresh h = (
    Waits-Fresh s.pc a v.resume h v.resume_waits,
    Waits-Fresh s.pc a v.taken h v.taken_waits,
    Waits-Fresh s.pc a v.stack h v.stack_waits,
  )

  -- Another coroutine owns the mutex, if any.
  other : owns (s.pc a) ≡ false → (b : Ptr) → q.owner ≡ some b → b ≢ a
  other out b held e =
      let phase = (v.owned b held).0 in
      let inside : owns (s.pc b) ≡ true =
        Phase-owns s.mtx.next (s.pc b) v.resume v.taken v.stack phase in
      cc (ap (λ x. owns (s.pc x)) e)

  -- Who does not wait may move between places outside the lock, and change its own link.
  pub moves :
      (p : Pc) (next : Links)
      → s.pc a ≢ suspended
      → owns (s.pc a) ≡ false
      → owns p ≡ false
      → p ≢ suspended
      → ((b : Ptr) → b ≢ a → next b ≡ s.mtx.next b)
      → ((old : Ptr) → p ≡ linked old → (next a ≡ old) × (old ≢ not_locked) × (2 ≤ a))
      → Inv (record { mtx = record s.mtx { next = next }; pc = update s.pc a p }) q
  moves p next h out out' up same link' =
      let (f, g, h') = fresh h in
      let off = agree_off s.mtx.next next a in
      record {
        resume = v.resume;
        taken = v.taken;
        stack = v.stack;
        order = v.order;
        chain = Chain-frame s.mtx.next next s.mtx.to_resume v.resume (off v.resume same f) v.chain;
        resume_waits = Waits-update s.pc a p v.resume f v.resume_waits;
        taken_waits = Waits-update s.pc a p v.taken g v.taken_waits;
        stack_waits = Waits-update s.pc a p v.stack h' v.stack_waits;
        distinct = v.distinct;
        disjoint = v.disjoint;
        unowned = v.unowned;
        owned = λ b held.
            let (phase, stacked) = v.owned b held in
            let stays : update s.pc a p b ≡ s.pc b = ground (arith, other out b held) in
            (
              rw stays (
                  Phase-frame s.mtx.next next (s.pc b) v.resume v.taken v.stack (off v.taken same g)
                    phase),
              Chain-frame s.mtx.next next s.mtx.awaiting v.stack (off v.stack same h') stacked,
            );
        owners = λ b inside. ground (arith, v.owners b);
        queued = λ b down. ground (arith, v.queued b);
        links = λ b old at. ground (arith, v.links b old, same b, link' old);
      }

  -- Who takes the free lock owns it.
  pub takes-Inv :
      s.pc a ≢ suspended
      → s.mtx.awaiting ≡ not_locked
      → Inv
          (record {
            mtx = record s.mtx { awaiting = locked_no_awaiting };
            pc = update s.pc a holding;
          })
          (record { owner = some a; queue = [] })
  takes-Inv h free =
      let none_owns = unlocked free in
      let (word, no_resume, no_taken, no_stack) = v.unowned none_owns in
      let empty : q.queue ≡ [] = rw (v.order, no_resume, no_taken, no_stack) in
      record {
        resume = [];
        taken = [];
        stack = [];
        order = refl;
        chain = rw no_resume at (v.chain);
        resume_waits = tt;
        taken_waits = tt;
        stack_waits = tt;
        distinct = (tt, tt, tt);
        disjoint = (tt, tt);
        unowned = λ e. cc;
        owned = λ b held.
            let now : update s.pc a holding b ≡ holding = ground arith in (rw now refl, refl);
        owners = λ b inside. ground (arith, v.owners b, none_owns);
        queued = λ b down. rw empty at (v.queued b (ground arith));
        links = λ b old at. ground (arith, v.links b old);
      }

  takes :
      s.pc a ≢ suspended
      → s.mtx.awaiting ≡ not_locked
      → Follows q (record {
        mtx = record s.mtx { awaiting = locked_no_awaiting };
        pc = update s.pc a holding;
      })
  takes h free =
      let none_owns = unlocked free in
      let (word, no_resume, no_taken, no_stack) = v.unowned none_owns in
      let empty : q.queue ≡ [] = rw (v.order, no_resume, no_taken, no_stack) in
      (record { owner = some a; queue = [] }, take a none_owns empty, takes-Inv h free)

  -- Who is pushed is the last of the queue.
  pub joins-Inv :
      (old : Ptr)
      → s.pc a ≡ linked old
      → s.mtx.awaiting ≡ old
      → (b : Ptr) × (q.owner ≡ some b)
        × Inv
            (record { mtx = record s.mtx { awaiting = a }; pc = update s.pc a suspended })
            (record { owner = some b; queue = q.queue ++ a ∷ [] })
  joins-Inv old here top =
      let not_waiting : s.pc a ≢ suspended = λ e. cc in
      let (f, g, h') = fresh not_waiting in
      let (to_old, locked, aligned) = v.links a old here in
      elim (Option-cases q.owner) [
        | inl free ↦ absurd (locked (sym top ∙ (v.unowned free).0))
        | inr (b, held) ↦ (
          b,
          held,
          record {
            resume = v.resume;
            taken = v.taken;
            stack = a ∷ v.stack;
            order = rw (v.order, reverse-cons a v.stack) (simp append_assoc);
            chain = v.chain;
            resume_waits = Waits-update s.pc a suspended v.resume f v.resume_waits;
            taken_waits = Waits-update s.pc a suspended v.taken g v.taken_waits;
            stack_waits = (
              (update_self s.pc a suspended, aligned),
              Waits-update s.pc a suspended v.stack h' v.stack_waits,
            );
            distinct = (v.distinct.0, v.distinct.1, (h', v.distinct.2));
            disjoint = (
              Disjoint-cons v.resume a v.stack f v.disjoint.0,
              Disjoint-cons v.taken a v.stack g v.disjoint.1,
            );
            unowned = λ e. cc;
            owned = λ c e.
                let (phase, stacked) = v.owned c (held ∙ e) in
                let stays : update s.pc a suspended c ≡ s.pc c =
                  ground (arith, other (ground arith) c (held ∙ e)) in
                (
                  rw stays (Phase-push s.mtx.next (s.pc c) v.resume v.taken v.stack a phase),
                  (refl, (λ z. omega arith), rw (to_old ∙ sym top) stacked),
                );
            owners = λ c inside. ground (arith, v.owners c, held);
            queued = λ c down. elim (ℕ_discrete c a) [
              | yes here' ↦ rw here' (Listed-snoc a q.queue)
              | no there ↦ Listed-append_left c q.queue (a ∷ []) (v.queued c (ground arith))
            ];
            links = λ c old' at. ground (arith, v.links c old');
          },
        )
      ]

  joins :
      (old : Ptr)
      → s.pc a ≡ linked old
      → s.mtx.awaiting ≡ old
      → Follows q (record { mtx = record s.mtx { awaiting = a }; pc = update s.pc a suspended })
  joins old here top =
      let (b, held, v') = joins-Inv old here top in
      (record { owner = some b; queue = q.queue ++ a ∷ [] }, join a b held, v')

  -- A step of `try_lock` or `register_awaiting` takes the free lock, joins the queue, or is not
  -- seen from outside.
  pub Register-Follows :
      {m : Mutex} {p : Pc} (here : Pc)
      → s.pc a ≡ here
      → 2 ≤ a
      → Register a s.mtx here m p
      → Follows q (record { mtx = m; pc = update s.pc a p })
  Register-Follows here e al (try_lock free) = takes (λ w. cc) free
  Register-Follows here e al (try_lock_fails busy) = (
    q,
    stay,
    moves idle s.mtx.next (λ w. cc) (ground arith) refl (λ w. cc) (λ b n. refl) (λ old l. cc),
  )
  Register-Follows here e al load = (
    q,
    stay,
    moves (trying s.mtx.awaiting) s.mtx.next (λ w. cc) (ground arith) refl (λ w. cc) (λ b n. refl)
        (λ old l. cc),
  )
  Register-Follows here e al (lock is_free same) = takes (λ w. cc) (same ∙ is_free)
  Register-Follows here e al (lock_fails is_free) = (
    q,
    stay,
    moves (trying s.mtx.awaiting) s.mtx.next (λ w. cc) (ground arith) refl (λ w. cc) (λ b n. refl)
        (λ old l. cc),
  )
  Register-Follows here e al (link {old = old} locked) = (
    q,
    stay,
    moves (linked old) (set_next s.mtx.next a old) (λ w. cc) (ground arith) refl (λ w. cc)
        (λ b n. ground arith) (λ old' l. ground arith),
  )
  Register-Follows here e al (push {old = old} top) = joins old e top
  Register-Follows here e al push_fails = (
    q,
    stay,
    moves (trying s.mtx.awaiting) s.mtx.next (λ w. cc) (ground arith) refl (λ w. cc) (λ b n. refl)
        (λ old l. cc),
  )
