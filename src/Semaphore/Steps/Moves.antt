-- ===== src/Semaphore/Steps/Moves.antt =====
-- What the moves of a coroutine that acquires do to the lists.
use native.Mathlib.Decide.{ℕ_discrete}
use mathlib.Core.Path.{subst}
use co_context.Prelude.{
  ℕ, suc, ◌≡◌, ◌≢◌, refl, sym, ap, ◌∙◌, true, false, List, [], ◌∷◌, ◌++◌, length, inl, inr,
  Distinct-snoc, Listed-append_left, Listed-snoc,
}
use co_context.Prelude.Counting.{take_out}
use co_context.Awaiters.{Ptr, Links}
use co_context.Semaphore.{Semaphore}
use co_context.Semaphore.Order.{Queued}
use co_context.Semaphore.Steps.{Pc, idle, registering, linked, suspended, System}
use co_context.Prelude.Names.{
  update, update-own, update-other, absent, Names-stay, Names-keep, Names-enter, Names-leave,
}
use co_context.Semaphore.Steps.Invariant.{joins, Lists, Queued-push, Listed-snoc-other}

module _ {s : System} {queue joining : List Ptr} (v : Lists s queue joining) (a : Ptr) where
  -- A move of a coroutine that waits neither before nor after.
  pub moves :
      (p : Pc) (m : Semaphore) (x y z : ℕ)
      → Queued m queue
      → m.next ≡ s.sem.next
      → s.pc a ≢ suspended
      → p ≢ suspended
      → joins (s.pc a) ≡ false
      → joins p ≡ false
      → Lists
          (record s { sem = m; pc = update s.pc a p; permits = x; acquired = y; passed = z })
          queue
          joining
  moves p m x y z q same up up' out out' = record {
    queued = q;
    suspends = Names-stay (λ c. c ≡ suspended) v.suspends a p up up';
    joiners = Names-stay (λ c. joins c ≡ true) v.joiners a p (λ e. cc) (λ e. cc);
    links = λ b old e. elim (ℕ_discrete b a) [
      | yes z ↦ absurd (cc (update-own s.pc a p b z, e, out'))
      | no ne ↦ rw same (v.links b old (sym (update-other s.pc a p b ne) ∙ e))
    ];
    addresses = λ b e. elim (ℕ_discrete b a) [
      | yes z ↦ absurd (cc (update-own s.pc a p b z, e, out'))
      | no ne ↦ v.addresses b (subst (λ c. joins c ≡ true) (update-other s.pc a p b ne) e)
    ];
  }

  -- `await_ready` was false: the coroutine is about to join those who wait.
  pub registers :
      (m : Semaphore) (x : ℕ)
      → Queued m queue
      → m.next ≡ s.sem.next
      → a ≢ 0
      → s.pc a ≡ idle
      → Lists
          (record s { sem = m; pc = update s.pc a registering; acquired = x })
          queue
          (a ∷ joining)
  registers m x q same ne here = record {
    queued = q;
    suspends = Names-stay (λ c. c ≡ suspended) v.suspends a registering (λ e. cc) (λ e. cc);
    joiners =
        Names-enter (λ c. joins c ≡ true) v.joiners a registering (a ∷ joining) refl (inl refl)
          (λ b l. inr l) (λ b apart l. elim l [ inl e ↦ absurd (apart (sym e)) | inr h ↦ h ])
          (absent (λ c. joins c ≡ true) v.joiners a (λ e. cc), v.joiners.distinct);
    links = λ b old e. elim (ℕ_discrete b a) [
      | yes z ↦ absurd (cc (update-own s.pc a registering b z, e))
      | no apart ↦ rw same (v.links b old (sym (update-other s.pc a registering b apart) ∙ e))
    ];
    addresses = λ b e. elim (ℕ_discrete b a) [
      | yes z ↦ λ n. ne (sym z ∙ n)
      | no apart ↦
          v.addresses b (subst (λ c. joins c ≡ true) (update-other s.pc a registering b apart) e)
    ];
  }

  -- A move in the loop of `await_suspend`.
  pub loops :
      (p : Pc) (next : Links)
      → joins (s.pc a) ≡ true
      → joins p ≡ true
      → Queued (record s.sem { next = next }) queue
      → ((b : Ptr) → b ≢ a → next b ≡ s.sem.next b)
      → ((old : Ptr) → p ≡ linked old → next a ≡ old)
      → Lists (record s { sem = record s.sem { next = next }; pc = update s.pc a p }) queue joining
  loops p next inside inside' q same mine = record {
    queued = q;
    suspends = Names-stay (λ c. c ≡ suspended) v.suspends a p (λ e. cc) (λ e. cc);
    joiners = Names-keep (λ c. joins c ≡ true) v.joiners a p inside inside';
    links = λ b old e. elim (ℕ_discrete b a) [
      | yes z ↦ ap next z ∙ mine old (sym (update-own s.pc a p b z) ∙ e)
      | no apart ↦ same b apart ∙ v.links b old (sym (update-other s.pc a p b apart) ∙ e)
    ];
    addresses = λ b e. elim (ℕ_discrete b a) [
      | yes z ↦ rw z (v.addresses a inside)
      | no apart ↦ v.addresses b (subst (λ c. joins c ≡ true) (update-other s.pc a p b apart) e)
    ];
  }

  -- Who is pushed leaves those who join, and stands behind those who are suspended.
  pub pushes :
      (old : Ptr)
      → s.pc a ≡ linked old
      → s.sem.awaiting ≡ old
      → (rest : List Ptr) × (length joining ≡ suc (length rest))
        × Lists
            (record s { sem = record s.sem { awaiting = a }; pc = update s.pc a suspended })
            (queue ++ a ∷ [])
            rest
  pushes old here top =
      let w = take_out a joining (v.joiners.lists a (rw here refl)) in
      let (apart, gone) = w.distinct v.joiners.distinct in
      let fresh = absent (λ c. c ≡ suspended) v.suspends a (λ e. cc) in
      (
        w.rest,
        w.shorter,
        record {
          queued =
              Queued-push s.sem a queue (v.links a old here ∙ sym top)
                (v.addresses a (rw here refl)) fresh v.queued;
          suspends =
              Names-enter (λ c. c ≡ suspended) v.suspends a suspended (queue ++ a ∷ []) refl
                (Listed-snoc a queue) (λ b l. Listed-append_left b queue (a ∷ []) l)
                (λ b ne l. Listed-snoc-other b a queue ne l)
                (Distinct-snoc queue a v.suspends.distinct fresh);
          joiners =
              Names-leave (λ c. joins c ≡ true) v.joiners a suspended w.rest (λ e. cc) w.kept
                w.within gone apart;
          links = λ b o e. elim (ℕ_discrete b a) [
            | yes z ↦ absurd (cc (update-own s.pc a suspended b z, e))
            | no ne ↦ v.links b o (sym (update-other s.pc a suspended b ne) ∙ e)
          ];
          addresses = λ b e. elim (ℕ_discrete b a) [
            | yes z ↦ absurd (cc (update-own s.pc a suspended b z, e))
            | no ne ↦
                v.addresses b (subst (λ c. joins c ≡ true) (update-other s.pc a suspended b ne) e)
          ];
        },
      )
