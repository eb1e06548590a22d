-- ===== src/Mutex/Assertions.antt =====
-- The assertions of lib/co_context/co/mutex.cpp: in `unlock` and in the destructor.
use co_context.Prelude.{◌≤◌, ◌≡◌, ◌≢◌, refl, List, [], ◌∷◌, inl, inr, Option-cases, All, arith}
use co_context.Awaiters.{Ptr, Links, Chain}
use co_context.Mutex.{
  locked_no_awaiting, not_locked, Mutex, Pc, idle, trying, linked, suspended, holding, releasing,
  exchanging, reversing, System, Reach,
}
use co_context.Mutex.Queue.{FairLock}
use co_context.Mutex.Invariant.Defs.{Inv, Waits, not-Chain-not_locked}
use co_context.Mutex.Safety.{shown}

-- What `unlock` asserts where it stands: the mutex is locked, and the word that it has exchanged
-- is the address of an awaiter.
abbrev pub AssertsHold : Mutex → Pc → Type 0
AssertsHold m holding = m.awaiting ≢ not_locked
AssertsHold m (reversing top) = (top ≢ not_locked) × (top ≢ locked_no_awaiting)
AssertsHold m _ = Unit {0}

taken_top :
    (next : Links) (pc : Ptr → Pc) (top : Ptr) (xs : List Ptr)
    → xs ≢ []
    → All (Waits pc) xs
    → Chain next top xs
    → 2 ≤ top
taken_top next pc top [] ne w c = absurd (ne refl)
taken_top next pc top (x ∷ xs) ne w c = omega (arith, w.0.1, c.0)

asserted :
    {s : System} {q : FairLock} → Inv s q → (a : Ptr) (p : Pc) → s.pc a ≡ p → AssertsHold s.mtx p
asserted {s} v a holding e =
    let (phase, chain) = v.owned a (v.owners a (rw e)) in
    λ word. not-Chain-not_locked s.mtx.next s.pc v.stack v.stack_waits (rw word at chain)
asserted {s} v a (reversing top) e =
    let (none_left, some_taken, chain) = rw e at ((v.owned a (v.owners a (rw e))).0) in
    let aligned = taken_top s.mtx.next s.pc top v.taken some_taken v.taken_waits chain in
    ((λ z. omega arith), λ z. omega arith)
asserted v a idle e = tt
asserted v a (trying old) e = tt
asserted v a (linked old) e = tt
asserted v a suspended e = tt
asserted v a releasing e = tt
asserted v a exchanging e = tt

-- In every reachable state, the assertions of `unlock` on the word `awaiting` hold for each
-- coroutine.
pub asserts_hold :
    {next : Links} {s : System} → Reach next s → (a : Ptr) → AssertsHold s.mtx (s.pc a)
asserts_hold {s} r a = let (q, fair, v) = shown r in asserted v a (s.pc a) refl

-- When every coroutine is back outside the mutex, it is unlocked with nobody to resume, so the
-- destructor's assertions hold.
pub destructor_asserts_hold :
    {next : Links} {s : System}
    → Reach next s
    → ((a : Ptr) → s.pc a ≡ idle)
    → (s.mtx.awaiting ≡ not_locked) × (s.mtx.to_resume ≡ 0)
destructor_asserts_hold {s} r outside =
    let (q, fair, v) = shown r in
    elim (Option-cases q.owner) [
      | inl free ↦
          let (word, no_resume, no_taken, no_stack) = v.unowned free in
          (word, rw no_resume at (v.chain))
      | inr (b, held) ↦ absurd (rw (outside b) at ((v.owned b held).0))
    ]
