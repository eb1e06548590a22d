-- ===== src/Mutex/Safety.antt =====
-- What holds of the coroutine mutex in every reachable state.
use co_context.Prelude.{
  ◌≡◌, refl, Option, some, true, List, [], ◌∷◌, inl, inr, Option-cases, length, Listed, All,
  All-append, All-reverse, reverse, ◌↔◌, ◌++◌,
}
use native.Mathlib.Decide.{ℕ_discrete}
use co_context.Awaiters.{Ptr, Links, reverse_loop_ends}
use co_context.Mutex.{
  Mutex, Pc, idle, trying, linked, suspended, holding, releasing, exchanging, reversing, owns,
  Unlock, resume_next, nothing_to_resume, release, release_fails, exchange, resume_reversed, System,
  Step, registers, unlocks, start, Reach, here, later,
}
use co_context.Mutex.Queue.{FairLock, FairStep, free_lock}
use co_context.Mutex.Invariant.Defs.{Inv, Waits, Phase-owns}
use co_context.Mutex.Invariant.Registering.{Follows, Register-Follows}
use co_context.Mutex.Invariant.Unlocking.{Unlock-Follows}

start-Inv : (next : Links) → Inv (start next) free_lock
start-Inv next = record {
  resume = [];
  taken = [];
  stack = [];
  order = refl;
  chain = refl;
  resume_waits = tt;
  taken_waits = tt;
  stack_waits = tt;
  distinct = (tt, tt, tt);
  disjoint = (tt, tt);
  unowned = λ e. (refl, refl, refl, refl);
  owned = λ b e. cc;
  owners = λ b inside. cc;
  queued = λ b down. cc;
  links = λ b old at. cc;
}

Unlock-owns : {m m' : Mutex} {p p' : Pc} {w : Option Ptr} → Unlock m p m' p' w → owns p ≡ true
Unlock-owns (resume_next more) = refl
Unlock-owns (nothing_to_resume nothing) = refl
Unlock-owns (release word) = refl
Unlock-owns (release_fails word) = refl
Unlock-owns exchange = refl
Unlock-owns (resume_reversed fuel run) = refl

pub Step-Follows : {s t : System} {q : FairLock} → Step s t → Inv s q → Follows q t
Step-Follows {s} (registers a aligned mv) v = Register-Follows v a (s.pc a) refl aligned mv
Step-Follows {s} (unlocks a mv) v =
    Unlock-Follows v a (v.owners a (Unlock-owns mv)) (s.pc a) refl mv

-- What a client sees: who owns the mutex, and who waits for it.
pub record Represents (s : System) (q : FairLock) : Type 0 where
  pub owner_iff : (b : Ptr) → (owns (s.pc b) ≡ true) ↔ (q.owner ≡ some b)
  pub waiting_iff : (a : Ptr) → (s.pc a ≡ suspended) ↔ Listed a q.queue

Listed-Waits :
    (pc : Ptr → Pc) (a : Ptr) (xs : List Ptr) → All (Waits pc) xs → Listed a xs → pc a ≡ suspended
Listed-Waits pc a [] w l = absurd l
Listed-Waits pc a (x ∷ xs) w (inl e) = rw (← e) (w.0.0)
Listed-Waits pc a (x ∷ xs) w (inr l) = Listed-Waits pc a xs w.1 l

pub Inv-Represents : {s : System} {q : FairLock} → Inv s q → Represents s q
Inv-Represents {s} {q} v = record {
  owner_iff = λ b. (
    v.owners b,
    λ held. Phase-owns s.mtx.next (s.pc b) v.resume v.taken v.stack (v.owned b held).0,
  );
  waiting_iff = λ a. (v.queued a, λ l. Listed-Waits s.pc a q.queue waits l);
}
  where
    waits : All (Waits s.pc) q.queue
    waits = rw (v.order) (
        All-append (Waits s.pc) v.resume (reverse v.taken ++ reverse v.stack) v.resume_waits (
          All-append (Waits s.pc) (reverse v.taken) (reverse v.stack)
            (All-reverse (Waits s.pc) v.taken v.taken_waits)
            (All-reverse (Waits s.pc) v.stack v.stack_waits)))

-- Along the whole run each state represents a fair lock, which starts free, makes a fair step for
-- each step of the run, and ends as `q`.
abbrev pub Shows : {next : Links} {s : System} → Reach next s → FairLock → Type 0
Shows {next} here q = (q ≡ free_lock) × Represents (start next) q
Shows (later {t = t} r st) q = (q' : FairLock) × Shows r q' × FairStep q' q × Represents t q

pub shown : {next : Links} {s : System} (r : Reach next s) → (q : FairLock) × Shows r q × Inv s q
shown {next} here = (free_lock, (refl, Inv-Represents (start-Inv next)), start-Inv next)
shown (later r st) =
    let (q, fair, v) = shown r in
    let (q', step, v') = Step-Follows st v in (q', (q, fair, step, Inv-Represents v'), v')

-- In every run the mutex behaves as a fair lock: who joins the queue stands behind those who
-- wait, the lock is handed to the first in the queue, and it is free only when nobody waits.
pub run_refines_fair_lock :
    {next : Links} {s : System} (r : Reach next s) → (q : FairLock) × Shows r q
run_refines_fair_lock r = let (q, fair, v) = shown r in (q, fair)

-- Two coroutines never own the mutex together.
pub mutual_exclusion :
    {next : Links} {s : System}
    → Reach next s
    → (a b : Ptr) → owns (s.pc a) ≡ true
    → owns (s.pc b) ≡ true
    → a ≡ b
mutual_exclusion r a b in_a in_b =
    let (q, fair, v) = shown r in let held = v.owners a in_a in let held' = v.owners b in_b in cc

owner_of_queue :
    {s : System} {q : FairLock}
    → Inv s q
    → (a : Ptr) → Listed a q.queue
    → (b : Ptr) × (q.owner ≡ some b) × (owns (s.pc b) ≡ true)
owner_of_queue {s} {q} v a listed = elim (Option-cases q.owner) [
  | inl free ↦
      let (word, no_resume, no_taken, no_stack) = v.unowned free in
      let empty : q.queue ≡ [] = rw (v.order, no_resume, no_taken, no_stack) in
      absurd (rw empty at listed)
  | inr (b, held) ↦
      (b, held, Phase-owns s.mtx.next (s.pc b) v.resume v.taken v.stack (v.owned b held).0)
]

-- The owner can take a step of `unlock`.
abbrev pub Enabled : Mutex → Pc → Type 0
Enabled m p = (m' : Mutex) × (p' : Pc) × (woken : Option Ptr) × Unlock m p m' p' woken

enabled :
    {s : System} {q : FairLock}
    → Inv s q
    → (b : Ptr) (at : Pc) → s.pc b ≡ at
    → owns at ≡ true
    → q.owner ≡ some b
    → Enabled s.mtx at
enabled {s} v b holding e o held = elim (ℕ_discrete s.mtx.to_resume 0) [
  | yes none_left ↦ (_, _, _, nothing_to_resume none_left)
  | no more ↦ (_, _, _, resume_next more)
]
enabled {s} v b releasing e o held = elim (ℕ_discrete s.mtx.awaiting 0) [
  | yes word ↦ (_, _, _, release word)
  | no word ↦ (_, _, _, release_fails word)
]
enabled {s} v b exchanging e o held = (_, _, _, exchange)
enabled {s} v b (reversing top) e o held =
    let (no_resume, some_taken, chain) = rw e at ((v.owned b held).0) in
    let (next, head, run) =
      reverse_loop_ends s.mtx.next top s.mtx.to_resume v.taken some_taken chain
        (rw no_resume at (v.chain)) v.distinct.1 in
    (_, _, _, resume_reversed (length v.taken) run)
enabled {s} v b idle e o held = cc
enabled {s} v b (trying old) e o held = cc
enabled {s} v b (linked old) e o held = cc
enabled {s} v b suspended e o held = cc

-- While a coroutine is suspended, some coroutine owns the mutex, and wherever that one stands in
-- `unlock`, its next step can be taken; the loop that turns the stack round ends.
pub no_lost_coroutine :
    {next : Links} {s : System}
    → Reach next s
    → (a : Ptr) → s.pc a ≡ suspended
    → (b : Ptr) × (owns (s.pc b) ≡ true) × Enabled s.mtx (s.pc b)
no_lost_coroutine {s} r a down =
    let (q, fair, v) = shown r in
    let (b, held, inside) = owner_of_queue v a (v.queued a down) in
    (b, inside, enabled v b (s.pc b) refl inside held)
