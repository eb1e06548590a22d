-- ===== src/Semaphore/Steps/Safety.antt =====
-- What holds of the semaphore in every reachable state.
use co_context.Prelude.{ℕ, ◌≤◌, ◌≡◌, refl, some, true, [], arith, ◌⊎◌}
use co_context.Awaiters.{Ptr, Links}
use co_context.Semaphore.{Semaphore, try_release}
use co_context.Semaphore.Steps.{
  Pc, suspended, System, Acquire, goes_through, has_to_wait, load, link, push, push_fails, try_load,
  try_refuses, try_exchange, try_fails, leave, Step, acquires, adds, locks, wakes, meets_null,
  start, Reach, here, later,
}
use co_context.Semaphore.Steps.Invariant.{joins, Inv, IsSmall}
use co_context.Semaphore.Steps.Acquiring.{Acquire-Inv}
use co_context.Semaphore.Steps.Releasing.{added-Inv, locked-Inv, woken-Inv, null-Inv}

start-Inv : (desired : ℕ) (next : Links) → IsSmall (start desired next) → Inv (start desired next)
start-Inv desired next (small, none_yet) = record {
  queue = [];
  joining = [];
  lists = record {
    queued = record {
      resume = [];
      stack = [];
      order = refl;
      chain = refl;
      stack_chain = refl;
      distinct = tt;
    };
    suspends = record { lists = λ b e. cc; waits = λ b l. absurd l; distinct = tt };
    joiners = record { lists = λ b e. cc; waits = λ b l. absurd l; distinct = tt };
    links = λ b old e. cc;
    addresses = λ b e. cc;
  };
  counts = record {
    balanced = (omega (arith, small), (λ h. omega arith), λ h. omega (arith, h));
    through = omega arith;
    short = omega arith;
  };
}

-- The two counts only grow.
Grows : System → System → Type 0
Grows s t = (s.permits ≤ t.permits) × (s.acquired ≤ t.acquired)

Acquire-Grows : {s : System} {a : Ptr} {p : Pc} {t : System} → Acquire s a p t → Grows s t
unfolding Grows
Acquire-Grows (goes_through run) = (omega arith, omega arith)
Acquire-Grows (has_to_wait ne run) = (omega arith, omega arith)
Acquire-Grows load = (omega arith, omega arith)
Acquire-Grows link = (omega arith, omega arith)
Acquire-Grows (push top) = (omega arith, omega arith)
Acquire-Grows push_fails = (omega arith, omega arith)
Acquire-Grows try_load = (omega arith, omega arith)
Acquire-Grows (try_refuses z) = (omega arith, omega arith)
Acquire-Grows (try_exchange e z) = (omega arith, omega arith)
Acquire-Grows (try_fails e) = (omega arith, omega arith)
Acquire-Grows leave = (omega arith, omega arith)

Step-Grows : {s t : System} → Step s t → Grows s t
unfolding Grows
Step-Grows (acquires a step) = Acquire-Grows step
Step-Grows (adds update up) = (omega arith, omega arith)
Step-Grows (locks xs o ys e free) = (omega arith, omega arith)
Step-Grows (wakes fuel o a owes run) = (omega arith, omega arith)
Step-Grows (meets_null fuel o owes run) = (omega arith, omega arith)

Step-Inv : {s t : System} → Step s t → IsSmall t → Inv s → Inv t
Step-Inv {s} (acquires a step) small v = Acquire-Inv a (s.pc a) refl step small v
Step-Inv (adds update up) small v = added-Inv v update small
Step-Inv (locks xs o ys e free) small v = locked-Inv v xs o ys e free
Step-Inv (wakes fuel o a owes run) small v = woken-Inv v fuel o a owes run
Step-Inv (meets_null fuel o owes run) small v = null-Inv v fuel run

pub Reach-Inv : {desired : ℕ} {next : Links} {s : System} → Reach desired next s → IsSmall s → Inv s
unfolding Grows
Reach-Inv {desired} {next} here small = start-Inv desired next small
Reach-Inv (later r alive step) (hp, ha) =
    let (more, more') = Step-Grows step in
    Step-Inv step (hp, ha) (Reach-Inv r (omega (arith, more, hp), omega (arith, more', ha)))

abbrev pub Finds : System → Type 0
Finds s =
    ((a : Ptr) × (m : Semaphore) × (fuel : ℕ) × (s.pc a ≡ suspended)
      × (try_release fuel s.sem ≡ some (some a, m)))
    ⊎ ((b : Ptr) × (joins (s.pc b) ≡ true))
