-- ===== src/Mutex/Tests.antt =====
-- A run of two coroutines: the one at 8 takes the mutex, the one at 16 waits, is resumed by the
-- first as it unlocks, and owns the mutex then.
use co_context.Prelude.{◌≡◌, refl, true, arith}
use co_context.Awaiters.{Ptr, Links, set_next, reverse_loop}
use co_context.Mutex.{
  idle, trying, linked, suspended, holding, releasing, exchanging, reversing, owns, try_lock, load,
  link, push, nothing_to_resume, release, release_fails, exchange, resume_reversed, System, update,
  registers, unlocks, start, Reach, here, later,
}
use co_context.Mutex.Queue.{FairLock}
use co_context.Mutex.Assertions.{AssertsHold, asserts_hold}
use co_context.Mutex.Safety.{
  Shows, Enabled, run_refines_fair_lock, mutual_exclusion, no_lost_coroutine,
}

abbrev woken : Ptr
woken = 16

abbrev unlinked : Links
unlinked a = 0

abbrev pushed : System
pushed = record {
  mtx = record { awaiting = 16; to_resume = 0; next = set_next unlinked 16 0 };
  pc =
      update (update (update (update (start unlinked).pc 8 holding) 16 (trying 0)) 16 (linked 0)) 16
        suspended;
}

to_pushed : Reach unlinked pushed
to_pushed =
    later
      (later
        (later (later here (registers 8 (omega arith) (try_lock refl)))
          (registers 16 (omega arith) load))
        (registers 16 (omega arith) (link (λ e. omega (arith, e)))))
      (registers 16 (omega arith) (push refl))

abbrev handed : System
handed = record {
  mtx = record { awaiting = 0; to_resume = 0; next = set_next (set_next unlinked 16 0) 16 0 };
  pc =
      update
        (update (update (update (update pushed.pc 8 releasing) 8 exchanging) 8 (reversing 16)) 8
          idle)
        16 holding;
}

to_handed : Reach unlinked handed
unfolding reverse_loop
to_handed =
    later
      (later
        (later (later to_pushed (unlocks 8 (nothing_to_resume refl)))
          (unlocks 8 (release_fails (λ e. omega (arith, e)))))
        (unlocks 8 exchange))
      (unlocks 8 (resume_reversed 1 refl))

run_refines_fair_lock_example : (q : FairLock) × Shows to_handed q
run_refines_fair_lock_example = run_refines_fair_lock to_handed

mutual_exclusion_example : woken ≡ woken
mutual_exclusion_example = mutual_exclusion to_handed woken woken refl refl

no_lost_coroutine_example :
    (b : Ptr) × (owns (pushed.pc b) ≡ true) × Enabled pushed.mtx (pushed.pc b)
no_lost_coroutine_example = no_lost_coroutine to_pushed 16 refl

abbrev freed : System
freed = record {
  mtx = record { awaiting = 1; to_resume = 0; next = unlinked };
  pc = update (update (update (start unlinked).pc 8 holding) 8 releasing) 8 idle;
}

to_freed : Reach unlinked freed
to_freed =
    later
      (later (later here (registers 8 (omega arith) (try_lock refl)))
        (unlocks 8 (nothing_to_resume refl)))
      (unlocks 8 (release refl))

all_idle : (a : Ptr) → freed.pc a ≡ idle
all_idle a = ground arith

asserts_hold_example : AssertsHold handed.mtx holding
asserts_hold_example = asserts_hold to_handed 16
