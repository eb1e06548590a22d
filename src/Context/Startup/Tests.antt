-- ===== src/Context/Startup/Tests.antt =====
-- Two contexts: the first that is started sleeps until the second is started, and notifies it.
use co_context.Prelude.{ℕ, ◌≡◌, ◌≢◌, ◌↔◌, refl, arith}
use co_context.Context.Startup.{
  created, sleeping, passed, System, checked, constructed, started, notifies, constructs, starts,
  notifies_all, nothing, Reach, here, later,
}
use co_context.Context.Startup.Safety.{checked_iff, no_sleeper}

abbrev second_sleeps : System
second_sleeps = started (constructed (constructed nothing 0) 1) 1

abbrev both_run : System
both_run = notifies (started second_sleeps 0) 0

second_sleeps-Reach : Reach second_sleeps
second_sleeps-Reach =
    later (later (later here (constructs 0 refl)) (constructs 1 refl)) (starts 1 refl)

both_run-Reach : Reach both_run
both_run-Reach = later (later second_sleeps-Reach (starts 0 refl)) (notifies_all 0 refl)

checked_example : (checked second_sleeps ≡ passed) ↔ ((j : ℕ) → second_sleeps.pc j ≢ created)
checked_example = checked_iff second_sleeps-Reach (omega arith)

none_created : (j : ℕ) → both_run.pc j ≢ created
none_created j e = ground arith

none_passed : (j : ℕ) → both_run.pc j ≢ passed
none_passed j e = ground arith

no_sleeper_example : both_run.pc 1 ≢ sleeping
no_sleeper_example = no_sleeper both_run-Reach (omega arith) none_created none_passed 1
