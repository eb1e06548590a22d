-- ===== src/Spin/Tests.antt =====
-- Two users, of which the second waits while the first holds the lock.
use co_context.Prelude.{ℕ, ◌≡◌}
use co_context.Spin.{
  holding, lock, exchanged, exchange_fails, still_occupied, System, Reach, here, later,
}
use co_context.Spin.Exclusion.{flag-IsOwned}

abbrev contended : (s : System) × Reach s
contended = (
  _,
  later 2 (later 2 (later 1 (later 2 (later 1 here lock) lock) exchanged) exchange_fails)
      still_occupied,
)

flag-IsOwned_example :
    (owner : ℕ) × (contended.0.pc owner ≡ holding)
    × ((a : ℕ) → contended.0.pc a ≡ holding → a ≡ owner)
flag-IsOwned_example = flag-IsOwned contended.1
