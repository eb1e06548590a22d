-- ===== src/Semaphore/Faults.antt =====
-- A release before the coroutine that waits is in a list, and a release of nothing.
use native.Mathlib.Nat.{mod-eq_of_lt}
use co_context.Prelude.{
  ◌∙◌, ℕ, ◌+◌, ◌-◌, ◌%◌, ◌^◌, ◌≤◌, ◌<◌, ◌≡◌, refl, List, [], ◌∷◌, true, false, some, min, leb,
  arith, length,
}
use co_context.Prelude.Result.{ok, fault, null_access}
use co_context.Awaiters.{Ptr}
use co_context.Semaphore.{Semaphore, is_negative, await_ready, try_release, wake, release}
use co_context.Semaphore.Order.{Queued, try_release_lem}

-- A coroutine that finds the counter at 0 waits, and a release that comes before it stands in the
-- list dereferences a null pointer.
pub release_before_suspend :
    (fuel : ℕ) (s : Semaphore)
    → s.counter ≡ 0
    → s.to_resume ≡ 0
    → s.awaiting ≡ 0
    → ((await_ready s).0 ≡ false) × (release fuel 1 (await_ready s).1 ≡ some (fault null_access))
unfolding await_ready is_negative release wake try_release
release_before_suspend fuel s zero none_ordered none_stacked =
    (ground arith, simp (zero, none_ordered, none_stacked))

-- A release of nothing while coroutines wait wakes the first of them, and leaves the counter.
pub release_zero :
    (fuel : ℕ) (s : Semaphore) (a : Ptr) (q : List Ptr)
    → Queued s (a ∷ q)
    → length (a ∷ q) ≤ fuel
    → 2 ^ 63 ≤ s.counter
    → s.counter < 2 ^ 64
    → (s' : Semaphore) × (release fuel 0 s ≡ some (ok (a ∷ [], s')))
      × Queued s' q
      × (s'.counter ≡ s.counter)
unfolding is_negative release wake
release_zero fuel s a q v enough waiting word =
    let (s', run, v', same, kept) = try_release_lem fuel added a q v0 enough in
    let below : leb (2 ^ 63) s.counter ≡ true = ground arith in
    let once : min (2 ^ 64 - s.counter) 0 - 1 ≡ 0 = omega arith in
    (
      s',
      rw (below, once, run, wake) refl,
      v',
      same ∙ mod-eq_of_lt {n = s.counter + 0} {m = 2 ^ 64} (omega arith) ∙ omega arith,
    )
  where
    added : Semaphore
    added = record s { counter = (s.counter + 0) % 2 ^ 64 }

    v0 : Queued added (a ∷ q)
    v0 = record {
      resume = v.resume;
      stack = v.stack;
      order = v.order;
      chain = v.chain;
      stack_chain = v.stack_chain;
      distinct = v.distinct;
    }
