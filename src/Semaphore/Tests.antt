-- ===== src/Semaphore/Tests.antt =====
-- A semaphore for which three coroutines wait: 8 is in order, and 24 and 16 are on the stack.
use co_context.Prelude.{
  ◌+◌, ◌%◌, ◌^◌, ◌≡◌, refl, List, [], ◌∷◌, ◌++◌, some, min, ◌==◌, if◌then◌else◌, arith, length,
}
use co_context.Prelude.Result.{ok}
use co_context.Awaiters.{Ptr, Links}
use co_context.Semaphore.{Semaphore, release}
use co_context.Semaphore.Order.{Queued, release_lem}

abbrev links : Links
links p = if p == 24 then 16 else 0

abbrev three : Semaphore
three = record { awaiting = 24; to_resume = 8; counter = 18446744073709551613; next = links }

abbrev waiting : List Ptr
waiting = 8 ∷ 16 ∷ 24 ∷ []

three-Queued : Queued three waiting
three-Queued = record {
  resume = 8 ∷ [];
  stack = 24 ∷ 16 ∷ [];
  order = refl;
  chain = (refl, (λ e. omega (arith, e)), refl);
  stack_chain = (refl, (λ e. omega (arith, e)), (refl, (λ e. omega (arith, e)), refl));
  distinct = (((λ e. omega (arith, e)), tt), (tt, tt));
}

release_example :
    (awoken left : List Ptr) × (s' : Semaphore) × (release 3 2 three ≡ some (ok (awoken, s')))
    × (waiting ≡ awoken ++ left)
    × (length awoken ≡ min (length waiting) 2)
    × Queued s' left
    × (s'.counter ≡ (three.counter + 2) % 2 ^ 64)
release_example =
    release_lem 3 2 three waiting three-Queued (omega arith) (omega arith) refl (omega arith)
      (omega arith) (omega arith)
