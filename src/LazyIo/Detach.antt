-- ===== src/LazyIo/Detach.antt =====
-- Awaiters that nobody waits for.
use co_context.Prelude.{ℕ, ◌≡◌, refl, Bool, true, false, arith}
use co_context.Prelude.Result.{ok}
use co_context.Worker.State.{Uring, Worker, decrement}
use co_context.Worker.Completion.{handle_reserved_user_data, handle_cq_entry}
use co_context.LazyIo.{Submission, LazyAwaiter, nop, detach}

nop_ignored :
    {R : Type 0} (io : Uring R) (is_using_eventfd : Bool) (event_fd k : ℕ) (w : Worker R)
    (user_data res : ℕ)
    → user_data ≡ nop is_using_eventfd
    → handle_cq_entry io is_using_eventfd event_fd k (record { user_data = user_data; res = res }) w
      ≡ ok (record w {
        requests_to_reap = decrement w.requests_to_reap;
        ring = io.seen_cq_entry w.ring;
      })
unfolding handle_cq_entry handle_reserved_user_data
nop_ignored io true event_fd k w user_data res e = rw e refl
nop_ignored io false event_fd k w user_data res e = rw e refl

module _ {R : Type 0} (io : Uring R) (is_using_eventfd : Bool) (event_fd k : ℕ) where
  -- Where the kernel leaves out the completion of a detached request, the request is not counted;
  -- elsewhere the worker takes its completion, whatever the result, and does nothing more than
  -- count it and retire it.
  pub detach_lem :
      (a : LazyAwaiter) (s : Submission) (w : Worker R) (res : ℕ)
      → (((detach true is_using_eventfd a s).entries a.sqe).is_cqe_skip ≡ true)
        × ((detach true is_using_eventfd a s).requests_to_reap ≡ decrement s.requests_to_reap)
        × ((detach false is_using_eventfd a s).requests_to_reap ≡ s.requests_to_reap)
        × (handle_cq_entry io is_using_eventfd event_fd k
              (record {
                user_data = ((detach false is_using_eventfd a s).entries a.sqe).user_data;
                res = res;
              })
              w
            ≡ ok (record w {
              requests_to_reap = decrement w.requests_to_reap;
              ring = io.seen_cq_entry w.ring;
            }))
  unfolding detach
  detach_lem a s w res =
      let tagged : ((detach false is_using_eventfd a s).entries a.sqe).user_data
          ≡ nop is_using_eventfd =
        ground arith in
      (ground arith, refl, refl, nop_ignored io is_using_eventfd event_fd k w _ res tagged)
