-- ===== src/Context/Stop.antt =====
-- When the loop of a context decides to stop.
use co_context.Prelude.{
  ℕ, ◌≡◌, [], Bool, true, false, not, ◌||◌, ◌≤◌, ◌==◌, ltb, if◌then◌else◌, arith,
}
use co_context.Prelude.Result.{Result, fault, ok, ◌>>=◌}
use co_context.Worker.State.{Handle, Uring, Worker}
use co_context.Worker.Ready.{has_task_ready}
use co_context.Worker.Completion.{poll_completion, poll_from}
use co_context.Context.{
  Enter, Context, peek_uring, wait_uring, do_completion_part, do_completion_part_bad_path,
}

module _ {R : Type 0} (io : Uring R) (enter : Enter R) (resume : Handle → Worker R → Worker R)
    (is_using_eventfd : Bool) (event_fd k submission_threshold : ℕ) where
  -- Where nothing has completed, is ready or is to be submitted or reaped, and no other context is
  -- running, the context stops.
  pub stops_when_idle :
      (c : Context R)
      → io.ready c.worker.ring ≡ []
      → has_task_ready c.worker ≡ false
      → c.worker.requests_to_submit ≡ 0
      → c.worker.requests_to_reap ≡ 0
      → c.ready_count ≤ 1
      → do_completion_part io enter resume is_using_eventfd event_fd k submission_threshold c
        ≡ ok (record c { will_stop = true })
  unfolding do_completion_part do_completion_part_bad_path peek_uring wait_uring poll_completion
      poll_from
  stops_when_idle c none_done none_ready none_queued none_left alone =
      let single : ltb 1 c.ready_count ≡ false = ground arith in
      simp (none_done, none_ready, none_queued, none_left, single)

  bad_path_lem :
      (c c' : Context R)
      → do_completion_part_bad_path io enter resume is_using_eventfd event_fd k submission_threshold
          c
        ≡ ok c'
      → c.will_stop ≡ false
      → c'.will_stop ≡ true
      → (c'.worker.requests_to_reap ≡ 0) × (c'.ready_count ≤ 1)
  unfolding do_completion_part_bad_path
  bad_path_lem c c' run going stops = ground arith

  -- A context whose loop decides to stop has nothing left to be reaped, and no other context is
  -- running.
  pub stop_means_idle :
      (c c' : Context R)
      → do_completion_part io enter resume is_using_eventfd event_fd k submission_threshold c
        ≡ ok c'
      → c.will_stop ≡ false
      → c'.will_stop ≡ true
      → (c'.worker.requests_to_reap ≡ 0) × (c'.ready_count ≤ 1)
  unfolding do_completion_part
  stop_means_idle c c' run going stops =
      decided
        (if peek_uring io enter resume is_using_eventfd event_fd k submission_threshold c.worker
          then poll_completion io is_using_eventfd event_fd k c.worker
          else ok (0, c.worker))
        run
    where
      decided :
          (m : Result (ℕ × Worker R))
          → (m >>= λ x.
              if not (x.1.requests_to_submit == 0) || has_task_ready x.1 || not (x.0 == 0)
              then ok (record c { worker = x.1 })
              else do_completion_part_bad_path io enter resume is_using_eventfd event_fd k
                  submission_threshold
                  (record c { worker = x.1 }))
            ≡ ok c'
          → (c'.worker.requests_to_reap ≡ 0) × (c'.ready_count ≤ 1)
      decided (fault e) r = cc
      decided (ok (n, w)) r = ground (arith, bad_path_lem (record c { worker = w }) c')
