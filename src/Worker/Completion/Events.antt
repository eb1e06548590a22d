-- ===== src/Worker/Completion/Events.antt =====
-- `handle_co_spawn_events`: coroutines that other threads have queued.
use co_context.Prelude.{
  ℕ, ◌+◌, ◌^◌, ◌≤◌, ◌<◌, ◌≡◌, ◌≢◌, refl, sym, ap, ◌∙◌, List, [], ◌∷◌, ◌++◌, Bool, true, false, some,
  arith, append-nil, append_assoc, length, length-append, ltb, All,
}
use co_context.Prelude.Result.{ok, fault, terminated}
use co_context.Cursor.{available_number}
use co_context.Cursor.Counts.{available_number-add-size}
use co_context.Cursor.Fifo.{length-contents}
use co_context.Worker.State.{Handle, Uring, Worker, read_event, increment}
use co_context.Worker.Ready.{cur_bits}
use co_context.Worker.Ready.Fifo.{
  ready, IsReady, forwarded, forward_task-ok, forwarded-ready, forwarded-IsReady,
}
use co_context.Worker.Completion.{
  listen_on_co_spawn, forward_local, handle_co_spawn_events, co_spawn_event,
}

module _ {R : Type 0} (io : Uring R) (is_using_eventfd : Bool) (event_fd k : ℕ) where
  forward_local_lem :
      (hs : List Handle) (w : Worker R)
      → IsReady k w
      → All (λ h. h ≢ 0) hs
      → length (ready k w) + length hs ≤ 2 ^ k
      → w.co_spawn_local_queue ≡ hs
      → (w' : Worker R) × (forward_local io is_using_eventfd event_fd k hs w ≡ ok w')
        × (ready k w' ≡ ready k w ++ hs)
        × IsReady k w'
        × (w'.co_spawn_local_queue ≡ [])
        × (w'.co_spawn_queue ≡ w.co_spawn_queue)
        × (w'.ring ≡ w.ring)
        × (w'.requests_to_submit ≡ w.requests_to_submit)
  unfolding forward_local
  forward_local_lem [] w v full room e =
      (w, refl, sym (append-nil (ready k w)), v, e, refl, refl, refl)
  forward_local_lem (h ∷ hs) w v full room e =
      let q = forwarded-ready k h w v (omega arith) in
      let (w', run, q', v2, idle, queue, ring, submit) =
        forward_local_lem hs next v' full.1
          (omega (arith, ap length q, length-append (ready k w) (h ∷ []))) refl in
      (
        w',
        rw (forward_task-ok k h w full.0) run,
        q' ∙ ap (λ l. l ++ hs) q ∙ append_assoc (ready k w) (h ∷ []) hs,
        v2,
        idle,
        queue,
        ring,
        submit,
      )
    where
      next : Worker R
      next = record (forwarded k h w) { co_spawn_local_queue = hs }

      v' : IsReady k next
      v' =
          let f = forwarded-IsReady k h w full.0 v (omega arith) in
          record { cursor = f.cursor; storage = f.storage; full_handles = f.full_handles }

  -- A request to listen takes a submission entry, and is counted twice: to submit and to reap.
  abbrev listening : ℕ → R → Worker R → Worker R
  listening sqe r w = record w {
    ring = io.prepare sqe (read_event event_fd co_spawn_event) r;
    requests_to_reap = increment w.requests_to_reap;
    requests_to_submit = increment w.requests_to_submit;
  }

  listen_on_co_spawn_lem :
      (sqe : ℕ) (r : R) (w : Worker R)
      → io.get_sq_entry w.ring ≡ some (sqe, r)
      → listen_on_co_spawn io is_using_eventfd event_fd k w ≡ ok (listening sqe r w)
  unfolding listen_on_co_spawn
  listen_on_co_spawn_lem sqe r w e = ground arith

  room_left :
      (w : Worker R)
      → IsReady k w
      → available_number cur_bits k w.reap_cur + length (ready k w) ≡ 2 ^ k
  room_left w v = omega (
    arith,
    available_number-add-size v.cursor,
    length-contents cur_bits k 0 w.reap_swap w.reap_cur,
  )

  -- When the local queue is empty, the queue of the other threads fits into the ready queue and a
  -- submission entry is free, the coroutines of the queue become ready in their order, both queues
  -- are empty, and one request to listen again is prepared.
  pub handle_co_spawn_events_lem :
      (w : Worker R) (sqe : ℕ) (r : R)
      → IsReady k w
      → w.co_spawn_local_queue ≡ []
      → All (λ h. h ≢ 0) w.co_spawn_queue
      → length (ready k w) + length w.co_spawn_queue ≤ 2 ^ k
      → io.get_sq_entry w.ring ≡ some (sqe, r)
      → (w' : Worker R) × (handle_co_spawn_events io is_using_eventfd event_fd k w ≡ ok w')
        × (ready k w' ≡ ready k w ++ w.co_spawn_queue)
        × IsReady k w'
        × (w'.co_spawn_queue ≡ [])
        × (w'.co_spawn_local_queue ≡ [])
        × (w'.ring ≡ io.prepare sqe (read_event event_fd co_spawn_event) r)
        × (w'.requests_to_submit ≡ increment w.requests_to_submit)
  unfolding handle_co_spawn_events
  handle_co_spawn_events_lem w sqe r v idle full room free =
      let (w1, run, q, v1, local, queue, ring, submit) =
        forward_local_lem w.co_spawn_queue swapped v' full room refl in
      let listen = listen_on_co_spawn_lem sqe r w1 (rw ring free) in
      (
        listening sqe r w1,
        simp (idle, fits, run) listen,
        q,
        record { cursor = v1.cursor; storage = v1.storage; full_handles = v1.full_handles },
        queue,
        local,
        refl,
        ap increment submit,
      )
    where
      swapped : Worker R
      swapped = record w { co_spawn_local_queue = w.co_spawn_queue; co_spawn_queue = [] }

      v' : IsReady k swapped
      v' = record { cursor = v.cursor; storage = v.storage; full_handles = v.full_handles }

      fits : ltb (available_number cur_bits k w.reap_cur) (length w.co_spawn_queue) ≡ false
      fits = ground (arith, room_left w v)

  -- When the queue of the other threads does not fit into the ready queue, the program is
  -- terminated.
  pub handle_co_spawn_events_overflow :
      (w : Worker R)
      → IsReady k w
      → w.co_spawn_local_queue ≡ []
      → 2 ^ k < length (ready k w) + length w.co_spawn_queue
      → handle_co_spawn_events io is_using_eventfd event_fd k w ≡ fault terminated
  unfolding handle_co_spawn_events
  handle_co_spawn_events_overflow w v idle over =
      let full : ltb (available_number cur_bits k w.reap_cur) (length w.co_spawn_queue) ≡ true =
        ground (arith, room_left w v) in
      simp (idle, full)
