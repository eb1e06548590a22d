-- ===== src/Worker/Spawn.antt =====
-- `check_init` and the ways by which a coroutine comes to a worker: `co_spawn_unsafe` on the worker's own
-- thread, `co_spawn_safe_eventfd` and `co_spawn_safe_msg_ring` from another one, and
-- `co_spawn_auto`, which chooses.
use Prim.Native.Nat.{bit_or}
use co_context.Prelude.{
  ℕ, ◌+◌, ◌%◌, ◌^◌, ◌≤◌, ◌≡◌, ◌≢◌, refl, sym, ap, ◌∙◌, List, [], ◌∷◌, ◌++◌, Bool, not, ◌||◌, ◌==◌,
  ltb, some, if◌then◌else◌, arith, length, All, append-nil, append_assoc,
}
use co_context.Prelude.Result.{Result, ok, ◌>>=◌}
use co_context.Worker.State.{Handle, TaskInfo, msg_ring, Uring, Worker, decrement}
use co_context.Worker.Ready.{forward_task}
use co_context.Worker.Ready.Fifo.{ready, IsReady}
use co_context.Worker.Completion.{msg_ring_data, get_free_sqe, handle_co_spawn_events}
use co_context.Worker.Completion.Dispatch.{wakes, woken_by, selector_raw_of}
use co_context.Worker.Completion.Events.{handle_co_spawn_events_lem}

-- `reserved_user_data::nop` where the event file descriptor is not used.
abbrev pub nop : ℕ
nop = 0

unfoldable pub check_init : (actual_sqring_size expect_sqring_size : ℕ) → Bool
check_init actual_sqring_size expect_sqring_size = not (ltb actual_sqring_size expect_sqring_size)

module _ {R : Type 0} (io : Uring R) (is_using_eventfd : Bool) (event_fd k : ℕ) where
  unfoldable pub co_spawn_unsafe : Handle → Worker R → Result (Worker R)
  co_spawn_unsafe handle w = forward_task k handle w

  -- The write to the event file descriptor makes its read complete, sooner or later.
  unfoldable pub co_spawn_safe_eventfd : Handle → Worker R → Worker R
  co_spawn_safe_eventfd handle w = record w { co_spawn_queue = w.co_spawn_queue ++ handle ∷ [] }

  -- The message to the worker of `ring_fd` is a request of the worker `from`, whose completion the
  -- kernel leaves out from version 5.17 on.
  unfoldable pub co_spawn_safe_msg_ring :
      (is_kernel_5_17 : Bool) (ring_fd : ℕ) → Handle → Worker R → Result (Worker R)
  co_spawn_safe_msg_ring is_kernel_5_17 ring_fd handle from = do
    (sqe, w) ← get_free_sqe io is_using_eventfd event_fd k from
    let user_data = bit_or handle msg_ring_data
    let sent = record w {
      ring = io.prepare sqe (msg_ring ring_fd user_data nop is_kernel_5_17) w.ring;
    }
    ok (
        if is_kernel_5_17
        then record sent { requests_to_reap = decrement sent.requests_to_reap }
        else sent)

  -- With the event file descriptor, for the worker `w`.
  unfoldable pub co_spawn_auto :
      (is_this_worker : Bool) (ready_count : ℕ) → Handle → Worker R → Result (Worker R)
  co_spawn_auto is_this_worker ready_count handle w =
      if is_this_worker || ready_count == 0
      then co_spawn_unsafe handle w
      else ok (co_spawn_safe_eventfd handle w)

  unfoldable pub spawn_all : List Handle → Worker R → Worker R
  spawn_all [] w = w
  spawn_all (h ∷ hs) w = spawn_all hs (co_spawn_safe_eventfd h w)

  spawn_all_lem :
      (hs : List Handle) (w : Worker R)
      → spawn_all hs w ≡ record w { co_spawn_queue = w.co_spawn_queue ++ hs }
  unfolding spawn_all co_spawn_safe_eventfd
  spawn_all_lem [] w = ap (λ q. record w { co_spawn_queue = q }) (sym (append-nil w.co_spawn_queue))
  spawn_all_lem (h ∷ hs) w =
      spawn_all_lem hs (record w { co_spawn_queue = w.co_spawn_queue ++ h ∷ [] })
      ∙ ap (λ q. record w { co_spawn_queue = q }) (append_assoc w.co_spawn_queue (h ∷ []) hs)

  -- Coroutines that other threads spawn at a worker whose queues are empty become ready in the
  -- order in which they were spawned, behind those that are ready, when the worker handles the
  -- event, has room for them and gets a submission entry to listen again.
  pub spawned_elsewhere :
      (hs : List Handle) (w : Worker R) (sqe : ℕ) (r : R)
      → IsReady k w
      → w.co_spawn_queue ≡ []
      → w.co_spawn_local_queue ≡ []
      → All (λ h. h ≢ 0) hs
      → length (ready k w) + length hs ≤ 2 ^ k
      → io.get_sq_entry w.ring ≡ some (sqe, r)
      → (w' : Worker R) × (handle_co_spawn_events io is_using_eventfd event_fd k (spawn_all hs w)
          ≡ ok w')
        × (ready k w' ≡ ready k w ++ hs)
        × (w'.co_spawn_queue ≡ [])
  spawned_elsewhere hs w sqe r v quiet idle full room free =
      let (w', run, q, valid, empty, local, ring, submit) =
        handle_co_spawn_events_lem io is_using_eventfd event_fd k queued sqe r
          (record { cursor = v.cursor; storage = v.storage; full_handles = v.full_handles }) idle
          full room free in
      (w', rw (spawn_all_lem hs w, quiet) run, q, empty)
    where
      queued : Worker R
      queued = record w { co_spawn_queue = hs }

-- The user_data of a message makes the worker that gets it ready the coroutine that was sent, whose
-- frame is aligned.
pub message_wakes :
    (infos : ℕ → TaskInfo) (handle res : ℕ)
    → handle % 8 ≡ 0
    → woken_by infos (record { user_data = bit_or handle msg_ring_data; res = res }) ≡ handle ∷ []
unfolding wakes
message_wakes infos handle res aligned =
    let (tag, address) = selector_raw_of handle msg_ring_data aligned (omega arith) in
    rw (tag, address) refl
