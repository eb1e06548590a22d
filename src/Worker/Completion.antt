-- ===== src/Worker/Completion.antt =====
-- Submission entries and completions: `get_free_sqe`, `listen_on_co_spawn`, `poll_completion`,
-- `handle_cq_entry`, `handle_reserved_user_data` and `handle_co_spawn_events`. The section's
-- parameters are the io_uring library, the macro CO_CONTEXT_IS_USING_EVENTFD, the file descriptor
-- of the event, and the capacity 2 ^ k of the ready queue. Log lines are left out.
pub mod Dispatch
pub mod Poll
pub mod Events
use Prim.Native.Nat.{bit_and}
use co_context.Prelude.{
  ℕ, zero, suc, ◌+◌, ◌-◌, ◌^◌, Bool, true, false, List, [], ◌∷◌, Option, none, some, ◌==◌, ltb,
  if◌then◌else◌, length,
}
use co_context.Prelude.Result.{Result, ok, fault, assertion_failed, terminated, ◌>>=◌, ◌>>◌, assert}
use co_context.Cursor.{available_number}
use co_context.Worker.State.{
  Handle, TaskInfo, CqEntry, Request, read_event, Uring, Worker, increment, decrement,
}
use co_context.Worker.Ready.{cur_bits, forward_task}

-- `enum class user_data_type`
abbrev pub task_info_ptr : ℕ
task_info_ptr = 0

abbrev pub coroutine_handle : ℕ
coroutine_handle = 1

abbrev pub task_info_ptr__link_sqe : ℕ
task_info_ptr__link_sqe = 2

abbrev pub msg_ring_data : ℕ
msg_ring_data = 3

abbrev pub user_data_none : ℕ
user_data_none = 4

-- `enum class reserved_user_data`: `co_spawn_event` exists only with the event file descriptor.
abbrev pub reserved_none : (is_using_eventfd : Bool) → ℕ
reserved_none true = 2
reserved_none false = 1

abbrev pub co_spawn_event : ℕ
co_spawn_event = 0

-- `user_data & 0b111`
unfoldable pub selector_of : ℕ → ℕ
selector_of user_data = bit_and user_data 7

-- `user_data & raw_task_info_mask`, where the mask is ~7
unfoldable pub raw_of : ℕ → ℕ
raw_of user_data = user_data - bit_and user_data 7

-- `io_info->result = result`
unfoldable pub store_result : ℕ → ℕ → (ℕ → TaskInfo) → ℕ → TaskInfo
store_result p result infos q = if q == p then record (infos p) { result = result } else infos q

-- `std::queue::empty`
abbrev is_nil : List Handle → Bool
is_nil [] = true
is_nil (h ∷ hs) = false

module _ {R : Type 0} (io : Uring R) (is_using_eventfd : Bool) (event_fd k : ℕ) where
  unfoldable pub get_free_sqe : Worker R → Result (ℕ × Worker R)
  get_free_sqe w =
      let counted = record w {
        requests_to_reap = increment w.requests_to_reap;
        requests_to_submit = increment w.requests_to_submit;
      } in
      elim (io.get_sq_entry w.ring) [
        | none ↦ fault assertion_failed
        | some (sqe, ring) ↦ ok (sqe, record counted { ring = ring })
      ]

  unfoldable pub listen_on_co_spawn : Worker R → Result (Worker R)
  unfolding get_free_sqe
  listen_on_co_spawn w = do
    (sqe, w') ← get_free_sqe w
    ok (record w' { ring = io.prepare sqe (read_event event_fd co_spawn_event) w'.ring })

  -- `while (num--)`: `num` is the length of the local queue, the list.
  unfoldable pub forward_local : List Handle → Worker R → Result (Worker R)
  forward_local [] w = ok w
  forward_local (h ∷ hs) w = do
    w' ← forward_task k h w
    forward_local hs (record w' { co_spawn_local_queue = hs })

  unfoldable pub handle_co_spawn_events : Worker R → Result (Worker R)
  unfolding listen_on_co_spawn forward_local
  handle_co_spawn_events w = do
    assert (is_nil w.co_spawn_local_queue)
    let swapped = record w {
      co_spawn_local_queue = w.co_spawn_queue;
      co_spawn_queue = w.co_spawn_local_queue;
    }
    let overflow_level = available_number cur_bits k swapped.reap_cur
    let num = length swapped.co_spawn_local_queue
    if ltb overflow_level num
        then fault terminated
        else do w' ← forward_local swapped.co_spawn_local_queue swapped; listen_on_co_spawn w'

  unfoldable pub handle_reserved_user_data : ℕ → Worker R → Result (Worker R)
  handle_reserved_user_data user_data w =
      if is_using_eventfd
      then (if user_data == co_spawn_event then handle_co_spawn_events w else ok w)
      else ok w

  -- The switch of `handle_cq_entry`.
  unfoldable pub dispatch : (selector raw result : ℕ) → Worker R → Result (Worker R)
  dispatch selector raw result w =
      if selector == task_info_ptr
      then (let stored = record w { infos = store_result raw result w.infos } in
          forward_task k (stored.infos raw).handle stored)
      else if selector == coroutine_handle
      then forward_task k raw w
      else if selector == task_info_ptr__link_sqe
      then ok (record w { infos = store_result raw result w.infos })
      else if selector == msg_ring_data
      then (do
        w' ← forward_task k raw w
        ok (record w' { requests_to_reap = increment w'.requests_to_reap }))
      else fault assertion_failed

  unfoldable pub handle_cq_entry : CqEntry → Worker R → Result (Worker R)
  unfolding selector_of raw_of
  handle_cq_entry cqe w =
      let seen = record w {
        requests_to_reap = decrement w.requests_to_reap;
        ring = io.seen_cq_entry w.ring;
      } in
      if ltb cqe.user_data (reserved_none is_using_eventfd)
      then handle_reserved_user_data cqe.user_data seen
      else do
        assert (ltb (selector_of cqe.user_data) user_data_none)
        dispatch (selector_of cqe.user_data) (raw_of cqe.user_data) cqe.res seen

  -- `ring.for_each_cqe` hands over the completions that are ready, in order, and counts them.
  unfoldable pub poll_from : List CqEntry → ℕ → Worker R → Result (ℕ × Worker R)
  poll_from [] num w = ok (num, w)
  poll_from (cqe ∷ cqes) num w = do w' ← handle_cq_entry cqe w; poll_from cqes (num + 1) w'

  unfoldable pub poll_completion : Worker R → Result (ℕ × Worker R)
  unfolding poll_from
  poll_completion w = poll_from (io.ready w.ring) 0 w
