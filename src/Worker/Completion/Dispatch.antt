-- ===== src/Worker/Completion/Dispatch.antt =====
-- What one completion does to the worker.
use Prim.Native.Nat.{bit_or}
use co_context.Prelude.{
  ℕ, zero, suc, ◌+◌, ◌%◌, ◌^◌, ◌≤◌, ◌<◌, ◌≡◌, ◌≢◌, refl, sym, ap, ◌∙◌, List, [], ◌∷◌, ◌++◌, Bool,
  false, ◌==◌, if◌then◌else◌, ltb, lt→ltb, arith, append-nil, length, All, bit_and-mask, bit_or-tag,
}
use co_context.Prelude.Result.{ok}
use co_context.Worker.State.{Handle, TaskInfo, CqEntry, Uring, Worker, increment, decrement}
use co_context.Worker.Ready.Fifo.{
  ready, IsReady, forwarded, forward_task-ok, forwarded-ready, forwarded-IsReady,
}
use co_context.Worker.Completion.{
  task_info_ptr, task_info_ptr__link_sqe, msg_ring_data, reserved_none, selector_of, raw_of,
  store_result, dispatch, handle_cq_entry,
}

-- A user_data made of an address that is a multiple of 8 and a tag below 8 gives both back.
pub selector_raw_of :
    (p t : ℕ) → p % 8 ≡ 0 → t < 8 → (selector_of (bit_or p t) ≡ t) × (raw_of (bit_or p t) ≡ p)
unfolding selector_of raw_of
selector_raw_of p t h s = omega (arith, bit_or-tag p t h s, bit_and-mask 3 (bit_or p t))

-- The coroutines that a completion with this tag and address makes ready.
unfoldable pub wakes : (ℕ → TaskInfo) → (selector raw : ℕ) → List Handle
wakes infos selector raw =
    if selector == task_info_ptr
    then (infos raw).handle ∷ []
    else if selector == task_info_ptr__link_sqe
    then []
    else raw ∷ []

pub store_result-handle :
    (p r : ℕ) (infos : ℕ → TaskInfo) (q : ℕ) → (store_result p r infos q).handle ≡ (infos q).handle
unfolding store_result
store_result-handle p r infos q = ground arith

-- The result in a task_info after a completion with this tag: the tags of a task_info store it.
unfoldable pub stored_result : (selector result old : ℕ) → ℕ
stored_result selector result old =
    if selector == task_info_ptr
    then result
    else if selector == task_info_ptr__link_sqe
    then result
    else old

module _ {R : Type 0} (k : ℕ) where
  -- `w'` is `w` with the handles at the end of its ready queue, and perhaps results stored.
  pub record Woken (w : Worker R) (hs : List Handle) (w' : Worker R) : Type 0 where
    pub queue : ready k w' ≡ ready k w ++ hs
    pub valid : IsReady k w'
    pub same_handles : (p : ℕ) → (w'.infos p).handle ≡ (w.infos p).handle
    pub same_ring : w'.ring ≡ w.ring

  abbrev OneMore : Handle → Worker R → Type 0
  OneMore h w = (h ≢ 0) × (length (ready k w) < 2 ^ k)

  forwarded-Woken :
      (h : Handle) (w : Worker R) → IsReady k w → OneMore h w → Woken w (h ∷ []) (forwarded k h w)
  forwarded-Woken h w v m = record {
    queue = forwarded-ready k h w v m.1;
    valid = forwarded-IsReady k h w m.0 v m.1;
    same_handles = λ p. refl;
    same_ring = refl;
  }

-- What the worker needs of a completion: it is no reserved one, its tag is known, and the
-- coroutines that it wakes exist.
pub record IsTask (is_using_eventfd : Bool) (infos : ℕ → TaskInfo) (c : CqEntry) : Type 0 where
  pub unreserved : ltb c.user_data (reserved_none is_using_eventfd) ≡ false
  pub known : selector_of c.user_data < 4
  pub full : All (λ h. h ≢ 0) (wakes infos (selector_of c.user_data) (raw_of c.user_data))

abbrev pub woken_by : (ℕ → TaskInfo) → CqEntry → List Handle
woken_by infos c = wakes infos (selector_of c.user_data) (raw_of c.user_data)

module _ {R : Type 0} (io : Uring R) (is_using_eventfd : Bool) (event_fd k : ℕ) where
  abbrev Dispatches : (selector raw result : ℕ) → Worker R → Type 0
  Dispatches s raw result w =
      (w' : Worker R) × (dispatch io is_using_eventfd event_fd k s raw result w ≡ ok w')
      × Woken k w (wakes w.infos s raw) w'
      × (w'.requests_to_reap
          ≡ (if s == msg_ring_data then increment w.requests_to_reap else w.requests_to_reap))
      × ((w'.infos raw).result ≡ stored_result s result (w.infos raw).result)

  dispatch_lem :
      (s raw result : ℕ) (w : Worker R)
      → s < 4
      → IsReady k w
      → All (λ h. h ≢ 0) (wakes w.infos s raw)
      → length (ready k w) + length (wakes w.infos s raw) ≤ 2 ^ k
      → Dispatches s raw result w
  unfolding dispatch wakes store_result stored_result
  dispatch_lem zero raw result w lt v full room = (
    forwarded k h stored,
    forward_task-ok k h stored ne,
    record {
      queue = forwarded-ready k h stored v' (omega arith) ∙ ap (λ t. ready k w ++ t ∷ []) same;
      valid = forwarded-IsReady k h stored ne v' (omega arith);
      same_handles = store_result-handle raw result w.infos;
      same_ring = refl;
    },
    refl,
    ground arith,
  )
    where
      stored : Worker R
      stored = record w { infos = store_result raw result w.infos }

      h : Handle
      h = (stored.infos raw).handle

      same : h ≡ (w.infos raw).handle
      same = store_result-handle raw result w.infos raw

      ne : h ≢ 0
      ne = rw same (full.0)

      v' : IsReady k stored
      v' = record { cursor = v.cursor; storage = v.storage; full_handles = v.full_handles }
  dispatch_lem (suc zero) raw result w lt v full room = (
    forwarded k raw w,
    forward_task-ok k raw w full.0,
    forwarded-Woken k raw w v (full.0, omega arith),
    refl,
    ground arith,
  )
  dispatch_lem (suc (suc zero)) raw result w lt v full room = (
    record w { infos = store_result raw result w.infos },
    refl,
    record {
      queue = sym (append-nil (ready k w));
      valid = record { cursor = v.cursor; storage = v.storage; full_handles = v.full_handles };
      same_handles = store_result-handle raw result w.infos;
      same_ring = refl;
    },
    refl,
    ground arith,
  )
  dispatch_lem (suc (suc (suc zero))) raw result w lt v full room =
      let f = forwarded-Woken k raw w v (full.0, omega arith) in
      (
        record (forwarded k raw w) { requests_to_reap = increment w.requests_to_reap },
        rw (forward_task-ok k raw w full.0),
        record {
          queue = f.queue;
          valid = record {
            cursor = f.valid.cursor;
            storage = f.valid.storage;
            full_handles = f.valid.full_handles;
          };
          same_handles = λ p. refl;
          same_ring = refl;
        },
        refl,
        ground arith,
      )
  dispatch_lem (suc (suc (suc (suc s)))) raw result w lt v full room = absurd (omega arith)

  abbrev pub Handles : CqEntry → Worker R → Type 0
  Handles c w =
      (w' : Worker R) × (handle_cq_entry io is_using_eventfd event_fd k c w ≡ ok w')
      × (ready k w' ≡ ready k w ++ woken_by w.infos c)
      × IsReady k w'
      × ((p : ℕ) → (w'.infos p).handle ≡ (w.infos p).handle)
      × (w'.ring ≡ io.seen_cq_entry w.ring)
      × (w'.requests_to_reap ≡ (
          if selector_of c.user_data == msg_ring_data
          then increment (decrement w.requests_to_reap)
          else decrement w.requests_to_reap))
      × ((w'.infos (raw_of c.user_data)).result
          ≡ stored_result (selector_of c.user_data) c.res (w.infos (raw_of c.user_data)).result)

  -- When the ready queue has room for the coroutine that a task's completion wakes, the completion
  -- is retired, its result is stored if its tag is one of a task_info, the coroutine goes to the
  -- end of the ready queue, and one request fewer is to be reaped, unless the completion is a
  -- message of another worker.
  pub handle_cq_entry_lem :
      (c : CqEntry) (w : Worker R)
      → IsReady k w
      → IsTask is_using_eventfd w.infos c
      → length (ready k w) + length (woken_by w.infos c) ≤ 2 ^ k
      → Handles c w
  unfolding handle_cq_entry
  handle_cq_entry_lem c w v t room =
      let (w', run, f, reap, res) =
        dispatch_lem (selector_of c.user_data) (raw_of c.user_data) c.res seen t.known v' t.full
          room in
      (
        w',
        rw (t.unreserved, lt→ltb (selector_of c.user_data) 4 t.known) run,
        f.queue,
        f.valid,
        f.same_handles,
        f.same_ring,
        reap,
        res,
      )
    where
      seen : Worker R
      seen = record w {
        requests_to_reap = decrement w.requests_to_reap;
        ring = io.seen_cq_entry w.ring;
      }

      v' : IsReady k seen
      v' = record { cursor = v.cursor; storage = v.storage; full_handles = v.full_handles }
