-- ===== src/Worker/State.antt =====
-- The state of `worker_meta`, of a `task_info`, and what the worker asks of the io_uring library.
use co_context.Prelude.{ℕ, ◌^◌, ◌≡◌, List, ◌∷◌, Bool, Option, word_add, word_sub}
use co_context.Cursor.{Cursor}

-- The address of a coroutine frame; 0 is the empty handle.
abbrev pub Handle : Type 0
Handle = ℕ

-- `struct task_info`. A result is the bit pattern of an int32_t.
pub record TaskInfo : Type 0 where
  pub handle : Handle
  pub result : ℕ

-- The fields of a completion that the worker reads.
pub record CqEntry : Type 0 where
  pub user_data : ℕ
  pub res : ℕ

-- What the worker writes into a submission entry.
pub data Request : Type 0 where
  read_event : (fd user_data : ℕ) → Request
  msg_ring : (ring_fd msg_data user_data : ℕ) (cqe_skip : Bool) → Request

-- The io_uring library, which is not modelled: `get_sq_entry` hands out a submission entry,
-- or none if the queue is full, `prepare` fills it, `ready` lists the completions in order, and
-- `seen_cq_entry` retires the first of them.
pub record Uring (R : Type 0) : Type 0 where
  pub get_sq_entry : R → Option (ℕ × R)
  pub prepare : ℕ → Request → R → R
  pub ready : R → List CqEntry
  pub seen_cq_entry : R → R

-- What its documentation says: a retired completion is gone, and the others stay in order.
pub record UringLaws {R : Type 0} (io : Uring R) : Type 0 where
  pub ready-seen :
      (r : R) (c : CqEntry) (cs : List CqEntry)
      → io.ready r ≡ c ∷ cs
      → io.ready (io.seen_cq_entry r) ≡ cs

pub record Worker (R : Type 0) : Type 0 where
  pub ring : R
  pub reap_swap : List Handle
  pub reap_cur : Cursor
  pub co_spawn_queue : List Handle
  pub co_spawn_local_queue : List Handle
  pub requests_to_reap : ℕ  -- the bit pattern of an int32_t
  pub requests_to_submit : ℕ  -- uint32_t
  pub infos : ℕ → TaskInfo  -- the task_info at each address

abbrev pub increment : ℕ → ℕ
increment n = word_add (2 ^ 32) n 1

abbrev pub decrement : ℕ → ℕ
decrement n = word_sub (2 ^ 32) n 1
