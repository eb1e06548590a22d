-- ===== src/LazyIo.antt =====
-- include/co_context/detail/lazy_io_awaiter.hpp: the awaiters of input and output as far as the
-- worker sees them, that is the tags and flags of their submission entries, and the links between
-- them. What an entry asks of the kernel is not modelled.
pub mod Chain
pub mod Timeout
pub mod Detach
mod Tests
use Prim.Native.Nat.{bit_or}
use co_context.Prelude.{ℕ, List, [], ◌∷◌, ◌++◌, Bool, true, false, ◌==◌, if◌then◌else◌}
use co_context.Worker.State.{Handle, TaskInfo, decrement}
use co_context.Worker.Completion.{task_info_ptr, task_info_ptr__link_sqe}

-- The fields of a `liburingcxx::sq_entry` that are set here.
pub record SqEntry : Type 0 where
  pub user_data : ℕ
  pub is_link : Bool
  pub is_cqe_skip : Bool

-- The submission entries and the task_infos, by their addresses, and a counter of the worker.
pub record Submission : Type 0 where
  pub entries : ℕ → SqEntry
  pub infos : ℕ → TaskInfo
  pub requests_to_reap : ℕ

-- `io_info` is the address of the member.
pub record LazyAwaiter : Type 0 where
  pub sqe : ℕ
  pub io_info : ℕ

abbrev pub at_entry : ℕ → (SqEntry → SqEntry) → Submission → Submission
at_entry p f s = record s { entries = λ q. if q == p then f (s.entries p) else s.entries q }

-- The part of `lazy_awaiter()` after `get_free_sqe`.
unfoldable pub lazy_awaiter : LazyAwaiter → Submission → Submission
lazy_awaiter a = at_entry a.sqe (λ e. record e { user_data = bit_or a.io_info task_info_ptr })

abbrev pub set_handle : ℕ → Handle → (ℕ → TaskInfo) → ℕ → TaskInfo
set_handle p h infos q = if q == p then record (infos p) { handle = h } else infos q

unfoldable pub await_suspend : LazyAwaiter → Handle → Submission → Submission
await_suspend a current s = record s { infos = set_handle a.io_info current s.infos }

-- `reserved_user_data::nop`
abbrev pub nop : (is_using_eventfd : Bool) → ℕ
nop true = 1
nop false = 0

unfoldable pub detach :
    (is_kernel_5_17 is_using_eventfd : Bool) → LazyAwaiter → Submission → Submission
detach true is_using_eventfd a s =
    let skipped = at_entry a.sqe (λ e. record e { is_cqe_skip = true }) s in
    record skipped { requests_to_reap = decrement s.requests_to_reap }
detach false is_using_eventfd a s =
    at_entry a.sqe (λ e. record e { user_data = nop is_using_eventfd }) s

abbrev pub linked_entry : SqEntry → SqEntry
linked_entry e = record e { is_link = true; user_data = bit_or e.user_data task_info_ptr__link_sqe }

unfoldable pub set_link_sqe : ℕ → Submission → Submission
set_link_sqe sqe = at_entry sqe linked_entry

unfoldable pub set_link_awaiter : LazyAwaiter → Submission → Submission
set_link_awaiter a = set_link_sqe a.sqe

-- A `lazy_link_io`, which is its `last_io`.
unfoldable pub set_link_link_io : (last_io : LazyAwaiter) → Submission → Submission
set_link_link_io last_io = set_link_awaiter last_io

-- The expressions that the four operators && make, and `lazy_link_timeout`, which is also a link.
pub data LinkIo : Type 0 where
  awaiters : (lhs rhs : LazyAwaiter) → LinkIo
  link_io_awaiter : (lhs : LinkIo) (rhs : LazyAwaiter) → LinkIo
  link_ios : (lhs rhs : LinkIo) → LinkIo
  link_timeout : (timed_io timer : LazyAwaiter) → LinkIo
  awaiter_timeout : (lhs timed_io timer : LazyAwaiter) → LinkIo

-- `lazy_link_timeout_base` after `lazy_timeout_base`, and `arrange_io`.
unfoldable pub lazy_link_timeout :
    (is_kernel_5_17 : Bool) → (timed_io timer : LazyAwaiter) → Submission → Submission
lazy_link_timeout is_kernel_5_17 timed_io timer s =
    let skip = at_entry timer.sqe (λ e. record e { is_cqe_skip = true }) s in
    let ignored =
      at_entry timer.sqe
        (λ e. record e { user_data = bit_or timer.io_info task_info_ptr__link_sqe }) s in
    let prepared =
      if is_kernel_5_17
      then record skip { requests_to_reap = decrement skip.requests_to_reap }
      else ignored in
    at_entry timed_io.sqe (λ e. record e { is_link = true }) prepared

abbrev pub last_io : LinkIo → LazyAwaiter
last_io (awaiters lhs rhs) = rhs
last_io (link_io_awaiter lhs rhs) = rhs
last_io (link_ios lhs rhs) = last_io rhs
last_io (link_timeout timed_io timer) = timed_io
last_io (awaiter_timeout lhs timed_io timer) = timed_io

module _ (is_kernel_5_17 : Bool) where
  -- What the operators do, the operands first.
  unfoldable pub link : LinkIo → Submission → Submission
  link (awaiters lhs rhs) s = set_link_awaiter lhs s
  link (link_io_awaiter lhs rhs) s = set_link_link_io (last_io lhs) (link lhs s)
  link (link_ios lhs rhs) s = set_link_link_io (last_io lhs) (link rhs (link lhs s))
  link (link_timeout timed_io timer) s = lazy_link_timeout is_kernel_5_17 timed_io timer s
  link (awaiter_timeout lhs timed_io timer) s =
      set_link_awaiter lhs (lazy_link_timeout is_kernel_5_17 timed_io timer s)

  -- `co_await` of a link, up to the suspension.
  unfoldable pub suspend_link : LinkIo → Handle → Submission → Submission
  suspend_link l current s = await_suspend (last_io l) current (link l s)
