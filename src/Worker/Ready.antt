-- ===== src/Worker/Ready.antt =====
-- The ready queue: `has_task_ready`, `number_to_schedule`, `forward_task` and `schedule`.
pub mod Fifo
pub mod Runs
use co_context.Prelude.{ℕ, ◌≡◌, Bool, not, List, ◌==◌, if◌then◌else◌, length, get_or, set, leb}
use co_context.Prelude.Result.{Result, ok, fault, assertion_failed, ◌>>=◌, ◌>>◌, assert}
use co_context.Cursor.{is_empty, size, head, tail, push, pop}
use co_context.Worker.State.{Handle, Worker}

-- `cur_t` is uint32_t.
abbrev pub cur_bits : ℕ
cur_bits = 32

module _ {R : Type 0} where
  unfoldable pub has_task_ready : Worker R → Bool
  has_task_ready w = not (is_empty w.reap_cur)

  unfoldable pub number_to_schedule : Worker R → ℕ
  number_to_schedule w = size cur_bits w.reap_cur

  module _ (k : ℕ) where
    -- The ring is not checked for room.
    unfoldable pub forward_task : Handle → Worker R → Result (Worker R)
    forward_task handle w = do
      assert (not (handle == 0))
      ok (record w {
        reap_swap = set w.reap_swap (tail k w.reap_cur) handle;
        reap_cur = push cur_bits w.reap_cur 1;
      })

    -- An index out of the array does not occur: `Fifo` has the bounds.
    unfoldable pub schedule : Worker R → Result (Handle × Worker R)
    schedule w = do
      assert (not (is_empty w.reap_cur))
      let chosen_coro = get_or w.reap_swap (head k w.reap_cur) 0
      let w' = record w { reap_cur = pop cur_bits w.reap_cur 1 }
      assert (not (chosen_coro == 0))
      ok (chosen_coro, w')
