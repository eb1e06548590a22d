-- ===== src/Cursor.antt =====
-- include/co_context/detail/spsc_cursor.hpp: the head and tail counters of a single-producer
-- single-consumer ring. T is an unsigned type of `w` bits, and `capacity` is 2 ^ k. An atomic load
-- reads the same field as the plain one, so the `load_` functions differ only in their ordering.
pub mod Counts
pub mod Window
pub mod Fifo
mod Tests
use Prim.Native.Nat.{bit_and}
use co_context.Prelude.{ℕ, ◌+◌, ◌-◌, ◌%◌, ◌^◌, Bool, not, ◌==◌, word_add, word_sub}

pub record Cursor : Type 0 where
  pub m_head : ℕ
  pub m_tail : ℕ

-- `T m_head = 0; T m_tail = 0;`
abbrev pub empty_cursor : Cursor
empty_cursor = record { m_head = 0; m_tail = 0 }

module _ (k : ℕ) where
  abbrev pub capacity : ℕ
  capacity = 2 ^ k

  abbrev pub mask : ℕ
  mask = capacity - 1

  unfoldable pub head : Cursor → ℕ
  head c = bit_and c.m_head mask

  unfoldable pub tail : Cursor → ℕ
  tail c = bit_and c.m_tail mask

unfoldable pub is_empty : Cursor → Bool
is_empty c = c.m_head == c.m_tail

-- Whether the wait is over: the tail is no longer the one that an empty ring would have.
unfoldable pub wait_for_not_empty : Cursor → Bool
wait_for_not_empty c = let tail_empty = c.m_head in not (tail_empty == c.m_tail)

module _ (w : ℕ) where
  unfoldable pub size : Cursor → ℕ
  size c = word_sub (2 ^ w) c.m_tail c.m_head

  unfoldable pub push : Cursor → ℕ → Cursor
  push c num = record c { m_tail = word_add (2 ^ w) c.m_tail num }

  unfoldable pub pop : Cursor → ℕ → Cursor
  pop c num = record c { m_head = word_add (2 ^ w) c.m_head num }

module _ (w k : ℕ) where
  unfoldable pub available_number : Cursor → ℕ
  available_number c = word_sub (2 ^ w) (capacity k) (word_sub (2 ^ w) c.m_tail c.m_head)

  -- The conversion to bool is a test against 0.
  unfoldable pub is_available : Cursor → Bool
  is_available c = not (word_sub (2 ^ w) (capacity k) (word_sub (2 ^ w) c.m_tail c.m_head) == 0)

  -- Whether the wait is over: the head is no longer the one that a full ring would have.
  unfoldable pub wait_for_available : Cursor → Bool
  wait_for_available c =
      let head_full = word_sub (2 ^ w) c.m_tail (capacity k) in not (head_full == c.m_head)
