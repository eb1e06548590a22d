-- ===== src/Channel.antt =====
-- include/co_context/co/channel.hpp: the bounded channel and the channel of one item, and below this
-- module the channel without a buffer. An operation of the first two runs under `m_mtx`, so it is
-- one step; where it has to wait on a condition variable first, the step is not taken and the
-- answer is `waits`. A position in the buffer is its distance from `buffer_start()`, and a cell that
-- nothing was constructed in holds `d`.
pub mod Fifo
pub mod One
pub mod Rendezvous
mod Tests
use co_context.Prelude.{
  ℕ, ◌+◌, ◌-◌, List, Bool, true, false, not, Option, none, some, ◌==◌, if◌then◌else◌, get_or, set,
  replicate,
}

-- What an operation does under the mutex.
pub data Outcome {ℓ} (A : Type ℓ) : Type ℓ where
  waits : Outcome A
  done : A → Outcome A

pub record Channel {ℓ} (T : Type ℓ) : Type ℓ where
  pub m_buf : List T
  pub m_first : ℕ
  pub m_last : ℕ
  pub m_size : ℕ

-- `channel<T, capacity>`
module _ {ℓ} {T : Type ℓ} (capacity : ℕ) (d : T) where
  abbrev pub new_channel : Channel T
  new_channel = record { m_buf = replicate capacity d; m_first = 0; m_last = 0; m_size = 0 }

  unfoldable pub size : Channel T → ℕ
  size c = c.m_size

  unfoldable pub empty : Channel T → Bool
  empty c = c.m_size == 0

  unfoldable pub has_value : Channel T → Bool
  has_value c = not (empty c)

  unfoldable pub full : Channel T → Bool
  full c = c.m_size == capacity

  unfoldable pub pop_one : Channel T → Channel T
  pop_one c =
      let m_first = c.m_first + 1 in
      record c { m_size = c.m_size - 1; m_first = if m_first == capacity then 0 else m_first }

  unfoldable pub push_one : Channel T → Channel T
  push_one c =
      let m_last = c.m_last + 1 in
      record c { m_size = c.m_size + 1; m_last = if m_last == capacity then 0 else m_last }

  unfoldable pub drop : Channel T → Outcome (Channel T)
  drop c = if empty c then waits else done (pop_one c)

  unfoldable pub acquire : Channel T → Outcome (T × Channel T)
  acquire c =
      if empty c then waits else (let item = get_or c.m_buf c.m_first d in done (item, pop_one c))

  unfoldable pub release : T → Channel T → Outcome (Channel T)
  release x c =
      if full c then waits else done (push_one (record c { m_buf = set c.m_buf c.m_last x }))
