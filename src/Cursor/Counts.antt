-- ===== src/Cursor/Counts.antt =====
-- What the counters of spsc_cursor.hpp count, also after they have wrapped round.
use native.Mathlib.Nat.{mod-lt}
use co_context.Prelude.{
  ℕ, ◌+◌, ◌-◌, ◌%◌, ◌^◌, ◌≤◌, ◌<◌, ◌≡◌, ◌↔◌, ◌⊎◌, true, arith, pow-pos, pow-lt-pow, add-wrap,
  bit_and-mask,
}
use co_context.Cursor.{
  Cursor, empty_cursor, capacity, head, tail, is_empty, size, available_number, is_available,
  wait_for_available, wait_for_not_empty, push, pop,
}

-- Both counters are words, T can hold the capacity, and at most that much is in the ring.
pub record IsValid (w k : ℕ) (c : Cursor) : Type 0 where
  pub fits : k < w
  pub head_in : c.m_head < 2 ^ w
  pub tail_in : c.m_tail < 2 ^ w
  pub size_in : size w c ≤ 2 ^ k

pub empty-IsValid : (w k : ℕ) → k < w → IsValid w k empty_cursor
unfolding size
empty-IsValid w k h = record {
  fits = h;
  head_in = pow-pos w;
  tail_in = pow-pos w;
  size_in = zero_size;
}
  where
    zero_size : (0 + (2 ^ w - 0)) % 2 ^ w ≤ 2 ^ k
    zero_size = omega (arith, add-wrap (2 ^ w) 0 (2 ^ w - 0) (pow-pos w) (omega arith))

-- The tail is `size` steps past the head, round the word.
pub tail-eq-add :
    (w : ℕ) (c : Cursor)
    → c.m_head < 2 ^ w
    → c.m_tail < 2 ^ w
    → ((c.m_tail ≡ c.m_head + size w c) ⊎ (c.m_tail + 2 ^ w ≡ c.m_head + size w c))
      × (size w c < 2 ^ w)
unfolding size
tail-eq-add w c h t = ground (
  arith,
  add-wrap (2 ^ w) c.m_tail (2 ^ w - c.m_head),
  mod-lt (c.m_tail + (2 ^ w - c.m_head)) (pow-pos w),
)

-- The counters determine the size.
size_unique :
    (w n : ℕ) (c : Cursor)
    → c.m_head < 2 ^ w
    → c.m_tail < 2 ^ w
    → n < 2 ^ w
    → (c.m_tail ≡ c.m_head + n) ⊎ (c.m_tail + 2 ^ w ≡ c.m_head + n)
    → size w c ≡ n
size_unique w n c h t small e = omega (arith, tail-eq-add w c h t)

module _ {w k : ℕ} {c : Cursor} (v : IsValid w k c) where
  -- A push within the capacity keeps a cursor valid and adds to its size.
  pub push-IsValid :
      (n : ℕ)
      → size w c + n ≤ 2 ^ k
      → IsValid w k (push w c n) × (size w (push w c n) ≡ size w c + n)
  unfolding push
  push-IsValid n h = ground (
    arith,
    v,
    pow-lt-pow k w v.fits,
    tail-eq-add w c v.head_in v.tail_in,
    add-wrap (2 ^ w) c.m_tail n v.tail_in,
    mod-lt (c.m_tail + n) (pow-pos w),
    size_unique w (size w c + n) (push w c n),
  )

  -- A pop of at most what is in the ring keeps a cursor valid and takes from its size.
  pub pop-IsValid :
      (n : ℕ) → n ≤ size w c → IsValid w k (pop w c n) × (size w (pop w c n) + n ≡ size w c)
  unfolding pop
  pop-IsValid n h = ground (
    arith,
    v,
    pow-lt-pow k w v.fits,
    tail-eq-add w c v.head_in v.tail_in,
    add-wrap (2 ^ w) c.m_head n v.head_in,
    mod-lt (c.m_head + n) (pow-pos w),
    size_unique w (size w c - n) (pop w c n),
  )

  -- The free entries of a valid cursor and those in the ring make up the capacity.
  pub available_number-add-size : available_number w k c + size w c ≡ capacity k
  unfolding available_number size
  available_number-add-size =
      ground (arith, v, add-wrap (2 ^ w) (2 ^ k) (2 ^ w - size w c) (pow-lt-pow k w v.fits))

  pub is_empty_iff : (is_empty c ≡ true) ↔ (size w c ≡ 0)
  unfolding is_empty
  is_empty_iff = ground (arith, tail-eq-add w c v.head_in v.tail_in)

  -- A valid cursor is available exactly when the ring holds less than the capacity.
  pub is_available_iff : (is_available w k c ≡ true) ↔ (size w c < 2 ^ k)
  unfolding is_available size
  is_available_iff =
      ground (arith, v, add-wrap (2 ^ w) (2 ^ k) (2 ^ w - size w c) (pow-lt-pow k w v.fits))

  -- The wait on a valid cursor is over exactly when the ring holds less than the capacity.
  pub wait_for_available_iff : (wait_for_available w k c ≡ true) ↔ (size w c < 2 ^ k)
  unfolding wait_for_available
  wait_for_available_iff = ground (
    arith,
    v,
    pow-lt-pow k w v.fits,
    pow-lt-pow k w v.fits,
    tail-eq-add w c v.head_in v.tail_in,
    add-wrap (2 ^ w) c.m_tail (2 ^ w - 2 ^ k) v.tail_in,
  )

  pub wait_for_not_empty_iff : (wait_for_not_empty c ≡ true) ↔ (0 < size w c)
  unfolding wait_for_not_empty
  wait_for_not_empty_iff = ground (arith, tail-eq-add w c v.head_in v.tail_in)

pub head-eq-mod : (k : ℕ) (c : Cursor) → head k c ≡ c.m_head % 2 ^ k
unfolding head
head-eq-mod k c = bit_and-mask k c.m_head

pub tail-eq-mod : (k : ℕ) (c : Cursor) → tail k c ≡ c.m_tail % 2 ^ k
unfolding tail
tail-eq-mod k c = bit_and-mask k c.m_tail
