-- ===== src/Cursor/Tests.antt =====
-- A ring of four entries under one-byte counters, one of which has wrapped round.
use co_context.Prelude.{ℕ, ◌≡◌, refl, List, [], ◌∷◌, arith}
use co_context.Cursor.{Cursor, size}
use co_context.Cursor.Counts.{IsValid}
use co_context.Cursor.Fifo.{contents}

abbrev wrapped : Cursor
wrapped = record { m_head = 254; m_tail = 1 }

abbrev entries : List ℕ
entries = 12 ∷ 13 ∷ 10 ∷ 11 ∷ []

size-wrapped : size 8 wrapped ≡ 3
unfolding size
size-wrapped = refl

oldest_first : contents 8 2 0 entries wrapped ≡ 10 ∷ 11 ∷ 12 ∷ []
unfolding size
oldest_first = refl

wrapped-IsValid : IsValid 8 2 wrapped
wrapped-IsValid = record {
  fits = omega arith;
  head_in = omega arith;
  tail_in = omega arith;
  size_in = omega (arith, size-wrapped);
}
