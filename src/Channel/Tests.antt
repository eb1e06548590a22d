-- ===== src/Channel/Tests.antt =====
-- A channel of two items that has gone round its buffer.
use co_context.Prelude.{ℕ, ◌<◌, ◌≡◌, ◌⊎◌, refl, List, [], ◌∷◌, ◌++◌, arith, length}
use co_context.Channel.{Channel, waits, done, drop, acquire, release}
use co_context.Channel.Fifo.{Holds, release-Holds, acquire-Holds}

abbrev round : Channel ℕ
round = record { m_buf = 7 ∷ 8 ∷ 9 ∷ []; m_first = 2; m_last = 1; m_size = 2 }

abbrev items : List ℕ
items = 9 ∷ 7 ∷ []

round-Holds : Holds 3 0 round items
round-Holds = record {
  first_in = omega arith;
  last_at = refl;
  bounded = omega arith;
  storage = omega arith;
  contents = refl;
}

release-Holds_example :
    ((length items < 3)
      × (c' : Channel ℕ) × (release 3 0 5 round ≡ done c')
      × Holds 3 0 c' (items ++ 5 ∷ []))
    ⊎ ((length items ≡ 3) × (release 3 0 5 round ≡ waits))
release-Holds_example = release-Holds 3 0 5 round items round-Holds

acquire-Holds_example :
    ((x : ℕ) × (rest : List ℕ) × (items ≡ x ∷ rest)
      × (c' : Channel ℕ) × (acquire 3 0 round ≡ done (x, c'))
      × (drop 3 0 round ≡ done c')
      × Holds 3 0 c' rest)
    ⊎ ((items ≡ []) × (acquire 3 0 round ≡ waits) × (drop 3 0 round ≡ waits))
acquire-Holds_example = acquire-Holds 3 0 round items round-Holds
