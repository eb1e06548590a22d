-- ===== src/Channel/Fifo.antt =====
-- The bounded channel is a queue of at most `capacity` items.
use native.Mathlib.Nat.{mod-add-mod, mod-lt, mod-eq_of_lt, mod-eq-sub-mod}
use co_context.Prelude.{
  ℕ, suc, ◌+◌, ◌-◌, ◌%◌, ◌≤◌, ◌<◌, ◌≡◌, refl, sym, ap, ◌∙◌, List, [], ◌∷◌, ◌++◌, true, false, arith,
  ◌⊎◌, inl, inr, Bool-cases, length, length-set, length-replicate, get_or, set, ◌==◌, if◌then◌else◌,
}
use co_context.Cursor.Window.{window, length-window, window-mod, window-set}
use co_context.Channel.{
  Channel, waits, done, empty, full, pop_one, push_one, drop, acquire, release, new_channel,
}

module _ {ℓ} {T : Type ℓ} (capacity : ℕ) (d : T) where
  -- The channel holds these items, the oldest first.
  pub record Holds (c : Channel T) (q : List T) : Type ℓ where
    pub first_in : c.m_first < capacity
    pub last_at : c.m_last ≡ (c.m_first + c.m_size) % capacity
    pub bounded : c.m_size ≤ capacity
    pub storage : capacity ≤ length c.m_buf
    pub contents : window capacity d c.m_buf c.m_first c.m_size ≡ q

  size-length : {c : Channel T} {q : List T} → Holds c q → c.m_size ≡ length q
  size-length {c} h =
      sym (length-window capacity d c.m_buf c.m_first c.m_size) ∙ ap length h.contents

  -- A step round the buffer.
  round_mod : (i : ℕ) → i < capacity → (if i + 1 == capacity then 0 else i + 1) ≡ (i + 1) % capacity
  round_mod i h = ground (
    arith,
    mod-eq_of_lt {n = i + 1} {m = capacity},
    mod-eq-sub-mod {n = i + 1} {m = capacity},
    mod-eq_of_lt {n = 0} {m = capacity},
  )

  next_last :
      {c : Channel T} {q : List T}
      → Holds c q
      → (if c.m_last + 1 == capacity then 0 else c.m_last + 1)
        ≡ (c.m_first + (c.m_size + 1)) % capacity
  next_last {c} h =
      round_mod c.m_last (
        omega (
          arith,
          h.last_at,
          mod-lt (c.m_first + c.m_size) {m = capacity} (omega (arith, h.first_in)),
        ))
      ∙ ap (λ i. (i + 1) % capacity) h.last_at
      ∙ mod-add-mod (c.m_first + c.m_size) capacity 1
      ∙ ap (λ i. i % capacity) (omega arith)

  -- Items are released into a channel that has room behind those it holds, and one that is full
  -- makes the sender wait.
  pub release-Holds :
      (x : T) (c : Channel T) (q : List T)
      → Holds c q
      → ((length q < capacity)
          × (c' : Channel T) × (release capacity d x c ≡ done c')
          × Holds c' (q ++ x ∷ []))
        ⊎ ((length q ≡ capacity) × (release capacity d x c ≡ waits))
  unfolding release push_one full
  release-Holds x c q h = elim (Bool-cases (c.m_size == capacity)) [
    | inl filled ↦ inr (ground (arith, size-length h), rw (filled, if◌then◌else◌) refl)
    | inr other ↦
        let room : c.m_size < capacity = ground (arith, h.bounded) in
        inl (
          omega (arith, size-length h),
          record {
            m_buf = set c.m_buf c.m_last x;
            m_first = c.m_first;
            m_last = if c.m_last + 1 == capacity then 0 else c.m_last + 1;
            m_size = c.m_size + 1;
          },
          rw (other, if◌then◌else◌) refl,
          record {
            first_in = h.first_in;
            last_at = next_last h;
            bounded = omega arith;
            storage = omega (arith, h.storage, length-set c.m_buf c.m_last x);
            contents =
                ap (window capacity d (set c.m_buf c.m_last x) c.m_first) {y = suc c.m_size}
                  (omega arith)
                ∙ window-set capacity d c.m_buf x c.m_size c.m_first c.m_last h.storage room
                    h.last_at
                ∙ ap (λ l. l ++ x ∷ []) h.contents;
          },
        )
  ]

  -- The oldest item is acquired from a channel that holds one, and the others stay; an empty one
  -- makes the receiver wait.
  pub acquire-Holds :
      (c : Channel T) (q : List T)
      → Holds c q
      → ((x : T) × (rest : List T) × (q ≡ x ∷ rest)
          × (c' : Channel T) × (acquire capacity d c ≡ done (x, c'))
          × (drop capacity d c ≡ done c')
          × Holds c' rest)
        ⊎ ((q ≡ []) × (acquire capacity d c ≡ waits) × (drop capacity d c ≡ waits))
  unfolding acquire drop empty pop_one
  acquire-Holds c [] h =
      let none_left : (c.m_size == 0) ≡ true = ground (arith, size-length h) in
      inr (refl, rw (none_left, if◌then◌else◌) refl, rw (none_left, if◌then◌else◌) refl)
  acquire-Holds c (x ∷ rest) h =
      let next = round_mod c.m_first h.first_in in
      let next_in : (if c.m_first + 1 == capacity then 0 else c.m_first + 1) < capacity =
        ground (arith, h.first_in) in
      let some_left : (c.m_size == 0) ≡ false = ground (arith, size-length h) in
      let size : c.m_size ≡ suc (c.m_size - 1) = omega (arith, size-length h) in
      let split : get_or c.m_buf (c.m_first % capacity) d
            ∷ window capacity d c.m_buf (c.m_first + 1) (c.m_size - 1)
          ≡ x ∷ rest =
        ap (window capacity d c.m_buf c.m_first) (sym size) ∙ h.contents in
      let here : c.m_first % capacity ≡ c.m_first = mod-eq_of_lt h.first_in in
      let oldest : get_or c.m_buf (c.m_first % capacity) d ≡ x = cc split in
      let others : window capacity d c.m_buf (c.m_first + 1) (c.m_size - 1) ≡ rest = cc split in
      let c' = pop_one capacity d c in
      inl (
        x,
        rest,
        refl,
        c',
        rw (some_left, if◌then◌else◌, ← oldest, here) refl,
        rw (some_left, if◌then◌else◌) refl,
        record {
          first_in = next_in;
          last_at =
              h.last_at
              ∙ ap (λ i. i % capacity) (omega arith)
              ∙ sym (mod-add-mod (c.m_first + 1) capacity (c.m_size - 1))
              ∙ ap (λ i. (i + (c.m_size - 1)) % capacity) (sym next);
          bounded = omega (arith, h.bounded);
          storage = h.storage;
          contents =
              window-mod capacity d c.m_buf (if c.m_first + 1 == capacity then 0 else c.m_first + 1)
                (c.m_first + 1) (c.m_size - 1) (mod-eq_of_lt next_in ∙ next)
              ∙ others;
        },
      )

  -- A new channel of some capacity is empty.
  pub new_channel-Holds : 0 < capacity → Holds (new_channel capacity d) []
  new_channel-Holds h = record {
    first_in = h;
    last_at = sym (mod-eq_of_lt {n = 0 + 0} {m = capacity} (omega arith));
    bounded = omega arith;
    storage = omega (arith, length-replicate capacity d);
    contents = refl;
  }
