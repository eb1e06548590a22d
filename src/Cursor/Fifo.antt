-- ===== src/Cursor/Fifo.antt =====
-- A cursor with the array that it indexes is a first-in first-out queue: the write at `tail()`
-- followed by `push()`, and the read at `head()` followed by `pop()`.
use co_context.Prelude.{
  ℕ, suc, ◌+◌, ◌%◌, ◌^◌, ◌≤◌, ◌<◌, ◌≡◌, sym, ap, ◌∙◌, List, ◌∷◌, ◌++◌, [], arith, length, get_or,
  set, pow-pos, add-wrap, mod_wrap,
}
use co_context.Cursor.{Cursor, head, tail, size, push, pop}
use co_context.Cursor.Counts.{
  IsValid, tail-eq-add, push-IsValid, pop-IsValid, head-eq-mod, tail-eq-mod,
}
use co_context.Cursor.Window.{window, length-window, window-mod, window-set}

module _ {ℓ} {A : Type ℓ} (w k : ℕ) (d : A) where
  -- Oldest first.
  abbrev pub contents : List A → Cursor → List A
  contents buf c = window (2 ^ k) d buf c.m_head (size w c)

  pub length-contents : (buf : List A) (c : Cursor) → length (contents buf c) ≡ size w c
  length-contents buf c = length-window (2 ^ k) d buf c.m_head (size w c)

  pub tail_index : (c : Cursor) → IsValid w k c → tail k c ≡ (c.m_head + size w c) % 2 ^ k
  tail_index c v =
      tail-eq-mod k c
      ∙ mod_wrap w k c.m_tail (c.m_head + size w c) (omega (arith, v.fits))
          (tail-eq-add w c v.head_in v.tail_in).0

  -- With a valid cursor that has room and an array of the capacity, a write at the tail and a push
  -- of one append the entry to the contents.
  pub contents-push :
      (buf : List A) (c : Cursor) (x : A)
      → IsValid w k c
      → 2 ^ k ≤ length buf
      → size w c < 2 ^ k
      → contents (set buf (tail k c) x) (push w c 1) ≡ contents buf c ++ x ∷ []
  unfolding push
  contents-push buf c x v room h =
      ap (window (2 ^ k) d (set buf (tail k c) x) c.m_head) grown
      ∙ window-set (2 ^ k) d buf x (size w c) c.m_head (tail k c) room h (tail_index c v)
    where
      grown : size w (push w c 1) ≡ suc (size w c)
      grown = omega (arith, (push-IsValid v 1 (omega arith)).1)

  -- With a valid cursor of a ring that is not empty, the entry at the head is the oldest, and a
  -- pop of one leaves the others.
  pub contents-pop :
      (buf : List A) (c : Cursor)
      → IsValid w k c
      → 0 < size w c
      → contents buf c ≡ get_or buf (head k c) d ∷ contents buf (pop w c 1)
  unfolding pop
  contents-pop buf c v h =
      ap (window (2 ^ k) d buf c.m_head) shrunk
      ∙ ap (λ i. get_or buf i d ∷ window (2 ^ k) d buf (c.m_head + 1) (size w (pop w c 1)))
          (sym (head-eq-mod k c))
      ∙ ap (λ l. get_or buf (head k c) d ∷ l)
          (window-mod (2 ^ k) d buf (c.m_head + 1) ((c.m_head + 1) % 2 ^ w) (size w (pop w c 1))
            next)
    where
      shrunk : size w c ≡ suc (size w (pop w c 1))
      shrunk = omega (arith, (pop-IsValid v 1 h).1)

      next : (c.m_head + 1) % 2 ^ k ≡ (c.m_head + 1) % 2 ^ w % 2 ^ k
      next = sym (
          mod_wrap w k ((c.m_head + 1) % 2 ^ w) (c.m_head + 1) (omega (arith, v.fits))
            (omega (arith, add-wrap (2 ^ w) c.m_head 1 v.head_in (pow-pos w))))
