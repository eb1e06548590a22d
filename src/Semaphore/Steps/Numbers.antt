-- ===== src/Semaphore/Steps/Numbers.antt =====
-- The counter of the semaphore as the difference of permits and acquisitions.
use co_context.Prelude.{ℕ, suc, ◌+◌, ◌^◌, ◌≤◌, ◌<◌, ◌≡◌, true, false, arith, word_add, word_sub}
use co_context.Semaphore.{is_negative, is_positive}

-- The counter stands for the permits without the acquisitions, a signed number.
abbrev pub Balanced : (counter permits acquired : ℕ) → Type 0
Balanced c p a = (c < 2 ^ 64) × (a ≤ p → c + a ≡ p) × (p < a → c + a ≡ p + 2 ^ 64)

pub Balanced-taken :
    (c p a : ℕ)
    → Balanced c p a
    → p < 2 ^ 63
    → suc a < 2 ^ 63
    → Balanced (word_sub (2 ^ 64) c 1) p (suc a)
Balanced-taken c p a b hp ha = ground arith

pub Balanced-added :
    (c p a u : ℕ)
    → Balanced c p a
    → p + u < 2 ^ 63
    → a < 2 ^ 63
    → Balanced (word_add (2 ^ 64) c u) (p + u) a
Balanced-added c p a u b hp ha = ground arith

pub negative-lt :
    (c p a : ℕ) → Balanced c p a → p < 2 ^ 63 → a < 2 ^ 63 → is_negative c ≡ true → p < a
unfolding is_negative
negative-lt c p a b hp ha n = ground arith

pub not_negative-le :
    (c p a : ℕ) → Balanced c p a → p < 2 ^ 63 → a < 2 ^ 63 → is_negative c ≡ false → a ≤ p
unfolding is_negative
not_negative-le c p a b hp ha n = ground arith

pub positive-lt :
    (c p a : ℕ) → Balanced c p a → p < 2 ^ 63 → a < 2 ^ 63 → is_positive c ≡ true → a < p
unfolding is_negative
positive-lt c p a b hp ha n = ground arith

pub not_positive-le :
    (c p a : ℕ) → Balanced c p a → p < 2 ^ 63 → a < 2 ^ 63 → is_positive c ≡ false → p ≤ a
unfolding is_negative
not_positive-le c p a b hp ha n = ground arith
