-- ===== src/Prelude/Words.antt =====
-- Unsigned machine words as native numbers: a w-bit word is a number below 2 ^ w, and `x & mask`
-- with mask = 2 ^ k - 1 keeps the low k digits.
use Prim.Native.Nat.{
  ℕ, zero, suc, ◌+◌, ◌-◌, ◌*◌, ◌/◌, ◌%◌, ◌^◌, ◌≤◌, ◌<◌, min, max, bit_and, bit_or, digits,
  bit_and-bitwise, bit_or-bitwise,
}
use mathlib.Core.Path.{◌≡◌, refl, sym, ◌∙◌, ap, ◌≡⟨◌⟩◌, ◌∎}
use native.Mathlib.Nat.{
  pow-suc, mod-lt, mod-eq_of_lt, mod-eq-sub-mod, div-add-mod, add-mul-mod_self_left,
}
use mathlib.Core.Logic.{◌≢◌, ◌⊎◌, inl, inr}
use native.Mathlib.Decide.{dec_lt}
use native.Mathlib.Omega.{arith}

-- An operation on the digits of two numbers, lowest first: `z` once the first number has run out.
module _ (z : ℕ → ℕ) (f : ℕ → ℕ → ℕ) where
  abbrev both : ℕ → ℕ → ℕ
  both x y = digits z f x x y

  stops : (count y : ℕ) → digits z f count 0 y ≡ z y
  stops zero y = refl
  stops (suc count) y = refl

  -- The count of digits does not matter once it is enough.
  enough :
      (x y count count' : ℕ) → x ≤ count → x ≤ count' → digits z f count x y ≡ digits z f count' x y
  enough zero y count count' p q = stops count y ∙ sym (stops count' y)
  enough (suc x) y (suc count) (suc count') p q =
      ap (λ t. t * 2 + f (suc x % 2) (y % 2))
        (enough (suc x / 2) (y / 2) count count' (omega arith) (omega arith))
  enough (suc x) y zero count' p q = absurd (omega arith)
  enough (suc x) y (suc count) zero p q = absurd (omega arith)

  lowest_digit :
      ((y : ℕ) → z y ≡ z (y / 2) * 2 + f 0 (y % 2))
      → (x y : ℕ) → both x y ≡ both (x / 2) (y / 2) * 2 + f (x % 2) (y % 2)
  lowest_digit rest zero y = rest y
  lowest_digit rest (suc x) y =
      ap (λ t. t * 2 + f (suc x % 2) (y % 2))
        (enough (suc x / 2) (y / 2) x (suc x / 2) (omega arith) (omega arith))

lowest-bit_and : (x y : ℕ) → bit_and x y ≡ bit_and (x / 2) (y / 2) * 2 + min (x % 2) (y % 2)
lowest-bit_and x y = omega (
  arith,
  bit_and-bitwise x y,
  bit_and-bitwise (x / 2) (y / 2),
  lowest_digit (λ y. 0) min (λ y. omega arith) x y,
)

lowest-bit_or : (x y : ℕ) → bit_or x y ≡ bit_or (x / 2) (y / 2) * 2 + max (x % 2) (y % 2)
lowest-bit_or x y = omega (
  arith,
  bit_or-bitwise x y,
  bit_or-bitwise (x / 2) (y / 2),
  lowest_digit (λ y. y) max (λ y. omega arith) x y,
)

-- A number of at most `n` digits with 0, by induction on `n`.
bit_with_zero : (n x : ℕ) → x ≤ n → (bit_and x 0 ≡ 0) × (bit_or x 0 ≡ x)
bit_with_zero n zero h = (refl, refl)
bit_with_zero zero (suc x) h = absurd (omega arith)
bit_with_zero (suc n) (suc x) h =
    let halved = bit_with_zero n (suc x / 2) (omega arith) in
    (omega (arith, lowest-bit_and (suc x) 0), omega (arith, lowest-bit_or (suc x) 0))

-- A tag of three bits goes into the free low bits of an aligned address.
pub bit_or-tag : (p t : ℕ) → p % 8 ≡ 0 → t < 8 → bit_or p t ≡ p + t
bit_or-tag p t h s = omega (
  arith,
  lowest-bit_or p t,
  lowest-bit_or (p / 2) (t / 2),
  lowest-bit_or (p / 2 / 2) (t / 2 / 2),
  ap (bit_or (p / 2 / 2 / 2)) (let e : t / 2 / 2 / 2 ≡ 0 = omega arith in e),
  (bit_with_zero (p / 2 / 2 / 2) (p / 2 / 2 / 2) (omega arith)).1,
)

pub pow-pos : (k : ℕ) → 0 < 2 ^ k
pow-pos zero = omega arith
pow-pos (suc k) = omega (arith, pow-suc 2 k, pow-pos k)

-- Powers of two grow with the exponent, and the smaller one divides the larger one.
pub pow-lt-pow : (k w : ℕ) → k < w → 2 ^ k < 2 ^ w
pow-lt-pow k zero h = elim h [ ]
pow-lt-pow k (suc w) h = elim (dec_lt k w) [
  | yes p ↦ omega (arith, pow-suc 2 w, pow-lt-pow k w p)
  | no p ↦ omega (arith, pow-suc 2 w, pow-pos w, ap (λ t. 2 ^ t) (let e : k ≡ w = omega arith in e))
]

pub pow_multiple : (k w : ℕ) → k ≤ w → (q : ℕ) × (2 ^ w ≡ 2 ^ k * q)
pow_multiple k zero h = (1, let e : k ≡ 0 = omega arith in rw e)
pow_multiple k (suc w) h = elim (dec_lt k (suc w)) [
  | yes p ↦ let (q, e) = pow_multiple k w (omega arith) in (q * 2, grind (arith, pow-suc 2 w))
  | no p ↦ (1, let e : k ≡ suc w = omega arith in rw e (omega arith))
]

mod_double : (x m : ℕ) → 0 < m → x % (m * 2) ≡ x / 2 % m * 2 + x % 2
mod_double x m h =
    x % (m * 2)
    ≡⟨ ap (λ t. t % (m * 2)) parts ⟩ (low + m * 2 * (x / 2 / m)) % (m * 2)
    ≡⟨ add-mul-mod_self_left low (m * 2) (x / 2 / m) ⟩ low % (m * 2)
    ≡⟨ mod-eq_of_lt (omega (arith, mod-lt (x / 2) h)) ⟩ low ∎
  where
    low : ℕ
    low = x / 2 % m * 2 + x % 2

    parts : x ≡ low + m * 2 * (x / 2 / m)
    parts = omega (arith, div-add-mod (x / 2) m)

-- The mask of k ones keeps the remainder by 2 ^ k, at every width.
pub bit_and-mask : (k x : ℕ) → bit_and x (2 ^ k - 1) ≡ x % 2 ^ k
bit_and-mask zero x = omega (arith, (bit_with_zero x x (omega arith)).0)
bit_and-mask (suc k) x = omega (
  arith,
  lowest-bit_and x (2 ^ suc k - 1),
  ap (λ t. bit_and (x / 2) t) halved,
  bit_and-mask k (x / 2),
  mod_double x (2 ^ k) (pow-pos k),
  ap (λ t. x % t) (pow-suc 2 k),
  pow-suc 2 k,
  pow-pos k,
)
  where
    halved : (2 ^ suc k - 1) / 2 ≡ 2 ^ k - 1
    halved = omega (arith, pow-suc 2 k, pow-pos k)

-- Addition and subtraction of words below `m`, which wrap round at `m`.
abbrev pub word_add : ℕ → ℕ → ℕ → ℕ
word_add m a b = (a + b) % m

abbrev pub word_sub : ℕ → ℕ → ℕ → ℕ
word_sub m a b = (a + (m - b)) % m

-- A sum of words wraps at most once.
pub add-wrap :
    (m a b : ℕ)
    → a < m
    → b ≤ m
    → ((a + b < m) × ((a + b) % m ≡ a + b)) ⊎ ((m ≤ a + b) × ((a + b) % m + m ≡ a + b))
add-wrap m a b ha hb = elim (dec_lt (a + b) m) [
  | yes p ↦ inl (p, mod-eq_of_lt p)
  | no p ↦ inr (
    omega arith,
    omega (
      arith,
      mod-eq-sub-mod {n = a + b} {m = m} (omega arith),
      mod-eq_of_lt {n = a + b - m} {m = m} (omega arith),
    ),
  )
]

-- Two numbers less than `c` apart have different remainders by `c`.
pub mod-ne : (c a b : ℕ) → a < b → b < a + c → a % c ≢ b % c
mod-ne c a b lt near e = grind (arith, div-add-mod a c, div-add-mod b c)

-- Wrapping at a power of two does not change the remainder by a smaller one.
pub mod_wrap : (w k a b : ℕ) → k ≤ w → (a ≡ b) ⊎ (a + 2 ^ w ≡ b) → a % 2 ^ k ≡ b % 2 ^ k
mod_wrap w k a b h (inl e) = ap (λ t. t % 2 ^ k) e
mod_wrap w k a b h (inr e) =
    let (q, f) = pow_multiple k w h in
    sym (add-mul-mod_self_left a (2 ^ k) q) ∙ ap (λ t. t % 2 ^ k) (omega (arith, e, f))
