-- ===== src/Time/Cast.antt =====
-- Seconds and nanoseconds of a duration.
use native.Mathlib.Nat.{
  mod-lt, div-add-mod', mul-lt-mul_of_pos_right, add-mul, mul-one, div-eq_of_lt, zero-mul, zero-div,
  mul_comm, mul_right_comm, mul-add-div_right, mul-div_cancel, div-lt_iff_lt-mul,
}
use mathlib.Core.Path.{subst}
use co_context.Prelude.{
  ℕ, zero, suc, ◌+◌, ◌-◌, ◌*◌, ◌/◌, ◌%◌, ◌^◌, ◌≤◌, ◌<◌, ◌≡◌, refl, sym, ap, ◌∙◌, arith,
}
use co_context.Prelude.Integers.{pos, negsuc, minus, ◌+ℤ◌, ◌-ℤ◌, scale, quot}
use co_context.Time.{
  Timespec, timeout_bias_nanosecond, to_kernel_timespec, to_kernel_timespec_biased,
}

-- A count of nanoseconds as the kernel takes it.
abbrev pub Splits : ℕ → Timespec → Type 0
Splits total t =
    (s n : ℕ) × (t ≡ record { tv_sec = pos s; tv_nsec = pos n })
    × (n < 10 ^ 9)
    × (s * 10 ^ 9 + n ≡ total)

-- And the same below 0.
abbrev pub SplitsNegative : ℕ → Timespec → Type 0
SplitsNegative total t =
    (s n : ℕ) × (t ≡ record { tv_sec = minus s; tv_nsec = minus n })
    × (n < 10 ^ 9)
    × (s * 10 ^ 9 + n ≡ total)

rest_lem : (n k : ℕ) → pos n -ℤ pos (n / k * k) ≡ pos (n % k)
rest_lem n k = let e = div-add-mod' n k in ground (arith, e)

scale-negative : (n k : ℕ) → scale (minus n) k ≡ minus (n * k)
scale-negative zero k = let e = zero-mul k in rw e refl
scale-negative (suc n) k = refl

quot-negative : (n k : ℕ) → quot (minus n) k ≡ minus (n / k)
quot-negative zero k = let e = zero-div k in rw e refl
quot-negative (suc n) k = refl

sub-minus : (m x r : ℕ) → x + r ≡ m → minus m -ℤ minus x ≡ minus r
sub-minus zero zero zero e = ground (arith, e)
sub-minus zero zero (suc r) e = absurd (omega (arith, e))
sub-minus zero (suc x) r e = absurd (omega (arith, e))
sub-minus (suc m) zero zero e = absurd (omega (arith, e))
sub-minus (suc m) zero (suc r) e = ground (arith, e)
sub-minus (suc m) (suc x) zero e = ground (arith, e)
sub-minus (suc m) (suc x) (suc r) e = ground (arith, e)

-- Whole seconds of a number of ticks of 1/den seconds, and what is left in nanoseconds.
split_lem :
    (den n : ℕ)
    → 0 < den
    → (n % den * 10 ^ 9 / den < 10 ^ 9)
      × (n / den * 10 ^ 9 + n % den * 10 ^ 9 / den ≡ n * 10 ^ 9 / den)
split_lem den n above = (
  (div-lt_iff_lt-mul above).1 (
      subst (λ x. n % den * 10 ^ 9 < x) (mul_comm den (10 ^ 9))
        (mul-lt-mul_of_pos_right (mod-lt n above) (omega arith))),
  sym (mul-add-div_right above (n / den * 10 ^ 9) (n % den * 10 ^ 9))
      ∙ ap (λ x. (x + n % den * 10 ^ 9) / den) (mul_right_comm (n / den) (10 ^ 9) den)
      ∙ ap (λ x. x / den) (sym (add-mul (n / den * den) (n % den) (10 ^ 9)))
      ∙ ap (λ x. x * 10 ^ 9 / den) (div-add-mod' n den),
)

-- The nanoseconds of a duration are fewer than those of a second, and together with the seconds they
-- are the duration in whole nanoseconds, rounded towards 0, whatever its unit of num/den seconds, as
-- long as no count overflows; both have the sign of the duration.
pub to_kernel_timespec_lem :
    (num den n : ℕ)
    → 0 < den
    → Splits (n * num * 10 ^ 9 / den) (to_kernel_timespec num den (pos n))
      × SplitsNegative (suc n * num * 10 ^ 9 / den) (to_kernel_timespec num den (negsuc n))
unfolding to_kernel_timespec
to_kernel_timespec_lem num den n above = (
  (
    n * num / den,
    n * num % den * 10 ^ 9 / den,
    rw (rest_lem (n * num) den) refl,
    (split_lem den (n * num) above).0,
    (split_lem den (n * num) above).1,
  ),
  (
    suc n * num / den,
    suc n * num % den * 10 ^ 9 / den,
    rw
        (
          quot-negative (suc n * num) den,
          scale-negative (suc n * num / den) den,
          sub-minus (suc n * num) (suc n * num / den * den) (suc n * num % den)
              (div-add-mod' (suc n * num) den),
          scale-negative (suc n * num % den) (10 ^ 9),
          quot-negative (suc n * num % den * 10 ^ 9) den,
        )
        refl,
    (split_lem den (suc n * num) above).0,
    (split_lem den (suc n * num) above).1,
  ),
)

-- A time that is no shorter than the bias is passed to the kernel as the time less the bias.
pub biased_lem :
    (nanos n : ℕ)
    → 30000 ≤ n * nanos
    → Splits (n * nanos - 30000) (to_kernel_timespec_biased timeout_bias_nanosecond nanos (pos n))
unfolding to_kernel_timespec_biased
biased_lem nanos n long =
    let total : pos (n * nanos) +ℤ negsuc 29999 ≡ pos (n * nanos - 30000) = ground arith in
    subst (λ d. Splits (n * nanos - 30000) (to_kernel_timespec 1 (10 ^ 9) d)) (sym total)
      (subst (λ x. Splits x (to_kernel_timespec 1 (10 ^ 9) (pos (n * nanos - 30000))))
        (mul-div_cancel ((n * nanos - 30000) * 1) (omega arith) ∙ mul-one (n * nanos - 30000))
        (to_kernel_timespec_lem 1 (10 ^ 9) (n * nanos - 30000) (omega arith)).0)

below_second :
    (m : ℕ)
    → suc m < 10 ^ 9
    → to_kernel_timespec 1 (10 ^ 9) (negsuc m) ≡ record { tv_sec = pos 0; tv_nsec = negsuc m }
unfolding to_kernel_timespec
below_second m h =
    let none_whole : suc m / 10 ^ 9 ≡ 0 = div-eq_of_lt h in
    let same : negsuc m -ℤ pos 0 ≡ negsuc m = ground arith in
    let back : suc m * 10 ^ 9 / 10 ^ 9 ≡ suc m = mul-div_cancel (suc m) (omega arith) in
    rw (mul-one (suc m), none_whole, same, quot-negative (suc m * 10 ^ 9) (10 ^ 9), back) refl

-- A time that is shorter than the bias becomes a negative number of nanoseconds.
pub biased-short :
    (nanos n : ℕ)
    → n * nanos < 30000
    → to_kernel_timespec_biased timeout_bias_nanosecond nanos (pos n)
      ≡ record { tv_sec = pos 0; tv_nsec = negsuc (29999 - n * nanos) }
unfolding to_kernel_timespec_biased
biased-short nanos n short =
    let total : pos (n * nanos) +ℤ negsuc 29999 ≡ negsuc (29999 - n * nanos) = ground arith in
    ap (to_kernel_timespec 1 (10 ^ 9)) total ∙ below_second (29999 - n * nanos) (omega arith)
