-- ===== src/Time.antt =====
-- include/co_context/utility/time_cast.hpp: a duration as seconds and nanoseconds for the kernel. A
-- unit, `Period`, is num/den seconds; the counts of ticks are integers that do not overflow.
-- `duration_cast` rounds towards 0, and a difference is taken in the coarsest unit that both durations
-- are multiples of.
pub mod Cast
mod Tests
use co_context.Prelude.{ℕ, ◌^◌}
use co_context.Prelude.Integers.{ℤ, pos, negsuc, ◌+ℤ◌, ◌-ℤ◌, scale, quot}

-- `__kernel_timespec`
pub record Timespec : Type 0 where
  pub tv_sec : ℤ
  pub tv_nsec : ℤ

-- `config::timeout_bias_nanosecond`
abbrev pub timeout_bias_nanosecond : ℤ
timeout_bias_nanosecond = negsuc 29999

-- `duration - sec` is a number of ticks of 1/den seconds.
unfoldable pub to_kernel_timespec : (num den : ℕ) → ℤ → Timespec
to_kernel_timespec num den duration =
    let ticks = scale duration num in
    let sec = quot ticks den in
    let nano = quot (scale (ticks -ℤ scale sec den) (10 ^ 9)) den in
    record { tv_sec = sec; tv_nsec = nano }

-- For a unit of `nanos` nanoseconds: the sum of the duration and the bias is a number of nanoseconds.
unfoldable pub to_kernel_timespec_biased : (bias : ℤ) (nanos : ℕ) → ℤ → Timespec
to_kernel_timespec_biased bias nanos duration =
    to_kernel_timespec 1 (10 ^ 9) (scale duration nanos +ℤ bias)
