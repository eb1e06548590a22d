-- ===== src/Time/Tests.antt =====
-- 1500 milliseconds, and 100 and 10 microseconds with the bias.
use co_context.Prelude.{◌/◌, ◌^◌, ◌-◌, ◌*◌, ◌≡◌, arith}
use co_context.Prelude.Integers.{pos, negsuc}
use co_context.Time.{timeout_bias_nanosecond, to_kernel_timespec, to_kernel_timespec_biased}
use co_context.Time.Cast.{Splits, SplitsNegative, to_kernel_timespec_lem, biased-short}

to_kernel_timespec_example :
    Splits (1500 * 1 * 10 ^ 9 / 1000) (to_kernel_timespec 1 1000 (pos 1500))
    × SplitsNegative (1501 * 1 * 10 ^ 9 / 1000) (to_kernel_timespec 1 1000 (negsuc 1500))
to_kernel_timespec_example = to_kernel_timespec_lem 1 1000 1500 (omega arith)

biased-short_example :
    to_kernel_timespec_biased timeout_bias_nanosecond 1000 (pos 10)
    ≡ record { tv_sec = pos 0; tv_nsec = negsuc (29999 - 10 * 1000) }
biased-short_example = biased-short 1000 10 (omega arith)
