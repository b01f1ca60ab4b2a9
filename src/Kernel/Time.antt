-- ===== src/Kernel/Time.antt =====
-- src/kernel/time.rs and src/arch/aarch64/timer.rs: the arithmetic of ticks and of the next deadline. What
-- the counter reads is an argument, one value for each read of it.
pub mod Bounds
use zheos.Common.{ℕ, ◌+◌, ◌*◌, ◌/◌, Bool, true, false, Option, none, some, List, [], ◌∷◌}
use zheos.Common.{ltb, if◌then◌else◌, add64, mul64, div_ceil}

-- `core::time::Duration`, which has fewer than 10 ^ 9 nanoseconds beside its seconds.
pub record Duration : Type 0 where
  pub secs : ℕ
  pub subsec_nanos : ℕ

abbrev pub nanoseconds_per_second : ℕ
nanoseconds_per_second = 1000000000

-- `ticks_from`
unfoldable pub ticks_from : Duration → ℕ → ℕ
ticks_from duration rate =
    let whole = mul64 duration.secs rate in
    let fraction = div_ceil (mul64 duration.subsec_nanos rate) nanoseconds_per_second in
    add64 whole fraction

-- `interval` of `init`.
abbrev pub interval_of : ℕ → ℕ → ℕ
interval_of frequency hz = frequency / hz

-- The tick that `sleep` waits for.
abbrev pub target_of : ℕ → Duration → ℕ → ℕ
target_of start duration rate = add64 (add64 start (ticks_from duration rate)) 1

-- The loop of `rearm`, with what the counter reads in each round; `none` when all of them have passed the
-- deadline.
unfoldable pub rearm_from : ℕ → ℕ → List ℕ → Option ℕ
rearm_from interval deadline [] = none
rearm_from interval deadline (count ∷ counts) =
    let later = add64 deadline interval in
    if ltb count later then some later else rearm_from interval later counts
