-- ===== src/Scheduler/Backoff.antt =====
-- How long a failed download waits.
use cdm.Prelude.{ℕ, ◌-◌, ◌*◌, ◌^◌, ◌≤◌, ◌<◌, ◌≡◌, arith, min, ltb, if◌then◌else◌, u32_mod, ◌%◌}
use cdm.Scheduler.{Policy, retry_backoff_seconds}

-- The doubled base delay, with the exponent that the code caps at 30.
abbrev pub doubled : Policy → ℕ → ℕ
doubled p attempt = p.retry_base_delay_sec * 2 ^ min 30 (attempt - 1)

shift_min : (a : ℕ) → (if ltb 30 a then 30 else a) ≡ min 30 a
shift_min a = ground arith

-- No delay is longer than the configured maximum.
pub retry_backoff_seconds-le :
    (p : Policy) (attempt : ℕ) → retry_backoff_seconds p attempt ≤ p.retry_max_delay_sec
unfolding retry_backoff_seconds
retry_backoff_seconds-le p attempt = ground arith

-- Where the doubled base delay fits an int, the delay is the smaller of it and of the maximum.
pub retry_backoff_seconds_exact :
    (p : Policy) (attempt : ℕ)
    → doubled p attempt < 2 ^ 31
    → retry_backoff_seconds p attempt ≡ min p.retry_max_delay_sec (doubled p attempt)
unfolding retry_backoff_seconds
retry_backoff_seconds_exact p attempt fits =
    let exact : doubled p attempt % u32_mod ≡ doubled p attempt = omega arith in
    rw (shift_min (attempt - 1), exact) (ground arith)

-- From the 31st attempt on there is no delay at all where the base delay is a multiple of 4: the
-- shift by 30 moves every bit of the base out of the int.
pub retry_backoff_seconds_overflow :
    (p : Policy) (k attempt : ℕ)
    → p.retry_base_delay_sec ≡ 4 * k
    → 31 ≤ attempt
    → retry_backoff_seconds p attempt ≡ 0
unfolding retry_backoff_seconds
retry_backoff_seconds_overflow p k attempt base late =
    let capped : min 30 (attempt - 1) ≡ 30 = omega arith in
    let gone : p.retry_base_delay_sec * 2 ^ 30 % u32_mod ≡ 0 = omega arith in
    rw (shift_min (attempt - 1), capped, gone) (ground arith)
