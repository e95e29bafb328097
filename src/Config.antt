-- ===== src/Config.antt =====
-- src/utils/config.c: the numbers of the configuration, the clamps of `config_init`, and the test of
-- them in `config_save`.
pub mod Clamps
mod Tests
use cdm.Prelude.{ℕ, Bool, true, false, not, ◌||◌, if◌then◌else◌, ℤ, pos, negsuc, ltb_ℤ}

-- The ints of the configuration, and the speed, a uint64_t.
pub record Settings : Type 0 where
  pub max_concurrent : ℤ
  pub retry_max_attempts : ℤ
  pub retry_base_delay_sec : ℤ
  pub retry_max_delay_sec : ℤ
  pub max_speed_bps : ℕ

unfoldable pub reset_defaults : Settings
reset_defaults = record {
  max_concurrent = pos 3;
  retry_max_attempts = pos 5;
  retry_base_delay_sec = pos 2;
  retry_max_delay_sec = pos 60;
  max_speed_bps = 0;
}

-- `if (n < low) n = low;`
unfoldable pub at_least : ℤ → ℤ → ℤ
at_least low n = if ltb_ℤ n low then low else n

-- The defensive clamps.
unfoldable pub clamp : Settings → Settings
unfolding at_least
clamp s =
    let base = at_least (pos 1) s.retry_base_delay_sec in
    record {
      max_concurrent = at_least (pos 1) s.max_concurrent;
      retry_max_attempts = at_least (pos 0) s.retry_max_attempts;
      retry_base_delay_sec = base;
      retry_max_delay_sec = at_least base s.retry_max_delay_sec;
      max_speed_bps = s.max_speed_bps;
    }

-- The tests of the numbers with which `config_save` begins.
unfoldable pub is_savable : Settings → Bool
is_savable s = not (
    ltb_ℤ s.max_concurrent (pos 1)
    || ltb_ℤ s.retry_max_attempts (pos 0)
    || ltb_ℤ s.retry_base_delay_sec (pos 1)
    || ltb_ℤ s.retry_max_delay_sec s.retry_base_delay_sec)
