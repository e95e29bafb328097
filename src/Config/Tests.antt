-- ===== src/Config/Tests.antt =====
-- The clamps at a concrete configuration.
use cdm.Prelude.{pos, negsuc}
use cdm.Config.{Settings}

abbrev careless : Settings
careless = record {
  max_concurrent = negsuc 3;
  retry_max_attempts = pos 5;
  retry_base_delay_sec = pos 0;
  retry_max_delay_sec = negsuc 0;
  max_speed_bps = 7;
}
