-- ===== src/Bandwidth/Tests.antt =====
-- The token bucket at concrete inputs.
use cdm.Prelude.{◌≡◌, refl, true, some, List, false, [], ◌∷◌, pos, negsuc}
use cdm.Bandwidth.{Bucket, Look, bandwidth_acquire}

abbrev bucket : Bucket
bucket = record { tokens = pos 100; last_refill_ms = 5 }

abbrev three_looks : List Look
three_looks =
    record { stop = false; tokens = pos 20 }
    ∷ record { stop = false; tokens = negsuc 0 }
    ∷ record { stop = false; tokens = pos 20 }
    ∷ []

taken : bandwidth_acquire 1000 three_looks 30 ≡ (some true, 20 ∷ 0 ∷ 10 ∷ [])
unfolding bandwidth_acquire
taken = refl
