-- ===== src/Finalize/Tests.antt =====
-- The check of a finished file at concrete inputs.
use cdm.Prelude.{◌≡◌, ◌↔◌, true, false, refl, none, some, [], ◌∷◌, Bytes}
use cdm.Finalize.{engine_finalize}
use cdm.Finalize.Hex.{SizeOk, HashOk, engine_finalize_lem}

abbrev small : Bytes
small = b'a' ∷ b'9' ∷ []

abbrev large : Bytes
large = b'A' ∷ b'9' ∷ []

engine_finalize_lem_example :
    (engine_finalize 7 (some small) 7 (some large) ≡ true)
    ↔ (SizeOk 7 7 × HashOk (some small) (some large))
engine_finalize_lem_example = engine_finalize_lem 7 (some small) 7 (some large)

not_readable : engine_finalize 7 none 7 (some large) ≡ false
unfolding engine_finalize
not_readable = refl
