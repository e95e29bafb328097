-- ===== src/Finalize.antt =====
-- src/engine/finalize.c: the check of a finished file. The file's size and the hash of its bytes are
-- arguments; without a hash the file could not be read.
pub mod Hex
mod Tests
use cdm.Prelude.{
  ℕ, zero, ◌+◌, ◌-◌, Bool, true, false, not, ◌&&◌, ◌||◌, Option, none, some, List, [], ◌∷◌, Bytes,
  leb, ◌==◌, if◌then◌else◌,
}

-- `c - 'A' + 'a'` for a capital.
unfoldable pub lower : ℕ → ℕ
lower c = if leb b'A' c && leb c b'Z' then c - b'A' + b'a' else c

unfoldable pub hex_equals_ci : Bytes → Bytes → Bool
unfolding lower
hex_equals_ci [] [] = true
hex_equals_ci [] (_ ∷ _) = false
hex_equals_ci (_ ∷ _) [] = false
hex_equals_ci (a ∷ as') (b ∷ bs) =
    let rest = hex_equals_ci as' bs in if not (lower a == lower b) then false else rest

-- `none` is `expected_sha256_hex == NULL`; the answer is whether the code returns 0.
unfoldable pub checksum_ok : Option Bytes → Option Bytes → Bool
unfolding hex_equals_ci
checksum_ok actual none = true
checksum_ok actual (some []) = true
checksum_ok none (some (_ ∷ _)) = false
checksum_ok (some hex) (some (c ∷ cs)) = hex_equals_ci hex (c ∷ cs)

unfoldable pub engine_finalize : ℕ → Option Bytes → ℕ → Option Bytes → Bool
unfolding checksum_ok
engine_finalize actual_size actual_hex expected_size expected_hex =
    if not (expected_size == 0) && not (actual_size == expected_size)
    then false
    else checksum_ok actual_hex expected_hex
