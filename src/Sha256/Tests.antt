-- ===== src/Sha256/Tests.antt =====
-- SHA-256 at concrete inputs.
use cdm.Prelude.{ℕ, ◌≡◌, refl, List, [], ◌∷◌, replicate, take, arith}
use cdm.Sha256.Stream.{ContextOk}
use cdm.Sha256.Digest.{IsHash, sha256_lem}
use cdm.Sha256.{
  Context, sha256_final, sha256_init, sha256_update, sha256_final, transform, rounds, round, extend,
  block_words, update_byte, final_block,
}

abbrev abc : List ℕ
abc = b'a' ∷ b'b' ∷ b'c' ∷ []

abbrev start : Context
unfolding sha256_init
start = sha256_init (replicate 64 0)

start-ContextOk : ContextOk 0 start
unfolding sha256_init
start-ContextOk = record { sized = refl; room = omega arith; counted = refl }

sha256_lem_example :
    IsHash
      (sha256_init (replicate 64 7)).state
      abc
      (sha256_final (sha256_update abc (sha256_init (replicate 64 7))))
sha256_lem_example = sha256_lem (replicate 64 7) abc refl

-- The test vector of FIPS 180 for "abc" begins with ba 78 16 bf.
hash_of_abc : take 4 (sha256_final (sha256_update abc start)) ≡ 0xba ∷ 0x78 ∷ 0x16 ∷ 0xbf ∷ []
unfolding sha256_update update_byte sha256_final final_block transform rounds round extend
    block_words sha256_init
hash_of_abc = refl
