-- ===== src/Sha256/Stream.antt =====
-- The buffer of SHA-256: how a stream of bytes passes through it.
use cdm.Prelude.{
  ℕ, suc, ◌+◌, ◌*◌, ◌<◌, ◌≡◌, refl, subst, inl, inr, List, [], ◌∷◌, arith, length, length-set, ◌==◌,
  u64, Bool-cases,
}
use cdm.Sha256.{Context, update_byte, sha256_update, sha256_to_hex, sha256_final}

-- The buffer has room for a byte, and `n` bytes have been counted.
pub record ContextOk (n : ℕ) (ctx : Context) : Type 0 where
  pub sized : length ctx.buffer ≡ 64
  pub room : ctx.datalen < 64
  pub counted : u64 (ctx.bitlen + ctx.datalen * 8) ≡ u64 (n * 8)

count_block :
    (bits n len : ℕ)
    → len + 1 ≡ 64
    → u64 (bits + len * 8) ≡ u64 (n * 8)
    → u64 (u64 (bits + 512) + 0 * 8) ≡ u64 ((n + 1) * 8)
count_block bits n len e h = grind arith

count_byte :
    (bits n len : ℕ)
    → u64 (bits + len * 8) ≡ u64 (n * 8)
    → u64 (bits + (len + 1) * 8) ≡ u64 ((n + 1) * 8)
count_byte bits n len h = grind arith

pub update_byte-ContextOk :
    (n b : ℕ) (ctx : Context) → ContextOk n ctx → ContextOk (n + 1) (update_byte b ctx)
unfolding update_byte
update_byte-ContextOk n b ctx ok = elim (Bool-cases (ctx.datalen + 1 == 64)) [
  | inl full ↦ rw full (record {
    sized = omega (arith, ok.sized, length-set ctx.buffer ctx.datalen b);
    room = omega arith;
    counted = count_block ctx.bitlen n ctx.datalen (ground arith) ok.counted;
  })
  | inr room ↦ rw room (record {
    sized = omega (arith, ok.sized, length-set ctx.buffer ctx.datalen b);
    room = ground (arith, ok.room);
    counted = count_byte ctx.bitlen n ctx.datalen ok.counted;
  })
]

-- Feeding bytes keeps the buffer of 64 bytes with room for one more, and the count of bits, which
-- wraps at 2 ^ 64.
pub sha256_update-ContextOk :
    (n : ℕ) (bs : List ℕ) (ctx : Context)
    → ContextOk n ctx
    → ContextOk (n + length bs) (sha256_update bs ctx)
unfolding sha256_update
sha256_update-ContextOk n [] ctx ok =
    let e : n ≡ n + 0 = omega arith in subst (λ m. ContextOk m ctx) e ok
sha256_update-ContextOk n (b ∷ bs) ctx ok =
    let e : n + 1 + length bs ≡ n + suc (length bs) = omega arith in
    subst (λ m. ContextOk m (sha256_update bs (update_byte b ctx))) e
      (sha256_update-ContextOk (n + 1) bs (update_byte b ctx) (update_byte-ContextOk n b ctx ok))

-- The hex string has two digits for each byte.
length-sha256_to_hex : (bs : List ℕ) → length (sha256_to_hex bs) ≡ 2 * length bs
unfolding sha256_to_hex
length-sha256_to_hex [] = omega arith
length-sha256_to_hex (b ∷ bs) = omega (arith, length-sha256_to_hex bs)

length-sha256_final : (ctx : Context) → length (sha256_final ctx) ≡ 32
unfolding sha256_final
length-sha256_final ctx = refl

-- The hex string of a hash fills the caller's array of 65 bytes with its NUL.
length-hex-final : (ctx : Context) → length (sha256_to_hex (sha256_final ctx)) ≡ 64
length-hex-final ctx =
    omega (arith, length-sha256_to_hex (sha256_final ctx), length-sha256_final ctx)
