-- ===== src/Sha256.antt =====
-- src/platform/sha256.c: SHA-256. A uint32_t is a number below 2 ^ 32; sums and left shifts wrap.
pub mod Stream
pub mod Digest
mod Tests
use Prim.Native.Nat.{bit_and, bit_or, bit_xor}
use cdm.Prelude.{
  ℕ, zero, suc, ◌+◌, ◌-◌, ◌*◌, ◌/◌, ◌^◌, Bool, true, false, List, [], ◌∷◌, ◌++◌, map, ltb, ◌==◌,
  if◌then◌else◌, length, get_or, set, take, replicate, u8, u32, u64,
}

abbrev pub shift_left : ℕ → ℕ → ℕ
shift_left x n = u32 (x * 2 ^ n)

abbrev pub shift_right : ℕ → ℕ → ℕ
shift_right x n = x / 2 ^ n

abbrev pub rot_right : ℕ → ℕ → ℕ
rot_right a b = bit_or (shift_right a b) (shift_left a (32 - b))

-- `~x` is the exclusive or with ones.
abbrev pub ch : ℕ → ℕ → ℕ → ℕ
ch x y z = bit_xor (bit_and x y) (bit_and (bit_xor x 0xffffffff) z)

abbrev pub maj : ℕ → ℕ → ℕ → ℕ
maj x y z = bit_xor (bit_xor (bit_and x y) (bit_and x z)) (bit_and y z)

abbrev pub ep0 : ℕ → ℕ
ep0 x = bit_xor (bit_xor (rot_right x 2) (rot_right x 13)) (rot_right x 22)

abbrev pub ep1 : ℕ → ℕ
ep1 x = bit_xor (bit_xor (rot_right x 6) (rot_right x 11)) (rot_right x 25)

abbrev pub sig0 : ℕ → ℕ
sig0 x = bit_xor (bit_xor (rot_right x 7) (rot_right x 18)) (shift_right x 3)

abbrev pub sig1 : ℕ → ℕ
sig1 x = bit_xor (bit_xor (rot_right x 17) (rot_right x 19)) (shift_right x 10)

-- The constants `k`.
abbrev pub round_constants : List ℕ
round_constants =
    0x428a2f98 ∷ 0x71374491 ∷ 0xb5c0fbcf ∷ 0xe9b5dba5 ∷ 0x3956c25b ∷ 0x59f111f1 ∷ 0x923f82a4
    ∷ 0xab1c5ed5 ∷ 0xd807aa98 ∷ 0x12835b01 ∷ 0x243185be ∷ 0x550c7dc3 ∷ 0x72be5d74 ∷ 0x80deb1fe
    ∷ 0x9bdc06a7 ∷ 0xc19bf174 ∷ 0xe49b69c1 ∷ 0xefbe4786 ∷ 0x0fc19dc6 ∷ 0x240ca1cc ∷ 0x2de92c6f
    ∷ 0x4a7484aa ∷ 0x5cb0a9dc ∷ 0x76f988da ∷ 0x983e5152 ∷ 0xa831c66d ∷ 0xb00327c8 ∷ 0xbf597fc7
    ∷ 0xc6e00bf3 ∷ 0xd5a79147 ∷ 0x06ca6351 ∷ 0x14292967 ∷ 0x27b70a85 ∷ 0x2e1b2138 ∷ 0x4d2c6dfc
    ∷ 0x53380d13 ∷ 0x650a7354 ∷ 0x766a0abb ∷ 0x81c2c92e ∷ 0x92722c85 ∷ 0xa2bfe8a1 ∷ 0xa81a664b
    ∷ 0xc24b8b70 ∷ 0xc76c51a3 ∷ 0xd192e819 ∷ 0xd6990624 ∷ 0xf40e3585 ∷ 0x106aa070 ∷ 0x19a4c116
    ∷ 0x1e376c08 ∷ 0x2748774c ∷ 0x34b0bcb5 ∷ 0x391c0cb3 ∷ 0x4ed8aa4a ∷ 0x5b9cca4f ∷ 0x682e6ff3
    ∷ 0x748f82ee ∷ 0x78a5636f ∷ 0x84c87814 ∷ 0x8cc70208 ∷ 0x90befffa ∷ 0xa4506ceb ∷ 0xbef9a3f7
    ∷ 0xc67178f2 ∷ []

-- The first loop of the transform: big-endian words of a block.
unfoldable pub block_words : List ℕ → List ℕ
block_words (a ∷ b ∷ c ∷ d ∷ rest) =
    bit_or (bit_or (bit_or (shift_left a 24) (shift_left b 16)) (shift_left c 8)) d
    ∷ block_words rest
block_words _ = []

-- The second loop, which extends `m` by `n` words.
unfoldable pub extend : ℕ → List ℕ → List ℕ
extend zero m = m
extend (suc n) m =
    let i = length m in
    extend n (
      m
      ++ (u32 (
            sig1 (get_or m (i - 2) 0)
            + get_or m (i - 7) 0
            + sig0 (get_or m (i - 15) 0)
            + get_or m (i - 16) 0)
          ∷ []))

-- The variables a to h.
pub record Registers : Type 0 where
  pub a : ℕ
  pub b : ℕ
  pub c : ℕ
  pub d : ℕ
  pub e : ℕ
  pub f : ℕ
  pub g : ℕ
  pub h : ℕ

unfoldable pub round : ℕ → ℕ → Registers → Registers
round k m r =
    let t1 = u32 (r.h + ep1 r.e + ch r.e r.f r.g + k + m) in
    let t2 = u32 (ep0 r.a + maj r.a r.b r.c) in
    record {
      a = u32 (t1 + t2);
      b = r.a;
      c = r.b;
      d = r.c;
      e = u32 (r.d + t1);
      f = r.e;
      g = r.f;
      h = r.g;
    }

-- The third loop.
unfoldable pub rounds : List ℕ → List ℕ → Registers → Registers
unfolding round
rounds [] m r = r
rounds (k ∷ ks) [] r = r
rounds (k ∷ ks) (w ∷ m) r = rounds ks m (round k w r)

abbrev pub add_registers : Registers → Registers → Registers
add_registers s r = record {
  a = u32 (s.a + r.a);
  b = u32 (s.b + r.b);
  c = u32 (s.c + r.c);
  d = u32 (s.d + r.d);
  e = u32 (s.e + r.e);
  f = u32 (s.f + r.f);
  g = u32 (s.g + r.g);
  h = u32 (s.h + r.h);
}

unfoldable pub transform : Registers → List ℕ → Registers
unfolding block_words extend rounds
transform state block =
    add_registers state (rounds round_constants (extend 48 (block_words block)) state)

-- SHA256_CTX. `buffer` is `data`, the buffer of 64 bytes, of which `datalen` are in use.
pub record Context : Type 0 where
  pub buffer : List ℕ
  pub datalen : ℕ
  pub bitlen : ℕ
  pub state : Registers

-- `bytes` is what the uninitialised buffer holds.
unfoldable pub sha256_init : List ℕ → Context
sha256_init bytes = record {
  buffer = bytes;
  datalen = 0;
  bitlen = 0;
  state = record {
    a = 0x6a09e667;
    b = 0xbb67ae85;
    c = 0x3c6ef372;
    d = 0xa54ff53a;
    e = 0x510e527f;
    f = 0x9b05688c;
    g = 0x1f83d9ab;
    h = 0x5be0cd19;
  };
}

-- The body of the loop of `sha256_update`.
unfoldable pub update_byte : ℕ → Context → Context
update_byte b ctx =
    let filled = set ctx.buffer ctx.datalen b in
    if ctx.datalen + 1 == 64
    then record {
      buffer = filled;
      datalen = 0;
      bitlen = u64 (ctx.bitlen + 512);
      state = transform ctx.state filled;
    }
    else record ctx { buffer = filled; datalen = ctx.datalen + 1 }

unfoldable pub sha256_update : List ℕ → Context → Context
unfolding update_byte
sha256_update [] ctx = ctx
sha256_update (b ∷ bs) ctx = sha256_update bs (update_byte b ctx)

-- 0x80 at `i`, and zeros from there up to `end`.
abbrev pub pad : ℕ → ℕ → List ℕ → List ℕ
pad i end bytes = take i bytes ++ 0x80 ∷ replicate (end - (i + 1)) 0

-- The last block, after the block that the padding fills where the length has no room in it.
unfoldable pub final_block : Context → List ℕ × Registers
final_block ctx =
    let full = pad ctx.datalen 64 ctx.buffer in
    if ltb ctx.datalen 56
    then (pad ctx.datalen 56 ctx.buffer, ctx.state)
    else (replicate 56 0, transform ctx.state full)

abbrev pub length_bytes : ℕ → List ℕ
length_bytes n = map (λ i. u8 (n / 2 ^ (8 * i))) (7 ∷ 6 ∷ 5 ∷ 4 ∷ 3 ∷ 2 ∷ 1 ∷ 0 ∷ [])

abbrev pub word_bytes : ℕ → List ℕ
word_bytes w = map (λ i. u8 (w / 2 ^ (8 * i))) (3 ∷ 2 ∷ 1 ∷ 0 ∷ [])

unfoldable pub sha256_final : Context → List ℕ
unfolding final_block
sha256_final ctx =
    let bits = u64 (ctx.bitlen + ctx.datalen * 8) in
    let (block, state) = final_block ctx in
    let s = transform state (block ++ length_bytes bits) in
    word_bytes s.a
    ++ word_bytes s.b
    ++ word_bytes s.c
    ++ word_bytes s.d
    ++ word_bytes s.e
    ++ word_bytes s.f
    ++ word_bytes s.g
    ++ word_bytes s.h

-- The item of "0123456789abcdef".
abbrev pub hex_digit : ℕ → ℕ
hex_digit n = if ltb n 10 then b'0' + n else b'a' + (n - 10)

unfoldable pub sha256_to_hex : List ℕ → List ℕ
sha256_to_hex [] = []
sha256_to_hex (b ∷ bs) =
    hex_digit (bit_and (b / 16) 15) ∷ hex_digit (bit_and b 15) ∷ sha256_to_hex bs
