-- ===== src/Sha256/Digest.antt =====
-- SHA-256 of a whole message: the buffer and its padding against the blocks of FIPS 180.
use cdm.Prelude.{
  ℕ, zero, suc, ◌+◌, ◌-◌, ◌*◌, ◌≤◌, ◌<◌, ◌≡◌, refl, ap, sym, subst, ◌∙◌, inl, inr, List, [], ◌∷◌,
  ◌++◌, All, arith, length, length-append, length-set, set, take, replicate, ltb, ltb→lt, true,
  false, ◌==◌, u64, Bool-cases,
}
use cdm.Sha256.{
  Context, Registers, transform, update_byte, sha256_init, sha256_update, sha256_final, final_block,
  pad, length_bytes, word_bytes,
}
use cdm.Sha256.Stream.{ContextOk, update_byte-ContextOk}

-- The blocks of a message, one after another.
abbrev pub joined : List (List ℕ) → List ℕ
joined [] = []
joined (b ∷ bs) = b ++ joined bs

-- The state after the blocks.
abbrev pub compress : List (List ℕ) → Registers → Registers
compress [] s = s
compress (b ∷ bs) s = compress bs (transform s b)

abbrev pub IsBlock : List ℕ → Type 0
IsBlock b = length b ≡ 64

-- The eight words of the state, each with its high byte first.
abbrev pub state_bytes : Registers → List ℕ
state_bytes s =
    word_bytes s.a
    ++ word_bytes s.b
    ++ word_bytes s.c
    ++ word_bytes s.d
    ++ word_bytes s.e
    ++ word_bytes s.f
    ++ word_bytes s.g
    ++ word_bytes s.h

-- The padding of FIPS 180: a byte 0x80, fewer than 64 zeros, and the number of bits in eight bytes.
abbrev pub padded : List ℕ → ℕ → List ℕ
padded msg zeros = msg ++ (0x80 ∷ (replicate zeros 0 ++ length_bytes (u64 (length msg * 8))))

append_assoc : (xs ys zs : List ℕ) → (xs ++ ys) ++ zs ≡ xs ++ (ys ++ zs)
append_assoc [] ys zs = refl
append_assoc (x ∷ xs) ys zs = ap (x ∷◌) (append_assoc xs ys zs)

append_nil : (xs : List ℕ) → xs ++ [] ≡ xs
append_nil [] = refl
append_nil (x ∷ xs) = ap (x ∷◌) (append_nil xs)

joined-snoc : (bs : List (List ℕ)) (b : List ℕ) → joined (bs ++ (b ∷ [])) ≡ joined bs ++ b
joined-snoc [] b = append_nil b
joined-snoc (c ∷ bs) b = ap (c ++◌) (joined-snoc bs b) ∙ sym (append_assoc c (joined bs) b)

compress-snoc :
    (bs : List (List ℕ)) (b : List ℕ) (s : Registers)
    → compress (bs ++ (b ∷ [])) s ≡ transform (compress bs s) b
compress-snoc [] b s = refl
compress-snoc (c ∷ bs) b s = compress-snoc bs b (transform s c)

All-snoc :
    (bs : List (List ℕ)) (b : List ℕ) → All IsBlock bs → IsBlock b → All IsBlock (bs ++ (b ∷ []))
All-snoc [] b h k = (k, tt)
All-snoc (c ∷ bs) b (h, hs) k = (h, All-snoc bs b hs k)

take-set :
    (xs : List ℕ) (i v : ℕ) → i < length xs → take (i + 1) (set xs i v) ≡ take i xs ++ (v ∷ [])
take-set [] i v h = absurd (omega arith)
take-set (x ∷ xs) zero v h = refl
take-set (x ∷ xs) (suc i) v h =
    let e : suc i + 1 ≡ suc (i + 1) = omega arith in
    ap (λ n. take n (x ∷ set xs i v)) e ∙ ap (x ∷◌) (take-set xs i v (omega arith))

take-all : (xs : List ℕ) → take (length xs) xs ≡ xs
take-all [] = refl
take-all (x ∷ xs) = ap (x ∷◌) (take-all xs)

length-take_le : (n : ℕ) (xs : List ℕ) → n ≤ length xs → length (take n xs) ≡ n
length-take_le zero xs h = refl
length-take_le (suc n) [] h = absurd (omega arith)
length-take_le (suc n) (x ∷ xs) h = ap suc (length-take_le n xs (omega arith))

length-replicate : (n v : ℕ) → length (replicate n v) ≡ n
length-replicate zero v = refl
length-replicate (suc n) v = ap suc (length-replicate n v)

-- The context after the bytes `fed`: full blocks in the state, and the rest in the buffer.
record Streamed (s : Registers) (fed : List ℕ) (ctx : Context) : Type 0 where
  blocks : List (List ℕ)
  sized : All IsBlock blocks
  split : fed ≡ joined blocks ++ take ctx.datalen ctx.buffer
  state : ctx.state ≡ compress blocks s
  ok : ContextOk (length fed) ctx

-- The buffer with one byte more.
filled_lem :
    (s : Registers) (fed : List ℕ) (b : ℕ) (ctx : Context)
    → (h : Streamed s fed ctx)
    → fed ++ (b ∷ []) ≡ joined h.blocks ++ take (ctx.datalen + 1) (set ctx.buffer ctx.datalen b)
filled_lem s fed b ctx h =
    ap (λ xs. xs ++ (b ∷ [])) h.split
    ∙ append_assoc (joined h.blocks) (take ctx.datalen ctx.buffer) (b ∷ [])
    ∙ ap (joined h.blocks ++◌)
        (sym (take-set ctx.buffer ctx.datalen b (omega (arith, h.ok.sized, h.ok.room))))

update_byte-Streamed :
    (s : Registers) (fed : List ℕ) (b : ℕ) (ctx : Context)
    → Streamed s fed ctx
    → Streamed s (fed ++ (b ∷ [])) (update_byte b ctx)
unfolding update_byte
update_byte-Streamed s fed b ctx h =
    let filled = set ctx.buffer ctx.datalen b in
    let long : length filled ≡ 64 = length-set ctx.buffer ctx.datalen b ∙ h.ok.sized in
    let count : length fed + 1 ≡ length (fed ++ (b ∷ [])) = sym (length-append fed (b ∷ [])) in
    let ok : ContextOk (length (fed ++ (b ∷ []))) (update_byte b ctx) =
      subst (λ n. ContextOk n (update_byte b ctx)) count
        (update_byte-ContextOk (length fed) b ctx h.ok) in
    elim (Bool-cases (ctx.datalen + 1 == 64)) [
      | inl full ↦
          let end : ctx.datalen + 1 ≡ length filled = ground arith in
          let whole : take (ctx.datalen + 1) filled ≡ filled =
            ap (λ n. take n filled) end ∙ take-all filled in
          rw full (record {
            blocks = h.blocks ++ (filled ∷ []);
            sized = All-snoc h.blocks filled h.sized long;
            split =
                filled_lem s fed b ctx h
                ∙ ap (joined h.blocks ++◌) whole
                ∙ sym (joined-snoc h.blocks filled)
                ∙ sym (append_nil (joined (h.blocks ++ (filled ∷ []))));
            state = ap (λ t. transform t filled) h.state ∙ sym (compress-snoc h.blocks filled s);
            ok = rw full at ok;
          })
      | inr room ↦ rw room (record {
        blocks = h.blocks;
        sized = h.sized;
        split = filled_lem s fed b ctx h;
        state = h.state;
        ok = rw room at ok;
      })
    ]

sha256_update-Streamed :
    (s : Registers) (fed bs : List ℕ) (ctx : Context)
    → Streamed s fed ctx
    → Streamed s (fed ++ bs) (sha256_update bs ctx)
unfolding sha256_update
sha256_update-Streamed s fed [] ctx h = subst (λ f. Streamed s f ctx) (sym (append_nil fed)) h
sha256_update-Streamed s fed (b ∷ bs) ctx h =
    subst (λ f. Streamed s f (sha256_update bs (update_byte b ctx))) (append_assoc fed (b ∷ []) bs)
      (sha256_update-Streamed s (fed ++ (b ∷ [])) bs (update_byte b ctx)
        (update_byte-Streamed s fed b ctx h))

-- The blocks of a padded message, and the hash that they give.
abbrev pub IsHash : Registers → List ℕ → List ℕ → Type 0
IsHash s msg hash =
    (zeros : ℕ) × (zeros < 64)
    × (blocks : List (List ℕ)) × All IsBlock blocks
    × (joined blocks ≡ padded msg zeros)
    × (hash ≡ state_bytes (compress blocks s))

-- The bits that the code counts, in its eight bytes.
abbrev bits_of : Context → List ℕ
bits_of ctx = length_bytes (u64 (ctx.bitlen + ctx.datalen * 8))

final_lem :
    (ctx : Context) (block : List ℕ) (r : Registers)
    → final_block ctx ≡ (block, r)
    → sha256_final ctx ≡ state_bytes (transform r (block ++ bits_of ctx))
unfolding sha256_final
final_lem ctx block r e =
    ap (λ (x : List ℕ × Registers). state_bytes (transform x.1 (x.0 ++ bits_of ctx))) e

final_block-short :
    (ctx : Context)
    → ltb ctx.datalen 56 ≡ true
    → final_block ctx ≡ (pad ctx.datalen 56 ctx.buffer, ctx.state)
unfolding final_block
final_block-short ctx h = rw h refl

final_block-long :
    (ctx : Context)
    → ltb ctx.datalen 56 ≡ false
    → final_block ctx ≡ (replicate 56 0, transform ctx.state (pad ctx.datalen 64 ctx.buffer))
unfolding final_block
final_block-long ctx h = rw h refl

length-pad :
    (i end : ℕ) (bytes : List ℕ) → i < end → i ≤ length bytes → length (pad i end bytes) ≡ end
length-pad i end bytes h k = omega (
  arith,
  length-append (take i bytes) (0x80 ∷ replicate (end - (i + 1)) 0),
  length-take_le i bytes k,
  length-replicate (end - (i + 1)) 0,
)

replicate-add : (m n v : ℕ) → replicate m v ++ replicate n v ≡ replicate (m + n) v
replicate-add zero n v = let e : n ≡ 0 + n = omega arith in ap (λ k. replicate k v) e
replicate-add (suc m) n v =
    let e : suc (m + n) ≡ suc m + n = omega arith in
    ap (v ∷◌) (replicate-add m n v) ∙ ap (λ k. replicate k v) e

module _ (s : Registers) (msg : List ℕ) (ctx : Context) (h : Streamed s msg ctx) where
  counted : bits_of ctx ≡ length_bytes (u64 (length msg * 8))
  counted = ap length_bytes h.ok.counted

  -- One block takes the rest, the padding and the length.
  short-IsHash : ltb ctx.datalen 56 ≡ true → IsHash s msg (sha256_final ctx)
  short-IsHash short =
      let t = take ctx.datalen ctx.buffer in
      let z = 56 - (ctx.datalen + 1) in
      let bits = length_bytes (u64 (length msg * 8)) in
      let room : ctx.datalen < 56 = ltb→lt _ _ short in
      let last = pad ctx.datalen 56 ctx.buffer ++ bits in
      let long : length last ≡ 64 = omega (
        arith,
        length-append (pad ctx.datalen 56 ctx.buffer) bits,
        length-pad ctx.datalen 56 ctx.buffer room (omega (arith, room, h.ok.sized)),
      ) in
      (
        z,
        omega arith,
        h.blocks ++ (last ∷ []),
        All-snoc h.blocks last h.sized long,
        joined-snoc h.blocks last
            ∙ ap (joined h.blocks ++◌) (append_assoc t (0x80 ∷ replicate z 0) bits)
            ∙ sym (append_assoc (joined h.blocks) t (0x80 ∷ (replicate z 0 ++ bits)))
            ∙ ap (λ m. m ++ (0x80 ∷ (replicate z 0 ++ bits))) (sym h.split),
        final_lem ctx _ _ (final_block-short ctx short)
            ∙ ap (λ b. state_bytes (transform ctx.state (pad ctx.datalen 56 ctx.buffer ++ b)))
                counted
            ∙ ap (λ r. state_bytes (transform r last)) h.state
            ∙ ap state_bytes (sym (compress-snoc h.blocks last s)),
      )

  -- The padding fills one block and goes on in a second one.
  long-IsHash : ltb ctx.datalen 56 ≡ false → IsHash s msg (sha256_final ctx)
  long-IsHash long =
      let t = take ctx.datalen ctx.buffer in
      let y = 64 - (ctx.datalen + 1) in
      let bits = length_bytes (u64 (length msg * 8)) in
      let first = pad ctx.datalen 64 ctx.buffer in
      let last = replicate 56 0 ++ bits in
      let sized : length first ≡ 64 =
        length-pad ctx.datalen 64 ctx.buffer h.ok.room (omega (arith, h.ok.room, h.ok.sized)) in
      let zeros : replicate y 0 ++ last ≡ replicate (y + 56) 0 ++ bits =
        sym (append_assoc (replicate y 0) (replicate 56 0) bits)
        ∙ ap (λ r. r ++ bits) (replicate-add y 56 0) in
      let bs = h.blocks ++ (first ∷ []) in
      (
        y + 56,
        ground (arith, long),
        bs ++ (last ∷ []),
        All-snoc bs last (All-snoc h.blocks first h.sized sized) refl,
        joined-snoc bs last
            ∙ ap (λ j. j ++ last) (joined-snoc h.blocks first)
            ∙ append_assoc (joined h.blocks) first last
            ∙ ap (joined h.blocks ++◌) (append_assoc t (0x80 ∷ replicate y 0) last)
            ∙ ap (λ q. joined h.blocks ++ (t ++ (0x80 ∷ q))) zeros
            ∙ sym (append_assoc (joined h.blocks) t (0x80 ∷ (replicate (y + 56) 0 ++ bits)))
            ∙ ap (λ m. m ++ (0x80 ∷ (replicate (y + 56) 0 ++ bits))) (sym h.split),
        final_lem ctx _ _ (final_block-long ctx long)
            ∙ ap (λ b. state_bytes (transform (transform ctx.state first) (replicate 56 0 ++ b)))
                counted
            ∙ ap (λ r. state_bytes (transform (transform r first) last)) h.state
            ∙ ap (λ r. state_bytes (transform r last)) (sym (compress-snoc h.blocks first s))
            ∙ ap state_bytes (sym (compress-snoc bs last s)),
      )

start-Streamed :
    (bytes : List ℕ) → length bytes ≡ 64 → Streamed (sha256_init bytes).state [] (sha256_init bytes)
unfolding sha256_init
start-Streamed bytes full = record {
  blocks = [];
  sized = tt;
  split = refl;
  state = refl;
  ok = record { sized = full; room = omega arith; counted = refl };
}

-- From `sha256_init` on, with whatever 64 bytes the buffer holds, `sha256_final` behind
-- `sha256_update` of a message gives the hash of the message as FIPS 180 builds it from the
-- transform: the message, a byte 0x80, fewer than 64 zeros and the number of bits (mod 2 ^ 64) in
-- eight bytes are cut into blocks of 64 bytes, which the transform takes in order from the initial
-- state, and the hash is the state's words with their high bytes first.
pub sha256_lem :
    (bytes msg : List ℕ)
    → length bytes ≡ 64
    → IsHash (sha256_init bytes).state msg (sha256_final (sha256_update msg (sha256_init bytes)))
sha256_lem bytes msg full =
    let start : Streamed (sha256_init bytes).state [] (sha256_init bytes) =
      start-Streamed bytes full in
    let h = sha256_update-Streamed (sha256_init bytes).state [] msg (sha256_init bytes) start in
    elim (Bool-cases (ltb (sha256_update msg (sha256_init bytes)).datalen 56)) [
      | inl short ↦ short-IsHash (sha256_init bytes).state msg _ h short
      | inr long ↦ long-IsHash (sha256_init bytes).state msg _ h long
    ]
