-- ===== src/Cli/Numbers.antt =====
-- The numbers that the command line accepts.
use cdm.Prelude.{
  ℕ, ◌+◌, ◌-◌, ◌*◌, ◌%◌, ◌<◌, ◌≡◌, refl, ◌∙◌, true, false, ◌&&◌, none, some, [], ◌∷◌, Bytes, ltb,
  leb, ◌==◌, if◌then◌else◌, AllDigits, value_from, decimal, value_from-decimal, decimal-AllDigits,
  decimal-cons, u32_mod, u64_mod, arith,
}
use cdm.Cli.{is_space, skip_spaces, read_digits, convert, signed, strtoull, parse_u64, parse_id}

read_digits-AllDigits :
    (n : ℕ) (text : Bytes) → AllDigits text → read_digits n text ≡ (value_from n text, [])
unfolding read_digits
read_digits-AllDigits n [] h = refl
read_digits-AllDigits n (c ∷ cs) (d, ds) = rw d (read_digits-AllDigits (n * 10 + (c - b'0')) cs ds)

strtoull-AllDigits :
    (c : ℕ) (cs : Bytes) → AllDigits (c ∷ cs) → strtoull (c ∷ cs) ≡ convert false (c ∷ cs)
unfolding strtoull skip_spaces signed
strtoull-AllDigits c cs (d, ds) =
    let space : is_space c ≡ false = ground arith in
    let minus : (c == b'-') ≡ false = ground arith in
    let plus : (c == b'+') ≡ false = ground arith in rw space (rw (minus, plus) refl)

-- A text of digits, one at least, is accepted exactly where its value is below 2 ^ 64, and read as
-- its value.
pub parse_u64-AllDigits :
    (c : ℕ) (cs : Bytes)
    → AllDigits (c ∷ cs)
    → parse_u64 (c ∷ cs)
      ≡ (if ltb (value_from 0 (c ∷ cs)) u64_mod then some (value_from 0 (c ∷ cs)) else none)
unfolding parse_u64 convert
parse_u64-AllDigits c cs (d, ds) =
    let minus : (c == b'-') ≡ false = ground arith in
    rw
      (minus, strtoull-AllDigits c cs (d, ds), read_digits-AllDigits 0 (c ∷ cs) (d, ds), convert, d)
      (ground arith)

-- The number that `%u` or `%llu` prints is read back.
parse_u64-decimal : (n : ℕ) → n < u64_mod → parse_u64 (decimal n) ≡ some n
parse_u64-decimal n h =
    let (c, cs, e) = decimal-cons n in
    let digits : AllDigits (c ∷ cs) = rw e at (decimal-AllDigits n) in
    let value : value_from 0 (c ∷ cs) ≡ n = rw e at (value_from-decimal n (omega arith)) in
    let fits : ltb n u64_mod ≡ true = ground arith in
    rw e (parse_u64-AllDigits c cs digits ∙ rw (value, fits) refl)

-- An id is accepted as it is printed exactly where it is not 0 and fits 32 bits.
pub parse_id-decimal :
    (n : ℕ)
    → n < u64_mod
    → parse_id (decimal n) ≡ (if ltb 0 n && ltb n u32_mod then some n else none)
unfolding parse_id
parse_id-decimal n h = rw (parse_u64-decimal n h) (ground arith)

-- A negative number behind a space is not refused: it is read as its distance from 2 ^ 64.
pub parse_u64_negative :
    (n : ℕ) → 0 < n → n < u64_mod → parse_u64 (32 ∷ b'-' ∷ decimal n) ≡ some (u64_mod - n)
unfolding parse_u64 strtoull skip_spaces signed convert
parse_u64_negative n pos h =
    let (c, cs, e) = decimal-cons n in
    let (d, ds) : AllDigits (c ∷ cs) = rw e at (decimal-AllDigits n) in
    let value : value_from 0 (c ∷ cs) ≡ n = rw e at (value_from-decimal n (omega arith)) in
    let big : leb u64_mod n ≡ false = ground arith in
    let wrapped : (u64_mod - n) % u64_mod ≡ u64_mod - n = omega arith in
    rw (e, read_digits-AllDigits 0 (c ∷ cs) (d, ds), d, value, big, wrapped) refl
