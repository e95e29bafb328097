-- ===== src/Prelude/Decimal.antt =====
-- Numbers in decimal, as `%u` prints them and `strtoull` reads them.
use Prim.Native.Nat.{ℕ, zero, suc, ◌+◌, ◌-◌, ◌*◌, ◌/◌, ◌%◌, ◌^◌, ◌<◌}
use mathlib.Core.Path.{◌≡◌, refl, ap, ◌∙◌}
use mathlib.Core.Logic.{inl, inr}
use mathlib.Core.Bool.{Bool, true, ◌&&◌}
use mathlib.Core.List.{[], ◌∷◌}
use native.Mathlib.Nat.{pow-suc}
use native.Mathlib.Omega.{arith}
use cdm.Prelude.Tests.{◌==◌, leb, if◌then◌else◌, Bool-cases}
use cdm.Prelude.Lists.{Bytes, All}

abbrev pub is_digit : ℕ → Bool
is_digit c = leb b'0' c && leb c b'9'

-- The digits of `n`, at most `left` of them, before `tail`.
unfoldable pub digits_loop : ℕ → ℕ → Bytes → Bytes
digits_loop zero n tail = tail
digits_loop (suc left) n tail =
    let rest = digits_loop left (n / 10) ((b'0' + n % 10) ∷ tail) in
    if n / 10 == 0 then (b'0' + n % 10) ∷ tail else rest

-- A 64-bit number has at most 20 digits.
unfoldable pub decimal : ℕ → Bytes
unfolding digits_loop
decimal n = digits_loop 20 n []

-- The number that the digits stand for behind those of `n`.
abbrev pub value_from : ℕ → Bytes → ℕ
value_from n [] = n
value_from n (c ∷ cs) = value_from (n * 10 + (c - b'0')) cs

abbrev pub AllDigits : Bytes → Type 0
AllDigits = All (λ c. is_digit c ≡ true)

value_from-digits_loop :
    (left n : ℕ) (tail : Bytes)
    → n < 10 ^ left
    → value_from 0 (digits_loop left n tail) ≡ value_from n tail
unfolding digits_loop
value_from-digits_loop zero n tail h =
    let e : n ≡ 0 = omega arith in ap (λ m. value_from m tail) (omega arith)
value_from-digits_loop (suc left) n tail h = elim (Bool-cases (n / 10 == 0)) [
  | inl e ↦
      let small : 0 * 10 + (b'0' + n % 10 - b'0') ≡ n = ground arith in
      rw e (ap (λ m. value_from m tail) small)
  | inr e ↦
      let bound : n / 10 < 10 ^ left = omega (arith, pow-suc 10 left) in
      let back : n / 10 * 10 + (b'0' + n % 10 - b'0') ≡ n = omega arith in
      rw e (
        value_from-digits_loop left (n / 10) ((b'0' + n % 10) ∷ tail) bound
        ∙ ap (λ m. value_from m tail) back)
]

digits_loop-AllDigits :
    (left n : ℕ) (tail : Bytes) → AllDigits tail → AllDigits (digits_loop left n tail)
unfolding digits_loop
digits_loop-AllDigits zero n tail h = h
digits_loop-AllDigits (suc left) n tail h =
    let digit : is_digit (b'0' + n % 10) ≡ true = ground arith in
    elim (Bool-cases (n / 10 == 0)) [
      | inl e ↦ rw e (digit, h)
      | inr e ↦ rw e (digits_loop-AllDigits left (n / 10) ((b'0' + n % 10) ∷ tail) (digit, h))
    ]

-- Printing keeps the number.
pub value_from-decimal : (n : ℕ) → n < 10 ^ 20 → value_from 0 (decimal n) ≡ n
unfolding decimal
value_from-decimal n h = value_from-digits_loop 20 n [] h

pub decimal-AllDigits : (n : ℕ) → AllDigits (decimal n)
unfolding decimal
decimal-AllDigits n = digits_loop-AllDigits 20 n [] tt

digits_loop-cons :
    (left n c : ℕ) (cs : Bytes)
    → (c' : ℕ) × (cs' : Bytes) × (digits_loop left n (c ∷ cs) ≡ c' ∷ cs')
unfolding digits_loop
digits_loop-cons zero n c cs = (c, cs, refl)
digits_loop-cons (suc left) n c cs = elim (Bool-cases (n / 10 == 0)) [
  | inl e ↦ (b'0' + n % 10, c ∷ cs, rw e refl)
  | inr e ↦
      let (c', cs', found) = digits_loop-cons left (n / 10) (b'0' + n % 10) (c ∷ cs) in
      (c', cs', rw e found)
]

pub decimal-cons : (n : ℕ) → (c : ℕ) × (cs : Bytes) × (decimal n ≡ c ∷ cs)
unfolding decimal
decimal-cons n = elim (Bool-cases (n / 10 == 0)) [
  | inl e ↦ (b'0' + n % 10, [], rw (digits_loop, e) refl)
  | inr e ↦
      let (c, cs, found) = digits_loop-cons 19 (n / 10) (b'0' + n % 10) [] in
      (c, cs, rw (digits_loop, e) found)
]
