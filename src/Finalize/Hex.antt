-- ===== src/Finalize/Hex.antt =====
-- The comparison of checksums, and when a file passes.
use cdm.Prelude.{
  ℕ, ◌≡◌, ◌≢◌, refl, ◌↔◌, inl, inr, ◌⊎◌, true, false, not, ◌&&◌, Option, none, some, sym, ap, ◌∙◌,
  [], ◌∷◌, map, Bytes, arith, Bool-cases, eq_of_beq, ◌==◌,
}
use cdm.Finalize.{lower, hex_equals_ci, checksum_ok, engine_finalize}

cons_eq : {a b : ℕ} {as' bs : Bytes} → a ≡ b → as' ≡ bs → a ∷ as' ≡ b ∷ bs
cons_eq e e' = ground (arith, e, e')

tail_eq : {a b : ℕ} {as' bs : Bytes} → a ∷ as' ≡ b ∷ bs → as' ≡ bs
tail_eq e = cc e

head_eq : {a b : ℕ} {as' bs : Bytes} → a ∷ as' ≡ b ∷ bs → a ≡ b
head_eq e = cc e

differs : (a b : ℕ) → (a == b) ≡ false → a ≢ b
differs a b h = ground arith

-- Two strings compare equal exactly where they are equal when every capital is made small.
pub hex_equals_ci_lem : (a b : Bytes) → (hex_equals_ci a b ≡ true) ↔ (map lower a ≡ map lower b)
unfolding hex_equals_ci
hex_equals_ci_lem [] [] = ((λ h. refl), (λ h. refl))
hex_equals_ci_lem [] (b ∷ bs) = ((λ h. ground arith), (λ h. ground arith))
hex_equals_ci_lem (a ∷ as') [] = ((λ h. ground arith), (λ h. ground arith))
hex_equals_ci_lem (a ∷ as') (b ∷ bs) =
    let (to, from) = hex_equals_ci_lem as' bs in
    elim (Bool-cases (lower a == lower b)) [
      | inl same ↦ rw same ((λ h. cons_eq (eq_of_beq _ _ same) (to h)), (λ e. from (tail_eq e)))
      | inr other ↦
          ((λ h. ground arith), (λ e. absurd (differs (lower a) (lower b) other (head_eq e))))
    ]

-- No size is expected, or the file has it.
abbrev pub SizeOk : ℕ → ℕ → Type 0
SizeOk size expected = (expected ≡ 0) ⊎ (size ≡ expected)

-- No hash is expected, or the file could be read and has it up to case.
abbrev pub HashOk : Option Bytes → Option Bytes → Type 0
HashOk actual expected =
    ((expected ≡ none) ⊎ (expected ≡ some []))
    ⊎ ((hex : Bytes) × (wanted : Bytes) × (actual ≡ some hex)
        × (expected ≡ some wanted)
        × (map lower hex ≡ map lower wanted))

none-some : {A : Type 0} {a : A} → none ≡ some a → ⊥
none-some e = cc e

some_eq : {a b : Bytes} → some a ≡ some b → a ≡ b
some_eq e = cc e

checksum_ok_lem :
    (actual expected : Option Bytes) → (checksum_ok actual expected ≡ true) ↔ HashOk actual expected
unfolding checksum_ok
checksum_ok_lem actual none = ((λ h. inl (inl refl)), (λ k. refl))
checksum_ok_lem actual (some []) = ((λ h. inl (inr refl)), (λ k. refl))
checksum_ok_lem none (some (c ∷ cs)) = ((λ h. ground arith), refute)
  where
    refute : HashOk none (some (c ∷ cs)) → checksum_ok none (some (c ∷ cs)) ≡ true
    refute (inl (inl e)) = absurd (none-some (sym e))
    refute (inl (inr e)) = absurd (let f = some_eq e in ground (arith, f))
    refute (inr (_, _, e, _, _)) = absurd (none-some e)
checksum_ok_lem (some hex) (some (c ∷ cs)) =
    let (to, from) = hex_equals_ci_lem hex (c ∷ cs) in
    ((λ h. inr (hex, c ∷ cs, refl, refl, to h)), accept from)
  where
    accept :
        (map lower hex ≡ map lower (c ∷ cs) → hex_equals_ci hex (c ∷ cs) ≡ true)
        → HashOk (some hex) (some (c ∷ cs))
        → checksum_ok (some hex) (some (c ∷ cs)) ≡ true
    accept from (inl (inl e)) = absurd (none-some (sym e))
    accept from (inl (inr e)) = absurd (let f = some_eq e in ground (arith, f))
    accept from (inr (a, b, e, f, same)) =
        from (ap (map lower) (some_eq e) ∙ same ∙ ap (map lower) (sym (some_eq f)))

-- A file passes exactly where its size is the one expected, or none is, and it could be read and the
-- hash of its bytes is the one expected up to case, or none is.
pub engine_finalize_lem :
    (size : ℕ) (hex : Option Bytes) (expected_size : ℕ) (expected : Option Bytes)
    → (engine_finalize size hex expected_size expected ≡ true)
      ↔ (SizeOk size expected_size × HashOk hex expected)
unfolding engine_finalize
engine_finalize_lem size hex expected_size expected =
    let (to, from) = checksum_ok_lem hex expected in
    elim (Bool-cases (not (expected_size == 0) && not (size == expected_size))) [
      | inl wrong ↦ rw wrong ((λ h. ground arith), (λ h. absurd (ground (arith, h.0))))
      | inr right ↦ rw right ((λ h. (ground arith, to h)), (λ h. from h.1))
    ]
