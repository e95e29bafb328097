-- ===== src/Prelude/Find.antt =====
-- The first item of a list that passes a test, and what a write does to it.
use Prim.Native.Nat.{ℕ, zero, suc, ◌+◌, ◌≤◌, ◌<◌}
use mathlib.Core.Path.{◌≡◌, refl, ap}
use mathlib.Core.Logic.{inl, inr}
use mathlib.Core.Bool.{Bool, true}
use mathlib.Core.List.{List, [], ◌∷◌}
use mathlib.Core.Option.{Option, none, some}
use native.Mathlib.Omega.{arith}
use cdm.Prelude.Tests.{if◌then◌else◌, Bool-cases}
use cdm.Prelude.Lists.{Bytes, bytes_eq, length, set}

pub bytes_eq_self : (bs : Bytes) → bytes_eq bs bs ≡ true
bytes_eq_self [] = refl
bytes_eq_self (b ∷ bs) = ground (arith, bytes_eq_self bs)

module _ {ℓ} {A : Type ℓ} where
  -- The index, counted from `i`.
  abbrev pub find_from : (A → Bool) → ℕ → List A → Option ℕ
  find_from p i [] = none
  find_from p i (x ∷ xs) = if p x then some i else find_from p (suc i) xs

  pub find_from-lt :
      (p : A → Bool) (k i : ℕ) (xs : List A)
      → find_from p k xs ≡ some i
      → (k ≤ i) × (i < k + length xs)
  find_from-lt p k i [] e = absurd (ground arith)
  find_from-lt p k i (t ∷ ts) e = elim (Bool-cases (p t)) [
    | inl h ↦ let here : some k ≡ some i = rw h at e in ground (arith, here)
    | inr h ↦
        let (low, high) = find_from-lt p (suc k) i ts (rw h at e) in (omega arith, omega arith)
  ]

  -- An item that was found is found again when what replaces it passes the test too.
  pub find_from-set_found :
      (p : A → Bool) (k : ℕ) (xs : List A) (i : ℕ) (s : A)
      → find_from p k xs ≡ some (k + i)
      → p s ≡ true
      → find_from p k (set xs i s) ≡ some (k + i)
  find_from-set_found p k [] i s e h = absurd (ground arith)
  find_from-set_found p k (t ∷ ts) zero s e h =
      let here : k + 0 ≡ k = omega arith in rw (h, here) refl
  find_from-set_found p k (t ∷ ts) (suc i) s e h = elim (Bool-cases (p t)) [
    | inl q ↦ absurd (let first = rw q at e in ground arith)
    | inr q ↦
        let shift : k + suc i ≡ suc k + i = omega arith in
        let later : find_from p (suc k) ts ≡ some (suc k + i) = rw (q, shift) at e in
        rw (q, shift) (find_from-set_found p (suc k) ts i s later h)
  ]

  -- The first item to pass a test is the one that is written.
  pub find_from-set_new :
      (p : A → Bool) (k : ℕ) (xs : List A) (i : ℕ) (s : A)
      → find_from p k xs ≡ none
      → i < length xs
      → p s ≡ true
      → find_from p k (set xs i s) ≡ some (k + i)
  find_from-set_new p k [] i s e b h = elim b [ ]
  find_from-set_new p k (t ∷ ts) zero s e b h =
      let here : k + 0 ≡ k = omega arith in rw (h, here) refl
  find_from-set_new p k (t ∷ ts) (suc i) s e b h = elim (Bool-cases (p t)) [
    | inl q ↦ absurd (let first = rw q at e in ground arith)
    | inr q ↦
        let shift : k + suc i ≡ suc k + i = omega arith in
        let later : find_from p (suc k) ts ≡ none = rw q at e in
        rw (q, shift) (find_from-set_new p (suc k) ts i s later (omega arith) h)
  ]

  pub set-set : (xs : List A) (i : ℕ) (s : A) → set (set xs i s) i s ≡ set xs i s
  set-set [] i s = refl
  set-set (t ∷ ts) zero s = refl
  set-set (t ∷ ts) (suc i) s = ap (t ∷◌) (set-set ts i s)
