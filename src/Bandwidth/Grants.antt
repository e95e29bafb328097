-- ===== src/Bandwidth/Grants.antt =====
-- What the token bucket grants.
use cdm.Prelude.{
  ℕ, ◌+◌, ◌≡◌, inl, inr, ◌⊎◌, Bool, true, false, Option, some, List, [], ◌∷◌, arith, ◌==◌, ◌≤ℤ◌,
  ltb_ℤ, ℤ, Bool-cases, sub_u64, pos_part, ◌<◌, none, ◌||◌,
}
use cdm.Bandwidth.{Bucket, Look, max_bucket, capped, bandwidth_tick}

abbrev pub sum : List ℕ → ℕ
sum [] = 0
sum (n ∷ ns) = n + sum ns

-- The tokens that the rounds find, and whether one finds a flag set.
abbrev pub offered : List Look → ℕ
offered [] = 0
offered (l ∷ looks) = pos_part l.tokens + offered looks

abbrev pub stops : List Look → Bool
stops [] = false
stops (l ∷ looks) = l.stop || stops looks

-- True, with one token taken for each byte; or false, with fewer, in a round that found a flag set; or
-- no answer yet, with every token taken that the rounds found, none of which found a flag set, and
-- these are fewer than the bytes.
abbrev pub Grant : ℕ → List Look → Option Bool × List ℕ → Type 0
Grant bytes looks r =
    ((r.0 ≡ some true) × (sum r.1 ≡ bytes))
    ⊎ (((r.0 ≡ some false) × (sum r.1 < bytes) × (stops looks ≡ true))
        ⊎ ((r.0 ≡ none) × (sum r.1 ≡ offered looks) × (sum r.1 < bytes) × (stops looks ≡ false)))

capped-le : (most n : ℤ) → capped most n ≤ℤ most
unfolding capped
capped-le most n = elim (Bool-cases (ltb_ℤ most n)) [
  | inl over ↦ rw over (omega arith)
  | inr under ↦ rw under (ground arith)
]

-- A refill never leaves more than half a second's worth in the bucket, where it did not have more
-- before.
pub bandwidth_tick-le :
    (cap now : ℕ) (b : Bucket)
    → b.tokens ≤ℤ max_bucket cap
    → (bandwidth_tick cap now b).tokens ≤ℤ max_bucket cap
unfolding bandwidth_tick
bandwidth_tick-le cap now b h = elim (Bool-cases (cap == 0)) [
  | inl off ↦ rw off h
  | inr on ↦ elim (Bool-cases (b.last_refill_ms == 0)) [
    | inl first ↦ rw (on, first) h
    | inr later ↦ elim (Bool-cases (sub_u64 now b.last_refill_ms == 0)) [
      | inl same ↦ rw (on, later, same) h
      | inr passed ↦ rw (on, later, passed) (capped-le (max_bucket cap) _)
    ]
  ]
]
