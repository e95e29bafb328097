-- ===== src/WorkerPool/Search.antt =====
-- Which slot an idle worker is sent to.
use cdm.Prelude.{
  ℕ, zero, suc, ◌+◌, ◌≤◌, ◌<◌, ◌≡◌, ap, inl, inr, ◌⊎◌, Bool, true, false, not, ◌&&◌, subst, Option,
  none, some, List, [], ◌∷◌, arith, length, get_or, ltb, All, Bool-cases,
}
use cdm.WorkerPool.{PoolSlot, zero_slot, remaining, busiest, orphan}

-- A worker is busy on the slot.
abbrev pub is_live : PoolSlot → Bool
is_live s = not s.exhausted && s.claimed

-- `ss` is the part of `all` from index `i` on.
abbrev pub From : List PoolSlot → ℕ → List PoolSlot → Type 0
From all i ss = (j : ℕ) → j < length ss → get_or all (i + j) zero_slot ≡ get_or ss j zero_slot

-- The pair `(victim, most)` of the search: nothing yet, or a live slot and what it has left.
abbrev pub Found : List PoolSlot → Option ℕ → ℕ → Type 0
Found all none most = most ≡ 0
Found all (some v) most =
    (v < length all)
    × (remaining (get_or all v zero_slot) ≡ most)
    × (0 < most)
    × (is_live (get_or all v zero_slot) ≡ true)

From-next :
    (all : List PoolSlot) (i : ℕ) (s : PoolSlot) (ss : List PoolSlot)
    → From all i (s ∷ ss)
    → From all (i + 1) ss
From-next all i s ss h j k =
    subst (λ m. get_or all m zero_slot ≡ get_or ss j zero_slot) (omega arith)
      (h (suc j) (omega arith))

pub busiest-Found :
    (all : List PoolSlot) (i : ℕ) (v : Option ℕ) (most : ℕ) (ss : List PoolSlot)
    → i + length ss ≡ length all
    → From all i ss
    → Found all v most
    → let r = busiest i v most ss in Found all r.0 r.1
unfolding busiest
busiest-Found all i v most [] e at h = h
busiest-Found all i v most (s ∷ ss) e at h =
    elim (Bool-cases (not s.exhausted && (s.claimed && ltb most (remaining s)))) [
      | inl hit ↦
          let here : get_or all i zero_slot ≡ s =
            subst (λ m. get_or all m zero_slot ≡ s) (omega arith) (at zero (omega arith)) in
          rw hit (
            busiest-Found all (i + 1) (some i) (remaining s) ss (omega arith)
              (From-next all i s ss at)
              (omega arith, ap remaining here, ground arith, rw here (ground arith)))
      | inr miss ↦
          rw miss (busiest-Found all (i + 1) v most ss (omega arith) (From-next all i s ss at) h)
    ]

-- The search never gives up what it has.
busiest-grows :
    (i : ℕ) (v : Option ℕ) (most : ℕ) (ss : List PoolSlot) → most ≤ (busiest i v most ss).1
unfolding busiest
busiest-grows i v most [] = omega arith
busiest-grows i v most (s ∷ ss) =
    ground (arith, busiest-grows (i + 1) (some i) (remaining s) ss, busiest-grows (i + 1) v most ss)

-- No live slot has more left than the one found.
pub busiest-most :
    (m i : ℕ) (v : Option ℕ) (most : ℕ) (ss : List PoolSlot)
    → (busiest i v most ss).1 ≤ m
    → All (λ s. (is_live s ≡ false) ⊎ (remaining s ≤ m)) ss
unfolding busiest
busiest-most m i v most [] h = tt
busiest-most m i v most (s ∷ ss) h =
    elim (Bool-cases (not s.exhausted && (s.claimed && ltb most (remaining s)))) [
      | inl hit ↦
          let h' : (busiest (i + 1) (some i) (remaining s) ss).1 ≤ m = ground arith in
          (
            inr (omega (arith, busiest-grows (i + 1) (some i) (remaining s) ss, h')),
            busiest-most m (i + 1) (some i) (remaining s) ss h',
          )
      | inr miss ↦
          let h' : (busiest (i + 1) v most ss).1 ≤ m = ground arith in
          (ground (arith, busiest-grows (i + 1) v most ss), busiest-most m (i + 1) v most ss h')
    ]

-- Where there is no orphan, every slot is done or worked on.
pub orphan-none :
    (i : ℕ) (ss : List PoolSlot)
    → orphan i ss ≡ none
    → All (λ s. (s.exhausted ≡ true) ⊎ (s.claimed ≡ true)) ss
unfolding orphan
orphan-none i [] h = tt
orphan-none i (s ∷ ss) h = (ground arith, orphan-none (i + 1) ss (ground arith))

pub orphan-some :
    (all : List PoolSlot) (i k : ℕ) (ss : List PoolSlot)
    → i + length ss ≡ length all
    → From all i ss
    → orphan i ss ≡ some k
    → (k < length all)
      × ((get_or all k zero_slot).exhausted ≡ false)
      × ((get_or all k zero_slot).claimed ≡ false)
unfolding orphan
orphan-some all i k [] e at h = ground arith
orphan-some all i k (s ∷ ss) e at h = elim (Bool-cases (not s.exhausted && not s.claimed)) [
  | inl hit ↦
      let here : get_or all i zero_slot ≡ s =
        subst (λ m. get_or all m zero_slot ≡ s) (omega arith) (at zero (omega arith)) in
      let same : i ≡ k = ground arith in
      subst
        (λ m.
          (m < length all)
          × ((get_or all m zero_slot).exhausted ≡ false)
          × ((get_or all m zero_slot).claimed ≡ false))
        same (omega arith, rw here (ground arith), rw here (ground arith))
  | inr miss ↦ orphan-some all (i + 1) k ss (omega arith) (From-next all i s ss at) (ground arith)
]
