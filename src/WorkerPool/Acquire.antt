-- ===== src/WorkerPool/Acquire.antt =====
-- What an idle worker gets from the pool, and that no byte is lost or given to two workers.
use cdm.Prelude.{
  ℕ, ◌+◌, ◌≤◌, ◌<◌, ◌≡◌, refl, ◌∙◌, subst, inl, inr, ◌⊎◌, Bool, true, Option, none, some, [], ◌∷◌,
  arith, length, get_or, set, ltb, leb, All, Bool-cases, Option-cases,
}
use cdm.WorkerPool.{
  PoolSlot, zero_slot, RebalancePool, Assignment, busiest, orphan, adopt, steal, steal_from,
  acquire, midpoint, added_slot,
}
use cdm.WorkerPool.Owners.{
  owns, owners, owners-append, owners-set, SlotOk, get_or-SlotOk, midpoint_bounds,
}
use cdm.Segmenter.{max_workers}

-- At most eight slots, none past its end.
pub record PoolOk (p : RebalancePool) : Type 0 where
  pub room : length p.slots ≤ max_workers
  pub each : All SlotOk p.slots

-- `acquire` adopts an orphan, or steals from the busiest slot, or finds nothing to do.
abbrev pub Adopts : RebalancePool → RebalancePool × Option Assignment → Type 0
Adopts p r = (i : ℕ) × (orphan 0 p.slots ≡ some i) × (r ≡ adopt i p)

abbrev pub Steals : RebalancePool → RebalancePool × Option Assignment → Type 0
Steals p r =
    (v : ℕ) × ((busiest 0 none 0 p.slots).0 ≡ some v)
    × (p.min_steal_bytes ≤ (busiest 0 none 0 p.slots).1)
    × (length p.slots < max_workers)
    × (r ≡ steal v p)

abbrev pub Refuses : RebalancePool → RebalancePool × Option Assignment → Type 0
Refuses p r =
    (orphan 0 p.slots ≡ none)
    × (r ≡ (p, none))
    × ((max_workers ≤ length p.slots)
        ⊎ (((busiest 0 none 0 p.slots).0 ≡ none)
            ⊎ ((busiest 0 none 0 p.slots).1 < p.min_steal_bytes)))

-- The same for the search's results.
steal_from_cases :
    (p : RebalancePool) (v : Option ℕ) (most : ℕ)
    → ((w : ℕ) × (v ≡ some w)
        × (p.min_steal_bytes ≤ most)
        × (length p.slots < max_workers)
        × (steal_from v most p ≡ steal w p))
      ⊎ ((steal_from v most p ≡ (p, none))
          × ((max_workers ≤ length p.slots) ⊎ ((v ≡ none) ⊎ (most < p.min_steal_bytes))))
unfolding steal_from
steal_from_cases p none most = inr (refl, inr (inl refl))
steal_from_cases p (some w) most = elim (Bool-cases (ltb most p.min_steal_bytes)) [
  | inl less ↦ inr (rw less refl, inr (inr (ground arith)))
  | inr enough ↦ elim (Bool-cases (leb max_workers (length p.slots))) [
    | inl full ↦ inr (rw (enough, full) refl, inl (ground arith))
    | inr room ↦ inl (w, refl, ground arith, ground arith, rw (enough, room) refl)
  ]
]

acquire-none :
    (p : RebalancePool)
    → orphan 0 p.slots ≡ none
    → acquire p ≡ steal_from (busiest 0 none 0 p.slots).0 (busiest 0 none 0 p.slots).1 p
unfolding acquire
acquire-none p e = rw (acquire, e) refl

pub acquire_cases :
    (p : RebalancePool) → Adopts p (acquire p) ⊎ (Steals p (acquire p) ⊎ Refuses p (acquire p))
unfolding acquire
acquire_cases p = elim (Option-cases (orphan 0 p.slots)) [
  | inr (i, e) ↦ inl (i, e, rw (acquire, e) refl)
  | inl e ↦ elim (steal_from_cases p (busiest 0 none 0 p.slots).0 (busiest 0 none 0 p.slots).1) [
    | inl (v, found, enough, room, r) ↦ inr (inl (v, found, enough, room, acquire-none p e ∙ r))
    | inr (r, why) ↦ inr (inr (e, acquire-none p e ∙ r, why))
  ]
]

pub whole :
    (p : RebalancePool) (j : ℕ)
    → j < length p.slots
    → get_or p.slots (0 + j) zero_slot ≡ get_or p.slots j zero_slot
whole p j h =
    subst (λ m. get_or p.slots m zero_slot ≡ get_or p.slots j zero_slot) (omega arith) refl

-- An orphan keeps its range.
pub adopt-owners :
    (x i : ℕ) (p : RebalancePool)
    → i < length p.slots
    → owners x (adopt i p).0.slots ≡ owners x p.slots
unfolding adopt
adopt-owners x i p h =
    let s = get_or p.slots i zero_slot in
    omega (arith, owners-set x i p.slots (record s { claimed = true }) h)

-- A range cut at `m`.
pieces :
    (x m : ℕ) (s : PoolSlot)
    → s.write_pos ≤ m
    → m ≤ s.live_end
    → owns x (record s { live_end = m }) + owns x (record s { write_pos = m }) ≡ owns x s
pieces x m s h k = ground arith

-- The halves of a range have the bytes of the range.
halves :
    (x : ℕ) (progress : Bool) (n : ℕ) (s : PoolSlot)
    → SlotOk s
    → owns x (record s { live_end = midpoint s }) + owns x (added_slot progress n s) ≡ owns x s
halves x progress n s h =
    let e = midpoint_bounds s h in
    pieces x (midpoint s) s (grind (arith, e, h)) (grind (arith, e, h))

pub steal-owners :
    (x v : ℕ) (p : RebalancePool)
    → v < length p.slots
    → PoolOk p
    → owners x (steal v p).0.slots ≡ owners x p.slots
unfolding steal
steal-owners x v p h ok =
    let s = get_or p.slots v zero_slot in
    let ss = set p.slots v (record s { live_end = midpoint s }) in
    let added = added_slot p.reports_progress (length p.slots) s in
    omega (
      arith,
      owners-set x v p.slots (record s { live_end = midpoint s }) h,
      owners-append x ss (added ∷ []),
      halves x p.reports_progress (length p.slots) s (get_or-SlotOk p.slots v ok.each),
    )
