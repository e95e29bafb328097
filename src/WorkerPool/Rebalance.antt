-- ===== src/WorkerPool/Rebalance.antt =====
-- What an idle worker gets from the pool, and that no byte is lost or given to two workers.
use cdm.Prelude.{
  ℕ, ◌+◌, ◌≤◌, ◌<◌, ◌≡◌, refl, subst, inl, inr, ◌⊎◌, true, false, none, some, List, [], ◌∷◌, ◌++◌,
  arith, length, get_or, set, All, All-append, All-map, length-append, length-set, get_or-set_self,
  u64, u64_mod, sub_u64, sym,
}
use cdm.WorkerPool.{
  PoolSlot, zero_slot, RebalancePool, Assignment, remaining, busiest, adopt, steal, acquire,
  midpoint, added_slot,
}
use cdm.WorkerPool.Search.{Found, is_live, busiest-Found, busiest-most, orphan-none, orphan-some}
use cdm.WorkerPool.Owners.{owners, SlotOk, get_or-SlotOk, set-SlotOk, midpoint_bounds}
use cdm.WorkerPool.Acquire.{PoolOk, acquire_cases, whole, adopt-owners, steal-owners}
use cdm.Segmenter.{max_workers}

found_below :
    (p : RebalancePool) (v : ℕ) → (busiest 0 none 0 p.slots).0 ≡ some v → v < length p.slots
found_below p v e =
    let found = busiest-Found p.slots 0 none 0 p.slots (omega arith) (whole p) refl in
    (subst (λ o. Found p.slots o (busiest 0 none 0 p.slots).1) e found).0

adopt-PoolOk : (i : ℕ) (p : RebalancePool) → PoolOk p → PoolOk (adopt i p).0
unfolding adopt
adopt-PoolOk i p ok =
    let s = get_or p.slots i zero_slot in
    record {
      room = omega (arith, ok.room, length-set p.slots i (record s { claimed = true }));
      each =
          set-SlotOk p.slots i (record s { claimed = true }) (get_or-SlotOk p.slots i ok.each)
            ok.each;
    }

midpoint_between :
    (s : PoolSlot) → SlotOk s → (s.write_pos ≤ midpoint s) × (midpoint s ≤ s.live_end)
midpoint_between s h = let e = midpoint_bounds s h in (grind (arith, e, h), grind (arith, e, h))

steal-PoolOk :
    (v : ℕ) (p : RebalancePool) → length p.slots < max_workers → PoolOk p → PoolOk (steal v p).0
unfolding steal
steal-PoolOk v p h ok =
    let s = get_or p.slots v zero_slot in
    let s' = record s { live_end = midpoint s } in
    let added = added_slot p.reports_progress (length p.slots) s in
    let fine = get_or-SlotOk p.slots v ok.each in
    let (lo, hi) = midpoint_between s fine in
    record {
      room =
          omega (arith, h, length-set p.slots v s', length-append (set p.slots v s') (added ∷ []));
      each =
          All-append SlotOk (set p.slots v s') (added ∷ [])
            (set-SlotOk p.slots v s' (lo, omega (arith, hi, fine.1)) ok.each) ((hi, fine.1), tt);
    }

-- `acquire` keeps a pool well-formed, and every byte in as many slots as it was in before.
pub acquire-owners :
    (x : ℕ) (p : RebalancePool)
    → PoolOk p
    → PoolOk (acquire p).0 × (owners x (acquire p).0.slots ≡ owners x p.slots)
acquire-owners x p ok = elim (acquire_cases p) [
  | inl (i, e, r) ↦
      let (below, _, _) = orphan-some p.slots 0 i p.slots (omega arith) (whole p) e in
      subst (λ q. PoolOk q.0 × (owners x q.0.slots ≡ owners x p.slots)) (sym r)
        (adopt-PoolOk i p ok, adopt-owners x i p below)
  | inr (inl (v, e, enough, room, r)) ↦
      subst (λ q. PoolOk q.0 × (owners x q.0.slots ≡ owners x p.slots)) (sym r)
        (steal-PoolOk v p room ok, steal-owners x v p (found_below p v e) ok)
  | inr (inr (e, r, why)) ↦
      subst (λ q. PoolOk q.0 × (owners x q.0.slots ≡ owners x p.slots)) (sym r) (ok, refl)
]

-- The slot of an assignment is the worker's, and has the range that the worker is to fetch.
pub record Holds (p : RebalancePool) (a : Assignment) : Type 0 where
  pub below : a.slot < length p.slots
  pub claimed : (get_or p.slots a.slot zero_slot).claimed ≡ true
  pub exhausted : (get_or p.slots a.slot zero_slot).exhausted ≡ false
  pub starts : a.range.start ≡ (get_or p.slots a.slot zero_slot).write_pos
  pub at_once : a.range.resume_offset ≡ 0
  pub ends : u64 (a.range.end + 1) ≡ (get_or p.slots a.slot zero_slot).live_end
  pub reports : a.progress ≡ (get_or p.slots a.slot zero_slot).progress_slot

-- No slot is an orphan, and none that is worked on is worth a split.
pub record NothingToDo (p : RebalancePool) : Type 0 where
  pub no_orphan : All (λ s. (s.exhausted ≡ true) ⊎ (s.claimed ≡ true)) p.slots
  pub no_victim :
      (max_workers ≤ length p.slots)
      ⊎ All
          (λ s. (is_live s ≡ false) ⊎ ((remaining s ≡ 0) ⊎ (remaining s < p.min_steal_bytes)))
          p.slots

end_wraps : (e : ℕ) → e < u64_mod → u64 (sub_u64 e 1 + 1) ≡ e
end_wraps e h = grind arith

get_or-snoc : (ss : List PoolSlot) (s : PoolSlot) → get_or (ss ++ s ∷ []) (length ss) zero_slot ≡ s
get_or-snoc [] s = refl
get_or-snoc (t ∷ ss) s = get_or-snoc ss s

adopt-Holds :
    (i : ℕ) (p : RebalancePool)
    → PoolOk p
    → i < length p.slots
    → (get_or p.slots i zero_slot).exhausted ≡ false
    → (a : Assignment) × ((adopt i p).1 ≡ some a) × Holds (adopt i p).0 a
unfolding adopt
adopt-Holds i p ok h e =
    let s = get_or p.slots i zero_slot in
    let s' = record s { claimed = true } in
    let same = get_or-set_self p.slots i s' zero_slot h in
    (
      _,
      refl,
      record {
        below = omega (arith, h, length-set p.slots i s');
        claimed = rw same refl;
        exhausted = rw same e;
        starts = rw same refl;
        at_once = refl;
        ends = rw same (end_wraps s.live_end (get_or-SlotOk p.slots i ok.each).1);
        reports = rw same refl;
      },
    )

steal-Holds :
    (v : ℕ) (p : RebalancePool)
    → PoolOk p
    → (a : Assignment) × ((steal v p).1 ≡ some a) × Holds (steal v p).0 a
unfolding steal
steal-Holds v p ok =
    let s = get_or p.slots v zero_slot in
    let s' = record s { live_end = midpoint s } in
    let added = added_slot p.reports_progress (length p.slots) s in
    let ss = set p.slots v s' in
    let same : get_or (ss ++ added ∷ []) (length p.slots) zero_slot ≡ added =
      subst (λ n. get_or (ss ++ added ∷ []) n zero_slot ≡ added) (length-set p.slots v s')
        (get_or-snoc ss added) in
    (
      _,
      refl,
      record {
        below = omega (arith, length-set p.slots v s', length-append ss (added ∷ []));
        claimed = rw same refl;
        exhausted = rw same refl;
        starts = rw same refl;
        at_once = refl;
        ends = rw same (end_wraps s.live_end (get_or-SlotOk p.slots v ok.each).1);
        reports = rw same refl;
      },
    )

nothing_worth :
    (p : RebalancePool)
    → (max_workers ≤ length p.slots)
      ⊎ (((busiest 0 none 0 p.slots).0 ≡ none) ⊎ ((busiest 0 none 0 p.slots).1 < p.min_steal_bytes))
    → (max_workers ≤ length p.slots)
      ⊎ All
          (λ s. (is_live s ≡ false) ⊎ ((remaining s ≡ 0) ⊎ (remaining s < p.min_steal_bytes)))
          p.slots
nothing_worth p (inl full) = inl full
nothing_worth p (inr (inl e)) =
    let found = busiest-Found p.slots 0 none 0 p.slots (omega arith) (whole p) refl in
    let zero_most = subst (λ o. Found p.slots o (busiest 0 none 0 p.slots).1) e found in
    inr (
      All-map _ _ p.slots (λ s h. ground arith)
        (busiest-most 0 0 none 0 p.slots (omega (arith, zero_most))))
nothing_worth p (inr (inr less)) = inr (
    All-map _ _ p.slots (λ s h. ground arith)
      (busiest-most (busiest 0 none 0 p.slots).1 0 none 0 p.slots (omega arith)))

-- `acquire` gives the worker a slot of its own with the range that is left of it; where it gives
-- none, the pool is as it was, no slot lies idle, and either all eight are in use or none that is
-- worked on has anything worth a split.
pub acquire_lem :
    (p : RebalancePool)
    → PoolOk p
    → ((a : Assignment) × ((acquire p).1 ≡ some a) × Holds (acquire p).0 a)
      ⊎ ((acquire p ≡ (p, none)) × NothingToDo p)
acquire_lem p ok = elim (acquire_cases p) [
  | inl (i, e, r) ↦
      let (below, undone, _) = orphan-some p.slots 0 i p.slots (omega arith) (whole p) e in
      inl (
        subst (λ q. (a : Assignment) × (q.1 ≡ some a) × Holds q.0 a) (sym r)
          (adopt-Holds i p ok below undone))
  | inr (inl (v, e, enough, room, r)) ↦
      inl
        (subst (λ q. (a : Assignment) × (q.1 ≡ some a) × Holds q.0 a) (sym r) (steal-Holds v p ok))
  | inr (inr (e, r, why)) ↦
      inr (r, record { no_orphan = orphan-none 0 p.slots e; no_victim = nothing_worth p why })
]
