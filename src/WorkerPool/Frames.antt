-- ===== src/WorkerPool/Frames.antt =====
-- What `acquire` leaves as it was.
use cdm.Prelude.{
  ℕ, ◌≤◌, ◌<◌, ◌≡◌, ◌≢◌, refl, subst, sym, inl, inr, ◌⊎◌, Bool, true, false, Option, none, some,
  List, [], ◌∷◌, arith, length, get_or, set, length-set, length-append, get_or-set_self,
  get_or-set_ne, get_or-append, Bool-cases, eq_of_beq, ◌==◌,
}
use cdm.WorkerPool.{
  PoolSlot, zero_slot, RebalancePool, Assignment, adopt, steal, acquire, midpoint, added_slot,
  busiest,
}
use cdm.WorkerPool.Search.{is_live, Found, busiest-Found, orphan-some}
use cdm.WorkerPool.Acquire.{acquire_cases, whole}

abbrev pub slot_at : RebalancePool → ℕ → PoolSlot
slot_at p i = get_or p.slots i zero_slot

-- What other workers rely on of a slot.
pub record Kept (s s' : PoolSlot) : Type 0 where
  pub position : s'.write_pos ≡ s.write_pos
  pub exhausted : s'.exhausted ≡ s.exhausted
  pub live : (is_live s ≡ false) ⊎ (is_live s' ≡ true)
  pub end_kept : (s.exhausted ≡ false) ⊎ (s'.live_end ≡ s.live_end)

-- `acquire` on `p` answered `q`.
pub record Frame (p : RebalancePool) (q : RebalancePool × Option Assignment) : Type 0 where
  pub grows : length p.slots ≤ length q.0.slots
  pub kept : (i : ℕ) → i < length p.slots → Kept (slot_at p i) (slot_at q.0 i)
  pub new :
      (i : ℕ)
      → i < length q.0.slots
      → (i < length p.slots) ⊎ ((a : Assignment) × (q.1 ≡ some a) × (a.slot ≡ i))
  pub fresh :
      (a : Assignment)
      → q.1 ≡ some a
      → (length p.slots ≤ a.slot)
        ⊎ (((slot_at p a.slot).claimed ≡ false) × ((slot_at p a.slot).exhausted ≡ false))

either : (b : Bool) → (b ≡ false) ⊎ (b ≡ true)
either true = inr refl
either false = inl refl

pub unclaimed_idle : (s : PoolSlot) → s.claimed ≡ false → is_live s ≡ false
unclaimed_idle s h = ground arith

pub undone : (s : PoolSlot) → is_live s ≡ true → s.exhausted ≡ false
undone s h = ground arith

pub Kept-refl : (s : PoolSlot) → Kept s s
Kept-refl s = record {
  position = refl;
  exhausted = refl;
  live = either (is_live s);
  end_kept = inr refl;
}

pub eq_cases : (i j : ℕ) → (i ≡ j) ⊎ (i ≢ j)
eq_cases i j = elim (Bool-cases (i == j)) [
  | inl e ↦ inl (eq_of_beq i j e)
  | inr ne ↦ inr (λ e. ground arith)
]

-- A write to one slot of a list.
pub Kept-set :
    (ss : List PoolSlot) (k i : ℕ) (s : PoolSlot)
    → k < length ss
    → Kept (get_or ss k zero_slot) s
    → Kept (get_or ss i zero_slot) (get_or (set ss k s) i zero_slot)
Kept-set ss k i s h kept = elim (eq_cases k i) [
  | inl e ↦
      subst (λ j. Kept (get_or ss j zero_slot) (get_or (set ss k s) j zero_slot)) e
        (subst (Kept (get_or ss k zero_slot)) (sym (get_or-set_self ss k s zero_slot h)) kept)
  | inr ne ↦
      subst (Kept (get_or ss i zero_slot)) (sym (get_or-set_ne ss k i s zero_slot ne)) (Kept-refl _)
]

pub some_eq : {a b : Assignment} → some a ≡ some b → a ≡ b
some_eq e = cc e

adopt-Frame :
    (i : ℕ) (p : RebalancePool)
    → i < length p.slots
    → (slot_at p i).exhausted ≡ false
    → (slot_at p i).claimed ≡ false
    → Frame p (adopt i p)
unfolding adopt
adopt-Frame i p h e c =
    let s = slot_at p i in
    let s' = record s { claimed = true } in
    record {
      grows = omega (arith, length-set p.slots i s');
      kept = λ j k. Kept-set p.slots i j s' h (record {
        position = refl;
        exhausted = refl;
        live = inl (unclaimed_idle s c);
        end_kept = inr refl;
      });
      new = λ j k. inl (omega (arith, k, length-set p.slots i s'));
      fresh = λ a q. inr (
          subst (λ b. ((slot_at p b.slot).claimed ≡ false) × ((slot_at p b.slot).exhausted ≡ false))
            (some_eq q) (c, e));
    }

steal-Frame :
    (v : ℕ) (p : RebalancePool)
    → v < length p.slots
    → (slot_at p v).exhausted ≡ false
    → Frame p (steal v p)
unfolding steal
steal-Frame v p h e =
    let s = slot_at p v in
    let s' = record s { live_end = midpoint s } in
    let added = added_slot p.reports_progress (length p.slots) s in
    let ss = set p.slots v s' in
    let len = length-append ss (added ∷ []) in
    record {
      grows = omega (arith, length-set p.slots v s', len);
      kept = λ j k.
          subst (Kept (slot_at p j))
            (sym (
              get_or-append ss (added ∷ []) j zero_slot
                (omega (arith, k, length-set p.slots v s'))))
            (Kept-set p.slots v j s' h (record {
              position = refl;
              exhausted = refl;
              live = either (is_live s);
              end_kept = inl e;
            }));
      new = λ j k. elim (eq_cases j (length p.slots)) [
        | inl last ↦ inr (_, refl, sym last)
        | inr other ↦ inl (omega (arith, k, other, len, length-set p.slots v s'))
      ];
      fresh = λ a q.
          inl (subst (λ (b : Assignment). length p.slots ≤ b.slot) (some_eq q) (omega arith));
    }

none_fresh : {a : Assignment} {P : Type 0} → none ≡ some a → P
none_fresh q = cc q

pub acquire-Frame : (p : RebalancePool) → Frame p (acquire p)
acquire-Frame p = elim (acquire_cases p) [
  | inl (i, e, r) ↦
      let (below, undone, unclaimed) = orphan-some p.slots 0 i p.slots (omega arith) (whole p) e in
      subst (Frame p) (sym r) (adopt-Frame i p below undone unclaimed)
  | inr (inl (v, e, enough, room, r)) ↦
      let found = busiest-Found p.slots 0 none 0 p.slots (omega arith) (whole p) refl in
      let (below, _, _, live) = subst (λ o. Found p.slots o (busiest 0 none 0 p.slots).1) e found in
      subst (Frame p) (sym r) (steal-Frame v p below (undone (slot_at p v) live))
  | inr (inr (e, r, why)) ↦ subst (Frame p) (sym r) (record {
    grows = omega arith;
    kept = λ i h. Kept-refl _;
    new = λ i h. inl h;
    fresh = λ a q. none_fresh q;
  })
]
