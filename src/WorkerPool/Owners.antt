-- ===== src/WorkerPool/Owners.antt =====
-- Which bytes the slots of a pool still have to fetch: a byte belongs to every slot whose range
-- [write_pos, live_end) it stands in.
use cdm.Prelude.{
  ℕ, zero, suc, ◌+◌, ◌-◌, ◌/◌, ◌≤◌, ◌<◌, ◌≡◌, ◌&&◌, List, [], ◌∷◌, ◌++◌, arith, length, get_or, set,
  ltb, leb, if◌then◌else◌, u64_mod, All,
}
use cdm.WorkerPool.{PoolSlot, zero_slot, midpoint}

-- 1 where byte `x` belongs to the slot, else 0.
abbrev pub owns : ℕ → PoolSlot → ℕ
owns x s = if leb s.write_pos x && ltb x s.live_end then 1 else 0

-- The number of slots that byte `x` belongs to.
abbrev pub owners : ℕ → List PoolSlot → ℕ
owners x [] = 0
owners x (s ∷ ss) = owns x s + owners x ss

pub owners-append :
    (x : ℕ) (ss ts : List PoolSlot) → owners x (ss ++ ts) ≡ owners x ss + owners x ts
owners-append x [] ts = omega arith
owners-append x (s ∷ ss) ts = omega (arith, owners-append x ss ts)

pub owners-set :
    (x i : ℕ) (ss : List PoolSlot) (s : PoolSlot)
    → i < length ss
    → owners x (set ss i s) + owns x (get_or ss i zero_slot) ≡ owners x ss + owns x s
owners-set x i [] s h = elim h [ ]
owners-set x zero (t ∷ ss) s h = omega arith
owners-set x (suc i) (t ∷ ss) s h = omega (arith, owners-set x i ss s (omega arith))

-- A slot's numbers, as the code keeps them.
abbrev pub SlotOk : PoolSlot → Type 0
SlotOk s = (s.write_pos ≤ s.live_end) × (s.live_end < u64_mod)

pub get_or-SlotOk : (ss : List PoolSlot) (i : ℕ) → All SlotOk ss → SlotOk (get_or ss i zero_slot)
get_or-SlotOk [] i h = (omega arith, omega arith)
get_or-SlotOk (s ∷ ss) zero h = h.0
get_or-SlotOk (s ∷ ss) (suc i) h = get_or-SlotOk ss i h.1

pub set-SlotOk :
    (ss : List PoolSlot) (i : ℕ) (s : PoolSlot) → SlotOk s → All SlotOk ss → All SlotOk (set ss i s)
set-SlotOk [] i s h hs = tt
set-SlotOk (t ∷ ss) zero s h hs = (h, hs.1)
set-SlotOk (t ∷ ss) (suc i) s h hs = (hs.0, set-SlotOk ss i s h hs.1)

-- The midpoint halves what is left, the greater half to the right.
pub midpoint_bounds :
    (s : PoolSlot) → SlotOk s → midpoint s ≡ s.write_pos + (s.live_end - s.write_pos) / 2
midpoint_bounds s h = grind arith
