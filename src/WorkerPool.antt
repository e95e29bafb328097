-- ===== src/WorkerPool.antt =====
-- src/engine/worker_pool.c: the rebalance pool. A pool divides a file between its slots; an idle
-- worker takes the second half of the slot that has the most left. `acquire` holds the pool's mutex.
pub mod Worker
pub mod Search
pub mod Owners
pub mod Acquire
pub mod Rebalance
pub mod Writes
pub mod Rounds
pub mod Create
pub mod Crew
pub mod Frames
pub mod Local
pub mod Sound
pub mod Keeps
pub mod Started
pub mod Complete
mod Tests
mod CrewTests
use cdm.Prelude.{
  ℕ, zero, suc, ◌+◌, ◌-◌, ◌/◌, Bool, true, false, not, ◌&&◌, ◌||◌, Option, none, some, List, [],
  ◌∷◌, ◌++◌, ltb, leb, if◌then◌else◌, take, length, get_or, set, u64, sub_u64,
}
use cdm.Segmenter.{Range}
use cdm.Segmenter

-- `progress_slot` is a pointer into the array of the chunks' counters, by its index.
pub record PoolSlot : Type 0 where
  pub start : ℕ
  pub write_pos : ℕ
  pub live_end : ℕ
  pub claimed : Bool
  pub exhausted : Bool
  pub progress_slot : Option ℕ

-- What `calloc` leaves in a slot that is not in use.
abbrev pub zero_slot : PoolSlot
zero_slot = record {
  start = 0;
  write_pos = 0;
  live_end = 0;
  claimed = false;
  exhausted = false;
  progress_slot = none;
}

-- The slots below `slot_count`; `reports_progress` is `progress_slots != NULL`.
pub record RebalancePool : Type 0 where
  pub slots : List PoolSlot
  pub min_steal_bytes : ℕ
  pub reports_progress : Bool

unfoldable pub slot_of : Bool → ℕ → Range → PoolSlot
slot_of progress i r = record {
  start = u64 (r.start + r.resume_offset);
  write_pos = u64 (r.start + r.resume_offset);
  live_end = u64 (r.end + 1);
  claimed = true;
  exhausted = false;
  progress_slot = if progress then some i else none;
}

unfoldable pub create_loop : Bool → ℕ → List Range → List PoolSlot
create_loop progress i [] = []
create_loop progress i (r ∷ rs) = slot_of progress i r ∷ create_loop progress (i + 1) rs

unfoldable pub create : List Range → Bool → ℕ → RebalancePool
create ranges progress min_steal = record {
  slots = create_loop progress 0 (take Segmenter.max_workers ranges);
  min_steal_bytes = min_steal;
  reports_progress = progress;
}

-- The arguments of the call of `on_split`.
pub record Split : Type 0 where
  pub victim_start : ℕ
  pub new_start : ℕ
  pub new_end : ℕ

-- What `acquire` returns: the slot, `out_range`, `out_progress_slot`, and its call of `on_split`.
pub record Assignment : Type 0 where
  pub slot : ℕ
  pub range : Range
  pub progress : Option ℕ
  pub split : Option Split

-- The first slot that nobody works on.
unfoldable pub orphan : ℕ → List PoolSlot → Option ℕ
orphan i [] = none
orphan i (s ∷ ss) =
    let later = orphan (i + 1) ss in if not s.exhausted && not s.claimed then some i else later

unfoldable pub remaining : PoolSlot → ℕ
remaining s = if ltb s.write_pos s.live_end then s.live_end - s.write_pos else 0

-- The loop for `victim` and `victim_remaining`, from slot `i` on.
unfoldable pub busiest : ℕ → Option ℕ → ℕ → List PoolSlot → Option ℕ × ℕ
unfolding remaining
busiest i victim most [] = (victim, most)
busiest i victim most (s ∷ ss) =
    if not s.exhausted && (s.claimed && ltb most (remaining s))
    then busiest (i + 1) (some i) (remaining s) ss
    else busiest (i + 1) victim most ss

abbrev pub whole_slot : PoolSlot → Range
whole_slot s = record {
  start = s.write_pos;
  end = sub_u64 s.live_end 1;
  resume_offset = 0;
  whole_file = false;
}

unfoldable pub adopt : ℕ → RebalancePool → RebalancePool × Option Assignment
adopt i p =
    let s = get_or p.slots i zero_slot in
    (
      record p { slots = set p.slots i (record s { claimed = true }) },
      some (record { slot = i; range = whole_slot s; progress = s.progress_slot; split = none }),
    )

abbrev pub midpoint : PoolSlot → ℕ
midpoint s = u64 (s.write_pos + sub_u64 s.live_end s.write_pos / 2)

abbrev pub added_slot : Bool → ℕ → PoolSlot → PoolSlot
added_slot progress n v = record {
  start = midpoint v;
  write_pos = midpoint v;
  live_end = v.live_end;
  claimed = true;
  exhausted = false;
  progress_slot = if progress then some n else none;
}

-- The third part of `acquire`, for the slot `victim`.
unfoldable pub steal : ℕ → RebalancePool → RebalancePool × Option Assignment
steal victim p =
    let v = get_or p.slots victim zero_slot in
    let n = length p.slots in
    let added = added_slot p.reports_progress n v in
    (
      record p { slots = set p.slots victim (record v { live_end = midpoint v }) ++ (added ∷ []) },
      some (record {
        slot = n;
        range = whole_slot added;
        progress = added.progress_slot;
        split =
            some (record { victim_start = v.start; new_start = midpoint v; new_end = v.live_end });
      }),
    )

-- The end of `acquire`, for the results `victim` and `victim_remaining` of the search.
unfoldable pub steal_from : Option ℕ → ℕ → RebalancePool → RebalancePool × Option Assignment
steal_from none most p = (p, none)
steal_from (some v) most p =
    if ltb most p.min_steal_bytes || leb Segmenter.max_workers (length p.slots)
    then (p, none)
    else steal v p

unfoldable pub acquire : RebalancePool → RebalancePool × Option Assignment
unfolding steal_from
acquire p = elim (orphan 0 p.slots) [
  | some i ↦ adopt i p
  | none ↦ let (victim, most) = busiest 0 none 0 p.slots in steal_from victim most p
]

unfoldable pub mark_done : ℕ → RebalancePool → RebalancePool
mark_done i p = record p {
  slots = set p.slots i (record (get_or p.slots i zero_slot) { exhausted = true; claimed = false });
}
