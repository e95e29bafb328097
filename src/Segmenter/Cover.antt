-- ===== src/Segmenter/Cover.antt =====
-- The ranges of a plan tile the file: no gap, no overlap, no empty range, and no wrap-around.
use cdm.Prelude.{
  ℕ, zero, suc, ◌+◌, ◌*◌, ◌/◌, ◌≤◌, ◌<◌, ◌≡◌, refl, inl, inr, List, [], ◌∷◌, arith, length, min,
  u64_mod, ltb, Bool-cases,
}
use cdm.Segmenter.{Range, plan_range, plan_loop, segmenter_plan, choose_worker_count, max_workers}

-- `rs` are nonempty ranges that cover the bytes from `lo` up to `hi`, each starting where the one
-- before it ends.
abbrev pub Tiles : ℕ → ℕ → List Range → Type 0
Tiles lo hi [] = lo ≡ hi
Tiles lo hi (r ∷ rs) = (r.start ≡ lo) × (r.start ≤ r.end) × Tiles (r.end + 1) hi rs

chunk_pos : (total n : ℕ) → 0 < n → n ≤ total → 0 < total / n
chunk_pos total n h k = grind arith

chunk_fits : (total n : ℕ) → 0 < n → n * (total / n) ≤ total
chunk_fits total n h = grind arith

module _ (total n chunk : ℕ) (bound : total < u64_mod) (pos : 0 < chunk)
    (fits : n * chunk ≤ total) where
  -- Round `i` starts inside the file, with room for its chunk.
  round_fits : (i : ℕ) → i < n → i * chunk + chunk ≤ total
  round_fits i h = grind arith

  last_range : (i : ℕ) → i + 1 ≡ n → Tiles (i * chunk) total (plan_range total n chunk i ∷ [])
  unfolding plan_range
  last_range i e = ground (arith, round_fits i)

  inner_range :
      (i : ℕ)
      → i + 1 < n
      → let r = plan_range total n chunk i in
        (r.start ≡ i * chunk) × (r.start ≤ r.end) × (r.end + 1 ≡ (i + 1) * chunk)
  unfolding plan_range
  inner_range i h = ground (arith, round_fits i, round_fits (i + 1))

  plan_loop-Tiles :
      (left i : ℕ)
      → i + suc left ≡ n
      → Tiles (i * chunk) total (plan_loop total n chunk (suc left) i)
  unfolding plan_loop
  plan_loop-Tiles zero i e = last_range i (omega arith)
  plan_loop-Tiles (suc left) i e =
      let (starts, nonempty, ends) = inner_range i (omega arith) in
      (starts, nonempty, rw ends (plan_loop-Tiles left (i + 1) (omega arith)))

length-plan_loop : (total n chunk left i : ℕ) → length (plan_loop total n chunk left i) ≡ left
unfolding plan_loop
length-plan_loop total n chunk zero i = refl
length-plan_loop total n chunk (suc left) i =
    omega (arith, length-plan_loop total n chunk left (i + 1))

plan-Tiles :
    (total n : ℕ)
    → total < u64_mod
    → 0 < n
    → n ≤ total
    → Tiles 0 total (plan_loop total n (total / n) n 0)
plan-Tiles total zero bound pos k = absurd (omega arith)
plan-Tiles total (suc m) bound pos k =
    let from_zero : 0 * (total / suc m) ≡ 0 = omega arith in
    rw from_zero at (
      plan_loop-Tiles total (suc m) (total / suc m) bound (chunk_pos total (suc m) pos k)
        (chunk_fits total (suc m) pos) m 0 (omega arith))

-- A plan for a file of `total` bytes, at most 2 ^ 64 - 1 and not 0, and a worker count that is not
-- 0 tiles the file: its nonempty ranges cover the bytes 0 to total - 1, in order, with no gap and
-- no overlap. It has as many ranges as workers were asked for, or as the file has bytes where that
-- is less.
pub segmenter_plan-Tiles :
    (total n : ℕ)
    → total < u64_mod
    → 0 < total
    → 0 < n
    → Tiles 0 total (segmenter_plan total n) × (length (segmenter_plan total n) ≡ min n total)
unfolding segmenter_plan
segmenter_plan-Tiles total n bound some_bytes some_workers = elim (Bool-cases (ltb total n)) [
  | inl more ↦ ground (
    arith,
    plan-Tiles total total bound some_bytes,
    length-plan_loop total total (total / total) total 0,
  )
  | inr fewer ↦
      ground
        (arith, plan-Tiles total n bound some_workers, length-plan_loop total n (total / n) n 0)
]

-- The heuristic asks for one to eight workers, and for no fewer when the file is larger.
pub choose_worker_count_bounds :
    (small large : ℕ)
    → small ≤ large
    → (1 ≤ choose_worker_count small)
      × (choose_worker_count large ≤ max_workers)
      × (choose_worker_count small ≤ choose_worker_count large)
unfolding choose_worker_count
choose_worker_count_bounds small large h = ground arith

length-segmenter_plan-le : (total n : ℕ) → length (segmenter_plan total n) ≤ n
unfolding segmenter_plan
length-segmenter_plan-le total n = ground (
  arith,
  length-plan_loop total total (total / total) total 0,
  length-plan_loop total n (total / n) n 0,
)

-- The plan that the engine asks for fits the array of eight ranges that it is written to.
pub length-plan-le-max_workers :
    (total : ℕ) → length (segmenter_plan total (choose_worker_count total)) ≤ max_workers
length-plan-le-max_workers total = omega (
  arith,
  length-segmenter_plan-le total (choose_worker_count total),
  choose_worker_count_bounds total total (omega arith),
)
