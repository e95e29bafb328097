-- ===== src/Segmenter.antt =====
-- src/engine/segmenter.c and segmenter.h: the division of a file into byte ranges.
pub mod Cover
mod Tests
use cdm.Prelude.{
  ℕ, zero, suc, ◌+◌, ◌-◌, ◌*◌, ◌/◌, ◌^◌, Bool, true, false, List, [], ◌∷◌, ltb, leb, ◌==◌, ◌||◌,
  if◌then◌else◌, u64, sub_u64,
}

abbrev pub max_workers : ℕ
max_workers = 8

-- Byte positions are uint64_t; `end` is inclusive.
pub record Range : Type 0 where
  pub start : ℕ
  pub end : ℕ
  pub resume_offset : ℕ
  pub whole_file : Bool

-- The body of the loop of `segmenter_plan`, for worker `i` of `n`.
unfoldable pub plan_range : ℕ → ℕ → ℕ → ℕ → Range
plan_range total n chunk i = record {
  start = u64 (i * chunk);
  end = if i == n - 1 then sub_u64 total 1 else sub_u64 (u64 ((i + 1) * chunk)) 1;
  resume_offset = 0;
  whole_file = false;
}

-- The loop: `left` rounds are left, the next one is round `i`.
unfoldable pub plan_loop : ℕ → ℕ → ℕ → ℕ → ℕ → List Range
plan_loop total n chunk zero i = []
plan_loop total n chunk (suc left) i =
    plan_range total n chunk i ∷ plan_loop total n chunk left (i + 1)

-- `n_workers` is an int; a negative one is treated as 0 is, so it is a number here.
unfoldable pub segmenter_plan : ℕ → ℕ → List Range
segmenter_plan total n_workers =
    if total == 0 || n_workers == 0
    then []
    else (let n = if ltb total n_workers then total else n_workers in
        plan_loop total n (total / n) n 0)

abbrev pub one_mb : ℕ
one_mb = 1024 * 1024

unfoldable pub choose_worker_count : ℕ → ℕ
choose_worker_count total =
    if total == 0
    then 1
    else if ltb total one_mb
    then 1
    else if ltb total (20 * one_mb)
    then 4
    else 8
