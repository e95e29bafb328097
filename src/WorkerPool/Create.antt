-- ===== src/WorkerPool/Create.antt =====
-- The pool that the engine makes from a plan: every byte of the file has exactly one slot.
use cdm.Prelude.{
  ℕ, zero, suc, ◌+◌, ◌≤◌, ◌<◌, ◌≡◌, refl, Bool, ◌&&◌, List, [], ◌∷◌, ◌/◌, ap, u64, arith, length,
  take, leb, ltb, if◌then◌else◌, u64_mod, All,
}
use cdm.Segmenter.{Range, segmenter_plan, plan_range, plan_loop, choose_worker_count, max_workers}
use cdm.Segmenter.Cover.{
  Tiles, segmenter_plan-Tiles, length-plan-le-max_workers, choose_worker_count_bounds,
}
use cdm.WorkerPool.{slot_of, create_loop, create}
use cdm.WorkerPool.Owners.{owns, owners, SlotOk}
use cdm.WorkerPool.Acquire.{PoolOk}

abbrev pub Fresh : List Range → Type 0
Fresh = All (λ r. r.resume_offset ≡ 0)

plan_loop-Fresh : (total n chunk left i : ℕ) → Fresh (plan_loop total n chunk left i)
unfolding plan_loop plan_range
plan_loop-Fresh total n chunk zero i = tt
plan_loop-Fresh total n chunk (suc left) i = (refl, plan_loop-Fresh total n chunk left (i + 1))

pub segmenter_plan-Fresh : (total n : ℕ) → Fresh (segmenter_plan total n)
unfolding segmenter_plan
segmenter_plan-Fresh total n = ground (
  arith,
  plan_loop-Fresh total total (total / total) total 0,
  plan_loop-Fresh total n (total / n) n 0,
)

pub Tiles-le : (lo hi : ℕ) (rs : List Range) → Tiles lo hi rs → lo ≤ hi
Tiles-le lo hi [] t = omega (arith, t)
Tiles-le lo hi (r ∷ rs) (s, k, t) = omega (arith, s, k, Tiles-le (r.end + 1) hi rs t)

module _ (x hi : ℕ) (progress : Bool) (bound : hi < u64_mod) where
  owns-slot_of :
      (i : ℕ) (r : Range)
      → r.resume_offset ≡ 0
      → r.start ≤ r.end
      → r.end + 1 ≤ hi
      → owns x (slot_of progress i r) ≡ (if leb r.start x && ltb x (r.end + 1) then 1 else 0)
  unfolding slot_of
  owns-slot_of i r z h k =
      let e : u64 (r.start + r.resume_offset) ≡ r.start = grind (arith, z, h, k) in
      let e' : u64 (r.end + 1) ≡ r.end + 1 = grind (arith, k) in rw (e, e') refl

  create_loop-owners :
      (i lo : ℕ) (rs : List Range)
      → Fresh rs
      → Tiles lo hi rs
      → owners x (create_loop progress i rs) ≡ (if leb lo x && ltb x hi then 1 else 0)
  unfolding create_loop
  create_loop-owners i lo [] f t = ground arith
  create_loop-owners i lo (r ∷ rs) (z, f) (s, k, t) =
      let le = Tiles-le (r.end + 1) hi rs t in
      let here = owns-slot_of i r z k le in
      let rest = create_loop-owners (i + 1) (r.end + 1) rs f t in
      ground (arith, here, rest, s, k, le)

  create_loop-SlotOk :
      (i lo : ℕ) (rs : List Range)
      → Fresh rs
      → Tiles lo hi rs
      → All SlotOk (create_loop progress i rs)
  unfolding create_loop slot_of
  create_loop-SlotOk i lo [] f t = tt
  create_loop-SlotOk i lo (r ∷ rs) (z, f) (s, k, t) =
      let le = Tiles-le (r.end + 1) hi rs t in
      (
        (grind (arith, z, k, le), grind (arith, z, k, le)),
        create_loop-SlotOk (i + 1) (r.end + 1) rs f t,
      )

pub length-create_loop :
    (progress : Bool) (i : ℕ) (rs : List Range) → length (create_loop progress i rs) ≡ length rs
unfolding create_loop
length-create_loop progress i [] = refl
length-create_loop progress i (r ∷ rs) = ap suc (length-create_loop progress (i + 1) rs)

pub take_all : (n : ℕ) (rs : List Range) → length rs ≤ n → take n rs ≡ rs
take_all zero [] h = refl
take_all zero (r ∷ rs) h = absurd (omega arith)
take_all (suc n) [] h = refl
take_all (suc n) (r ∷ rs) h = ap (λ t. r ∷ t) (take_all n rs (omega arith))

-- The pool made from the plan for a file of `total` bytes, at most 2 ^ 64 - 1 and not 0, is
-- well-formed, and the bytes of the file, no others, belong to one slot each.
pub create-owners :
    (x total : ℕ) (progress : Bool) (min_steal : ℕ)
    → total < u64_mod
    → 0 < total
    → let p = create (segmenter_plan total (choose_worker_count total)) progress min_steal in
      PoolOk p × (owners x p.slots ≡ (if ltb x total then 1 else 0))
unfolding create
create-owners x total progress min_steal bound some_bytes =
    let rs = segmenter_plan total (choose_worker_count total) in
    let short = length-plan-le-max_workers total in
    let (workers, _, _) = choose_worker_count_bounds total total (omega arith) in
    let (tiles, _) =
      segmenter_plan-Tiles total (choose_worker_count total) bound some_bytes workers in
    let fresh = segmenter_plan-Fresh total (choose_worker_count total) in
    rw (take_all max_workers rs short) (
      record {
        room = omega (arith, short, length-create_loop progress 0 rs);
        each = create_loop-SlotOk x total progress bound 0 0 rs fresh tiles;
      },
      ground (arith, create_loop-owners x total progress bound 0 0 rs fresh tiles),
    )
