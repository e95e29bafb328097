-- ===== src/WorkerPool/Complete.antt =====
-- A crew whose threads all end well has fetched the whole file, each byte once.
use cdm.Prelude.{
  ℕ, zero, suc, ◌+◌, ◌≤◌, ◌<◌, ◌≡◌, refl, subst, sym, ◌∙◌, inl, inr, Bool, true, false, ◌&&◌, List,
  [], ◌∷◌, arith, length, get_or, ltb, if◌then◌else◌, u64_mod,
}
use cdm.Segmenter.{Range, max_workers, segmenter_plan, choose_worker_count}
use cdm.WorkerPool.{PoolSlot, zero_slot, RebalancePool, create, create_loop}
use cdm.WorkerPool.Owners.{owners}
use cdm.WorkerPool.Acquire.{PoolOk}
use cdm.WorkerPool.Create.{create-owners, take_all, Fresh, Tiles-le, segmenter_plan-Fresh}
use cdm.Segmenter.Cover.{
  Tiles, segmenter_plan-Tiles, length-plan-le-max_workers, choose_worker_count_bounds,
}
use cdm.WorkerPool.Frames.{slot_at}
use cdm.WorkerPool.Sound.{covered, clash, differ, unfinished, Sound}
use cdm.WorkerPool.Keeps.{crew-Reach-Sound}
use cdm.WorkerPool.Started.{Bounded, start-Sound}
use cdm.WorkerPool.Crew.{
  Member, Crew, no_member, deliver, finish, start_loop, start_crew, delivers, finishes, Reach, here,
  next, join_loop, all_succeeded,
}

-- Creation is settled at the start.
all_created-Reach : {c d : Crew} → Reach c d → d.all_created ≡ c.all_created
unfolding deliver finish
all_created-Reach here = refl
all_created-Reach (next r (delivers a n k c run)) = all_created-Reach r
all_created-Reach (next r (finishes a k c run)) = all_created-Reach r

join_loop-finished :
    (ms : List Member) (k : ℕ) → join_loop ms ≡ true → unfinished (get_or ms k no_member) ≡ false
unfolding join_loop
join_loop-finished [] k h = refl
join_loop-finished (m ∷ ms) zero h = ground (arith, h)
join_loop-finished (m ∷ ms) (suc k) h = join_loop-finished ms k (ground (arith, h))

owners-zero :
    (x : ℕ) (ss : List PoolSlot)
    → ((i : ℕ)
        → i < length ss
        → (get_or ss i zero_slot).write_pos ≡ (get_or ss i zero_slot).live_end)
    → owners x ss ≡ 0
owners-zero x [] h = refl
owners-zero x (s ∷ ss) h =
    let first : s.write_pos ≡ s.live_end = h zero (omega arith) in
    let rest = owners-zero x ss (λ i k. h (suc i) (omega arith)) in ground (arith, first, rest)

both : {a b : Bool} → (a && b) ≡ true → (a ≡ true) × (b ≡ true)
both h = ground (arith, h)

Sound-finished :
    (x total : ℕ) (d : Crew)
    → Sound x total d
    → join_loop d.members ≡ true
    → covered x d.log ≡ total
Sound-finished x total d s joined =
    let drained : (i : ℕ)
        → i < length d.pool.slots
        → (slot_at d.pool i).write_pos ≡ (slot_at d.pool i).live_end =
      λ i h. elim (s.manned i h) [
        | inl done ↦ clash done (s.drained i)
        | inr (k, _, u) ↦ absurd (differ u (join_loop-finished d.members k joined))
      ] in
    omega (arith, s.saved, owners-zero x d.pool.slots drained)

create-eq :
    (rs : List Range) (progress : Bool) (min_steal : ℕ)
    → length rs ≤ max_workers
    → create rs progress min_steal ≡ record {
      slots = create_loop progress 0 rs;
      min_steal_bytes = min_steal;
      reports_progress = progress;
    }
unfolding create
create-eq rs progress min_steal h = rw (take_all max_workers rs h) refl

start_all :
    (n : ℕ) (progress : Bool) (min_steal : ℕ) (created : ℕ → Bool) (rs : List Range)
    → (start_loop n created progress 0 rs).1
      ≡ (start_crew
          (record {
            slots = create_loop progress 0 rs;
            min_steal_bytes = min_steal;
            reports_progress = progress;
          })
          n
          created
          rs).all_created
unfolding start_crew
start_all n progress min_steal created rs = refl

-- For a crew that starts on at most eight ranges whose starts do not wrap, through every
-- interleaving of the threads: if every thread is created and ends well, the writes cover each byte
-- as often as it was in a slot of the pool at the start.
pub crew_complete :
    (x n min_steal : ℕ) (created : ℕ → Bool) (progress : Bool) (rs : List Range) (d : Crew)
    → length rs ≤ max_workers
    → Bounded rs
    → PoolOk (create rs progress min_steal)
    → Reach (start_crew (create rs progress min_steal) n created rs) d
    → all_succeeded d ≡ true
    → covered x d.log ≡ owners x (create rs progress min_steal).slots
unfolding all_succeeded start_crew
crew_complete x n min_steal created progress rs d short bounded ok reach good =
    let e = create-eq rs progress min_steal short in
    let (made, joined) = both good in
    let reach' = subst (λ p. Reach (start_crew p n created rs) d) e reach in
    let all : (start_loop n created progress 0 rs).1 ≡ true =
      start_all n progress min_steal created rs ∙ sym (all_created-Reach reach') ∙ made in
    let sound =
      start-Sound x n min_steal created progress rs short bounded all (subst PoolOk e ok) in
    subst (λ (p : RebalancePool). covered x d.log ≡ owners x p.slots) (sym e)
      (Sound-finished x _ d (crew-Reach-Sound x _ reach' sound) joined)

Tiles-Bounded :
    (lo hi : ℕ) (rs : List Range) → hi < u64_mod → Fresh rs → Tiles lo hi rs → Bounded rs
Tiles-Bounded lo hi [] h f t = tt
Tiles-Bounded lo hi (r ∷ rs) h (z, f) (s, k, t) =
    (omega (arith, h, z, k, Tiles-le (r.end + 1) hi rs t), Tiles-Bounded (r.end + 1) hi rs h f t)

-- For a file of `total` bytes, at most 2 ^ 64 - 1 and not 0, whose plan is given to a crew of
-- threads, through every interleaving of their callbacks, ends and splits: if the run succeeds, each
-- byte of the file has been written exactly once by the writes that the file answers as complete, and
-- no byte behind its end.
pub plan_complete :
    (x total min_steal : ℕ) (created : ℕ → Bool) (progress : Bool) (d : Crew)
    → total < u64_mod
    → 0 < total
    → (let n = choose_worker_count total in
        let rs = segmenter_plan total n in
        Reach (start_crew (create rs progress min_steal) (length rs) created rs) d)
    → all_succeeded d ≡ true
    → covered x d.log ≡ (if ltb x total then 1 else 0)
plan_complete x total min_steal created progress d bound some_bytes reach good =
    let n = choose_worker_count total in
    let rs = segmenter_plan total n in
    let (workers, _, _) = choose_worker_count_bounds total total (omega arith) in
    let (tiles, _) = segmenter_plan-Tiles total n bound some_bytes workers in
    let (ok, owned) = create-owners x total progress min_steal bound some_bytes in
    crew_complete x (length rs) min_steal created progress rs d (length-plan-le-max_workers total)
      (Tiles-Bounded 0 total rs bound (segmenter_plan-Fresh total n) tiles) ok reach good
    ∙ owned
