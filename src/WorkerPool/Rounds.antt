-- ===== src/WorkerPool/Rounds.antt =====
-- The end of a round of a worker's loop: what a request that is judged a success has fetched, and
-- what the pool hands out next.
use cdm.Prelude.{
  ℕ, ◌+◌, ◌-◌, ◌≤◌, ◌<◌, ◌≡◌, refl, subst, sym, ◌∙◌, inl, inr, ◌⊎◌, Bool, true, false, ◌&&◌, arith,
  length, get_or, ltb, if◌then◌else◌, length-set, u64, u64_mod, Bool-cases, eq_of_beq,
}
use cdm.WorkerPool.{zero_slot, RebalancePool, mark_done, acquire}
use cdm.WorkerPool.Worker.{
  Work, Response, intended_offset, expected_bytes, segment_succeeded, next_segment,
  worker_continues,
}
use cdm.WorkerPool.Owners.{owners, owners-set, get_or-SlotOk, set-SlotOk}
use cdm.WorkerPool.Acquire.{PoolOk}
use cdm.WorkerPool.Rebalance.{acquire-owners, acquire_lem}
use cdm.WorkerPool.Writes.{own_slot, Linked}

drained_nums :
    (start offset done pos end : ℕ)
    → start + offset + done ≡ pos
    → (pos ≤ end) × (end < u64_mod)
    → done ≡ (if ltb (u64 (start + offset)) end then end - u64 (start + offset) else 0)
    → pos ≡ end
drained_nums start offset done pos end e h k =
    let no_wrap : u64 (start + offset) ≡ start + offset = grind (arith, e, h) in ground arith

middle : (a b c : Bool) → (a && (b && c)) ≡ true → b ≡ true
middle true true c h = refl
middle true false c h = h
middle false b c h = ground arith

exact_bytes :
    (r : Response) (w : Work)
    → w.context.pooled ≡ true
    → segment_succeeded r w.context w.pool ≡ true
    → w.context.bytes_done ≡ (
        if ltb (intended_offset w.context) (own_slot w).live_end
        then (own_slot w).live_end - intended_offset w.context
        else 0)
unfolding segment_succeeded expected_bytes
exact_bytes r w pooled h = eq_of_beq _ _ (middle _ _ _ (simp pooled at h))

-- A worker of a pool whose request is judged a success has fetched its slot up to the end that the
-- slot has by then.
pub segment_succeeded-drained :
    (r : Response) (w : Work)
    → PoolOk w.pool
    → Linked w
    → segment_succeeded r w.context w.pool ≡ true
    → (own_slot w).write_pos ≡ (own_slot w).live_end
segment_succeeded-drained r w ok linked h =
    let s_ok = get_or-SlotOk w.pool.slots w.context.slot_index ok.each in
    drained_nums w.context.range.start w.context.range.resume_offset w.context.bytes_done
      (own_slot w).write_pos (own_slot w).live_end linked.aligned s_ok
      (exact_bytes r w linked.pooled h)

pub mark_done-PoolOk : (i : ℕ) (p : RebalancePool) → PoolOk p → PoolOk (mark_done i p)
unfolding mark_done
mark_done-PoolOk i p ok =
    let s = record (get_or p.slots i zero_slot) { exhausted = true; claimed = false } in
    record {
      room = omega (arith, ok.room, length-set p.slots i s);
      each = set-SlotOk p.slots i s (get_or-SlotOk p.slots i ok.each) ok.each;
    }

pub mark_done-owners :
    (x i : ℕ) (p : RebalancePool)
    → i < length p.slots
    → owners x (mark_done i p).slots ≡ owners x p.slots
unfolding mark_done
mark_done-owners x i p h =
    let s = record (get_or p.slots i zero_slot) { exhausted = true; claimed = false } in
    omega (arith, owners-set x i p.slots s h)

-- The state that a round leaves.
pub record Round (x : ℕ) (w : Work) (r : Work × Bool) : Type 0 where
  pub fine : PoolOk r.0.pool
  pub same : owners x r.0.pool.slots ≡ owners x w.pool.slots
  pub linked : (r.1 ≡ false) ⊎ Linked r.0

next_segment-Round :
    (x : ℕ) (w : Work) (p : RebalancePool)
    → PoolOk p
    → owners x p.slots ≡ owners x w.pool.slots
    → w.context.pooled ≡ true
    → Round x w (next_segment w (acquire p))
unfolding next_segment
next_segment-Round x w p ok same pooled = elim (acquire_lem p ok) [
  | inr (e, _) ↦
      subst (λ q. Round x w (next_segment w q)) (sym e)
        (record { fine = ok; same = same; linked = inl refl })
  | inl (a, e, holds) ↦
      let (ok', owned) = acquire-owners x p ok in
      subst (λ o. Round x w (next_segment w ((acquire p).0, o))) (sym e)
        (record {
          fine = ok';
          same = owned ∙ same;
          linked = inr (record {
            pooled = pooled;
            below = holds.below;
            aligned = omega (arith, holds.starts, holds.at_once);
          });
        })
]

pub round_goes_on :
    (r : Response) (w : Work)
    → segment_succeeded r w.context w.pool ≡ true
    → w.context.pooled ≡ true
    → worker_continues r w ≡ next_segment w (acquire (mark_done w.context.slot_index w.pool))
unfolding worker_continues
round_goes_on r w good pooled = rw good (rw pooled refl)

pub round_fails :
    (r : Response) (w : Work)
    → segment_succeeded r w.context w.pool ≡ false
    → worker_continues r w ≡ (record w { context = record w.context { succeeded = false } }, false)
unfolding worker_continues
round_fails r w bad = rw bad refl

-- The end of a round of a worker keeps the pool well-formed and every byte in as many slots as
-- before, and a worker that goes on stands at the position of its new slot.
pub worker_continues-Round :
    (x : ℕ) (r : Response) (w : Work) → PoolOk w.pool → Linked w → Round x w (worker_continues r w)
worker_continues-Round x r w ok linked = elim (Bool-cases (segment_succeeded r w.context w.pool)) [
  | inr failed ↦
      subst (Round x w) (sym (round_fails r w failed))
        (record { fine = ok; same = refl; linked = inl refl })
  | inl good ↦
      let k = w.context.slot_index in
      subst (Round x w) (sym (round_goes_on r w good linked.pooled)) (
        next_segment-Round x w (mark_done k w.pool) (mark_done-PoolOk k w.pool ok)
          (mark_done-owners x k w.pool linked.below) linked.pooled)
]
