-- ===== src/WorkerPool/Local.antt =====
-- What a step of one worker leaves to the others.
use cdm.Prelude.{
  ℕ, ◌≤◌, ◌<◌, ◌≡◌, ◌≢◌, refl, ap, subst, sym, ◌∙◌, inl, inr, ◌⊎◌, Bool, true, false, Option, none,
  some, arith, length, length-set, get_or-set_self, get_or-set_ne, Bool-cases,
}
use cdm.WorkerPool.{PoolSlot, zero_slot, RebalancePool, Assignment, mark_done, acquire}
use cdm.WorkerPool.Worker.{
  Answers, Work, Response, write_bytes, worker_write_callback, worker_continues, truncate, advance,
  next_segment, segment_succeeded,
}
use cdm.WorkerPool.Search.{is_live}
use cdm.WorkerPool.Acquire.{PoolOk}
use cdm.WorkerPool.Rebalance.{Holds, acquire_lem}
use cdm.WorkerPool.Writes.{Linked, own_slot, callback-Branches}
use cdm.WorkerPool.Rounds.{mark_done-PoolOk, segment_succeeded-drained, round_goes_on, round_fails}
use cdm.WorkerPool.Frames.{
  slot_at, Kept, Frame, acquire-Frame, Kept-refl, unclaimed_idle, undone, some_eq,
}

-- A callback changes its own slot only, and of that only the position.
pub record Local (w w' : Work) : Type 0 where
  pub same_slot : w'.context.slot_index ≡ w.context.slot_index
  pub same_length : length w'.pool.slots ≡ length w.pool.slots
  pub others : (i : ℕ) → i ≢ w.context.slot_index → slot_at w'.pool i ≡ slot_at w.pool i
  pub claimed : (own_slot w').claimed ≡ (own_slot w).claimed
  pub exhausted : (own_slot w').exhausted ≡ (own_slot w).exhausted

Local-refl : (w : Work) → Local w w
Local-refl w = record {
  same_slot = refl;
  same_length = refl;
  others = λ i h. refl;
  claimed = refl;
  exhausted = refl;
}

write_bytes-Local : (a : Answers) (n : ℕ) (w : Work) → Linked w → Local w (write_bytes a n w).0
unfolding write_bytes
write_bytes-Local a n w linked = elim (Bool-cases a.written) [
  | inr failed ↦ rw failed (Local-refl w)
  | inl wrote ↦
      let k = w.context.slot_index in
      let s = own_slot w in
      let at = get_or-set_self w.pool.slots k (advance n s) zero_slot linked.below in
      rw (wrote, linked.pooled)
        (record {
          same_slot = refl;
          same_length = length-set w.pool.slots k (advance n s);
          others = λ i h. get_or-set_ne w.pool.slots k i (advance n s) zero_slot (λ e. h (sym e));
          claimed = rw at refl;
          exhausted = rw at refl;
        })
]

pub callback-Local :
    (a : Answers) (total : ℕ) (w : Work) → Linked w → Local w (worker_write_callback a total w).0
callback-Local a total w linked =
    let here : Linked (truncate w) = record {
      pooled = linked.pooled;
      below = linked.below;
      aligned = linked.aligned;
    } in
    elim (callback-Branches a total w linked.pooled) [
      | inl e ↦ subst (λ r. Local w r.0) (sym e) (Local-refl w)
      | inr (inl e) ↦
          subst (λ r. Local w r.0) (sym e)
            (record {
              same_slot = refl;
              same_length = refl;
              others = λ i h. refl;
              claimed = refl;
              exhausted = refl;
            })
      | inr (inr (n, le, room, inl e)) ↦
          subst (λ r. Local w r.0) (sym e) (write_bytes-Local a n w linked)
      | inr (inr (n, le, room, inr e)) ↦
          let r = write_bytes-Local a n (truncate w) here in
          subst (λ r. Local w r.0) (sym e)
            (record {
              same_slot = r.same_slot;
              same_length = r.same_length;
              others = r.others;
              claimed = r.claimed;
              exhausted = r.exhausted;
            })
    ]

-- What the end of a request leaves: for a worker that failed, the pool as it was; else its slot
-- exhausted and drained, and, if the worker goes on, a live slot that was nobody's.
pub record Ended (w : Work) (r : Work × Bool) : Type 0 where
  pub grows : length w.pool.slots ≤ length r.0.pool.slots
  pub others :
      (i : ℕ)
      → i < length w.pool.slots
      → i ≢ w.context.slot_index
      → Kept (slot_at w.pool i) (slot_at r.0.pool i)
  pub drained :
      ((slot_at r.0.pool w.context.slot_index).exhausted ≡ false)
      ⊎ ((slot_at r.0.pool w.context.slot_index).write_pos
          ≡ (slot_at r.0.pool w.context.slot_index).live_end)
  pub manned :
      ((slot_at r.0.pool w.context.slot_index).exhausted ≡ true)
      ⊎ ((r.0.context.slot_index ≡ w.context.slot_index) × (r.0.context.succeeded ≡ false))
  pub goes_on :
      (r.1 ≡ false)
      ⊎ ((is_live (slot_at r.0.pool r.0.context.slot_index) ≡ true)
          × ((length w.pool.slots ≤ r.0.context.slot_index)
              ⊎ ((is_live (slot_at w.pool r.0.context.slot_index) ≡ false)
                  × (r.0.context.slot_index ≢ w.context.slot_index))))
  pub new :
      (i : ℕ)
      → i < length r.0.pool.slots
      → (i < length w.pool.slots) ⊎ ((r.0.context.slot_index ≡ i) × (r.1 ≡ true))

no_slot : {a : Assignment} {P : Type 0} → none ≡ some a → P
no_slot e = cc e

claimed_live : (s : PoolSlot) → s.claimed ≡ true → s.exhausted ≡ false → is_live s ≡ true
claimed_live s h k = ground arith

differ : {a : Bool} → a ≡ true → a ≡ false → ⊥
differ h k = ground (arith, h, k)

module _ (w : Work) (below : w.context.slot_index < length w.pool.slots)
    (drained : (own_slot w).write_pos ≡ (own_slot w).live_end) where
  abbrev k : ℕ
  k = w.context.slot_index

  abbrev done_slot : PoolSlot
  done_slot = record (own_slot w) { exhausted = true; claimed = false }

  abbrev marked : RebalancePool
  marked = mark_done k w.pool

  marked_own : slot_at marked k ≡ done_slot
  unfolding mark_done
  marked_own = get_or-set_self w.pool.slots k done_slot zero_slot below

  marked_others : (i : ℕ) → i ≢ k → slot_at marked i ≡ slot_at w.pool i
  unfolding mark_done
  marked_others i h = get_or-set_ne w.pool.slots k i done_slot zero_slot (λ e. h (sym e))

  marked_length : length marked.slots ≡ length w.pool.slots
  unfolding mark_done
  marked_length = length-set w.pool.slots k done_slot

  module _ (q : RebalancePool × Option Assignment) (f : Frame marked q) where
    own-Kept : Kept done_slot (slot_at q.0 k)
    own-Kept =
        subst (λ s. Kept s (slot_at q.0 k)) marked_own
          (f.kept k (omega (arith, below, marked_length)))

    own_done : (slot_at q.0 k).exhausted ≡ true
    own_done = own-Kept.exhausted

    own_drained : (slot_at q.0 k).write_pos ≡ (slot_at q.0 k).live_end
    own_drained = elim own-Kept.end_kept [
      | inl no_end ↦ absurd (differ refl no_end)
      | inr e ↦ own-Kept.position ∙ drained ∙ sym e
    ]

    others-Kept :
        (i : ℕ) → i < length w.pool.slots → i ≢ k → Kept (slot_at w.pool i) (slot_at q.0 i)
    others-Kept i h ne =
        subst (λ s. Kept s (slot_at q.0 i)) (marked_others i ne)
          (f.kept i (omega (arith, h, marked_length)))

    not_own : (a : Assignment) → (slot_at marked a.slot).exhausted ≡ false → a.slot ≢ k
    not_own a h e =
        differ refl
          (sym (ap (λ (s : PoolSlot). s.exhausted) (ap (slot_at marked) e ∙ marked_own)) ∙ h)

    Ended-none : q.1 ≡ none → Ended w (next_segment w q)
    unfolding next_segment
    Ended-none e =
        subst (λ o. Ended w (next_segment w (q.0, o))) (sym e)
          (record {
            grows = omega (arith, f.grows, marked_length);
            others = others-Kept;
            drained = inr own_drained;
            manned = inl own_done;
            goes_on = inl refl;
            new = λ i h. elim (f.new i h) [
              | inl old ↦ inl (omega (arith, old, marked_length))
              | inr (a, e', s) ↦ no_slot (sym e ∙ e')
            ];
          })

    fresh_slot :
        (a : Assignment)
        → q.1 ≡ some a
        → (length w.pool.slots ≤ a.slot)
          ⊎ ((is_live (slot_at w.pool a.slot) ≡ false) × (a.slot ≢ k))
    fresh_slot a e = elim (f.fresh a e) [
      | inl far ↦ inl (omega (arith, far, marked_length))
      | inr (free, undone) ↦
          let ne = not_own a undone in
          inr (
            subst (λ s. is_live s ≡ false) (marked_others a.slot ne)
                (unclaimed_idle (slot_at marked a.slot) free),
            ne,
          )
    ]

    Ended-some : (a : Assignment) → q.1 ≡ some a → Holds q.0 a → Ended w (next_segment w q)
    unfolding next_segment
    Ended-some a e holds =
        subst (λ o. Ended w (next_segment w (q.0, o))) (sym e)
          (record {
            grows = omega (arith, f.grows, marked_length);
            others = others-Kept;
            drained = inr own_drained;
            manned = inl own_done;
            goes_on =
                inr
                  (claimed_live (slot_at q.0 a.slot) holds.claimed holds.exhausted, fresh_slot a e);
            new = λ i h. elim (f.new i h) [
              | inl old ↦ inl (omega (arith, old, marked_length))
              | inr (b, e', s) ↦
                  inr (ap (λ (c : Assignment). c.slot) (some_eq (sym e ∙ e')) ∙ s, refl)
            ];
          })

pub worker_continues-Ended :
    (r : Response) (w : Work)
    → PoolOk w.pool
    → Linked w
    → is_live (own_slot w) ≡ true
    → Ended w (worker_continues r w)
worker_continues-Ended r w ok linked live =
    elim (Bool-cases (segment_succeeded r w.context w.pool)) [
      | inr failed ↦ subst (Ended w) (sym (round_fails r w failed)) (record {
        grows = omega arith;
        others = λ i h ne. Kept-refl _;
        drained = inl (undone (own_slot w) live);
        manned = inr (refl, refl);
        goes_on = inl refl;
        new = λ i h. inl h;
      })
      | inl good ↦
          let drained = segment_succeeded-drained r w ok linked good in
          let p = mark_done w.context.slot_index w.pool in
          subst (Ended w) (sym (round_goes_on r w good linked.pooled))
            (elim (acquire_lem p (mark_done-PoolOk w.context.slot_index w.pool ok)) [
              | inr (e, _) ↦
                  Ended-none w linked.below drained (acquire p) (acquire-Frame p) (ap (λ q. q.1) e)
              | inl (a, e, holds) ↦
                  Ended-some w linked.below drained (acquire p) (acquire-Frame p) a e holds
            ])
    ]
