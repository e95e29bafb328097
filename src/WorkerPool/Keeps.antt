-- ===== src/WorkerPool/Keeps.antt =====
-- Each step of a crew keeps its invariant.
use cdm.Prelude.{ℕ, ◌≡◌, ap, subst, sym, ◌∙◌, inl, inr, true, false, arith}
use cdm.WorkerPool.{PoolSlot}
use cdm.WorkerPool.Worker.{Answers, Response, worker_write_callback, worker_continues}
use cdm.WorkerPool.Search.{is_live}
use cdm.WorkerPool.Writes.{own_slot, worker_write_callback-Honest}
use cdm.WorkerPool.Rounds.{worker_continues-Round}
use cdm.WorkerPool.Frames.{slot_at, Kept, Kept-refl}
use cdm.WorkerPool.Local.{callback-Local, worker_continues-Ended}
use cdm.WorkerPool.Sound.{covered-logged, Sound, Change-Sound}
use cdm.WorkerPool.Crew.{
  Crew, member, work, logged, deliver, finish, delivers, finishes, Reach, here, next,
}

Kept-same : {s s' : PoolSlot} → s' ≡ s → Kept s s'
Kept-same {s} e = subst (Kept s) (sym e) (Kept-refl s)

live_same :
    (s s' : PoolSlot)
    → s'.claimed ≡ s.claimed
    → s'.exhausted ≡ s.exhausted
    → is_live s ≡ true
    → is_live s' ≡ true
live_same s s' c e h = ground (arith, c, e, h)

undone : (s s' : PoolSlot) → s'.exhausted ≡ s.exhausted → is_live s ≡ true → s'.exhausted ≡ false
undone s s' e h = ground (arith, e, h)

deliver-Sound :
    (x total : ℕ) (a : Answers) (n k : ℕ) (c : Crew)
    → (member c k).running ≡ true
    → Sound x total c
    → Sound x total (deliver a n k c)
unfolding deliver
deliver-Sound x total a n k c run s =
    let w = work c k in
    let r = worker_write_callback a n w in
    let h = worker_write_callback-Honest x a n w s.fine (s.linked k run) in
    let l = callback-Local a n w (s.linked k run) in
    let at_own : (slot_at r.0.pool w.context.slot_index ≡ own_slot r.0) =
      ap (slot_at r.0.pool) (sym l.same_slot) in
    Change-Sound x total c s k run r.0.pool (record (member c k) { context = r.0.context })
      (record {
        fine = h.fine;
        grows = omega (arith, l.same_length);
        others = λ i _ ne. Kept-same (l.others i ne);
        drained = inl (
            ap (λ (t : PoolSlot). t.exhausted) at_own
            ∙ undone (own_slot w) (own_slot r.0) l.exhausted (s.live k run));
        manned = inr (l.same_slot, ground (arith, run));
        linked = inr h.linked;
        live = inr (
          live_same (own_slot w) (own_slot r.0) l.claimed l.exhausted (s.live k run),
          inl l.same_slot,
        );
        new = λ i below. inl (omega (arith, below, l.same_length));
      })
      (logged r.2 c.log) (omega (arith, h.moved, s.saved, covered-logged x r.2 c.log))

finish-Sound :
    (x total : ℕ) (r : Response) (k : ℕ) (c : Crew)
    → (member c k).running ≡ true
    → Sound x total c
    → Sound x total (finish r k c)
unfolding finish
finish-Sound x total r k c run s =
    let w = work c k in
    let q = worker_continues r w in
    let o = worker_continues-Round x r w s.fine (s.linked k run) in
    let e = worker_continues-Ended r w s.fine (s.linked k run) (s.live k run) in
    Change-Sound x total c s k run q.0.pool (record { context = q.0.context; running = q.1 })
      (record {
        fine = o.fine;
        grows = e.grows;
        others = e.others;
        drained = e.drained;
        manned = elim e.manned [
          | inl done ↦ inl done
          | inr (same, bad) ↦ inr (same, ground (arith, bad))
        ];
        linked = o.linked;
        live = elim e.goes_on [ inl stops ↦ inl stops | inr (live, fresh) ↦ inr (live, inr fresh) ];
        new = e.new;
      })
      c.log (omega (arith, o.same, s.saved))

pub crew-Reach-Sound : (x total : ℕ) {c d : Crew} → Reach c d → Sound x total c → Sound x total d
crew-Reach-Sound x total here s = s
crew-Reach-Sound x total (next r (delivers a n k c run)) s =
    deliver-Sound x total a n k c run (crew-Reach-Sound x total r s)
crew-Reach-Sound x total (next r (finishes a k c run)) s =
    finish-Sound x total a k c run (crew-Reach-Sound x total r s)
