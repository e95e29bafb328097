-- ===== src/Scheduler/Owned.antt =====
-- Every active download has exactly one worker, and every working thread an active download.

use cdm.Prelude.{
  ℕ, ◌<◌, ◌≡◌, ◌≢◌, sym, ◌∙◌, List, inl, inr, ◌⊎◌, length, set, get_or, get_or-set_ne,
}
use cdm.Queue.{Queue}
use cdm.Queue.Ownership.{IsActive}
use cdm.Scheduler.Workers.{Worker, free_worker}
use cdm.Scheduler.Steps.{IsWorking}
use cdm.Scheduler.Slots.{Works, set-Works, set-Works_only, claim-Works, claim-Works_only}

-- The workers' threads and the active entries stand in a one-to-one relation.
pub record Paired (q : Queue) (ws : List Worker) : Type 0 where
  pub employs : (i : ℕ) → IsActive i q → (k : ℕ) × Works ws k i
  pub serves : (k i : ℕ) → Works ws k i → IsActive i q
  pub alone : (k l i : ℕ) → Works ws k i → Works ws l i → k ≡ l

-- Only the working slots and the active entries count.
pub Paired-map :
    (q q' : Queue) (ws ws' : List Worker)
    → ((i : ℕ) → IsActive i q → IsActive i q')
    → ((i : ℕ) → IsActive i q' → IsActive i q)
    → ((k i : ℕ) → Works ws k i → Works ws' k i)
    → ((k i : ℕ) → Works ws' k i → Works ws k i)
    → Paired q ws
    → Paired q' ws'
Paired-map q q' ws ws' fro back keep only o = record {
  employs = λ i a. let (k, w) = o.employs i (back i a) in (k, keep k i w);
  serves = λ k i w. fro i (o.serves k i (only k i w));
  alone = λ k l i w v. o.alone k l i (only k i w) (only l i v);
}

-- The worker of the entry `id` stops, and the entry is active no more.
pub retire-Paired :
    (q q' : Queue) (ws : List Worker) (k id : ℕ) (v : Worker)
    → ((i : ℕ) → id ≢ i → IsActive i q → IsActive i q')
    → ((i : ℕ) → IsActive i q' → (id ≢ i) × IsActive i q)
    → ¬ IsWorking v
    → Works ws k id
    → Paired q ws
    → Paired q' (set ws k v)
retire-Paired q q' ws k id v fro back idle owner o = record {
  employs = λ i a.
      let (ne, was) = back i a in
      let (l, w) = o.employs i was in
      (l, set-Works ws k v idle l i (λ e. ne (sym owner.1 ∙ (rw (← e) at w.1))) w);
  serves = λ l i w.
      let (ne, was) = set-Works_only ws k v idle l i w in
      fro i (λ e. ne (o.alone k l i (rw e at owner) was)) (o.serves l i was);
  alone = λ l m i w u.
      o.alone l m i (set-Works_only ws k v idle l i w).1 (set-Works_only ws k v idle m i u).1;
}

-- A free slot stays out of use.
pub spare-Paired :
    (q : Queue) (ws : List Worker) (k : ℕ) (v : Worker)
    → ¬ IsWorking v
    → ¬ IsWorking (get_or ws k free_worker)
    → Paired q ws
    → Paired q (set ws k v)
spare-Paired q ws k v idle free =
    Paired-map q q ws (set ws k v) (λ i a. a) (λ i a. a)
      (λ l i w. set-Works ws k v idle l i (λ e. free (rw e w.0)) w)
      (λ l i w. (set-Works_only ws k v idle l i w).1)

-- A free slot takes an entry that becomes active.
pub hire-Paired :
    (q q' : Queue) (ws : List Worker) (k id : ℕ) (v : Worker)
    → ((i : ℕ) → (id ≡ i) ⊎ IsActive i q → IsActive i q')
    → ((i : ℕ) → IsActive i q' → (id ≡ i) ⊎ IsActive i q)
    → k < length ws
    → ¬ IsWorking (get_or ws k free_worker)
    → IsWorking v
    → v.download_id ≡ id
    → ¬ IsActive id q
    → Paired q ws
    → Paired q' (set ws k v)
hire-Paired q q' ws k id v fro back inside free starts names idle o = record {
  employs = λ i a. elim (back i a) [
    | inl e ↦ (k, rw (← e) (claim-Works ws k id v inside starts names))
    | inr was ↦ let (l, w) = o.employs i was in (l, keep l i w)
  ];
  serves = λ l i w. elim (claim-Works_only ws k id v inside starts names l i w) [
    | inl (_, e) ↦ fro i (inl (sym e))
    | inr (_, was) ↦ fro i (inr (o.serves l i was))
  ];
  alone = λ l m i w u. both l m i (only l i w) (only m i u);
}
  where
    keep : (l i : ℕ) → Works ws l i → Works (set ws k v) l i
    keep l i w = rw (get_or-set_ne ws k l v free_worker (λ e. free (rw e w.0))) w

    only : (l i : ℕ) → Works (set ws k v) l i → ((k ≡ l) × (i ≡ id)) ⊎ ((k ≢ l) × Works ws l i)
    only l i w = claim-Works_only ws k id v inside starts names l i w

    both :
        (l m i : ℕ)
        → ((k ≡ l) × (i ≡ id)) ⊎ ((k ≢ l) × Works ws l i)
        → ((k ≡ m) × (i ≡ id)) ⊎ ((k ≢ m) × Works ws m i)
        → l ≡ m
    both l m i (inl (a, _)) (inl (b, _)) = sym a ∙ b
    both l m i (inl (_, e)) (inr (_, w)) = absurd (idle (rw e at (o.serves m i w)))
    both l m i (inr (_, w)) (inl (_, e)) = absurd (idle (rw e at (o.serves l i w)))
    both l m i (inr (_, w)) (inr (_, u)) = o.alone l m i w u
