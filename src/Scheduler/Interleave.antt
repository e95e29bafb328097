-- ===== src/Scheduler/Interleave.antt =====
-- The pairing of active entries and workers survives every interleaving.
use cdm.Prelude.{
  ℕ, zero, suc, ◌-◌, ◌<◌, ◌≡◌, refl, Bool, true, false, none, some, List, arith, inl, inr, ◌⊎◌,
  Bool-cases, Option-cases, ℤ, ltb, length, get_or, replicate,
}
use cdm.Download.{Status, queued, active, done, paused, error, canceled, Download}
use cdm.Queue.{Queue, find_next_queued, count_by_status}
use cdm.Queue.Requests.{update_status, clear_resume_state, cleared}
use cdm.Queue.Calls.{apply}
use cdm.Queue.Identity.{WellFormed, on_entry-WellFormed, apply-WellFormed}
use cdm.Queue.Idle.{apply_back}
use cdm.Queue.Lifecycle.{lookup}
use cdm.Queue.Ownership.{IsActive, apply-IsActive}
use cdm.Scheduler.{
  Policy, Outcome, completed, stopped, suspended, unverified, refused, retried, exhausted, amend,
  settle, settle_as, classify,
}
use cdm.Scheduler.Workers.{
  Scheduler, Worker, free_worker, finishing, reap_finished_workers, free_slot, claim_next, launch,
  tick, worker_settles, worker_exits, start,
}
use cdm.Scheduler.Steps.{
  slot, IsWorking, Step, ticks, calls, settles, exits, Reach, here, next, reloads,
}
use cdm.Scheduler.Slots.{Works, reap-Works, reap-Works_only, free_slot_lem}
use cdm.Scheduler.Owned.{Paired, Paired-map, retire-Paired, spare-Paired, hire-Paired}
use cdm.Scheduler.Active.{
  begin, next_found, not_active, update_idle, update_others, claim_joins, claim_only, settle_only,
  settle_others,
}

-- The ids name the entries, and the active entries are paired with the workers.
pub record Sound (s : Scheduler) : Type 0 where
  pub well : WellFormed s.queue
  pub paired : Paired s.queue s.workers

update-WellFormed :
    (id : ℕ) (s : Status) (q : Queue) → WellFormed q → WellFormed (update_status id s q)
unfolding update_status
update-WellFormed id s q =
    on_entry-WellFormed {0} id (λ d. (record d { status = s }, tt)) tt q (λ d. refl)

amend-WellFormed :
    (id : ℕ) (f : Download → Download) (q : Queue)
    → ((d : Download) → (f d).id ≡ d.id)
    → WellFormed q
    → WellFormed (amend id f q)
unfolding amend
amend-WellFormed id f q = on_entry-WellFormed {0} id (λ d. (f d, tt)) tt q

clear-WellFormed : (id : ℕ) (q : Queue) → WellFormed q → WellFormed (clear_resume_state id q)
unfolding clear_resume_state
clear-WellFormed id q = on_entry-WellFormed {0} id (λ d. (cleared d, tt)) tt q (λ d. refl)

settle_as-WellFormed :
    (o : Outcome) (p : Policy) (now id : ℕ) (d : Download) (q : Queue)
    → WellFormed q
    → WellFormed (settle_as o p now id d q).0
unfolding settle_as
settle_as-WellFormed completed p now id d q w =
    update-WellFormed id done _ (amend-WellFormed id _ q (λ e. refl) w)
settle_as-WellFormed stopped p now id d q w =
    update-WellFormed id canceled _ (clear-WellFormed id q w)
settle_as-WellFormed suspended p now id d q w = update-WellFormed id paused q w
settle_as-WellFormed unverified p now id d q w =
    update-WellFormed id error _ (amend-WellFormed id _ q (λ e. refl) w)
settle_as-WellFormed refused p now id d q w =
    update-WellFormed id error _ (amend-WellFormed id _ q (λ e. refl) w)
settle_as-WellFormed retried p now id d q w =
    update-WellFormed id queued _ (amend-WellFormed id _ q (λ e. refl) w)
settle_as-WellFormed exhausted p now id d q w =
    update-WellFormed id error _ (amend-WellFormed id _ q (λ e. refl) w)

settle-WellFormed :
    (p : Policy) (now id : ℕ) (rc : ℤ) (q : Queue)
    → WellFormed q
    → WellFormed (settle p now id rc q).0
unfolding settle
settle-WellFormed p now id rc q w = elim (Option-cases (lookup id q)) [
  | inl missing ↦ rw (missing, settle) w
  | inr (d, found) ↦ rw (found, settle) (settle_as-WellFormed (classify p rc d) p now id d q w)
]

-- The queue after a claim that is taken back has the active entries that it had.
rolled_back :
    (id i : ℕ) (d : Download) (q : Queue)
    → lookup id q ≡ some d
    → d.status ≡ queued
    → (IsActive i q → IsActive i (update_status id queued (amend id begin q)))
      × (IsActive i (update_status id queued (amend id begin q)) → IsActive i q)
rolled_back id i d q found waits = (fro, back)
  where
    fro : IsActive i q → IsActive i (update_status id queued (amend id begin q))
    fro a =
        update_others id i queued (amend id begin q)
          (λ e. not_active id q d found (λ h. cc (h, waits)) (rw e a))
          (claim_joins id i d q found (inr a))

    back : IsActive i (update_status id queued (amend id begin q)) → IsActive i q
    back a =
        let (ne, b) = update_idle id i queued (amend id begin q) (λ h. cc h) a in
        elim (claim_only id i q b) [ inl e ↦ absurd (ne e) | inr was ↦ was ]

-- The slot that `launch` takes.
first_free :
    (ws : List Worker) (k : ℕ)
    → free_slot 0 ws ≡ some k
    → (k < length ws) × ¬ IsWorking (get_or ws k free_worker)
first_free ws k e =
    let whole : k - 0 ≡ k = omega arith in
    let (_, inside, free) = free_slot_lem ws 0 k e in
    let unused : (get_or ws k free_worker).in_use ≡ false = rw whole at free in
    (rw whole at inside, λ w. cc (w.0, unused))

module _ (q : Queue) (ws : List Worker) (d : Download) (found : lookup d.id q ≡ some d)
    (waits : d.status ≡ queued) (o : Paired q ws) where
  still_idle : ¬ IsActive d.id q
  still_idle = not_active d.id q d found (λ h. cc (h, waits))

  revoked-Paired : Paired (update_status d.id queued (amend d.id begin q)) ws
  revoked-Paired =
      Paired-map q _ ws ws (λ i. (rolled_back d.id i d q found waits).0)
        (λ i. (rolled_back d.id i d q found waits).1) (λ k i w. w) (λ k i w. w) o

  launch-Paired :
      (created : Bool)
      → Paired
          (launch created d.id (amend d.id begin q) ws).queue
          (launch created d.id (amend d.id begin q) ws).workers
  unfolding launch
  launch-Paired true = elim (Option-cases (free_slot 0 ws)) [
    | inl full ↦ rw (full, launch) revoked-Paired
    | inr (k, e) ↦
        let (inside, unused) = first_free ws k e in
        rw (e, launch)
          (hire-Paired q (amend d.id begin q) ws k d.id _ (λ i. claim_joins d.id i d q found)
            (λ i. claim_only d.id i q) inside unused (refl, refl, refl) refl still_idle o)
  ]
  launch-Paired false = elim (Option-cases (free_slot 0 ws)) [
    | inl full ↦ rw (full, launch) revoked-Paired
    | inr (k, e) ↦
        rw (e, launch) (spare-Paired _ ws k _ (λ w. cc w.0) (first_free ws k e).1 revoked-Paired)
  ]

worker_settles-Sound :
    (p : Policy) (now : ℕ) (rc : ℤ) (k : ℕ) (s : Scheduler)
    → IsWorking (slot s k)
    → Sound s
    → Sound (worker_settles p now rc k s).0
unfolding worker_settles
worker_settles-Sound p now rc k s w h =
    let id = (slot s k).download_id in
    let (d, found, _) = h.paired.serves k id (w, refl) in
    record {
      well = settle-WellFormed p now id rc s.queue h.well;
      paired =
          retire-Paired s.queue (settle p now id rc s.queue).0 s.workers k id
            (record (slot s k) { thread = finishing })
            (λ i. settle_others p now id i rc d s.queue found)
            (λ i. settle_only p now id i rc d s.queue found) (λ v. cc v.1) (w, refl) h.paired;
    }

worker_exits-Sound :
    (k : ℕ) (s : Scheduler) → (slot s k).thread ≡ finishing → Sound s → Sound (worker_exits k s)
unfolding worker_exits
worker_exits-Sound k s ending h = record {
  well = h.well;
  paired = spare-Paired s.queue s.workers k _ (λ v. cc v.1) (λ v. cc (v.1, ending)) h.paired;
}

reap-Paired : (q : Queue) (ws : List Worker) → Paired q ws → Paired q (reap_finished_workers ws)
reap-Paired q ws =
    Paired-map q q ws (reap_finished_workers ws) (λ i a. a) (λ i a. a) (reap-Works ws)
      (reap-Works_only ws)

-- The claim of a tick, by cases.
claim_next_cases :
    (p : Policy) (now : ℕ) (q : Queue)
    → (claim_next p now q ≡ (q, none))
      ⊎ ((d : Download) × (find_next_queued now q ≡ some d)
          × (claim_next p now q ≡ (amend d.id begin q, some d)))
unfolding claim_next
claim_next_cases p now q = elim (Bool-cases (ltb (count_by_status active q) p.max_concurrent)) [
  | inr full ↦ rw full (inl refl)
  | inl room ↦ rw room (elim (Option-cases (find_next_queued now q)) [
    | inl nothing ↦ rw (nothing, claim_next) (inl refl)
    | inr (d, picked) ↦ rw (picked, claim_next) (inr (d, refl, refl))
  ])
]

launch-WellFormed :
    (created : Bool) (id : ℕ) (q : Queue) (ws : List Worker)
    → WellFormed q
    → WellFormed (launch created id q ws).queue
unfolding launch
launch-WellFormed true id q ws w = elim (Option-cases (free_slot 0 ws)) [
  | inl full ↦ rw (full, launch) (update-WellFormed id queued q w)
  | inr (k, e) ↦ rw (e, launch) w
]
launch-WellFormed false id q ws w = elim (Option-cases (free_slot 0 ws)) [
  | inl full ↦ rw (full, launch) (update-WellFormed id queued q w)
  | inr (k, e) ↦ rw (e, launch) (update-WellFormed id queued q w)
]

tick-Sound :
    (p : Policy) (now : ℕ) (created : Bool) (s : Scheduler) → Sound s → Sound (tick p now created s)
unfolding tick
tick-Sound p now created s h =
    let reaped = reap-Paired s.queue s.workers h.paired in
    elim (claim_next_cases p now s.queue) [
      | inl same ↦ rw (same, tick, same) (record { well = h.well; paired = reaped })
      | inr (d, picked, made) ↦
          let (found, waits) = next_found now s.queue d h.well picked in
          rw (made, tick, made)
            (record {
              well =
                  launch-WellFormed created d.id _ _
                    (amend-WellFormed d.id begin s.queue (λ e. refl) h.well);
              paired =
                  launch-Paired s.queue (reap_finished_workers s.workers) d found waits reaped
                    created;
            })
    ]

Step-Sound : {p : Policy} {s t : Scheduler} → Step p s t → Sound s → Sound t
Step-Sound {p} (ticks now created s) h = tick-Sound p now created s h
Step-Sound {p} (calls c s r ok idle) h = record {
  well = apply-WellFormed c s.queue ok h.well;
  paired =
      Paired-map s.queue (apply c s.queue) s.workers s.workers
        (λ i. apply-IsActive c i s.queue r ok h.well) (λ i. apply_back c i s.queue r idle h.well)
        (λ k i w. w) (λ k i w. w) h.paired;
}
Step-Sound {p} (settles now rc k s w) h = worker_settles-Sound p now rc k s w h
Step-Sound {p} (exits k s e) h = worker_exits-Sound k s e h

get_or-replicate : (n k : ℕ) → get_or (replicate n free_worker) k free_worker ≡ free_worker
get_or-replicate zero k = refl
get_or-replicate (suc n) zero = refl
get_or-replicate (suc n) (suc k) = get_or-replicate n k

none-Works : (n k i : ℕ) → ¬ Works (replicate n free_worker) k i
none-Works n k i w = cc (w.0.0, get_or-replicate n k)

-- The daemon starts so: `db_restore_queue` leaves no entry active.
pub start-Sound : (q : Queue) → WellFormed q → ((i : ℕ) → ¬ IsActive i q) → Sound (start q)
unfolding start
start-Sound q w idle = record {
  well = w;
  paired = record {
    employs = λ i a. absurd (idle i a);
    serves = λ k i v. absurd (none-Works 64 k i v);
    alone = λ k l i v u. absurd (none-Works 64 k i v);
  };
}

-- However ticks, requests, workers and changes of the configuration interleave: in a scheduler that started so, every active entry
-- has a slot whose thread runs its download, each such slot has an active entry, and no two such
-- slots have one entry; and the ids stay distinct, not 0 and below the next id.
pub Reach-Sound : {s : Scheduler} {p : Policy} {t : Scheduler} → Reach s p t → Sound s → Sound t
Reach-Sound (here p) h = h
Reach-Sound (next r st) h = Step-Sound st (Reach-Sound r h)
Reach-Sound (reloads p r) h = Reach-Sound r h
