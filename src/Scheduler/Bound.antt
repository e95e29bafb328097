-- ===== src/Scheduler/Bound.antt =====
-- No more downloads are active than the configuration allows.
use cdm.Prelude.{
  ℕ, ◌+◌, ◌≤◌, ◌≡◌, ◌≢◌, refl, Bool, true, false, Option, List, [], ◌∷◌, if◌then◌else◌, arith, inl,
  inr, Bool-cases, Option-cases, ltb, ltb→lt, ℤ, Bytes,
}
use cdm.Download.{
  Status, queued, active, paused, done, error, canceled, is_status, RequestOptions, Download,
}
use cdm.Queue.{
  Queue, Allocation, visit, on_entry, remove, remove_loop, add, add_existing, seed_next_id,
  new_download, count_loop, count_by_status, find_next_queued, find_by_id,
}
use cdm.Queue.Requests.{
  cancel_body, pause_body, resume_body, cleared, cancel, pause, resume, update_status,
  clear_resume_state,
}
use cdm.Queue.Calls.{
  Call, adds, restores, seeds, removes, cancels, pauses, resumes, clears, updates, apply,
}
use cdm.Queue.Entries.{add_cases}
use cdm.Queue.Idle.{RestoresIdle}
use cdm.Queue.Ownership.{IsRequest}
use cdm.Queue.Snapshot.{count_step}
use cdm.Scheduler.{
  completed, stopped, suspended, unverified, refused, retried, exhausted, Policy, amend, settle,
  settle_as, Outcome, classify,
}
use cdm.Scheduler.Workers.{
  reap_finished_workers, Scheduler, Worker, tick, claim_next, launch, free_slot, worker_settles,
  worker_exits,
}
use cdm.Scheduler.Steps.{
  Step, slot, ticks, calls, settles, exits, Reach, here, next, reloads, highest_limit,
}

abbrev active_count : List Download → ℕ
active_count ds = count_loop active ds 0

abbrev is_active : Download → ℕ
is_active d = if is_status d.status active then 1 else 0

-- A change of one entry adds one to the count at most, and nothing if no entry becomes active.
visit_count {ℓ} :
    {R : Type ℓ} (id : ℕ) (body : Download → Download × R) (miss : R) (extra : ℕ)
    → ((d : Download) → is_active (body d).0 ≤ is_active d + extra)
    → (ds : List Download) → active_count (visit id body miss ds).0 ≤ active_count ds + extra
unfolding visit
visit_count id body miss extra small [] = omega arith
visit_count id body miss extra small (d ∷ ds) = ground (
  arith,
  count_step active d ds,
  count_step active (body d).0 ds,
  count_step active d (visit id body miss ds).0,
  visit_count id body miss extra small ds,
  small d,
)

remove_count : (id : ℕ) (ds : List Download) → active_count (remove_loop id ds).0 ≤ active_count ds
unfolding remove_loop
remove_count id [] = omega arith
remove_count id (d ∷ ds) = ground (
  arith,
  count_step active d ds,
  count_step active (record d { cancel_requested = true }) ds,
  count_step active d (remove_loop id ds).0,
  remove_count id ds,
)

add_count :
    (safe : Bool) (alloc : Allocation) (url dest : Bytes) (opts : Option RequestOptions) (q : Queue)
    → active_count (add safe alloc url dest opts q).0.entries ≤ active_count q.entries
unfolding new_download
add_count safe alloc url dest opts q = elim (add_cases safe alloc url dest opts q) [
  | inl (_, same) ↦ rw same (omega arith)
  | inr (_, made) ↦
      rw made (omega (arith, count_step active (new_download q.next_id url dest opts) q.entries))
]

-- A request makes no entry active.
request_count :
    (c : Call) (q : Queue)
    → IsRequest c
    → RestoresIdle c
    → active_count (apply c q).entries ≤ active_count q.entries
unfolding apply add_existing seed_next_id remove cancel pause resume clear_resume_state on_entry
request_count (adds safe alloc url dest opts) q r idle = add_count safe alloc url dest opts q
request_count (restores d) q r idle = ground (arith, count_step active d q.entries)
request_count (seeds n) q r idle = ground arith
request_count (removes id) q r idle = remove_count id q.entries
request_count (cancels id) q r idle =
    omega (arith, visit_count id cancel_body false 0 (λ d. ground arith) q.entries)
request_count (pauses id) q r idle =
    omega (arith, visit_count id pause_body false 0 (λ d. ground arith) q.entries)
request_count (resumes id) q r idle =
    omega (arith, visit_count id resume_body false 0 (λ d. ground arith) q.entries)
request_count (clears id) q r idle =
    omega (arith, visit_count {0} id (λ d. (cleared d, tt)) tt 0 (λ d. ground arith) q.entries)
request_count (updates id s) q r idle = absurd r

module _ (id : ℕ) (s : Status) (q : Queue) (idle : s ≢ active) where
  -- Setting another status than active does not raise the count.
  update_count : active_count (update_status id s q).entries ≤ active_count q.entries
  unfolding update_status on_entry
  update_count = omega (
    arith,
    visit_count {0} id (λ d. (record d { status = s }, tt)) tt 0 (λ d. ground arith) q.entries,
  )

amend_count :
    (id extra : ℕ) (f : Download → Download) (q : Queue)
    → ((d : Download) → is_active (f d) ≤ is_active d + extra)
    → active_count (amend id f q).entries ≤ active_count q.entries + extra
unfolding amend on_entry
amend_count id extra f q small = visit_count {0} id (λ d. (f d, tt)) tt extra small q.entries

settled_count :
    (id : ℕ) (s : Status) (f : Download → Download) (q : Queue)
    → s ≢ active
    → ((d : Download) → (f d).status ≡ d.status)
    → active_count (update_status id s (amend id f q)).entries ≤ active_count q.entries
settled_count id s f q idle same = omega (
  arith,
  update_count id s (amend id f q) idle,
  amend_count id 0 f q (λ d. rw (same d) (omega arith)),
)

clear_count :
    (id : ℕ) (q : Queue) → active_count (clear_resume_state id q).entries ≤ active_count q.entries
unfolding clear_resume_state on_entry
clear_count id q =
    omega (arith, visit_count {0} id (λ d. (cleared d, tt)) tt 0 (λ d. ground arith) q.entries)

settle_as_count :
    (o : Outcome) (p : Policy) (now id : ℕ) (d : Download) (q : Queue)
    → active_count (settle_as o p now id d q).0.entries ≤ active_count q.entries
unfolding settle_as
settle_as_count completed p now id d q = settled_count id done _ q (λ e. cc) (λ e. refl)
settle_as_count stopped p now id d q =
    omega (arith, update_count id canceled (clear_resume_state id q) (λ e. cc), clear_count id q)
settle_as_count suspended p now id d q = update_count id paused q (λ e. cc)
settle_as_count unverified p now id d q = settled_count id error _ q (λ e. cc) (λ e. refl)
settle_as_count refused p now id d q = settled_count id error _ q (λ e. cc) (λ e. refl)
settle_as_count retried p now id d q = settled_count id queued _ q (λ e. cc) (λ e. refl)
settle_as_count exhausted p now id d q = settled_count id error _ q (λ e. cc) (λ e. refl)

settle_count :
    (p : Policy) (now id : ℕ) (rc : ℤ) (q : Queue)
    → active_count (settle p now id rc q).0.entries ≤ active_count q.entries
unfolding settle
settle_count p now id rc q = elim (Option-cases (find_by_id id q.entries)) [
  | inl missing ↦ rw (missing, settle) (omega arith)
  | inr (d, found) ↦ rw (found, settle) (settle_as_count (classify p rc d) p now id d q)
]

abbrev pub active_downloads : Scheduler → ℕ
active_downloads s = count_by_status active s.queue

-- Where the limit is `m` at most, a claim leaves no more than `m` active that had no more before.
abbrev ClaimBound : ℕ → Queue → Queue × Option Download → Type 0
ClaimBound m q (q', d) = active_count q.entries ≤ m → active_count q'.entries ≤ m

claim_next_count :
    (p : Policy) (m now : ℕ) (q : Queue)
    → p.max_concurrent ≤ m
    → ClaimBound m q (claim_next p now q)
unfolding claim_next count_by_status
claim_next_count p m now q within =
    elim (Bool-cases (ltb (active_count q.entries) p.max_concurrent)) [
      | inr full ↦ rw full (λ h. h)
      | inl room ↦ elim (Option-cases (find_next_queued now q)) [
        | inl nothing ↦ rw (room, nothing, claim_next) (λ h. h)
        | inr (d, found) ↦
            rw (room, found, claim_next)
              (λ h. omega (
                arith,
                within,
                ltb→lt (active_count q.entries) p.max_concurrent room,
                amend_count d.id 1 (λ e. record e { status = active; next_retry_at = 0 }) q
                    (λ e. ground arith),
              ))
      ]
    ]

launch_count :
    (created : Bool) (id : ℕ) (q : Queue) (ws : List Worker)
    → active_count (launch created id q ws).queue.entries ≤ active_count q.entries
unfolding launch
launch_count true id q ws = elim (Option-cases (free_slot 0 ws)) [
  | inl full ↦ rw (full, launch) (update_count id queued q (λ e. cc))
  | inr (k, free) ↦ rw (free, launch) (omega arith)
]
launch_count false id q ws = elim (Option-cases (free_slot 0 ws)) [
  | inl full ↦ rw (full, launch) (update_count id queued q (λ e. cc))
  | inr (k, free) ↦ rw (free, launch) (update_count id queued q (λ e. cc))
]

tick_count :
    (p : Policy) (m now : ℕ) (created : Bool) (s : Scheduler)
    → p.max_concurrent ≤ m
    → active_downloads s ≤ m
    → active_downloads (tick p now created s) ≤ m
unfolding tick count_by_status
tick_count p m now created s within h = elim (Option-cases (claim_next p now s.queue).1) [
  | inl nothing ↦ rw (nothing, tick) (claim_next_count p m now s.queue within h)
  | inr (d, claimed) ↦
      rw (claimed, tick)
        (omega (
          arith,
          launch_count created d.id (claim_next p now s.queue).0 (reap_finished_workers s.workers),
          claim_next_count p m now s.queue within h,
        ))
]

Step-bounded :
    {p : Policy} {s t : Scheduler} (m : ℕ)
    → Step p s t
    → p.max_concurrent ≤ m
    → active_downloads s ≤ m
    → active_downloads t ≤ m
unfolding count_by_status worker_settles worker_exits
Step-bounded {p} m (ticks now created s) within h = tick_count p m now created s within h
Step-bounded {p} m (calls c s r ok idle) within h = omega (arith, request_count c s.queue r idle)
Step-bounded {p} m (settles now rc k s w) within h =
    omega (arith, settle_count p now (slot s k).download_id rc s.queue)
Step-bounded {p} m (exits k s e) within h = h

-- The limit in force is no greater than the greatest one.
limit-le :
    {s : Scheduler} {p : Policy} {t : Scheduler} (r : Reach s p t)
    → p.max_concurrent ≤ highest_limit r
limit-le (here p) = omega arith
limit-le (next r st) = limit-le r
limit-le (reloads p r) = omega arith

Reach-within :
    {s : Scheduler} {p : Policy} {t : Scheduler} (r : Reach s p t) (m : ℕ)
    → highest_limit r ≤ m
    → active_downloads s ≤ m
    → active_downloads t ≤ m
Reach-within (here p) m within h = h
Reach-within (next r st) m within h =
    Step-bounded m st (omega (arith, within, limit-le r)) (Reach-within r m within h)
Reach-within (reloads p r) m within h = Reach-within r m (omega (arith, within)) h

-- However ticks, requests, workers and changes of the configuration interleave, no more downloads are
-- active at once than the greatest limit allows that the configuration had on the way, if no more are
-- to begin with.
pub Reach-bounded :
    {s : Scheduler} {p : Policy} {t : Scheduler} (r : Reach s p t)
    → active_downloads s ≤ highest_limit r
    → active_downloads t ≤ highest_limit r
Reach-bounded r h = Reach-within r (highest_limit r) (omega arith) h
