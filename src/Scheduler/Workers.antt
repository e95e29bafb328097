-- ===== src/Scheduler/Workers.antt =====
-- src/core/scheduler.c: the worker slots, `reap_finished_workers`, `scheduler_tick` and
-- `scheduler_shutdown`.
use cdm.Prelude.{
  ℕ, ◌+◌, Bool, true, false, not, ◌||◌, Option, none, some, List, [], ◌∷◌, map, ltb, if◌then◌else◌,
  set, get_or, replicate, ℤ,
}
use cdm.Download.{queued, active, Download}
use cdm.Queue.{Queue, find_next_queued, count_by_status}
use cdm.Queue.Requests.{update_status, pause}
use cdm.Scheduler.{Policy, amend, settle, Effect}

abbrev pub max_workers : ℕ
max_workers = 64

-- What the thread of a slot has left to do: run the engine and settle the result, or only set
-- `done`. (The state that `dm_thread_t` stands for.)
pub data Thread : Type 0 where
  none_left finishing working : Thread

-- `download` is the pointer to the entry, by its id.
pub record Worker : Type 0 where
  pub thread : Thread
  pub download : Option ℕ
  pub download_id : ℕ
  pub done : Bool
  pub in_use : Bool

abbrev pub free_worker : Worker
free_worker = record {
  thread = none_left;
  download = none;
  download_id = 0;
  done = false;
  in_use = false;
}

pub record Scheduler : Type 0 where
  pub queue : Queue
  pub workers : List Worker

unfoldable pub start : Queue → Scheduler
start q = record { queue = q; workers = replicate max_workers free_worker }

abbrev pub release : Worker → Worker
release w = record w { download = none; download_id = 0; in_use = false }

unfoldable pub reap : Worker → Worker
reap w = if not w.in_use || not w.done then w else release w

unfoldable pub reap_finished_workers : List Worker → List Worker
unfolding reap
reap_finished_workers = map reap

-- The first slot that is not in use.
unfoldable pub free_slot : ℕ → List Worker → Option ℕ
free_slot i [] = none
free_slot i (w ∷ ws) = let later = free_slot (i + 1) ws in if w.in_use then later else some i

-- The first part of the tick: pick an entry and mark it, under the queue's lock.
unfoldable pub claim_next : Policy → ℕ → Queue → Queue × Option Download
claim_next p now q =
    if ltb (count_by_status active q) p.max_concurrent
    then elim (find_next_queued now q) [
      | none ↦ (q, none)
      | some d ↦ (amend d.id (λ e. record e { status = active; next_retry_at = 0 }) q, some d)
    ]
    else (q, none)

abbrev pub roll_back : ℕ → Queue → Queue
roll_back id q = update_status id queued q

-- The second part: find a slot and start its thread; `created` is the answer of `dm_thread_create`.
unfoldable pub launch : Bool → ℕ → Queue → List Worker → Scheduler
launch created id q ws = elim (free_slot 0 ws) [
  | none ↦ record { queue = roll_back id q; workers = ws }
  | some k ↦
      let w = get_or ws k free_worker in
      let claimed = record w {
        download = some id;
        download_id = id;
        done = false;
        in_use = true;
      } in
      if created
      then record { queue = q; workers = set ws k (record claimed { thread = working }) }
      else record { queue = roll_back id q; workers = set ws k (release claimed) }
]

unfoldable pub tick : Policy → ℕ → Bool → Scheduler → Scheduler
tick p now created s =
    let ws = reap_finished_workers s.workers in
    let (q, claimed) = claim_next p now s.queue in
    elim claimed [ none ↦ record { queue = q; workers = ws } | some d ↦ launch created d.id q ws ]

-- The worker in slot `k` settles its download, for the engine's answer `rc`.
unfoldable pub worker_settles : Policy → ℕ → ℤ → ℕ → Scheduler → Scheduler × List Effect
worker_settles p now rc k s =
    let w = get_or s.workers k free_worker in
    let (q, effects) = settle p now w.download_id rc s.queue in
    (record { queue = q; workers = set s.workers k (record w { thread = finishing }) }, effects)

-- The last statement of `scheduler_worker_fn`.
unfoldable pub worker_exits : ℕ → Scheduler → Scheduler
worker_exits k s =
    let w = get_or s.workers k free_worker in
    record s { workers = set s.workers k (record w { thread = none_left; done = true }) }

-- The first loop of `scheduler_shutdown`.
unfoldable pub pause_all : List Worker → Queue → Queue
pause_all [] q = q
pause_all (w ∷ ws) q = pause_all ws (if w.in_use then (pause w.download_id q).0 else q)

-- Its second loop, which waits for each thread to end.
unfoldable pub join_all : List Worker → List Worker
join_all = map (λ w. if not w.in_use then w else release w)
