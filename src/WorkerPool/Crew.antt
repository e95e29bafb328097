-- ===== src/WorkerPool/Crew.antt =====
-- src/engine/worker_pool.c: the threads of `worker_pool_run` and how they interleave. A step is one
-- call of the write callback, or one end of a request, of one thread.
use cdm.Prelude.{
  ℕ, ◌+◌, ◌≡◌, Bool, true, false, not, ◌&&◌, Option, none, some, List, [], ◌∷◌, if◌then◌else◌,
  get_or, set,
}
use cdm.Segmenter.{Range}
use cdm.WorkerPool.{RebalancePool}
use cdm.WorkerPool.Worker.{
  Answers, WorkerContext, Work, Write, Response, worker_write_callback, worker_continues,
}

-- A thread with its context; `running` until its loop ends.
pub record Member : Type 0 where
  pub context : WorkerContext
  pub running : Bool

-- `all_created` is false where a thread could not be created, and `log` has the writes, the last one
-- first.
pub record Crew : Type 0 where
  pub pool : RebalancePool
  pub members : List Member
  pub all_created : Bool
  pub log : List Write

-- The context of thread `i` of `n`, as the loop of `worker_pool_run` and the first statements of
-- `run_one_segment` leave it.
abbrev pub new_context : ℕ → ℕ → Bool → Range → WorkerContext
new_context n i progress r = record {
  range = r;
  bytes_done = 0;
  succeeded = false;
  total_workers = n;
  chunk_progress_slot = if progress then some i else none;
  pooled = true;
  slot_index = i;
  truncated = false;
}

-- The loop that creates the threads; `created i` is whether `dm_thread_create` succeeds.
unfoldable pub start_loop : ℕ → (ℕ → Bool) → Bool → ℕ → List Range → List Member × Bool
start_loop n created progress i [] = ([], true)
start_loop n created progress i (r ∷ rs) =
    let (ms, all) = start_loop n created progress (i + 1) rs in
    if created i
    then (record { context = new_context n i progress r; running = true } ∷ ms, all)
    else ([], false)

unfoldable pub start_crew : RebalancePool → ℕ → (ℕ → Bool) → List Range → Crew
unfolding start_loop
start_crew p n created ranges =
    let (ms, all) = start_loop n created p.reports_progress 0 ranges in
    record { pool = p; members = ms; all_created = all; log = [] }

-- What stands for a thread that there is not.
abbrev pub no_member : Member
no_member = record {
  context =
      record (new_context 0 0 false
        (record { start = 0; end = 0; resume_offset = 0; whole_file = false })) {
          succeeded = true;
        };
  running = false;
}

abbrev pub member : Crew → ℕ → Member
member c k = get_or c.members k no_member

abbrev pub work : Crew → ℕ → Work
work c k = record { context = (member c k).context; pool = c.pool }

abbrev pub logged : Option Write → List Write → List Write
logged none log = log
logged (some o) log = o ∷ log

-- libcurl calls the callback of thread `k` with `total` bytes.
unfoldable pub deliver : Answers → ℕ → ℕ → Crew → Crew
deliver a total k c =
    let (w, n, wrote) = worker_write_callback a total (work c k) in
    record c {
      pool = w.pool;
      members = set c.members k (record (member c k) { context = w.context });
      log = logged wrote c.log;
    }

-- The request of thread `k` ends.
unfoldable pub finish : Response → ℕ → Crew → Crew
finish r k c =
    let (w, goes_on) = worker_continues r (work c k) in
    record c {
      pool = w.pool;
      members = set c.members k (record { context = w.context; running = goes_on });
    }

pub data Step : Crew → Crew → Type 0 where
  delivers :
      (a : Answers) (total k : ℕ) (c : Crew)
      → (member c k).running ≡ true
      → Step c (deliver a total k c)
  finishes : (r : Response) (k : ℕ) (c : Crew) → (member c k).running ≡ true → Step c (finish r k c)

pub data Reach (s : Crew) : Crew → Type 0 where
  here : Reach s s
  next : {t u : Crew} → Reach s t → Step t u → Reach s u

-- The loop that joins the threads: has each ended well?
unfoldable pub join_loop : List Member → Bool
join_loop [] = true
join_loop (m ∷ ms) = (not m.running && m.context.succeeded) && join_loop ms

-- `result.all_succeeded`.
unfoldable pub all_succeeded : Crew → Bool
unfolding join_loop
all_succeeded c = c.all_created && join_loop c.members
