-- ===== src/WorkerPool/Worker.antt =====
-- src/engine/worker_pool.c: a worker's context, the write callback, the end of a request, and the
-- loop of the worker thread. libcurl is a parameter: what it gives the callback and what it answers.
use cdm.Prelude.{
  ℕ, ◌+◌, ◌-◌, ◌/◌, Bool, true, false, not, ◌&&◌, ◌||◌, Option, none, some, ltb, leb, ◌==◌,
  if◌then◌else◌, get_or, set, u64,
}
use cdm.Segmenter.{Range}
use cdm.WorkerPool.{PoolSlot, zero_slot, RebalancePool, Assignment, acquire, mark_done}

-- `pooled` is `pool != NULL`.
pub record WorkerContext : Type 0 where
  pub range : Range
  pub bytes_done : ℕ
  pub succeeded : Bool
  pub total_workers : ℕ
  pub chunk_progress_slot : Option ℕ
  pub pooled : Bool
  pub slot_index : ℕ
  pub truncated : Bool

-- What the callback asks: the flags, `bandwidth_acquire`, and `file_pwrite`; `written` is its answer
-- 0, and else `reached` bytes have come into the file before it failed.
pub record Answers : Type 0 where
  pub canceled : Bool
  pub paused : Bool
  pub granted : Bool
  pub written : Bool
  pub reached : ℕ

-- `file_pwrite` of `length` bytes at `offset`, and the counters that are raised by `length`.
pub record Write : Type 0 where
  pub offset : ℕ
  pub length : ℕ
  pub counter : Option ℕ

-- `range.start + range.resume_offset + bytes_done`.
abbrev pub intended_offset : WorkerContext → ℕ
intended_offset c = u64 (c.range.start + c.range.resume_offset)

abbrev pub current_offset : WorkerContext → ℕ
current_offset c = u64 (c.range.start + c.range.resume_offset + c.bytes_done)

abbrev pub advance : ℕ → PoolSlot → PoolSlot
advance n s = record s { write_pos = u64 (s.write_pos + n) }

-- The state that a callback works on.
pub record Work : Type 0 where
  pub context : WorkerContext
  pub pool : RebalancePool

-- `writable` bytes go to the file and to the counters; the callback returns `writable`.
unfoldable pub write_bytes : Answers → ℕ → Work → Work × ℕ × Option Write
write_bytes a writable w =
    let c = w.context in
    let slot = get_or w.pool.slots c.slot_index zero_slot in
    if not a.written then (w, 0, none) else (
      record {
        context = record c { bytes_done = u64 (c.bytes_done + writable) };
        pool =
            if c.pooled
            then record w.pool { slots = set w.pool.slots c.slot_index (advance writable slot) }
            else w.pool;
      },
      writable,
      some (record {
        offset = current_offset c;
        length = writable;
        counter = c.chunk_progress_slot;
      }),
    )

abbrev pub truncate : Work → Work
truncate w = record w { context = record w.context { truncated = true } }

-- The callback for `total` bytes: the new state, its return value, and what it wrote.
unfoldable pub worker_write_callback : Answers → ℕ → Work → Work × ℕ × Option Write
unfolding write_bytes
worker_write_callback a total w =
    let at = current_offset w.context in
    let live_end = (get_or w.pool.slots w.context.slot_index zero_slot).live_end in
    if a.canceled || a.paused
    then (w, 0, none)
    else if not a.granted
    then (w, 0, none)
    else if not w.context.pooled
    then write_bytes a total w
    else if leb live_end at
    then (truncate w, 0, none)
    else if ltb (live_end - at) total
    then write_bytes a (live_end - at) (truncate w)
    else write_bytes a total w

-- What a write that `file_pwrite` answers with -1 leaves in the file at `at`: `pwrite` fell short.
abbrev pub short_write : Answers → ℕ → ℕ → Option Write
short_write a at writable =
    if a.written
    then none
    else some (record {
      offset = at;
      length = if ltb a.reached writable then a.reached else writable;
      counter = none;
    })

-- The part of a failed write that the callback for `total` bytes leaves in the file, uncounted.
unfoldable pub stray_write : Answers → ℕ → Work → Option Write
stray_write a total w =
    let at = current_offset w.context in
    let live_end = (get_or w.pool.slots w.context.slot_index zero_slot).live_end in
    if a.canceled || a.paused
    then none
    else if not a.granted
    then none
    else if not w.context.pooled
    then short_write a at total
    else if leb live_end at
    then none
    else if ltb (live_end - at) total
    then short_write a at (live_end - at)
    else short_write a at total

-- The first statements of `run_one_segment`.
abbrev pub begin_segment : WorkerContext → WorkerContext
begin_segment c = record c { succeeded = false; truncated = false; bytes_done = 0 }

-- CURLOPT_LOW_SPEED_LIMIT, for the worker's own limit.
unfoldable pub low_speed_limit : ℕ → ℕ
low_speed_limit bps =
    if ltb 0 bps && ltb bps 1024 then (if ltb (bps / 2) 1 then 1 else bps / 2) else 1024

abbrev expected_in : ℕ → ℕ → ℕ
expected_in at end = if ltb at end then end - at else 0

unfoldable pub expected_bytes : WorkerContext → RebalancePool → ℕ
expected_bytes c p =
    if c.pooled
    then expected_in (intended_offset c) (get_or p.slots c.slot_index zero_slot).live_end
    else (if leb (intended_offset c) c.range.end
        then u64 (c.range.end - intended_offset c + 1)
        else 0)

-- How the request ended: the HTTP status, and `res == CURLE_OK`.
pub record Response : Type 0 where
  pub http_status : ℕ
  pub curl_ok : Bool

-- The judgement at the end of `run_one_segment`.
unfoldable pub segment_succeeded : Response → WorkerContext → RebalancePool → Bool
unfolding expected_bytes
segment_succeeded r c p =
    let ok_200 =
      (r.http_status == 200)
      && (c.range.whole_file || ((c.total_workers == 1) && (intended_offset c == 0))) in
    let http_ok = (r.http_status == 206) || ok_200 in
    let exact_bytes = c.bytes_done == expected_bytes c p in
    http_ok && (exact_bytes && (r.curl_ok || c.truncated))

-- The assignments at the end of the worker's loop.
abbrev pub assign : Assignment → WorkerContext → WorkerContext
assign a c = record c { range = a.range; slot_index = a.slot; chunk_progress_slot = a.progress }

-- The rest of the loop's body, for the pool's answer: does the loop go on?
unfoldable pub next_segment : Work → RebalancePool × Option Assignment → Work × Bool
next_segment w (p, none) =
    (record { context = record w.context { succeeded = true }; pool = p }, false)
next_segment w (p, some a) =
    (record { context = begin_segment (assign a w.context); pool = p }, true)

-- One round of the loop of `worker_thread_function` behind `run_one_segment`.
unfoldable pub worker_continues : Response → Work → Work × Bool
unfolding segment_succeeded next_segment
worker_continues r w =
    if not (segment_succeeded r w.context w.pool)
    then (record w { context = record w.context { succeeded = false } }, false)
    else if not w.context.pooled
    then (record w { context = record w.context { succeeded = true } }, false)
    else next_segment w (acquire (mark_done w.context.slot_index w.pool))

-- The share of the limit that `worker_pool_run` gives each of `n_workers` workers.
unfoldable pub per_worker_limit : ℕ → ℕ → ℕ
per_worker_limit total_bps n_workers =
    if ltb 0 total_bps then (if total_bps / n_workers == 0 then 1 else total_bps / n_workers) else 0
