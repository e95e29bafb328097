-- ===== src/Engine/Single.antt =====
-- src/engine/worker_pool.c, as src/engine/engine_runner.c calls it for the attempt over a single
-- connection: one worker, without a pool of slots. The bytes of the connection and the answers to the
-- callback are arguments.
use cdm.Prelude.{
  ℕ, ◌+◌, ◌≡◌, refl, sym, ap, ◌∙◌, inl, inr, Bool, true, false, not, ◌&&◌, ◌||◌, none, List, [],
  ◌∷◌, arith, ◌==◌, if◌then◌else◌, u64, Bool-cases,
}
use cdm.Download.{Download}
use cdm.Segmenter.{Range}
use cdm.WorkerPool.{RebalancePool}
use cdm.WorkerPool.Worker.{
  WorkerContext, Answers, Work, Response, begin_segment, write_bytes, worker_write_callback,
  expected_bytes, segment_succeeded, worker_continues,
}

-- The range of the attempt over a single connection.
abbrev pub single_range : Range
single_range = record { start = 0; end = 0; resume_offset = 0; whole_file = true }

-- The context that `worker_pool_run` makes of it: no slot for the progress of a chunk, no pool.
abbrev pub single_context : WorkerContext
single_context = record {
  range = single_range;
  bytes_done = 0;
  succeeded = false;
  total_workers = 1;
  chunk_progress_slot = none;
  pooled = false;
  slot_index = 0;
  truncated = false;
}

-- What the attempt meets: do the file and the memory come, does the thread start, the calls of the
-- callback with their sizes, and how the request ended.
pub record Retry : Type 0 where
  pub opened : Bool
  pub thread_starts : Bool
  pub callbacks : List (Answers × ℕ)
  pub response : Response

unfoldable pub transfer : List (Answers × ℕ) → Work → Work
transfer [] w = w
transfer ((a, total) ∷ calls) w = transfer calls (worker_write_callback a total w).0

abbrev pub single_work : RebalancePool → Work
single_work p = record { context = begin_segment single_context; pool = p }

-- No slots: `pool` is NULL, and nothing reads them.
abbrev pub no_pool : RebalancePool
no_pool = record { slots = []; min_steal_bytes = 0; reports_progress = false }

-- `worker_pool_run` for the single range.
unfoldable pub single_run : Retry → Download → Download × Bool
unfolding transfer
single_run r d =
    if not r.opened
    then (d, false)
    else if not r.thread_starts
    then (record d { cancel_requested = true }, false)
    else (let w = transfer r.callbacks (single_work no_pool) in
        (
          record d { bytes_downloaded = u64 (d.bytes_downloaded + w.context.bytes_done) },
          (worker_continues r.response w).0.context.succeeded,
        ))

-- Does a callback with these answers take its bytes?
abbrev pub takes : Answers → Bool
takes a = not (a.canceled || a.paused) && (a.granted && a.written)

-- The bytes that the callbacks took.
abbrev pub taken : List (Answers × ℕ) → ℕ
taken [] = 0
taken ((a, total) ∷ calls) = (if takes a then total else 0) + taken calls

-- The run gets its file and its thread, the server answers 200 or 206, the request ends well, and
-- the callbacks took one byte, no less and no more (mod 2 ^ 64).
abbrev pub gets_one_byte : Retry → Bool
gets_one_byte r =
    r.opened
    && (r.thread_starts
        && (((r.response.http_status == 206) || (r.response.http_status == 200))
            && ((u64 (taken r.callbacks) == 1) && r.response.curl_ok)))

abbrev done_by : ℕ → Work
done_by n = record {
  context = record (begin_segment single_context) { bytes_done = n };
  pool = no_pool;
}

callback_single :
    (a : Answers) (total n : ℕ)
    → (worker_write_callback a total (done_by n)).0
      ≡ done_by (if takes a then u64 (n + total) else n)
unfolding worker_write_callback write_bytes
callback_single a total n = elim (Bool-cases (a.canceled || a.paused)) [
  | inl stop ↦ rw stop refl
  | inr on ↦ elim (Bool-cases a.granted) [
    | inr denied ↦ rw (on, denied) refl
    | inl granted ↦ elim (Bool-cases a.written) [
      | inr failed ↦ rw (on, granted, failed) refl
      | inl wrote ↦ rw (on, granted, wrote) refl
    ]
  ]
]

sum_u64 : (n t rest : ℕ) → u64 (u64 (n + t) + rest) ≡ u64 (n + (t + rest))
sum_u64 n t rest = grind arith

transfer-single :
    (calls : List (Answers × ℕ)) (n : ℕ)
    → u64 n ≡ n
    → transfer calls (done_by n) ≡ done_by (u64 (n + taken calls))
unfolding transfer
transfer-single [] n h = let e : n + 0 ≡ n = omega arith in rw e (ap done_by (sym h))
transfer-single ((a, total) ∷ calls) n h = elim (Bool-cases (takes a)) [
  | inl took ↦
      rw (callback_single a total n, took)
        (transfer-single calls (u64 (n + total)) (grind arith)
          ∙ ap done_by (sum_u64 n total (taken calls)))
  | inr not_taken ↦
      let skipped : n + taken calls ≡ n + (0 + taken calls) = omega arith in
      rw (callback_single a total n, not_taken)
        (transfer-single calls n h ∙ ap (λ m. done_by (u64 m)) skipped)
]

plain : (a b c e : Bool) → ((a || (b && true)) && (c && (e || false))) ≡ ((a || b) && (c && e))
plain a true c true = refl
plain a true c false = refl
plain a false c true = refl
plain a false c false = refl

segment_single :
    (r : Response) (n : ℕ)
    → segment_succeeded r (done_by n).context no_pool
      ≡ (((r.http_status == 206) || (r.http_status == 200)) && ((n == 1) && r.curl_ok))
unfolding segment_succeeded expected_bytes
segment_single r n = plain (r.http_status == 206) (r.http_status == 200) (n == 1) r.curl_ok

-- The worker of the single range succeeds only with a single byte.
worker_continues-single :
    (r : Response) (n : ℕ)
    → (worker_continues r (done_by n)).0.context.succeeded
      ≡ (((r.http_status == 206) || (r.http_status == 200)) && ((n == 1) && r.curl_ok))
unfolding worker_continues
worker_continues-single r n =
    elim (Bool-cases
      (((r.http_status == 206) || (r.http_status == 200)) && ((n == 1) && r.curl_ok))) [
        | inl good ↦ rw (segment_single r n, good) refl
        | inr bad ↦ rw (segment_single r n, bad) refl
      ]

pub single_run_lem :
    (r : Retry) (d : Download)
    → (b : ℕ) × (c : Bool) × (single_run r d
        ≡ (record d { bytes_downloaded = b; cancel_requested = c }, gets_one_byte r))
unfolding single_run
single_run_lem r d = elim (Bool-cases r.opened) [
  | inr shut ↦ (d.bytes_downloaded, d.cancel_requested, rw shut refl)
  | inl opened ↦ elim (Bool-cases r.thread_starts) [
    | inr none_starts ↦ (d.bytes_downloaded, true, rw (opened, none_starts) refl)
    | inl starts ↦ (
      u64 (d.bytes_downloaded + u64 (taken r.callbacks)),
      d.cancel_requested,
      let zero_first : 0 + taken r.callbacks ≡ taken r.callbacks = omega arith in
          rw (opened, starts, transfer-single r.callbacks 0 refl, zero_first)
            (ap
              (λ (b : Bool). (
                record d { bytes_downloaded = u64 (d.bytes_downloaded + u64 (taken r.callbacks)) },
                b,
              ))
              (worker_continues-single r.response (u64 (taken r.callbacks)))),
    )
  ]
]
