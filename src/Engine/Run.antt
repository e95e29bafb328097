-- ===== src/Engine/Run.antt =====
-- src/engine/engine_runner.c: `engine_run_download` around the run of the worker pool.
use cdm.Prelude.{
  ℕ, zero, suc, ◌+◌, ◌-◌, Bool, true, false, not, ◌&&◌, ◌||◌, Option, none, some, List, [], ◌∷◌,
  ◌++◌, Bytes, ltb, ◌==◌, if◌then◌else◌, set, ℤ, pos, negsuc,
}
use cdm.Download.{Download, DownloadChunk, max_chunks}
use cdm.Segmenter.{Range, segmenter_plan, choose_worker_count}
use cdm.Finalize.{engine_finalize}
use cdm.Engine.{
  Change, delete_chunks, update_total_size, insert_chunk, update_chunk_progress, is_valid_url,
  discard_chunks, FileInfo, resume_ranges,
}
use cdm.Engine.Single.{Retry, single_run}

-- What `file_preallocate` and `file_preallocate_reserved` answer: 0, -2 or another number.
pub data Preallocation : Type 0 where
  created exists_already failed : Preallocation

-- What the world answers: does the file of a resumed download exist, the HEAD request, the file's
-- size before and after, preallocation, and the hash of the finished file.
pub record World : Type 0 where
  pub resume_file_missing : Bool
  pub head : Option FileInfo
  pub size_on_disk : ℕ
  pub preallocation : Preallocation
  pub final_size : ℕ
  pub final_hex : Option Bytes

-- The arguments of `worker_pool_run` that differ between its calls: `ranges`, and with them
-- `chunk_slot_for_range`.
pub record Plan : Type 0 where
  pub ranges : List Range
  pub slots : List ℕ

-- The code returns, or goes on to run a plan.
pub data Stage : Type 0 where
  returns : ℤ → Stage
  runs : FileInfo → Plan → Stage

abbrev pub expected_sha256 : Download → Option Bytes
expected_sha256 d = elim d.request [ none ↦ none | some o ↦ some o.expected_sha256 ]

abbrev pub finalizes : World → FileInfo → Download → Bool
finalizes w info d = engine_finalize w.final_size w.final_hex info.total_size (expected_sha256 d)

-- The loop that writes a fresh plan to the entry, from range `i` on.
unfoldable pub persist_loop : ℕ → ℕ → List Range → Download × List Change → Download × List Change
persist_loop zero i rs s = s
persist_loop (suc left) i [] s = s
persist_loop (suc left) i (r ∷ rs) (d, said) = persist_loop left (i + 1) rs (
  record d {
    chunks = set d.chunks i (record { range_start = r.start; range_end = r.end; bytes_done = 0 });
    chunk_count = d.chunk_count + 1;
    chunk_live_bytes = set d.chunk_live_bytes i 0;
  },
  said ++ (insert_chunk d.id r.start r.end ∷ []),
)

-- 0, 1, 2, ... from `i` on.
abbrev pub count_from : ℕ → List Range → List ℕ
count_from i [] = []
count_from i (r ∷ rs) = i ∷ count_from (i + 1) rs

-- The ranges of a download that starts afresh.
unfoldable pub fresh_ranges : FileInfo → List Range
fresh_ranges info =
    if ltb 0 info.total_size && info.supports_ranges
    then segmenter_plan info.total_size (choose_worker_count info.total_size)
    else record {
      start = 0;
      end = if ltb 0 info.total_size then info.total_size - 1 else 0;
      resume_offset = 0;
      whole_file = true;
    }
      ∷ []

-- The branch of a fresh download.
unfoldable pub plan_fresh : World → FileInfo → Download → Download × List Change × Stage
unfolding fresh_ranges persist_loop
plan_fresh w info d = elim w.preallocation [
  | exists_already ↦ (d, [], returns (negsuc 2))
  | failed ↦ (d, [], returns (negsuc 0))
  | created ↦
      let rs = fresh_ranges info in
      let (d', said) =
        persist_loop max_chunks 0 rs (record d { chunk_count = 0 }, delete_chunks d.id ∷ []) in
      (
        record d' { bytes_downloaded = 0 },
        said,
        runs info (record { ranges = rs; slots = count_from 0 rs }),
      )
]

-- The end of the branch of a resumed download, for the ranges that are left.
unfoldable pub resume_stage :
    World → FileInfo → List ℕ → List Range → Download → Download × List Change × Stage
resume_stage w info slots [] d =
    let (dropped, said) = discard_chunks true d in
    if finalizes w info d then (d, [], returns (pos 0)) else (dropped, said, returns (negsuc 1))
resume_stage w info slots (r ∷ rs) d =
    (d, [], runs info (record { ranges = r ∷ rs; slots = slots }))

-- The branch of a resumed download.
unfoldable pub plan_resume : World → FileInfo → Download → Download × List Change × Stage
unfolding resume_stage
plan_resume w info d =
    let r = resume_ranges info d in
    resume_stage w info r.slots r.ranges
      (record d { bytes_downloaded = r.downloaded; chunk_live_bytes = r.live })

-- Are the chunks of an older attempt of no use?
unfoldable pub resume_is_stale : World → FileInfo → Download → Bool
resume_is_stale w info d =
    (not (d.total_size == 0) && not (info.total_size == d.total_size))
    || ltb info.total_size w.size_on_disk

abbrev pub sized : FileInfo → Download → Download
sized info d = record d { total_size = info.total_size }

-- The code between the HEAD request and the run of the pool.
unfoldable pub plan_ranges : World → FileInfo → Download → Download × List Change × Stage
unfolding plan_fresh plan_resume resume_is_stale
plan_ranges w info d =
    let size_said = update_total_size d.id info.total_size in
    if d.chunk_count == 0
    then (let (d', said, stage) = plan_fresh w info (sized info d) in (d', size_said ∷ said, stage))
    else if resume_is_stale w info d
    then (let (d0, dropped) = discard_chunks true d in
        let (d', said, stage) = plan_fresh w info (sized info d0) in
        (d', dropped ++ (size_said ∷ said), stage))
    else (let (d', said, stage) = plan_resume w info (sized info d) in
        (d', size_said ∷ said, stage))

-- `engine_run_download` up to the run of the pool.
unfoldable pub prepare : World → Download → Download × List Change × Stage
unfolding plan_ranges
prepare w d =
    if ltb 0 d.chunk_count && w.resume_file_missing
    then (let (d', said) = discard_chunks false d in (d', said, returns (negsuc 3)))
    else if not (is_valid_url d.url)
    then (d, [], returns (negsuc 0))
    else elim w.head [ none ↦ (d, [], returns (negsuc 0)) | some info ↦ plan_ranges w info d ]

-- The flush of the counters, over the chunks in use.
unfoldable pub flush_loop : ℕ → ℕ → List ℕ → List DownloadChunk → List DownloadChunk × List Change
flush_loop id zero live cs = (cs, [])
flush_loop id (suc n) live [] = ([], [])
flush_loop id (suc n) [] (c ∷ cs) = (c ∷ cs, [])
flush_loop id (suc n) (b ∷ live) (c ∷ cs) =
    let (rest, said) = flush_loop id n live cs in
    (record c { bytes_done = b } ∷ rest, update_chunk_progress id c.range_start b ∷ said)

abbrev pub user_stopped : Download → Bool
user_stopped d = d.cancel_requested || d.pause_requested

-- The end of the attempt, for the entry as the last run left it and whether that run succeeded.
unfoldable pub verdict :
    World → FileInfo → List Change → Download × Bool → Download × List Change × ℤ
verdict w info said (d, false) = (d, said, negsuc 0)
verdict w info said (d, true) =
    let (dropped, dropped_said) = discard_chunks true d in
    if finalizes w info d then (d, said, pos 0) else (dropped, said ++ dropped_said, negsuc 1)

-- The code behind the pool's run of `n` ranges, which left the entry `d` and succeeded or not.
unfoldable pub conclude :
    World → FileInfo → ℕ → Bool → Retry → Download → Download × List Change × ℤ
unfolding flush_loop verdict single_run
conclude w info n succeeded retry d =
    let (chunks, said) = flush_loop d.id d.chunk_count d.chunk_live_bytes d.chunks in
    let flushed : Download = record d { chunks = chunks } in
    let again = not succeeded && (ltb 1 n && not (user_stopped flushed)) in
    verdict w info said (
      if again
      then single_run retry (record flushed { bytes_downloaded = 0 })
      else (flushed, succeeded))
