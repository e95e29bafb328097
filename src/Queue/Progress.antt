-- ===== src/Queue/Progress.antt =====
-- src/core/queue_manager.c: the snapshots that the daemon reports to clients and to the database.
use cdm.Prelude.{
  ℕ, zero, suc, ◌+◌, ◌-◌, Bool, Option, none, some, List, [], ◌∷◌, ◌++◌, Bytes, ltb, if◌then◌else◌,
  take, length, get_or,
}
use cdm.Download.{Status, active, is_status, zero_chunk, DownloadChunk, Download, max_chunks}
use cdm.Queue.{Queue, find_by_id}

pub record DownloadProgressSnapshot : Type 0 where
  pub id : ℕ
  pub bytes_downloaded : ℕ
  pub total_size : ℕ

pub record ChunkProgressSnapshot : Type 0 where
  pub download_id : ℕ
  pub range_start : ℕ
  pub bytes_done : ℕ

pub record DownloadRuntimeSnapshot : Type 0 where
  pub status : Status
  pub total_size : ℕ
  pub bytes_downloaded : ℕ
  pub dest_path : Bytes
  pub chunk_count : ℕ
  pub chunks : List DownloadChunk

unfoldable pub runtime_of : Download → DownloadRuntimeSnapshot
runtime_of d =
    let n = if ltb max_chunks d.chunk_count then max_chunks else d.chunk_count in
    record {
      status = d.status;
      total_size = d.total_size;
      bytes_downloaded = d.bytes_downloaded;
      dest_path = d.dest_path;
      chunk_count = n;
      chunks = take n d.chunks;
    }

-- `wanted` is whether the caller passed a place for the answer.
unfoldable pub get_runtime_snapshot : Bool → ℕ → Queue → Option DownloadRuntimeSnapshot
unfolding find_by_id runtime_of
get_runtime_snapshot wanted id q =
    if wanted
    then elim (find_by_id id q.entries) [ none ↦ none | some d ↦ some (runtime_of d) ]
    else none

abbrev pub progress_of : Download → DownloadProgressSnapshot
progress_of d = record {
  id = d.id;
  bytes_downloaded = d.bytes_downloaded;
  total_size = d.total_size;
}

-- The loop, with room for `room` more snapshots.
unfoldable pub active_progress : ℕ → List Download → List DownloadProgressSnapshot
active_progress zero ds = []
active_progress (suc room) [] = []
active_progress (suc room) (d ∷ ds) =
    let running = progress_of d ∷ active_progress room ds in
    let idle = active_progress (suc room) ds in if is_status d.status active then running else idle

unfoldable pub snapshot_active_progress : ℕ → Queue → List DownloadProgressSnapshot
unfolding active_progress
snapshot_active_progress max q = active_progress max q.entries

abbrev pub chunk_row : Download → ℕ → ChunkProgressSnapshot
chunk_row d j = record {
  download_id = d.id;
  range_start = (get_or d.chunks j zero_chunk).range_start;
  bytes_done = get_or d.chunk_live_bytes j 0;
}

-- The inner loop at round `j`, with `left` rounds and room for `room` more rows.
unfoldable pub chunk_rows : Download → ℕ → ℕ → ℕ → List ChunkProgressSnapshot
chunk_rows d zero j room = []
chunk_rows d (suc left) j zero = []
chunk_rows d (suc left) j (suc room) = chunk_row d j ∷ chunk_rows d left (j + 1) room

-- The outer loop.
unfoldable pub chunk_progress : ℕ → List Download → List ChunkProgressSnapshot
unfolding chunk_rows
chunk_progress room [] = []
chunk_progress room (d ∷ ds) =
    let rows = chunk_rows d d.chunk_count 0 room in
    let running = rows ++ chunk_progress (room - length rows) ds in
    let idle = chunk_progress room ds in if is_status d.status active then running else idle

unfoldable pub snapshot_chunk_progress : ℕ → Queue → List ChunkProgressSnapshot
unfolding chunk_progress
snapshot_chunk_progress max q = chunk_progress max q.entries
