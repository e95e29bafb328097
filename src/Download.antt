-- ===== src/Download.antt =====
-- src/core/queue_manager.h: the entry of the download queue.
use cdm.Prelude.{ℕ, Bool, Option, List, Bytes, ℤ}

-- QM_MAX_CHUNKS.
abbrev pub max_chunks : ℕ
max_chunks = 8

-- DownloadStatus, less its prefix DOWNLOAD_.
pub data Status : Type 0 where
  queued active paused done error canceled : Status

pub Status-discrete : Discrete Status
Status-discrete = hlevel

abbrev pub is_status : Status → Status → Bool
is_status queued queued = Bool.true
is_status active active = Bool.true
is_status paused paused = Bool.true
is_status done done = Bool.true
is_status error error = Bool.true
is_status canceled canceled = Bool.true
is_status _ _ = Bool.false

pub record RequestOptions : Type 0 where
  pub cookie : Bytes
  pub referrer : Bytes
  pub extra_headers : Bytes
  pub expected_sha256 : Bytes
  pub speed_limit_bps : ℕ

-- One segment of a download; `range_end` is inclusive.
pub record DownloadChunk : Type 0 where
  pub range_start : ℕ
  pub range_end : ℕ
  pub bytes_done : ℕ

abbrev pub zero_chunk : DownloadChunk
zero_chunk = record { range_start = 0; range_end = 0; bytes_done = 0 }

-- The pointer `next` is the place in the list of `Queue`. A `char` array is the C string that it
-- holds; the two arrays of QM_MAX_CHUNKS items are lists of that length. `progress` is the bit
-- pattern of a float, 0 for 0.0f. Times are seconds.
pub record Download : Type 0 where
  pub id : ℕ
  pub url : Bytes
  pub dest_path : Bytes
  pub total_size : ℕ
  pub status : Status
  pub priority : ℤ
  pub progress : ℕ
  pub cancel_requested : Bool
  pub pause_requested : Bool
  pub bytes_downloaded : ℕ
  pub chunk_live_bytes : List ℕ
  pub chunks : List DownloadChunk
  pub chunk_count : ℕ
  pub reserved_file : Bool
  pub retry_count : ℕ
  pub next_retry_at : ℕ
  pub request : Option RequestOptions
