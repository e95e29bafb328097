-- ===== src/Persistence.antt =====
-- src/persistence/db.c: `db_restore_queue`, which fills the queue when the daemon starts. The rows that
-- SQLite answers, after the casts to unsigned, are an argument.
pub mod Restored
mod Tests
use cdm.Prelude.{
  ℕ, zero, suc, ◌+◌, ◌-◌, Bool, true, false, not, ◌||◌, Option, none, some, List, [], ◌∷◌, Bytes,
  bytes_eq, length, set, take, replicate, ◌==◌, if◌then◌else◌, codes, u32, ℤ, pos, negsuc,
}
use cdm.Download.{
  Status, queued, active, paused, done, error, canceled, RequestOptions, DownloadChunk, zero_chunk,
  max_chunks, Download,
}
use cdm.Queue.{Queue, add_existing, seed_next_id}

-- A row of the table `downloads`; a text may be NULL, but for the status, which the code passes to
-- strcmp.
pub record DbRow : Type 0 where
  pub id : ℕ
  pub url : Option Bytes
  pub dest_path : Option Bytes
  pub total_size : ℕ
  pub status : Bytes
  pub priority : ℤ
  pub cookie : Option Bytes
  pub referrer : Option Bytes
  pub extra_headers : Option Bytes
  pub expected_sha256 : Option Bytes
  pub speed_limit_bps : ℕ
  pub reserved_file : Bool

-- What a round of the loop meets: the row, the rows of its chunks, and what calloc and malloc answer.
pub record FoundRow : Type 0 where
  pub row : DbRow
  pub chunk_rows : List DownloadChunk
  pub entry_memory : Bool
  pub request_memory : Bool

unfoldable pub db_load_chunks : List DownloadChunk → ℕ → List DownloadChunk
db_load_chunks rows max = take max rows

-- `strncpy(to, text ? text : "", size - 1)` into an array of zeros.
abbrev pub column : ℕ → Option Bytes → Bytes
column size none = []
column size (some text) = take (size - 1) text

unfoldable pub status_of : Bytes → Status
status_of name =
    if bytes_eq name (codes "QUEUED")
    then queued
    else if bytes_eq name (codes "ACTIVE")
    then queued
    else if bytes_eq name (codes "PAUSED")
    then paused
    else if bytes_eq name (codes "ERROR")
    then error
    else if bytes_eq name (codes "CANCELED")
    then canceled
    else queued

abbrev pub row_options : DbRow → RequestOptions
row_options r = record {
  cookie = column 1024 r.cookie;
  referrer = column 2048 r.referrer;
  extra_headers = column 4096 r.extra_headers;
  expected_sha256 = column 65 r.expected_sha256;
  speed_limit_bps = r.speed_limit_bps;
}

abbrev pub has_text : Bytes → Bool
has_text [] = false
has_text (b ∷ bs) = true

-- Is any of the options set?
abbrev pub any_option : RequestOptions → Bool
any_option o =
    has_text o.cookie
    || (has_text o.referrer
        || (has_text o.extra_headers
            || (has_text o.expected_sha256 || not (o.speed_limit_bps == 0))))

-- The loop that writes the chunks, from the index `i` on.
unfoldable pub chunk_loop : ℕ → List DownloadChunk → List DownloadChunk → List DownloadChunk
chunk_loop i [] chunks = chunks
chunk_loop i (r ∷ rs) chunks = chunk_loop (suc i) rs (set chunks i r)

unfoldable pub restored_download : DbRow → List DownloadChunk → Option RequestOptions → Download
unfolding status_of chunk_loop
restored_download r rows request = record {
  id = r.id;
  url = column 2048 r.url;
  dest_path = column 1024 r.dest_path;
  total_size = r.total_size;
  status = status_of r.status;
  priority = r.priority;
  progress = 0;
  cancel_requested = false;
  pause_requested = false;
  bytes_downloaded = 0;
  chunk_live_bytes = replicate max_chunks 0;
  chunks = chunk_loop 0 rows (replicate max_chunks zero_chunk);
  chunk_count = length rows;
  reserved_file = r.reserved_file;
  retry_count = 0;
  next_retry_at = 0;
  request = request;
}

-- A round of the loop; where memory is short the row is passed over.
unfoldable pub restore_row : FoundRow → Option Download
unfolding restored_download db_load_chunks
restore_row f =
    let options = row_options f.row in
    let rows = db_load_chunks f.chunk_rows max_chunks in
    if not f.entry_memory
    then none
    else if not (any_option options)
    then some (restored_download f.row rows none)
    else if not f.request_memory
    then none
    else some (restored_download f.row rows (some options))

unfoldable pub with_restored : Option Download → Queue → Queue
unfolding add_existing
with_restored none q = q
with_restored (some d) q = add_existing d q

unfoldable pub restore_loop : List FoundRow → Queue → Queue
unfolding restore_row with_restored
restore_loop [] q = q
restore_loop (f ∷ fs) q = restore_loop fs (with_restored (restore_row f) q)

-- `ready` is whether the database is open, `prepared` whether the statement could be made.
unfoldable pub db_restore_queue : Bool → Bool → List FoundRow → Queue → Queue × ℤ
unfolding restore_loop
db_restore_queue ready prepared found q =
    if not ready
    then (q, negsuc 0)
    else if not prepared
    then (q, negsuc 0)
    else (restore_loop found q, pos 0)

-- The daemon's start: the queue is empty and its next id is 1; `max_id` is what `db_get_max_id` answers.
unfoldable pub restored_queue : Bool → Bool → List FoundRow → ℕ → Queue
unfolding db_restore_queue seed_next_id
restored_queue ready prepared found max_id =
    seed_next_id (u32 (max_id + 1))
      (db_restore_queue ready prepared found (record { entries = []; next_id = 1 })).0
