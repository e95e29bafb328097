-- ===== src/Queue.antt =====
-- src/core/queue_manager.c: the queue of downloads. Each function takes the queue's lock for all of
-- its body, so it is one step here. A pointer to an entry is the entry's id.
pub mod Requests
pub mod Progress
pub mod Calls
pub mod Entries
pub mod Identity
pub mod Lifecycle
pub mod Ownership
pub mod Idle
pub mod Selection
pub mod Snapshot
pub mod Transitions
mod Tests
use cdm.Prelude.{
  ℕ, zero, suc, ◌+◌, Bool, true, false, not, ◌&&◌, ◌||◌, Option, none, some, List, [], ◌∷◌, ◌++◌,
  Bytes, ltb, leb, ◌==◌, if◌then◌else◌, take, replicate, length, get_or, u32, ltb_ℤ, pos,
}
use cdm.Download.{
  Status, queued, active, paused, done, error, canceled, is_status, RequestOptions, DownloadChunk,
  zero_chunk, Download, max_chunks,
}

-- `g_head` and `g_next_id`.
pub record Queue : Type 0 where
  pub entries : List Download
  pub next_id : ℕ

unfoldable pub init : Queue
init = record { entries = []; next_id = 1 }

abbrev pub is_empty : Bytes → Bool
is_empty [] = true
is_empty (_ ∷ _) = false

unfoldable pub request_options_present : Option RequestOptions → Bool
request_options_present none = false
request_options_present (some o) =
    not (is_empty o.cookie)
    || not (is_empty o.referrer)
    || not (is_empty o.extra_headers)
    || not (is_empty o.expected_sha256)
    || not (o.speed_limit_bps == 0)

-- What `calloc` and `malloc` answer.
pub record Allocation : Type 0 where
  pub entry : Bool
  pub options : Bool

-- The entry that `queue_manager_add` fills in, over the zeros of `calloc`.
unfoldable pub new_download : ℕ → Bytes → Bytes → Option RequestOptions → Download
unfolding request_options_present
new_download id url dest opts = record {
  id = id;
  url = take 2047 url;
  dest_path = take 1023 dest;
  total_size = 0;
  status = queued;
  priority = pos 0;
  progress = 0;
  cancel_requested = false;
  pause_requested = false;
  bytes_downloaded = 0;
  chunk_live_bytes = replicate max_chunks 0;
  chunks = replicate max_chunks zero_chunk;
  chunk_count = 0;
  reserved_file = false;
  retry_count = 0;
  next_retry_at = 0;
  request = if request_options_present opts then opts else none;
}

-- `safe` is the answer of `is_safe_dest_path`. The id is 0 on failure.
unfoldable pub add : Bool → Allocation → Bytes → Bytes → Option RequestOptions → Queue → Queue × ℕ
unfolding new_download
add safe alloc url dest opts q =
    if not safe
    then (q, 0)
    else if not alloc.entry
    then (q, 0)
    else if request_options_present opts && not alloc.options
    then (q, 0)
    else (
      record {
        entries = new_download q.next_id url dest opts ∷ q.entries;
        next_id = u32 (q.next_id + 1);
      },
      q.next_id,
    )

unfoldable pub add_existing : Download → Queue → Queue
add_existing d q = record {
  entries = d ∷ q.entries;
  next_id = if leb q.next_id d.id then u32 (d.id + 1) else q.next_id;
}

unfoldable pub seed_next_id : ℕ → Queue → Queue
seed_next_id min_next_id q =
    if ltb q.next_id min_next_id then record q { next_id = min_next_id } else q

-- The loop `for (cur = g_head; ...) if (cur->id == id) { body; break; }`, with the result `miss`
-- where no entry has the id.
unfoldable pub visit {ℓ} :
    {R : Type ℓ} → ℕ → (Download → Download × R) → R → List Download → List Download × R
visit id body miss [] = ([], miss)
visit id body miss (d ∷ ds) =
    let (d', r) = body d in
    let (rest, s) = visit id body miss ds in if d.id == id then (d' ∷ ds, r) else (d ∷ rest, s)

unfoldable pub on_entry {ℓ} : {R : Type ℓ} → ℕ → (Download → Download × R) → R → Queue → Queue × R
unfolding visit
on_entry id body miss q =
    let (es, r) = visit id body miss q.entries in (record q { entries = es }, r)

-- `remove` unlinks an entry's file; the path goes to the result.
unfoldable pub remove_loop : ℕ → List Download → List Download × Option Bytes
remove_loop id [] = ([], none)
remove_loop id (d ∷ ds) =
    let (rest, unlinked) = remove_loop id ds in
    if d.id == id
    then (if is_status d.status active
        then (record d { cancel_requested = true } ∷ ds, none)
        else (ds, if is_empty d.dest_path then none else some d.dest_path))
    else (d ∷ rest, unlinked)

unfoldable pub remove : ℕ → Queue → Queue × Option Bytes
unfolding remove_loop
remove id q = let (es, unlinked) = remove_loop id q.entries in (record q { entries = es }, unlinked)

unfoldable pub find_by_id : ℕ → List Download → Option Download
find_by_id id [] = none
find_by_id id (d ∷ ds) = if d.id == id then some d else find_by_id id ds

-- The two `continue`s of `queue_manager_find_next_queued`: `d` waits, and its backoff is over.
unfoldable pub is_ready : ℕ → Download → Bool
is_ready now d =
    is_status d.status queued && not (not (d.next_retry_at == 0) && ltb now d.next_retry_at)

unfoldable pub better : Option Download → Download → Bool
better none d = true
better (some best) d = ltb_ℤ best.priority d.priority

unfoldable pub find_next_loop : ℕ → Option Download → List Download → Option Download
unfolding is_ready better
find_next_loop now best [] = best
find_next_loop now best (d ∷ ds) =
    find_next_loop now (if is_ready now d && better best d then some d else best) ds

unfoldable pub find_next_queued : ℕ → Queue → Option Download
unfolding find_next_loop
find_next_queued now q = find_next_loop now none q.entries

-- The loop of `queue_manager_count_by_status` and of `queue_manager_count_by_status_locked`.
unfoldable pub count_loop : Status → List Download → ℕ → ℕ
count_loop s [] count = count
count_loop s (d ∷ ds) count = count_loop s ds (if is_status d.status s then count + 1 else count)

unfoldable pub count_by_status : Status → Queue → ℕ
unfolding count_loop
count_by_status s q = count_loop s q.entries 0
