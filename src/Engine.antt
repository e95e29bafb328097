-- ===== src/Engine.antt =====
-- src/engine/engine_runner.c: one attempt at a download. What the network, the file system and the
-- worker pool answer are arguments; calls of the database and of `unlink` are changes in a list.
pub mod Single
pub mod Run
pub mod Splits
pub mod Plans
pub mod Ends
mod Tests
use cdm.Prelude.{
  ℕ, zero, suc, ◌+◌, ◌-◌, Bool, true, false, not, ◌&&◌, ◌||◌, Option, none, some, List, [], ◌∷◌,
  ◌++◌, Bytes, ltb, leb, ◌==◌, if◌then◌else◌, length, get_or, set, take, replicate, u64, sub_u64,
}
use cdm.Download.{Download, DownloadChunk, zero_chunk, max_chunks}
use cdm.Queue.{is_empty}
use cdm.Segmenter.{Range, max_workers}

pub data Change : Type 0 where
  delete_chunks : ℕ → Change
  update_total_size : ℕ → ℕ → Change
  insert_chunk : ℕ → ℕ → ℕ → Change
  update_chunk_range : ℕ → ℕ → ℕ → Change
  update_chunk_progress : ℕ → ℕ → ℕ → Change
  unlink_file : Bytes → Change

-- The loop of `on_rebalance_split` over the chunks in use.
unfoldable pub shrink_victim : ℕ → ℕ → ℕ → List DownloadChunk → List DownloadChunk × Bool
shrink_victim zero victim_start new_start cs = (cs, false)
shrink_victim (suc n) victim_start new_start [] = ([], false)
shrink_victim (suc n) victim_start new_start (c ∷ cs) =
    let (rest, found) = shrink_victim n victim_start new_start cs in
    if c.range_start == victim_start
    then (record c { range_end = sub_u64 new_start 1 } ∷ cs, true)
    else (c ∷ rest, found)

-- The new entry, and the calls of the database. The pointer that goes to `progress_slots` is left
-- out.
unfoldable pub on_rebalance_split : ℕ → ℕ → ℕ → Download → Download × List Change
unfolding shrink_victim
on_rebalance_split victim_start new_start new_end d =
    let (shrunk, found) = shrink_victim d.chunk_count victim_start new_start d.chunks in
    let said =
      if found then update_chunk_range d.id victim_start (sub_u64 new_start 1) ∷ [] else [] in
    let added : DownloadChunk = record {
      range_start = new_start;
      range_end = sub_u64 new_end 1;
      bytes_done = 0;
    } in
    if leb max_chunks d.chunk_count then (record d { chunks = shrunk }, said) else (
      record d {
        chunks = set shrunk d.chunk_count added;
        chunk_count = d.chunk_count + 1;
        chunk_live_bytes = set d.chunk_live_bytes d.chunk_count 0;
      },
      said ++ (insert_chunk d.id new_start (sub_u64 new_end 1) ∷ []),
    )

-- strncmp(s, p, strlen(p)) == 0.
abbrev pub has_prefix : Bytes → Bytes → Bool
has_prefix [] s = true
has_prefix (c ∷ p) [] = false
has_prefix (c ∷ p) (b ∷ s) = (c == b) && has_prefix p s

abbrev http_prefix : Bytes
http_prefix = b'h' ∷ b't' ∷ b't' ∷ b'p' ∷ b':' ∷ b'/' ∷ b'/' ∷ []

abbrev https_prefix : Bytes
https_prefix = b'h' ∷ b't' ∷ b't' ∷ b'p' ∷ b's' ∷ b':' ∷ b'/' ∷ b'/' ∷ []

unfoldable pub is_valid_url : Bytes → Bool
is_valid_url url = has_prefix http_prefix url || has_prefix https_prefix url

abbrev pub chunk_size : DownloadChunk → ℕ
chunk_size c = u64 (sub_u64 c.range_end c.range_start + 1)

unfoldable pub chunk_is_complete : DownloadChunk → Bool
chunk_is_complete c = leb (chunk_size c) c.bytes_done

-- `clear_resume_state` of the engine, which unlike the queue's keeps the retry counters.
unfoldable pub discard_chunks : Bool → Download → Download × List Change
discard_chunks also_delete_file d = (
  record d {
    chunks = replicate max_chunks zero_chunk;
    chunk_count = 0;
    total_size = 0;
    progress = 0;
    bytes_downloaded = 0;
    chunk_live_bytes = replicate max_chunks 0;
  },
  delete_chunks d.id
      ∷ update_total_size d.id 0
      ∷ (if also_delete_file && not (is_empty d.dest_path)
          then unlink_file d.dest_path ∷ []
          else []),
)

-- What `curl_client_head` learns.
pub record FileInfo : Type 0 where
  pub total_size : ℕ
  pub supports_ranges : Bool

-- What the loop over the chunks of a resumed download builds: `bytes_downloaded`,
-- `chunk_live_bytes`, `ranges` and `chunk_slot_for_range`.
pub record Resumed : Type 0 where
  pub downloaded : ℕ
  pub live : List ℕ
  pub ranges : List Range
  pub slots : List ℕ

-- The body of the loop, for chunk `i`.
unfoldable pub resume_chunk : FileInfo → ℕ → DownloadChunk → Resumed → Resumed
unfolding chunk_is_complete
resume_chunk info i c r =
    let force_whole_file =
      not info.supports_ranges
      && ((c.range_start == 0) && (c.range_end == sub_u64 info.total_size 1)) in
    if chunk_is_complete c
    then record r {
      downloaded = u64 (r.downloaded + chunk_size c);
      live = set r.live i c.bytes_done;
    }
    else record {
      downloaded = if force_whole_file then r.downloaded else u64 (r.downloaded + c.bytes_done);
      live = set r.live i c.bytes_done;
      ranges =
          r.ranges
          ++ (record {
            start = c.range_start;
            end = c.range_end;
            resume_offset = if force_whole_file then 0 else c.bytes_done;
            whole_file = force_whole_file;
          }
              ∷ []);
      slots = r.slots ++ (i ∷ []);
    }

unfoldable pub resume_loop : FileInfo → ℕ → List DownloadChunk → Resumed → Resumed
unfolding resume_chunk
resume_loop info i [] r = r
resume_loop info i (c ∷ cs) r =
    if ltb (length r.ranges) max_workers
    then resume_loop info (i + 1) cs (resume_chunk info i c r)
    else r

unfoldable pub resume_ranges : FileInfo → Download → Resumed
unfolding resume_loop
resume_ranges info d =
    resume_loop info 0 (take d.chunk_count d.chunks)
      (record { downloaded = 0; live = d.chunk_live_bytes; ranges = []; slots = [] })
