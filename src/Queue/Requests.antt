-- ===== src/Queue/Requests.antt =====
-- src/core/queue_manager.c, "Status / control": what the daemon and the workers ask of one entry.
use cdm.Prelude.{ℕ, Bool, true, false, ◌||◌, Option, none, some, if◌then◌else◌, replicate}
use cdm.Download.{
  Status, queued, active, paused, error, canceled, is_status, zero_chunk, Download, max_chunks,
}
use cdm.Queue.{Queue, on_entry, find_by_id}

unfoldable pub update_status : ℕ → Status → Queue → Queue
unfolding on_entry
update_status id s q = (on_entry {0} id (λ d. (record d { status = s }, tt)) tt q).0

abbrev pub cancel_body : Download → Download × Bool
cancel_body d =
    if is_status d.status active
    then (record d { cancel_requested = true }, true)
    else (record d { status = canceled }, false)

-- The answer is whether the entry was active.
unfoldable pub cancel : ℕ → Queue → Queue × Bool
unfolding on_entry
cancel id q = on_entry id cancel_body false q

abbrev pub pause_body : Download → Download × Bool
pause_body d =
    if is_status d.status active
    then (record d { pause_requested = true }, true)
    else if is_status d.status queued
    then (record d { status = paused }, false)
    else (d, false)

unfoldable pub pause : ℕ → Queue → Queue × Bool
unfolding on_entry
pause id q = on_entry id pause_body false q

abbrev pub resume_body : Download → Download × Bool
resume_body d =
    if is_status d.status paused || is_status d.status error
    then (
      record d {
        pause_requested = false;
        cancel_requested = false;
        retry_count = 0;
        next_retry_at = 0;
        status = queued;
      },
      true,
    )
    else (d, false)

unfoldable pub resume : ℕ → Queue → Queue × Bool
unfolding on_entry
resume id q = on_entry id resume_body false q

abbrev pub cleared : Download → Download
cleared d = record d {
  chunks = replicate max_chunks zero_chunk;
  chunk_count = 0;
  total_size = 0;
  progress = 0;
  retry_count = 0;
  next_retry_at = 0;
  bytes_downloaded = 0;
  chunk_live_bytes = replicate max_chunks 0;
}

unfoldable pub clear_resume_state : ℕ → Queue → Queue
unfolding on_entry
clear_resume_state id q = (on_entry {0} id (λ d. (cleared d, tt)) tt q).0

-- `wanted` is whether the caller passed a place for the answer.
unfoldable pub get_status : Bool → ℕ → Queue → Option Status
unfolding find_by_id
get_status wanted id q =
    if wanted then elim (find_by_id id q.entries) [ none ↦ none | some d ↦ some d.status ] else none
