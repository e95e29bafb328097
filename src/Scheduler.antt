-- ===== src/Scheduler.antt =====
-- src/core/scheduler.c: the table of workers, the tick that starts downloads, and what a worker does
-- when the engine returns. Calls of the database, of clients and of the desktop are effects in a
-- list, in the order that the code makes them.
pub mod Workers
pub mod Backoff
pub mod Settle
pub mod Steps
pub mod Bound
pub mod Slots
pub mod Owned
pub mod Active
pub mod Interleave
mod Tests
use Prim.Native.String.{String}
use cdm.Prelude.{
  ℕ, zero, suc, ◌+◌, ◌-◌, ◌*◌, ◌^◌, ◌%◌, Bool, true, false, ◌||◌, Option, none, some, List, [], ◌∷◌,
  ◌++◌, Bytes, ltb, leb, ◌==◌, if◌then◌else◌, ℤ, pos, negsuc, u32_mod,
}
use cdm.Download.{Status, queued, done, paused, error, canceled, Download}
use cdm.Queue.{Queue, on_entry, find_by_id, is_empty}
use cdm.Queue.Requests.{update_status, clear_resume_state}

-- What the scheduler reads from the configuration: ints that `config_init` keeps from being negative.
pub record Policy : Type 0 where
  pub max_concurrent : ℕ
  pub retry_max_attempts : ℕ
  pub retry_base_delay_sec : ℕ
  pub retry_max_delay_sec : ℕ

pub data Urgency : Type 0 where
  info failure : Urgency

pub data Effect : Type 0 where
  db_delete_chunks : ℕ → Effect
  db_update_status : ℕ → String → Effect
  db_update_total_size : ℕ → ℕ → Effect
  unlink : Bytes → Effect
  broadcast_status : ℕ → String → ℕ → Effect
  notify_send : String → Bytes → Urgency → Effect

-- The part behind the last '/', for `rest` still to read and `name` the part behind the last one
-- read.
unfoldable pub basename_loop : Bytes → Bytes → Bytes
basename_loop name [] = name
basename_loop name (c ∷ cs) = basename_loop (if c == b'/' then cs else name) cs

unfoldable pub basename_of : Bytes → Bytes
unfolding basename_loop
basename_of path = basename_loop path path

-- `int delay = base << shift`, whose 32 bits wrap; a set sign bit is `delay < 0`.
unfoldable pub retry_backoff_seconds : Policy → ℕ → ℕ
retry_backoff_seconds p attempt =
    let shift = if ltb 30 (attempt - 1) then 30 else attempt - 1 in
    let delay = (p.retry_base_delay_sec * 2 ^ shift) % u32_mod in
    if ltb p.retry_max_delay_sec delay || leb (2 ^ 31) delay then p.retry_max_delay_sec else delay

abbrev pub eq_ℤ : ℤ → ℤ → Bool
eq_ℤ (pos a) (pos b) = a == b
eq_ℤ (negsuc a) (negsuc b) = a == b
eq_ℤ (pos a) (negsuc b) = false
eq_ℤ (negsuc a) (pos b) = false

-- Where the branches of `download_thread_fn` lead.
pub data Outcome : Type 0 where
  completed stopped suspended unverified refused retried exhausted : Outcome

-- The conditions of the branches, for the engine's answer `rc` and the entry as it is then.
unfoldable pub classify : Policy → ℤ → Download → Outcome
classify p rc d =
    if eq_ℤ rc (pos 0)
    then completed
    else if d.cancel_requested
    then stopped
    else if d.pause_requested
    then suspended
    else if eq_ℤ rc (negsuc 1)
    then unverified
    else if eq_ℤ rc (negsuc 2) || eq_ℤ rc (negsuc 3)
    then refused
    else if ltb d.retry_count p.retry_max_attempts
    then retried
    else exhausted

-- A write through the worker's pointer to the entry.
unfoldable pub amend : ℕ → (Download → Download) → Queue → Queue
unfolding on_entry
amend id f q = (on_entry {0} id (λ d. (f d, tt)) tt q).0

abbrev forget_retries : Download → Download
forget_retries d = record d { retry_count = 0; next_retry_at = 0 }

-- 1.0f.
abbrev pub one_float : ℕ
one_float = 0x3f800000

abbrev failed_effects : ℕ → String → Download → List Effect
failed_effects id said d =
    db_update_status id "ERROR"
    ∷ broadcast_status id said d.progress
    ∷ notify_send "Download Failed" (basename_of d.dest_path) failure
    ∷ []

-- The bodies of the branches, for the entry `d` with the id `id`.
unfoldable pub settle_as : Outcome → Policy → ℕ → ℕ → Download → Queue → Queue × List Effect
settle_as completed p now id d q = (
  update_status id done
      (amend id (λ e. record e { chunk_count = 0; retry_count = 0; next_retry_at = 0 }) q),
  db_delete_chunks id
      ∷ db_update_status id "DONE"
      ∷ broadcast_status id "Done" one_float
      ∷ notify_send "Download Complete" (basename_of d.dest_path) info
      ∷ [],
)
settle_as stopped p now id d q = (
  update_status id canceled (clear_resume_state id q),
  db_delete_chunks id
      ∷ db_update_total_size id 0
      ∷ ((if is_empty d.dest_path then [] else unlink d.dest_path ∷ [])
          ++ (db_update_status id "CANCELED" ∷ broadcast_status id "Canceled" 0 ∷ [])),
)
settle_as suspended p now id d q = (
  update_status id paused q,
  db_update_status id "PAUSED" ∷ broadcast_status id "Paused" d.progress ∷ [],
)
settle_as unverified p now id d q =
    (update_status id error (amend id forget_retries q), failed_effects id "Verification failed" d)
settle_as refused p now id d q =
    (update_status id error (amend id forget_retries q), failed_effects id "Error" d)
settle_as retried p now id d q =
    let attempt = d.retry_count + 1 in
    let at = now + retry_backoff_seconds p attempt in
    (
      update_status id queued
          (amend id (λ e. record e { retry_count = attempt; next_retry_at = at }) q),
      db_update_status id "QUEUED" ∷ broadcast_status id "Retrying" d.progress ∷ [],
    )
settle_as exhausted p now id d q =
    (update_status id error (amend id forget_retries q), failed_effects id "Error" d)

-- `download_thread_fn` from the engine's return on, for the entry that the worker points to.
unfoldable pub settle : Policy → ℕ → ℕ → ℤ → Queue → Queue × List Effect
settle p now id rc q = elim (find_by_id id q.entries) [
  | none ↦ (q, [])
  | some d ↦ settle_as (classify p rc d) p now id d q
]
