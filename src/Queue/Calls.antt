-- ===== src/Queue/Calls.antt =====
-- src/core/queue_manager.c: the calls that change the queue, as data.
use cdm.Prelude.{ℕ, Bool, Option, Bytes}
use cdm.Download.{Status, RequestOptions, Download}
use cdm.Queue.{Queue, Allocation, add, add_existing, seed_next_id, remove}
use cdm.Queue.Requests.{update_status, cancel, pause, resume, clear_resume_state}

pub data Call : Type 0 where
  adds : Bool → Allocation → Bytes → Bytes → Option RequestOptions → Call
  restores : Download → Call
  seeds removes cancels pauses resumes clears : ℕ → Call
  updates : ℕ → Status → Call

unfoldable pub apply : Call → Queue → Queue
apply (adds safe alloc url dest opts) q = (add safe alloc url dest opts q).0
apply (restores d) q = add_existing d q
apply (seeds n) q = seed_next_id n q
apply (removes id) q = (remove id q).0
apply (cancels id) q = (cancel id q).0
apply (pauses id) q = (pause id q).0
apply (resumes id) q = (resume id q).0
apply (clears id) q = clear_resume_state id q
apply (updates id s) q = update_status id s q
