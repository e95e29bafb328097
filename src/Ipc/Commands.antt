-- ===== src/Ipc/Commands.antt =====
-- src/platform/ipc_socket.c: PAUSE, RESUME, CANCEL and LIST. The calls of the database are a list;
-- the text that db_update_status is given is the status that it names. Each call of the queue takes
-- its lock, and a worker may run between two of them, so the queue whose status is read and the
-- queue that is changed are two arguments.
use cdm.Prelude.{
  ℕ, ◌+◌, Bool, true, not, ◌||◌, Option, none, some, List, [], ◌∷◌, ◌++◌, Bytes, if◌then◌else◌, u32,
}
use cdm.Download.{Status, queued, active, paused, done, canceled, is_status, Download}
use cdm.Queue.{Queue, find_by_id, count_by_status}
use cdm.Queue.Requests.{cancel, pause, resume, clear_resume_state, get_status}
use cdm.Ipc.{IpcResult, ok, not_found, rejected}

-- The calls that a command makes besides those of the queue.
pub data ServerCall : Type 0 where
  db_update_status : ℕ → Status → ServerCall
  db_delete_chunks : ℕ → ServerCall
  db_update_total_size : ℕ → ℕ → ServerCall
  unlink : Bytes → ServerCall

pub record Reply : Type 0 where
  pub result : IpcResult
  pub queue : Queue
  pub calls : List ServerCall

-- Where the status is missing the answer is NOT_FOUND, and where the test refuses it, REJECTED.
abbrev pub guarded : (Status → Bool) → Reply → Queue → Option Status → Reply
guarded allowed reply q none = record { result = not_found; queue = q; calls = [] }
guarded allowed reply q (some before) =
    if allowed before then reply else record { result = rejected; queue = q; calls = [] }

abbrev pub may_pause : Status → Bool
may_pause before = is_status before active || is_status before queued

unfoldable pub pause_reply : ℕ → Queue → Reply
unfolding pause
pause_reply id q =
    let (q', was_active) = pause id q in
    record {
      result = ok;
      queue = q';
      calls = if was_active then [] else db_update_status id paused ∷ [];
    }

unfoldable pub handle_pause : Queue → ℕ → Queue → Reply
unfolding pause_reply get_status
handle_pause seen id q = guarded may_pause (pause_reply id q) q (get_status true id seen)

unfoldable pub resume_reply : ℕ → Queue → Reply
unfolding resume
resume_reply id q =
    let (q', resumed) = resume id q in
    if resumed
    then record { result = ok; queue = q'; calls = db_update_status id queued ∷ [] }
    else record { result = rejected; queue = q'; calls = [] }

unfoldable pub handle_resume : Queue → ℕ → Queue → Reply
unfolding resume_reply get_status
handle_resume seen id q = guarded (λ before. true) (resume_reply id q) q (get_status true id seen)

abbrev pub unlink_calls : Option Download → List ServerCall
unlink_calls none = []
unlink_calls (some d) = elim d.dest_path [ [] ↦ [] | b ∷ bs ↦ unlink (b ∷ bs) ∷ [] ]

unfoldable pub cancel_reply : ℕ → Queue → Reply
unfolding cancel clear_resume_state find_by_id
cancel_reply id q =
    let unlinks = unlink_calls (find_by_id id q.entries) in
    let (q', was_active) = cancel id q in
    if was_active then record { result = ok; queue = q'; calls = [] } else record {
      result = ok;
      queue = clear_resume_state id q';
      calls =
          db_delete_chunks id
          ∷ db_update_total_size id 0
          ∷ (unlinks ++ (db_update_status id canceled ∷ []));
    }

unfoldable pub handle_cancel : Queue → ℕ → Queue → Reply
unfolding cancel_reply get_status
handle_cancel seen id q =
    guarded (λ before. not (is_status before done)) (cancel_reply id q) q (get_status true id seen)

-- LIST answers the number of downloads that run or wait.
unfoldable pub handle_list : Queue → ℕ
unfolding count_by_status
handle_list q = u32 (count_by_status active q + count_by_status queued q)

-- The commands on one download, as the `switch` on the message's type tells them apart.
pub data Command : Type 0 where
  pause_it resume_it cancel_it : Command

unfoldable pub handle_command : Command → Queue → ℕ → Queue → Reply
unfolding handle_pause handle_resume handle_cancel
handle_command pause_it seen id q = handle_pause seen id q
handle_command resume_it seen id q = handle_resume seen id q
handle_command cancel_it seen id q = handle_cancel seen id q
