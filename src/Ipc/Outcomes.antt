-- ===== src/Ipc/Outcomes.antt =====
-- src/platform/ipc_socket.c: what PAUSE, RESUME and CANCEL answer, do and store.
use cdm.Prelude.{
  ℕ, ◌≡◌, refl, ap, ◌∙◌, true, false, ◌||◌, Option, none, some, List, [], ◌∷◌, ◌++◌, Bytes,
  if◌then◌else◌, ◌==◌, beq_refl, Bool-cases, inl, inr, arith,
}
use cdm.Download.{Status, queued, active, paused, done, error, canceled, is_status, Download}
use cdm.Queue.{Queue, find_by_id, on_entry}
use cdm.Queue.Entries.{visit_result, find_by_id-visit}
use cdm.Queue.Requests.{
  cancel, pause, resume, clear_resume_state, get_status, pause_body, resume_body, cancel_body,
  cleared,
}
use cdm.Ipc.{IpcResult, ok, rejected}
use cdm.Ipc.Commands.{
  ServerCall, db_update_status, db_delete_chunks, db_update_total_size, unlink, Reply, pause_reply,
  resume_reply, cancel_reply, unlink_calls, Command, pause_it, resume_it, cancel_it,
}

-- The status that the database is left with for an entry, where the calls set one.
abbrev pub told : ℕ → List ServerCall → Option Status
told id [] = none
told id (db_update_status j s ∷ cs) = elim (told id cs) [
  | some t ↦ some t
  | none ↦ if j == id then some s else none
]
told id (db_delete_chunks j ∷ cs) = told id cs
told id (db_update_total_size j n ∷ cs) = told id cs
told id (unlink path ∷ cs) = told id cs

-- The answer, the status after the command, and the status that is stored, for each status before it.
abbrev pub outcome : Command → Status → IpcResult × Status × Option Status
outcome pause_it active = (ok, active, none)
outcome pause_it queued = (ok, paused, some paused)
outcome pause_it paused = (rejected, paused, none)
outcome pause_it done = (rejected, done, none)
outcome pause_it error = (rejected, error, none)
outcome pause_it canceled = (rejected, canceled, none)
outcome resume_it active = (rejected, active, none)
outcome resume_it queued = (rejected, queued, none)
outcome resume_it paused = (ok, queued, some queued)
outcome resume_it done = (rejected, done, none)
outcome resume_it error = (ok, queued, some queued)
outcome resume_it canceled = (rejected, canceled, none)
outcome cancel_it active = (ok, active, none)
outcome cancel_it queued = (ok, canceled, some canceled)
outcome cancel_it paused = (ok, canceled, some canceled)
outcome cancel_it done = (rejected, done, none)
outcome cancel_it error = (ok, canceled, some canceled)
outcome cancel_it canceled = (ok, canceled, some canceled)

-- A reply has an outcome.
abbrev pub Leaves : ℕ → Reply → IpcResult × Status × Option Status → Type 0
Leaves id r o = (r.result ≡ o.0) × (get_status true id r.queue ≡ some o.1) × (told id r.calls ≡ o.2)

-- A body on the entry with the id.
module _ {ℓ} {R : Type ℓ} (id : ℕ) (body : Download → Download × R) (miss : R)
    (keeps : (d : Download) → (body d).0.id ≡ d.id) (d : Download) (q : Queue)
    (e : find_by_id id q.entries ≡ some d) where
  pub on_entry-result : (on_entry id body miss q).1 ≡ (body d).1
  unfolding on_entry
  on_entry-result = let r = visit_result id body miss q.entries in rw e at r

  pub on_entry-entry : find_by_id id (on_entry id body miss q).0.entries ≡ some (body d).0
  unfolding on_entry
  on_entry-entry =
      let r = find_by_id-visit id body miss keeps id q.entries in rw (beq_refl id, e) at r

pub get_status-some :
    (id : ℕ) (q : Queue) (d : Download)
    → find_by_id id q.entries ≡ some d
    → get_status true id q ≡ some d.status
unfolding get_status
get_status-some id q d e = rw e refl

module _ (id : ℕ) (q : Queue) (d : Download) (e : find_by_id id q.entries ≡ some d) where
  pause-result : (pause id q).1 ≡ (pause_body d).1
  unfolding pause
  pause-result = on_entry-result id pause_body false (λ d. ground arith) d q e

  pause-entry : find_by_id id (pause id q).0.entries ≡ some (pause_body d).0
  unfolding pause
  pause-entry = on_entry-entry id pause_body false (λ d. ground arith) d q e

  resume-result : (resume id q).1 ≡ (resume_body d).1
  unfolding resume
  resume-result = on_entry-result id resume_body false (λ d. ground arith) d q e

  resume-entry : find_by_id id (resume id q).0.entries ≡ some (resume_body d).0
  unfolding resume
  resume-entry = on_entry-entry id resume_body false (λ d. ground arith) d q e

  cancel-result : (cancel id q).1 ≡ (cancel_body d).1
  unfolding cancel
  cancel-result = on_entry-result id cancel_body false (λ d. ground arith) d q e

  cancel-entry : find_by_id id (cancel id q).0.entries ≡ some (cancel_body d).0
  unfolding cancel
  cancel-entry = on_entry-entry id cancel_body false (λ d. ground arith) d q e

  clear_resume_state-entry : find_by_id id (clear_resume_state id q).entries ≡ some (cleared d)
  unfolding clear_resume_state
  clear_resume_state-entry = on_entry-entry {0} id (λ d. (cleared d, tt)) tt (λ d. refl) d q e

-- The outcomes of the calls of the queue and the database that follow the check of the status.
abbrev pub pause_outcome : Status → IpcResult × Status × Option Status
pause_outcome s =
    if is_status s active
    then (ok, active, none)
    else if is_status s queued
    then (ok, paused, some paused)
    else (ok, s, some paused)

abbrev pub resume_outcome : Status → IpcResult × Status × Option Status
resume_outcome s =
    if is_status s paused || is_status s error
    then (ok, queued, some queued)
    else (rejected, s, none)

abbrev pub cancel_outcome : Status → IpcResult × Status × Option Status
cancel_outcome s = if is_status s active then (ok, active, none) else (ok, canceled, some canceled)

is_status-eq : (s t : Status) → is_status s t ≡ true → s ≡ t
is_status-eq s t h = ground arith

told-path :
    (id : ℕ) (path : Bytes) (cs : List ServerCall)
    → told id (elim path [ [] ↦ [] | b ∷ bs ↦ unlink (b ∷ bs) ∷ [] ] ++ cs) ≡ told id cs
told-path id [] cs = refl
told-path id (b ∷ bs) cs = refl

told-unlink_calls :
    (id : ℕ) (o : Option Download) (cs : List ServerCall)
    → told id (unlink_calls o ++ cs) ≡ told id cs
told-unlink_calls id none cs = refl
told-unlink_calls id (some d) cs = told-path id d.dest_path cs

told_self : (id : ℕ) (s : Status) → told id (db_update_status id s ∷ []) ≡ some s
told_self id s = rw (beq_refl id) refl

pause_body-status : (d : Download) → (pause_body d).0.status ≡ (pause_outcome d.status).1
pause_body-status d = ground (arith, is_status-eq d.status active)

resume_body-status : (d : Download) → (resume_body d).0.status ≡ (resume_outcome d.status).1
resume_body-status d = ground arith

cancel_body-status : (d : Download) → (cancel_body d).0.status ≡ (cancel_outcome d.status).1
cancel_body-status d = ground (arith, is_status-eq d.status active)

module _ (id : ℕ) (q : Queue) (d : Download) (e : find_by_id id q.entries ≡ some d) where
  pub pause_reply-Leaves : Leaves id (pause_reply id q) (pause_outcome d.status)
  unfolding pause_reply
  pause_reply-Leaves =
      let after : get_status true id (pause id q).0 ≡ some (pause_outcome d.status).1 =
        get_status-some id (pause id q).0 (pause_body d).0 (pause-entry id q d e)
        ∙ ap some (pause_body-status d) in
      let r = pause-result id q d e in
      elim (Bool-cases (is_status d.status active)) [
        | inl a ↦ rw (r, a) (refl, rw a at after, refl)
        | inr a ↦ elim (Bool-cases (is_status d.status queued)) [
          | inl b ↦ rw (r, a, b) (refl, rw (a, b) at after, told_self id paused)
          | inr b ↦ rw (r, a, b) (refl, rw (a, b) at after, told_self id paused)
        ]
      ]

  pub resume_reply-Leaves : Leaves id (resume_reply id q) (resume_outcome d.status)
  unfolding resume_reply
  resume_reply-Leaves =
      let after : get_status true id (resume id q).0 ≡ some (resume_outcome d.status).1 =
        get_status-some id (resume id q).0 (resume_body d).0 (resume-entry id q d e)
        ∙ ap some (resume_body-status d) in
      let r = resume-result id q d e in
      elim (Bool-cases (is_status d.status paused || is_status d.status error)) [
        | inl a ↦ rw (r, a) (refl, rw a at after, told_self id queued)
        | inr a ↦ rw (r, a) (refl, rw a at after, refl)
      ]

  pub cancel_reply-Leaves : Leaves id (cancel_reply id q) (cancel_outcome d.status)
  unfolding cancel_reply
  cancel_reply-Leaves =
      let after : get_status true id (cancel id q).0 ≡ some (cancel_outcome d.status).1 =
        get_status-some id (cancel id q).0 (cancel_body d).0 (cancel-entry id q d e)
        ∙ ap some (cancel_body-status d) in
      let r = cancel-result id q d e in
      let cleared_after : get_status true id (clear_resume_state id (cancel id q).0)
          ≡ some (cancel_outcome d.status).1 =
        get_status-some id (clear_resume_state id (cancel id q).0) (cleared (cancel_body d).0)
          (clear_resume_state-entry id (cancel id q).0 (cancel_body d).0 (cancel-entry id q d e))
        ∙ ap some (cancel_body-status d) in
      elim (Bool-cases (is_status d.status active)) [
        | inl a ↦ rw (r, a) (refl, rw a at after, refl)
        | inr a ↦
            rw (r, a)
              (
                refl,
                rw a at cleared_after,
                told-unlink_calls id (find_by_id id q.entries) (db_update_status id canceled ∷ [])
                    ∙ told_self id canceled,
              )
      ]
