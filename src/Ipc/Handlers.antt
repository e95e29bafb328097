-- ===== src/Ipc/Handlers.antt =====
-- src/platform/ipc_socket.c: the whole handlers of PAUSE, RESUME and CANCEL, with the status that they
-- read first.
use cdm.Prelude.{
  ℕ, ◌≡◌, refl, subst, Bool, true, not, Option, none, some, Bool-cases, if◌then◌else◌, inl, inr,
}
use cdm.Download.{Status, queued, done, is_status, Download}
use cdm.Queue.{Queue, find_by_id}
use cdm.Queue.Requests.{get_status}
use cdm.Ipc.{IpcResult, rejected}
use cdm.Ipc.Commands.{
  Reply, pause_reply, resume_reply, cancel_reply, guarded, may_pause, Command, pause_it, resume_it,
  cancel_it, handle_command,
}
use cdm.Ipc.Outcomes.{
  Leaves, outcome, pause_outcome, resume_outcome, cancel_outcome, pause_reply-Leaves,
  resume_reply-Leaves, cancel_reply-Leaves, get_status-some,
}

abbrev pub allows : Command → Status → Bool
allows pause_it s = may_pause s
allows resume_it s = true
allows cancel_it s = not (is_status s done)

-- What the calls behind the test leave, for the status that the entry has by then.
abbrev pub computed : Command → Status → IpcResult × Status × Option Status
computed pause_it s = pause_outcome s
computed resume_it s = resume_outcome s
computed cancel_it s = cancel_outcome s

-- `seen` is the status that the test read, `s` the entry's own.
abbrev pub answered : Command → Status → Status → IpcResult × Status × Option Status
answered c seen s = if allows c seen then computed c s else (rejected, s, none)

answered-outcome : (c : Command) (s : Status) → answered c s s ≡ outcome c s
answered-outcome pause_it queued = refl
answered-outcome pause_it _ = refl
answered-outcome resume_it queued = refl
answered-outcome resume_it _ = refl
answered-outcome cancel_it queued = refl
answered-outcome cancel_it _ = refl

reply : Command → ℕ → Queue → Reply
reply pause_it id q = pause_reply id q
reply resume_it id q = resume_reply id q
reply cancel_it id q = cancel_reply id q

handle_command-guarded :
    (c : Command) (seen : Queue) (id : ℕ) (q : Queue)
    → handle_command c seen id q ≡ guarded (allows c) (reply c id q) q (get_status true id seen)
unfolding handle_command reply
handle_command-guarded pause_it seen id q = refl
handle_command-guarded resume_it seen id q = refl
handle_command-guarded cancel_it seen id q = refl

module _ (id : ℕ) (q : Queue) (d : Download) (e : find_by_id id q.entries ≡ some d) where
  reply-Leaves : (c : Command) → Leaves id (reply c id q) (computed c d.status)
  unfolding reply
  reply-Leaves pause_it = pause_reply-Leaves id q d e
  reply-Leaves resume_it = resume_reply-Leaves id q d e
  reply-Leaves cancel_it = cancel_reply-Leaves id q d e

  -- A command on the entry `d` that found the status `s` when it looked, whatever has happened to the
  -- entry since: the answer, the status after it and the status that the database is told are those of
  -- `answered`.
  pub handle_command-raced :
      (c : Command) (seen : Queue) (s : Status)
      → get_status true id seen ≡ some s
      → Leaves id (handle_command c seen id q) (answered c s d.status)
  handle_command-raced c seen s h = elim (Bool-cases (allows c s)) [
    | inl a ↦ rw (handle_command-guarded c seen id q, h, a) (reply-Leaves c)
    | inr a ↦ rw (handle_command-guarded c seen id q, h, a) (refl, get_status-some id q d e, refl)
  ]

  -- Where no worker acts between the two looks, the table `outcome` says what a command does.
  pub handle_command_lem :
      (c : Command) (seen : Queue)
      → get_status true id seen ≡ some d.status
      → Leaves id (handle_command c seen id q) (outcome c d.status)
  handle_command_lem c seen h =
      subst (Leaves id (handle_command c seen id q)) (answered-outcome c d.status)
        (handle_command-raced c seen d.status h)
