-- ===== src/Queue/Transitions.antt =====
-- The state machine of an entry under the requests to pause, resume and cancel.
use cdm.Prelude.{
  ℕ, ◌≡◌, ◌≢◌, refl, Bool, true, false, Option, none, some, ◌==◌, if◌then◌else◌, arith, inl, inr,
  ◌⊎◌, Option-cases, beq_refl,
}
use cdm.Download.{Status, queued, active, paused, error, canceled, Download}
use cdm.Queue.{Queue, on_entry, is_ready}
use cdm.Queue.Requests.{cancel, pause, resume, cancel_body, pause_body, resume_body}
use cdm.Queue.Entries.{visit_result, find_by_id-visit}
use cdm.Queue.Lifecycle.{lookup}

pub data Request : Type 0 where
  cancel_it pause_it resume_it : Request

abbrev pub ask : Request → ℕ → Queue → Queue × Bool
ask cancel_it = cancel
ask pause_it = pause
ask resume_it = resume

-- The diagram: the status after a request, and the answer.
abbrev pub diagram : Request → Status → Status × Bool
diagram cancel_it active = (active, true)
diagram cancel_it _ = (canceled, false)
diagram pause_it active = (active, true)
diagram pause_it queued = (paused, false)
diagram pause_it s = (s, false)
diagram resume_it paused = (queued, true)
diagram resume_it error = (queued, true)
diagram resume_it s = (s, false)

-- The flag that a request to an active entry leaves for its worker.
abbrev pub Flagged : Request → Download → Type 0
Flagged cancel_it d = d.cancel_requested ≡ true
Flagged pause_it d = d.pause_requested ≡ true
Flagged resume_it d = Unit

abbrev body : Request → Download → Download × Bool
body cancel_it = cancel_body
body pause_it = pause_body
body resume_it = resume_body

ask-body : (r : Request) (id : ℕ) (q : Queue) → ask r id q ≡ on_entry id (body r) false q
unfolding cancel pause resume
ask-body cancel_it id q = refl
ask-body pause_it id q = refl
ask-body resume_it id q = refl

body-id : (r : Request) (d : Download) → (body r d).0.id ≡ d.id
body-id cancel_it d = ground arith
body-id pause_it d = ground arith
body-id resume_it d = ground arith

-- A request does to the entry with its id what `body` does, and to no other.
lookup-ask :
    (r : Request) (id j : ℕ) (q : Queue)
    → lookup j (ask r id q).0 ≡ (
        if id == j
        then elim (lookup j q) [ none ↦ none | some d ↦ some (body r d).0 ]
        else lookup j q)
unfolding on_entry
lookup-ask r id j q =
    rw (ask-body r id q) (find_by_id-visit id (body r) false (body-id r) j q.entries)

ask_result :
    (r : Request) (id : ℕ) (q : Queue)
    → (ask r id q).1 ≡ elim (lookup id q) [ none ↦ false | some d ↦ (body r d).1 ]
unfolding on_entry
ask_result r id q = rw (ask-body r id q) (visit_result id (body r) false q.entries)

body-diagram :
    (r : Request) (d : Download)
    → (((body r d).0.status, (body r d).1) ≡ diagram r d.status)
      × ((d.status ≢ active) ⊎ Flagged r (body r d).0)
      × ((body r d).0.dest_path ≡ d.dest_path)
      × ((body r d).0.chunks ≡ d.chunks)
body-diagram cancel_it d = ground arith
body-diagram pause_it d = ground arith
body-diagram resume_it d = ground arith

-- What a request makes of the entry that it names, and what it answers.
abbrev pub Asked : Request → Option Download → Option Download → Bool → Type 0
Asked r none after answer = (after ≡ none) × (answer ≡ false)
Asked r (some d) after answer =
    (e : Download) × (after ≡ some e)
    × ((e.status, answer) ≡ diagram r d.status)
    × ((d.status ≢ active) ⊎ Flagged r e)
    × (e.dest_path ≡ d.dest_path)
    × (e.chunks ≡ d.chunks)

ask-Asked :
    (r : Request) (id : ℕ) (q : Queue)
    → Asked r (lookup id q) (lookup id (ask r id q).0) (ask r id q).1
ask-Asked r id q = rw (lookup-ask r id id q, beq_refl id, ask_result r id q) (of_body (lookup id q))
  where
    of_body :
        (o : Option Download)
        → Asked r o
            (elim o [ none ↦ none | some d ↦ some (body r d).0 ])
            (elim o [ none ↦ false | some d ↦ (body r d).1 ])
    of_body none = (refl, refl)
    of_body (some d) =
        let (along, flag, path, chunks) = body-diagram r d in
        ((body r d).0, refl, along, flag, path, chunks)

-- The request to cancel, pause or resume an entry moves its status along `diagram` and answers what
-- the diagram says; an active entry keeps its status and has the flag set that its worker polls. The
-- entry's path and chunks stay, and so does what is found under every other id. An id that no entry
-- has is answered with false, and still no entry has it.
pub ask-diagram :
    (r : Request) (id j : ℕ) (q : Queue)
    → Asked r (lookup id q) (lookup id (ask r id q).0) (ask r id q).1
      × ((j ≡ id) ⊎ (lookup j (ask r id q).0 ≡ lookup j q))
ask-diagram r id j q = (ask-Asked r id q, ground (arith, lookup-ask r id j q))

resume_body-is_ready :
    (d : Download) (now : ℕ)
    → (resume_body d).1 ≡ true
    → (is_ready now (resume_body d).0 ≡ true)
      × ((resume_body d).0.pause_requested ≡ false)
      × ((resume_body d).0.cancel_requested ≡ false)
unfolding is_ready
resume_body-is_ready d now h = ground arith

-- An entry whose resumption was answered with true can be picked by the scheduler at any time, with
-- no backoff left to wait for, and its next worker finds neither request flag set.
pub resume-is_ready :
    (id now : ℕ) (q : Queue)
    → (resume id q).1 ≡ true
    → (e : Download) × (lookup id (resume id q).0 ≡ some e)
      × (is_ready now e ≡ true)
      × (e.pause_requested ≡ false)
      × (e.cancel_requested ≡ false)
resume-is_ready id now q h = elim (Option-cases (lookup id q)) [
  | inl missing ↦
      let refused : (resume id q).1 ≡ false = rw (ask_result resume_it id q, missing) refl in
      absurd (cc (refused, h))
  | inr (d, found) ↦
      let answered : (resume_body d).1 ≡ true = rw (ask_result resume_it id q, found) at h in
      let (ready, unpaused, uncanceled) = resume_body-is_ready d now answered in
      (
        (resume_body d).0,
        rw (lookup-ask resume_it id id q, beq_refl id, found) refl,
        ready,
        unpaused,
        uncanceled,
      )
]
