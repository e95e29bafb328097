-- ===== src/Scheduler/Settle.antt =====
-- What a worker leaves behind when the engine has returned.
use Prim.Native.String.{String}
use cdm.Prelude.{
  ℕ, ◌+◌, ◌≤◌, ◌<◌, ◌≡◌, ◌≢◌, refl, true, false, Option, none, some, List, [], ◌∷◌, ◌==◌,
  if◌then◌else◌, arith, inl, inr, ◌⊎◌, Bool-cases, ℤ, pos, negsuc, Bytes, beq_refl, eq_of_beq,
}
use cdm.Download.{Status, queued, active, paused, done, error, canceled, Download}
use cdm.Queue.{Queue, on_entry, is_empty}
use cdm.Queue.Requests.{update_status, clear_resume_state, cleared}
use cdm.Queue.Entries.{find_by_id-visit}
use cdm.Queue.Lifecycle.{lookup}
use cdm.Scheduler.{
  Policy, Effect, Outcome, completed, stopped, suspended, unverified, refused, retried, exhausted,
  classify, amend, settle, settle_as, retry_backoff_seconds, db_update_status, unlink,
}

-- The status that the database was told last.
abbrev pub stored : List Effect → Option String
stored [] = none
stored (db_update_status id s ∷ es) = elim (stored es) [ none ↦ some s | some t ↦ some t ]
stored (_ ∷ es) = stored es

-- The files that were unlinked.
abbrev pub unlinked : List Effect → List Bytes
unlinked [] = []
unlinked (unlink path ∷ es) = path ∷ unlinked es
unlinked (_ ∷ es) = unlinked es

-- The names that the database has for the statuses.
abbrev pub db_name : Status → String
db_name queued = "QUEUED"
db_name active = "ACTIVE"
db_name paused = "PAUSED"
db_name done = "DONE"
db_name error = "ERROR"
db_name canceled = "CANCELED"

abbrev pub update_entry : ℕ → (Download → Download) → ℕ → Queue → Option Download
update_entry id f j q =
    if id == j then elim (lookup j q) [ none ↦ none | some d ↦ some (f d) ] else lookup j q

pub lookup-amend :
    (id j : ℕ) (f : Download → Download) (q : Queue)
    → ((d : Download) → (f d).id ≡ d.id)
    → lookup j (amend id f q) ≡ update_entry id f j q
unfolding amend on_entry
lookup-amend id j f q keeps = find_by_id-visit id _ tt keeps j q.entries

pub lookup-update_status :
    (id j : ℕ) (s : Status) (q : Queue)
    → lookup j (update_status id s q) ≡ update_entry id (λ d. record d { status = s }) j q
unfolding update_status on_entry
lookup-update_status id j s q = find_by_id-visit id _ tt (λ d. refl) j q.entries

lookup-clear_resume_state :
    (id j : ℕ) (q : Queue) → lookup j (clear_resume_state id q) ≡ update_entry id cleared j q
unfolding clear_resume_state on_entry
lookup-clear_resume_state id j q = find_by_id-visit id _ tt (λ d. refl) j q.entries

-- The entry `d` after `settle_as`.
settled : Outcome → Policy → ℕ → Download → Download
settled completed p now d = record d {
  chunk_count = 0;
  retry_count = 0;
  next_retry_at = 0;
  status = done;
}
settled stopped p now d = record (cleared d) { status = canceled }
settled suspended p now d = record d { status = paused }
settled retried p now d = record d {
  retry_count = d.retry_count + 1;
  next_retry_at = now + retry_backoff_seconds p (d.retry_count + 1);
  status = queued;
}
settled _ p now d = record d { retry_count = 0; next_retry_at = 0; status = error }

module _ (id j : ℕ) (d : Download) (q : Queue) (found : lookup id q ≡ some d) where
  -- An update of the entry `d` and of no other.
  update_found :
      (f : Download → Download)
      → update_entry id f j q ≡ (if id == j then some (f d) else lookup j q)
  update_found f = elim (Bool-cases (id == j)) [
    | inl hit ↦
        let same : lookup j q ≡ some d = rw (eq_of_beq id j hit) at found in rw (hit, same) refl
    | inr other ↦ rw other refl
  ]

  update_twice :
      (f : Download → Download) (s : Status) (q' : Queue)
      → lookup j q' ≡ (if id == j then some (f d) else lookup j q)
      → lookup j (update_status id s q')
        ≡ (if id == j then some (record (f d) { status = s }) else lookup j q)
  update_twice f s q' h =
      rw (lookup-update_status id j s q', h)
        (elim (Bool-cases (id == j)) [ inl hit ↦ rw hit refl | inr other ↦ rw other refl ])

  amend_found :
      (f : Download → Download) (s : Status)
      → ((e : Download) → (f e).id ≡ e.id)
      → lookup j (update_status id s (amend id f q))
        ≡ (if id == j then some (record (f d) { status = s }) else lookup j q)
  amend_found f s keeps =
      update_twice f s (amend id f q) (rw (lookup-amend id j f q keeps) (update_found f))

  -- `settle_as` changes the one entry.
  lookup-settle_as :
      (o : Outcome) (p : Policy) (now : ℕ)
      → lookup j (settle_as o p now id d q).0
        ≡ (if id == j then some (settled o p now d) else lookup j q)
  unfolding settle_as settled
  lookup-settle_as completed p now = amend_found _ done (λ e. refl)
  lookup-settle_as stopped p now =
      update_twice cleared canceled (clear_resume_state id q)
        (rw (lookup-clear_resume_state id j q) (update_found cleared))
  lookup-settle_as suspended p now =
      rw (lookup-update_status id j paused q) (update_found (λ e. record e { status = paused }))
  lookup-settle_as unverified p now = amend_found _ error (λ e. refl)
  lookup-settle_as refused p now = amend_found _ error (λ e. refl)
  lookup-settle_as retried p now = amend_found _ queued (λ e. refl)
  lookup-settle_as exhausted p now = amend_found _ error (λ e. refl)

-- The database was told the entry's status, and no file but the entry's was unlinked.
settle_as_effects :
    (o : Outcome) (p : Policy) (now id : ℕ) (d : Download) (q : Queue)
    → (stored (settle_as o p now id d q).1 ≡ some (db_name (settled o p now d).status))
      × ((unlinked (settle_as o p now id d q).1 ≡ [])
          ⊎ ((unlinked (settle_as o p now id d q).1 ≡ d.dest_path ∷ []) × (o ≡ stopped)))
unfolding settle_as settled
settle_as_effects completed p now id d q = (refl, inl refl)
settle_as_effects stopped p now id d q = elim (Bool-cases (is_empty d.dest_path)) [
  | inl none' ↦ rw none' (refl, inl refl)
  | inr some' ↦ rw some' (refl, inr (refl, refl))
]
settle_as_effects suspended p now id d q = (refl, inl refl)
settle_as_effects unverified p now id d q = (refl, inl refl)
settle_as_effects refused p now id d q = (refl, inl refl)
settle_as_effects retried p now id d q = (refl, inl refl)
settle_as_effects exhausted p now id d q = (refl, inl refl)

settle_found :
    (p : Policy) (now id : ℕ) (rc : ℤ) (d : Download) (q : Queue)
    → lookup id q ≡ some d
    → settle p now id rc q ≡ settle_as (classify p rc d) p now id d q
unfolding settle
settle_found p now id rc d q found = rw (found, settle)

-- How the status `s` follows from the engine's answer and the flags of the entry `d`.
abbrev pub Verdict : ℤ → Download → Status → Type 0
Verdict rc d s =
    ((rc ≡ pos 0) × (s ≡ done))
    ⊎ ((rc ≢ pos 0) × (d.cancel_requested ≡ true) × (s ≡ canceled))
    ⊎ ((rc ≢ pos 0) × (d.cancel_requested ≡ false) × (d.pause_requested ≡ true) × (s ≡ paused))
    ⊎ ((rc ≢ pos 0)
        × (d.cancel_requested ≡ false)
        × (d.pause_requested ≡ false)
        × ((s ≡ error) ⊎ (s ≡ queued)))

classify-Verdict :
    (p : Policy) (now : ℕ) (rc : ℤ) (d : Download)
    → Verdict rc d (settled (classify p rc d) p now d).status
unfolding classify settled
classify-Verdict p now rc d = ground arith

stopped-canceled :
    (p : Policy) (now : ℕ) (d : Download) → (settled stopped p now d).status ≡ canceled
unfolding settled
stopped-canceled p now d = refl

-- When the engine returns with the answer `rc` for an entry, the worker takes the entry out of the
-- active ones. It is done exactly on 0. Otherwise a request to cancel comes before one to pause, and
-- either before an error or a retry. The database was last told the same status, and no other entry
-- changes. The worker unlinks no file but the entry's, and that only if the download is canceled.
pub settle_status :
    (p : Policy) (now id j : ℕ) (rc : ℤ) (d : Download) (q : Queue)
    → lookup id q ≡ some d
    → let (q', effects) = settle p now id rc q in
      ((j ≡ id) ⊎ (lookup j q' ≡ lookup j q))
      × ((e : Download) × (lookup id q' ≡ some e)
          × (stored effects ≡ some (db_name e.status))
          × Verdict rc d e.status
          × ((unlinked effects ≡ [])
              ⊎ ((unlinked effects ≡ d.dest_path ∷ []) × (e.status ≡ canceled))))
settle_status p now id j rc d q found =
    let o = classify p rc d in
    let (told, gone) = settle_as_effects o p now id d q in
    rw (settle_found p now id rc d q found) (
      ground (arith, lookup-settle_as id j d q found o p now),
      (
        settled o p now d,
        rw (lookup-settle_as id id d q found o p now, beq_refl id) refl,
        told,
        classify-Verdict p now rc d,
        elim gone [
          | inl kept ↦ inl kept
          | inr (cut, e) ↦ inr (cut, rw e (stopped-canceled p now d))
        ],
      ),
    )

-- What the worker does about a failure: a verification failure and a destination that cannot be used
-- are final, and another failure is retried while attempts are left.
abbrev pub Retry : Policy → ℕ → ℤ → Download → Download → Type 0
Retry p now rc d e =
    ((e.status ≡ queued)
      × (rc ≢ negsuc 1)
      × (rc ≢ negsuc 2)
      × (rc ≢ negsuc 3)
      × (d.retry_count < p.retry_max_attempts)
      × (e.retry_count ≡ d.retry_count + 1)
      × (e.next_retry_at ≡ now + retry_backoff_seconds p e.retry_count))
    ⊎ ((e.status ≡ error)
        × ((rc ≡ negsuc 1)
            ⊎ (rc ≡ negsuc 2)
            ⊎ (rc ≡ negsuc 3)
            ⊎ (p.retry_max_attempts ≤ d.retry_count))
        × (e.retry_count ≡ 0)
        × (e.next_retry_at ≡ 0))

classify-Retry :
    (p : Policy) (now : ℕ) (rc : ℤ) (d : Download)
    → rc ≢ pos 0
    → d.cancel_requested ≡ false
    → d.pause_requested ≡ false
    → Retry p now rc d (settled (classify p rc d) p now d)
unfolding classify settled
classify-Retry p now rc d failed live going = ground arith

-- After a failure that nobody asked for, the entry is queued again if the failure is not final and
-- attempts are left: with one more attempt counted, and not to start before the backoff is over.
-- Otherwise it is an error, with its retries forgotten.
pub settle-Retry :
    (p : Policy) (now id : ℕ) (rc : ℤ) (d : Download) (q : Queue)
    → lookup id q ≡ some d
    → rc ≢ pos 0
    → d.cancel_requested ≡ false
    → d.pause_requested ≡ false
    → (e : Download) × (lookup id (settle p now id rc q).0 ≡ some e) × Retry p now rc d e
settle-Retry p now id rc d q found failed live going = rw (settle_found p now id rc d q found) (
  settled (classify p rc d) p now d,
  rw (lookup-settle_as id id d q found (classify p rc d) p now, beq_refl id) refl,
  classify-Retry p now rc d failed live going,
)
