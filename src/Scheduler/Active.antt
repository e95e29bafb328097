-- ===== src/Scheduler/Active.antt =====
-- How a tick and a worker change the set of active entries.
use cdm.Prelude.{
  ℕ, ◌≡◌, ◌≢◌, refl, sym, ◌∙◌, some, List, [], ◌∷◌, ◌++◌, arith, inl, inr, ◌⊎◌, ℤ, All, beq_refl,
}
use cdm.Download.{Status, queued, active, Download}
use cdm.Queue.{Queue, on_entry, find_by_id, find_next_queued}
use cdm.Queue.Requests.{update_status}
use cdm.Queue.Entries.{on_entry_cases}
use cdm.Queue.Identity.{ids, Distinct, WellFormed}
use cdm.Queue.Lifecycle.{lookup}
use cdm.Queue.Ownership.{IsActive}
use cdm.Queue.Selection.{find_next_queued_lem}
use cdm.Scheduler.{Policy, amend, settle}
use cdm.Scheduler.Settle.{Verdict, settle_status}

All-place :
    (P : ℕ → Type 0) (d : Download) (before after : List Download)
    → All P (ids (before ++ d ∷ after))
    → P d.id
All-place P d [] after h = h.0
All-place P d (x ∷ before) after h = All-place P d before after h.1

find-place :
    (d : Download) (before after : List Download)
    → Distinct (ids (before ++ d ∷ after))
    → find_by_id d.id (before ++ d ∷ after) ≡ some d
unfolding find_by_id
find-place d [] after h = rw (beq_refl d.id)
find-place d (x ∷ before) after h =
    ground (arith, All-place (λ i. i ≢ x.id) d before after h.0, find-place d before after h.1)

-- What the tick is given is an entry of the queue that is queued.
pub next_found :
    (now : ℕ) (q : Queue) (d : Download)
    → WellFormed q
    → find_next_queued now q ≡ some d
    → (lookup d.id q ≡ some d) × (d.status ≡ queued)
next_found now q d w e = elim (find_next_queued_lem now q) [
  | inl (nothing, _) ↦ absurd (cc (nothing, e))
  | inr (x, picked, l) ↦
      let same : x ≡ d = cc (picked, e) in
      let place : lookup x.id q ≡ some x =
        rw l.place (find-place x l.before l.after (rw l.place at w.distinct)) in
      (rw same at place, rw same at l.ready.0)
]

pub not_active :
    (id : ℕ) (q : Queue) (d : Download) → lookup id q ≡ some d → d.status ≢ active → ¬ IsActive id q
not_active id q d found idle (e, there, running) =
    let same : d ≡ e = cc (found, there) in idle (rw same running)

-- A status that is not `active` takes the entry out of the active ones, and no other.
pub update_idle :
    (id i : ℕ) (s : Status) (q : Queue)
    → s ≢ active
    → IsActive i (update_status id s q)
    → (id ≢ i) × IsActive i q
unfolding update_status
update_idle id i s q idle (e, found, running) =
    elim (on_entry_cases {0} id (λ d. (record d { status = s }, tt)) tt (λ d. refl) i q) [
      | inl (ne, same) ↦ (ne, (e, sym same ∙ found, running))
      | inr (_, inl (_, gone)) ↦ absurd (cc (gone, found))
      | inr (_, inr (d, _, changed)) ↦
          let now' : record d { status = s } ≡ e = cc (changed, found) in
          absurd (idle (rw (← now') at running))
    ]

-- The other active entries stay.
pub on_entry_others {ℓ} :
    {R : Type ℓ} (id : ℕ) (body : Download → Download × R) (miss : R) (i : ℕ) (q : Queue)
    → ((d : Download) → (body d).0.id ≡ d.id)
    → id ≢ i
    → IsActive i q
    → IsActive i (on_entry id body miss q).0
on_entry_others id body miss i q keeps ne (d, found, running) =
    elim (on_entry_cases id body miss keeps i q) [
      | inl (_, same) ↦ (d, same ∙ found, running)
      | inr (e, _) ↦ absurd (ne e)
    ]

pub update_others :
    (id i : ℕ) (s : Status) (q : Queue) → id ≢ i → IsActive i q → IsActive i (update_status id s q)
unfolding update_status
update_others id i s q =
    on_entry_others {0} id (λ d. (record d { status = s }, tt)) tt i q (λ d. refl)

abbrev pub begin : Download → Download
begin e = record e { status = active; next_retry_at = 0 }

-- A claimed entry joins the active ones.
pub claim_joins :
    (id i : ℕ) (d : Download) (q : Queue)
    → lookup id q ≡ some d
    → (id ≡ i) ⊎ IsActive i q
    → IsActive i (amend id begin q)
unfolding amend
claim_joins id i d q found a =
    elim (on_entry_cases {0} id (λ e. (begin e, tt)) tt (λ e. refl) i q) [
      | inr (e, inl (missing, _)) ↦ absurd (cc (missing, found, e))
      | inr (_, inr (x, _, changed)) ↦ (begin x, changed, refl)
      | inl (ne, same) ↦ elim a [
        | inl e ↦ absurd (ne e)
        | inr (x, there, running) ↦ (x, same ∙ there, running)
      ]
    ]

pub claim_only : (id i : ℕ) (q : Queue) → IsActive i (amend id begin q) → (id ≡ i) ⊎ IsActive i q
unfolding amend
claim_only id i q (x, there, running) =
    elim (on_entry_cases {0} id (λ e. (begin e, tt)) tt (λ e. refl) i q) [
      | inr (e, _) ↦ inl e
      | inl (ne, same) ↦ inr (x, sym same ∙ there, running)
    ]

Verdict-idle : (rc : ℤ) (d : Download) (s : Status) → Verdict rc d s → s ≢ active
Verdict-idle rc d s v e = ground arith

-- The worker that settles takes its entry, and no other, out of the active ones.
pub settle_only :
    (p : Policy) (now id i : ℕ) (rc : ℤ) (d : Download) (q : Queue)
    → lookup id q ≡ some d
    → IsActive i (settle p now id rc q).0
    → (id ≢ i) × IsActive i q
settle_only p now id i rc d q found (x, there, running) =
    let (same, (e, left, _, v, _)) = settle_status p now id i rc d q found in
    let ne : id ≢ i = λ h.
      let now' : x ≡ e = cc (there, left, h) in Verdict-idle rc d e.status v (rw now' at running) in
    elim same [ inl h ↦ absurd (ne (sym h)) | inr kept ↦ (ne, (x, sym kept ∙ there, running)) ]

pub settle_others :
    (p : Policy) (now id i : ℕ) (rc : ℤ) (d : Download) (q : Queue)
    → lookup id q ≡ some d
    → id ≢ i
    → IsActive i q
    → IsActive i (settle p now id rc q).0
settle_others p now id i rc d q found ne (x, there, running) =
    elim (settle_status p now id i rc d q found).0 [
      | inl h ↦ absurd (ne (sym h))
      | inr kept ↦ (x, kept ∙ there, running)
    ]
