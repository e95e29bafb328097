-- ===== src/Queue/Ownership.antt =====
-- An active entry belongs to its worker: only a status update takes it away.
use cdm.Prelude.{
  ℕ, ◌≡◌, ◌≢◌, refl, Bool, true, Option, some, List, [], ◌∷◌, ◌==◌, arith, inl, inr, Bool-cases,
  All, Bytes, ◌+◌, u32, ltb, subst, eq_of_beq, ◌∙◌,
}
use cdm.Download.{active, RequestOptions, Download}
use cdm.Queue.{
  Queue, Allocation, on_entry, find_by_id, add, add_existing, seed_next_id, remove, new_download,
}
use cdm.Queue.Requests.{cancel, pause, resume, clear_resume_state}
use cdm.Queue.Calls.{
  Call, adds, restores, seeds, removes, cancels, pauses, resumes, clears, updates, apply,
}
use cdm.Queue.Entries.{find_by_id-visit, add_cases}
use cdm.Queue.Identity.{ids, WellFormed, Admissible, below_next}
use cdm.Queue.Lifecycle.{lookup, remove_lem}

-- `i` names an active entry.
abbrev pub IsActive : ℕ → Queue → Type 0
IsActive i q = (d : Download) × (lookup i q ≡ some d) × (d.status ≡ active)

-- A call other than the update of a status.
abbrev pub IsRequest : Call → Type 0
IsRequest (updates id s) = ⊥
IsRequest _ = Unit

on_entry-IsActive {ℓ} :
    {R : Type ℓ} (id : ℕ) (body : Download → Download × R) (miss : R) (i : ℕ) (q : Queue)
    → ((d : Download) → (body d).0.id ≡ d.id)
    → ((d : Download) → d.status ≡ active → (body d).0.status ≡ active)
    → IsActive i q
    → IsActive i (on_entry id body miss q).0
unfolding on_entry
on_entry-IsActive id body miss i q keeps stays (d, found, running) = elim (Bool-cases (id == i)) [
  | inl hit ↦ (
    (body d).0,
    rw (find_by_id-visit id body miss keeps i q.entries, hit, found) refl,
    stays d running,
  )
  | inr other ↦ (d, rw (find_by_id-visit id body miss keeps i q.entries, other) found, running)
]

-- An entry that is found stays found behind a new one with another id.
cons-IsActive :
    (n : Download) (next i : ℕ) (q : Queue)
    → i ≢ n.id
    → IsActive i q
    → IsActive i (record { entries = n ∷ q.entries; next_id = next })
unfolding find_by_id
cons-IsActive n next i q ne (d, found, running) = (d, ground arith, running)

named_id :
    (P : ℕ → Type 0) (i : ℕ) (d : Download) (ds : List Download)
    → All P (ids ds)
    → find_by_id i ds ≡ some d
    → P i
unfolding find_by_id
named_id P i d [] h e = cc
named_id P i d (x ∷ ds) h e = elim (Bool-cases (x.id == i)) [
  | inl hit ↦ subst P (eq_of_beq x.id i hit) h.0
  | inr other ↦ named_id P i d ds h.1 (rw other at e)
]

remove-IsActive : (id i : ℕ) (q : Queue) → WellFormed q → IsActive i q → IsActive i (remove id q).0
remove-IsActive id i q w (d, found, running) = elim (remove_lem id i q w) [
  | inl (_, same) ↦ rw same (d, found, running)
  | inr (e, found', gone, inr same) ↦ (d, same ∙ found, running)
  | inr (e, found', gone, inl hit) ↦ elim gone [
    | inl (active', left, _) ↦ (record e { cancel_requested = true }, rw hit left, active')
    | inr (idle, _, _) ↦ absurd (idle (cc (found, found', hit, running)))
  ]
]

add-IsActive :
    (safe : Bool) (alloc : Allocation) (url dest : Bytes) (opts : Option RequestOptions) (i : ℕ)
    (q : Queue)
    → WellFormed q
    → IsActive i q
    → IsActive i (add safe alloc url dest opts q).0
unfolding new_download
add-IsActive safe alloc url dest opts i q w a = elim (add_cases safe alloc url dest opts q) [
  | inl refused ↦ rw refused.1 a
  | inr made ↦ rw made.1 (
      cons-IsActive (new_download q.next_id url dest opts) (u32 (q.next_id + 1)) i q
        (named_id (λ j. j ≢ q.next_id) i a.0 q.entries (below_next _ _ w.named) a.1) a)
]

seed-IsActive : (n i : ℕ) (q : Queue) → IsActive i q → IsActive i (seed_next_id n q)
unfolding seed_next_id
seed-IsActive n i q a = elim (Bool-cases (ltb q.next_id n)) [
  | inl low ↦ rw low a
  | inr high ↦ rw high a
]

-- No call but `queue_manager_update_status` takes an active entry out of the queue or changes its
-- status, in a queue with distinct ids: a pointer that a worker holds stays good.
pub apply-IsActive :
    (c : Call) (i : ℕ) (q : Queue)
    → IsRequest c
    → Admissible c q
    → WellFormed q
    → IsActive i q
    → IsActive i (apply c q)
unfolding apply cancel pause resume clear_resume_state add_existing seed_next_id
apply-IsActive (adds safe alloc url dest opts) i q r ok w a =
    add-IsActive safe alloc url dest opts i q w a
apply-IsActive (restores n) i q r ok w (d, found, running) =
    cons-IsActive n (add_existing n q).next_id i q (named_id _ i d q.entries ok.0 found)
      (d, found, running)
apply-IsActive (seeds n) i q r ok w a = seed-IsActive n i q a
apply-IsActive (removes id) i q r ok w a = remove-IsActive id i q w a
apply-IsActive (cancels id) i q r ok w a =
    on_entry-IsActive id _ _ i q (λ d. ground arith) (λ d h. ground arith) a
apply-IsActive (pauses id) i q r ok w a =
    on_entry-IsActive id _ _ i q (λ d. ground arith) (λ d h. ground arith) a
apply-IsActive (resumes id) i q r ok w a =
    on_entry-IsActive id _ _ i q (λ d. ground arith) (λ d h. ground arith) a
apply-IsActive (clears id) i q r ok w a = on_entry-IsActive id _ _ i q (λ d. refl) (λ d h. h) a
apply-IsActive (updates id s) i q r ok w a = absurd r
