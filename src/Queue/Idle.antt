-- ===== src/Queue/Idle.antt =====
-- No request makes an entry active.
use cdm.Prelude.{
  ℕ, ◌≡◌, ◌≢◌, refl, ◌∙◌, sym, Bool, false, Option, some, ◌∷◌, ◌==◌, arith, inl, inr, Bool-cases,
  Bytes, u32, ◌+◌, ltb,
}
use cdm.Download.{active, RequestOptions, Download}
use cdm.Queue.{
  Queue, Allocation, on_entry, find_by_id, add, add_existing, seed_next_id, remove, new_download,
}
use cdm.Queue.Requests.{
  cancel, pause, resume, cancel_body, pause_body, resume_body, clear_resume_state, cleared,
}
use cdm.Queue.Calls.{
  Call, adds, restores, seeds, removes, cancels, pauses, resumes, clears, updates, apply,
}
use cdm.Queue.Entries.{on_entry_cases, add_cases}
use cdm.Queue.Identity.{WellFormed}
use cdm.Queue.Lifecycle.{lookup, remove_lem}
use cdm.Queue.Ownership.{IsActive, IsRequest}

-- `db_restore_queue` queues again what was active.
abbrev pub RestoresIdle : Call → Type 0
RestoresIdle (restores d) = d.status ≢ active
RestoresIdle _ = Unit

-- An active entry of the changed queue was active, if a body makes no entry active.
pub on_entry_back {ℓ} :
    {R : Type ℓ} (id : ℕ) (body : Download → Download × R) (miss : R) (i : ℕ) (q : Queue)
    → ((d : Download) → (body d).0.id ≡ d.id)
    → ((d : Download) → (body d).0.status ≡ active → d.status ≡ active)
    → IsActive i (on_entry id body miss q).0
    → IsActive i q
on_entry_back id body miss i q keeps was (e, found, running) =
    elim (on_entry_cases id body miss keeps i q) [
      | inl (_, same) ↦ (e, sym same ∙ found, running)
      | inr (_, inl (_, missing)) ↦ absurd (cc (missing, found))
      | inr (_, inr (d, there, changed)) ↦
          let same : (body d).0 ≡ e = cc (changed, found) in (d, there, was d (rw same running))
    ]

cons_back :
    (n : Download) (next i : ℕ) (q : Queue)
    → n.status ≢ active
    → IsActive i (record { entries = n ∷ q.entries; next_id = next })
    → IsActive i q
unfolding find_by_id
cons_back n next i q idle (e, found, running) = elim (Bool-cases (n.id == i)) [
  | inl hit ↦ let same : n ≡ e = ground arith in absurd (idle (rw same running))
  | inr other ↦ (e, rw other at found, running)
]

add_back :
    (safe : Bool) (alloc : Allocation) (url dest : Bytes) (opts : Option RequestOptions) (i : ℕ)
    (q : Queue)
    → IsActive i (add safe alloc url dest opts q).0
    → IsActive i q
unfolding new_download
add_back safe alloc url dest opts i q a = elim (add_cases safe alloc url dest opts q) [
  | inl (_, same) ↦ rw same at a
  | inr (_, made) ↦
      cons_back (new_download q.next_id url dest opts) (u32 (q.next_id + 1)) i q (λ e. cc)
        (rw made at a)
]

remove_back : (id i : ℕ) (q : Queue) → WellFormed q → IsActive i (remove id q).0 → IsActive i q
remove_back id i q w (e, found, running) = elim (remove_lem id i q w) [
  | inl (_, same) ↦ let still : lookup i q ≡ some e = rw same at found in (e, still, running)
  | inr (d, there, gone, inr same) ↦ (e, sym same ∙ found, running)
  | inr (d, there, inl (was, _, _), inl hit) ↦ (d, rw hit there, was)
  | inr (d, there, inr (_, left, _), inl hit) ↦ absurd (cc (left, found, hit))
]

seed_back : (n i : ℕ) (q : Queue) → IsActive i (seed_next_id n q) → IsActive i q
unfolding seed_next_id
seed_back n i q a = elim (Bool-cases (ltb q.next_id n)) [
  | inl low ↦ rw low at a
  | inr high ↦ rw high at a
]

-- An entry that is active after a request was active before it.
pub apply_back :
    (c : Call) (i : ℕ) (q : Queue)
    → IsRequest c
    → RestoresIdle c
    → WellFormed q
    → IsActive i (apply c q)
    → IsActive i q
unfolding apply cancel pause resume clear_resume_state add_existing
apply_back (adds safe alloc url dest opts) i q r idle w a = add_back safe alloc url dest opts i q a
apply_back (restores n) i q r idle w a = cons_back n (add_existing n q).next_id i q idle a
apply_back (seeds n) i q r idle w a = seed_back n i q a
apply_back (removes id) i q r idle w a = remove_back id i q w a
apply_back (cancels id) i q r idle w a =
    on_entry_back id cancel_body false i q (λ d. ground arith) (λ d h. ground arith) a
apply_back (pauses id) i q r idle w a =
    on_entry_back id pause_body false i q (λ d. ground arith) (λ d h. ground arith) a
apply_back (resumes id) i q r idle w a =
    on_entry_back id resume_body false i q (λ d. ground arith) (λ d h. ground arith) a
apply_back (clears id) i q r idle w a =
    on_entry_back {0} id (λ d. (cleared d, tt)) tt i q (λ d. refl) (λ d h. h) a
apply_back (updates id s) i q r idle w a = absurd r
