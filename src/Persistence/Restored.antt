-- ===== src/Persistence/Restored.antt =====
-- src/persistence/db.c and src/daemon/daemon.c: the scheduler on the queue that was restored.
use cdm.Prelude.{
  ℕ, ◌+◌, ◌<◌, ◌≡◌, ◌≢◌, ◌⊎◌, refl, sym, subst, inl, inr, Bool, true, false, none, some, List, [],
  ◌∷◌, Bytes, bytes_eq, All, map, arith, u32, u32_mod, Bool-cases, codes,
}
use cdm.Download.{active, max_chunks, Download}
use cdm.Queue.{Queue, add_existing, find_by_id}
use cdm.Queue.Calls.{restores, seeds, apply}
use cdm.Queue.Identity.{ids, Distinct, WellFormed, apply-WellFormed}
use cdm.Queue.Ownership.{IsActive}
use cdm.Queue.Idle.{apply_back}
use cdm.Scheduler.Workers.{start}
use cdm.Scheduler.Interleave.{Sound, start-Sound}
use cdm.Persistence.{
  FoundRow, status_of, any_option, row_options, restored_download, db_load_chunks, restore_row,
  with_restored, restore_loop, db_restore_queue, restored_queue,
}

-- The ids of the rows.
abbrev pub row_ids : List FoundRow → List ℕ
row_ids = map (λ f. f.row.id)

status_of-idle : (name : Bytes) → status_of name ≢ active
unfolding status_of
status_of-idle name e = elim (Bool-cases (bytes_eq name (codes "QUEUED"))) [
  | inl a ↦ let h = rw (status_of, a) at e in ground arith
  | inr a ↦ elim (Bool-cases (bytes_eq name (codes "ACTIVE"))) [
    | inl b ↦ let h = rw (status_of, a, b) at e in ground arith
    | inr b ↦ elim (Bool-cases (bytes_eq name (codes "PAUSED"))) [
      | inl c ↦ let h = rw (status_of, a, b, c) at e in ground arith
      | inr c ↦ elim (Bool-cases (bytes_eq name (codes "ERROR"))) [
        | inl d ↦ let h = rw (status_of, a, b, c, d) at e in ground arith
        | inr d ↦ elim (Bool-cases (bytes_eq name (codes "CANCELED"))) [
          | inl k ↦ let h = rw (status_of, a, b, c, d, k) at e in ground arith
          | inr k ↦ let h = rw (status_of, a, b, c, d, k) at e in ground arith
        ]
      ]
    ]
  ]
]

-- A row gives an entry with its id that is not active, or none.
restore_row_cases :
    (f : FoundRow)
    → (restore_row f ≡ none)
      ⊎ ((d : Download) × (restore_row f ≡ some d) × (d.id ≡ f.row.id) × (d.status ≢ active))
unfolding restore_row restored_download
restore_row_cases f = elim (Bool-cases f.entry_memory) [
  | inr m ↦ inl (rw m refl)
  | inl m ↦ elim (Bool-cases (any_option (row_options f.row))) [
    | inr o ↦ inr (
      restored_download f.row (db_load_chunks f.chunk_rows max_chunks) none,
      rw (m, o) refl,
      refl,
      status_of-idle f.row.status,
    )
    | inl o ↦ elim (Bool-cases f.request_memory) [
      | inr r ↦ inl (rw (m, o, r) refl)
      | inl r ↦ inr (
        restored_download f.row (db_load_chunks f.chunk_rows max_chunks) (some (row_options f.row)),
        rw (m, o, r) refl,
        refl,
        status_of-idle f.row.status,
      )
    ]
  ]
]

-- A well-formed queue with no active entry and none with an id of the rows that are left.
record Ready (fs : List FoundRow) (q : Queue) : Type 0 where
  well : WellFormed q
  idle : (i : ℕ) → ¬ IsActive i q
  apart : All (λ j. All (λ i. i ≢ j) (ids q.entries)) (row_ids fs)

-- Ids that SQLite can have given: distinct, not 0, and not the last of 32 bits.
abbrev pub IdsOk : List FoundRow → Type 0
IdsOk fs = Distinct (row_ids fs) × All (λ i. (0 < i) × (i + 1 < u32_mod)) (row_ids fs)

-- The ids of a list differ from a new one that it is put behind.
also_apart :
    (d : Download) (js : List ℕ) (is : List ℕ)
    → All (λ j. j ≢ d.id) js
    → All (λ j. All (λ i. i ≢ j) is) js
    → All (λ j. All (λ i. i ≢ j) (d.id ∷ is)) js
also_apart d [] is h k = tt
also_apart d (j ∷ js) is (h, hs) (k, ks) = (((λ e. h (sym e)), k), also_apart d js is hs ks)

add_existing-Ready :
    (f : FoundRow) (fs : List FoundRow) (d : Download) (q : Queue)
    → IdsOk (f ∷ fs)
    → d.id ≡ f.row.id
    → d.status ≢ active
    → Ready (f ∷ fs) q
    → Ready fs (add_existing d q)
unfolding add_existing apply
add_existing-Ready f fs d q ((new, _), ((pos, fits), _)) e idle r =
    let apart : All (λ i. i ≢ d.id) (ids q.entries) =
      subst (λ j. All (λ i. i ≢ j) (ids q.entries)) (sym e) r.apart.0 in
    record {
      well =
          apply-WellFormed (restores d) q (apart, omega (arith, e, pos), omega (arith, e, fits))
            r.well;
      idle = λ i a. r.idle i (apply_back (restores d) i q tt idle r.well a);
      apart =
          also_apart d (row_ids fs) (ids q.entries)
            (subst (λ k. All (λ j. j ≢ k) (row_ids fs)) (sym e) new) r.apart.1;
    }

restore_loop-Ready :
    (fs : List FoundRow) (q : Queue) → IdsOk fs → Ready fs q → Ready [] (restore_loop fs q)
unfolding restore_loop with_restored
restore_loop-Ready [] q ok r = r
restore_loop-Ready (f ∷ fs) q ok r =
    let rest : IdsOk fs = (ok.0.1, ok.1.1) in
    elim (restore_row_cases f) [
      | inl n ↦ rw n (
          restore_loop-Ready fs q rest (record { well = r.well; idle = r.idle; apart = r.apart.1 }))
      | inr (d, s, e, idle) ↦
          rw s (
            restore_loop-Ready fs (add_existing d q) rest (add_existing-Ready f fs d q ok e idle r))
    ]

none_apart : (js : List ℕ) → All (λ (j : ℕ). All (λ (i : ℕ). i ≢ j) []) js
none_apart [] = tt
none_apart (j ∷ js) = (tt, none_apart js)

empty-Ready : (fs : List FoundRow) → Ready fs (record { entries = []; next_id = 1 })
unfolding find_by_id
empty-Ready fs = record {
  well = record { distinct = tt; named = tt; next_pos = omega arith; next_fits = omega arith };
  idle = λ i a. ground (arith, a.1);
  apart = none_apart (row_ids fs);
}

db_restore_queue-Ready :
    (ready prepared : Bool) (fs : List FoundRow)
    → IdsOk fs
    → Ready [] (db_restore_queue ready prepared fs (record { entries = []; next_id = 1 })).0
unfolding db_restore_queue
db_restore_queue-Ready false prepared fs ok = empty-Ready []
db_restore_queue-Ready true false fs ok = empty-Ready []
db_restore_queue-Ready true true fs ok =
    restore_loop-Ready fs (record { entries = []; next_id = 1 }) ok (empty-Ready fs)

-- Where the ids of the rows are distinct, not 0 and below 2 ^ 32 - 1: whatever the database, the memory
-- and the rows' other columns are, the scheduler that the daemon starts on the restored queue has
-- distinct ids below the next id, none of them 0, and its active entries, of which there are none, are
-- paired with its slots.
pub restored_queue-Sound :
    (ready prepared : Bool) (fs : List FoundRow) (max_id : ℕ)
    → IdsOk fs
    → Sound (start (restored_queue ready prepared fs max_id))
unfolding restored_queue apply
restored_queue-Sound ready prepared fs max_id ok =
    let r = db_restore_queue-Ready ready prepared fs ok in
    let q : Queue = (db_restore_queue ready prepared fs (record { entries = []; next_id = 1 })).0 in
    let next : ℕ = u32 (max_id + 1) in
    start-Sound (apply (seeds next) q) (apply-WellFormed (seeds next) q (omega arith) r.well)
      (λ i a. r.idle i (apply_back (seeds next) i q tt tt r.well a))
