-- ===== src/Queue/Snapshot.antt =====
-- The snapshots hold the first active downloads, and as many as the caller has room for.
use cdm.Prelude.{
  ℕ, zero, suc, ◌+◌, ◌-◌, ◌≤◌, ◌≡◌, refl, ap, Bool, true, false, none, some, List, [], ◌∷◌, ◌++◌,
  map, length, take, arith, inl, inr, Bool-cases, if◌then◌else◌, length-take_of_le, Option-cases,
  ◌⊎◌, ltb, sym,
}
use cdm.Download.{
  Status, queued, active, paused, done, error, canceled, is_status, Download, max_chunks,
}
use cdm.Queue.{Queue, find_by_id, count_loop, count_by_status}
use cdm.Queue.Progress.{
  progress_of, chunk_row, active_progress, snapshot_active_progress, chunk_rows, chunk_progress,
  ChunkProgressSnapshot, snapshot_chunk_progress, get_runtime_snapshot, runtime_of,
  DownloadRuntimeSnapshot,
}

-- The active entries, in order.
abbrev pub actives : List Download → List Download
actives [] = []
actives (d ∷ ds) = if is_status d.status active then d ∷ actives ds else actives ds

active_progress_lem :
    (room : ℕ) (ds : List Download)
    → active_progress room ds ≡ take room (map progress_of (actives ds))
unfolding active_progress
active_progress_lem zero ds = refl
active_progress_lem (suc room) [] = refl
active_progress_lem (suc room) (d ∷ ds) =
    ground (arith, active_progress_lem room ds, active_progress_lem (suc room) ds)

-- The progress snapshot holds the id, the bytes and the size of the active downloads, in the order
-- of the queue, cut to the room that the caller has.
pub snapshot_active_progress_lem :
    (max : ℕ) (q : Queue)
    → snapshot_active_progress max q ≡ take max (map progress_of (actives q.entries))
unfolding snapshot_active_progress
snapshot_active_progress_lem max q = active_progress_lem max q.entries

-- The rows of the chunks `j`, `j + 1`, … of `d`, `left` of them.
abbrev pub rows_from : Download → ℕ → ℕ → List ChunkProgressSnapshot
rows_from d zero j = []
rows_from d (suc left) j = chunk_row d j ∷ rows_from d left (j + 1)

-- One row for each chunk of each entry.
abbrev pub all_rows : List Download → List ChunkProgressSnapshot
all_rows [] = []
all_rows (d ∷ ds) = rows_from d d.chunk_count 0 ++ all_rows ds

chunk_rows_lem :
    (d : Download) (left j room : ℕ) → chunk_rows d left j room ≡ take room (rows_from d left j)
unfolding chunk_rows
chunk_rows_lem d zero j zero = refl
chunk_rows_lem d zero j (suc room) = refl
chunk_rows_lem d (suc left) j zero = refl
chunk_rows_lem d (suc left) j (suc room) =
    ap (◌∷◌ (chunk_row d j)) (chunk_rows_lem d left (j + 1) room)

take-append {ℓ} :
    {A : Type ℓ} (n : ℕ) (xs ys : List A)
    → take n (xs ++ ys) ≡ take n xs ++ take (n - length (take n xs)) ys
take-append zero xs ys = refl
take-append (suc n) [] ys = let e : suc n - 0 ≡ suc n = omega arith in rw e
take-append (suc n) (x ∷ xs) ys =
    let e : suc n - suc (length (take n xs)) ≡ n - length (take n xs) = omega arith in
    rw e (ap (◌∷◌ x) (take-append n xs ys))

take-nil {ℓ} : {A : Type ℓ} (n : ℕ) → take {A = A} n [] ≡ []
take-nil zero = refl
take-nil (suc n) = refl

chunk_progress_lem :
    (room : ℕ) (ds : List Download) → chunk_progress room ds ≡ take room (all_rows (actives ds))
unfolding chunk_progress
chunk_progress_lem room [] = sym (take-nil room)
chunk_progress_lem room (d ∷ ds) = elim (Bool-cases (is_status d.status active)) [
  | inl running ↦
      rw (running, chunk_rows_lem d d.chunk_count 0 room, take-append room)
        (ap (◌++◌ (take room (rows_from d d.chunk_count 0)))
          (chunk_progress_lem (room - length (take room (rows_from d d.chunk_count 0))) ds))
  | inr idle ↦ rw idle (chunk_progress_lem room ds)
]

-- The chunk snapshot holds the start and the live bytes of every chunk of the active downloads, in
-- order, cut to the room that the caller has.
pub snapshot_chunk_progress_lem :
    (max : ℕ) (q : Queue) → snapshot_chunk_progress max q ≡ take max (all_rows (actives q.entries))
unfolding snapshot_chunk_progress
snapshot_chunk_progress_lem max q = chunk_progress_lem max q.entries

-- The counts of the six statuses, for entries seen so far of each.
count_loop_add :
    (s : Status) (ds : List Download) (n : ℕ) → count_loop s ds n ≡ n + count_loop s ds 0
unfolding count_loop
count_loop_add s [] n = omega arith
count_loop_add s (d ∷ ds) n =
    ground (arith, count_loop_add s ds n, count_loop_add s ds (n + 1), count_loop_add s ds 1)

status_total : List Download → ℕ
status_total ds =
    count_loop queued ds 0
    + count_loop active ds 0
    + count_loop paused ds 0
    + count_loop done ds 0
    + count_loop error ds 0
    + count_loop canceled ds 0

pub count_step :
    (s : Status) (d : Download) (ds : List Download)
    → count_loop s (d ∷ ds) 0 ≡ (if is_status d.status s then 1 else 0) + count_loop s ds 0
unfolding count_loop
count_step s d ds = ground (arith, count_loop_add s ds 1)

-- `d` counts once, under its own status.
one_status : (d : Download) (ds : List Download) → status_total (d ∷ ds) ≡ suc (status_total ds)
unfolding status_total
one_status d ds = ground (
  arith,
  count_step queued d ds,
  count_step active d ds,
  count_step paused d ds,
  count_step done d ds,
  count_step error d ds,
  count_step canceled d ds,
)

status_total_lem : (ds : List Download) → status_total ds ≡ length ds
status_total_lem [] = unfold status_total count_loop in refl
status_total_lem (d ∷ ds) = omega (arith, one_status d ds, status_total_lem ds)

-- Every entry is counted under exactly one of the six statuses.
pub count_by_status_total :
    (q : Queue)
    → count_by_status queued q
        + count_by_status active q
        + count_by_status paused q
        + count_by_status done q
        + count_by_status error q
        + count_by_status canceled q
      ≡ length q.entries
unfolding count_by_status status_total
count_by_status_total q = status_total_lem q.entries

runtime_of_bounds :
    (d : Download)
    → length d.chunks ≡ max_chunks
    → ((runtime_of d).chunk_count ≤ max_chunks)
      × (length (runtime_of d).chunks ≡ (runtime_of d).chunk_count)
unfolding runtime_of
runtime_of_bounds d full = elim (Bool-cases (ltb max_chunks d.chunk_count)) [
  | inl many ↦ rw many (omega arith, length-take_of_le 8 d.chunks (omega arith))
  | inr few ↦ rw few (ground arith, length-take_of_le d.chunk_count d.chunks (ground arith))
]

-- The snapshot of an entry whose chunk array has eight places names at most eight chunks and holds
-- exactly as many; there is one exactly when an entry has the id and the caller passed a place.
pub get_runtime_snapshot_lem :
    (wanted : Bool) (id : ℕ) (q : Queue)
    → ((d : Download) → find_by_id id q.entries ≡ some d → length d.chunks ≡ max_chunks)
    → ((get_runtime_snapshot wanted id q ≡ none)
        × ((wanted ≡ false) ⊎ (find_by_id id q.entries ≡ none)))
      ⊎ ((d : Download) × (s : DownloadRuntimeSnapshot) × (get_runtime_snapshot wanted id q
            ≡ some s)
          × (find_by_id id q.entries ≡ some d)
          × (s.chunk_count ≤ max_chunks)
          × (length s.chunks ≡ s.chunk_count)
          × (s.status ≡ d.status)
          × (s.dest_path ≡ d.dest_path))
unfolding get_runtime_snapshot runtime_of
get_runtime_snapshot_lem false id q full = inl (refl, inl refl)
get_runtime_snapshot_lem true id q full = elim (Option-cases (find_by_id id q.entries)) [
  | inl missing ↦ inl (rw (missing, get_runtime_snapshot), inr missing)
  | inr (d, found) ↦
      let (few, exact) = runtime_of_bounds d (full d found) in
      inr (d, runtime_of d, rw (found, get_runtime_snapshot), found, few, exact, refl, refl)
]
