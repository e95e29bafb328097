-- ===== src/Queue/Lifecycle.antt =====
-- How entries come into the queue and leave it.
use cdm.Prelude.{
  ℕ, ◌<◌, ◌≡◌, ◌≢◌, refl, Bool, true, false, Option, none, some, List, [], ◌∷◌, ◌==◌, if◌then◌else◌,
  All, Bytes, arith, inl, inr, ◌⊎◌, Bool-cases, Option-cases, beq_refl, eq_of_beq, take, pos,
}
use cdm.Download.{Status-discrete, active, queued, RequestOptions, Download}
use cdm.Queue.{
  Queue, Allocation, add, remove, remove_loop, find_by_id, is_empty, new_download,
  request_options_present,
}
use cdm.Queue.Entries.{accepted, add_cases}
use cdm.Queue.Identity.{ids, Distinct, WellFormed}

abbrev pub lookup : ℕ → Queue → Option Download
lookup id q = find_by_id id q.entries

-- No option is set.
abbrev pub IsPlain : Option RequestOptions → Type 0
IsPlain none = Unit
IsPlain (some o) =
    (o.cookie ≡ [])
    × (o.referrer ≡ [])
    × (o.extra_headers ≡ [])
    × (o.expected_sha256 ≡ [])
    × (o.speed_limit_bps ≡ 0)

-- A queued entry that can start at once and has nothing yet: for the URL and the path, each cut to its
-- array, and with the options if one of them is set.
pub record IsNew (id : ℕ) (url dest : Bytes) (opts : Option RequestOptions) (d : Download)
    : Type 0 where
  pub named : d.id ≡ id
  pub from : d.url ≡ take 2047 url
  pub to : d.dest_path ≡ take 1023 dest
  pub waits : (d.status ≡ queued) × (d.next_retry_at ≡ 0) × (d.retry_count ≡ 0)
  pub level : d.priority ≡ pos 0
  pub unflagged : (d.cancel_requested ≡ false) × (d.pause_requested ≡ false)
  pub nothing : (d.chunk_count ≡ 0) × (d.total_size ≡ 0) × (d.bytes_downloaded ≡ 0)
  pub unreserved : d.reserved_file ≡ false
  pub request : ((d.request ≡ none) × IsPlain opts) ⊎ ((d.request ≡ opts) × ¬ IsPlain opts)

is_empty-eq : (bs : Bytes) → is_empty bs ≡ true → bs ≡ []
is_empty-eq [] h = refl
is_empty-eq (b ∷ bs) h = ground arith

absent-IsPlain :
    (opts : Option RequestOptions) → request_options_present opts ≡ false → IsPlain opts
unfolding request_options_present
absent-IsPlain none h = tt
absent-IsPlain (some o) h = (
  is_empty-eq o.cookie (ground arith),
  is_empty-eq o.referrer (ground arith),
  is_empty-eq o.extra_headers (ground arith),
  is_empty-eq o.expected_sha256 (ground arith),
  ground arith,
)

IsPlain-absent :
    (opts : Option RequestOptions) → IsPlain opts → request_options_present opts ≡ false
unfolding request_options_present
IsPlain-absent none h = refl
IsPlain-absent (some o) (a, b, c, d, e) = rw (a, b, c, d, e) refl

new_download-IsNew :
    (id : ℕ) (url dest : Bytes) (opts : Option RequestOptions)
    → IsNew id url dest opts (new_download id url dest opts)
unfolding new_download
new_download-IsNew id url dest opts = record {
  named = refl;
  from = refl;
  to = refl;
  waits = (refl, refl, refl);
  level = refl;
  unflagged = (refl, refl);
  nothing = (refl, refl, refl);
  unreserved = refl;
  request = elim (Bool-cases (request_options_present opts)) [
    | inl some_set ↦
        inr (rw some_set refl, λ p. let none_set = IsPlain-absent opts p in cc (some_set, none_set))
    | inr none_set ↦ inl (rw none_set refl, absent-IsPlain opts none_set)
  ];
}

-- What `add` promises for the queue `q`, when it returns `q'` and the id `id`.
abbrev pub AddResult : ℕ → Bytes → Bytes → Option RequestOptions → Queue → Queue × ℕ → Type 0
AddResult j url dest opts q (q', id) =
    (id ≡ q.next_id)
    × (0 < id)
    × ((d : Download) × (lookup id q' ≡ some d) × IsNew id url dest opts d)
    × ((j ≡ id) ⊎ (lookup j q' ≡ lookup j q))

-- `queue_manager_add` answers 0 and leaves the queue alone when the destination is unsafe or memory
-- is short. Otherwise the answer is an id that is not 0, under which a queued entry is found with the
-- URL and the path, each cut to its array, and with the options if one is set, that can start at once
-- and has nothing yet; and what is found under every other id is as before.
pub add_lem :
    (safe : Bool) (alloc : Allocation) (url dest : Bytes) (opts : Option RequestOptions) (q : Queue)
    (j : ℕ)
    → WellFormed q
    → ((accepted safe alloc opts ≡ false) × (add safe alloc url dest opts q ≡ (q, 0)))
      ⊎ ((accepted safe alloc opts ≡ true)
          × AddResult j url dest opts q (add safe alloc url dest opts q))
unfolding find_by_id new_download
add_lem safe alloc url dest opts q j w = elim (add_cases safe alloc url dest opts q) [
  | inl refused ↦ inl refused
  | inr (ok, made) ↦ inr (
    ok,
    rw made (
      refl,
      w.next_pos,
      (
        new_download q.next_id url dest opts,
        rw (beq_refl q.next_id) refl,
        new_download-IsNew q.next_id url dest opts,
      ),
      ground arith,
    ),
  )
]

-- The entry `d` that has the id `id` once `remove` is done with it, and the path that was unlinked.
abbrev pub Removed : Download → Option Download → Option Bytes → Type 0
Removed d left unlinked =
    ((d.status ≡ active) × (left ≡ some (record d { cancel_requested = true })) × (unlinked ≡ none))
    ⊎ ((d.status ≢ active)
        × (left ≡ none)
        × (unlinked ≡ (if is_empty d.dest_path then none else some d.dest_path)))

find-absent : (id : ℕ) (ds : List Download) → All (λ i. i ≢ id) (ids ds) → find_by_id id ds ≡ none
unfolding find_by_id
find-absent id [] h = refl
find-absent id (d ∷ ds) h = ground (arith, find-absent id ds h.1)

remove_loop-Removed :
    (id : ℕ) (d : Download) (ds : List Download)
    → Distinct (ids ds)
    → find_by_id id ds ≡ some d
    → Removed d (find_by_id id (remove_loop id ds).0) (remove_loop id ds).1
unfolding find_by_id remove_loop
remove_loop-Removed id d [] dist e = cc
remove_loop-Removed id d (x ∷ ds) dist e = elim (Bool-cases (x.id == id)) [
  | inl hit ↦
      let same : x.id ≡ id = eq_of_beq x.id id hit in
      let gone : find_by_id id ds ≡ none = rw same at (find-absent x.id ds dist.0) in
      elim (Status-discrete x.status active) [
        | yes running ↦ inl (ground arith, ground arith, ground arith)
        | no idle ↦ inr (ground arith, ground arith, ground arith)
      ]
  | inr other ↦ rw (other, other) (remove_loop-Removed id d ds dist.1 (rw other at e))
]

remove_loop_others :
    (id j : ℕ) (ds : List Download)
    → (j ≡ id) ⊎ (find_by_id j (remove_loop id ds).0 ≡ find_by_id j ds)
unfolding find_by_id remove_loop
remove_loop_others id j [] = inr refl
remove_loop_others id j (x ∷ ds) = ground (arith, remove_loop_others id j ds)

remove_loop_missing :
    (id : ℕ) (ds : List Download) → find_by_id id ds ≡ none → remove_loop id ds ≡ (ds, none)
unfolding find_by_id remove_loop
remove_loop_missing id [] e = refl
remove_loop_missing id (x ∷ ds) e = ground (arith, remove_loop_missing id ds)

-- `queue_manager_remove` of an active entry only asks its worker to cancel: the entry stays and no
-- file is unlinked. Any other entry is gone, and its file is unlinked if it has a path. An id that
-- no entry has changes nothing, and no other entry changes.
pub remove_lem :
    (id j : ℕ) (q : Queue)
    → WellFormed q
    → ((lookup id q ≡ none) × (remove id q ≡ (q, none)))
      ⊎ ((d : Download) × (lookup id q ≡ some d)
          × Removed d (lookup id (remove id q).0) (remove id q).1
          × ((j ≡ id) ⊎ (lookup j (remove id q).0 ≡ lookup j q)))
unfolding remove
remove_lem id j q w = elim (Option-cases (lookup id q)) [
  | inl missing ↦ inl (missing, rw (remove_loop_missing id q.entries missing))
  | inr (d, found) ↦ inr (
    d,
    found,
    remove_loop-Removed id d q.entries w.distinct found,
    remove_loop_others id j q.entries,
  )
]
