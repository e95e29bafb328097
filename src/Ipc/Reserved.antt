-- ===== src/Ipc/Reserved.antt =====
-- What `reserve_download` leaves.
use cdm.Prelude.{
  ℕ, zero, suc, ◌+◌, ◌-◌, ◌≤◌, ◌<◌, ◌≡◌, refl, ap, sym, ◌∙◌, ◌⊎◌, inl, inr, Bool, true, false,
  Option, none, some, List, [], ◌∷◌, ◌++◌, Bytes, Option-cases, ◌==◌, beq_refl, if◌then◌else◌,
  length, take, take_whole, u32, u32_mod, arith,
}
use cdm.Download.{active, is_status, Download, RequestOptions}
use cdm.Queue.{Queue, remove, remove_loop, on_entry, visit, new_download, is_empty}
use cdm.Queue.Entries.{accepted, add_cases}
use cdm.Paths.Unique.{path_make_unique}
use cdm.Paths.Fresh.{path_make_unique-Unique, Unique}
use cdm.Ipc.{max_path_len}
use cdm.Ipc.Reserve.{
  Claim, claimed, exists, failed, Attempt, Reserved, Tried, stops, again, listed, mark_reserved,
  gives_up, claims, reserve_round, try_unique, before, reserve_loop, reserve_download,
  reserve_attempts,
}

-- The queue with a download before the others.
abbrev pub with_head : Download → ℕ → Queue → Queue
with_head d n q = record { entries = d ∷ q.entries; next_id = n }

mark_reserved-head :
    (d : Download) (n : ℕ) (q : Queue)
    → mark_reserved d.id (with_head d n q) ≡ with_head (record d { reserved_file = true }) n q
unfolding mark_reserved on_entry visit
mark_reserved-head d n q = rw (beq_refl d.id) refl

-- What `remove` unlinks of a download that no worker has.
abbrev pub own_file : Download → Option Bytes
own_file d = if is_empty d.dest_path then none else some d.dest_path

remove-head :
    (d : Download) (n : ℕ) (q : Queue)
    → is_status d.status active ≡ false
    → remove d.id (with_head d n q) ≡ (record q { next_id = n }, own_file d)
unfolding remove remove_loop
remove-head d n q idle = rw (beq_refl d.id, idle) refl

-- A round that gives up takes the new download out again.
gives_up-head :
    (goes_on : Bool) (d : Download) (unlinked : List Bytes) (n : ℕ) (q : Queue)
    → is_status d.status active ≡ false
    → gives_up goes_on d.id unlinked (with_head d n q) ≡ (
        if goes_on
        then again (record q { next_id = n }) (unlinked ++ listed (own_file d))
        else stops (record {
          id = 0;
          queue = record q { next_id = n };
          unlinked = unlinked ++ listed (own_file d);
        }))
unfolding gives_up
gives_up-head goes_on d unlinked n q idle = rw (remove-head d n q idle) refl

-- What a round may answer for the queue `q`, where `d` is the download that it makes.
abbrev RoundOk : Claim → Download → Queue → Tried → Type 0
RoundOk c d q (stops r) =
    ((r.id ≡ 0) × (r.queue.entries ≡ q.entries))
    ⊎ ((r.id ≡ d.id)
        × (c ≡ claimed)
        × (r.queue.entries ≡ record d { reserved_file = true } ∷ q.entries)
        × (r.unlinked ≡ []))
RoundOk c d q (again q' unlinked) =
    (c ≡ exists)
    × (q'.entries ≡ q.entries)
    × (q'.next_id ≡ q.next_id + 1)
    × (unlinked ≡ listed (own_file d))

claims-RoundOk :
    (c : Claim) (inserted : Bool) (path : Bytes) (d : Download) (q : Queue)
    → is_status d.status active ≡ false
    → RoundOk c d q (claims c inserted path d.id (with_head d (q.next_id + 1) q))
unfolding claims
claims-RoundOk claimed true path d q idle =
    rw (mark_reserved-head d (q.next_id + 1) q) (inr (refl, refl, refl, refl))
claims-RoundOk claimed false path d q idle =
    let marked : Download = record d { reserved_file = true } in
    rw
      (
        mark_reserved-head d (q.next_id + 1) q,
        gives_up-head false marked (path ∷ []) (q.next_id + 1) q idle,
      )
      (inl (refl, refl))
claims-RoundOk exists inserted path d q idle =
    rw (gives_up-head true d [] (q.next_id + 1) q idle) (refl, refl, refl, refl)
claims-RoundOk failed inserted path d q idle =
    rw (gives_up-head false d [] (q.next_id + 1) q idle) (inl (refl, refl))

-- The download that a round makes under a path.
abbrev pub made : Bytes → RequestOptions → Bytes → Queue → Download
made url opts path q = new_download q.next_id url path (some opts)

reserve_round-RoundOk :
    (a : Attempt) (url : Bytes) (opts : RequestOptions) (path : Bytes) (q : Queue)
    → 0 < q.next_id
    → q.next_id + 1 < u32_mod
    → RoundOk a.claim (made url opts path q) q (reserve_round a url opts path q)
unfolding reserve_round new_download
reserve_round-RoundOk a url opts path q pos room =
    elim (add_cases a.safe a.alloc url path (some opts) q) [
      | inl (refused, e) ↦ rw e (inl (refl, refl))
      | inr (ok, e) ↦
          let fits : u32 (q.next_id + 1) ≡ q.next_id + 1 = omega arith in
          let named : (q.next_id == 0) ≡ false = ground arith in
          rw (e, named, fits) (claims-RoundOk a.claim a.inserted path (made url opts path q) q refl)
    ]

-- The download that is reserved under an id and a path.
abbrev pub reserved_entry : ℕ → Bytes → Bytes → RequestOptions → Download
reserved_entry id url path opts = record (new_download id url path (some opts)) {
  reserved_file = true;
}

-- What `reserve_download` answers: 0 and the entries that it was given; or a new id, with a reserved
-- download before these entries, whose path had no file when it was chosen and whose file was made.
abbrev pub ReservedOk : (ℕ → Attempt) → Bytes → Bytes → RequestOptions → Queue → Reserved → Type 0
ReservedOk answers url dest opts q r =
    ((r.id ≡ 0) × (r.queue.entries ≡ q.entries))
    ⊎ ((k : ℕ) × (path : Bytes) × (q.next_id ≤ r.id)
        × ((answers k).claim ≡ claimed)
        × Unique (answers k).files max_path_len dest path
        × (r.queue.entries ≡ reserved_entry r.id url path opts ∷ q.entries))

later :
    (answers : ℕ → Attempt) (url dest : Bytes) (opts : RequestOptions) (q q' : Queue) (r : Reserved)
    (paths : List Bytes)
    → q'.entries ≡ q.entries
    → q'.next_id ≡ q.next_id + 1
    → ReservedOk answers url dest opts q' r
    → ReservedOk answers url dest opts q (before paths r)
later answers url dest opts q q' r paths e n (inl (z, same)) = inl (z, same ∙ e)
later answers url dest opts q q' r paths e n (inr (k, path, le, c, u, same)) =
    inr (k, path, omega arith, c, u, same ∙ ap (reserved_entry r.id url path opts ∷◌) e)

-- The loop behind one round.
ended :
    (left : ℕ) (answers : ℕ → Attempt) (url dest : Bytes) (opts : RequestOptions) (q : Queue)
    (path : Bytes) (t : Tried)
    → Unique (answers left).files max_path_len dest path
    → RoundOk (answers left).claim (made url opts path q) q t
    → ((q' : Queue)
        → q'.next_id ≡ q.next_id + 1
        → ReservedOk answers url dest opts q' (reserve_loop left answers url dest opts q'))
    → ReservedOk answers url dest opts q (elim t [
      | stops r ↦ r
      | again q' unlinked ↦ before unlinked (reserve_loop left answers url dest opts q')
    ])
unfolding new_download
ended left answers url dest opts q path (stops r) u (inl kept) rest = inl kept
ended left answers url dest opts q path (stops r) u (inr (i, c, e, z)) rest = inr (
  left,
  path,
  omega arith,
  c,
  u,
  e ∙ ap (λ n. reserved_entry n url path opts ∷ q.entries) (sym i),
)
ended left answers url dest opts q path (again q' unlinked) u (c, e, n, z) rest =
    later answers url dest opts q q' (reserve_loop left answers url dest opts q') unlinked e n
      (rest q' n)

reserve_loop-ReservedOk :
    (left : ℕ) (answers : ℕ → Attempt) (url dest : Bytes) (opts : RequestOptions) (q : Queue)
    → 0 < q.next_id
    → q.next_id + left < u32_mod
    → ReservedOk answers url dest opts q (reserve_loop left answers url dest opts q)
unfolding reserve_loop try_unique
reserve_loop-ReservedOk zero answers url dest opts q pos room = inl (refl, refl)
reserve_loop-ReservedOk (suc left) answers url dest opts q pos room =
    elim (Option-cases (path_make_unique (answers left).files dest max_path_len)) [
      | inl e ↦ rw (reserve_loop, try_unique, e) (inl (refl, refl))
      | inr (path, e) ↦
          rw (reserve_loop, try_unique, e)
            (ended left answers url dest opts q path (reserve_round (answers left) url opts path q)
              (path_make_unique-Unique (answers left).files dest max_path_len path e)
              (reserve_round-RoundOk (answers left) url opts path q pos (omega arith))
              (λ q' n.
                reserve_loop-ReservedOk left answers url dest opts q' (omega arith) (omega arith)))
    ]

-- Where the ids do not run out, `reserve_download` answers 0 and leaves the entries as they were, or it
-- answers a new id and has put one reserved download before them, with a path that no file had when
-- it was chosen, and a file that was made for it there.
pub reserve_download-ReservedOk :
    (answers : ℕ → Attempt) (url dest : Bytes) (opts : RequestOptions) (q : Queue)
    → 0 < q.next_id
    → q.next_id + reserve_attempts < u32_mod
    → ReservedOk answers url dest opts q (reserve_download answers url dest opts q)
unfolding reserve_download
reserve_download-ReservedOk answers url dest opts q pos room =
    reserve_loop-ReservedOk reserve_attempts answers url dest opts q pos room

own_file-path :
    (id : ℕ) (url path : Bytes) (opts : RequestOptions)
    → is_empty path ≡ false
    → length path < max_path_len
    → own_file (new_download id url path (some opts)) ≡ some path
unfolding new_download
own_file-path id url path opts full short =
    let whole : take 1023 path ≡ path = take_whole 1023 path (omega arith) in rw (whole, full) refl

reserve_round_deletes :
    (a : Attempt) (url : Bytes) (opts : RequestOptions) (path : Bytes) (q : Queue)
    → accepted a.safe a.alloc (some opts) ≡ true
    → a.claim ≡ exists
    → is_empty path ≡ false
    → length path < max_path_len
    → 0 < q.next_id
    → q.next_id + 1 < u32_mod
    → reserve_round a url opts path q ≡ again (record q { next_id = q.next_id + 1 }) (path ∷ [])
unfolding reserve_round new_download claims
reserve_round_deletes a url opts path q ok taken full short pos room =
    elim (add_cases a.safe a.alloc url path (some opts) q) [
      | inl (refused, e) ↦ absurd (ground (arith, ok, refused))
      | inr (_, e) ↦
          let d : Download = made url opts path q in
          let fits : u32 (q.next_id + 1) ≡ q.next_id + 1 = omega arith in
          let named : (q.next_id == 0) ≡ false = ground arith in
          let left : gives_up true d.id [] (with_head d (q.next_id + 1) q)
              ≡ again (record q { next_id = q.next_id + 1 }) (path ∷ []) =
            gives_up-head true d [] (q.next_id + 1) q refl
            ∙ ap (λ o. again (record q { next_id = q.next_id + 1 }) (listed o))
                (own_file-path q.next_id url path opts full short) in
          rw (e, named, fits, taken) left
    ]

reserve_loop_deletes :
    (left : ℕ) (answers : ℕ → Attempt) (url dest : Bytes) (opts : RequestOptions) (q : Queue)
    (path : Bytes)
    → path_make_unique (answers left).files dest max_path_len ≡ some path
    → accepted (answers left).safe (answers left).alloc (some opts) ≡ true
    → (answers left).claim ≡ exists
    → is_empty path ≡ false
    → 0 < q.next_id
    → q.next_id + 1 < u32_mod
    → (reserve_loop (suc left) answers url dest opts q).unlinked
      ≡ path
        ∷ (reserve_loop left answers url dest opts (record q { next_id = q.next_id + 1 })).unlinked
unfolding reserve_loop try_unique
reserve_loop_deletes left answers url dest opts q path e ok taken full pos room =
    let (free, short, shape) =
      path_make_unique-Unique (answers left).files dest max_path_len path e in
    let round_e =
      reserve_round_deletes (answers left) url opts path q ok taken full short pos room in
    rw (reserve_loop, try_unique, e, round_e) refl

-- Where another program makes a file at the chosen path before `file_preallocate` does, so that this
-- answers -2, `reserve_download` unlinks that file.
pub reserve_download_deletes :
    (answers : ℕ → Attempt) (url dest : Bytes) (opts : RequestOptions) (q : Queue) (path : Bytes)
    → path_make_unique (answers (reserve_attempts - 1)).files dest max_path_len ≡ some path
    → accepted
        (answers (reserve_attempts - 1)).safe
        (answers (reserve_attempts - 1)).alloc
        (some opts)
      ≡ true
    → (answers (reserve_attempts - 1)).claim ≡ exists
    → is_empty path ≡ false
    → 0 < q.next_id
    → q.next_id + 1 < u32_mod
    → (rest : List Bytes) × ((reserve_download answers url dest opts q).unlinked ≡ path ∷ rest)
unfolding reserve_download
reserve_download_deletes answers url dest opts q path e ok taken full pos room = (
  (reserve_loop (reserve_attempts - 1) answers url dest opts
      (record q { next_id = q.next_id + 1 })).unlinked,
  reserve_loop_deletes (reserve_attempts - 1) answers url dest opts q path e ok taken full pos room,
)
