-- ===== src/Queue/Identity.antt =====
-- The ids of the queue are distinct, not 0, and below the next one: an id names one entry.
use cdm.Prelude.{
  ℕ, ◌+◌, ◌≤◌, ◌<◌, ◌≡◌, ◌≢◌, refl, Bool, Option, List, [], ◌∷◌, map, ◌==◌, All, All-map, Bytes,
  arith, inl, inr, Bool-cases, u32_mod, u32, ltb,
}
use cdm.Download.{active, is_status, RequestOptions, Download}
use cdm.Queue.{
  Queue, Allocation, add, add_existing, seed_next_id, remove, remove_loop, visit, on_entry,
  new_download,
}
use cdm.Queue.Entries.{add_cases}
use cdm.Queue.Requests.{update_status, cancel, pause, resume, clear_resume_state}
use cdm.Queue.Calls.{
  Call, adds, restores, seeds, removes, cancels, pauses, resumes, clears, updates, apply,
}

abbrev pub ids : List Download → List ℕ
ids = map (λ d. d.id)

abbrev pub Distinct : List ℕ → Type 0
Distinct [] = Unit
Distinct (i ∷ is) = All (λ j. j ≢ i) is × Distinct is

pub record WellFormed (q : Queue) : Type 0 where
  pub distinct : Distinct (ids q.entries)
  pub named : All (λ i. (0 < i) × (i < q.next_id)) (ids q.entries)
  pub next_pos : 0 < q.next_id
  pub next_fits : q.next_id < u32_mod

-- What a call may be given: the id counter must not wrap, and a restored entry brings a new id.
abbrev pub Admissible : Call → Queue → Type 0
Admissible (adds safe alloc url dest opts) q = q.next_id + 1 < u32_mod
Admissible (restores d) q = All (λ i. i ≢ d.id) (ids q.entries) × (0 < d.id) × (d.id + 1 < u32_mod)
Admissible (seeds n) q = n < u32_mod
Admissible _ q = Unit

pub ids-visit {ℓ} :
    {R : Type ℓ} (id : ℕ) (body : Download → Download × R) (miss : R)
    → ((d : Download) → (body d).0.id ≡ d.id)
    → (ds : List Download) → ids (visit id body miss ds).0 ≡ ids ds
unfolding visit
ids-visit id body miss keeps [] = refl
ids-visit id body miss keeps (d ∷ ds) = ground (arith, ids-visit id body miss keeps ds, keeps d)

-- Removing keeps what holds of every id, and distinctness.
All-remove_loop :
    (P : ℕ → Type 0) (id : ℕ) (ds : List Download)
    → All P (ids ds)
    → All P (ids (remove_loop id ds).0)
unfolding remove_loop
All-remove_loop P id [] h = tt
All-remove_loop P id (d ∷ ds) h = elim (Bool-cases (d.id == id)) [
  | inl hit ↦ elim (Bool-cases (is_status d.status active)) [
    | inl running ↦ rw (hit, running) h
    | inr idle ↦ rw (hit, idle) h.1
  ]
  | inr other ↦ rw other (h.0, All-remove_loop P id ds h.1)
]

Distinct-remove_loop :
    (id : ℕ) (ds : List Download) → Distinct (ids ds) → Distinct (ids (remove_loop id ds).0)
unfolding remove_loop
Distinct-remove_loop id [] h = tt
Distinct-remove_loop id (d ∷ ds) h = elim (Bool-cases (d.id == id)) [
  | inl hit ↦ elim (Bool-cases (is_status d.status active)) [
    | inl running ↦ rw (hit, running) h
    | inr idle ↦ rw (hit, idle) h.1
  ]
  | inr other ↦ rw other (All-remove_loop _ id ds h.0, Distinct-remove_loop id ds h.1)
]

pub on_entry-WellFormed {ℓ} :
    {R : Type ℓ} (id : ℕ) (body : Download → Download × R) (miss : R) (q : Queue)
    → ((d : Download) → (body d).0.id ≡ d.id)
    → WellFormed q
    → WellFormed (on_entry id body miss q).0
unfolding on_entry
on_entry-WellFormed id body miss q keeps w =
    let same = ids-visit id body miss keeps q.entries in
    record {
      distinct = rw same w.distinct;
      named = rw same w.named;
      next_pos = w.next_pos;
      next_fits = w.next_fits;
    }

pub below_next : (is : List ℕ) (n : ℕ) → All (λ i. (0 < i) × (i < n)) is → All (λ i. i ≢ n) is
below_next is n = All-map _ _ is (λ i h. omega arith)

raise_next :
    (is : List ℕ) (n m : ℕ)
    → n ≤ m
    → All (λ i. (0 < i) × (i < n)) is
    → All (λ i. (0 < i) × (i < m)) is
raise_next is n m le = All-map _ _ is (λ i h. (h.0, omega arith))

cons-WellFormed :
    (d : Download) (q : Queue) (n : ℕ)
    → All (λ i. i ≢ d.id) (ids q.entries)
    → (0 < d.id) × (d.id < n) × (q.next_id ≤ n) × (n < u32_mod)
    → WellFormed q
    → WellFormed (record { entries = d ∷ q.entries; next_id = n })
cons-WellFormed d q n fresh h w = record {
  distinct = (fresh, w.distinct);
  named = ((h.0, h.1), raise_next (ids q.entries) q.next_id n h.2 w.named);
  next_pos = omega arith;
  next_fits = h.3;
}

add-WellFormed :
    (safe : Bool) (alloc : Allocation) (url dest : Bytes) (opts : Option RequestOptions) (q : Queue)
    → q.next_id + 1 < u32_mod
    → WellFormed q
    → WellFormed (add safe alloc url dest opts q).0
unfolding add
add-WellFormed safe alloc url dest opts q room w = elim (add_cases safe alloc url dest opts q) [
  | inl refused ↦ rw refused.1 w
  | inr made ↦
      let exact : u32 (q.next_id + 1) ≡ q.next_id + 1 = omega arith in
      rw (made.1, exact)
        (cons-WellFormed (new_download q.next_id url dest opts) q (q.next_id + 1)
          (below_next (ids q.entries) q.next_id w.named)
          (w.next_pos, omega arith, omega arith, room) w)
]

add_existing-WellFormed :
    (d : Download) (q : Queue)
    → Admissible (restores d) q
    → WellFormed q
    → WellFormed (add_existing d q)
unfolding add_existing
add_existing-WellFormed d q ok w =
    cons-WellFormed d q _ ok.0 (ok.1, ground arith, ground arith, ground arith) w

seed-WellFormed : (n : ℕ) (q : Queue) → n < u32_mod → WellFormed q → WellFormed (seed_next_id n q)
unfolding seed_next_id
seed-WellFormed n q fits w = elim (Bool-cases (ltb q.next_id n)) [
  | inl low ↦ rw low (record {
    distinct = w.distinct;
    named = raise_next (ids q.entries) q.next_id n (ground arith) w.named;
    next_pos = ground arith;
    next_fits = fits;
  })
  | inr high ↦ rw high w
]

remove-WellFormed : (id : ℕ) (q : Queue) → WellFormed q → WellFormed (remove id q).0
unfolding remove
remove-WellFormed id q w = record {
  distinct = Distinct-remove_loop id q.entries w.distinct;
  named = All-remove_loop _ id q.entries w.named;
  next_pos = w.next_pos;
  next_fits = w.next_fits;
}

-- A call keeps the ids distinct, not 0 and below the next id, where it is one of these: an addition
-- while the next id is below 2 ^ 32 - 1, so that it does not wrap to 0; a restored entry whose id is new,
-- not 0 and below 2 ^ 32 - 1; a next id of 32 bits to start from; or any other call.
pub apply-WellFormed :
    (c : Call) (q : Queue) → Admissible c q → WellFormed q → WellFormed (apply c q)
unfolding apply update_status cancel pause resume clear_resume_state
apply-WellFormed (adds safe alloc url dest opts) q ok w =
    add-WellFormed safe alloc url dest opts q ok w
apply-WellFormed (restores d) q ok w = add_existing-WellFormed d q ok w
apply-WellFormed (seeds n) q ok w = seed-WellFormed n q ok w
apply-WellFormed (removes id) q ok w = remove-WellFormed id q w
apply-WellFormed (cancels id) q ok w = on_entry-WellFormed id _ _ q (λ d. ground arith) w
apply-WellFormed (pauses id) q ok w = on_entry-WellFormed id _ _ q (λ d. ground arith) w
apply-WellFormed (resumes id) q ok w = on_entry-WellFormed id _ _ q (λ d. ground arith) w
apply-WellFormed (clears id) q ok w = on_entry-WellFormed id _ _ q (λ d. refl) w
apply-WellFormed (updates id s) q ok w = on_entry-WellFormed id _ _ q (λ d. refl) w
