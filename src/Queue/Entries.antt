-- ===== src/Queue/Entries.antt =====
-- What the loops of the queue do to the entry that they find, and to the others.
use cdm.Prelude.{
  ℕ, ◌≡◌, refl, Bool, true, false, Option, none, some, List, [], ◌∷◌, ◌==◌, if◌then◌else◌, arith,
  inl, inr, Bool-cases, Option-cases, eq_of_beq, ◌≢◌, ◌⊎◌, ◌&&◌, ◌||◌, not, Bytes, u32, ◌+◌,
}
use cdm.Download.{Download, RequestOptions}
use cdm.Queue.{
  Queue, Allocation, add, new_download, request_options_present, visit, on_entry, find_by_id,
}

module _ {ℓ} {R : Type ℓ} (id : ℕ) (body : Download → Download × R) (miss : R) where
  -- The result of the loop is the body's on the entry with the id, or `miss`.
  pub visit_result :
      (ds : List Download)
      → (visit id body miss ds).1 ≡ elim (find_by_id id ds) [ none ↦ miss | some d ↦ (body d).1 ]
  unfolding visit find_by_id
  visit_result [] = refl
  visit_result (d ∷ ds) = elim (Bool-cases (d.id == id)) [
    | inl hit ↦ rw hit refl
    | inr other ↦ rw other (visit_result ds)
  ]

  -- A body that keeps the id changes the entry with the id, and no other one.
  pub find_by_id-visit :
      ((d : Download) → (body d).0.id ≡ d.id)
      → (j : ℕ) (ds : List Download)
      → find_by_id j (visit id body miss ds).0 ≡ (
          if id == j
          then elim (find_by_id j ds) [ none ↦ none | some d ↦ some (body d).0 ]
          else find_by_id j ds)
  unfolding visit find_by_id
  find_by_id-visit keeps j [] = ground arith
  find_by_id-visit keeps j (d ∷ ds) = ground (arith, find_by_id-visit keeps j ds, keeps d)

-- The same by cases, to be taken apart.
abbrev pub Visited : (Download → Download) → Option Download → Option Download → Type 0
Visited f o o' = ((o ≡ none) × (o' ≡ none)) ⊎ ((d : Download) × (o ≡ some d) × (o' ≡ some (f d)))

pub on_entry_cases {ℓ} :
    {R : Type ℓ} (id : ℕ) (body : Download → Download × R) (miss : R)
    → ((d : Download) → (body d).0.id ≡ d.id)
    → (j : ℕ) (q : Queue)
    → ((id ≢ j) × (find_by_id j (on_entry id body miss q).0.entries ≡ find_by_id j q.entries))
      ⊎ ((id ≡ j)
          × Visited
              (λ d. (body d).0)
              (find_by_id j q.entries)
              (find_by_id j (on_entry id body miss q).0.entries))
unfolding on_entry
on_entry_cases id body miss keeps j q =
    let seen = find_by_id-visit id body miss keeps j q.entries in
    elim (Bool-cases (id == j)) [
      | inr other ↦ inl (ground arith, rw (seen, other))
      | inl hit ↦ elim (Option-cases (find_by_id j q.entries)) [
        | inl missing ↦ inr (eq_of_beq id j hit, inl (missing, rw (seen, hit, missing)))
        | inr (d, there) ↦ inr (eq_of_beq id j hit, inr (d, there, rw (seen, hit, there)))
      ]
    ]

-- What `queue_manager_add` asks of the path, of the options and of the allocator.
abbrev pub accepted : Bool → Allocation → Option RequestOptions → Bool
accepted safe alloc opts =
    safe && alloc.entry && (not (request_options_present opts) || alloc.options)

-- `add` either changes nothing or puts the new entry in front.
pub add_cases :
    (safe : Bool) (alloc : Allocation) (url dest : Bytes) (opts : Option RequestOptions) (q : Queue)
    → ((accepted safe alloc opts ≡ false) × (add safe alloc url dest opts q ≡ (q, 0)))
      ⊎ ((accepted safe alloc opts ≡ true)
          × (add safe alloc url dest opts q ≡ (
            record {
              entries = new_download q.next_id url dest opts ∷ q.entries;
              next_id = u32 (q.next_id + 1);
            },
            q.next_id,
          )))
unfolding add
add_cases safe alloc url dest opts q = grind arith
