-- ===== src/WorkerPool/Started.antt =====
-- The invariant of a crew holds at its start.
use cdm.Prelude.{
  ℕ, zero, suc, ◌+◌, ◌≤◌, ◌<◌, ◌≡◌, refl, ap, subst, sym, ◌∙◌, inl, inr, ◌⊎◌, Bool, true, false,
  List, [], ◌∷◌, arith, length, get_or, All, Bool-cases, ltb, u64, u64_mod, get_or-beyond, ltb→lt,
}
use cdm.Segmenter.{Range, max_workers}
use cdm.WorkerPool.{PoolSlot, zero_slot, RebalancePool, create_loop, slot_of}
use cdm.WorkerPool.Search.{is_live}
use cdm.WorkerPool.Owners.{owners}
use cdm.WorkerPool.Acquire.{PoolOk}
use cdm.WorkerPool.Writes.{Linked}
use cdm.WorkerPool.Create.{length-create_loop}
use cdm.WorkerPool.Frames.{slot_at}
use cdm.WorkerPool.Sound.{covered, live_undone, running_unfinished, running_below, Sound}
use cdm.WorkerPool.Crew.{Member, Crew, new_context, no_member, member, work, start_loop, start_crew}

-- Thread `j` works on slot `j`, from its start on.
abbrev Seated : ℕ → Bool → ℕ → Member → PoolSlot → Type 0
Seated n progress j m s =
    (r : Range) × (r.start + r.resume_offset < u64_mod)
    × (m ≡ record { context = new_context n j progress r; running = true })
    × (s ≡ slot_of progress j r)

-- No start of a range wraps.
abbrev pub Bounded : List Range → Type 0
Bounded = All (λ r. r.start + r.resume_offset < u64_mod)

-- Where all threads are created, the first one is.
created_first :
    (n : ℕ) (created : ℕ → Bool) (progress : Bool) (i : ℕ) (r : Range) (rs : List Range)
    → (start_loop n created progress i (r ∷ rs)).1 ≡ true
    → created i ≡ true
unfolding start_loop
created_first n created progress i r rs h = elim (Bool-cases (created i)) [
  | inl yes_i ↦ yes_i
  | inr no_i ↦ ground (arith, no_i)
]

created_rest :
    (n : ℕ) (created : ℕ → Bool) (progress : Bool) (i : ℕ) (r : Range) (rs : List Range)
    → (start_loop n created progress i (r ∷ rs)).1 ≡ true
    → (start_loop n created progress (i + 1) rs).1 ≡ true
unfolding start_loop
created_rest n created progress i r rs h = elim (Bool-cases (created i)) [
  | inl yes_i ↦ rw yes_i at h
  | inr no_i ↦ ground (arith, no_i)
]

seated :
    (n : ℕ) (created : ℕ → Bool) (progress : Bool) (i : ℕ) (rs : List Range)
    → (start_loop n created progress i rs).1 ≡ true
    → Bounded rs
    → (j : ℕ) → j < length rs
    → Seated n progress
        (i + j)
        (get_or (start_loop n created progress i rs).0 j no_member)
        (get_or (create_loop progress i rs) j zero_slot)
unfolding start_loop create_loop
seated n created progress i [] all b j h = elim h [ ]
seated n created progress i (r ∷ rs) all (b, bs) zero h =
    let made = created_first n created progress i r rs all in
    let e : i ≡ i + 0 = omega arith in
    rw made (
      subst
        (λ m.
          Seated n progress m (record { context = new_context n i progress r; running = true })
            (slot_of progress i r))
        e (r, b, refl, refl))
seated n created progress i (r ∷ rs) all (b, bs) (suc j) h =
    let made = created_first n created progress i r rs all in
    let e : i + 1 + j ≡ i + suc j = omega arith in
    rw made (
      subst
        (λ m.
          Seated n progress m (get_or (start_loop n created progress (i + 1) rs).0 j no_member)
            (get_or (create_loop progress (i + 1) rs) j zero_slot))
        e
        (seated n created progress (i + 1) rs (created_rest n created progress i r rs all) bs j
          (omega arith)))

length-start_loop :
    (n : ℕ) (created : ℕ → Bool) (progress : Bool) (i : ℕ) (rs : List Range)
    → length (start_loop n created progress i rs).0 ≤ length rs
unfolding start_loop
length-start_loop n created progress i [] = omega arith
length-start_loop n created progress i (r ∷ rs) =
    ground (arith, length-start_loop n created progress (i + 1) rs)

ge_of : {a b : ℕ} → ltb a b ≡ false → b ≤ a
ge_of h = ground arith

seat-Linked :
    (n : ℕ) (progress : Bool) (j : ℕ) (r : Range) (p : RebalancePool) (m : Member)
    → m ≡ record { context = new_context n j progress r; running = true }
    → slot_at p j ≡ slot_of progress j r
    → j < length p.slots
    → r.start + r.resume_offset < u64_mod
    → Linked (record { context = m.context; pool = p })
unfolding slot_of
seat-Linked n progress j r p m e s h b =
    let start : r.start + r.resume_offset + 0 ≡ u64 (r.start + r.resume_offset) =
      grind (arith, b) in
    subst (λ (m : Member). Linked (record { context = m.context; pool = p })) (sym e)
      (record {
        pooled = refl;
        below = h;
        aligned = start ∙ sym (ap (λ (t : PoolSlot). t.write_pos) s);
      })

module _ (x n min_steal : ℕ) (created : ℕ → Bool) (progress : Bool) (rs : List Range)
    (short : length rs ≤ max_workers) (bounded : Bounded rs) where
  abbrev started : Crew
  started =
      start_crew
        (record {
          slots = create_loop progress 0 rs;
          min_steal_bytes = min_steal;
          reports_progress = progress;
        })
        n created rs

  slots_length : length started.pool.slots ≡ length rs
  unfolding start_crew
  slots_length = length-create_loop progress 0 rs

  members_length : length started.members ≤ length rs
  unfolding start_crew
  members_length = length-start_loop n created progress 0 rs

  running_seat : (j : ℕ) → (member started j).running ≡ true → j < length rs
  running_seat j run = omega (arith, members_length, running_below started j run)

  module _ (all : (start_loop n created progress 0 rs).1 ≡ true) where
    seat : (j : ℕ) → j < length rs → Seated n progress j (member started j) (slot_at started.pool j)
    unfolding start_crew
    seat j below =
        let e : 0 + j ≡ j = omega arith in
        subst (λ m. Seated n progress m (member started j) (slot_at started.pool j)) e
          (seated n created progress 0 rs all bounded j below)

    index_own : (j : ℕ) → j < length rs → (member started j).context.slot_index ≡ j
    index_own j h = let (r, b, m, s) = seat j h in ap (λ (m : Member). m.context.slot_index) m

    running_own : (j : ℕ) → j < length rs → (member started j).running ≡ true
    running_own j h = let (r, b, m, s) = seat j h in ap (λ (m : Member). m.running) m

    Linked-own : (j : ℕ) → j < length rs → Linked (work started j)
    Linked-own j h =
        let (r, b, m, s) = seat j h in
        seat-Linked n progress j r started.pool (member started j) m s
          (omega (arith, h, slots_length)) b

    live_own : (j : ℕ) → j < length rs → is_live (slot_at started.pool j) ≡ true
    unfolding slot_of
    live_own j h = let (r, b, m, s) = seat j h in ap is_live s

    drained_start :
        (i : ℕ)
        → ((slot_at started.pool i).exhausted ≡ false)
          ⊎ ((slot_at started.pool i).write_pos ≡ (slot_at started.pool i).live_end)
    drained_start i = elim (Bool-cases (ltb i (length started.pool.slots))) [
      | inr beyond ↦ inl (
          ap (λ (s : PoolSlot). s.exhausted)
            (get_or-beyond started.pool.slots i zero_slot (ge_of beyond)))
      | inl below ↦ inl (
          live_undone (slot_at started.pool i)
            (live_own i (omega (arith, ltb→lt _ _ below, slots_length))))
    ]

    nothing_logged :
        owners x started.pool.slots + covered x started.log ≡ owners x started.pool.slots
    unfolding start_crew
    nothing_logged = omega arith

    -- A crew is sound when all its threads are created.
    pub start-Sound : PoolOk started.pool → Sound x (owners x started.pool.slots) started
    start-Sound ok = record {
      fine = ok;
      linked = λ j run. Linked-own j (running_seat j run);
      live = λ j run.
          subst (λ i. is_live (slot_at started.pool i) ≡ true)
            (sym (index_own j (running_seat j run))) (live_own j (running_seat j run));
      apart = λ i j ne run_i run_j e.
          ne (sym (index_own i (running_seat i run_i)) ∙ e ∙ index_own j (running_seat j run_j));
      drained = drained_start;
      manned = λ i h.
          let below : i < length rs = omega (arith, h, slots_length) in
          inr (i, index_own i below, running_unfinished (member started i) (running_own i below));
      saved = nothing_logged;
    }
