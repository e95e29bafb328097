-- ===== src/WorkerPool/Sound.antt =====
-- The invariant of a crew: what a change of one thread must do to keep it.
use cdm.Prelude.{
  ℕ, ◌+◌, ◌≤◌, ◌<◌, ◌≡◌, ◌≢◌, refl, ap, subst, sym, ◌∙◌, inl, inr, ◌⊎◌, Bool, true, false, not,
  ◌||◌, Option, none, some, List, [], ◌∷◌, arith, length, set, get_or-set_self, get_or-set_ne,
  get_or-beyond, Bool-cases, ltb→lt, ltb,
}
use cdm.WorkerPool.{PoolSlot, zero_slot, RebalancePool}
use cdm.WorkerPool.Worker.{Write}
use cdm.WorkerPool.Search.{is_live}
use cdm.WorkerPool.Owners.{owners}
use cdm.WorkerPool.Acquire.{PoolOk}
use cdm.WorkerPool.Writes.{Linked, own_slot, covers}
use cdm.WorkerPool.Frames.{slot_at, Kept, eq_cases}
use cdm.WorkerPool.Crew.{Member, Crew, no_member, member, work, logged}

-- The number of writes that cover byte `x`.
abbrev pub covered : ℕ → List Write → ℕ
covered x [] = 0
covered x (o ∷ log) = covers x (some o) + covered x log

pub covered-logged :
    (x : ℕ) (o : Option Write) (log : List Write)
    → covered x (logged o log) ≡ covers x o + covered x log
covered-logged x none log = omega arith
covered-logged x (some o) log = refl

-- The thread has not ended well, so far.
abbrev pub unfinished : Member → Bool
unfinished m = m.running || not m.context.succeeded

-- `total` is in how many slots byte `x` was when the crew started.
pub record Sound (x total : ℕ) (c : Crew) : Type 0 where
  pub fine : PoolOk c.pool
  pub linked : (k : ℕ) → (member c k).running ≡ true → Linked (work c k)
  pub live : (k : ℕ) → (member c k).running ≡ true → is_live (own_slot (work c k)) ≡ true
  pub apart :
      (j k : ℕ)
      → j ≢ k
      → (member c j).running ≡ true
      → (member c k).running ≡ true
      → (member c j).context.slot_index ≢ (member c k).context.slot_index
  pub drained :
      (i : ℕ)
      → ((slot_at c.pool i).exhausted ≡ false)
        ⊎ ((slot_at c.pool i).write_pos ≡ (slot_at c.pool i).live_end)
  pub manned :
      (i : ℕ)
      → i < length c.pool.slots
      → ((slot_at c.pool i).exhausted ≡ true)
        ⊎ ((k : ℕ) × ((member c k).context.slot_index ≡ i) × (unfinished (member c k) ≡ true))
  pub saved : owners x c.pool.slots + covered x c.log ≡ total

pub differ : {a : Bool} → a ≡ true → a ≡ false → ⊥
differ h k = ground (arith, h, k)

pub running_below : (c : Crew) (k : ℕ) → (member c k).running ≡ true → k < length c.members
running_below c k h = elim (Bool-cases (ltb k (length c.members))) [
  | inl lt ↦ ground arith
  | inr ge ↦
      let beyond = get_or-beyond c.members k no_member (ground arith) in
      absurd (differ h (ap (λ (m : Member). m.running) beyond))
]

running_as : {m n : Member} → m ≡ n → m.running ≡ true → n.running ≡ true
running_as e h = subst (λ (m : Member). m.running ≡ true) e h

index_as :
    {m n m' n' : Member}
    → m ≡ n
    → m' ≡ n'
    → m.context.slot_index ≡ m'.context.slot_index
    → n.context.slot_index ≡ n'.context.slot_index
index_as e e' h = cc (e, e', h)

pub clash : {a : Bool} {P : Type 0} → a ≡ true → (a ≡ false) ⊎ P → P
clash h (inl k) = absurd (differ h k)
clash h (inr p) = p

clash-Kept : (s s' : PoolSlot) → is_live s ≡ true → Kept s s' → is_live s' ≡ true
clash-Kept s s' h kept = clash h kept.live

pub running_unfinished : (m : Member) → m.running ≡ true → unfinished m ≡ true
running_unfinished m h = ground (arith, h)

pub live_undone : (s : PoolSlot) → is_live s ≡ true → s.exhausted ≡ false
live_undone s h = ground arith

Kept-drained :
    (s s' : PoolSlot)
    → Kept s s'
    → (s.exhausted ≡ false) ⊎ (s.write_pos ≡ s.live_end)
    → (s'.exhausted ≡ false) ⊎ (s'.write_pos ≡ s'.live_end)
Kept-drained s s' kept (inl e) = inl (kept.exhausted ∙ e)
Kept-drained s s' kept (inr e) = elim (Bool-cases s.exhausted) [
  | inr no_end ↦ inl (kept.exhausted ∙ no_end)
  | inl done ↦ inr (kept.position ∙ e ∙ sym (clash done kept.end_kept))
]

-- Thread `k` changes to `m'` and the pool to `p'`.
module _ (x total : ℕ) (c : Crew) (sound : Sound x total c) (k : ℕ)
    (runs : (member c k).running ≡ true) (p' : RebalancePool) (m' : Member) where
  abbrev pub own : ℕ
  own = (member c k).context.slot_index

  -- What the change does.
  pub record Change : Type 0 where
    pub fine : PoolOk p'
    pub grows : length c.pool.slots ≤ length p'.slots
    pub others :
        (i : ℕ) → i < length c.pool.slots → i ≢ own → Kept (slot_at c.pool i) (slot_at p' i)
    pub drained :
        ((slot_at p' own).exhausted ≡ false)
        ⊎ ((slot_at p' own).write_pos ≡ (slot_at p' own).live_end)
    pub manned :
        ((slot_at p' own).exhausted ≡ true)
        ⊎ ((m'.context.slot_index ≡ own) × (unfinished m' ≡ true))
    pub linked : (m'.running ≡ false) ⊎ Linked (record { context = m'.context; pool = p' })
    pub live :
        (m'.running ≡ false)
        ⊎ ((is_live (slot_at p' m'.context.slot_index) ≡ true)
            × ((m'.context.slot_index ≡ own)
                ⊎ ((length c.pool.slots ≤ m'.context.slot_index)
                    ⊎ ((is_live (slot_at c.pool m'.context.slot_index) ≡ false)
                        × (m'.context.slot_index ≢ own)))))
    pub new :
        (i : ℕ)
        → i < length p'.slots
        → (i < length c.pool.slots) ⊎ ((m'.context.slot_index ≡ i) × (m'.running ≡ true))

  module _ (ch : Change) (log : List Write) where
    abbrev pub after : Crew
    after = record c { pool = p'; members = set c.members k m'; log = log }

    member_own : member after k ≡ m'
    member_own = get_or-set_self c.members k m' no_member (running_below c k runs)

    member_other : (j : ℕ) → k ≢ j → member after j ≡ member c j
    member_other j ne = get_or-set_ne c.members k j m' no_member ne

    -- Thread `j` is the one that changed, or another, as it was.
    pub member_cases :
        (j : ℕ) → ((k ≡ j) × (member after j ≡ m')) ⊎ ((k ≢ j) × (member after j ≡ member c j))
    member_cases j = elim (eq_cases k j) [
      | inl e ↦ inl (e, subst (λ i. member after i ≡ m') e member_own)
      | inr ne ↦ inr (ne, member_other j ne)
    ]

    -- The slot of another running thread.
    other-Kept :
        (j : ℕ)
        → k ≢ j
        → (member c j).running ≡ true
        → Kept (own_slot (work c j)) (slot_at p' (member c j).context.slot_index)
    other-Kept j ne run =
        ch.others (member c j).context.slot_index (sound.linked j run).below
          (sound.apart j k (λ e. ne (sym e)) run runs)

    Linked-after :
        (j : ℕ)
        → (m : Member) → member after j ≡ m
        → m.running ≡ true
        → Linked (record { context = m.context; pool = p' })
    Linked-after j m e run = elim (member_cases j) [
      | inl (_, own_m) ↦
          let same = sym e ∙ own_m in
          subst (λ (n : Member). Linked (record { context = n.context; pool = p' })) (sym same)
            (clash (subst (λ (n : Member). n.running ≡ true) same run) ch.linked)
      | inr (ne, other_m) ↦
          let same = sym e ∙ other_m in
          let run' = subst (λ (n : Member). n.running ≡ true) same run in
          let l = sound.linked j run' in
          let kept = other-Kept j ne run' in
          subst (λ (n : Member). Linked (record { context = n.context; pool = p' })) (sym same)
            (record {
              pooled = l.pooled;
              below = omega (arith, l.below, ch.grows);
              aligned = l.aligned ∙ sym kept.position;
            })
    ]

    live_after :
        (j : ℕ) (m : Member)
        → member after j ≡ m
        → m.running ≡ true
        → is_live (slot_at p' m.context.slot_index) ≡ true
    live_after j m e run = elim (member_cases j) [
      | inl (_, own_m) ↦
          let same = sym e ∙ own_m in
          subst (λ (n : Member). is_live (slot_at p' n.context.slot_index) ≡ true) (sym same)
            (clash (subst (λ (n : Member). n.running ≡ true) same run) ch.live).0
      | inr (ne, other_m) ↦
          let same = sym e ∙ other_m in
          let run' = subst (λ (n : Member). n.running ≡ true) same run in
          subst (λ (n : Member). is_live (slot_at p' n.context.slot_index) ≡ true) (sym same)
            (clash-Kept _ _ (sound.live j run') (other-Kept j ne run'))
    ]

    -- The new slot of thread `k` is no other running thread's.
    own_apart :
        (j : ℕ)
        → k ≢ j
        → m'.running ≡ true
        → (member c j).running ≡ true
        → m'.context.slot_index ≢ (member c j).context.slot_index
    own_apart j ne run run_j = λ e. elim (clash run ch.live).1 [
      | inl same ↦ sound.apart k j ne runs run_j (sym same ∙ e)
      | inr (inl far) ↦ omega (arith, far, e, (sound.linked j run_j).below)
      | inr (inr (idle, _)) ↦
          differ (sound.live j run_j) (subst (λ i. is_live (slot_at c.pool i) ≡ false) e idle)
    ]

    apart_after :
        (i j : ℕ)
        → i ≢ j
        → (member after i).running ≡ true
        → (member after j).running ≡ true
        → (member after i).context.slot_index ≢ (member after j).context.slot_index
    apart_after i j ne run_i run_j = elim (member_cases i) [
      | inl (e, own_i) ↦ elim (member_cases j) [
        | inl (e', _) ↦ absurd (ne (sym e ∙ e'))
        | inr (ne_j, other_j) ↦ λ s.
            own_apart j ne_j (running_as own_i run_i) (running_as other_j run_j)
              (index_as own_i other_j s)
      ]
      | inr (ne_i, other_i) ↦ elim (member_cases j) [
        | inl (e', own_j) ↦ λ s.
            own_apart i ne_i (running_as own_j run_j) (running_as other_i run_i)
              (sym (index_as other_i own_j s))
        | inr (ne_j, other_j) ↦ λ s.
            sound.apart i j ne (running_as other_i run_i) (running_as other_j run_j)
              (index_as other_i other_j s)
      ]
    ]

    drained_after :
        (i : ℕ)
        → ((slot_at p' i).exhausted ≡ false) ⊎ ((slot_at p' i).write_pos ≡ (slot_at p' i).live_end)
    drained_after i = elim (eq_cases own i) [
      | inl e ↦
          subst
            (λ n.
              ((slot_at p' n).exhausted ≡ false)
              ⊎ ((slot_at p' n).write_pos ≡ (slot_at p' n).live_end))
            e ch.drained
      | inr ne ↦ elim (Bool-cases (ltb i (length p'.slots))) [
        | inr beyond ↦
            inl (
              ap (λ (s : PoolSlot). s.exhausted)
                (get_or-beyond p'.slots i zero_slot (ground arith)))
        | inl below ↦ elim (ch.new i (ltb→lt _ _ below)) [
          | inl old ↦ Kept-drained _ _ (ch.others i old (λ e. ne (sym e))) (sound.drained i)
          | inr (e, run) ↦ inl (
              live_undone (slot_at p' i)
                (subst (λ n. is_live (slot_at p' n) ≡ true) e (clash run ch.live).0))
        ]
      ]
    ]

    abbrev Manned : ℕ → Type 0
    Manned i =
        ((slot_at p' i).exhausted ≡ true)
        ⊎ ((j : ℕ) × ((member after j).context.slot_index ≡ i)
            × (unfinished (member after j) ≡ true))

    by_own : (i : ℕ) → m'.context.slot_index ≡ i → unfinished m' ≡ true → Manned i
    by_own i e u =
        inr (
          k,
          ap (λ (m : Member). m.context.slot_index) member_own ∙ e,
          ap unfinished member_own ∙ u,
        )

    Manned-after : (i : ℕ) → i < length p'.slots → Manned i
    Manned-after i h = elim (eq_cases own i) [
      | inl e ↦ elim ch.manned [
        | inl done ↦ inl (subst (λ n. (slot_at p' n).exhausted ≡ true) e done)
        | inr (e', u) ↦ by_own i (e' ∙ e) u
      ]
      | inr ne ↦ elim (ch.new i h) [
        | inr (e, run) ↦ by_own i e (running_unfinished m' run)
        | inl old ↦ elim (sound.manned i old) [
          | inl done ↦ inl ((ch.others i old (λ e. ne (sym e))).exhausted ∙ done)
          | inr (j, e, u) ↦ elim (member_cases j) [
            | inl (e', _) ↦
                absurd (ne (subst (λ n. (member c n).context.slot_index ≡ i) (sym e') e))
            | inr (_, other) ↦
                inr
                  (j, ap (λ (m : Member). m.context.slot_index) other ∙ e, ap unfinished other ∙ u)
          ]
        ]
      ]
    ]

    pub Change-Sound : owners x p'.slots + covered x log ≡ total → Sound x total after
    Change-Sound saved = record {
      fine = ch.fine;
      linked = λ j. Linked-after j (member after j) refl;
      live = λ j. live_after j (member after j) refl;
      apart = apart_after;
      drained = drained_after;
      manned = Manned-after;
      saved = saved;
    }
