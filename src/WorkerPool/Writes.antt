-- ===== src/WorkerPool/Writes.antt =====
-- What the workers write: only bytes that are theirs, each once.
use cdm.Prelude.{
  ℕ, ◌+◌, ◌-◌, ◌≤◌, ◌<◌, ◌≡◌, refl, subst, sym, inl, inr, ◌⊎◌, Bool, true, false, not, ◌&&◌, ◌||◌,
  Option, none, some, arith, length, get_or, set, leb, ltb, if◌then◌else◌, length-set,
  get_or-set_self, u64, u64_mod, Bool-cases, ltb→lt,
}
use cdm.WorkerPool.{PoolSlot, zero_slot}
use cdm.WorkerPool.Worker.{
  Answers, Write, Work, current_offset, advance, write_bytes, worker_write_callback, short_write,
  stray_write, truncate,
}
use cdm.WorkerPool.Owners.{owns, owners, owners-set, SlotOk, get_or-SlotOk, set-SlotOk}
use cdm.WorkerPool.Acquire.{PoolOk}

abbrev pub own_slot : Work → PoolSlot
own_slot w = get_or w.pool.slots w.context.slot_index zero_slot

-- The worker writes next where its slot says.
pub record Linked (w : Work) : Type 0 where
  pub pooled : w.context.pooled ≡ true
  pub below : w.context.slot_index < length w.pool.slots
  pub aligned :
      w.context.range.start + w.context.range.resume_offset + w.context.bytes_done
      ≡ (get_or w.pool.slots w.context.slot_index zero_slot).write_pos

-- 1 where the write covers byte `x`, else 0.
abbrev pub covers : ℕ → Option Write → ℕ
covers x none = 0
covers x (some o) = if leb o.offset x && ltb x (o.offset + o.length) then 1 else 0

-- A callback for `total` bytes: the bytes of its completed write are no longer any slot's, and the others are
-- whose they were.
pub record Honest (x total : ℕ) (w : Work) (r : Work × ℕ × Option Write) : Type 0 where
  pub fine : PoolOk r.0.pool
  pub linked : Linked r.0
  pub at_most : r.1 ≤ total
  pub moved : owners x r.0.pool.slots + covers x r.2 ≡ owners x w.pool.slots

-- A slot that advances by `n` gives up the bytes in front.
owns-advance :
    (x n : ℕ) (s : PoolSlot) (c : Option ℕ)
    → n ≤ s.live_end - s.write_pos
    → SlotOk s
    → owns x (advance n s)
        + covers x (some (record { offset = s.write_pos; length = n; counter = c }))
      ≡ owns x s
owns-advance x n s c h k = grind arith

no_wrap :
    (start offset done n pos end : ℕ)
    → start + offset + done ≡ pos
    → pos + n ≤ end
    → end < u64_mod
    → start + offset + u64 (done + n) ≡ u64 (pos + n)
no_wrap start offset done n pos end e h k = grind arith

module _ (x : ℕ) (a : Answers) (w : Work) (ok : PoolOk w.pool) (linked : Linked w) where
  write_bytes-Honest :
      (total n : ℕ)
      → n ≤ total
      → n ≤ (own_slot w).live_end - (own_slot w).write_pos
      → Honest x total w (write_bytes a n w)
  unfolding write_bytes
  write_bytes-Honest total n h room = elim (Bool-cases a.written) [
    | inr failed ↦
        rw failed
          (record { fine = ok; linked = linked; at_most = omega arith; moved = omega arith })
    | inl wrote ↦
        let s = own_slot w in
        let k = w.context.slot_index in
        let s_ok = get_or-SlotOk w.pool.slots k ok.each in
        let ss = set w.pool.slots k (advance n s) in
        let at = get_or-set_self w.pool.slots k (advance n s) zero_slot linked.below in
        let pos_ok : (s.write_pos + n ≤ s.live_end) = omega (arith, room, s_ok) in
        let offset_ok : current_offset w.context ≡ s.write_pos =
          grind (arith, linked.aligned, s_ok) in
        rw (wrote, linked.pooled)
          (record {
            fine = record {
              room = omega (arith, ok.room, length-set w.pool.slots k (advance n s));
              each =
                  set-SlotOk w.pool.slots k (advance n s) (grind (arith, pos_ok, s_ok), s_ok.1)
                    ok.each;
            };
            linked = record {
              pooled = refl;
              below = omega (arith, linked.below, length-set w.pool.slots k (advance n s));
              aligned = rw at (
                  no_wrap w.context.range.start w.context.range.resume_offset w.context.bytes_done n
                    s.write_pos s.live_end linked.aligned pos_ok s_ok.1);
            };
            at_most = h;
            moved = rw offset_ok (
                omega (
                  arith,
                  owners-set x k w.pool.slots (advance n s) linked.below,
                  owns-advance x n s w.context.chunk_progress_slot room s_ok,
                ));
          })
  ]

-- The branches of the callback.
abbrev pub Branches : Answers → ℕ → Work → Work × ℕ × Option Write → Type 0
Branches a total w r =
    (r ≡ (w, 0, none))
    ⊎ ((r ≡ (truncate w, 0, none))
        ⊎ ((n : ℕ) × (n ≤ total)
            × (n ≤ (own_slot w).live_end - current_offset w.context)
            × ((r ≡ write_bytes a n w) ⊎ (r ≡ write_bytes a n (truncate w)))))

pub callback-Branches :
    (a : Answers) (total : ℕ) (w : Work)
    → w.context.pooled ≡ true
    → Branches a total w (worker_write_callback a total w)
unfolding worker_write_callback
callback-Branches a total w pooled = elim (Bool-cases (a.canceled || a.paused)) [
  | inl stop ↦ inl (rw stop refl)
  | inr on ↦ elim (Bool-cases a.granted) [
    | inr denied ↦ inl (rw (on, denied) refl)
    | inl granted ↦ elim (Bool-cases (leb (own_slot w).live_end (current_offset w.context))) [
      | inl over ↦ inr (inl (simp (on, granted, pooled, over) refl))
      | inr inside ↦
          elim (Bool-cases (ltb ((own_slot w).live_end - current_offset w.context) total)) [
            | inl cut ↦ inr (
                inr (
                  (own_slot w).live_end - current_offset w.context,
                  omega (arith, ltb→lt _ _ cut),
                  omega arith,
                  inr (simp (on, granted, pooled, inside, cut) refl),
                ))
            | inr fits ↦ inr (
                inr (
                  total,
                  omega arith,
                  ground arith,
                  inl (simp (on, granted, pooled, inside, fits) refl),
                ))
          ]
    ]
  ]
]

pub worker_write_callback-Honest :
    (x : ℕ) (a : Answers) (total : ℕ) (w : Work)
    → PoolOk w.pool
    → Linked w
    → Honest x total w (worker_write_callback a total w)
unfolding worker_write_callback
worker_write_callback-Honest x a total w ok linked =
    let s_ok = get_or-SlotOk w.pool.slots w.context.slot_index ok.each in
    let at : current_offset w.context ≡ (own_slot w).write_pos =
      grind (arith, linked.aligned, s_ok) in
    let here : Linked (truncate w) = record {
      pooled = linked.pooled;
      below = linked.below;
      aligned = linked.aligned;
    } in
    let to : (r : Work × ℕ × Option Write)
        → worker_write_callback a total w ≡ r
        → Honest x total w r
        → Honest x total w (worker_write_callback a total w) =
      λ r e. subst (Honest x total w) (sym e) in
    elim (callback-Branches a total w linked.pooled) [
      | inl e ↦
          to _ e (record { fine = ok; linked = linked; at_most = omega arith; moved = omega arith })
      | inr (inl e) ↦
          to _ e (record { fine = ok; linked = here; at_most = omega arith; moved = omega arith })
      | inr (inr (n, le, room, inl e)) ↦
          to _ e (write_bytes-Honest x a w ok linked total n le (omega (arith, room, at)))
      | inr (inr (n, le, room, inr e)) ↦
          let r =
            write_bytes-Honest x a (truncate w) ok here total n le (omega (arith, room, at)) in
          to _ e (record { fine = r.fine; linked = r.linked; at_most = r.at_most; moved = r.moved })
    ]

short-own :
    (x : ℕ) (a : Answers) (at n : ℕ) (s : PoolSlot)
    → at ≡ s.write_pos
    → n ≤ s.live_end - s.write_pos
    → covers x (short_write a at n) ≤ owns x s
short-own x a at n s e h = elim (Bool-cases a.written) [
  | inl wrote ↦ rw wrote (omega arith)
  | inr failed ↦ rw (failed, e) (ground arith)
]

no_stray : (b : Bool) {x y : Option Write} → x ≡ none → y ≡ none → (if b then x else y) ≡ none
no_stray true h k = h
no_stray false h k = k

write_bytes-failed :
    (a : Answers) (n : ℕ) (w : Work) → a.written ≡ false → (write_bytes a n w).2 ≡ none
unfolding write_bytes
write_bytes-failed a n w failed = rw failed refl

short_write-written : (a : Answers) (at n : ℕ) → a.written ≡ true → short_write a at n ≡ none
short_write-written a at n wrote = rw wrote refl

-- A callback completes a write or leaves part of one, not both.
stray_write-alone :
    (a : Answers) (total : ℕ) (w : Work)
    → w.context.pooled ≡ true
    → (stray_write a total w ≡ none) ⊎ ((worker_write_callback a total w).2 ≡ none)
unfolding stray_write
stray_write-alone a total w pooled = elim (Bool-cases a.written) [
  | inl wrote ↦
      let at = current_offset w.context in
      let live_end = (own_slot w).live_end in
      let none_left : (n : ℕ) → short_write a at n ≡ none = λ n. short_write-written a at n wrote in
      inl (
        no_stray (a.canceled || a.paused) refl (
          no_stray (not a.granted) refl (
            no_stray (not w.context.pooled) (none_left total) (
              no_stray (leb live_end at) refl (
                no_stray (ltb (live_end - at) total) (none_left (live_end - at))
                  (none_left total))))))
  | inr failed ↦ inr (elim (callback-Branches a total w pooled) [
    | inl e ↦ rw e refl
    | inr (inl e) ↦ rw e refl
    | inr (inr (n, _, _, inl e)) ↦ rw e (write_bytes-failed a n w failed)
    | inr (inr (n, _, _, inr e)) ↦ rw e (write_bytes-failed a n (truncate w) failed)
  ])
]

stray_write-own :
    (x : ℕ) (a : Answers) (total : ℕ) (w : Work)
    → PoolOk w.pool
    → Linked w
    → covers x (stray_write a total w) ≤ owns x (own_slot w)
unfolding stray_write
stray_write-own x a total w ok linked =
    let s_ok = get_or-SlotOk w.pool.slots w.context.slot_index ok.each in
    let at : current_offset w.context ≡ (own_slot w).write_pos =
      grind (arith, linked.aligned, s_ok) in
    elim (Bool-cases (a.canceled || a.paused)) [
      | inl stop ↦ rw stop (omega arith)
      | inr on ↦ elim (Bool-cases a.granted) [
        | inr denied ↦ rw (on, denied) (omega arith)
        | inl granted ↦ elim (Bool-cases (leb (own_slot w).live_end (current_offset w.context))) [
          | inl over ↦ simp (on, granted, linked.pooled, over) (omega arith)
          | inr inside ↦
              elim (Bool-cases (ltb ((own_slot w).live_end - current_offset w.context) total)) [
                | inl cut ↦
                    simp (on, granted, linked.pooled, inside, cut)
                      (short-own x a (current_offset w.context)
                        ((own_slot w).live_end - current_offset w.context) (own_slot w) at
                        (omega (arith, at)))
                | inr fits ↦
                    simp (on, granted, linked.pooled, inside, fits)
                      (short-own x a (current_offset w.context) total (own_slot w) at
                        (ground arith))
              ]
        ]
      ]
    ]

-- In a well-formed pool, a worker that stands at its slot's position and meets no steal between its
-- look at the slot's end and its return does the following in one callback, through every answer of
-- the flags, the limiter and the file. It keeps the pool well-formed and stays at its slot's
-- position. A write that the file answers as complete lies within the data that came, and takes
-- from every byte that it covers exactly one owner and from no other byte any. Of a write that the
-- file answers as failed, every byte that has come into the file was its own slot's, and no byte
-- loses an owner.
pub callback_writes :
    (x : ℕ) (a : Answers) (total : ℕ) (w : Work)
    → PoolOk w.pool
    → Linked w
    → let r = worker_write_callback a total w in
      Honest x total w r
      × (covers x (stray_write a total w) ≤ owns x (own_slot w))
      × ((stray_write a total w ≡ none) ⊎ (r.2 ≡ none))
callback_writes x a total w ok linked = (
  worker_write_callback-Honest x a total w ok linked,
  stray_write-own x a total w ok linked,
  stray_write-alone a total w linked.pooled,
)
