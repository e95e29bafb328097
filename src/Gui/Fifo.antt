-- ===== src/Gui/Fifo.antt =====
-- The rings of src/gui/gui_controller.c and queues, first in, first out.
use cdm.Prelude.{
  ℕ, zero, suc, ◌+◌, ◌-◌, ◌%◌, ◌≤◌, ◌<◌, ◌≡◌, ◌≢◌, ◌⊎◌, inl, inr, refl, sym, ap, ◌∙◌, subst, true,
  false, none, some, List, [], ◌∷◌, ◌++◌, length, get_or, set, ◌==◌, arith, length-set,
  length-append, get_or-set_ne, get_or-set_self, lt_or_le, eq_of_beq, Bool-cases,
}
use native.Mathlib.Nat.{mod-eq_of_lt, mod-lt, mod-add-mod, mod-mod, mod-eq-sub-mod}
use cdm.Gui.Ring.{
  Ring, RingCall, puts, takes, accepted, gave, ring_init, ring_put, ring_take, ring_call,
  ring_calls, fifo_call, fifo_calls,
}

-- The place of an index that has gone round once at most.
wrap_cases :
    (cap i : ℕ) → i < cap + cap → ((i < cap) × (i % cap ≡ i)) ⊎ ((cap ≤ i) × (i % cap ≡ i - cap))
wrap_cases cap i h = elim (lt_or_le i cap) [
  | inl k ↦ inl (k, mod-eq_of_lt k)
  | inr k ↦ inr (k, mod-eq-sub-mod k ∙ mod-eq_of_lt (omega arith))
]

-- Two indices less than a round apart have different places.
pub wrap_ne :
    (cap i j : ℕ) → i < cap + cap → j < cap + cap → j < i → i < j + cap → i % cap ≢ j % cap
wrap_ne cap i j hi hj k m e = elim (wrap_cases cap i hi) [
  | inl (a, p) ↦ elim (wrap_cases cap j hj) [
    | inl (b, q) ↦ absurd (omega arith)
    | inr (b, q) ↦ absurd (omega arith)
  ]
  | inr (a, p) ↦ elim (wrap_cases cap j hj) [
    | inl (b, q) ↦ absurd (omega arith)
    | inr (b, q) ↦ absurd (omega arith)
  ]
]

module _ {ℓ} {A : Type ℓ} (cap : ℕ) (empty : A) where
  -- The items of `n` places from the index `i` on.
  abbrev pub items : List A → ℕ → ℕ → List A
  items ps i zero = []
  items ps i (suc n) = get_or ps (i % cap) empty ∷ items ps (suc i) n

  pub length-items : (ps : List A) (i n : ℕ) → length (items ps i n) ≡ n
  length-items ps i zero = refl
  length-items ps i (suc n) = ap suc (length-items ps (suc i) n)

  items-same : (ps : List A) (i j n : ℕ) → i % cap ≡ j % cap → items ps i n ≡ items ps j n
  items-same ps i j zero e = refl
  items-same ps i j (suc n) e =
      let si : suc i ≡ i + 1 = omega arith in
      let sj : suc j ≡ j + 1 = omega arith in
      let step : suc i % cap ≡ suc j % cap =
        ap (λ k. k % cap) si
        ∙ sym (mod-add-mod i cap 1)
        ∙ ap (λ k. (k + 1) % cap) e
        ∙ mod-add-mod j cap 1
        ∙ ap (λ k. k % cap) (sym sj) in
      rw e (ap (get_or ps (j % cap) empty ∷◌) (items-same ps (suc i) (suc j) n step))

  items-snoc :
      (ps : List A) (i n : ℕ)
      → items ps i (suc n) ≡ items ps i n ++ (get_or ps ((i + n) % cap) empty ∷ [])
  items-snoc ps i zero = let e : i + 0 ≡ i = omega arith in rw e refl
  items-snoc ps i (suc n) =
      let e : i + suc n ≡ suc i + n = omega arith in
      rw e (ap (get_or ps (i % cap) empty ∷◌) (items-snoc ps (suc i) n))

  -- A write at the end leaves the items before it alone.
  items-set :
      (ps : List A) (i n e : ℕ) (x : A)
      → e < cap + cap
      → i + n ≤ e
      → e < i + cap
      → items (set ps (e % cap) x) i n ≡ items ps i n
  items-set ps i zero e x h k m = refl
  items-set ps i (suc n) e x h k m =
      let here =
        get_or-set_ne ps (e % cap) (i % cap) x empty
          (wrap_ne cap e i h (omega arith) (omega arith) m) in
      let rest = items-set ps (suc i) n e x h (omega arith) (omega arith) in rw (here, rest) refl

  -- The ring is in order, and holds the items `xs`.
  pub record Shows (r : Ring A) (xs : List A) : Type ℓ where
    pub room : length r.places ≡ cap
    pub head_lt : r.head < cap
    pub count_le : r.count ≤ cap
    pub tail_at : r.tail ≡ (r.head + r.count) % cap
    pub shown : items r.places r.head r.count ≡ xs

  pub Shows-length : (r : Ring A) (xs : List A) → Shows r xs → length xs ≡ r.count
  Shows-length r xs s = ap length (sym s.shown) ∙ length-items r.places r.head r.count

  pub ring_init-Shows : (r : Ring A) → 0 < cap → length r.places ≡ cap → Shows (ring_init r) []
  ring_init-Shows r pos room = record {
    room = room;
    head_lt = pos;
    count_le = omega arith;
    tail_at = sym (mod-eq_of_lt pos);
    shown = refl;
  }

  -- A ring with room takes the item in behind the others.
  pub ring_put-Shows :
      (r : Ring A) (xs : List A) (x : A)
      → Shows r xs
      → length xs < cap
      → ((ring_put cap x r).1 ≡ true) × Shows (ring_put cap x r).0 (xs ++ (x ∷ []))
  unfolding ring_put
  ring_put-Shows r xs x s h =
      let n = Shows-length r xs s in
      let no : (r.count == cap) ≡ false = ground arith in
      let at = s.tail_at in
      let pos : 0 < cap = omega arith in
      let inside : (r.head + r.count) % cap < length r.places =
        subst (λ k. (r.head + r.count) % cap < k) (sym s.room) (mod-lt (r.head + r.count) pos) in
      let ps : List A = set r.places r.tail x in
      let last : get_or ps ((r.head + r.count) % cap) empty ≡ x =
        rw at (get_or-set_self r.places ((r.head + r.count) % cap) x empty inside) in
      let old : items ps r.head r.count ≡ xs =
        (rw at (
          items-set r.places r.head r.count (r.head + r.count) x (omega (arith, s.head_lt, n, h))
            (omega arith) (omega (arith, n, h))))
        ∙ s.shown in
      let one_more : r.count + 1 ≡ suc r.count = omega arith in
      rw no (
        refl,
        record {
          room = length-set r.places r.tail x ∙ s.room;
          head_lt = s.head_lt;
          count_le = omega (arith, n, h);
          tail_at =
              ap (λ k. (k + 1) % cap) at
              ∙ mod-add-mod (r.head + r.count) cap 1
              ∙ ap (λ k. k % cap) (omega arith);
          shown =
              ap (items ps r.head) one_more
              ∙ items-snoc ps r.head r.count
              ∙ ap (λ ys. ys ++ (get_or ps ((r.head + r.count) % cap) empty ∷ [])) old
              ∙ ap (λ y. xs ++ (y ∷ [])) last;
        },
      )

  -- A full ring refuses.
  pub ring_put-full :
      (r : Ring A) (xs : List A) (x : A)
      → Shows r xs
      → length xs ≡ cap
      → ring_put cap x r ≡ (r, false)
  unfolding ring_put
  ring_put-full r xs x s h =
      let n = Shows-length r xs s in
      let full : (r.count == cap) ≡ true = ground arith in rw full refl

  -- An empty ring gives nothing and stays.
  pub ring_take-nil : (r : Ring A) → Shows r [] → ring_take cap empty r ≡ (r, none)
  unfolding ring_take
  ring_take-nil r s =
      let n = Shows-length r [] s in let nil : (r.count == 0) ≡ true = ground arith in rw nil refl

  -- The first item is given, and the others stay.
  pub ring_take-cons :
      (r : Ring A) (x : A) (xs : List A)
      → Shows r (x ∷ xs)
      → ((ring_take cap empty r).1 ≡ some x)
        × (get_or r.places r.head empty ≡ x)
        × Shows (ring_take cap empty r).0 xs
  unfolding ring_take
  ring_take-cons r x xs s =
      let n = Shows-length r (x ∷ xs) s in
      let more : (r.count == 0) ≡ false = ground arith in
      let less : r.count ≡ suc (r.count - 1) = omega (arith, n) in
      let all : items r.places r.head (suc (r.count - 1)) ≡ x ∷ xs =
        ap (items r.places r.head) (sym less) ∙ s.shown in
      let first : get_or r.places r.head empty ≡ x =
        ap (λ k. get_or r.places k empty) (sym (mod-eq_of_lt s.head_lt))
        ∙ ap (λ ys. get_or ys 0 empty) all in
      let one : suc r.head ≡ r.head + 1 = omega arith in
      let pos : 0 < cap = omega (arith, s.head_lt) in
      rw more (
        ap some first,
        first,
        record {
          room = s.room;
          head_lt = mod-lt (r.head + 1) pos;
          count_le = omega (arith, s.count_le);
          tail_at =
              s.tail_at
              ∙ ap (λ k. k % cap) (omega (arith, less))
              ∙ sym (mod-add-mod (r.head + 1) cap (r.count - 1));
          shown =
              items-same r.places ((r.head + 1) % cap) (r.head + 1) (r.count - 1)
                (mod-mod (r.head + 1) cap)
              ∙ ap (λ i. items r.places i (r.count - 1)) (sym one)
              ∙ ap tail_of all;
        },
      )
    where
      tail_of : List A → List A
      tail_of [] = []
      tail_of (y ∷ ys) = ys

  ring_call-Shows :
      (c : RingCall A) (r : Ring A) (xs : List A)
      → Shows r xs
      → length xs ≤ cap
      → ((ring_call cap empty c r).1 ≡ (fifo_call cap c xs).1)
        × Shows (ring_call cap empty c r).0 (fifo_call cap c xs).0
        × (length (fifo_call cap c xs).0 ≤ cap)
  unfolding ring_call
  ring_call-Shows (puts x) r xs s h = elim (Bool-cases (length xs == cap)) [
    | inl e ↦ rw (e, ring_put-full r xs x s (eq_of_beq (length xs) cap e)) (refl, s, h)
    | inr e ↦
        let (ok, s') = ring_put-Shows r xs x s (ground arith) in
        let one_more = length-append xs (x ∷ []) in
        rw e (ap accepted ok, s', ground (arith, one_more))
  ]
  ring_call-Shows takes r [] s h = rw (ring_take-nil r s) (refl, s, h)
  ring_call-Shows takes r (x ∷ xs) s h =
      let (got, _, s') = ring_take-cons r x xs s in (ap gave got, s', omega arith)

  -- Whatever calls are made of a ring that holds the items `xs`: each is answered as a queue, first in
  -- first out, that holds them and has as many places would answer it.
  pub ring_calls-fifo_calls :
      (cs : List (RingCall A)) (r : Ring A) (xs : List A)
      → Shows r xs
      → length xs ≤ cap
      → ring_calls cap empty cs r ≡ fifo_calls cap cs xs
  unfolding ring_calls
  ring_calls-fifo_calls [] r xs s h = refl
  ring_calls-fifo_calls (c ∷ cs) r xs s h =
      let (same, s', h') = ring_call-Shows c r xs s h in
      rw same (
        ap ((fifo_call cap c xs).1 ∷◌)
          (ring_calls-fifo_calls cs (ring_call cap empty c r).0 (fifo_call cap c xs).0 s' h'))

  -- From `gui_controller_init` on, in an array of `cap` places, not 0: whatever calls are made of the
  -- ring, each is answered as an empty queue, first in first out, with as many places would answer it.
  pub ring_calls_refine :
      (cs : List (RingCall A)) (r : Ring A)
      → 0 < cap
      → length r.places ≡ cap
      → ring_calls cap empty cs (ring_init r) ≡ fifo_calls cap cs []
  ring_calls_refine cs r pos room =
      ring_calls-fifo_calls cs (ring_init r) [] (ring_init-Shows r pos room) (omega arith)
