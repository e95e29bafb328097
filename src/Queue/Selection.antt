-- ===== src/Queue/Selection.antt =====
-- Which entry `queue_manager_find_next_queued` picks.
use cdm.Prelude.{
  ℕ, ◌≡◌, refl, ap, true, false, ◌&&◌, Option, none, some, List, [], ◌∷◌, ◌++◌, All, All-map, arith,
  inl, inr, ◌⊎◌, Bool-cases, ltb_ℤ, ◌≤ℤ◌, ◌<ℤ◌, ◌≤◌, ◌<◌, ◌≢◌,
}
use cdm.Download.{Download, queued, is_status}
use cdm.Queue.{Queue, is_ready, better, find_next_loop, find_next_queued}

-- Queued, and the time of the next attempt has come.
abbrev pub IsReady : ℕ → Download → Type 0
IsReady now d = (d.status ≡ queued) × (d.next_retry_at ≤ now)

-- Not queued, or waiting for a later time.
abbrev pub IsHeld : ℕ → Download → Type 0
IsHeld now d = (d.status ≢ queued) ⊎ (now < d.next_retry_at)

-- `d` stands in `ds`, ready, with a lower priority at every ready entry in front of it and no higher
-- one at those behind it.
pub record Leads (now : ℕ) (d : Download) (ds : List Download) : Type 0 where
  pub before : List Download
  pub after : List Download
  pub place : ds ≡ before ++ d ∷ after
  pub ready : IsReady now d
  pub above : All (λ e. IsHeld now e ⊎ (e.priority <ℤ d.priority)) before
  pub level : All (λ e. IsHeld now e ⊎ (e.priority ≤ℤ d.priority)) after

is_ready-IsReady : (now : ℕ) (d : Download) → is_ready now d ≡ true → IsReady now d
unfolding is_ready
is_ready-IsReady now d h = (ground arith, ground arith)

is_ready-IsHeld : (now : ℕ) (d : Download) → is_ready now d ≡ false → IsHeld now d
unfolding is_ready
is_ready-IsHeld now d h = elim (Bool-cases (is_status d.status queued)) [
  | inl q ↦ inr (ground arith)
  | inr q ↦ inl (λ e. let hit : is_status d.status queued ≡ true = rw e refl in ground arith)
]

-- The same, by the tests of the code.
record Found (now : ℕ) (d : Download) (ds : List Download) : Type 0 where
  before : List Download
  after : List Download
  place : ds ≡ before ++ d ∷ after
  ready : is_ready now d ≡ true
  above : All (λ e. (is_ready now e ≡ false) ⊎ (ltb_ℤ e.priority d.priority ≡ true)) before
  level : All (λ e. (is_ready now e ≡ false) ⊎ (ltb_ℤ d.priority e.priority ≡ false)) after

Found-Leads : (now : ℕ) (d : Download) (ds : List Download) → Found now d ds → Leads now d ds
Found-Leads now d ds f = record {
  before = f.before;
  after = f.after;
  place = f.place;
  ready = is_ready-IsReady now d f.ready;
  above = All-map _ _ f.before (λ e h. lower e h) f.above;
  level = All-map _ _ f.after (λ e h. no_higher e h) f.level;
}
  where
    lower :
        (e : Download)
        → (is_ready now e ≡ false) ⊎ (ltb_ℤ e.priority d.priority ≡ true)
        → IsHeld now e ⊎ (e.priority <ℤ d.priority)
    lower e (inl waits) = inl (is_ready-IsHeld now e waits)
    lower e (inr less) = inr (ground arith)

    no_higher :
        (e : Download)
        → (is_ready now e ≡ false) ⊎ (ltb_ℤ d.priority e.priority ≡ false)
        → IsHeld now e ⊎ (e.priority ≤ℤ d.priority)
    no_higher e (inl waits) = inl (is_ready-IsHeld now e waits)
    no_higher e (inr less) = inr (ground arith)

abbrev NoBetter : ℕ → Option Download → List Download → Type 0
NoBetter now best = All (λ e. (is_ready now e ≡ false) ⊎ (better best e ≡ false))

abbrev Picks : ℕ → Option Download → List Download → Option Download → Type 0
Picks now best ds r =
    ((r ≡ best) × NoBetter now best ds)
    ⊎ ((d : Download) × (r ≡ some d) × (better best d ≡ true) × Found now d ds)

-- A later entry that beats one which beats `best` beats `best`.
better_trans :
    (best : Option Download) (x d : Download)
    → better best x ≡ true
    → better (some x) d ≡ true
    → better best d ≡ true
unfolding better
better_trans none x d h k = refl
better_trans (some b) x d h k = ground arith

-- An entry that does not beat `best` is beaten by one that does.
behind :
    (best : Option Download) (x d : Download)
    → better best x ≡ false
    → better best d ≡ true
    → ltb_ℤ x.priority d.priority ≡ true
unfolding better
behind none x d h k = ground arith
behind (some b) x d h k = ground arith

pick_step :
    (now : ℕ) (best r : Option Download) (x : Download) (ds : List Download)
    → is_ready now x ≡ true
    → better best x ≡ true
    → Picks now (some x) ds r
    → Picks now best (x ∷ ds) r
unfolding better
pick_step now best r x ds ready beats (inl (e, rest)) = inr (
  x,
  e,
  beats,
  record { before = []; after = ds; place = refl; ready = ready; above = tt; level = rest },
)
pick_step now best r x ds ready beats (inr (d, e, over, l)) = inr (
  d,
  e,
  better_trans best x d beats over,
  record {
    before = x ∷ l.before;
    after = l.after;
    place = ap (◌∷◌ x) l.place;
    ready = l.ready;
    above = (inr over, l.above);
    level = l.level;
  },
)

worse_behind :
    (best : Option Download) (x d : Download) (now : ℕ)
    → (is_ready now x ≡ false) ⊎ (better best x ≡ false)
    → better best d ≡ true
    → (is_ready now x ≡ false) ⊎ (ltb_ℤ x.priority d.priority ≡ true)
worse_behind best x d now (inl waits) over = inl waits
worse_behind best x d now (inr worse) over = inr (behind best x d worse over)

skip_step :
    (now : ℕ) (best r : Option Download) (x : Download) (ds : List Download)
    → (is_ready now x ≡ false) ⊎ (better best x ≡ false)
    → Picks now best ds r
    → Picks now best (x ∷ ds) r
skip_step now best r x ds worse (inl (e, rest)) = inl (e, (worse, rest))
skip_step now best r x ds worse (inr (d, e, over, l)) = inr (
  d,
  e,
  over,
  record {
    before = x ∷ l.before;
    after = l.after;
    place = ap (◌∷◌ x) l.place;
    ready = l.ready;
    above = (worse_behind best x d now worse over, l.above);
    level = l.level;
  },
)

find_next_loop-Picks :
    (now : ℕ) (best : Option Download) (ds : List Download)
    → Picks now best ds (find_next_loop now best ds)
unfolding find_next_loop
find_next_loop-Picks now best [] = inl (refl, tt)
find_next_loop-Picks now best (x ∷ ds) = elim (Bool-cases (is_ready now x && better best x)) [
  | inl chosen ↦ rw chosen (
      pick_step now best _ x ds (ground arith) (ground arith)
        (find_next_loop-Picks now (some x) ds))
  | inr passed ↦
      rw passed (skip_step now best _ x ds (ground arith) (find_next_loop-Picks now best ds))
]

none_ready :
    (now : ℕ) (e : Download)
    → (is_ready now e ≡ false) ⊎ (better none e ≡ false)
    → is_ready now e ≡ false
unfolding better
none_ready now e (inl waits) = waits
none_ready now e (inr worse) = cc

-- The scheduler is given the first of the entries of the highest priority among those that are
-- queued and whose backoff is over, and nothing exactly when no entry is queued with its backoff
-- over.
pub find_next_queued_lem :
    (now : ℕ) (q : Queue)
    → ((find_next_queued now q ≡ none) × All (λ e. IsHeld now e) q.entries)
      ⊎ ((d : Download) × (find_next_queued now q ≡ some d) × Leads now d q.entries)
unfolding find_next_queued
find_next_queued_lem now q = conclude (find_next_loop-Picks now none q.entries)
  where
    conclude :
        {r : Option Download}
        → Picks now none q.entries r
        → ((r ≡ none) × All (λ e. IsHeld now e) q.entries)
          ⊎ ((d : Download) × (r ≡ some d) × Leads now d q.entries)
    conclude (inl (e, rest)) =
        inl (e, All-map _ _ q.entries (λ x h. is_ready-IsHeld now x (none_ready now x h)) rest)
    conclude (inr (d, e, _, l)) = inr (d, e, Found-Leads now d q.entries l)
