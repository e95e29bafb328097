-- ===== src/Scheduler/Slots.antt =====
-- What the operations of the scheduler do to the table of workers.
use cdm.Prelude.{
  ℕ, zero, suc, ◌+◌, ◌-◌, ◌≤◌, ◌<◌, ◌≡◌, ◌≢◌, refl, sym, ◌∙◌, subst, true, false, some, List, [],
  ◌∷◌, arith, inl, inr, ◌⊎◌, Bool-cases, length, length-set, set, get_or, get_or-set_self,
  get_or-set_ne,
}
use native.Mathlib.Decide.{ℕ_discrete}
use cdm.Scheduler.Workers.{Worker, free_worker, reap, reap_finished_workers, free_slot}
use cdm.Scheduler.Steps.{IsWorking}

-- Slot `k` works on the entry `i`.
abbrev pub Works : List Worker → ℕ → ℕ → Type 0
Works ws k i = IsWorking (get_or ws k free_worker) × ((get_or ws k free_worker).download_id ≡ i)

pub get_or-reap :
    (ws : List Worker) (k : ℕ)
    → get_or (reap_finished_workers ws) k free_worker ≡ reap (get_or ws k free_worker)
unfolding reap_finished_workers reap
get_or-reap [] k = refl
get_or-reap (w ∷ ws) zero = refl
get_or-reap (w ∷ ws) (suc k) = get_or-reap ws k

reap_cases : (w : Worker) → (reap w ≡ w) ⊎ ((w.done ≡ true) × ((reap w).in_use ≡ false))
unfolding reap
reap_cases w = ground arith

-- Reaping leaves the working slots alone, and makes no slot work.
pub reap-Works : (ws : List Worker) (k i : ℕ) → Works ws k i → Works (reap_finished_workers ws) k i
reap-Works ws k i w = elim (reap_cases (get_or ws k free_worker)) [
  | inl same ↦ rw (get_or-reap ws k, same) w
  | inr (ended, _) ↦ absurd (cc (ended, w.0.2))
]

pub reap-Works_only :
    (ws : List Worker) (k i : ℕ) → Works (reap_finished_workers ws) k i → Works ws k i
reap-Works_only ws k i w =
    let v : IsWorking (reap (get_or ws k free_worker))
        × ((reap (get_or ws k free_worker)).download_id ≡ i) =
      rw (get_or-reap ws k) at w in
    elim (reap_cases (get_or ws k free_worker)) [
      | inl same ↦ rw same at v
      | inr (_, unused) ↦ absurd (cc (unused, v.0.0))
    ]

-- A slot that works stands in the table.
pub Works-lt : (ws : List Worker) (k i : ℕ) → Works ws k i → k < length ws
Works-lt [] k i w = absurd (cc w.0.0)
Works-lt (w ∷ ws) zero i h = omega arith
Works-lt (w ∷ ws) (suc k) i h = omega (arith, Works-lt ws k i h)

-- A slot that is changed, and does not work after it: the others work as before.
module _ (ws : List Worker) (k : ℕ) (v : Worker) (idle : ¬ IsWorking v) where
  pub set-Works : (l i : ℕ) → k ≢ l → Works ws l i → Works (set ws k v) l i
  set-Works l i ne w = rw (get_or-set_ne ws k l v free_worker ne) w

  pub set-Works_only : (l i : ℕ) → Works (set ws k v) l i → (k ≢ l) × Works ws l i
  set-Works_only l i w = elim (ℕ_discrete k l) [
    | no ne ↦ (ne, rw (get_or-set_ne ws k l v free_worker ne) at w)
    | yes e ↦
        let here' : Works (set ws k v) k i = rw (← e) at w in
        let inside : k < length ws =
          subst (λ n. k < n) (length-set ws k v) (Works-lt (set ws k v) k i here') in
        absurd (idle (rw (get_or-set_self ws k v free_worker inside) at here').0)
  ]

-- A free slot that takes the entry `id`.
module _ (ws : List Worker) (k id : ℕ) (v : Worker) (inside : k < length ws) (starts : IsWorking v)
    (names : v.download_id ≡ id) where
  pub claim-Works : Works (set ws k v) k id
  claim-Works = rw (get_or-set_self ws k v free_worker inside) (starts, names)

  pub claim-Works_only :
      (l i : ℕ) → Works (set ws k v) l i → ((k ≡ l) × (i ≡ id)) ⊎ ((k ≢ l) × Works ws l i)
  claim-Works_only l i w = elim (ℕ_discrete k l) [
    | no ne ↦ inr (ne, rw (get_or-set_ne ws k l v free_worker ne) at w)
    | yes e ↦
        let here' : Works (set ws k v) k i = rw (← e) at w in
        let own : IsWorking v × (v.download_id ≡ i) =
          rw (get_or-set_self ws k v free_worker inside) at here' in
        inl (e, sym own.1 ∙ names)
  ]

-- A slot that `free_slot` finds stands in the table and is not in use.
pub free_slot_lem :
    (ws : List Worker) (i k : ℕ)
    → free_slot i ws ≡ some k
    → (i ≤ k) × (k - i < length ws) × ((get_or ws (k - i) free_worker).in_use ≡ false)
unfolding free_slot
free_slot_lem [] i k e = cc
free_slot_lem (w ∷ ws) i k e = elim (Bool-cases w.in_use) [
  | inl used ↦
      let (low, inside, free) = free_slot_lem ws (i + 1) k (rw used at e) in
      let shift : k - i ≡ suc (k - (i + 1)) = omega arith in
      (omega arith, omega arith, rw shift free)
  | inr free ↦
      let first : i ≡ k = ground arith in
      let none_before : k - i ≡ 0 = omega arith in (omega arith, omega arith, rw none_before free)
]
