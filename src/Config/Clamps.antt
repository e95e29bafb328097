-- ===== src/Config/Clamps.antt =====
-- What the clamps make of a configuration.
use cdm.Prelude.{
  ◌≡◌, refl, inl, inr, ◌⊎◌, Bool, true, false, not, ◌||◌, arith, ℤ, pos, ltb_ℤ, Bool-cases,
}
use cdm.Config.{Settings, at_least, clamp, is_savable}

at_least-ge : (low n : ℤ) → ltb_ℤ (at_least low n) low ≡ false
unfolding at_least
at_least-ge low n = elim (Bool-cases (ltb_ℤ n low)) [
  | inl less ↦ rw less (ground arith)
  | inr more ↦ rw more more
]

at_least_same : (low n : ℤ) → ltb_ℤ n low ≡ false → at_least low n ≡ n
unfolding at_least
at_least_same low n h = rw h refl

none_of :
    (a b c d : Bool) → a ≡ false → b ≡ false → c ≡ false → d ≡ false → not (a || b || c || d) ≡ true
none_of a b c d ha hb hc hd = ground arith

each_of :
    (a b c d : Bool)
    → not (a || b || c || d) ≡ true
    → (a ≡ false) × (b ≡ false) × (c ≡ false) × (d ≡ false)
each_of a b c d h = ground arith

clamp_same : (s : Settings) → is_savable s ≡ true → clamp s ≡ s
unfolding clamp is_savable
clamp_same s h =
    let (a, b, c, d) =
      each_of (ltb_ℤ s.max_concurrent (pos 1)) (ltb_ℤ s.retry_max_attempts (pos 0))
        (ltb_ℤ s.retry_base_delay_sec (pos 1)) (ltb_ℤ s.retry_max_delay_sec s.retry_base_delay_sec)
        h in
    let ea = at_least_same (pos 1) s.max_concurrent a in
    let eb = at_least_same (pos 0) s.retry_max_attempts b in
    let ec = at_least_same (pos 1) s.retry_base_delay_sec c in
    let ed = at_least_same s.retry_base_delay_sec s.retry_max_delay_sec d in
    rw (ea, eb, ec, ed) refl

-- The numbers that a configuration is clamped to are ones that `config_save` accepts, and numbers
-- that it accepts stay as they are.
pub clamp_lem :
    (s : Settings) → (is_savable (clamp s) ≡ true) × ((is_savable s ≡ false) ⊎ (clamp s ≡ s))
unfolding clamp is_savable
clamp_lem s = (
  none_of _ _ _ _ (at_least-ge (pos 1) s.max_concurrent) (at_least-ge (pos 0) s.retry_max_attempts)
      (at_least-ge (pos 1) s.retry_base_delay_sec)
      (at_least-ge (at_least (pos 1) s.retry_base_delay_sec) s.retry_max_delay_sec),
  elim (Bool-cases (is_savable s)) [ inr bad ↦ inl bad | inl good ↦ inr (clamp_same s good) ],
)
