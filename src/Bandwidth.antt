-- ===== src/Bandwidth.antt =====
-- src/platform/bandwidth.c: the token bucket. `g_tokens` is an int64_t. The clock, the cap of the
-- configuration and the flags are arguments.
pub mod Grants
mod Tests
use cdm.Prelude.{
  ℕ, zero, suc, ◌+◌, ◌-◌, ◌*◌, ◌/◌, ◌^◌, Bool, true, false, Option, none, some, List, [], ◌∷◌, ltb,
  ◌==◌, if◌then◌else◌, u64, u64_mod, sub_u64, ℤ, pos, negsuc, pos_part, neg_part, sub_ℕ, ltb_ℤ,
}

-- (int64_t)n.
abbrev pub to_i64 : ℕ → ℤ
to_i64 n = if ltb n (2 ^ 63) then pos n else negsuc (u64_mod - n - 1)

abbrev pub add_ℤ : ℤ → ℤ → ℤ
add_ℤ a b = sub_ℕ (pos_part a + pos_part b) (neg_part a + neg_part b)

-- `g_tokens` and `g_last_refill_ms`.
pub record Bucket : Type 0 where
  pub tokens : ℤ
  pub last_refill_ms : ℕ

unfoldable pub max_bucket : ℕ → ℤ
max_bucket cap =
    let size = to_i64 (u64 (cap * 500) / 1000) in if ltb_ℤ size (pos 1) then pos 1 else size

unfoldable pub capped : ℤ → ℤ → ℤ
capped most n = if ltb_ℤ most n then most else n

unfoldable pub bandwidth_tick : ℕ → ℕ → Bucket → Bucket
unfolding max_bucket capped
bandwidth_tick cap now b =
    let elapsed_ms = sub_u64 now b.last_refill_ms in
    let more = add_ℤ b.tokens (to_i64 (u64 (cap * elapsed_ms) / 1000)) in
    if cap == 0
    then b
    else if b.last_refill_ms == 0
    then record b { last_refill_ms = now }
    else if elapsed_ms == 0
    then b
    else record { tokens = capped (max_bucket cap) more; last_refill_ms = now }

-- What a round of the loop of `bandwidth_acquire` finds: a flag is set, or these tokens. A round
-- whose exchange fails changes nothing and is left out.
pub record Look : Type 0 where
  pub stop : Bool
  pub tokens : ℤ

-- What a round takes from the tokens that it finds; it sleeps where there is none.
unfoldable pub take_tokens : ℤ → ℕ → ℕ
take_tokens (negsuc n) remaining = 0
take_tokens (pos n) remaining = if ltb n remaining then n else remaining

-- The loop, with what each round took; without an answer where the rounds end first.
unfoldable pub acquire_loop : List Look → ℕ → Option Bool × List ℕ
unfolding take_tokens
acquire_loop looks zero = (some true, [])
acquire_loop [] (suc n) = (none, [])
acquire_loop (l ∷ looks) (suc n) =
    let taken = take_tokens l.tokens (suc n) in
    let (answer, more) = acquire_loop looks (suc n - taken) in
    if l.stop then (some false, []) else (answer, taken ∷ more)

unfoldable pub bandwidth_acquire : ℕ → List Look → ℕ → Option Bool × List ℕ
unfolding acquire_loop
bandwidth_acquire cap looks bytes = if cap == 0 then (some true, []) else acquire_loop looks bytes
