-- ===== src/Engine/Splits.antt =====
-- What a split by the rebalance pool leaves in the entry's chunks, from which a later attempt
-- resumes.
use cdm.Prelude.{
  ℕ, zero, suc, ◌+◌, ◌<◌, ◌≡◌, ◌≢◌, refl, ap, inl, inr, ◌⊎◌, true, false, ◌&&◌, List, [], ◌∷◌,
  arith, length, set, leb, ltb, ◌==◌, if◌then◌else◌, u64_mod, sub_u64, Bool-cases,
}
use cdm.Download.{Download, DownloadChunk, max_chunks}
use cdm.Engine.{shrink_victim, on_rebalance_split}

-- 1 where byte `x` is in the chunk, else 0.
abbrev pub in_chunk : ℕ → DownloadChunk → ℕ
in_chunk x c = if leb c.range_start x && leb x c.range_end then 1 else 0

-- The number of the first `n` chunks that byte `x` is in.
abbrev pub holders : ℕ → ℕ → List DownloadChunk → ℕ
holders x zero cs = 0
holders x (suc n) [] = 0
holders x (suc n) (c ∷ cs) = in_chunk x c + holders x n cs

-- 1 where `x` is in the part that is split off, else 0.
abbrev pub in_tail : ℕ → ℕ → ℕ → ℕ
in_tail x new_start new_end = if leb new_start x && ltb x new_end then 1 else 0

-- The first of the `n` chunks that starts at `victim_start` ends at `new_end`.
abbrev pub IsVictim : ℕ → ℕ → ℕ → List DownloadChunk → Type 0
IsVictim victim_start new_end zero cs = false ≡ true
IsVictim victim_start new_end (suc n) [] = false ≡ true
IsVictim victim_start new_end (suc n) (c ∷ cs) =
    ((c.range_start ≡ victim_start) × (c.range_end + 1 ≡ new_end))
    ⊎ ((c.range_start ≢ victim_start) × IsVictim victim_start new_end n cs)

module _ (x victim_start new_start new_end : ℕ) (after : victim_start < new_start)
    (before : new_start < new_end) (bound : new_end < u64_mod) where
  cut :
      (c : DownloadChunk)
      → c.range_start ≡ victim_start
      → c.range_end + 1 ≡ new_end
      → in_chunk x (record c { range_end = sub_u64 new_start 1 }) + in_tail x new_start new_end
        ≡ in_chunk x c
  cut c s e = let less : sub_u64 new_start 1 + 1 ≡ new_start = grind arith in ground (arith, less)

  shrink-holders :
      (n : ℕ) (cs : List DownloadChunk)
      → IsVictim victim_start new_end n cs
      → holders x n (shrink_victim n victim_start new_start cs).0 + in_tail x new_start new_end
        ≡ holders x n cs
  unfolding shrink_victim
  shrink-holders zero cs h = ground arith
  shrink-holders (suc n) [] h = ground arith
  shrink-holders (suc n) (c ∷ cs) (inl (s, e)) =
      let hit : (c.range_start == victim_start) ≡ true = ground (arith, s) in
      rw hit (omega (arith, cut c s e))
  shrink-holders (suc n) (c ∷ cs) (inr (s, h)) =
      let miss : (c.range_start == victim_start) ≡ false = ground (arith, s) in
      rw miss (omega (arith, shrink-holders n cs h))

length-shrink :
    (n a b : ℕ) (cs : List DownloadChunk) → length (shrink_victim n a b cs).0 ≡ length cs
unfolding shrink_victim
length-shrink zero a b cs = refl
length-shrink (suc n) a b [] = refl
length-shrink (suc n) a b (c ∷ cs) = elim (Bool-cases (c.range_start == a)) [
  | inl hit ↦ rw hit refl
  | inr miss ↦ rw miss (ap suc (length-shrink n a b cs))
]

holders-set :
    (x n : ℕ) (cs : List DownloadChunk) (c : DownloadChunk)
    → n < length cs
    → holders x (suc n) (set cs n c) ≡ holders x n cs + in_chunk x c
holders-set x n [] c h = elim h [ ]
holders-set x zero (d ∷ cs) c h = omega arith
holders-set x (suc n) (d ∷ cs) c h = omega (arith, holders-set x n cs c (omega arith))

not_full : (n : ℕ) → leb max_chunks n ≡ false → n < max_chunks
not_full n h = ground arith

in_added :
    (x new_start new_end : ℕ)
    → new_start < new_end
    → new_end < u64_mod
    → in_chunk x (record { range_start = new_start; range_end = sub_u64 new_end 1; bytes_done = 0 })
      ≡ in_tail x new_start new_end
in_added x new_start new_end h k =
    let less : sub_u64 new_end 1 + 1 ≡ new_end = grind arith in ground (arith, less)

appended :
    (x new_start new_end n : ℕ) (cs : List DownloadChunk) (total : ℕ)
    → n < length cs
    → new_start < new_end
    → new_end < u64_mod
    → holders x n cs + in_tail x new_start new_end ≡ total
    → holders x (n + 1) (
          set cs n
            (record { range_start = new_start; range_end = sub_u64 new_end 1; bytes_done = 0 }))
        + 0
      ≡ total
appended x new_start new_end n cs total h before bound e =
    let c : DownloadChunk = record {
      range_start = new_start;
      range_end = sub_u64 new_end 1;
      bytes_done = 0;
    } in
    let same : n + 1 ≡ suc n = omega arith in
    let one_more : holders x (n + 1) (set cs n c) ≡ holders x (suc n) (set cs n c) =
      ap (λ m. holders x m (set cs n c)) same in
    omega (arith, one_more, holders-set x n cs c h, in_added x new_start new_end before bound, e)

-- Where the pool splits a chunk of the entry at a byte behind its first one, every byte is in as
-- many chunks afterwards as before; but where the entry has all eight chunks already, the bytes
-- that are split off are in one fewer.
pub on_rebalance_split-holders :
    (x victim_start new_start new_end : ℕ) (d : Download)
    → victim_start < new_start
    → new_start < new_end
    → new_end < u64_mod
    → length d.chunks ≡ max_chunks
    → IsVictim victim_start new_end d.chunk_count d.chunks
    → let r = (on_rebalance_split victim_start new_start new_end d).0 in
      holders x r.chunk_count r.chunks
        + (if leb max_chunks d.chunk_count then in_tail x new_start new_end else 0)
      ≡ holders x d.chunk_count d.chunks
unfolding on_rebalance_split
on_rebalance_split-holders x victim_start new_start new_end d after before bound len victim =
    let kept =
      shrink-holders x victim_start new_start new_end after before bound d.chunk_count d.chunks
        victim in
    elim (Bool-cases (leb max_chunks d.chunk_count)) [
      | inl full ↦ rw full kept
      | inr room ↦ rw room (
          appended x new_start new_end d.chunk_count
            (shrink_victim d.chunk_count victim_start new_start d.chunks).0
            (holders x d.chunk_count d.chunks)
            (omega (
              arith,
              not_full d.chunk_count room,
              len,
              length-shrink d.chunk_count victim_start new_start d.chunks,
            ))
            (omega (arith, before)) bound kept)
    ]
