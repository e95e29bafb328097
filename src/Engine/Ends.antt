-- ===== src/Engine/Ends.antt =====
-- How an attempt at a download ends, behind the run of the worker pool.
use cdm.Prelude.{
  ℕ, zero, suc, ◌≤◌, ◌<◌, ◌≡◌, refl, ap, inl, inr, ◌⊎◌, Bool, true, false, not, ◌&&◌, ◌||◌, List,
  [], ◌∷◌, ◌++◌, arith, length, get_or, replicate, ltb, ℤ, pos, negsuc, Bool-cases, if◌then◌else◌,
}
use cdm.Download.{Download, DownloadChunk, zero_chunk, max_chunks}
use cdm.Queue.{is_empty}
use cdm.Engine.{
  Change, delete_chunks, update_total_size, update_chunk_progress, unlink_file, FileInfo,
  discard_chunks,
}
use cdm.Engine.Single.{Retry, single_run, gets_one_byte, single_run_lem}
use cdm.Engine.Run.{World, flush_loop, user_stopped, finalizes, verdict, conclude}

-- Every chunk in use has taken over its counter, and the database is told so, chunk by chunk.
pub record Flushed (d : Download) (cs : List DownloadChunk) (said : List Change) : Type 0 where
  pub told : length said ≡ d.chunk_count
  pub counted :
      (i : ℕ)
      → i < d.chunk_count
      → get_or cs i zero_chunk
        ≡ record (get_or d.chunks i zero_chunk) { bytes_done = get_or d.chunk_live_bytes i 0 }
  pub stored :
      (i : ℕ)
      → i < d.chunk_count
      → get_or said i (delete_chunks 0)
        ≡ update_chunk_progress d.id
            (get_or d.chunks i zero_chunk).range_start
            (get_or d.chunk_live_bytes i 0)

-- The pool's run succeeded; or it failed with several ranges, no user stopped it, and the attempt
-- over a single connection got its one byte.
abbrev pub run_wins : ℕ → Bool → Retry → Download → Bool
run_wins n succeeded retry d =
    succeeded || ((ltb 1 n && not (user_stopped d)) && gets_one_byte retry)

-- The entry goes on as it was, with the chunks `cs`.
abbrev pub Stays : Download → List DownloadChunk → Download → Type 0
Stays d cs e = (e.chunks ≡ cs) × (e.chunk_count ≡ d.chunk_count) × (e.total_size ≡ d.total_size)

-- No chunk, no size and no progress is left.
abbrev pub Emptied : Download → Type 0
Emptied e =
    (e.chunks ≡ replicate max_chunks zero_chunk)
    × (e.chunk_count ≡ 0)
    × (e.total_size ≡ 0)
    × (e.bytes_downloaded ≡ 0)

abbrev pub dropped : Download → List Change
dropped d =
    delete_chunks d.id
    ∷ update_total_size d.id 0
    ∷ (if is_empty d.dest_path then [] else unlink_file d.dest_path ∷ [])

-- The three ends.
abbrev pub Ended :
    Download → List DownloadChunk → List Change → Bool → Bool → Download × List Change × ℤ → Type 0
Ended d cs said wins fine (e, changes, rc) =
    ((wins ≡ true) × (fine ≡ true) × (rc ≡ pos 0) × (changes ≡ said) × Stays d cs e)
    ⊎ (((wins ≡ true)
          × (fine ≡ false)
          × (rc ≡ negsuc 1)
          × (changes ≡ said ++ dropped d)
          × Emptied e)
        ⊎ ((wins ≡ false) × (rc ≡ negsuc 0) × (changes ≡ said) × Stays d cs e))

-- The counter of chunk `i` is in the chunk and in a change.
abbrev Counts : ℕ → List ℕ → List DownloadChunk → List DownloadChunk × List Change → ℕ → Type 0
Counts id live cs (flushed, said) i =
    (get_or flushed i zero_chunk ≡ record (get_or cs i zero_chunk) { bytes_done = get_or live i 0 })
    × (get_or said i (delete_chunks 0)
        ≡ update_chunk_progress id (get_or cs i zero_chunk).range_start (get_or live i 0))

flush_loop-told :
    (id n : ℕ) (live : List ℕ) (cs : List DownloadChunk)
    → n ≤ length live
    → n ≤ length cs
    → length (flush_loop id n live cs).1 ≡ n
unfolding flush_loop
flush_loop-told id zero live cs h k = refl
flush_loop-told id (suc n) [] cs h k = absurd (omega arith)
flush_loop-told id (suc n) (b ∷ live) [] h k = absurd (omega arith)
flush_loop-told id (suc n) (b ∷ live) (c ∷ cs) h k =
    ap suc (flush_loop-told id n live cs (omega arith) (omega arith))

flush_loop-Counts :
    (id n i : ℕ) (live : List ℕ) (cs : List DownloadChunk)
    → n ≤ length live
    → n ≤ length cs
    → i < n
    → Counts id live cs (flush_loop id n live cs) i
unfolding flush_loop
flush_loop-Counts id zero i live cs h k l = absurd (omega arith)
flush_loop-Counts id (suc n) i [] cs h k l = absurd (omega arith)
flush_loop-Counts id (suc n) i (b ∷ live) [] h k l = absurd (omega arith)
flush_loop-Counts id (suc n) zero (b ∷ live) (c ∷ cs) h k l = (refl, refl)
flush_loop-Counts id (suc n) (suc i) (b ∷ live) (c ∷ cs) h k l =
    flush_loop-Counts id n i live cs (omega arith) (omega arith) (omega arith)

dropped_lem : (d : Download) → (discard_chunks true d).1 ≡ dropped d
unfolding discard_chunks
dropped_lem d = elim (Bool-cases (is_empty d.dest_path)) [
  | inl bare ↦ rw bare refl
  | inr named ↦ rw named refl
]

verdict-Ended :
    (w : World) (info : FileInfo) (said : List Change) (cs : List DownloadChunk) (d : Download)
    (b : ℕ) (c wins : Bool)
    → Ended d cs said wins (finalizes w info d) (
        verdict w info said
          (record d { chunks = cs; bytes_downloaded = b; cancel_requested = c }, wins))
unfolding verdict discard_chunks
verdict-Ended w info said cs d b c false = inr (inr (refl, refl, refl, (refl, refl, refl)))
verdict-Ended w info said cs d b c true = elim (Bool-cases (finalizes w info d)) [
  | inl fine ↦ inl (rw fine (refl, refl, refl, refl, (refl, refl, refl)))
  | inr bad ↦ inr (
      inl (
        rw bad (
          refl,
          refl,
          refl,
          ap (λ (e : List Change). said ++ e) (dropped_lem d),
          (refl, refl, refl, refl),
        )))
]

-- Where the entry has its chunks and counters in their arrays, the end of an attempt first stores
-- the counter of every chunk in use, in the entry and in the database. It returns 0 where the
-- deciding run succeeded and the file passes its check, and -2 where that run succeeded and the file
-- fails, with the chunks, the size and the progress of the entry and of the database dropped and the
-- file unlinked. Else it returns -1, and the entry keeps its chunks. The deciding run succeeded where
-- the pool's run did, or where that failed with several ranges, no user stopped it, and the attempt
-- over a single connection took exactly one byte.
pub conclude_lem :
    (w : World) (info : FileInfo) (n : ℕ) (succeeded : Bool) (retry : Retry) (d : Download)
    → d.chunk_count ≤ length d.chunk_live_bytes
    → d.chunk_count ≤ length d.chunks
    → (cs : List DownloadChunk) × (said : List Change) × Flushed d cs said
      × Ended d cs said
          (run_wins n succeeded retry d)
          (finalizes w info d)
          (conclude w info n succeeded retry d)
unfolding conclude
conclude_lem w info n succeeded retry d h k =
    let (cs, said) = flush_loop d.id d.chunk_count d.chunk_live_bytes d.chunks in
    let flushed : Flushed d cs said = record {
      told = flush_loop-told d.id d.chunk_count d.chunk_live_bytes d.chunks h k;
      counted = λ i l. (flush_loop-Counts d.id d.chunk_count i d.chunk_live_bytes d.chunks h k l).0;
      stored = λ i l. (flush_loop-Counts d.id d.chunk_count i d.chunk_live_bytes d.chunks h k l).1;
    } in
    (cs, said, flushed, decided cs said)
  where
    decided :
        (cs : List DownloadChunk) (said : List Change)
        → Ended d cs said (run_wins n succeeded retry d) (finalizes w info d) (
            verdict w info said (
              if not succeeded && (ltb 1 n && not (user_stopped d))
              then single_run retry (record d { chunks = cs; bytes_downloaded = 0 })
              else (record d { chunks = cs }, succeeded)))
    decided cs said = elim (Bool-cases succeeded) [
      | inl won ↦ rw won (verdict-Ended w info said cs d d.bytes_downloaded d.cancel_requested true)
      | inr lost ↦ elim (Bool-cases (ltb 1 n && not (user_stopped d))) [
        | inr given_up ↦
            rw (lost, given_up)
              (verdict-Ended w info said cs d d.bytes_downloaded d.cancel_requested false)
        | inl again ↦
            let (b, c, e) = single_run_lem retry (record d { chunks = cs; bytes_downloaded = 0 }) in
            rw (lost, again, e) (verdict-Ended w info said cs d b c (gets_one_byte retry))
      ]
    ]
