-- ===== src/Engine/Plans.antt =====
-- What an attempt at a download hands to the worker pool, and what it returns.
use cdm.Prelude.{
  ℕ, suc, ◌+◌, ◌≤◌, ◌<◌, ◌≡◌, refl, ap, sym, ◌∙◌, ◌++◌, zero, get_or, set, length-set,
  get_or-set_self, get_or-set_ne, length-take, inl, inr, true, ◌&&◌, some, List, [], ◌∷◌, arith,
  length, ltb, u64_mod, length-append, Bool-cases, Option-cases, ltb→lt, take, ◌==◌,
}
use cdm.Download.{Download, DownloadChunk, zero_chunk, max_chunks}
use cdm.Segmenter.{Range, max_workers, choose_worker_count}
use cdm.Segmenter.Cover.{
  segmenter_plan-Tiles, choose_worker_count_bounds, length-plan-le-max_workers,
}
use cdm.Engine.{
  Change, insert_chunk, delete_chunks, FileInfo, chunk_is_complete, Resumed, resume_chunk,
  resume_loop, resume_ranges, discard_chunks, is_valid_url,
}
use cdm.Engine.Run.{
  World, created, exists_already, failed, resume_stage, Plan, Stage, returns, runs, count_from,
  persist_loop, fresh_ranges, plan_fresh, plan_resume, plan_ranges, prepare, finalizes,
  resume_is_stale, sized,
}

-- Slot `i` is a chunk in use, the one that has the bytes of range `r`.
pub record Names (count : ℕ) (chunks : List DownloadChunk) (r : Range) (i : ℕ) : Type 0 where
  pub in_use : i < count
  pub from : (get_or chunks i zero_chunk).range_start ≡ r.start
  pub to : (get_or chunks i zero_chunk).range_end ≡ r.end

-- Each range with its slot.
abbrev pub Paired : ℕ → List DownloadChunk → List Range → List ℕ → Type 0
Paired count chunks [] [] = Unit
Paired count chunks [] (_ ∷ _) = ⊥
Paired count chunks (_ ∷ _) [] = ⊥
Paired count chunks (r ∷ rs) (i ∷ is) = Names count chunks r i × Paired count chunks rs is

-- One to eight ranges, each with the index of its chunk in the entry.
pub record PlanOk (d : Download) (p : Plan) : Type 0 where
  pub some_range : 1 ≤ length p.ranges
  pub room : length p.ranges ≤ max_workers
  pub paired : Paired d.chunk_count d.chunks p.ranges p.slots

-- A plan to run is well-formed, for the entry beside it.
abbrev pub StageOk : Download → Stage → Type 0
StageOk d (returns rc) = Unit
StageOk d (runs info p) = PlanOk d p

Paired-append :
    (count : ℕ) (chunks : List DownloadChunk) (rs : List Range) (is : List ℕ) (r : Range) (i : ℕ)
    → Paired count chunks rs is
    → Names count chunks r i
    → Paired count chunks (rs ++ (r ∷ [])) (is ++ (i ∷ []))
Paired-append count chunks [] [] r i h n = (n, tt)
Paired-append count chunks [] (_ ∷ _) r i h n = absurd h
Paired-append count chunks (_ ∷ _) [] r i h n = absurd h
Paired-append count chunks (q ∷ rs) (j ∷ is) r i (m, h) n =
    (m, Paired-append count chunks rs is r i h n)

get_or-take :
    (n j : ℕ) (cs : List DownloadChunk)
    → j < length (take n cs)
    → get_or (take n cs) j zero_chunk ≡ get_or cs j zero_chunk
get_or-take zero j cs h = absurd (omega arith)
get_or-take (suc n) j [] h = absurd (omega arith)
get_or-take (suc n) zero (c ∷ cs) h = refl
get_or-take (suc n) (suc j) (c ∷ cs) h = get_or-take n j cs (omega arith)

-- What the loop leaves: the chunks below `i` as they were, and one chunk for each range.
record Persisted (i : ℕ) (rs : List Range) (d e : Download) : Type 0 where
  kept : (j : ℕ) → j < i → get_or e.chunks j zero_chunk ≡ get_or d.chunks j zero_chunk
  count : i + length rs ≡ e.chunk_count
  paired : Paired e.chunk_count e.chunks rs (count_from i rs)

persist_loop-Persisted :
    (left i : ℕ) (rs : List Range) (d : Download) (said : List Change)
    → length rs ≤ left
    → i + length rs ≤ length d.chunks
    → d.chunk_count ≡ i
    → Persisted i rs d (persist_loop left i rs (d, said)).0
unfolding persist_loop
persist_loop-Persisted zero i [] d said h k e = record {
  kept = λ j l. refl;
  count = omega arith;
  paired = tt;
}
persist_loop-Persisted zero i (r ∷ rs) d said h k e = absurd (omega arith)
persist_loop-Persisted (suc left) i [] d said h k e = record {
  kept = λ j l. refl;
  count = omega arith;
  paired = tt;
}
persist_loop-Persisted (suc left) i (r ∷ rs) d said h k e =
    let c : DownloadChunk = record { range_start = r.start; range_end = r.end; bytes_done = 0 } in
    let d1 : Download = record d {
      chunks = set d.chunks i c;
      chunk_count = d.chunk_count + 1;
      chunk_live_bytes = set d.chunk_live_bytes i 0;
    } in
    let said1 = said ++ (insert_chunk d.id r.start r.end ∷ []) in
    let rest =
      persist_loop-Persisted left (i + 1) rs d1 said1 (omega arith)
        (omega (arith, length-set d.chunks i c)) (omega arith) in
    let here : get_or (persist_loop left (i + 1) rs (d1, said1)).0.chunks i zero_chunk ≡ c =
      rest.kept i (omega arith) ∙ get_or-set_self d.chunks i c zero_chunk (omega arith) in
    record {
      kept = λ j l.
          rest.kept j (omega arith)
          ∙ get_or-set_ne d.chunks i j c zero_chunk (λ same. absurd (omega (arith, same)));
      count = omega (arith, rest.count);
      paired = (
        record {
          in_use = omega (arith, rest.count);
          from = ap (λ (x : DownloadChunk). x.range_start) here;
          to = ap (λ (x : DownloadChunk). x.range_end) here;
        },
        rest.paired,
      );
    }

fresh_ranges_bounds :
    (info : FileInfo)
    → info.total_size < u64_mod
    → (1 ≤ length (fresh_ranges info)) × (length (fresh_ranges info) ≤ max_workers)
unfolding fresh_ranges
fresh_ranges_bounds info bound = elim (Bool-cases (ltb 0 info.total_size && info.supports_ranges)) [
  | inr one ↦ rw one (omega arith, omega arith)
  | inl many ↦
      let n = choose_worker_count info.total_size in
      let (workers, _, _) =
        choose_worker_count_bounds info.total_size info.total_size (omega arith) in
      let pos_size : 0 < info.total_size = ground arith in
      let (_, len) = segmenter_plan-Tiles info.total_size n bound pos_size workers in
      rw many (omega (arith, len, workers, pos_size), length-plan-le-max_workers info.total_size)
]

abbrev ResumedOk : Download → Resumed → Type 0
ResumedOk d r = (length r.ranges ≤ max_workers) × Paired d.chunk_count d.chunks r.ranges r.slots

resume_chunk-ResumedOk :
    (info : FileInfo) (d : Download) (i : ℕ) (c : DownloadChunk) (r : Resumed)
    → ltb (length r.ranges) max_workers ≡ true
    → i < d.chunk_count
    → get_or d.chunks i zero_chunk ≡ c
    → ResumedOk d r
    → ResumedOk d (resume_chunk info i c r)
unfolding resume_chunk
resume_chunk-ResumedOk info d i c r h l e (room, paired) = elim (Bool-cases (chunk_is_complete c)) [
  | inl all ↦ rw all (room, paired)
  | inr some_left ↦ rw some_left (
    omega (arith, ltb→lt _ _ h, length-append r.ranges (_ ∷ [])),
    Paired-append d.chunk_count d.chunks r.ranges r.slots _ i paired (record {
      in_use = l;
      from = ap (λ (x : DownloadChunk). x.range_start) e;
      to = ap (λ (x : DownloadChunk). x.range_end) e;
    }),
  )
]

-- The chunks `cs` are those of the entry from `i` on.
abbrev From : Download → ℕ → List DownloadChunk → Type 0
From d i cs = (j : ℕ) → j < length cs → get_or d.chunks (i + j) zero_chunk ≡ get_or cs j zero_chunk

resume_loop-ResumedOk :
    (info : FileInfo) (d : Download) (i : ℕ) (cs : List DownloadChunk) (r : Resumed)
    → i + length cs ≤ d.chunk_count
    → From d i cs
    → ResumedOk d r
    → ResumedOk d (resume_loop info i cs r)
unfolding resume_loop
resume_loop-ResumedOk info d i [] r l at ok = ok
resume_loop-ResumedOk info d i (c ∷ cs) r l at ok =
    let shift : i + 0 ≡ i = omega arith in
    let here : get_or d.chunks i zero_chunk ≡ c =
      ap (λ k. get_or d.chunks k zero_chunk) (sym shift) ∙ at 0 (omega arith) in
    let next : From d (i + 1) cs = λ j h.
      let e : (i + 1) + j ≡ i + suc j = omega arith in
      ap (λ k. get_or d.chunks k zero_chunk) e ∙ at (suc j) (omega arith) in
    elim (Bool-cases (ltb (length r.ranges) max_workers)) [
      | inl room ↦ rw room (
          resume_loop-ResumedOk info d (i + 1) cs _ (omega arith) next
            (resume_chunk-ResumedOk info d i c r room (omega arith) here ok))
      | inr full ↦ rw full ok
    ]

plan_fresh-StageOk :
    (w : World) (info : FileInfo) (d : Download)
    → length d.chunks ≡ max_chunks
    → info.total_size < u64_mod
    → StageOk (plan_fresh w info d).0 (plan_fresh w info d).2
unfolding plan_fresh
plan_fresh-StageOk w info d full bound =
    let (lo, hi) = fresh_ranges_bounds info bound in
    let rest =
      persist_loop-Persisted max_chunks 0 (fresh_ranges info) (record d { chunk_count = 0 })
        (delete_chunks d.id ∷ []) hi (omega (arith, hi, full)) refl in
    elim w.preallocation
      as (λ a.
        StageOk (plan_fresh (record w { preallocation = a }) info d).0
          (plan_fresh (record w { preallocation = a }) info d).2) [
            | exists_already ↦ tt
            | failed ↦ tt
            | created ↦ record { some_range = lo; room = hi; paired = rest.paired }
          ]

resume_stage-StageOk :
    (w : World) (info : FileInfo) (slots : List ℕ) (rs : List Range) (d : Download)
    → length rs ≤ max_workers
    → Paired d.chunk_count d.chunks rs slots
    → StageOk (resume_stage w info slots rs d).0 (resume_stage w info slots rs d).2
unfolding resume_stage
resume_stage-StageOk w info slots [] d h e = elim (Bool-cases (finalizes w info d)) [
  | inl fine ↦ rw fine tt
  | inr bad ↦ rw bad tt
]
resume_stage-StageOk w info slots (r ∷ rs) d h e = record {
  some_range = omega arith;
  room = h;
  paired = e;
}

plan_resume-StageOk :
    (w : World) (info : FileInfo) (d : Download)
    → StageOk (plan_resume w info d).0 (plan_resume w info d).2
unfolding plan_resume resume_ranges
plan_resume-StageOk w info d =
    let (room, paired) =
      resume_loop-ResumedOk info d 0 (take d.chunk_count d.chunks) _
        (omega (arith, length-take d.chunk_count d.chunks))
        (λ j h.
          let e : 0 + j ≡ j = omega arith in
          ap (λ k. get_or d.chunks k zero_chunk) e ∙ sym (get_or-take d.chunk_count j d.chunks h))
        (omega arith, tt) in
    resume_stage-StageOk w info _ _ _ room paired

discard_chunks-full : (d : Download) → length (discard_chunks true d).0.chunks ≡ max_chunks
unfolding discard_chunks
discard_chunks-full d = refl

plan_ranges-StageOk :
    (w : World) (info : FileInfo) (d : Download)
    → length d.chunks ≡ max_chunks
    → info.total_size < u64_mod
    → StageOk (plan_ranges w info d).0 (plan_ranges w info d).2
unfolding plan_ranges
plan_ranges-StageOk w info d full bound = elim (Bool-cases (d.chunk_count == 0)) [
  | inl new ↦ rw new (plan_fresh-StageOk w info (sized info d) full bound)
  | inr old ↦ elim (Bool-cases (resume_is_stale w info d)) [
    | inl stale ↦
        rw (old, stale)
          (plan_fresh-StageOk w info (sized info (discard_chunks true d).0) (discard_chunks-full d)
            bound)
    | inr good ↦ rw (old, good) (plan_resume-StageOk w info (sized info d))
  ]
]

-- Where the entry has its eight chunks and the size that the server names is below 2 ^ 64, what the
-- engine hands to the worker pool has one to eight ranges, and the slot beside each range is the
-- index of a chunk in use that the entry has with the start and the end of that range, for a fresh
-- download, for one whose chunks are stale, and for a resumed one.
pub prepare-StageOk :
    (w : World) (d : Download)
    → length d.chunks ≡ max_chunks
    → ((info : FileInfo) → w.head ≡ some info → info.total_size < u64_mod)
    → StageOk (prepare w d).0 (prepare w d).2
unfolding prepare
prepare-StageOk w d full bound = elim (Bool-cases (ltb 0 d.chunk_count && w.resume_file_missing)) [
  | inl gone ↦ rw gone tt
  | inr there ↦ elim (Bool-cases (is_valid_url d.url)) [
    | inr bad ↦ rw (there, bad) tt
    | inl good ↦ elim (Option-cases w.head) [
      | inl e ↦ rw (there, good, e) tt
      | inr (info, e) ↦ rw (there, good, e) (plan_ranges-StageOk w info d full (bound info e))
    ]
  ]
]
