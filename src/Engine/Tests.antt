-- ===== src/Engine/Tests.antt =====
-- The engine at concrete downloads.
use cdm.Prelude.{
  ℕ, ◌+◌, ◌≡◌, refl, inl, true, false, some, none, [], ◌∷◌, arith, replicate, leb, if◌then◌else◌,
  subst, List, Option, ◌<◌, u64_mod,
}
use cdm.Download.{Download, DownloadChunk, zero_chunk, max_chunks}
use cdm.Queue.{new_download}
use cdm.Engine.{Change, FileInfo, on_rebalance_split}
use cdm.Engine.Run.{World, created, prepare, conclude, finalizes}
use cdm.Engine.Plans.{StageOk, prepare-StageOk}
use cdm.Engine.Single.{Retry}
use cdm.Engine.Ends.{Flushed, Ended, run_wins, conclude_lem}
use cdm.WorkerPool.Worker.{Answers}
use cdm.Engine.Splits.{holders, in_tail, on_rebalance_split-holders}

abbrev fresh : Download
unfolding new_download
fresh = new_download 1 (104 ∷ 116 ∷ 116 ∷ 112 ∷ 58 ∷ 47 ∷ 47 ∷ []) (47 ∷ 97 ∷ []) none

abbrev info : FileInfo
info = record { total_size = 30000000; supports_ranges = true }

abbrev world : World
world = record {
  resume_file_missing = false;
  head = some info;
  size_on_disk = 0;
  preallocation = created;
  final_size = 30000000;
  final_hex = none;
}

abbrev head_size : Option FileInfo → ℕ
head_size none = 0
head_size (some i) = i.total_size

prepare-StageOk_example : StageOk (prepare world fresh).0 (prepare world fresh).2
unfolding fresh
prepare-StageOk_example =
    prepare-StageOk world fresh refl (λ i e. subst (λ o. head_size o < u64_mod) e (omega arith))

-- One chunk of 100 bytes.
abbrev one_chunk : Download
one_chunk = record fresh {
  chunks = record { range_start = 0; range_end = 99; bytes_done = 10 } ∷ replicate 7 zero_chunk;
  chunk_count = 1;
}

abbrev takes_it : Answers
takes_it = record { canceled = false; paused = false; granted = true; written = true; reached = 0 }

-- The server sends one byte and ends well.
abbrev one_byte : Retry
one_byte = record {
  opened = true;
  thread_starts = true;
  callbacks = (takes_it, 1) ∷ [];
  response = record { http_status = 200; curl_ok = true };
}

conclude_lem_example :
    (cs : List DownloadChunk) × (said : List Change) × Flushed one_chunk cs said
    × Ended one_chunk cs said
        (run_wins 8 false one_byte one_chunk)
        (finalizes world info one_chunk)
        (conclude world info 8 false one_byte one_chunk)
unfolding fresh
conclude_lem_example =
    conclude_lem world info 8 false one_byte one_chunk (omega arith) (omega arith)

on_rebalance_split-holders_example :
    let r = (on_rebalance_split 0 50 100 one_chunk).0 in
    holders 70 r.chunk_count r.chunks
      + (if leb max_chunks one_chunk.chunk_count then in_tail 70 50 100 else 0)
    ≡ holders 70 one_chunk.chunk_count one_chunk.chunks
on_rebalance_split-holders_example =
    on_rebalance_split-holders 70 0 50 100 one_chunk (omega arith) (omega arith) (omega arith) refl
      (inl (refl, refl))
