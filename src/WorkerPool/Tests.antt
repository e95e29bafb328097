-- ===== src/WorkerPool/Tests.antt =====
-- The rebalance pool at concrete inputs: a file of 100 bytes in two slots, the first of which is
-- done.
use cdm.Prelude.{ℕ, ◌≡◌, ◌≤◌, ◌⊎◌, none, refl, true, false, some, [], ◌∷◌, arith}
use cdm.WorkerPool.{PoolSlot, RebalancePool, acquire, orphan, busiest, steal}
use cdm.WorkerPool.Worker.{
  Answers, Work, Response, worker_write_callback, stray_write, segment_succeeded,
}
use cdm.WorkerPool.Owners.{owners, owns}
use cdm.WorkerPool.Acquire.{PoolOk}
use cdm.WorkerPool.Rebalance.{acquire-owners}
use cdm.WorkerPool.Writes.{Linked, Honest, covers, own_slot, callback_writes}

abbrev first_slot : PoolSlot
first_slot = record {
  start = 0;
  write_pos = 50;
  live_end = 50;
  claimed = false;
  exhausted = true;
  progress_slot = some 0;
}

abbrev second_slot : PoolSlot
second_slot = record {
  start = 50;
  write_pos = 60;
  live_end = 100;
  claimed = true;
  exhausted = false;
  progress_slot = some 1;
}

abbrev two_slots : RebalancePool
two_slots = record {
  slots = first_slot ∷ second_slot ∷ [];
  min_steal_bytes = 8;
  reports_progress = true;
}

two_slots-PoolOk : PoolOk two_slots
two_slots-PoolOk = record {
  room = omega arith;
  each = ((omega arith, omega arith), ((omega arith, omega arith), tt));
}

abbrev second_worker : ℕ → Work
second_worker done = record {
  context = record {
    range = record { start = 50; end = 99; resume_offset = 0; whole_file = false };
    bytes_done = done;
    succeeded = false;
    total_workers = 2;
    chunk_progress_slot = some 1;
    pooled = true;
    slot_index = 1;
    truncated = false;
  };
  pool = two_slots;
}

second_worker-Linked : Linked (second_worker 10)
second_worker-Linked = record { pooled = refl; below = omega arith; aligned = refl }

abbrev yes : Answers
yes = record { canceled = false; paused = false; granted = true; written = true; reached = 0 }

abbrev partial_content : Response
partial_content = record { http_status = 206; curl_ok = true }

-- The idle worker gets the bytes from 80 on.
splits_in_the_middle :
    (acquire two_slots).1
    ≡ some (record {
      slot = 2;
      range = record { start = 80; end = 99; resume_offset = 0; whole_file = false };
      progress = some 2;
      split = some (record { victim_start = 50; new_start = 80; new_end = 100 });
    })
unfolding acquire orphan busiest steal
splits_in_the_middle = refl

acquire-owners_example :
    PoolOk (acquire two_slots).0
    × (owners 90 (acquire two_slots).0.slots ≡ owners 90 two_slots.slots)
acquire-owners_example = acquire-owners 90 two_slots two_slots-PoolOk

-- The file takes 4 bytes of the worker's and then fails.
abbrev falls_short : Answers
falls_short = record {
  canceled = false;
  paused = false;
  granted = true;
  written = false;
  reached = 4;
}

callback_writes_example :
    let r = worker_write_callback falls_short 30 (second_worker 10) in
    Honest 61 30 (second_worker 10) r
    × (covers 61 (stray_write falls_short 30 (second_worker 10))
        ≤ owns 61 (own_slot (second_worker 10)))
    × ((stray_write falls_short 30 (second_worker 10) ≡ none) ⊎ (r.2 ≡ none))
callback_writes_example =
    callback_writes 61 falls_short 30 (second_worker 10) two_slots-PoolOk second_worker-Linked

-- The second slot, fetched to its end.
abbrev drained : Work
drained = record {
  context = record (second_worker 50).context { bytes_done = 50 };
  pool = record two_slots { slots = first_slot ∷ record second_slot { write_pos = 100 } ∷ [] };
}

drained-PoolOk : PoolOk drained.pool
drained-PoolOk = record {
  room = omega arith;
  each = ((omega arith, omega arith), ((omega arith, omega arith), tt));
}

drained-Linked : Linked drained
drained-Linked = record { pooled = refl; below = omega arith; aligned = refl }

drained_succeeds : segment_succeeded partial_content drained.context drained.pool ≡ true
unfolding segment_succeeded
drained_succeeds = refl
