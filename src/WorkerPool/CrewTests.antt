-- ===== src/WorkerPool/CrewTests.antt =====
-- A crew of one thread that fetches a file of two bytes.
use cdm.Prelude.{◌≡◌, refl, true, false, arith, length, if◌then◌else◌, ltb}
use cdm.Segmenter.{segmenter_plan, plan_range, plan_loop, choose_worker_count}
use cdm.WorkerPool.{create, create_loop, slot_of, mark_done, acquire, orphan, busiest}
use cdm.WorkerPool.Worker.{
  Answers, Response, worker_write_callback, write_bytes, worker_continues, segment_succeeded,
  next_segment, expected_bytes,
}
use cdm.WorkerPool.Sound.{covered}
use cdm.WorkerPool.Complete.{plan_complete}
use cdm.WorkerPool.Crew.{
  Crew, start_crew, start_loop, deliver, finish, Reach, here, next, delivers, finishes,
  all_succeeded, join_loop,
}

abbrev granted : Answers
granted = record { canceled = false; paused = false; granted = true; written = true; reached = 0 }

abbrev ended : Response
ended = record { http_status = 206; curl_ok = true }

abbrev plan_of_two : Crew
plan_of_two =
    let rs = segmenter_plan 2 (choose_worker_count 2) in
    start_crew (create rs false 8) (length rs) (λ i. true) rs

abbrev fetched : Crew
fetched = finish ended 0 (deliver granted 2 0 plan_of_two)

fetched-Reach : Reach plan_of_two fetched
unfolding segmenter_plan plan_loop plan_range choose_worker_count create create_loop slot_of
    start_crew start_loop deliver worker_write_callback write_bytes
fetched-Reach =
    next (next here (delivers granted 2 0 plan_of_two refl))
      (finishes ended 0 (deliver granted 2 0 plan_of_two) refl)

fetched_succeeds : all_succeeded fetched ≡ true
unfolding segmenter_plan plan_loop plan_range choose_worker_count create create_loop slot_of
    start_crew start_loop deliver worker_write_callback write_bytes finish worker_continues
    segment_succeeded next_segment expected_bytes mark_done acquire orphan busiest all_succeeded
    join_loop
fetched_succeeds = refl

plan_complete_example : covered 1 fetched.log ≡ (if ltb 1 2 then 1 else 0)
plan_complete_example =
    plan_complete 1 2 8 (λ i. true) false fetched (omega arith) (omega arith) fetched-Reach
      fetched_succeeds
