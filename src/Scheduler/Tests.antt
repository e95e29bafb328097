-- ===== src/Scheduler/Tests.antt =====
-- Runs of the scheduler, and its theorems at a concrete queue.
use cdm.Prelude.{ℕ, ◌≤◌, ◌≡◌, refl, true, none, some, [], ◌∷◌, arith, ◌⊎◌, pos, negsuc}
use cdm.Download.{Status, Download}
use cdm.Queue.{Queue, find_by_id, new_download, count_by_status}
use cdm.Queue.Identity.{WellFormed}
use cdm.Queue.Lifecycle.{lookup}
use cdm.Queue.Ownership.{IsActive}
use cdm.Scheduler.{Policy, settle, basename_of}
use cdm.Scheduler.Bound.{active_downloads, Reach-bounded}
use cdm.Scheduler.Interleave.{Sound, start-Sound, Reach-Sound}
use cdm.Scheduler.Settle.{Verdict, Retry, stored, unlinked, db_name, settle_status, settle-Retry}
use cdm.Scheduler.Steps.{Reach, here, next, reloads, highest_limit, ticks}
use cdm.Scheduler.Workers.{Scheduler, start, tick}

abbrev defaults : Policy
defaults = record {
  max_concurrent = 3;
  retry_max_attempts = 5;
  retry_base_delay_sec = 2;
  retry_max_delay_sec = 60;
}

abbrev patient : Policy
patient = record defaults { retry_base_delay_sec = 4; retry_max_attempts = 40 }

abbrev fresh : Download
unfolding new_download
fresh = new_download 1 (104 ∷ []) (47 ∷ 97 ∷ []) none

abbrev one_queued : Queue
one_queued = record { entries = fresh ∷ []; next_id = 2 }

one_queued-WellFormed : WellFormed one_queued
unfolding new_download
one_queued-WellFormed = record {
  distinct = omega arith;
  named = omega arith;
  next_pos = omega arith;
  next_fits = omega arith;
}

none-IsActive : (i : ℕ) → ¬ IsActive i one_queued
unfolding find_by_id new_download
none-IsActive i (d, found, running) = ground arith

settle_status_example :
    let (q', effects) = settle defaults 100 1 (pos 0) one_queued in
    ((◌≡◌ {A = ℕ} 2 1) ⊎ (lookup 2 q' ≡ lookup 2 one_queued))
    × ((e : Download) × (lookup 1 q' ≡ some e)
        × (stored effects ≡ some (db_name e.status))
        × Verdict (pos 0) fresh e.status
        × ((unlinked effects ≡ [])
            ⊎ ((unlinked effects ≡ fresh.dest_path ∷ []) × (e.status ≡ Status.canceled))))
unfolding new_download find_by_id
settle_status_example = settle_status defaults 100 1 2 (pos 0) fresh one_queued refl

settle-Retry_example :
    (e : Download) × (lookup 1 (settle defaults 100 1 (negsuc 0) one_queued).0 ≡ some e)
    × Retry defaults 100 (negsuc 0) fresh e
unfolding new_download find_by_id
settle-Retry_example =
    settle-Retry defaults 100 1 (negsuc 0) fresh one_queued refl (λ e. cc) refl refl

abbrev ticked : Scheduler
ticked = tick defaults 5 true (start one_queued)

one_tick : Reach (start one_queued) defaults ticked
one_tick = next (here defaults) (ticks 5 true (start one_queued))

-- The configuration is reloaded with the limit 0, and nothing more is started.
abbrev closed : Policy
closed = record defaults { max_concurrent = 0 }

abbrev reloaded : Reach (start one_queued) closed (tick closed 6 true ticked)
reloaded =
    next (reloads closed (next (here defaults) (ticks 5 true (start one_queued))))
      (ticks 6 true ticked)

Reach-Sound_example : Sound ticked
Reach-Sound_example =
    Reach-Sound one_tick (start-Sound one_queued one_queued-WellFormed none-IsActive)

Reach-bounded_example : active_downloads (tick closed 6 true ticked) ≤ highest_limit reloaded
unfolding start new_download count_by_status
Reach-bounded_example = Reach-bounded reloaded (omega arith)

file_name : basename_of (47 ∷ 97 ∷ 47 ∷ 98 ∷ []) ≡ 98 ∷ []
unfolding basename_of
file_name = refl
