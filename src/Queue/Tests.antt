-- ===== src/Queue/Tests.antt =====
-- Runs of the queue, and its theorems at concrete entries.
use cdm.Prelude.{ℕ, ◌≡◌, refl, true, false, none, some, [], ◌∷◌, arith, ◌⊎◌, length, All}
use cdm.Download.{active, paused, Download}
use cdm.Queue.{
  Queue, Allocation, add, remove, find_by_id, find_next_queued, new_download,
  request_options_present,
}
use cdm.Queue.Calls.{adds, removes, apply}
use cdm.Queue.Entries.{accepted}
use cdm.Queue.Identity.{WellFormed, apply-WellFormed}
use cdm.Queue.Lifecycle.{lookup, AddResult, Removed, add_lem, remove_lem}
use cdm.Queue.Ownership.{IsActive, apply-IsActive}
use cdm.Queue.Selection.{Leads, IsHeld, find_next_queued_lem}
use cdm.Queue.Transitions.{pause_it, ask, Asked, ask-diagram}

abbrev blank : Download
unfolding new_download request_options_present
blank = new_download 1 (104 ∷ []) (47 ∷ 97 ∷ []) none

abbrev running : Download
running = record blank { status = active }

abbrev waiting : Download
waiting = record blank { id = 2; status = paused; pause_requested = true; next_retry_at = 99 }

abbrev two : Queue
two = record { entries = waiting ∷ running ∷ []; next_id = 3 }

abbrev ample : Allocation
ample = record { entry = true; options = true }

two-WellFormed : WellFormed two
unfolding new_download
two-WellFormed = record {
  distinct = omega arith;
  named = omega arith;
  next_pos = omega arith;
  next_fits = omega arith;
}

apply-WellFormed_example : WellFormed (apply (adds true ample [] [] none) two)
apply-WellFormed_example =
    apply-WellFormed (adds true ample [] [] none) two (omega arith) two-WellFormed

add_lem_example :
    ((accepted true ample none ≡ false) × (add true ample [] [] none two ≡ (two, 0)))
    ⊎ ((accepted true ample none ≡ true)
        × AddResult 1 [] [] none two (add true ample [] [] none two))
add_lem_example = add_lem true ample [] [] none two 1 two-WellFormed

remove_lem_example :
    ((lookup 2 two ≡ none) × (remove 2 two ≡ (two, none)))
    ⊎ ((d : Download) × (lookup 2 two ≡ some d)
        × Removed d (lookup 2 (remove 2 two).0) (remove 2 two).1
        × ((◌≡◌ {A = ℕ} 1 2) ⊎ (lookup 1 (remove 2 two).0 ≡ lookup 1 two)))
remove_lem_example = remove_lem 2 1 two two-WellFormed

apply-IsActive_example : IsActive 1 (apply (removes 1) two)
unfolding new_download find_by_id
apply-IsActive_example = apply-IsActive (removes 1) 1 two tt tt two-WellFormed (running, refl, refl)

picks_nothing : find_next_queued 5 two ≡ none
unfolding find_next_queued new_download
picks_nothing = refl

find_next_queued_lem_example :
    ((find_next_queued 5 two ≡ none) × All (λ e. IsHeld 5 e) two.entries)
    ⊎ ((d : Download) × (find_next_queued 5 two ≡ some d) × Leads 5 d two.entries)
find_next_queued_lem_example = find_next_queued_lem 5 two

ask-diagram_example :
    Asked pause_it (lookup 1 two) (lookup 1 (ask pause_it 1 two).0) (ask pause_it 1 two).1
    × ((◌≡◌ {A = ℕ} 2 1) ⊎ (lookup 2 (ask pause_it 1 two).0 ≡ lookup 2 two))
ask-diagram_example = ask-diagram pause_it 1 2 two

chunk_places : (d : Download) → find_by_id 2 two.entries ≡ some d → length d.chunks ≡ 8
unfolding find_by_id new_download
chunk_places d e = ground arith
