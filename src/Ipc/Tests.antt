-- ===== src/Ipc/Tests.antt =====
-- The messages and the offers at concrete inputs.
use cdm.Prelude.{
  inl, inr, false, ◌==◌, ℕ, suc, ◌+◌, ◌≡◌, ◌≢◌, refl, true, none, some, List, [], ◌∷◌, ◌++◌, Bytes,
  drop, replicate, if◌then◌else◌, arith,
}
use cdm.Ipc.{ok, max_url_len}
use cdm.Ipc.Wire.{Event, chunk, interrupted, write_string, add_request, read_add_fields, u32_bytes}
use cdm.Ipc.Stream.{arrived}
use cdm.Ipc.Requests.{read_add_fields-add_request, read_add_fields-oversized_url}
use cdm.Ipc.Offers.{
  Proposal, Table, new_table, new_slot, BrowserRequest, expire, offer, dismiss, confirm, serve_all,
  handle_offer, handle_dismiss, confirm_offer, browser_find_offer, browser_find_request, slot,
}
use cdm.Ipc.Catalog.{Valid, new_table-Valid}
use cdm.Ipc.Keeps.{serve_all-Valid}
use cdm.Download.{RequestOptions, active, done, queued, Status}
use cdm.Queue.{Queue, request_options_present, new_download, find_by_id}
use cdm.Queue.Requests.{get_status}
use cdm.Paths.Unique.{path_make_unique}
use cdm.Ipc.Reserve.{Attempt, claimed, exists, reserve_download}
use cdm.Ipc.Reserved.{ReservedOk, reserve_download-ReservedOk, reserve_download_deletes}
use cdm.Ipc.Commands.{handle_command, pause_it, cancel_it}
use cdm.Ipc.Outcomes.{Leaves, outcome}
use cdm.Ipc.Handlers.{answered, handle_command-raced, handle_command_lem}
use cdm.Ipc.Again.{Expiries, aged, Outlives, confirm_offer-again, handle_offer-again}

abbrev pieces : List Event
pieces = chunk (2 ∷ 0 ∷ []) ∷ interrupted ∷ chunk (0 ∷ 0 ∷ 104 ∷ []) ∷ chunk (105 ∷ 7 ∷ []) ∷ []

abbrev small_request : List Event
small_request =
    chunk (1 ∷ 0 ∷ 0 ∷ 0 ∷ 65 ∷ 1 ∷ []) ∷ chunk (0 ∷ 0 ∷ 0 ∷ 66 ∷ 0 ∷ 0 ∷ 0 ∷ 0 ∷ 9 ∷ []) ∷ []

read_add_fields-add_request_example :
    ((read_add_fields small_request).0
      ≡ some (record { url = 65 ∷ []; dest = 66 ∷ []; options_json = [] }))
    × (arrived (read_add_fields small_request).1 ≡ 9 ∷ [])
unfolding add_request
read_add_fields-add_request_example =
    read_add_fields-add_request (65 ∷ []) (66 ∷ []) [] (9 ∷ []) small_request (omega arith)
      (omega arith) (omega arith) refl

abbrev long_url : Bytes
long_url = replicate max_url_len 97

abbrev long_request : List Event
long_request = chunk (drop 8 (add_request long_url (66 ∷ []) []) ++ []) ∷ []

abbrev proposal : Proposal
proposal = record {
  total_bytes = 9;
  request_id = 49 ∷ [];
  url = 65 ∷ [];
  filename = 66 ∷ [];
  mime = [];
  referrer = [];
}

-- Ids are counted.
abbrev reserve : Bytes → Bytes → Bytes → ℕ → ℕ × ℕ
reserve url dest referrer next_id = (next_id, suc next_id)

abbrev numbers : ℕ → ℕ
numbers i = 1000 + i

abbrev requests : List BrowserRequest
requests =
    offer 5 numbers proposal
    ∷ offer 6 numbers (record proposal { request_id = 50 ∷ [] })
    ∷ dismiss 8 1014
    ∷ expire 9 (λ id. none)
    ∷ confirm 9 (u32_bytes 1015 ++ (u32_bytes 1 ++ (65 ∷ [])))
    ∷ []

serve_all-Valid_example : Valid (serve_all reserve requests new_table 1).1
serve_all-Valid_example = serve_all-Valid reserve requests new_table 1 new_table-Valid

abbrev one_offer : Table
one_offer = new_slot 7 5 proposal ∷ []

confirm_answered : (confirm_offer reserve 6 7 (66 ∷ []) one_offer 1).0 ≢ 0
unfolding confirm_offer
confirm_answered h = ground arith

one_offer-find : browser_find_offer 7 one_offer ≡ some 0
unfolding browser_find_offer
one_offer-find = refl

-- An expiry in time, and one later, while the download runs.
abbrev two_expiries : Expiries
two_expiries = (300, λ id. none) ∷ (900, λ id. some active) ∷ []

outlived : Outlives two_expiries (slot (confirm_offer reserve 6 7 (66 ∷ []) one_offer 1).2 0)
unfolding confirm_offer
outlived = (inl (omega arith), (inr (refl, refl), tt))

confirm_offer-again_example :
    let r = confirm_offer reserve 6 7 (66 ∷ []) one_offer 1 in
    confirm_offer reserve 901 7 (67 ∷ []) (aged two_expiries r.2) r.1
    ≡ (r.0, r.1, aged two_expiries r.2)
confirm_offer-again_example =
    confirm_offer-again reserve 6 901 7 0 (66 ∷ []) (67 ∷ []) two_expiries one_offer 1
      confirm_answered one_offer-find outlived

read_add_fields-oversized_url_example :
    ((read_add_fields long_request).0 ≡ none)
    × (arrived (read_add_fields long_request).1 ≡ write_string (66 ∷ []) ++ (write_string [] ++ []))
unfolding add_request
read_add_fields-oversized_url_example =
    read_add_fields-oversized_url long_url (66 ∷ []) [] [] long_request (omega arith) (omega arith)
      refl

registered : (handle_offer 5 numbers proposal new_table).0.offer_id ≢ 0
unfolding handle_offer
registered h = ground arith

registered_at :
    browser_find_request proposal.request_id (handle_offer 5 numbers proposal new_table).1 ≡ some 0
unfolding handle_offer
registered_at = refl

in_time : Outlives ((600, λ id. none) ∷ []) (slot (handle_offer 5 numbers proposal new_table).1 0)
unfolding handle_offer
in_time = (inl (omega arith), tt)

handle_offer-again_example :
    let r = handle_offer 5 numbers proposal new_table in
    handle_offer 601 numbers proposal (aged ((600, λ id. none) ∷ []) r.1)
    ≡ (r.0, aged ((600, λ id. none) ∷ []) r.1)
handle_offer-again_example =
    handle_offer-again 5 601 0 numbers numbers proposal ((600, λ id. none) ∷ []) new_table
      registered registered_at in_time

dismissed_ok : (handle_dismiss 6 7 one_offer).0 ≡ ok
unfolding handle_dismiss
dismissed_ok = refl

abbrev lost_race : ℕ → Attempt
lost_race i = record {
  files = λ path. false;
  safe = true;
  alloc = record { entry = true; options = true };
  claim = if i == 999998 then claimed else exists;
  inserted = true;
}

abbrev plain_request : RequestOptions
plain_request = record {
  cookie = [];
  referrer = [];
  extra_headers = [];
  expected_sha256 = [];
  speed_limit_bps = 0;
}

abbrev empty_queue : Queue
empty_queue = record { entries = []; next_id = 1 }

reserve_download-ReservedOk_example :
    ReservedOk lost_race
      (65 ∷ [])
      (66 ∷ [])
      plain_request
      empty_queue
      (reserve_download lost_race (65 ∷ []) (66 ∷ []) plain_request empty_queue)
reserve_download-ReservedOk_example =
    reserve_download-ReservedOk lost_race (65 ∷ []) (66 ∷ []) plain_request empty_queue
      (omega arith) (omega arith)

reserve_download_deletes_example :
    (rest : List Bytes) × ((reserve_download lost_race
        (65 ∷ [])
        (66 ∷ [])
        plain_request
        empty_queue).unlinked
      ≡ (66 ∷ []) ∷ rest)
unfolding path_make_unique request_options_present
reserve_download_deletes_example =
    reserve_download_deletes lost_race (65 ∷ []) (66 ∷ []) plain_request empty_queue (66 ∷ []) refl
      refl refl refl (omega arith) (omega arith)

abbrev one_download : Status → Queue
one_download s = record {
  entries = record (new_download 1 [] [] none) { status = s } ∷ [];
  next_id = 2;
}

handle_command_lem_example :
    Leaves 1
      (handle_command cancel_it (one_download queued) 1 (one_download queued))
      (outcome cancel_it queued)
unfolding find_by_id new_download get_status
handle_command_lem_example =
    handle_command_lem 1 (one_download queued)
      (record (new_download 1 [] [] none) { status = queued }) refl cancel_it (one_download queued)
      refl

handle_command-raced_example :
    Leaves 1
      (handle_command pause_it (one_download active) 1 (one_download done))
      (answered pause_it active done)
unfolding find_by_id new_download get_status
handle_command-raced_example =
    handle_command-raced 1 (one_download done)
      (record (new_download 1 [] [] none) { status = done }) refl pause_it (one_download active)
      active refl
