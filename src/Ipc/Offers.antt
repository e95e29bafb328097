-- ===== src/Ipc/Offers.antt =====
-- src/platform/ipc_socket.c: the table of the browser's offers and the requests that change it. The
-- current time, the random numbers and `reserve_download` are arguments; `Server` is what the latter
-- changes.
use cdm.Prelude.{
  ℕ, zero, suc, ◌+◌, Bool, true, false, not, ◌&&◌, ◌||◌, Option, none, some, List, [], ◌∷◌, Bytes,
  bytes_eq, map, if◌then◌else◌, ◌==◌, leb, ltb, get_or, set, length, take, drop, replicate,
}
use cdm.Prelude.Find.{find_from}
use cdm.Download.{Status, done, error, canceled, is_status}
use cdm.Ipc.{IpcResult, ok, not_found, rejected, max_path_len}
use cdm.Ipc.Wire.{u32_of}

abbrev pub max_browser_offers : ℕ
max_browser_offers = 64

abbrev pub browser_offer_ttl_seconds : ℕ
browser_offer_ttl_seconds = 600

-- IpcBrowserOfferState, less its prefix IPC_BROWSER_.
pub data OfferState : Type 0 where
  waiting confirmed dismissed : OfferState

-- What the browser proposes.
pub record Proposal : Type 0 where
  pub total_bytes : ℕ
  pub request_id : Bytes
  pub url : Bytes
  pub filename : Bytes
  pub mime : Bytes
  pub referrer : Bytes

-- IpcBrowserOffer.
pub record Offer : Type 0 where
  pub offer_id : ℕ
  pub download_id : ℕ
  pub state : OfferState
  pub proposal : Proposal

-- BrowserOfferSlot; the slot is free when its offer's id is 0.
pub record Slot : Type 0 where
  pub offer : Offer
  pub touched_at : ℕ

abbrev pub Table : Type 0
Table = List Slot

abbrev pub no_proposal : Proposal
no_proposal = record {
  total_bytes = 0;
  request_id = [];
  url = [];
  filename = [];
  mime = [];
  referrer = [];
}

abbrev pub no_offer : Offer
no_offer = record { offer_id = 0; download_id = 0; state = waiting; proposal = no_proposal }

abbrev pub empty_slot : Slot
empty_slot = record { offer = no_offer; touched_at = 0 }

abbrev pub slot : Table → ℕ → Slot
slot table i = get_or table i empty_slot

abbrev pub new_table : Table
new_table = replicate max_browser_offers empty_slot

abbrev pub is_final : Status → Bool
is_final s = is_status s done || is_status s error || is_status s canceled

-- Does a download that its offer started still run?
abbrev pub is_running : Option Status → Bool
is_running none = false
is_running (some s) = not (is_final s)

abbrev pub is_confirmed : OfferState → Bool
is_confirmed waiting = false
is_confirmed confirmed = true
is_confirmed dismissed = false

-- The body of the loop of `browser_expire_offers`.
unfoldable pub expire_slot : ℕ → (ℕ → Option Status) → Slot → Slot
expire_slot now status s =
    if s.offer.offer_id == 0
    then s
    else if leb now (s.touched_at + browser_offer_ttl_seconds)
    then s
    else if is_confirmed s.offer.state && is_running (status s.offer.download_id)
    then s
    else empty_slot

unfoldable pub browser_expire_offers : ℕ → (ℕ → Option Status) → Table → Table
unfolding expire_slot
browser_expire_offers now status table = map (expire_slot now status) table

-- memchr(s, '\0', length) finds nothing.
abbrev pub no_nul : Bytes → Bool
no_nul [] = true
no_nul (b ∷ bs) = not (b == 0) && no_nul bs

unfoldable pub browser_find_offer : ℕ → Table → Option ℕ
browser_find_offer id table = find_from (λ s. not (id == 0) && (s.offer.offer_id == id)) 0 table

unfoldable pub browser_find_request : Bytes → Table → Option ℕ
browser_find_request request_id table =
    find_from (λ s. not (s.offer.offer_id == 0) && bytes_eq s.offer.proposal.request_id request_id)
      0 table

abbrev pub find_free : Table → Option ℕ
find_free table = find_from (λ s. s.offer.offer_id == 0) 0 table

-- The loop that draws an id: at most `left` more numbers, of which 0 and the ids in use are refused.
unfoldable pub draw_id : ℕ → (ℕ → ℕ) → Table → ℕ
unfolding browser_find_offer
draw_id zero random table = 0
draw_id (suc left) random table =
    let rest = draw_id left random table in
    let id = random left in
    elim (browser_find_offer id table) [ some _ ↦ rest | none ↦ if id == 0 then rest else id ]

abbrev pub id_attempts : ℕ
id_attempts = 16

abbrev pub new_slot : ℕ → ℕ → Proposal → Slot
new_slot id now p = record {
  offer = record { offer_id = id; download_id = 0; state = waiting; proposal = p };
  touched_at = now;
}

-- BROWSER_OFFER for a request that is not in the table yet.
unfoldable pub register_offer : ℕ → (ℕ → ℕ) → Proposal → Table → Offer × Table
unfolding draw_id
register_offer now random p table = elim (find_free table) [
  | none ↦ (no_offer, table)
  | some i ↦
      let id = draw_id id_attempts random table in
      if id == 0
      then (no_offer, table)
      else ((new_slot id now p).offer, set table i (new_slot id now p))
]

-- BROWSER_OFFER: the answer, and the table after it.
unfoldable pub handle_offer : ℕ → (ℕ → ℕ) → Proposal → Table → Offer × Table
unfolding browser_find_request register_offer
handle_offer now random p table = elim (browser_find_request p.request_id table) [
  | some i ↦
      if bytes_eq (slot table i).offer.proposal.url p.url
      then ((slot table i).offer, table)
      else (no_offer, table)
  | none ↦ register_offer now random p table
]

-- BROWSER_GET_OFFER.
unfoldable pub handle_get_offer : ℕ → ℕ → Table → Offer × Table
unfolding browser_find_offer
handle_get_offer now id table = elim (browser_find_offer id table) [
  | none ↦ (no_offer, table)
  | some i ↦ ((slot table i).offer, set table i (record (slot table i) { touched_at = now }))
]

-- BROWSER_DISMISS.
unfoldable pub dismiss_slot : ℕ → Slot → IpcResult × Slot
dismiss_slot now s = elim s.offer.state [
  | waiting ↦ (ok, record { offer = record s.offer { state = dismissed }; touched_at = now })
  | dismissed ↦ (ok, s)
  | confirmed ↦ (rejected, s)
]

unfoldable pub handle_dismiss : ℕ → ℕ → Table → IpcResult × Table
unfolding browser_find_offer dismiss_slot
handle_dismiss now id table = elim (browser_find_offer id table) [
  | none ↦ (not_found, table)
  | some i ↦ let (result, s) = dismiss_slot now (slot table i) in (result, set table i s)
]

-- The offer, the length of the path and the path that a BROWSER_CONFIRM's payload holds.
abbrev pub payload_offer_id : Bytes → ℕ
payload_offer_id payload = u32_of (take 4 payload)

abbrev pub payload_path_len : Bytes → ℕ
payload_path_len payload = u32_of (take 4 (drop 4 payload))

abbrev pub payload_path : Bytes → Bytes
payload_path payload = take (payload_path_len payload) (drop 8 payload)

abbrev pub payload_ok : Bytes → Bool
payload_ok payload =
    ltb 0 (payload_path_len payload)
    && ltb (payload_path_len payload) max_path_len
    && (length payload == 8 + payload_path_len payload)
    && no_nul (payload_path payload)

-- What the poll loop does with the table: an expiry, with the time and the statuses that it sees, or a
-- request of the browser.
pub data BrowserRequest : Type 0 where
  expire : ℕ → (ℕ → Option Status) → BrowserRequest
  offer : ℕ → (ℕ → ℕ) → Proposal → BrowserRequest
  get_offer dismiss : ℕ → ℕ → BrowserRequest
  confirm : ℕ → Bytes → BrowserRequest

module _ {ℓ} {Server : Type ℓ}
    (reserve_download : Bytes → Bytes → Bytes → Server → ℕ × Server) where
  -- What BROWSER_CONFIRM does with the offer that it names: the id of the download, the server, and the
  -- offer's slot.
  unfoldable pub confirm_slot : ℕ → Bytes → Slot → Server → ℕ × Server × Slot
  confirm_slot now dest s server = elim s.offer.state [
    | confirmed ↦ (s.offer.download_id, server, s)
    | dismissed ↦ (0, server, s)
    | waiting ↦
        let (id, server') =
          reserve_download s.offer.proposal.url dest s.offer.proposal.referrer server in
        if id == 0 then (0, server', s) else (
          id,
          server',
          record {
            offer = record s.offer { download_id = id; state = confirmed };
            touched_at = now;
          },
        )
  ]

  -- The answer, the server and the table for a payload that passed the tests.
  unfoldable pub confirm_offer : ℕ → ℕ → Bytes → Table → Server → ℕ × Server × Table
  unfolding browser_find_offer confirm_slot
  confirm_offer now id dest table server = elim (browser_find_offer id table) [
    | none ↦ (0, server, table)
    | some i ↦
        let (answer, server', s) = confirm_slot now dest (slot table i) server in
        (answer, server', set table i s)
  ]

  -- BROWSER_CONFIRM.
  unfoldable pub handle_confirm : ℕ → Bytes → Table → Server → ℕ × Server × Table
  unfolding confirm_offer
  handle_confirm now payload table server =
      if payload_ok payload
      then confirm_offer now (payload_offer_id payload) (payload_path payload) table server
      else (0, server, table)

  unfoldable pub serve : BrowserRequest → Table → Server → Server × Table
  unfolding browser_expire_offers handle_offer handle_get_offer handle_dismiss handle_confirm
  serve (expire now status) table server = (server, browser_expire_offers now status table)
  serve (offer now random p) table server = (server, (handle_offer now random p table).1)
  serve (get_offer now id) table server = (server, (handle_get_offer now id table).1)
  serve (dismiss now id) table server = (server, (handle_dismiss now id table).1)
  serve (confirm now payload) table server =
      let (answer, server', table') = handle_confirm now payload table server in (server', table')

  unfoldable pub serve_all : List BrowserRequest → Table → Server → Server × Table
  unfolding serve
  serve_all [] table server = (server, table)
  serve_all (r ∷ rs) table server =
      let (server', table') = serve r table server in serve_all rs table' server'
