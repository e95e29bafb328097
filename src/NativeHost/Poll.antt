-- ===== src/NativeHost/Poll.antt =====
-- src/native_host/main_host.c: `send_state` and `poll_offers`.
use cdm.Prelude.{
  ℕ, Bool, true, false, not, ◌&&◌, ◌||◌, Option, none, some, List, [], ◌∷◌, ◌++◌, Bytes, bytes_eq,
  take, ◌==◌, if◌then◌else◌, codes,
}
use cdm.Ipc.Offers.{OfferState, waiting, confirmed, dismissed, Offer}
use cdm.NativeHost.Offers.{HostOffer, free_place, Progress, Message, refuses, reports, is_free}

abbrev pub state_name : OfferState → Bytes
state_name waiting = codes "waiting"
state_name confirmed = codes "confirmed"
state_name dismissed = codes "dismissed"

unfoldable pub reported_name : OfferState → Option Progress → Bytes
reported_name state none = state_name state
reported_name state (some p) =
    if bytes_eq p.status (codes "DONE")
    then codes "complete"
    else if bytes_eq p.status (codes "ERROR") || bytes_eq p.status (codes "CANCELED")
    then codes "error"
    else if bytes_eq p.status (codes "ACTIVE")
    then codes "started"
    else state_name state

abbrev pub state_message : Offer → Option Progress → Message
unfolding reported_name
state_message o p = reports o (reported_name o.state p) p

-- What a round meets: whether the daemon is reached, its answers for an offer's id, and for a download's
-- id where that connection stands, and whether the browser takes a message.
pub record PollWorld : Type 0 where
  pub connects : Bool
  pub offer_now : ℕ → Option Offer
  pub progress_now : ℕ → Option Progress
  pub takes : Message → Bool

-- `ok`, the place, and the messages.
pub record Polled : Type 0 where
  pub ok : Bool
  pub place : HostOffer
  pub sent : List Message

abbrev pub same_state : OfferState → OfferState → Bool
same_state waiting waiting = true
same_state confirmed confirmed = true
same_state dismissed dismissed = true
same_state _ _ = false

abbrev pub is_over : Bytes → Bool
is_over status =
    bytes_eq status (codes "DONE")
    || (bytes_eq status (codes "CANCELED") || bytes_eq status (codes "ERROR"))

-- The report of a download's progress, where something is new.
unfoldable pub poll_progress : PollWorld → Offer → Progress → Polled → Polled
unfolding reported_name
poll_progress w current p before =
    let message = state_message current (some p) in
    let place = before.place in
    let told =
      if not (p.bytes_received == place.reported_bytes)
        || not (bytes_eq p.status place.reported_status)
      then record {
        ok = w.takes message;
        place = record place {
          reported_bytes = p.bytes_received;
          reported_status = take 23 p.status;
        };
        sent = before.sent ++ (message ∷ []);
      }
      else before in
    if is_over p.status then record told { place = free_place } else told

-- The download of a confirmed offer.
unfoldable pub poll_download : PollWorld → Offer → Option Progress → Polled → Polled
unfolding poll_progress
poll_download w current none told = told
poll_download w current (some p) told = poll_progress w current p told

-- What follows the report of the offer's state.
unfoldable pub poll_state : PollWorld → Offer → OfferState → Polled → Polled
unfolding poll_download
poll_state w current waiting told = told
poll_state w current dismissed told = record told { place = free_place }
poll_state w current confirmed told =
    if current.download_id == 0
    then told
    else poll_download w current (w.progress_now current.download_id) told

-- The report of the offer's state, where it is new.
unfoldable pub report_state : PollWorld → Offer → HostOffer → Polled
unfolding reported_name
report_state w current s =
    let message = state_message current none in
    let place = record s { offer = current; reported_state = current.state } in
    if same_state current.state s.reported_state
    then record { ok = true; place = place; sent = [] }
    else record { ok = w.takes message; place = place; sent = message ∷ [] }

unfoldable pub poll_answer : PollWorld → HostOffer → Option Offer → Polled
unfolding poll_state report_state
poll_answer w s none =
    let expired = refuses s.offer.proposal.request_id (codes "download offer expired") in
    record { ok = w.takes expired; place = free_place; sent = expired ∷ [] }
poll_answer w s (some current) = poll_state w current current.state (report_state w current s)

-- The body of the loop for a place.
unfoldable pub poll_place : PollWorld → HostOffer → Polled
unfolding poll_answer
poll_place w s =
    if is_free s
    then record { ok = true; place = s; sent = [] }
    else poll_answer w s (w.offer_now s.offer.offer_id)

-- The loop stops behind the first place whose message is not taken.
unfoldable pub poll_loop : PollWorld → List HostOffer → Bool × List HostOffer × List Message
unfolding poll_place
poll_loop w [] = (true, [], [])
poll_loop w (s ∷ ss) =
    let r = poll_place w s in
    let (ok, rest, sent) = poll_loop w ss in
    if r.ok then (ok, r.place ∷ rest, r.sent ++ sent) else (false, r.place ∷ ss, r.sent)

abbrev pub disconnected : HostOffer → Message
disconnected s = refuses s.offer.proposal.request_id (codes "cdm daemon disconnected")

-- Every offer is told that the daemon is gone, and forgotten.
unfoldable pub forget_loop : PollWorld → List HostOffer → Bool × List HostOffer × List Message
forget_loop w [] = (true, [], [])
forget_loop w (s ∷ ss) =
    let (ok, rest, sent) = forget_loop w ss in
    if is_free s
    then (ok, s ∷ rest, sent)
    else (w.takes (disconnected s) && ok, free_place ∷ rest, disconnected s ∷ sent)

abbrev pub all_free : List HostOffer → Bool
all_free [] = true
all_free (s ∷ ss) = is_free s && all_free ss

unfoldable pub poll_offers : PollWorld → List HostOffer → Bool × List HostOffer × List Message
unfolding poll_loop forget_loop
poll_offers w slots =
    if all_free slots
    then (true, slots, [])
    else if w.connects
    then poll_loop w slots
    else forget_loop w slots
