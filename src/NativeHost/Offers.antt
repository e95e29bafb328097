-- ===== src/NativeHost/Offers.antt =====
-- src/native_host/main_host.c: the offers that the host follows, a message of the browser, and a round
-- of the poll. What goes wrong outside is an argument; `sent` are the messages to the browser.
use cdm.Prelude.{
  ℕ, Bool, true, false, not, ◌&&◌, Option, none, some, List, [], ◌∷◌, ◌++◌, Bytes, bytes_eq, get_or,
  set, ◌==◌, if◌then◌else◌, codes,
}
use cdm.Prelude.Find.{find_from}
use cdm.Ipc.Offers.{OfferState, waiting, confirmed, dismissed, Proposal, Offer, no_offer}
use cdm.NativeHost.{Root, Field, text, number, other, parse_offer}

-- The place is free when its offer's id is 0.
pub record HostOffer : Type 0 where
  pub offer : Offer
  pub reported_state : OfferState
  pub reported_bytes : ℕ
  pub reported_status : Bytes

abbrev pub host_max_offers : ℕ
host_max_offers = 64

abbrev pub free_place : HostOffer
free_place = record {
  offer = no_offer;
  reported_state = waiting;
  reported_bytes = 0;
  reported_status = [];
}

-- IpcBrowserProgress, less its path and its id.
pub record Progress : Type 0 where
  pub bytes_received : ℕ
  pub total_bytes : ℕ
  pub progress : ℕ
  pub status : Bytes
  pub error : Bytes

-- The messages `error`, `offer_registered` and `offer_state`.
pub data Message : Type 0 where
  refuses : Bytes → Bytes → Message
  registers : Offer → Message
  reports : Offer → Bytes → Option Progress → Message

abbrev pub is_free : HostOffer → Bool
is_free s = s.offer.offer_id == 0

abbrev pub follows : Bytes → HostOffer → Bool
follows request_id s =
    not (s.offer.offer_id == 0) && bytes_eq s.offer.proposal.request_id request_id

unfoldable pub find_offer_slot : Bytes → List HostOffer → Option ℕ
find_offer_slot request_id slots = elim (find_from (follows request_id) 0 slots) [
  | some i ↦ some i
  | none ↦ find_from is_free 0 slots
]

-- What a message meets: whether the daemon runs, whether it is reached, what it answers, whether the
-- popup's program is found and started, and whether the browser takes a message.
pub record Surroundings : Type 0 where
  pub daemon_runs : Bool
  pub connects : Bool
  pub offered : Proposal → Option Offer
  pub popup_found : Bool
  pub spawns : ℕ → Bool
  pub takes : Message → Bool

-- `launched` are the offers that a popup was started for.
pub record Handled : Type 0 where
  pub ok : Bool
  pub slots : List HostOffer
  pub sent : List Message
  pub launched : List ℕ

-- `send_error`, and the end.
abbrev pub fails : Surroundings → Bytes → Bytes → List HostOffer → List Message → Handled
fails w request_id message slots sent = record {
  ok = w.takes (refuses request_id message);
  slots = slots;
  sent = sent ++ (refuses request_id message ∷ []);
  launched = [];
}

abbrev pub is_waiting : OfferState → Bool
is_waiting waiting = true
is_waiting confirmed = false
is_waiting dismissed = false

-- The popup of an offer that is new to the place.
unfoldable pub launch_popup : Surroundings → Bytes → Offer → List HostOffer → Handled
launch_popup w request_id o slots =
    if not w.popup_found
    then fails w request_id (codes "cannot locate cdm popup binary") slots (registers o ∷ [])
    else if not (w.spawns o.offer_id)
    then fails w request_id (codes "could not launch cdm popup") slots (registers o ∷ [])
    else record { ok = true; slots = slots; sent = registers o ∷ []; launched = o.offer_id ∷ [] }

abbrev pub registered_place : Offer → HostOffer
registered_place o = record {
  offer = o;
  reported_state = o.state;
  reported_bytes = 0;
  reported_status = [];
}

-- The daemon has answered with the offer `o`.
unfoldable pub register : Surroundings → Bytes → ℕ → Offer → List HostOffer → Handled
unfolding launch_popup
register w request_id i o slots =
    let slots' = set slots i (registered_place o) in
    let launch =
      not ((get_or slots i free_place).offer.offer_id == o.offer_id) && is_waiting o.state in
    if not (w.takes (registers o))
    then record { ok = false; slots = slots'; sent = registers o ∷ []; launched = [] }
    else if launch
    then launch_popup w request_id o slots'
    else record { ok = true; slots = slots'; sent = registers o ∷ []; launched = [] }

unfoldable pub handle_offered : Surroundings → Proposal → List HostOffer → Handled
unfolding find_offer_slot register
handle_offered w p slots = elim (find_offer_slot p.request_id slots) [
  | none ↦ fails w p.request_id (codes "too many pending downloads") slots []
  | some i ↦
      if not w.daemon_runs
      then fails w p.request_id (codes "cdm daemon could not start") slots []
      else if not w.connects
      then fails w p.request_id (codes "cdm daemon is unavailable") slots []
      else elim (w.offered p) [
        | none ↦ fails w p.request_id (codes "daemon rejected download offer") slots []
        | some o ↦ register w p.request_id i o slots
      ]
]

abbrev pub text_or_empty : Option Field → Bytes
text_or_empty none = []
text_or_empty (some (text t)) = t
text_or_empty (some (number _ _ _)) = []
text_or_empty (some other) = []

-- `root` is what cJSON_Parse makes of the frame.
unfoldable pub handle_message : Surroundings → Option Root → List HostOffer → Handled
unfolding handle_offered parse_offer
handle_message w none slots = fails w [] (codes "invalid JSON") slots []
handle_message w (some root) slots = elim (parse_offer root) [
  | none ↦
      fails w (text_or_empty (root (codes "request_id")))
        (codes "invalid or unsupported download offer") slots []
  | some p ↦ handle_offered w p slots
]
