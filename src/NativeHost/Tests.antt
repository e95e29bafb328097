-- ===== src/NativeHost/Tests.antt =====
-- Runs of the code of src/native_host/main_host.c at concrete inputs.
use cdm.Prelude.{◌≡◌, refl, true, some, List, [], ◌∷◌, ◌++◌, Bytes, arith, codes}
use cdm.Ipc.Offers.{confirmed, no_offer, no_proposal, Offer, Proposal}
use cdm.NativeHost.{frame, malformed, native_read, native_send}
use cdm.NativeHost.Offers.{HostOffer, free_place, Surroundings, find_offer_slot, handle_offered}
use cdm.NativeHost.Poll.{PollWorld, poll_offers}
use cdm.NativeHost.Framed.{native_read-native_send}
use cdm.NativeHost.Followed.{AllFollow, poll_offers-AllFollow}
use cdm.NativeHost.Again.{handle_offered-again}

-- A frame that ends early, and one of length 0.
cut_short : native_read true (5 ∷ 0 ∷ 0 ∷ 0 ∷ 65 ∷ []) ≡ (malformed, [])
unfolding native_read
cut_short = refl

no_length : native_read true (0 ∷ 0 ∷ 0 ∷ 0 ∷ 65 ∷ []) ≡ (malformed, 65 ∷ [])
unfolding native_read
no_length = refl

native_read-native_send_example :
    (bytes : Bytes) × (native_send (codes "{}") ≡ some bytes)
    × (native_read true (bytes ++ (9 ∷ [])) ≡ (frame (codes "{}"), 9 ∷ []))
native_read-native_send_example =
    native_read-native_send (codes "{}") (9 ∷ []) (omega arith) (omega arith) refl

abbrev page : Proposal
page = record no_proposal { request_id = codes "r1"; url = codes "http://h/f" }

abbrev page_offer : Offer
page_offer = record no_offer { offer_id = 7; proposal = page }

abbrev calm : Surroundings
calm = record {
  daemon_runs = true;
  connects = true;
  offered = λ p. some page_offer;
  popup_found = true;
  spawns = λ id. true;
  takes = λ m. true;
}

abbrev two_places : List HostOffer
two_places = free_place ∷ free_place ∷ []

-- The popup is started for the first of the two messages.
launched_once : (handle_offered calm page two_places).launched ≡ 7 ∷ []
unfolding handle_offered
launched_once = refl

two_places-find : find_offer_slot page.request_id two_places ≡ some 0
unfolding find_offer_slot
two_places-find = refl

handle_offered-again_example :
    ((handle_offered calm page (handle_offered calm page two_places).slots).slots
      ≡ (handle_offered calm page two_places).slots)
    × ((handle_offered calm page (handle_offered calm page two_places).slots).launched ≡ [])
handle_offered-again_example =
    handle_offered-again calm calm page 0 page_offer two_places two_places-find refl refl refl refl
      refl refl (λ e. ground arith) refl

abbrev followed : List HostOffer
followed = record free_place { offer = page_offer } ∷ free_place ∷ []

abbrev progressing : PollWorld
progressing = record {
  connects = true;
  offer_now = λ id. some (record page_offer { state = confirmed; download_id = 3 });
  progress_now = λ id. some (record {
    bytes_received = 5;
    total_bytes = 9;
    progress = 0;
    status = codes "ACTIVE";
    error = [];
  });
  takes = λ m. true;
}

progressing_ok : (poll_offers progressing followed).0 ≡ true
unfolding poll_offers
progressing_ok = refl

poll_offers-AllFollow_example : AllFollow progressing followed (poll_offers progressing followed).1
poll_offers-AllFollow_example = poll_offers-AllFollow progressing followed progressing_ok
