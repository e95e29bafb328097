-- ===== src/NativeHost/Again.antt =====
-- src/native_host/main_host.c: an offer that the browser sends again.
use cdm.Prelude.{
  ℕ, ◌+◌, ◌<◌, ◌≡◌, ◌≢◌, inl, inr, refl, sym, ap, ◌∙◌, true, false, not, ◌&&◌, some, List, [],
  Bytes, bytes_eq, length, get_or, set, arith, ◌==◌, Bool-cases, Option-cases, get_or-set_self,
}
use cdm.Prelude.Find.{
  find_from, find_from-lt, find_from-set_found, find_from-set_new, set-set, bytes_eq_self,
}
use cdm.Ipc.Offers.{Proposal, Offer}
use cdm.NativeHost.Offers.{
  registers, HostOffer, free_place, is_free, follows, find_offer_slot, Surroundings, Handled,
  is_waiting, launch_popup, registered_place, register, handle_offered,
}

-- A free place, or the one that follows the request, is found again once it follows the request.
find_offer_slot-set :
    (request_id : Bytes) (i : ℕ) (ss : List HostOffer) (s : HostOffer)
    → find_offer_slot request_id ss ≡ some i
    → follows request_id s ≡ true
    → (find_offer_slot request_id (set ss i s) ≡ some i) × (i < length ss)
unfolding find_offer_slot
find_offer_slot-set request_id i ss s e h =
    let zero_add : 0 + i ≡ i = omega arith in
    elim (Option-cases (find_from (follows request_id) 0 ss)) [
      | inl n ↦
          let free : find_from is_free 0 ss ≡ some i = rw (find_offer_slot, n) at e in
          let (_, inside) = find_from-lt is_free 0 i ss free in
          let at : find_from (follows request_id) 0 (set ss i s) ≡ some i =
            find_from-set_new (follows request_id) 0 ss i s n (omega arith) h ∙ ap some zero_add in
          (rw (find_offer_slot, at) refl, omega arith)
      | inr (j, f) ↦
          let same : some j ≡ some i = rw (find_offer_slot, f) at e in
          let found : find_from (follows request_id) 0 ss ≡ some i = f ∙ same in
          let (_, inside) = find_from-lt (follows request_id) 0 i ss found in
          let at : find_from (follows request_id) 0 (set ss i s) ≡ some i =
            find_from-set_found (follows request_id) 0 ss i s (found ∙ ap some (sym zero_add)) h
            ∙ ap some zero_add in
          (rw (find_offer_slot, at) refl, omega arith)
    ]

launch_popup-slots :
    (w : Surroundings) (request_id : Bytes) (o : Offer) (ss : List HostOffer)
    → (launch_popup w request_id o ss).slots ≡ ss
unfolding launch_popup
launch_popup-slots w request_id o ss = elim (Bool-cases w.popup_found) [
  | inr f ↦ rw f refl
  | inl f ↦ elim (Bool-cases (w.spawns o.offer_id)) [
    | inl s ↦ rw (f, s) refl
    | inr s ↦ rw (f, s) refl
  ]
]

register-slots :
    (w : Surroundings) (request_id : Bytes) (i : ℕ) (o : Offer) (ss : List HostOffer)
    → (register w request_id i o ss).slots ≡ set ss i (registered_place o)
unfolding register
register-slots w request_id i o ss = elim (Bool-cases (w.takes (registers o))) [
  | inr t ↦ rw t refl
  | inl t ↦
      elim (Bool-cases
        (not ((get_or ss i free_place).offer.offer_id == o.offer_id) && is_waiting o.state)) [
          | inl l ↦ rw (t, l) (launch_popup-slots w request_id o (set ss i (registered_place o)))
          | inr l ↦ rw (t, l) refl
        ]
]

register-again :
    (w : Surroundings) (request_id : Bytes) (i : ℕ) (o : Offer) (ss : List HostOffer)
    → (get_or ss i free_place).offer.offer_id ≡ o.offer_id
    → (register w request_id i o ss).launched ≡ []
unfolding register
register-again w request_id i o ss e =
    let same : ((get_or ss i free_place).offer.offer_id == o.offer_id) ≡ true = ground arith in
    elim (Bool-cases (w.takes (registers o))) [ inl t ↦ rw (t, same) refl | inr t ↦ rw t refl ]

handled :
    (w : Surroundings) (p : Proposal) (i : ℕ) (o : Offer) (ss : List HostOffer)
    → find_offer_slot p.request_id ss ≡ some i
    → w.daemon_runs ≡ true
    → w.connects ≡ true
    → w.offered p ≡ some o
    → handle_offered w p ss ≡ register w p.request_id i o ss
unfolding handle_offered
handled w p i o ss at runs connects answer = rw (handle_offered, at, runs, connects, answer) refl

-- Where the host has a place for an offer and the daemon answers with one for the same request, whose id
-- is not 0: when the browser sends the offer again and the daemon answers the same, the places stay as
-- they are and no second popup is started.
pub handle_offered-again :
    (w w' : Surroundings) (p : Proposal) (i : ℕ) (o : Offer) (ss : List HostOffer)
    → find_offer_slot p.request_id ss ≡ some i
    → w.daemon_runs ≡ true
    → w.connects ≡ true
    → w.offered p ≡ some o
    → w'.daemon_runs ≡ true
    → w'.connects ≡ true
    → w'.offered p ≡ some o
    → o.offer_id ≢ 0
    → o.proposal.request_id ≡ p.request_id
    → ((handle_offered w' p (handle_offered w p ss).slots).slots ≡ (handle_offered w p ss).slots)
      × ((handle_offered w' p (handle_offered w p ss).slots).launched ≡ [])
handle_offered-again w w' p i o ss at runs connects answer runs' connects' answer' nonzero same =
    let place = registered_place o in
    let taken : (o.offer_id == 0) ≡ false = ground arith in
    let mine : bytes_eq o.proposal.request_id p.request_id ≡ true =
      rw same (bytes_eq_self p.request_id) in
    let ours : follows p.request_id place ≡ true = rw (taken, mine) refl in
    let (again, inside) = find_offer_slot-set p.request_id i ss place at ours in
    let first : (handle_offered w p ss).slots ≡ set ss i place =
      ap (λ (h : Handled). h.slots) (handled w p i o ss at runs connects answer)
      ∙ register-slots w p.request_id i o ss in
    let second : handle_offered w' p (set ss i place)
        ≡ register w' p.request_id i o (set ss i place) =
      handled w' p i o (set ss i place) again runs' connects' answer' in
    let there : (get_or (set ss i place) i free_place).offer.offer_id ≡ o.offer_id =
      ap (λ (h : HostOffer). h.offer.offer_id) (get_or-set_self ss i place free_place inside) in
    rw first (
      ap (λ (h : Handled). h.slots) second
          ∙ register-slots w' p.request_id i o (set ss i place)
          ∙ set-set ss i place,
      ap (λ (h : Handled). h.launched) second
          ∙ register-again w' p.request_id i o (set ss i place) there,
    )
