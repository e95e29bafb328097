-- ===== src/Ipc/Keeps.antt =====
-- src/platform/ipc_socket.c: every request of the browser keeps the table of offers valid.
use cdm.Prelude.{
  ℕ, zero, suc, ◌≡◌, ◌≢◌, ◌⊎◌, refl, sym, some, List, [], ◌∷◌, Bytes, Option-cases, Bool-cases,
  bytes_eq, ◌==◌, set, inl, inr, arith,
}
use cdm.Ipc.Offers.{
  OfferState, waiting, confirmed, dismissed, Proposal, Slot, Table, slot, new_slot,
  browser_find_offer, browser_find_request, find_free, draw_id, id_attempts, register_offer,
  handle_offer, handle_get_offer, dismiss_slot, handle_dismiss, confirm_slot, confirm_offer,
  handle_confirm, payload_ok, payload_offer_id, payload_path, browser_expire_offers, BrowserRequest,
  expire, offer, get_offer, dismiss, confirm, serve, serve_all,
}
use cdm.Ipc.Catalog.{
  browser_expire_offers-Valid, id_at, Valid, SlotSettled, Valid-set, IsFresh, IsFresh-same,
  find_from-some, browser_find_offer-some, browser_find_offer-none,
}

-- A drawn id that is not 0 belongs to no offer.
draw_id-fresh :
    (left : ℕ) (random : ℕ → ℕ) (table : Table)
    → draw_id left random table ≢ 0
    → (j : ℕ) → id_at table j ≢ draw_id left random table
unfolding draw_id
draw_id-fresh zero random table h = absurd (h refl)
draw_id-fresh (suc left) random table h =
    elim (Option-cases (browser_find_offer (random left) table)) [
      | inl e ↦ elim (Bool-cases (random left == 0)) [
        | inl z ↦
            let h' = rw (draw_id, e, z) at h in
            rw (draw_id, e, z) (draw_id-fresh left random table h')
        | inr nz ↦
            rw (draw_id, e, nz) (browser_find_offer-none (random left) table (ground arith) e)
      ]
      | inr e ↦
          let h' = rw (draw_id, e.1) at h in rw (draw_id, e.1) (draw_id-fresh left random table h')
    ]

-- The write of a slot that was found, by a change that keeps its id.
found-Valid :
    (table : Table) (i id : ℕ) (s : Slot)
    → Valid table
    → browser_find_offer id table ≡ some i
    → s.offer.offer_id ≡ id_at table i
    → SlotSettled s
    → Valid (set table i s)
found-Valid table i id s v e same h =
    let (at, nz, b) = browser_find_offer-some id table i e in
    Valid-set table i s v b (IsFresh-same table i s v same) h

handle_get_offer-Valid :
    (now id : ℕ) (table : Table) → Valid table → Valid (handle_get_offer now id table).1
unfolding handle_get_offer
handle_get_offer-Valid now id table v = elim (Option-cases (browser_find_offer id table)) [
  | inl e ↦ rw (handle_get_offer, e) v
  | inr (i, e) ↦
      rw (handle_get_offer, e)
        (found-Valid table i id (record (slot table i) { touched_at = now }) v e refl (v.settled i))
]

pub OfferState-cases : (x : OfferState) → (x ≡ waiting) ⊎ ((x ≡ confirmed) ⊎ (x ≡ dismissed))
OfferState-cases waiting = inl refl
OfferState-cases confirmed = inr (inl refl)
OfferState-cases dismissed = inr (inr refl)

dismiss_slot-keeps :
    (now : ℕ) (s : Slot)
    → SlotSettled s
    → ((dismiss_slot now s).1.offer.offer_id ≡ s.offer.offer_id)
      × SlotSettled (dismiss_slot now s).1
unfolding dismiss_slot
dismiss_slot-keeps now s h = elim (OfferState-cases s.offer.state) [
  | inl e ↦ let h' = rw e at h in rw (dismiss_slot, e) (refl, h')
  | inr (inl e) ↦ rw (dismiss_slot, e) (refl, h)
  | inr (inr e) ↦ rw (dismiss_slot, e) (refl, h)
]

handle_dismiss-Valid :
    (now id : ℕ) (table : Table) → Valid table → Valid (handle_dismiss now id table).1
unfolding handle_dismiss
handle_dismiss-Valid now id table v = elim (Option-cases (browser_find_offer id table)) [
  | inl e ↦ rw (handle_dismiss, e) v
  | inr (i, e) ↦
      let (same, h) = dismiss_slot-keeps now (slot table i) (v.settled i) in
      rw (handle_dismiss, e) (found-Valid table i id (dismiss_slot now (slot table i)).1 v e same h)
]

register_offer-Valid :
    (now : ℕ) (random : ℕ → ℕ) (p : Proposal) (table : Table)
    → Valid table
    → Valid (register_offer now random p table).1
unfolding register_offer
register_offer-Valid now random p table v = elim (Option-cases (find_free table)) [
  | inl e ↦ rw (register_offer, e) v
  | inr (i, e) ↦
      let id : ℕ = draw_id id_attempts random table in
      elim (Bool-cases (id == 0)) [
        | inl z ↦ rw (register_offer, e, z) v
        | inr nz ↦
            let (j, at, b, found) = find_from-some (λ s. s.offer.offer_id == 0) 0 table i e in
            let fresh : IsFresh table i (new_slot id now p) =
              λ k d n same. draw_id-fresh id_attempts random table n k (sym same) in
            rw (register_offer, e, nz)
              (Valid-set table i (new_slot id now p) v (omega arith) fresh refl)
      ]
]

handle_offer-Valid :
    (now : ℕ) (random : ℕ → ℕ) (p : Proposal) (table : Table)
    → Valid table
    → Valid (handle_offer now random p table).1
unfolding handle_offer
handle_offer-Valid now random p table v =
    elim (Option-cases (browser_find_request p.request_id table)) [
      | inl e ↦ rw (handle_offer, e) (register_offer-Valid now random p table v)
      | inr (i, e) ↦ elim (Bool-cases (bytes_eq (slot table i).offer.proposal.url p.url)) [
        | inl same ↦ rw (handle_offer, e, same) v
        | inr other ↦ rw (handle_offer, e, other) v
      ]
    ]

module _ {ℓ} {Server : Type ℓ}
    (reserve_download : Bytes → Bytes → Bytes → Server → ℕ × Server) where
  confirm_slot-keeps :
      (now : ℕ) (dest : Bytes) (s : Slot) (server : Server)
      → SlotSettled s
      → ((confirm_slot reserve_download now dest s server).2.offer.offer_id ≡ s.offer.offer_id)
        × SlotSettled (confirm_slot reserve_download now dest s server).2
  unfolding confirm_slot
  confirm_slot-keeps now dest s server h = elim (OfferState-cases s.offer.state) [
    | inl e ↦
        let id : ℕ =
          (reserve_download s.offer.proposal.url dest s.offer.proposal.referrer server).0 in
        elim (Bool-cases (id == 0)) [
          | inl z ↦ rw (confirm_slot, e, z) (refl, h)
          | inr nz ↦ let nonzero : id ≢ 0 = ground arith in rw (confirm_slot, e, nz) (refl, nonzero)
        ]
    | inr (inl e) ↦ rw (confirm_slot, e) (refl, h)
    | inr (inr e) ↦ rw (confirm_slot, e) (refl, h)
  ]

  confirm_offer-Valid :
      (now id : ℕ) (dest : Bytes) (table : Table) (server : Server)
      → Valid table
      → Valid (confirm_offer reserve_download now id dest table server).2
  unfolding confirm_offer
  confirm_offer-Valid now id dest table server v =
      elim (Option-cases (browser_find_offer id table)) [
        | inl e ↦ rw (confirm_offer, e) v
        | inr (i, e) ↦
            let (same, h) = confirm_slot-keeps now dest (slot table i) server (v.settled i) in
            rw (confirm_offer, e)
              (found-Valid table i id
                (confirm_slot reserve_download now dest (slot table i) server).2 v e same h)
      ]

  handle_confirm-Valid :
      (now : ℕ) (payload : Bytes) (table : Table) (server : Server)
      → Valid table
      → Valid (handle_confirm reserve_download now payload table server).2
  unfolding handle_confirm
  handle_confirm-Valid now payload table server v = elim (Bool-cases (payload_ok payload)) [
    | inl e ↦
        rw (handle_confirm, e)
          (confirm_offer-Valid now (payload_offer_id payload) (payload_path payload) table server v)
    | inr e ↦ rw (handle_confirm, e) v
  ]

  -- Every sequence of requests and expiries that starts from a valid table, the empty one for
  -- instance, ends in a valid one.
  pub serve_all-Valid :
      (requests : List BrowserRequest) (table : Table) (server : Server)
      → Valid table
      → Valid (serve_all reserve_download requests table server).1
  unfolding serve_all serve
  serve_all-Valid [] table server v = v
  serve_all-Valid (expire now status ∷ rs) table server v =
      serve_all-Valid rs (browser_expire_offers now status table) server
        (browser_expire_offers-Valid now status table v)
  serve_all-Valid (offer now random p ∷ rs) table server v =
      serve_all-Valid rs (handle_offer now random p table).1 server
        (handle_offer-Valid now random p table v)
  serve_all-Valid (get_offer now id ∷ rs) table server v =
      serve_all-Valid rs (handle_get_offer now id table).1 server
        (handle_get_offer-Valid now id table v)
  serve_all-Valid (dismiss now id ∷ rs) table server v =
      serve_all-Valid rs (handle_dismiss now id table).1 server
        (handle_dismiss-Valid now id table v)
  serve_all-Valid (confirm now payload ∷ rs) table server v =
      let r = handle_confirm reserve_download now payload table server in
      serve_all-Valid rs r.2 r.1 (handle_confirm-Valid now payload table server v)
