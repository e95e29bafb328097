-- ===== src/Ipc/Again.antt =====
-- src/platform/ipc_socket.c: a request of the browser that is sent again.
use cdm.Prelude.{
  ℕ, zero, suc, ◌≤◌, ◌⊎◌, Bool, false, Option, List, [], ◌∷◌, All, leb, map, subst, ◌+◌, ◌<◌, ◌≡◌,
  ◌≢◌, refl, sym, ap, ◌∙◌, true, not, ◌&&◌, none, some, Bytes, Option-cases, Bool-cases, bytes_eq,
  ◌==◌, set, length, inl, inr, arith, get_or-set_self,
}
use cdm.Prelude.Find.{
  bytes_eq_self, find_from, find_from-lt, find_from-set_found, find_from-set_new, set-set,
}
use cdm.Download.{Status}
use cdm.Ipc.{IpcResult, ok}
use cdm.Ipc.Offers.{
  confirmed, dismissed, Proposal, Offer, Slot, Table, slot, empty_slot, new_slot,
  browser_find_offer, browser_find_request, find_free, draw_id, id_attempts, register_offer,
  handle_offer, expire_slot, browser_expire_offers, browser_offer_ttl_seconds, is_running,
  is_confirmed, confirm_slot, confirm_offer, handle_dismiss, dismiss_slot,
}
use cdm.Ipc.Catalog.{find_from-some, browser_find_offer-some}
use cdm.Ipc.Keeps.{OfferState-cases}

browser_find_offer-set :
    (id : ℕ) (table : Table) (i : ℕ) (s : Slot)
    → browser_find_offer id table ≡ some i
    → s.offer.offer_id ≡ id
    → browser_find_offer id (set table i s) ≡ some i
unfolding browser_find_offer
browser_find_offer-set id table i s e h =
    let nz : id ≢ 0 = (browser_find_offer-some id table i e).1 in
    let zero_add : 0 + i ≡ i = omega arith in
    let test : (not (id == 0) && (s.offer.offer_id == id)) ≡ true = ground arith in
    let at : find_from (λ s. not (id == 0) && (s.offer.offer_id == id)) 0 table ≡ some (0 + i) =
      e ∙ ap some (sym zero_add) in
    find_from-set_found (λ s. not (id == 0) && (s.offer.offer_id == id)) 0 table i s at test
    ∙ ap some zero_add

dismiss_slot-ok :
    (now : ℕ) (s : Slot)
    → (dismiss_slot now s).0 ≡ ok
    → ((dismiss_slot now s).1.offer.state ≡ dismissed)
      × ((dismiss_slot now s).1.offer.offer_id ≡ s.offer.offer_id)
unfolding dismiss_slot
dismiss_slot-ok now s h = elim (OfferState-cases s.offer.state) [
  | inl e ↦ rw (dismiss_slot, e) (refl, refl)
  | inr (inl e) ↦ absurd (let h' = rw (dismiss_slot, e) at h in ground arith)
  | inr (inr e) ↦
      let same : dismiss_slot now s ≡ (ok, s) = simp (dismiss_slot, e) refl in rw same (e, refl)
]

-- The slot outlives an expiry.
abbrev pub Lives : ℕ → (ℕ → Option Status) → Slot → Type 0
Lives now status s =
    (now ≤ s.touched_at + browser_offer_ttl_seconds)
    ⊎ ((s.offer.state ≡ confirmed) × (is_running (status s.offer.download_id) ≡ true))

expire_slot-Lives :
    (now : ℕ) (status : ℕ → Option Status) (s : Slot)
    → Lives now status s
    → expire_slot now status s ≡ s
unfolding expire_slot
expire_slot-Lives now status s (inl young) = elim (Bool-cases (s.offer.offer_id == 0)) [
  | inl free ↦ rw free refl
  | inr taken ↦
      let yes : leb now (s.touched_at + browser_offer_ttl_seconds) ≡ true = ground arith in
      rw (taken, yes) refl
]
expire_slot-Lives now status s (inr (state, running)) = elim (Bool-cases (s.offer.offer_id == 0)) [
  | inl free ↦ rw free refl
  | inr taken ↦ elim (Bool-cases (leb now (s.touched_at + browser_offer_ttl_seconds))) [
    | inl young ↦ rw (taken, young) refl
    | inr old ↦
        let kept : (is_confirmed s.offer.state && is_running (status s.offer.download_id)) ≡ true =
          ground (arith, ap is_confirmed state) in
        rw (taken, old, kept) refl
  ]
]

-- An expiry leaves a slot as it is, or empties it.
expire_slot_cases :
    (now : ℕ) (status : ℕ → Option Status) (s : Slot)
    → (expire_slot now status s ≡ s) ⊎ (expire_slot now status s ≡ empty_slot)
unfolding expire_slot
expire_slot_cases now status s = elim (Bool-cases (s.offer.offer_id == 0)) [
  | inl free ↦ inl (rw free refl)
  | inr taken ↦ elim (Bool-cases (leb now (s.touched_at + browser_offer_ttl_seconds))) [
    | inl young ↦ inl (rw (taken, young) refl)
    | inr old ↦
        elim (Bool-cases (is_confirmed s.offer.state && is_running (status s.offer.download_id))) [
          | inl kept ↦ inl (rw (taken, old, kept) refl)
          | inr gone ↦ inr (rw (taken, old, gone) refl)
        ]
  ]
]

-- The first slot to pass a test that no empty slot passes is still the first after an expiry that it
-- outlives.
find_from-expired :
    (p : Slot → Bool) (now : ℕ) (status : ℕ → Option Status) (k : ℕ) (table : Table) (i : ℕ)
    → p empty_slot ≡ false
    → find_from p k table ≡ some (k + i)
    → Lives now status (slot table i)
    → find_from p k (map (expire_slot now status) table) ≡ some (k + i)
find_from-expired p now status k [] i none_empty e h = absurd (ground arith)
find_from-expired p now status k (s ∷ ss) zero none_empty e h =
    let here : k + 0 ≡ k = omega arith in
    elim (Bool-cases (p s)) [
      | inl hit ↦ rw (expire_slot-Lives now status s h, hit, here) refl
      | inr miss ↦
          let later : find_from p (suc k) ss ≡ some (k + 0) = rw miss at e in
          absurd (let (low, _) = find_from-lt p (suc k) (k + 0) ss later in omega arith)
    ]
find_from-expired p now status k (s ∷ ss) (suc i) none_empty e h = elim (Bool-cases (p s)) [
  | inl hit ↦ absurd (let here : some k ≡ some (k + suc i) = rw hit at e in ground (arith, here))
  | inr miss ↦
      let shift : k + suc i ≡ suc k + i = omega arith in
      let later : find_from p (suc k) ss ≡ some (suc k + i) = rw (miss, shift) at e in
      let rest = find_from-expired p now status (suc k) ss i none_empty later h in
      elim (expire_slot_cases now status s) [
        | inl same ↦ rw (same, miss, shift) rest
        | inr emptied ↦ rw (emptied, none_empty, shift) rest
      ]
]

slot-expired :
    (now : ℕ) (status : ℕ → Option Status) (table : Table) (i : ℕ)
    → Lives now status (slot table i)
    → slot (map (expire_slot now status) table) i ≡ slot table i
slot-expired now status [] i h = refl
slot-expired now status (s ∷ ss) zero h = expire_slot-Lives now status s h
slot-expired now status (s ∷ ss) (suc i) h = slot-expired now status ss i h

-- The expiries between two requests, each at a time and with the statuses that it sees.
abbrev pub Expiries : Type 0
Expiries = List (ℕ × (ℕ → Option Status))

abbrev pub aged : Expiries → Table → Table
aged [] table = table
aged ((now, status) ∷ es) table = aged es (browser_expire_offers now status table)

-- The slot outlives all of them.
abbrev pub Outlives : Expiries → Slot → Type 0
Outlives es s = All (λ (e : ℕ × (ℕ → Option Status)). Lives e.0 e.1 s) es

aged-find_from :
    (p : Slot → Bool) (es : Expiries) (table : Table) (i : ℕ)
    → p empty_slot ≡ false
    → find_from p 0 table ≡ some i
    → Outlives es (slot table i)
    → (find_from p 0 (aged es table) ≡ some i) × (slot (aged es table) i ≡ slot table i)
unfolding browser_expire_offers
aged-find_from p [] table i none_empty e h = (e, refl)
aged-find_from p ((now, status) ∷ es) table i none_empty e (lives, h) =
    let zero_add : 0 + i ≡ i = omega arith in
    let here = slot-expired now status table i lives in
    let found : find_from p 0 (map (expire_slot now status) table) ≡ some i =
      find_from-expired p now status 0 table i none_empty (e ∙ ap some (sym zero_add)) lives
      ∙ ap some zero_add in
    let (later, same) =
      aged-find_from p es (map (expire_slot now status) table) i none_empty found
        (subst (Outlives es) (sym here) h) in
    (later, same ∙ here)

set-slot : (table : Table) (i : ℕ) → set table i (slot table i) ≡ table
set-slot [] i = refl
set-slot (s ∷ ss) zero = refl
set-slot (s ∷ ss) (suc i) = ap (s ∷◌) (set-slot ss i)

module _ {ℓ} {Server : Type ℓ}
    (reserve_download : Bytes → Bytes → Bytes → Server → ℕ × Server) where
  -- The slot of an offer that was confirmed, when it is confirmed again.
  confirm_slot-again :
      (now now' : ℕ) (dest dest' : Bytes) (s : Slot) (server : Server)
      → let r = confirm_slot reserve_download now dest s server in
        r.0 ≢ 0
        → (confirm_slot reserve_download now' dest' r.2 r.1 ≡ r)
          × (r.2.offer.offer_id ≡ s.offer.offer_id)
  unfolding confirm_slot
  confirm_slot-again now now' dest dest' s server h = elim (OfferState-cases s.offer.state) [
    | inl e ↦
        let id : ℕ =
          (reserve_download s.offer.proposal.url dest s.offer.proposal.referrer server).0 in
        elim (Bool-cases (id == 0)) [
          | inl z ↦ absurd (let h' = rw (confirm_slot, e, z) at h in h' refl)
          | inr nz ↦
              let server' : Server =
                (reserve_download s.offer.proposal.url dest s.offer.proposal.referrer server).1 in
              let s' : Slot = record {
                offer = record s.offer { download_id = id; state = confirmed };
                touched_at = now;
              } in
              let made : confirm_slot reserve_download now dest s server ≡ (id, server', s') =
                rw (confirm_slot, e, nz) refl in
              rw made (refl, refl)
        ]
    | inr (inl e) ↦
        let same : confirm_slot reserve_download now dest s server
            ≡ (s.offer.download_id, server, s) =
          simp (confirm_slot, e) refl in
        let same' : confirm_slot reserve_download now' dest' s server
            ≡ (s.offer.download_id, server, s) =
          simp (confirm_slot, e) refl in
        rw (same, same') (refl, refl)
    | inr (inr e) ↦ absurd (let h' = rw (confirm_slot, e) at h in h' refl)
  ]

  -- A confirmation that gave a download is sent again with any path, with expiries in between that the
  -- offer's slot outlives, each within 600 seconds of the slot's last change or while its download
  -- runs: it gives the same download, reserves nothing more, and leaves the table as it is.
  pub confirm_offer-again :
      (now now' id i : ℕ) (dest dest' : Bytes) (es : Expiries) (table : Table) (server : Server)
      → (confirm_offer reserve_download now id dest table server).0 ≢ 0
      → browser_find_offer id table ≡ some i
      → Outlives es (slot (confirm_offer reserve_download now id dest table server).2 i)
      → let r = confirm_offer reserve_download now id dest table server in
        confirm_offer reserve_download now' id dest' (aged es r.2) r.1 ≡ (r.0, r.1, aged es r.2)
  unfolding confirm_offer browser_find_offer
  confirm_offer-again now now' id i dest dest' es table server h e outlives =
      let r : ℕ × Server × Slot = confirm_slot reserve_download now dest (slot table i) server in
      let first : confirm_offer reserve_download now id dest table server
          ≡ (r.0, r.1, set table i r.2) =
        rw (confirm_offer, e) refl in
      let answered : r.0 ≢ 0 = λ z. h (ap (λ (x : ℕ × Server × Table). x.0) first ∙ z) in
      let (again, same) = confirm_slot-again now now' dest dest' (slot table i) server answered in
      let (at, nz, b) = browser_find_offer-some id table i e in
      let found : browser_find_offer id (set table i r.2) ≡ some i =
        browser_find_offer-set id table i r.2 e (same ∙ at) in
      let here : slot (set table i r.2) i ≡ r.2 = get_or-set_self table i r.2 empty_slot b in
      let lives : Outlives es (slot (set table i r.2) i) =
        subst (λ (x : ℕ × Server × Table). Outlives es (slot x.2 i)) first outlives in
      let none_empty : (not (id == 0) && (0 == id)) ≡ false = ground arith in
      let (still, kept) = aged-find_from _ es (set table i r.2) i none_empty found lives in
      let there : slot (aged es (set table i r.2)) i ≡ r.2 = kept ∙ here in
      let back : set (aged es (set table i r.2)) i r.2 ≡ aged es (set table i r.2) =
        ap (set (aged es (set table i r.2)) i) (sym there)
        ∙ set-slot (aged es (set table i r.2)) i in
      let second : confirm_offer reserve_download now' id dest' (aged es (set table i r.2)) r.1
          ≡ (r.0, r.1, set (aged es (set table i r.2)) i r.2) =
        rw (confirm_offer, still, there, again) refl in
      rw first (second ∙ ap (λ t. (r.0, r.1, t)) back)

  confirm_slot-dismissed :
      (now : ℕ) (dest : Bytes) (s : Slot) (server : Server)
      → s.offer.state ≡ dismissed
      → confirm_slot reserve_download now dest s server ≡ (0, server, s)
  unfolding confirm_slot
  confirm_slot-dismissed now dest s server e = simp (confirm_slot, e) refl

  -- An offer that was dismissed is never downloaded: confirming it answers 0 and reserves nothing.
  pub confirm_offer-dismissed :
      (now now' id : ℕ) (dest : Bytes) (table : Table) (server : Server)
      → (handle_dismiss now id table).0 ≡ ok
      → confirm_offer reserve_download now' id dest (handle_dismiss now id table).1 server
        ≡ (0, server, (handle_dismiss now id table).1)
  unfolding confirm_offer handle_dismiss
  confirm_offer-dismissed now now' id dest table server h =
      elim (Option-cases (browser_find_offer id table)) [
        | inl e ↦ absurd (let h' = rw (handle_dismiss, e) at h in ground arith)
        | inr (i, e) ↦
            let r : IpcResult × Slot = dismiss_slot now (slot table i) in
            let first : handle_dismiss now id table ≡ (r.0, set table i r.1) =
              rw (handle_dismiss, e) refl in
            let (is_dismissed, same) =
              dismiss_slot-ok now (slot table i)
                (sym (ap (λ (x : IpcResult × Table). x.0) first) ∙ h) in
            let (at, nz, b) = browser_find_offer-some id table i e in
            let found : browser_find_offer id (set table i r.1) ≡ some i =
              browser_find_offer-set id table i r.1 e (same ∙ at) in
            let here : slot (set table i r.1) i ≡ r.1 = get_or-set_self table i r.1 empty_slot b in
            let second : confirm_offer reserve_download now' id dest (set table i r.1) server
                ≡ (0, server, set table i r.1) =
              rw
                (
                  confirm_offer,
                  found,
                  here,
                  confirm_slot-dismissed now' dest r.1 server is_dismissed,
                  set-set table i r.1,
                )
                refl in
            rw first second
      ]

-- A registration that answers an offer has written it to a slot.
register_offer-some :
    (now : ℕ) (random : ℕ → ℕ) (p : Proposal) (table : Table)
    → (register_offer now random p table).0.offer_id ≢ 0
    → (i : ℕ) × (id : ℕ) × (i < length table)
      × (id ≢ 0)
      × (register_offer now random p table
          ≡ ((new_slot id now p).offer, set table i (new_slot id now p)))
unfolding register_offer
register_offer-some now random p table h = elim (Option-cases (find_free table)) [
  | inl e ↦ absurd (let h' = rw (register_offer, e) at h in h' refl)
  | inr (i, e) ↦
      let id : ℕ = draw_id id_attempts random table in
      elim (Bool-cases (id == 0)) [
        | inl z ↦ absurd (let h' = rw (register_offer, e, z) at h in h' refl)
        | inr nz ↦
            let (j, at, b, found) = find_from-some (λ s. s.offer.offer_id == 0) 0 table i e in
            (i, id, omega arith, ground arith, rw (register_offer, e, nz) refl)
      ]
]

browser_find_request-set :
    (table : Table) (i id now : ℕ) (p : Proposal)
    → browser_find_request p.request_id table ≡ none
    → i < length table
    → id ≢ 0
    → browser_find_request p.request_id (set table i (new_slot id now p)) ≡ some i
unfolding browser_find_request
browser_find_request-set table i id now p e b nz =
    let zero_add : 0 + i ≡ i = omega arith in
    let self = bytes_eq_self p.request_id in
    let test : (not (id == 0) && bytes_eq p.request_id p.request_id) ≡ true = ground arith in
    find_from-set_new
      (λ s. not (s.offer.offer_id == 0) && bytes_eq s.offer.proposal.request_id p.request_id) 0
      table i (new_slot id now p) e b test
    ∙ ap some zero_add

-- The offer that was answered lies in a slot for its request and its URL.
handle_offer-holds :
    (now : ℕ) (random : ℕ → ℕ) (p : Proposal) (table : Table)
    → (handle_offer now random p table).0.offer_id ≢ 0
    → let r = handle_offer now random p table in
      (i : ℕ) × (browser_find_request p.request_id r.1 ≡ some i)
      × ((slot r.1 i).offer ≡ r.0)
      × (bytes_eq (slot r.1 i).offer.proposal.url p.url ≡ true)
unfolding handle_offer
handle_offer-holds now random p table h =
    elim (Option-cases (browser_find_request p.request_id table)) [
      | inl e ↦
          let first : handle_offer now random p table ≡ register_offer now random p table =
            rw (handle_offer, e) refl in
          let answered : (register_offer now random p table).0.offer_id ≢ 0 =
            λ z. h (ap (λ (x : Offer × Table). x.0.offer_id) first ∙ z) in
          let (i, id, b, nz, made) = register_offer-some now random p table answered in
          let s : Slot = new_slot id now p in
          let found = browser_find_request-set table i id now p e b nz in
          let here : slot (set table i s) i ≡ s = get_or-set_self table i s empty_slot b in
          rw (first, made) (i, found, rw here refl, rw here (bytes_eq_self p.url))
      | inr (i, e) ↦ elim (Bool-cases (bytes_eq (slot table i).offer.proposal.url p.url)) [
        | inl same ↦
            let first : handle_offer now random p table ≡ ((slot table i).offer, table) =
              rw (handle_offer, e, same) refl in
            rw first (i, e, refl, same)
        | inr other ↦ absurd (let h' = rw (handle_offer, e, other) at h in h' refl)
      ]
    ]

answered :
    (now i : ℕ) (random : ℕ → ℕ) (p : Proposal) (table : Table)
    → browser_find_request p.request_id table ≡ some i
    → bytes_eq (slot table i).offer.proposal.url p.url ≡ true
    → handle_offer now random p table ≡ ((slot table i).offer, table)
unfolding handle_offer
answered now i random p table found same = rw (handle_offer, found, same) refl

-- An offer that was answered is sent again, with expiries in between that its slot outlives, each within
-- 600 seconds of the slot's last change or while the offer's download runs: it is answered as before,
-- and there is no second offer for the request.
pub handle_offer-again :
    (now now' i : ℕ) (random random' : ℕ → ℕ) (p : Proposal) (es : Expiries) (table : Table)
    → (handle_offer now random p table).0.offer_id ≢ 0
    → browser_find_request p.request_id (handle_offer now random p table).1 ≡ some i
    → Outlives es (slot (handle_offer now random p table).1 i)
    → let r = handle_offer now random p table in
      handle_offer now' random' p (aged es r.1) ≡ (r.0, aged es r.1)
unfolding browser_find_request
handle_offer-again now now' i random random' p es table h e outlives =
    let r : Offer × Table = handle_offer now random p table in
    let (j, found, offered, url) = handle_offer-holds now random p table h in
    let at : j ≡ i = cc (found, e) in
    let (still, kept) = aged-find_from _ es r.1 i refl e outlives in
    let same : bytes_eq (slot (aged es r.1) i).offer.proposal.url p.url ≡ true =
      rw kept (subst (λ k. bytes_eq (slot r.1 k).offer.proposal.url p.url ≡ true) at url) in
    let answer : (slot (aged es r.1) i).offer ≡ r.0 =
      ap (λ (s : Slot). s.offer) kept ∙ subst (λ k. (slot r.1 k).offer ≡ r.0) at offered in
    answered now' i random' p (aged es r.1) still same ∙ ap (λ (o : Offer). (o, aged es r.1)) answer
