-- ===== src/NativeHost/Followed.antt =====
-- src/native_host/main_host.c: the places after a round of the poll.
use cdm.Prelude.{
  ℕ, ◌≡◌, ◌≢◌, ◌⊎◌, inl, inr, refl, sym, ap, ◌∙◌, true, not, ◌||◌, Option, none, some, List, [],
  ◌∷◌, bytes_eq, arith, ◌==◌, Bool-cases,
}
use cdm.Ipc.Offers.{OfferState, waiting, confirmed, dismissed, Offer}
use cdm.NativeHost.Offers.{HostOffer, Progress, is_free}
use cdm.NativeHost.Poll.{
  PollWorld, Polled, same_state, is_over, poll_progress, poll_download, poll_state, report_state,
  poll_answer, poll_place, poll_loop, forget_loop, all_free, poll_offers,
}

-- The place is free, or it has the offer as the daemon has it now, which is not dismissed.
abbrev pub Follows : PollWorld → ℕ → HostOffer → Type 0
Follows w id s =
    (s.offer.offer_id ≡ 0)
    ⊎ ((w.offer_now id ≡ some s.offer)
        × (s.reported_state ≡ s.offer.state)
        × (s.offer.state ≢ dismissed))

poll_progress-place :
    (w : PollWorld) (current : Offer) (p : Progress) (b : Polled)
    → ((poll_progress w current p b).place.offer.offer_id ≡ 0)
      ⊎ (((poll_progress w current p b).place.offer ≡ b.place.offer)
          × ((poll_progress w current p b).place.reported_state ≡ b.place.reported_state))
unfolding poll_progress
poll_progress-place w current p b = elim (Bool-cases (is_over p.status)) [
  | inl e ↦ inl (rw e refl)
  | inr e ↦
      inr
        (elim (Bool-cases (
          not (p.bytes_received == b.place.reported_bytes)
          || not (bytes_eq p.status b.place.reported_status))) [
            | inl n ↦ rw (e, n) (refl, refl)
            | inr n ↦ rw (e, n) (refl, refl)
          ])
]

state_not_dismissed : (waiting ≢ dismissed) × (confirmed ≢ dismissed)
state_not_dismissed = ((λ e. ground arith), (λ e. ground arith))

holds_current :
    (w : PollWorld) (id : ℕ) (current : Offer) (s : HostOffer)
    → w.offer_now id ≡ some current
    → s.offer ≡ current
    → s.reported_state ≡ current.state
    → current.state ≢ dismissed
    → Follows w id s
holds_current w id current s now same told live = inr (
  now ∙ ap some (sym same),
  told ∙ ap (λ (o : Offer). o.state) (sym same),
  λ e. live (ap (λ (o : Offer). o.state) (sym same) ∙ e),
)

poll_download-Follows :
    (w : PollWorld) (id : ℕ) (current : Offer) (p : Option Progress) (b : Polled)
    → w.offer_now id ≡ some current
    → b.place.offer ≡ current
    → b.place.reported_state ≡ current.state
    → current.state ≢ dismissed
    → Follows w id (poll_download w current p b).place
unfolding poll_download
poll_download-Follows w id current none b now same told live =
    holds_current w id current b.place now same told live
poll_download-Follows w id current (some p) b now same told live =
    elim (poll_progress-place w current p b) [
      | inl free ↦ inl free
      | inr (o, r) ↦
          holds_current w id current (poll_progress w current p b).place now (o ∙ same) (r ∙ told)
            live
    ]

poll_state-Follows :
    (w : PollWorld) (id : ℕ) (state : OfferState) (current : Offer) (b : Polled)
    → w.offer_now id ≡ some current
    → b.place.offer ≡ current
    → b.place.reported_state ≡ current.state
    → current.state ≡ state
    → Follows w id (poll_state w current state b).place
unfolding poll_state
poll_state-Follows w id waiting current b now same told e =
    holds_current w id current b.place now same told (λ f. state_not_dismissed.0 (sym e ∙ f))
poll_state-Follows w id dismissed current b now same told e = inl refl
poll_state-Follows w id confirmed current b now same told e =
    let live : current.state ≢ dismissed = λ f. state_not_dismissed.1 (sym e ∙ f) in
    elim (Bool-cases (current.download_id == 0)) [
      | inl z ↦ rw z (holds_current w id current b.place now same told live)
      | inr z ↦ rw z (
          poll_download-Follows w id current (w.progress_now current.download_id) b now same told
            live)
    ]

report_state-place :
    (w : PollWorld) (current : Offer) (s : HostOffer)
    → ((report_state w current s).place.offer ≡ current)
      × ((report_state w current s).place.reported_state ≡ current.state)
unfolding report_state
report_state-place w current s = elim (Bool-cases (same_state current.state s.reported_state)) [
  | inl e ↦ rw e (refl, refl)
  | inr e ↦ rw e (refl, refl)
]

poll_answer-Follows :
    (w : PollWorld) (s : HostOffer) (o : Option Offer)
    → w.offer_now s.offer.offer_id ≡ o
    → Follows w s.offer.offer_id (poll_answer w s o).place
unfolding poll_answer
poll_answer-Follows w s none now = inl refl
poll_answer-Follows w s (some current) now =
    let (same, told) = report_state-place w current s in
    poll_state-Follows w s.offer.offer_id current.state current (report_state w current s) now same
      told refl

poll_place-Follows :
    (w : PollWorld) (s : HostOffer) → Follows w s.offer.offer_id (poll_place w s).place
unfolding poll_place
poll_place-Follows w s = elim (Bool-cases (is_free s)) [
  | inl e ↦ inl (rw e (ground arith))
  | inr e ↦ rw e (poll_answer-Follows w s (w.offer_now s.offer.offer_id) refl)
]

-- Place by place.
abbrev pub AllFollow : PollWorld → List HostOffer → List HostOffer → Type 0
AllFollow w [] [] = Unit
AllFollow w [] (_ ∷ _) = ⊥
AllFollow w (_ ∷ _) [] = ⊥
AllFollow w (s ∷ ss) (t ∷ ts) = Follows w s.offer.offer_id t × AllFollow w ss ts

poll_loop-AllFollow :
    (w : PollWorld) (slots : List HostOffer)
    → (poll_loop w slots).0 ≡ true
    → AllFollow w slots (poll_loop w slots).1
unfolding poll_loop
poll_loop-AllFollow w [] h = tt
poll_loop-AllFollow w (s ∷ ss) h = elim (Bool-cases (poll_place w s).ok) [
  | inl e ↦ rw e (poll_place-Follows w s, poll_loop-AllFollow w ss (rw e at h))
  | inr e ↦ absurd (let h' = rw e at h in ground arith)
]

forget_loop-AllFollow :
    (w : PollWorld) (slots : List HostOffer) → AllFollow w slots (forget_loop w slots).1
unfolding forget_loop
forget_loop-AllFollow w [] = tt
forget_loop-AllFollow w (s ∷ ss) = elim (Bool-cases (is_free s)) [
  | inl e ↦ rw e (inl (ground arith), forget_loop-AllFollow w ss)
  | inr e ↦ rw e (inl refl, forget_loop-AllFollow w ss)
]

all_free-AllFollow :
    (w : PollWorld) (slots : List HostOffer) → all_free slots ≡ true → AllFollow w slots slots
all_free-AllFollow w [] h = tt
all_free-AllFollow w (s ∷ ss) h =
    (inl (ground (arith, h)), all_free-AllFollow w ss (ground (arith, h)))

-- After a round whose messages were taken, each place is free, or it has its offer as the daemon has it
-- now, which is not a dismissed one, and its state is noted as reported.
pub poll_offers-AllFollow :
    (w : PollWorld) (slots : List HostOffer)
    → (poll_offers w slots).0 ≡ true
    → AllFollow w slots (poll_offers w slots).1
unfolding poll_offers
poll_offers-AllFollow w slots h = elim (Bool-cases (all_free slots)) [
  | inl e ↦ rw e (all_free-AllFollow w slots e)
  | inr e ↦ elim (Bool-cases w.connects) [
    | inl c ↦ rw (e, c) (poll_loop-AllFollow w slots (rw (e, c) at h))
    | inr c ↦ rw (e, c) (forget_loop-AllFollow w slots)
  ]
]
