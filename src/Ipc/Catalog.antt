-- ===== src/Ipc/Catalog.antt =====
-- src/platform/ipc_socket.c: the invariant of the table of offers.
use cdm.Prelude.{
  ℕ, zero, suc, ◌+◌, ◌<◌, ◌≡◌, ◌≢◌, refl, sym, ap, ◌∙◌, subst, Bool, true, false, not, ◌&&◌, Option,
  none, some, [], ◌∷◌, map, Bool-cases, lt_or_le, eq_or_ne, ◌⊎◌, replicate, ◌==◌, set, length, inl,
  inr, arith, get_or-beyond, get_or-set_self, get_or-set_ne, length-set,
}
use cdm.Download.{Status}
use cdm.Prelude.Find.{find_from}
use cdm.Ipc.Offers.{
  OfferState, waiting, confirmed, dismissed, Slot, Table, slot, empty_slot, new_table,
  max_browser_offers, expire_slot, browser_expire_offers, browser_find_offer,
}

abbrev pub id_at : Table → ℕ → ℕ
id_at table i = (slot table i).offer.offer_id

-- A download is recorded just when the offer is confirmed.
abbrev pub Settled : OfferState → ℕ → Type 0
Settled waiting n = n ≡ 0
Settled confirmed n = n ≢ 0
Settled dismissed n = n ≡ 0

-- The table keeps its size, no two offers have one id, and an offer has a download just when it is
-- confirmed.
pub record Valid (table : Table) : Type 0 where
  pub size : length table ≡ max_browser_offers
  pub unique : (i j : ℕ) → id_at table i ≡ id_at table j → id_at table i ≢ 0 → i ≡ j
  pub settled : (i : ℕ) → Settled (slot table i).offer.state (slot table i).offer.download_id

-- A search answers the index of a slot that passes the test, and misses only when none does.
pub find_from-some :
    (p : Slot → Bool) (k : ℕ) (table : Table) (i : ℕ)
    → find_from p k table ≡ some i
    → (j : ℕ) × (i ≡ k + j) × (j < length table) × (p (slot table j) ≡ true)
find_from-some p k [] i h = absurd (ground arith)
find_from-some p k (s ∷ ss) i h = elim (Bool-cases (p s)) [
  | inl e ↦ let here = rw e at h in (0, ground arith, omega arith, e)
  | inr e ↦
      let later : find_from p (suc k) ss ≡ some i = rw e at h in
      let (j, at, in_range, found) = find_from-some p (suc k) ss i later in
      (suc j, omega arith, omega arith, found)
]

missing_below :
    (p : Slot → Bool) (k : ℕ) (s : Slot) (ss : Table)
    → p s ≡ false
    → ((j : ℕ) → j < length ss → p (slot ss j) ≡ false)
    → (j : ℕ) → j < length (s ∷ ss)
    → p (slot (s ∷ ss) j) ≡ false
missing_below p k s ss e f zero b = e
missing_below p k s ss e f (suc j) b = f j (omega arith)

find_from-none :
    (p : Slot → Bool) (k : ℕ) (table : Table)
    → find_from p k table ≡ none
    → (j : ℕ) → j < length table
    → p (slot table j) ≡ false
find_from-none p k [] h j b = elim b [ ]
find_from-none p k (s ∷ ss) h j b = elim (Bool-cases (p s)) [
  | inl e ↦ absurd (let found = rw e at h in ground arith)
  | inr e ↦
      let later : find_from p (suc k) ss ≡ none = rw e at h in
      missing_below p k s ss e (find_from-none p (suc k) ss later) j b
]

-- The offer that `browser_find_offer` answers has the id that was asked for, and is in the table.
pub browser_find_offer-some :
    (id : ℕ) (table : Table) (i : ℕ)
    → browser_find_offer id table ≡ some i
    → (id_at table i ≡ id) × (id ≢ 0) × (i < length table)
unfolding browser_find_offer
browser_find_offer-some id table i h =
    let (j, at, in_range, found) =
      find_from-some (λ s. not (id == 0) && (s.offer.offer_id == id)) 0 table i h in
    let e : j ≡ i = omega arith in
    subst (λ (k : ℕ). (id_at table k ≡ id) × (id ≢ 0) × (k < length table)) e
      (ground arith, ground arith, in_range)

-- It misses only an id that no offer has.
pub browser_find_offer-none :
    (id : ℕ) (table : Table)
    → id ≢ 0
    → browser_find_offer id table ≡ none
    → (j : ℕ) → id_at table j ≢ id
unfolding browser_find_offer
browser_find_offer-none id table h e j same = elim (lt_or_le j (length table)) [
  | inl b ↦
      let miss = find_from-none (λ s. not (id == 0) && (s.offer.offer_id == id)) 0 table e j b in
      ground arith
  | inr b ↦ h (sym same ∙ ap (λ (s : Slot). s.offer.offer_id) (get_or-beyond table j empty_slot b))
]

slot-set_self : (table : Table) (i : ℕ) (s : Slot) → i < length table → slot (set table i s) i ≡ s
slot-set_self table i s b = get_or-set_self table i s empty_slot b

slot-set_ne : (table : Table) (i j : ℕ) (s : Slot) → i ≢ j → slot (set table i s) j ≡ slot table j
slot-set_ne table i j s d = get_or-set_ne table i j s empty_slot d

-- No other slot has the id of `s`.
abbrev pub IsFresh : Table → ℕ → Slot → Type 0
IsFresh table i s = (j : ℕ) → i ≢ j → s.offer.offer_id ≢ 0 → s.offer.offer_id ≢ id_at table j

-- What a slot holds after a write.
slot-set :
    (table : Table) (i : ℕ) (s : Slot) (j : ℕ)
    → i < length table
    → ((i ≡ j) × (slot (set table i s) j ≡ s)) ⊎ ((i ≢ j) × (slot (set table i s) j ≡ slot table j))
slot-set table i s j b = elim (eq_or_ne i j) [
  | inl p ↦ inl (p, subst (λ (m : ℕ). slot (set table i s) m ≡ s) p (slot-set_self table i s b))
  | inr d ↦ inr (d, slot-set_ne table i j s d)
]

abbrev pub slot_id : Slot → ℕ
slot_id s = s.offer.offer_id

abbrev pub SlotSettled : Slot → Type 0
SlotSettled s = Settled s.offer.state s.offer.download_id

-- A write of a slot whose id no other slot has keeps the table valid.
module _ (table : Table) (i : ℕ) (s : Slot) (v : Valid table) (b : i < length table)
    (fresh : IsFresh table i s) where
  unique_after :
      (j k : ℕ)
      → id_at (set table i s) j ≡ id_at (set table i s) k
      → id_at (set table i s) j ≢ 0
      → j ≡ k
  unique_after j k e z = elim (slot-set table i s j b) [
    | inl p ↦ elim (slot-set table i s k b) [
      | inl q ↦ sym p.0 ∙ q.0
      | inr q ↦
          absurd
            (fresh k q.0 (λ h. z (ap slot_id p.1 ∙ h)) (sym (ap slot_id p.1) ∙ e ∙ ap slot_id q.1))
    ]
    | inr p ↦ elim (slot-set table i s k b) [
      | inl q ↦ absurd (
          fresh j p.0 (λ h. z (e ∙ ap slot_id q.1 ∙ h))
            (sym (ap slot_id q.1) ∙ sym e ∙ ap slot_id p.1))
      | inr q ↦
          v.unique j k (sym (ap slot_id p.1) ∙ e ∙ ap slot_id q.1) (λ h. z (ap slot_id p.1 ∙ h))
    ]
  ]

  settled_after : SlotSettled s → (j : ℕ) → SlotSettled (slot (set table i s) j)
  settled_after h j = elim (slot-set table i s j b) [
    | inl p ↦ subst SlotSettled (sym p.1) h
    | inr p ↦ subst SlotSettled (sym p.1) (v.settled j)
  ]

  pub Valid-set : SlotSettled s → Valid (set table i s)
  Valid-set h = record {
    size = length-set table i s ∙ v.size;
    unique = unique_after;
    settled = settled_after h;
  }

-- A slot that keeps its id is fresh in its place.
pub IsFresh-same :
    (table : Table) (i : ℕ) (s : Slot)
    → Valid table
    → s.offer.offer_id ≡ id_at table i
    → IsFresh table i s
IsFresh-same table i s v e j d z same = d (v.unique i j (sym e ∙ same) (λ h. z (e ∙ h)))

slot-replicate : (n i : ℕ) → slot (replicate n empty_slot) i ≡ empty_slot
slot-replicate zero i = refl
slot-replicate (suc n) zero = refl
slot-replicate (suc n) (suc i) = slot-replicate n i

pub new_table-Valid : Valid new_table
new_table-Valid = record {
  size = refl;
  unique = λ i j e z. absurd (z (ap slot_id (slot-replicate max_browser_offers i)));
  settled = λ i. subst SlotSettled (sym (slot-replicate max_browser_offers i)) refl;
}

slot-map :
    (f : Slot → Slot) (table : Table) (i : ℕ)
    → f empty_slot ≡ empty_slot
    → slot (map f table) i ≡ f (slot table i)
slot-map f [] i h = sym h
slot-map f (s ∷ ss) zero h = refl
slot-map f (s ∷ ss) (suc i) h = slot-map f ss i h

length-map : (f : Slot → Slot) (table : Table) → length (map f table) ≡ length table
length-map f [] = refl
length-map f (s ∷ ss) = ap suc (length-map f ss)

-- Expiry keeps a slot or frees it.
expire_slot-cases :
    (now : ℕ) (status : ℕ → Option Status) (s : Slot)
    → (expire_slot now status s ≡ s) ⊎ (expire_slot now status s ≡ empty_slot)
unfolding expire_slot
expire_slot-cases now status s = ground arith

-- The table that is left of `table` when some slots have been freed.
pub browser_expire_offers-slot :
    (now : ℕ) (status : ℕ → Option Status) (table : Table) (i : ℕ)
    → (slot (browser_expire_offers now status table) i ≡ slot table i)
      ⊎ (slot (browser_expire_offers now status table) i ≡ empty_slot)
unfolding browser_expire_offers expire_slot
browser_expire_offers-slot now status table i =
    let at = slot-map (expire_slot now status) table i refl in
    elim (expire_slot-cases now status (slot table i)) [
      | inl e ↦ inl (at ∙ e)
      | inr e ↦ inr (at ∙ e)
    ]

module _ (now : ℕ) (status : ℕ → Option Status) (table : Table) (v : Valid table) where
  unique_left :
      (j k : ℕ)
      → id_at (browser_expire_offers now status table) j
        ≡ id_at (browser_expire_offers now status table) k
      → id_at (browser_expire_offers now status table) j ≢ 0
      → j ≡ k
  unique_left j k e z = elim (browser_expire_offers-slot now status table j) [
    | inr p ↦ absurd (z (ap slot_id p))
    | inl p ↦ elim (browser_expire_offers-slot now status table k) [
      | inr q ↦ absurd (z (e ∙ ap slot_id q))
      | inl q ↦ v.unique j k (sym (ap slot_id p) ∙ e ∙ ap slot_id q) (λ h. z (ap slot_id p ∙ h))
    ]
  ]

  settled_left : (j : ℕ) → SlotSettled (slot (browser_expire_offers now status table) j)
  settled_left j = elim (browser_expire_offers-slot now status table j) [
    | inl p ↦ subst SlotSettled (sym p) (v.settled j)
    | inr p ↦ subst SlotSettled (sym p) refl
  ]

  pub browser_expire_offers-Valid : Valid (browser_expire_offers now status table)
  unfolding browser_expire_offers
  browser_expire_offers-Valid = record {
    size = length-map (expire_slot now status) table ∙ v.size;
    unique = unique_left;
    settled = settled_left;
  }
