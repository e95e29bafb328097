-- ===== src/Gui/Ring.antt =====
-- src/gui/gui_controller.c: the two rings, `g_events` of 256 places and `g_commands` of 64, which are
-- one definition here, over what a place holds. Each function holds the ring's mutex for its whole
-- body, so it is one step.
use cdm.Prelude.{
  ℕ, ◌+◌, ◌-◌, ◌%◌, Bool, true, false, Option, none, some, List, [], ◌∷◌, ◌++◌, length, get_or, set,
  ◌==◌, if◌then◌else◌,
}

pub record Ring {ℓ} (A : Type ℓ) : Type ℓ where
  pub places : List A
  pub head : ℕ
  pub tail : ℕ
  pub count : ℕ

abbrev pub event_cap : ℕ
event_cap = 256

abbrev pub command_cap : ℕ
command_cap = 64

-- A call of a ring, and what it answers.
pub data RingCall {ℓ} (A : Type ℓ) : Type ℓ where
  puts : A → RingCall A
  takes : RingCall A

pub data Answer {ℓ} (A : Type ℓ) : Type ℓ where
  accepted : Bool → Answer A
  gave : Option A → Answer A

module _ {ℓ} {A : Type ℓ} where
  -- The counters are cleared, what the places hold stays.
  abbrev pub ring_init : Ring A → Ring A
  ring_init r = record r { head = 0; tail = 0; count = 0 }

  unfoldable pub ring_put : ℕ → A → Ring A → Ring A × Bool
  ring_put cap x r = if r.count == cap then (r, false) else (
    record {
      places = set r.places r.tail x;
      head = r.head;
      tail = (r.tail + 1) % cap;
      count = r.count + 1;
    },
    true,
  )

  -- `empty` stands for what a place out of bounds holds.
  unfoldable pub ring_take : ℕ → A → Ring A → Ring A × Option A
  ring_take cap empty r = if r.count == 0 then (r, none) else (
    record r { head = (r.head + 1) % cap; count = r.count - 1 },
    some (get_or r.places r.head empty),
  )

  unfoldable pub ring_call : ℕ → A → RingCall A → Ring A → Ring A × Answer A
  unfolding ring_put ring_take
  ring_call cap empty (puts x) r = let (r', ok) = ring_put cap x r in (r', accepted ok)
  ring_call cap empty takes r = let (r', got) = ring_take cap empty r in (r', gave got)

  unfoldable pub ring_calls : ℕ → A → List (RingCall A) → Ring A → List (Answer A)
  unfolding ring_call
  ring_calls cap empty [] r = []
  ring_calls cap empty (c ∷ cs) r =
      let (r', answer) = ring_call cap empty c r in answer ∷ ring_calls cap empty cs r'

  -- A queue, first in first out, of at most `cap` items.
  abbrev pub fifo_call : ℕ → RingCall A → List A → List A × Answer A
  fifo_call cap (puts x) xs =
      if length xs == cap then (xs, accepted false) else (xs ++ (x ∷ []), accepted true)
  fifo_call cap takes [] = ([], gave none)
  fifo_call cap takes (x ∷ xs) = (xs, gave (some x))

  abbrev pub fifo_calls : ℕ → List (RingCall A) → List A → List (Answer A)
  fifo_calls cap [] xs = []
  fifo_calls cap (c ∷ cs) xs =
      let (xs', answer) = fifo_call cap c xs in answer ∷ fifo_calls cap cs xs'
