-- ===== src/Gui/Borrow.antt =====
-- src/gui/gui_controller.c: the place that a command was taken from, to which its pointers still lead.
use cdm.Prelude.{
  ℕ, ◌+◌, ◌%◌, ◌<◌, ◌≡◌, refl, sym, ap, ◌∙◌, Option, none, some, List, [], ◌∷◌, ◌++◌, Bytes, length,
  get_or, arith, ◌==◌, false, length-append, get_or-set_ne,
}
use native.Mathlib.Nat.{mod-eq_of_lt, mod-add-mod}
use cdm.Gui.Ring.{command_cap, ring_put, ring_take}
use cdm.Gui.Fifo.{Shows, Shows-length, wrap_ne, ring_put-Shows, ring_take-cons}
use cdm.Gui.Controller.{
  GuiControllerCommand, zero_command, Commands, enqueue_command, dequeue_command, led_to,
  options_at,
}

-- The commands are put in one after the other.
abbrev pub enqueue_all : List GuiControllerCommand → Commands → Commands
enqueue_all [] q = q
enqueue_all (c ∷ cs) q = enqueue_all cs (enqueue_command c q).0

-- The place `at` lies before the first item and still holds the command.
record Lent (at : ℕ) (c : GuiControllerCommand) (q : Commands) (xs : List GuiControllerCommand)
    : Type 0 where
  in_order : Shows command_cap zero_command q xs
  before_head : q.head ≡ (at + 1) % command_cap
  at_lt : at < command_cap
  held : get_or q.places at zero_command ≡ c

enqueue_command-Lent :
    (at : ℕ) (c x : GuiControllerCommand) (q : Commands) (xs : List GuiControllerCommand)
    → Lent at c q xs
    → length xs + 1 < command_cap
    → Lent at c (enqueue_command x q).0 (xs ++ (x ∷ []))
unfolding enqueue_command ring_put
enqueue_command-Lent at c x q xs l h =
    let n = Shows-length command_cap zero_command q xs l.in_order in
    let (_, s) = ring_put-Shows command_cap zero_command q xs x l.in_order (omega arith) in
    let no : (q.count == command_cap) ≡ false = ground arith in
    let tail_at : q.tail ≡ (at + 1 + q.count) % command_cap =
      l.in_order.tail_at
      ∙ ap (λ k. (k + q.count) % command_cap) l.before_head
      ∙ mod-add-mod (at + 1) command_cap q.count in
    let apart =
      wrap_ne command_cap (at + 1 + q.count) at (omega (arith, l.at_lt)) (omega (arith, l.at_lt))
        (omega arith) (omega (arith, n, h)) in
    let here : at % command_cap ≡ at = mod-eq_of_lt l.at_lt in
    record {
      in_order = s;
      before_head = rw no l.before_head;
      at_lt = l.at_lt;
      held = rw no (
          get_or-set_ne q.places q.tail at x zero_command (λ e. apart (sym tail_at ∙ e ∙ sym here))
          ∙ l.held);
    }

enqueue_all-Lent :
    (at : ℕ) (c : GuiControllerCommand) (cs : List GuiControllerCommand) (q : Commands)
    (xs : List GuiControllerCommand)
    → Lent at c q xs
    → length xs + length cs < command_cap
    → get_or (enqueue_all cs q).places at zero_command ≡ c
enqueue_all-Lent at c [] q xs l h = l.held
enqueue_all-Lent at c (x ∷ cs) q xs l h =
    let l' = enqueue_command-Lent at c x q xs l (omega arith) in
    let one_more = length-append xs (x ∷ []) in
    enqueue_all-Lent at c cs (enqueue_command x q).0 (xs ++ (x ∷ [])) l'
      (omega (arith, one_more, h))

led_to_self : (o : Option Bytes) → led_to o o ≡ o
led_to_self none = refl
led_to_self (some text) = refl

own_options :
    (at : ℕ) (c : GuiControllerCommand) (q : Commands)
    → get_or q.places at zero_command ≡ c
    → options_at c at q ≡ c.options
unfolding options_at
own_options at c q h =
    rw
      (
        h,
        led_to_self c.options.cookie,
        led_to_self c.options.referrer,
        led_to_self c.options.extra_headers,
        led_to_self c.options.expected_sha256,
      )
      refl

ring_take_moves :
    (q : Commands)
    → (q.count == 0) ≡ false
    → ((ring_take command_cap zero_command q).0.places ≡ q.places)
      × ((ring_take command_cap zero_command q).0.head ≡ (q.head + 1) % command_cap)
unfolding ring_take
ring_take_moves q more = rw more (refl, refl)

-- The first command of the ring is taken, and its options stay readable as they were put in while the
-- window puts in further commands, as long as these and the ones left behind are fewer than 64.
pub options_at-enqueue_all :
    (q : Commands) (c : GuiControllerCommand) (xs cs : List GuiControllerCommand)
    → Shows command_cap zero_command q (c ∷ xs)
    → length xs + length cs < command_cap
    → ((dequeue_command q).1 ≡ some (c, q.head))
      × (options_at c q.head (enqueue_all cs (dequeue_command q).0) ≡ c.options)
unfolding dequeue_command
options_at-enqueue_all q c xs cs s h =
    let (got, first, s') = ring_take-cons command_cap zero_command q c xs s in
    let n = Shows-length command_cap zero_command q (c ∷ xs) s in
    let (kept, moved) = ring_take_moves q (ground arith) in
    let left : Commands = (ring_take command_cap zero_command q).0 in
    let taken : ring_take command_cap zero_command q ≡ (left, some c) = ap (λ o. (left, o)) got in
    let same : dequeue_command q ≡ (left, some (c, q.head)) =
      ap
        (λ (t : Commands × Option GuiControllerCommand). elim t.1 [
          | none ↦ (t.0, none)
          | some command ↦ (t.0, some (command, q.head))
        ])
        taken in
    let l : Lent q.head c left xs = record {
      in_order = s';
      before_head = moved;
      at_lt = s.head_lt;
      held = ap (λ ps. get_or ps q.head zero_command) kept ∙ first;
    } in
    rw same
      (refl, own_options q.head c (enqueue_all cs left) (enqueue_all-Lent q.head c cs left xs l h))
