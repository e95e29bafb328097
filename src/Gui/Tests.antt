-- ===== src/Gui/Tests.antt =====
-- Runs of the code of src/gui at concrete inputs.
use cdm.Prelude.{
  ℕ, ◌≡◌, refl, true, false, none, some, List, [], ◌∷◌, ◌++◌, replicate, length-replicate, arith,
  codes,
}
use cdm.Gui.Ring.{
  Ring, RingCall, puts, takes, accepted, gave, event_cap, command_cap, ring_init, ring_calls,
  fifo_calls, ring_put,
}
use cdm.Gui.Fifo.{Shows, ring_init-Shows, ring_put-Shows, ring_calls_refine}
use cdm.Gui.Controller.{
  GuiControllerCommand, zero_command, pause_it, plain_options, Commands, dequeue_command,
  options_at, Client, Events, zero_event, process_command, GuiControllerEvent,
}
use cdm.Gui.Borrow.{enqueue_all, options_at-enqueue_all}
use cdm.Gui.Events.{reported, process_command-reported}
use cdm.Gui.Model.{GuiRow}

abbrev small_ring : Ring ℕ
small_ring = record { places = 9 ∷ 9 ∷ []; head = 1; tail = 1; count = 1 }

abbrev three_puts : List (RingCall ℕ)
three_puts = puts 1 ∷ puts 2 ∷ puts 3 ∷ takes ∷ puts 4 ∷ takes ∷ takes ∷ takes ∷ []

-- A third item is refused, and a place that became free is filled again.
three_puts_answered :
    fifo_calls 2 three_puts []
    ≡ accepted true
      ∷ accepted true
      ∷ accepted false
      ∷ gave (some 1)
      ∷ accepted true
      ∷ gave (some 2)
      ∷ gave (some 4)
      ∷ gave none
      ∷ []
three_puts_answered = refl

ring_calls_refine_example :
    ring_calls 2 0 three_puts (ring_init small_ring) ≡ fifo_calls 2 three_puts []
ring_calls_refine_example = ring_calls_refine 2 0 three_puts small_ring (omega arith) refl

abbrev with_cookie : GuiControllerCommand
with_cookie = record zero_command { options = record plain_options { cookie = some (codes "k=v") } }

abbrev other_cookie : GuiControllerCommand
other_cookie = record zero_command { options = record plain_options { cookie = some (codes "x") } }

abbrev no_commands : Commands
no_commands =
    ring_init
      (record { places = replicate command_cap zero_command; head = 0; tail = 0; count = 0 })

no_commands-Shows : Shows command_cap zero_command no_commands []
no_commands-Shows =
    ring_init-Shows command_cap zero_command no_commands (omega arith)
      (length-replicate 64 zero_command)

abbrev one_command : Commands
one_command = (ring_put command_cap with_cookie no_commands).0

one_command-Shows : Shows command_cap zero_command one_command (with_cookie ∷ [])
one_command-Shows =
    (ring_put-Shows command_cap zero_command no_commands [] with_cookie no_commands-Shows
      (omega arith)).1

options_at-enqueue_all_example :
    ((dequeue_command one_command).1 ≡ some (with_cookie, one_command.head))
    × (options_at with_cookie one_command.head
          (enqueue_all (other_cookie ∷ other_cookie ∷ []) (dequeue_command one_command).0)
        ≡ with_cookie.options)
options_at-enqueue_all_example =
    options_at-enqueue_all one_command with_cookie [] (other_cookie ∷ other_cookie ∷ [])
      one_command-Shows (omega arith)

abbrev refusing : Client ℕ ℕ
refusing = record {
  add_download = λ url dest options. (false, 0);
  pause_download = λ id. false;
  resume_download = λ id. true;
  cancel_download = λ id. true;
  get_details = λ id. none;
  list_all = none;
}

abbrev blank_event : GuiControllerEvent ℕ ℕ
blank_event = zero_event

abbrev no_events : Events ℕ ℕ
no_events =
    ring_init (record { places = replicate event_cap zero_event; head = 0; tail = 0; count = 0 })

process_command-reported_example :
    Shows event_cap zero_event
      (process_command refusing
        (record zero_command { kind = pause_it; id = 3 })
        plain_options
        no_events)
      ([] ++ reported refusing (record zero_command { kind = pause_it; id = 3 }) plain_options)
process_command-reported_example =
    process_command-reported refusing (record zero_command { kind = pause_it; id = 3 })
      plain_options no_events []
      (ring_init-Shows event_cap zero_event no_events (omega arith)
        (length-replicate 256 blank_event))
      (omega arith)

abbrev one_row : List GuiRow
one_row =
    record { id = 4; url = codes "u"; dest_path = codes "d"; status = codes "ACTIVE"; progress = 0 }
    ∷ []
