-- ===== src/Gui/Controller.antt =====
-- src/gui/gui_controller.c: the calls of the window, and the commands that the controller's thread
-- carries out. What the client answers is an argument. A struct's unused arrays are not modelled, and
-- a snapshot and the details of a download are values of any types.
use cdm.Prelude.{
  ℕ, ◌-◌, Bool, true, false, ◌||◌, Option, none, some, List, [], ◌∷◌, Bytes, get_or, take, ltb,
  if◌then◌else◌, codes,
}
use cdm.Ipc.{max_url_len, max_path_len}
use cdm.Gui.Ring.{Ring, event_cap, command_cap, ring_put, ring_take}

pub data CommandType : Type 0 where
  add_it pause_it resume_it cancel_it details_of : CommandType

-- The pointers of `IpcDownloadOptions` with the texts behind them.
pub record Options : Type 0 where
  pub cookie : Option Bytes
  pub referrer : Option Bytes
  pub extra_headers : Option Bytes
  pub expected_sha256 : Option Bytes
  pub speed_limit_bps : ℕ

-- A pointer of `options` is `some` with the text of the command's own array.
pub record GuiControllerCommand : Type 0 where
  pub kind : CommandType
  pub id : ℕ
  pub url : Bytes
  pub dest_path : Bytes
  pub options : Options

abbrev pub plain_options : Options
plain_options = record {
  cookie = none;
  referrer = none;
  extra_headers = none;
  expected_sha256 = none;
  speed_limit_bps = 0;
}

-- `{0}`.
abbrev pub zero_command : GuiControllerCommand
zero_command = record { kind = add_it; id = 0; url = []; dest_path = []; options = plain_options }

-- `strncpy(to, text, size - 1)` into an array of zeros.
abbrev pub copied : ℕ → Bytes → Bytes
copied size text = take (size - 1) text

abbrev pub copied_option : ℕ → Option Bytes → Option Bytes
copied_option size none = none
copied_option size (some text) = some (copied size text)

unfoldable pub add_command : Bytes → Bytes → Option Options → GuiControllerCommand
add_command url dest_path options = record {
  kind = add_it;
  id = 0;
  url = copied max_url_len url;
  dest_path = copied max_path_len dest_path;
  options = elim options [
    | none ↦ plain_options
    | some o ↦ record {
      cookie = copied_option 1024 o.cookie;
      referrer = copied_option 2048 o.referrer;
      extra_headers = copied_option 4096 o.extra_headers;
      expected_sha256 = copied_option 65 o.expected_sha256;
      speed_limit_bps = o.speed_limit_bps;
    }
  ];
}

abbrev pub Commands : Type 0
Commands = Ring GuiControllerCommand

-- The pointers of the command that is stored are set to the arrays of its place.
unfoldable pub enqueue_command : GuiControllerCommand → Commands → Commands × Bool
unfolding ring_put
enqueue_command command q = ring_put command_cap command q

unfoldable pub gui_controller_enqueue_add :
    Option Bytes → Option Bytes → Option Options → Commands → Commands × Bool
unfolding enqueue_command add_command
gui_controller_enqueue_add (some url) (some dest_path) options q =
    enqueue_command (add_command url dest_path options) q
gui_controller_enqueue_add (some url) none options q = (q, false)
gui_controller_enqueue_add none dest_path options q = (q, false)

unfoldable pub enqueue_id_command : CommandType → ℕ → Commands → Commands × Bool
unfolding enqueue_command
enqueue_id_command kind id q = enqueue_command (record zero_command { kind = kind; id = id }) q

-- With the command comes the place that it lay in: its pointers still lead there.
unfoldable pub dequeue_command : Commands → Commands × Option (GuiControllerCommand × ℕ)
unfolding ring_take
dequeue_command q =
    let (q', got) = ring_take command_cap zero_command q in
    elim got [ none ↦ (q', none) | some command ↦ (q', some (command, q.head)) ]

-- The text that a pointer of a command leads to, once the array there holds `now`; an array that was
-- not filled is all zeros.
abbrev pub led_to : Option Bytes → Option Bytes → Option Bytes
led_to none now = none
led_to (some text) none = some []
led_to (some text) (some now) = some now

-- The options of a command that lay in the place `at`, as they are read from the ring as it is.
unfoldable pub options_at : GuiControllerCommand → ℕ → Commands → Options
options_at command at q =
    let there = (get_or q.places at zero_command).options in
    let own = command.options in
    record {
      cookie = led_to own.cookie there.cookie;
      referrer = led_to own.referrer there.referrer;
      extra_headers = led_to own.extra_headers there.extra_headers;
      expected_sha256 = led_to own.expected_sha256 there.expected_sha256;
      speed_limit_bps = own.speed_limit_bps;
    }

abbrev pub is_given : Option Bytes → Bool
is_given none = false
is_given (some text) = true

-- The options are passed on where one of them is given.
abbrev pub passed : Options → Option Options
passed o =
    if is_given o.cookie
      || (is_given o.referrer
          || (is_given o.extra_headers || (is_given o.expected_sha256 || ltb 0 o.speed_limit_bps)))
    then some o
    else none

pub data Operation : Type 0 where
  adding pausing resuming canceling : Operation

-- The events; what `gui_client_get_details` fills in is of the type `D`, a snapshot's row of `R`.
pub data GuiControllerEvent (R D : Type 0) : Type 0 where
  operation : Operation → ℕ → Bytes → Bytes → Bool → GuiControllerEvent R D
  status : ℕ → Bytes → ℕ → GuiControllerEvent R D
  snapshot : List R → GuiControllerEvent R D
  details : ℕ → Option D → GuiControllerEvent R D
  connection : Bool → GuiControllerEvent R D
  failure : Bytes → GuiControllerEvent R D

-- What the daemon's client answers: `add` with the id.
pub record Client (R D : Type 0) : Type 0 where
  pub add_download : Bytes → Bytes → Option Options → Bool × ℕ
  pub pause_download : ℕ → Bool
  pub resume_download : ℕ → Bool
  pub cancel_download : ℕ → Bool
  pub get_details : ℕ → Option D
  pub list_all : Option (List R)

pub data GuiClientEvent : Type 0 where
  status_update : ℕ → Bytes → ℕ → GuiClientEvent
  connection_lost connection_restored : GuiClientEvent

abbrev pub max_rows : ℕ
max_rows = 256

abbrev pub Events : Type 0 → Type 0 → Type 0
Events R D = Ring (GuiControllerEvent R D)

module _ {R D : Type 0} where
  -- `{0}` of an event.
  abbrev pub zero_event : GuiControllerEvent R D
  zero_event = operation adding 0 [] [] false

  unfoldable pub gui_controller_publish : GuiControllerEvent R D → Events R D → Events R D × Bool
  unfolding ring_put
  gui_controller_publish event q = ring_put event_cap event q

  unfoldable pub gui_controller_poll : Events R D → Events R D × Option (GuiControllerEvent R D)
  unfolding ring_take
  gui_controller_poll q = ring_take event_cap zero_event q

  -- A refusal of the ring is only logged.
  abbrev pub publish : GuiControllerEvent R D → Events R D → Events R D
  publish event q = (gui_controller_publish event q).0

  -- `snprintf` into an array of `size`.
  unfoldable pub publish_operation : Operation → ℕ → Bytes → Bytes → Bool → Events R D → Events R D
  unfolding gui_controller_publish
  publish_operation what id url dest_path succeeded q =
      publish (operation what id (copied max_url_len url) (copied max_path_len dest_path) succeeded)
        q

  unfoldable pub publish_error : Bytes → Events R D → Events R D
  unfolding gui_controller_publish
  publish_error message q = publish (failure (copied 256 message)) q

  unfoldable pub publish_snapshot : Client R D → Events R D → Events R D
  unfolding gui_controller_publish
  publish_snapshot client q = elim client.list_all [
    | none ↦ q
    | some records ↦ publish (snapshot (take max_rows records)) q
  ]

  unfoldable pub event_of : GuiClientEvent → GuiControllerEvent R D
  event_of (status_update id text progress) = status id (copied 16 text) progress
  event_of connection_lost = connection false
  event_of connection_restored = connection true

  unfoldable pub publish_client_events : List GuiClientEvent → Events R D → Events R D
  unfolding gui_controller_publish event_of
  publish_client_events [] q = q
  publish_client_events (e ∷ es) q = publish_client_events es (publish (event_of e) q)

  unfoldable pub finish_operation : Operation → ℕ → Bool → Events R D → Events R D
  unfolding publish_operation publish_error
  finish_operation what id succeeded q =
      let q' = publish_operation what id [] [] succeeded q in
      if succeeded then q' else publish_error (codes "Download operation failed") q'

  unfoldable pub finish_details : ℕ → Option D → Events R D → Events R D
  unfolding gui_controller_publish publish_error
  finish_details id none q =
      publish_error (codes "Download details are unavailable") (publish (details id none) q)
  finish_details id (some d) q = publish (details id (some d)) q

  -- `options` are the command's, as they are read.
  unfoldable pub process_command :
      Client R D → GuiControllerCommand → Options → Events R D → Events R D
  unfolding gui_controller_publish publish_operation publish_error finish_operation finish_details
  process_command client c options q = elim c.kind [
    | add_it ↦
        let (succeeded, id) = client.add_download c.url c.dest_path (passed options) in
        let q' = publish_operation adding id c.url c.dest_path succeeded q in
        if succeeded then q' else publish_error (codes "Download could not be added") q'
    | pause_it ↦ finish_operation pausing c.id (client.pause_download c.id) q
    | resume_it ↦ finish_operation resuming c.id (client.resume_download c.id) q
    | cancel_it ↦ finish_operation canceling c.id (client.cancel_download c.id) q
    | details_of ↦ finish_details c.id (client.get_details c.id) q
  ]
