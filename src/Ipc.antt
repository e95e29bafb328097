-- ===== src/Ipc.antt =====
-- src/platform/ipc_protocol.h and src/platform/ipc_socket.c: the messages between clients and the
-- daemon.
pub mod Wire
pub mod Stream
pub mod RoundTrip
pub mod Requests
pub mod Offers
pub mod Catalog
pub mod Keeps
pub mod Again
pub mod Commands
pub mod Outcomes
pub mod Handlers
pub mod Reserve
pub mod Reserved
mod Tests
use cdm.Prelude.{ℕ, ◌+◌, ◌*◌, ◌-◌, Bool, true, false, ◌&&◌, leb, ltb, ◌==◌, if◌then◌else◌}

abbrev pub max_url_len : ℕ
max_url_len = 2048

abbrev pub max_path_len : ℕ
max_path_len = 1024

abbrev pub max_frame_size : ℕ
max_frame_size = 16384

-- MsgType, less its prefix MSG_; `unknown` stands for a number that names none.
pub data MsgType : Type 0 where
  add_download pause resume cancel list status_event progress_event subscribe list_all get_details :
      MsgType
  reload_config browser_offer browser_get_offer browser_confirm browser_dismiss : MsgType
  browser_subscribe_progress browser_progress_event unknown : MsgType

pub record MsgHeader : Type 0 where
  pub length : ℕ
  pub type : MsgType

-- IpcResult, less its prefix IPC_RESULT_.
pub data IpcResult : Type 0 where
  ok not_found rejected error : IpcResult

-- The lengths that the `switch` of `valid_message_header` allows for a type.
unfoldable pub length_allowed : MsgType → ℕ → Bool
length_allowed add_download n = leb n max_frame_size
length_allowed browser_offer n = leb n max_frame_size
length_allowed pause n = n == 4
length_allowed resume n = n == 4
length_allowed cancel n = n == 4
length_allowed get_details n = n == 4
length_allowed browser_get_offer n = n == 4
length_allowed browser_dismiss n = n == 4
length_allowed browser_subscribe_progress n = n == 4
length_allowed browser_confirm n = leb 8 n && leb n (8 + max_path_len - 1)
length_allowed list n = n == 0
length_allowed list_all n = n == 0
length_allowed subscribe n = n == 0
length_allowed reload_config n = n == 0
length_allowed status_event n = false
length_allowed progress_event n = false
length_allowed browser_progress_event n = false
length_allowed unknown n = false

unfoldable pub valid_message_header : MsgHeader → Bool
unfolding length_allowed
valid_message_header h =
    if ltb max_frame_size h.length then false else length_allowed h.type h.length
