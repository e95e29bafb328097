-- ===== src/Ipc/Requests.antt =====
-- src/platform/ipc_socket.c: an ADD_DOWNLOAD request as the daemon receives it.
use cdm.Prelude.{
  ℕ, ◌+◌, ◌≤◌, ◌<◌, ◌≡◌, refl, ap, ◌∙◌, true, false, none, some, List, ◌++◌, Bytes, length, take,
  drop, ltb, arith, u32, u32_mod,
}
use mathlib.Core.List.{append_assoc}
use cdm.Ipc.{
  pause, resume, cancel, list, status_event, progress_event, subscribe, list_all, get_details,
  reload_config, browser_offer, browser_get_offer, browser_confirm, browser_dismiss,
  browser_subscribe_progress, browser_progress_event, unknown, MsgHeader, MsgType, add_download,
  valid_message_header, length_allowed, max_frame_size, max_url_len, max_path_len,
}
use cdm.Ipc.Wire.{
  type_number, type_of, Event, options_size, u32_of, u32_bytes, header_bytes, parse_header,
  add_request, write_string, read_string, read_options_field, read_dest_field, read_add_fields,
}
use cdm.Ipc.Stream.{arrived}
use cdm.Ipc.RoundTrip.{u32_of-u32_bytes, read_string-write_string}

payload_length :
    (url dest json : Bytes)
    → length url + length dest + length json + 12 ≤ max_frame_size
    → u32 (4 + u32 (length url) + 4 + u32 (length dest) + 4 + u32 (length json))
      ≡ length url + length dest + length json + 12
payload_length url dest json h = omega arith

type_of-type_number : (t : MsgType) → type_of (u32_of (u32_bytes (type_number t))) ≡ t
unfolding u32_of
type_of-type_number add_download = refl
type_of-type_number pause = refl
type_of-type_number resume = refl
type_of-type_number cancel = refl
type_of-type_number list = refl
type_of-type_number status_event = refl
type_of-type_number progress_event = refl
type_of-type_number subscribe = refl
type_of-type_number list_all = refl
type_of-type_number get_details = refl
type_of-type_number reload_config = refl
type_of-type_number browser_offer = refl
type_of-type_number browser_get_offer = refl
type_of-type_number browser_confirm = refl
type_of-type_number browser_dismiss = refl
type_of-type_number browser_subscribe_progress = refl
type_of-type_number browser_progress_event = refl
type_of-type_number unknown = refl

-- A header of a 32-bit length comes back as it was sent.
pub parse_header-header_bytes :
    (h : MsgHeader) → h.length < u32_mod → parse_header (header_bytes h) ≡ h
unfolding parse_header header_bytes
parse_header-header_bytes h k = rw (u32_of-u32_bytes h.length k, type_of-type_number h.type) refl

accepted :
    (n : ℕ)
    → n ≤ max_frame_size
    → valid_message_header (record { length = n; type = add_download }) ≡ true
unfolding valid_message_header length_allowed
accepted n h = ground arith

-- The header of an ADD_DOWNLOAD request is accepted when the fields and their length words fit in a
-- frame.
pub valid_message_header-add_request :
    (url dest json : Bytes)
    → length url + length dest + length json + 12 ≤ max_frame_size
    → valid_message_header (parse_header (take 8 (add_request url dest json))) ≡ true
unfolding add_request header_bytes
valid_message_header-add_request url dest json h =
    let n : ℕ = length url + length dest + length json + 12 in
    rw
      (
        payload_length url dest json h,
        parse_header-header_bytes (record { length = n; type = add_download }) (omega arith),
      )
      (accepted n h)

fields_of_request :
    (url dest json rest : Bytes)
    → drop 8 (add_request url dest json) ++ rest
      ≡ write_string url ++ (write_string dest ++ (write_string json ++ rest))
unfolding add_request header_bytes
fields_of_request url dest json rest =
    append_assoc (write_string url) (write_string dest ++ write_string json) rest
    ∙ ap (write_string url ++◌) (append_assoc (write_string dest) (write_string json) rest)

-- When the three fields fit their buffers, the daemon reads from the bytes after the header exactly the
-- fields that the client sent, however they are divided into reads, and leaves what follows the request.
pub read_add_fields-add_request :
    (url dest json rest : Bytes) (es : List Event)
    → length url < max_url_len
    → length dest < max_path_len
    → length json < options_size
    → arrived es ≡ drop 8 (add_request url dest json) ++ rest
    → ((read_add_fields es).0 ≡ some (record { url = url; dest = dest; options_json = json }))
      × (arrived (read_add_fields es).1 ≡ rest)
unfolding read_add_fields read_dest_field read_options_field
read_add_fields-add_request url dest json rest es hu hd hj e =
    let ru =
      read_string-write_string url (write_string dest ++ (write_string json ++ rest)) max_url_len es
        (omega arith) (omega arith) (e ∙ fields_of_request url dest json rest) in
    let fu : ltb (length url) max_url_len ≡ true = ground arith in
    let u : (read_string max_url_len es).0 ≡ some url = ru.0 ∙ rw fu refl in
    let rd =
      read_string-write_string dest (write_string json ++ rest) max_path_len
        (read_string max_url_len es).1 (omega arith) (omega arith) ru.1 in
    let fd : ltb (length dest) max_path_len ≡ true = ground arith in
    let d : (read_string max_path_len (read_string max_url_len es).1).0 ≡ some dest =
      rd.0 ∙ rw fd refl in
    let rj =
      read_string-write_string json rest options_size
        (read_string max_path_len (read_string max_url_len es).1).1 (omega arith) (omega arith)
        rd.1 in
    let fj : ltb (length json) options_size ≡ true = ground arith in
    let j : (read_string options_size (read_string max_path_len (read_string max_url_len es).1).1).0
        ≡ some json =
      rj.0 ∙ rw fj refl in
    rw (read_add_fields, u, read_dest_field, d, read_options_field, j) (refl, rj.1)

-- When the URL does not fit its buffer, the daemon drops the request without an answer and leaves the
-- request's other two fields on the connection, where the next header is expected.
pub read_add_fields-oversized_url :
    (url dest json rest : Bytes) (es : List Event)
    → length url < u32_mod
    → max_url_len ≤ length url
    → arrived es ≡ drop 8 (add_request url dest json) ++ rest
    → ((read_add_fields es).0 ≡ none)
      × (arrived (read_add_fields es).1 ≡ write_string dest ++ (write_string json ++ rest))
unfolding read_add_fields
read_add_fields-oversized_url url dest json rest es hu big e =
    let ru =
      read_string-write_string url (write_string dest ++ (write_string json ++ rest)) max_url_len es
        hu (omega arith) (e ∙ fields_of_request url dest json rest) in
    let fu : ltb (length url) max_url_len ≡ false = ground arith in
    let u : (read_string max_url_len es).0 ≡ none = ru.0 ∙ rw fu refl in
    rw (read_add_fields, u) (refl, ru.1)
