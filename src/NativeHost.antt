-- ===== src/NativeHost.antt =====
-- src/native_host/main_host.c: the program that the browser starts. cJSON, the operating system and the
-- daemon are arguments.
pub mod Offers
pub mod Framed
pub mod Poll
pub mod Followed
pub mod Again
mod Tests
use cdm.Prelude.{
  ℕ, zero, suc, ◌+◌, Bool, true, false, not, ◌&&◌, ◌||◌, Option, none, some, List, [], ◌∷◌, ◌++◌,
  Bytes, bytes_eq, length, take, drop, ltb, leb, ◌==◌, if◌then◌else◌, codes,
}
use cdm.Ipc.{max_url_len}
use cdm.Ipc.Wire.{u32_bytes, u32_of}
use cdm.Ipc.Offers.{Proposal}

abbrev pub native_max_message : ℕ
native_max_message = 1048576

-- What `native_read` answers: 1 with the text, 0 or -1.
pub data Frame : Type 0 where
  frame : Bytes → Frame
  end_of_input malformed : Frame

-- memchr(json, '\0', length).
abbrev pub has_nul : Bytes → Bool
has_nul [] = false
has_nul (b ∷ bs) = (b == 0) || has_nul bs

-- `input` are the bytes that the browser sends until it closes the pipe, `memory` what malloc answers.
-- With the answer comes what is left of the input.
unfoldable pub native_read : Bool → Bytes → Frame × Bytes
unfolding u32_of
native_read memory input =
    let prefix = take 4 input in
    let size = u32_of prefix in
    let rest = drop 4 input in
    let json = take size rest in
    if not (length prefix == 4)
    then (if length prefix == 0 then end_of_input else malformed, rest)
    else if (size == 0) || ltb native_max_message size
    then (malformed, rest)
    else if not memory
    then (malformed, rest)
    else if not (length json == size)
    then (malformed, drop size rest)
    else if has_nul json
    then (malformed, drop size rest)
    else (frame json, drop size rest)

-- What `native_send` writes for a message that cJSON prints as `json`, where the writes succeed.
unfoldable pub native_send : Bytes → Option Bytes
native_send json =
    if leb (length json) native_max_message then some (u32_bytes (length json) ++ json) else none

-- A field of the message: a text, a number, or anything else. Of a number there are the two tests that
-- the code makes of it, less than 0 and greater than 2 ^ 53 - 1, and what it is cut to.
pub data Field : Type 0 where
  text : Bytes → Field
  number : Bool → Bool → ℕ → Field
  other : Field

-- `root`, by cJSON_GetObjectItemCaseSensitive.
abbrev pub Root : Type 0
Root = Bytes → Option Field

unfoldable pub copy_text : Option Field → ℕ → Bool → Option Bytes
copy_text none capacity required = if required then none else some []
copy_text (some (text t)) capacity required =
    if (required && (length t == 0)) || leb capacity (length t) then none else some t
copy_text (some (number _ _ _)) capacity required = none
copy_text (some other) capacity required = none

unfoldable pub copy_field : Root → Bytes → ℕ → Bool → Option Bytes
unfolding copy_text
copy_field root name capacity required = copy_text (root name) capacity required

abbrev pub is_text : Option Field → Bytes → Bool
is_text none t = false
is_text (some (text s)) t = bytes_eq s t
is_text (some (number _ _ _)) t = false
is_text (some other) t = false

unfoldable pub total_of : Option Field → Option ℕ
total_of none = some 0
total_of (some (number below above n)) = if below || above then none else some n
total_of (some (text _)) = none
total_of (some other) = none

infixl 10 ◌>>=◌
abbrev ◌>>=◌ : {A B : Type 0} → Option A → (A → Option B) → Option B
none >>= f = none
some a >>= f = f a

unfoldable pub parse_fields : Root → Option Proposal
unfolding copy_field total_of
parse_fields root = do
  request_id ← copy_field root (codes "request_id") 128 true
  url ← copy_field root (codes "url") max_url_len true
  filename ← copy_field root (codes "filename") 512 false
  mime ← copy_field root (codes "mime") 128 false
  referrer ← copy_field root (codes "referrer") max_url_len false
  total_bytes ← total_of (root (codes "total_bytes"))
  some (record {
    total_bytes = total_bytes;
    request_id = request_id;
    url = url;
    filename = filename;
    mime = mime;
    referrer = referrer;
  })

unfoldable pub parse_offer : Root → Option Proposal
unfolding parse_fields
parse_offer root =
    if is_text (root (codes "type")) (codes "download_offer") then parse_fields root else none
