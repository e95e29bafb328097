-- ===== src/Ipc/Wire.antt =====
-- src/platform/ipc_socket.c: reads and writes of whole fields. A number is sent in the host's byte
-- order, which is taken to be little-endian.
use cdm.Prelude.{
  ◌==◌, ℕ, zero, suc, ◌+◌, ◌-◌, ◌*◌, ◌/◌, ◌%◌, Bool, true, false, Option, none, some, List, [], ◌∷◌,
  ◌++◌, Bytes, ltb, leb, if◌then◌else◌, length, get_or, take, drop, u32,
}
use cdm.Ipc.{
  MsgType, MsgHeader, max_url_len, max_path_len, add_download, pause, resume, cancel, list,
  status_event, progress_event, subscribe, list_all, get_details, reload_config, browser_offer,
  browser_get_offer, browser_confirm, browser_dismiss, browser_subscribe_progress,
  browser_progress_event, unknown,
}

-- What `read` meets: bytes that have arrived, a signal (EINTR), the end of the connection, or an
-- error. A connection is what it will meet, in order.
pub data Event : Type 0 where
  chunk : Bytes → Event
  interrupted closed failed : Event

abbrev pub prepend : Bytes → Option Bytes → Option Bytes
prepend bs none = none
prepend bs (some rest) = some (bs ++ rest)

-- `ipc_read_exact` of `n` bytes; a `read` that asks for less than a chunk leaves the rest of it.
unfoldable pub ipc_read_exact : ℕ → List Event → Option Bytes × List Event
ipc_read_exact zero es = (some [], es)
ipc_read_exact (suc n) [] = (none, [])
ipc_read_exact (suc n) (interrupted ∷ es) = ipc_read_exact (suc n) es
ipc_read_exact (suc n) (closed ∷ es) = (none, closed ∷ es)
ipc_read_exact (suc n) (failed ∷ es) = (none, es)
ipc_read_exact (suc n) (chunk [] ∷ es) = (none, es)
ipc_read_exact (suc n) (chunk (b ∷ bs) ∷ es) =
    let (rest, es') = ipc_read_exact (suc n - length (b ∷ bs)) es in
    if ltb (suc n) (length (b ∷ bs))
    then (some (take (suc n) (b ∷ bs)), chunk (drop (suc n) (b ∷ bs)) ∷ es)
    else (prepend (b ∷ bs) rest, es')

abbrev pub u32_bytes : ℕ → Bytes
u32_bytes n = n % 256 ∷ (n / 256) % 256 ∷ (n / 65536) % 256 ∷ (n / 16777216) % 256 ∷ []

-- A uint32_t from its bytes.
unfoldable pub u32_of : Bytes → ℕ
u32_of (a ∷ b ∷ c ∷ d ∷ []) = a + 256 * b + 65536 * c + 16777216 * d
u32_of _ = 0

-- `write_string`, as the bytes that it sends.
unfoldable pub write_string : Bytes → Bytes
write_string s = u32_bytes (u32 (length s)) ++ s

-- The loop that drains an oversized string, in pieces of at most 256 bytes; does it read them all?
-- Each round reads at least one byte, so `excess` rounds are enough.
unfoldable pub drain_loop : ℕ → ℕ → List Event → Bool × List Event
unfolding ipc_read_exact
drain_loop zero excess es = (excess == 0, es)
drain_loop (suc fuel) zero es = (true, es)
drain_loop (suc fuel) (suc n) es =
    let size = if ltb (suc n) 256 then suc n else 256 in
    let (got, es') = ipc_read_exact size es in
    elim got [ none ↦ (false, es') | some _ ↦ drain_loop fuel (suc n - size) es' ]

-- The rest of `read_string` once the field itself, of `to_read` bytes, has been read.
unfoldable pub read_excess : ℕ → ℕ → ℕ → Bytes → List Event → Option Bytes × List Event
unfolding drain_loop
read_excess len to_read max_len out es =
    if leb max_len len
    then (none, (drain_loop (len - to_read) (len - to_read) es).1)
    else (some out, es)

-- The rest of `read_string` for the length that was sent.
unfoldable pub read_body : ℕ → ℕ → List Event → Option Bytes × List Event
unfolding read_excess
read_body len max_len es =
    let to_read = if leb max_len len then max_len - 1 else len in
    let (got, es') = ipc_read_exact to_read es in
    elim got [ none ↦ (none, es') | some out ↦ read_excess len to_read max_len out es' ]

-- `none` is the answer -1.
unfoldable pub read_string : ℕ → List Event → Option Bytes × List Event
unfolding read_body u32_of
read_string zero es = (none, es)
read_string (suc m) es =
    let (got, es') = ipc_read_exact 4 es in
    elim got [ none ↦ (none, es') | some len ↦ read_body (u32_of len) (suc m) es' ]

-- The value of a MsgType in C.
abbrev pub type_number : MsgType → ℕ
type_number add_download = 1
type_number pause = 2
type_number resume = 3
type_number cancel = 4
type_number list = 5
type_number status_event = 6
type_number progress_event = 7
type_number subscribe = 8
type_number list_all = 9
type_number get_details = 10
type_number reload_config = 11
type_number browser_offer = 12
type_number browser_get_offer = 13
type_number browser_confirm = 14
type_number browser_dismiss = 15
type_number browser_subscribe_progress = 16
type_number browser_progress_event = 17
type_number unknown = 0

abbrev pub all_types : List MsgType
all_types =
    add_download ∷ pause ∷ resume ∷ cancel ∷ list ∷ status_event ∷ progress_event ∷ subscribe
    ∷ list_all ∷ get_details ∷ reload_config ∷ browser_offer ∷ browser_get_offer ∷ browser_confirm
    ∷ browser_dismiss ∷ browser_subscribe_progress ∷ browser_progress_event ∷ []

abbrev pub type_of : ℕ → MsgType
type_of n = get_or (unknown ∷ all_types) n unknown

-- A MsgHeader as it lies in memory, and back.
unfoldable pub header_bytes : MsgHeader → Bytes
header_bytes h = u32_bytes h.length ++ u32_bytes (type_number h.type)

unfoldable pub parse_header : Bytes → MsgHeader
unfolding u32_of
parse_header bs = record { length = u32_of (take 4 bs); type = type_of (u32_of (drop 4 bs)) }

-- What `ipc_send_add_download` writes; `json` are the options as cJSON prints them, or nothing.
unfoldable pub add_request : Bytes → Bytes → Bytes → Bytes
unfolding header_bytes write_string
add_request url dest json =
    let payload = u32 (4 + u32 (length url) + 4 + u32 (length dest) + 4 + u32 (length json)) in
    header_bytes (record { length = payload; type = add_download })
    ++ (write_string url ++ (write_string dest ++ write_string json))

-- The fields of an ADD_DOWNLOAD request.
pub record AddFields : Type 0 where
  pub url : Bytes
  pub dest : Bytes
  pub options_json : Bytes

abbrev pub options_size : ℕ
options_size = 8192

unfoldable pub read_options_field : Bytes → Bytes → List Event → Option AddFields × List Event
unfolding read_string
read_options_field url dest es =
    let (got, es') = read_string options_size es in
    elim got [
      | none ↦ (none, es')
      | some json ↦ (some (record { url = url; dest = dest; options_json = json }), es')
    ]

unfoldable pub read_dest_field : Bytes → List Event → Option AddFields × List Event
unfolding read_options_field
read_dest_field url es =
    let (got, es') = read_string max_path_len es in
    elim got [ none ↦ (none, es') | some dest ↦ read_options_field url dest es' ]

-- The three reads at the head of the handler of ADD_DOWNLOAD; `none` is its early return, which
-- sends no answer.
unfoldable pub read_add_fields : List Event → Option AddFields × List Event
unfolding read_dest_field
read_add_fields es =
    let (got, es') = read_string max_url_len es in
    elim got [ none ↦ (none, es') | some url ↦ read_dest_field url es' ]
