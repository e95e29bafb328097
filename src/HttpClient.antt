-- ===== src/HttpClient.antt =====
-- src/platform/curl_client.c: the header lines of a request, and the callback that looks for ranges. A
-- curl_slist is the list of its strings.
mod Tests
use cdm.Prelude.{
  ℕ, Bool, true, false, ◌&&◌, Option, none, some, List, [], ◌∷◌, Bytes, leb, ltb, ◌==◌,
  if◌then◌else◌, take, length, codes,
}
use cdm.Finalize.{hex_equals_ci}
use cdm.Engine.{FileInfo}

-- The text up to the first line break, and the lines behind it.
unfoldable pub split_line : Bytes → Bytes × List Bytes
split_line [] = ([], [])
split_line (c ∷ cs) =
    let (line, rest) = split_line cs in if c == b'\n' then ([], line ∷ rest) else (c ∷ line, rest)

unfoldable pub lines : Bytes → List Bytes
unfolding split_line
lines s = let (line, rest) = split_line s in line ∷ rest

-- A '\r' at the end of the line goes.
unfoldable pub strip_return : Bytes → Bytes
strip_return [] = []
strip_return (c ∷ []) = if c == b'\r' then [] else c ∷ []
strip_return (c ∷ d ∷ cs) = c ∷ strip_return (d ∷ cs)

abbrev pub append_line : Bytes → List Bytes → List Bytes
append_line [] rest = rest
append_line (c ∷ cs) rest = (c ∷ cs) ∷ rest

-- The loop over what `strtok_r` answers, which passes over empty lines.
unfoldable pub header_loop : List Bytes → List Bytes
unfolding strip_return
header_loop [] = []
header_loop ([] ∷ rest) = header_loop rest
header_loop ((c ∷ cs) ∷ rest) = append_line (strip_return (c ∷ cs)) (header_loop rest)

-- The answer NULL is the empty list.
unfoldable pub curl_client_build_headers : Bytes → List Bytes
unfolding lines header_loop
curl_client_build_headers extra_headers = header_loop (lines (take 4095 extra_headers))

-- What a HEAD request answered: whether libcurl succeeded, the status, the length that the server
-- named, if it did, and the lines of the head.
pub record HeadAnswer : Type 0 where
  pub curl_ok : Bool
  pub http_status : ℕ
  pub content_length : Option ℕ
  pub head : List Bytes

-- `head_header_callback`, strncasecmp(line, "Accept-Ranges: bytes", 19) == 0.
unfoldable pub head_header_callback : Bytes → FileInfo → FileInfo
unfolding hex_equals_ci
head_header_callback line info =
    if leb 19 (length line) && hex_equals_ci (take 19 line) (take 19 (codes "Accept-Ranges: bytes"))
    then record info { supports_ranges = true }
    else info

unfoldable pub callback_loop : List Bytes → FileInfo → FileInfo
unfolding head_header_callback
callback_loop [] info = info
callback_loop (line ∷ rest) info = callback_loop rest (head_header_callback line info)

abbrev pub or_zero : Option ℕ → ℕ
or_zero none = 0
or_zero (some n) = n

-- `out`, and whether the answer is 0.
unfoldable pub curl_client_head : HeadAnswer → FileInfo × Bool
unfolding callback_loop
curl_client_head a =
    let info = callback_loop a.head (record { total_size = 0; supports_ranges = false }) in
    let succeeded = a.curl_ok && leb 200 a.http_status && ltb a.http_status 300 in
    ((if succeeded then record info { total_size = or_zero a.content_length } else info), succeeded)
