-- ===== src/HttpClient/Tests.antt =====
-- The HTTP client at concrete inputs.
use cdm.Prelude.{◌≡◌, refl, true, some, [], ◌∷◌, codes}
use cdm.Finalize.{hex_equals_ci}
use cdm.HttpClient.{
  curl_client_build_headers, lines, split_line, header_loop, strip_return, curl_client_head,
  callback_loop, head_header_callback,
}

returns_and_empty_lines :
    curl_client_build_headers (b'A' ∷ 13 ∷ 10 ∷ 10 ∷ 13 ∷ 10 ∷ b'B' ∷ [])
    ≡ codes "A" ∷ codes "B" ∷ []
unfolding curl_client_build_headers lines split_line header_loop strip_return
returns_and_empty_lines = refl

ranges_in_small_letters :
    curl_client_head (record {
      curl_ok = true;
      http_status = 200;
      content_length = some 7;
      head = codes "accept-ranges: bytes" ∷ [];
    })
    ≡ (record { total_size = 7; supports_ranges = true }, true)
unfolding curl_client_head callback_loop head_header_callback hex_equals_ci
ranges_in_small_letters = refl
