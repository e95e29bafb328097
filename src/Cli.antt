-- ===== src/Cli.antt =====
-- src/cli/cli.c: the numbers and options of the command line. `strtoull` is the C library's, in base
-- 10; the arguments are the strings behind the command.
pub mod Numbers
pub mod Commands
pub mod Requests
mod Tests
use cdm.Prelude.{
  ℕ, ◌+◌, ◌-◌, ◌*◌, ◌%◌, ◌^◌, Bool, true, false, not, ◌&&◌, ◌||◌, Option, none, some, List, [], ◌∷◌,
  ◌++◌, Bytes, bytes_eq, ltb, leb, ◌==◌, if◌then◌else◌, length, is_digit, codes, u32_mod, u64_mod,
}

-- isspace, in the C locale.
abbrev pub is_space : ℕ → Bool
is_space c = (c == 32) || (leb 9 c && leb c 13)

unfoldable pub skip_spaces : Bytes → Bytes
skip_spaces [] = []
skip_spaces (c ∷ cs) = let rest = skip_spaces cs in if is_space c then rest else c ∷ cs

-- The value of the digits at the head, behind those of `n`, and what follows them.
unfoldable pub read_digits : ℕ → Bytes → ℕ × Bytes
read_digits n [] = (n, [])
read_digits n (c ∷ cs) =
    let rest = read_digits (n * 10 + (c - b'0')) cs in if is_digit c then rest else (n, c ∷ cs)

-- What `strtoull` leaves: the value, `errno == ERANGE`, and the text from `end` on; `none` where it
-- converted nothing.
unfoldable pub convert : Bool → Bytes → Option (ℕ × Bool × Bytes)
unfolding read_digits
convert negative [] = none
convert negative (c ∷ cs) =
    let (n, rest) = read_digits 0 (c ∷ cs) in
    if not (is_digit c)
    then none
    else if leb u64_mod n
    then some (u64_mod - 1, true, rest)
    else some ((if negative then (u64_mod - n) % u64_mod else n), false, rest)

unfoldable pub signed : Bytes → Option (ℕ × Bool × Bytes)
unfolding convert
signed [] = none
signed (c ∷ cs) =
    if c == b'-'
    then convert true cs
    else if c == b'+'
    then convert false cs
    else convert false (c ∷ cs)

unfoldable pub strtoull : Bytes → Option (ℕ × Bool × Bytes)
unfolding skip_spaces signed
strtoull text = signed (skip_spaces text)

abbrev pub starts_with_minus : Bytes → Bool
starts_with_minus [] = false
starts_with_minus (c ∷ cs) = c == b'-'

abbrev pub is_end : Bytes → Bool
is_end [] = true
is_end (c ∷ cs) = false

-- The test behind `strtoull`.
abbrev pub accepted : Option (ℕ × Bool × Bytes) → Option ℕ
accepted none = none
accepted (some (n, out_of_range, rest)) = if out_of_range || not (is_end rest) then none else some n

unfoldable pub parse_u64 : Bytes → Option ℕ
unfolding strtoull
parse_u64 text = if is_end text || starts_with_minus text then none else accepted (strtoull text)

abbrev pub in_id_range : Option ℕ → Option ℕ
in_id_range none = none
in_id_range (some n) = if (n == 0) || ltb (u32_mod - 1) n then none else some n

unfoldable pub parse_id : Bytes → Option ℕ
unfolding parse_u64
parse_id text = in_id_range (parse_u64 text)

-- The variables of `parse_add_options`; `headers` is headers_buf.
pub record AddOptions : Type 0 where
  pub cookie : Option Bytes
  pub referrer : Option Bytes
  pub sha256 : Option Bytes
  pub speed_limit : ℕ
  pub headers : Bytes
  pub has_options : Bool
  pub valid : Bool

abbrev pub headers_size : ℕ
headers_size = 4096

-- The branch of `--header`: the value behind the others, one to a line.
unfoldable pub add_header : Bytes → AddOptions → AddOptions
add_header value o =
    let separator = if is_end o.headers then [] else b'\n' ∷ [] in
    if leb headers_size (length o.headers + length separator + length value)
    then record o { valid = false; has_options = true }
    else record o { headers = o.headers ++ (separator ++ value); has_options = true }

abbrev pub set_limit : Option ℕ → AddOptions → AddOptions
set_limit none o = record o { valid = false; has_options = true }
set_limit (some n) o = record o { speed_limit = n; has_options = true }

-- The body of the loop over the pairs of a flag and a value.
unfoldable pub add_option : Bytes → Bytes → AddOptions → AddOptions
unfolding add_header parse_u64
add_option flag value o =
    if bytes_eq flag (codes "--cookie")
    then record o { cookie = some value; has_options = true }
    else if bytes_eq flag (codes "--referrer")
    then record o { referrer = some value; has_options = true }
    else if bytes_eq flag (codes "--sha256")
    then record o { sha256 = some value; has_options = true }
    else if bytes_eq flag (codes "--limit")
    then set_limit (parse_u64 value) o
    else if bytes_eq flag (codes "--header")
    then add_header value o
    else record o { valid = false }

abbrev pub is_even : List Bytes → Bool
is_even [] = true
is_even (a ∷ []) = false
is_even (a ∷ b ∷ rest) = is_even rest

unfoldable pub option_loop : List Bytes → AddOptions → AddOptions
unfolding add_option
option_loop [] o = o
option_loop (flag ∷ []) o = o
option_loop (flag ∷ value ∷ rest) o = option_loop rest (add_option flag value o)

abbrev pub no_options : Bool → AddOptions
no_options valid = record {
  cookie = none;
  referrer = none;
  sha256 = none;
  speed_limit = 0;
  headers = [];
  has_options = false;
  valid = valid;
}

-- `*opts_out`, with what `parse_add_options` returns and `*valid_out`. `extra_headers` is whether the
-- pointer is set: it leads to headers_buf, which is gone when the function has returned.
pub record ParsedOptions : Type 0 where
  pub cookie : Option Bytes
  pub referrer : Option Bytes
  pub expected_sha256 : Option Bytes
  pub speed_limit_bps : ℕ
  pub extra_headers : Bool
  pub has_options : Bool
  pub valid : Bool

unfoldable pub parse_add_options : List Bytes → ParsedOptions
unfolding option_loop
parse_add_options args =
    let o = option_loop args (no_options (is_even args)) in
    record {
      cookie = o.cookie;
      referrer = o.referrer;
      expected_sha256 = o.sha256;
      speed_limit_bps = o.speed_limit;
      extra_headers = not (is_end o.headers);
      has_options = o.has_options;
      valid = o.valid;
    }
