-- ===== src/Cli/Commands.antt =====
-- src/cli/cli.c: `run_cli`. What the connection, the file system and the daemon answer is a record.
use cdm.Prelude.{
  ℕ, Bool, true, false, ◌&&◌, Option, none, some, List, [], ◌∷◌, Bytes, bytes_eq, if◌then◌else◌,
  codes, ◌==◌,
}
use cdm.Paths.{path_filename_from_url, path_join}
use cdm.Paths.Unique.{path_make_unique}
use cdm.Cli.{ParsedOptions, parse_add_options, parse_id}

pub data Verb : Type 0 where
  pause resume cancel : Verb

-- The options as they are read when the request is sent.
pub record SentOptions : Type 0 where
  pub cookie : Option Bytes
  pub referrer : Option Bytes
  pub extra_headers : Option Bytes
  pub expected_sha256 : Option Bytes
  pub speed_limit_bps : ℕ

-- What is sent to the daemon.
pub data Request : Type 0 where
  adds : Bytes → Bytes → Option SentOptions → Request
  changes : Verb → ℕ → Request

-- `done` is whether the daemon answers a change with success, and `stale` what is read through a pointer
-- to the buffer of the headers once it is gone.
pub record Console : Type 0 where
  pub connected : Bool
  pub default_dir : Bytes
  pub exists : Bytes → Bool
  pub done : Bool
  pub stale : Bytes

-- `closed` is whether the socket was disconnected.
pub record Run : Type 0 where
  pub exit : ℕ
  pub sent : Option Request
  pub closed : Bool

abbrev pub refuses : Run
refuses = record { exit = 1; sent = none; closed = true }

-- strncmp(arg, "--", 2) == 0.
abbrev pub is_flag : Bytes → Bool
is_flag [] = false
is_flag (a ∷ []) = false
is_flag (a ∷ b ∷ rest) = (a == b'-') && (b == b'-')

abbrev pub or_dir : Bytes → Bytes → Bytes
or_dir default [] = default
or_dir default (c ∷ cs) = c ∷ cs

-- The directory and the options behind the URL.
abbrev pub split_dir : Bytes → List Bytes → Bytes × List Bytes
split_dir default [] = (default, [])
split_dir default (a ∷ rest) = if is_flag a then (default, a ∷ rest) else (or_dir default a, rest)

abbrev pub path_size : ℕ
path_size = 1024

abbrev pub name_size : ℕ
name_size = 512

abbrev pub sent_options : Bytes → ParsedOptions → SentOptions
sent_options stale o = record {
  cookie = o.cookie;
  referrer = o.referrer;
  extra_headers = if o.extra_headers then some stale else none;
  expected_sha256 = o.expected_sha256;
  speed_limit_bps = o.speed_limit_bps;
}

-- The request for a path that is free. The exit code is 0 whatever id the daemon answers.
abbrev pub send_add : Console → Bytes → Bytes → ParsedOptions → Run
send_add w url path o =
    if o.valid
    then record {
      exit = 0;
      sent = some (adds url path (if o.has_options then some (sent_options w.stale o) else none));
      closed = true;
    }
    else refuses

unfoldable pub add_to : Console → Bytes → List Bytes → Option Bytes → Run
unfolding path_make_unique parse_add_options
add_to w url args none = refuses
add_to w url args (some full_path) = elim (path_make_unique w.exists full_path path_size) [
  | none ↦ refuses
  | some path ↦ send_add w url path (parse_add_options args)
]

abbrev pub or_empty : Option Bytes → Bytes
or_empty none = []
or_empty (some s) = s

unfoldable pub run_add : Console → Bytes → List Bytes → Run
unfolding path_filename_from_url path_join add_to
run_add w url args =
    let (dir, rest) = split_dir w.default_dir args in
    add_to w url rest (path_join dir (or_empty (path_filename_from_url url name_size)) path_size)

unfoldable pub run_change : Console → Verb → Bytes → Run
unfolding parse_id
run_change w verb text = elim (parse_id text) [
  | none ↦ refuses
  | some id ↦ record {
    exit = if w.done then 0 else 1;
    sent = some (changes verb id);
    closed = true;
  }
]

-- The dispatch on the command, which has `args` behind it.
unfoldable pub dispatch : Console → Bytes → List Bytes → Run
unfolding run_add run_change
dispatch w cmd [] = refuses
dispatch w cmd (a ∷ args) =
    if bytes_eq cmd (codes "add")
    then run_add w a args
    else if bytes_eq cmd (codes "pause")
    then run_change w pause a
    else if bytes_eq cmd (codes "resume")
    then run_change w resume a
    else if bytes_eq cmd (codes "cancel")
    then run_change w cancel a
    else refuses

-- `argv` behind the program's name.
unfoldable pub run_cli : Console → List Bytes → Run
unfolding dispatch
run_cli w [] = record { exit = 1; sent = none; closed = false }
run_cli w (cmd ∷ args) =
    if w.connected then dispatch w cmd args else record { exit = 1; sent = none; closed = false }
