-- ===== src/Cli/Tests.antt =====
-- The command line at concrete inputs.
use cdm.Prelude.{◌≡◌, refl, true, false, none, [], ◌∷◌, codes}
use cdm.Cli.{parse_u64, parse_add_options, strtoull, skip_spaces, signed, convert, read_digits}
use cdm.Cli.Commands.{Console, run_cli}
use cdm.Cli.Requests.{Sends, run_cli-Sends}

limit_with_rest : parse_u64 (codes "12x") ≡ none
unfolding parse_u64 strtoull skip_spaces signed convert read_digits
limit_with_rest = refl

abbrev fresh_disk : Console
fresh_disk = record {
  connected = true;
  default_dir = codes "/d";
  exists = λ path. false;
  done = true;
  stale = codes "?";
}

run_cli-Sends_example :
    Sends fresh_disk
      (run_cli fresh_disk (codes "add" ∷ codes "http://h/f" ∷ [])).exit
      (run_cli fresh_disk (codes "add" ∷ codes "http://h/f" ∷ [])).sent
run_cli-Sends_example = run_cli-Sends fresh_disk (codes "add" ∷ codes "http://h/f" ∷ [])

-- The headers that are sent are what the buffer's place holds by then.
stale_headers : (parse_add_options (codes "--header" ∷ codes "A: b" ∷ [])).extra_headers ≡ true
unfolding parse_add_options
stale_headers = refl
