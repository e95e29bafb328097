-- ===== src/Cli/Requests.antt =====
-- What `run_cli` sends, and the exit code that it ends with.
use cdm.Prelude.{
  ℕ, ◌<◌, ◌≡◌, refl, sym, subst, true, false, Option, none, some, List, [], ◌∷◌, Bytes, Bool-cases,
  Option-cases, bytes_eq, if◌then◌else◌, length, codes, u32_mod, arith, inl, inr,
}
use cdm.Paths.{path_filename_from_url, path_join}
use cdm.Paths.Unique.{path_make_unique}
use cdm.Paths.Fresh.{path_make_unique-Unique}
use cdm.Cli.{parse_add_options, parse_id, parse_u64, in_id_range}
use cdm.Cli.Commands.{
  Verb, pause, resume, cancel, Request, adds, changes, Console, Run, refuses, send_add, split_dir,
  or_empty, path_size, name_size, add_to, run_add, run_change, dispatch, run_cli,
}

-- What holds of a run: without a request it fails; a new download is for a path that no file has and
-- that fits, and the exit code is 0; a change is for an id of 32 bits that is not 0, and the exit code
-- says whether the daemon made it.
abbrev pub Sends : Console → ℕ → Option Request → Type 0
Sends w exit none = exit ≡ 1
Sends w exit (some (adds url path o)) =
    (exit ≡ 0) × (w.exists path ≡ false) × (length path < path_size)
Sends w exit (some (changes verb id)) =
    (exit ≡ (if w.done then 0 else 1)) × (0 < id) × (id < u32_mod)

abbrev SendsRun : Console → Run → Type 0
SendsRun w r = Sends w r.exit r.sent

in_id_range-some : (o : Option ℕ) (id : ℕ) → in_id_range o ≡ some id → (0 < id) × (id < u32_mod)
in_id_range-some none id h = cc
in_id_range-some (some n) id h = ground arith

add_to-Sends :
    (w : Console) (url : Bytes) (args : List Bytes) (full : Option Bytes)
    → Sends w (add_to w url args full).exit (add_to w url args full).sent
unfolding add_to
add_to-Sends w url args none = refl
add_to-Sends w url args (some full) =
    elim (Option-cases (path_make_unique w.exists full path_size)) [
      | inl e ↦
          let same : add_to w url args (some full) ≡ refuses = rw (add_to, e) refl in
          subst (SendsRun w) (sym same) refl
      | inr (path, e) ↦
          let same : add_to w url args (some full) ≡ send_add w url path (parse_add_options args) =
            rw (add_to, e) refl in
          let (free, fits, shape) = path_make_unique-Unique w.exists full path_size path e in
          subst (SendsRun w) (sym same) (sent path free fits)
    ]
  where
    sent :
        (path : Bytes)
        → w.exists path ≡ false
        → length path < path_size
        → Sends w
            (send_add w url path (parse_add_options args)).exit
            (send_add w url path (parse_add_options args)).sent
    sent path free fits = elim (Bool-cases (parse_add_options args).valid) [
      | inl ok ↦ rw ok (refl, free, fits)
      | inr bad ↦ rw bad refl
    ]

run_change-Sends :
    (w : Console) (verb : Verb) (text : Bytes)
    → Sends w (run_change w verb text).exit (run_change w verb text).sent
unfolding run_change parse_id
run_change-Sends w verb text = elim (Option-cases (in_id_range (parse_u64 text))) [
  | inl e ↦
      let same : run_change w verb text ≡ refuses = rw (run_change, e) refl in
      subst (SendsRun w) (sym same) refl
  | inr (id, e) ↦
      let sends : Run = record {
        exit = if w.done then 0 else 1;
        sent = some (changes verb id);
        closed = true;
      } in
      let same : run_change w verb text ≡ sends = rw (run_change, e) refl in
      let (pos, fits) = in_id_range-some (parse_u64 text) id e in
      subst (SendsRun w) (sym same) (refl, pos, fits)
]

dispatch-Sends :
    (w : Console) (cmd : Bytes) (args : List Bytes)
    → Sends w (dispatch w cmd args).exit (dispatch w cmd args).sent
unfolding dispatch run_add
dispatch-Sends w cmd [] = refl
dispatch-Sends w cmd (a ∷ args) = elim (Bool-cases (bytes_eq cmd (codes "add"))) [
  | inl e ↦
      let rest = (split_dir w.default_dir args).1 in
      let dir = (split_dir w.default_dir args).0 in
      rw e (
        add_to-Sends w a rest
          (path_join dir (or_empty (path_filename_from_url a name_size)) path_size))
  | inr no_add ↦ elim (Bool-cases (bytes_eq cmd (codes "pause"))) [
    | inl e ↦ rw (no_add, e) (run_change-Sends w pause a)
    | inr no_pause ↦ elim (Bool-cases (bytes_eq cmd (codes "resume"))) [
      | inl e ↦ rw (no_add, no_pause, e) (run_change-Sends w resume a)
      | inr no_resume ↦ elim (Bool-cases (bytes_eq cmd (codes "cancel"))) [
        | inl e ↦ rw (no_add, no_pause, no_resume, e) (run_change-Sends w cancel a)
        | inr e ↦ rw (no_add, no_pause, no_resume, e) refl
      ]
    ]
  ]
]

-- Whatever the arguments are: a run that sends no request fails. A download is added only for a path
-- that no file has and that fits, and the exit code is then 0. A change is sent only for an id of 32
-- bits that is not 0, and the exit code says whether the daemon made it.
pub run_cli-Sends :
    (w : Console) (args : List Bytes) → Sends w (run_cli w args).exit (run_cli w args).sent
unfolding run_cli
run_cli-Sends w [] = refl
run_cli-Sends w (cmd ∷ args) = elim (Bool-cases w.connected) [
  | inl e ↦ rw e (dispatch-Sends w cmd args)
  | inr e ↦ rw e refl
]
