-- ===== src/Paths/Unique.antt =====
-- src/utils/path.c, `path_make_unique` for POSIX: a name that no file has. `exists` is the answer of
-- `lstat`.
use cdm.Prelude.{
  ℕ, zero, suc, ◌+◌, ◌-◌, Bool, ◌&&◌, ◌||◌, Option, none, some, [], ◌∷◌, ◌++◌, Bytes, bytes_eq, leb,
  ◌==◌, if◌then◌else◌, take, length, decimal, codes,
}
use cdm.Paths.{last_part}

-- What `strrchr(name, '.')` points to; `found` where no '.' is left, [] standing for the end.
unfoldable pub from_last_dot : Bytes → Bytes → Bytes
from_last_dot found [] = found
from_last_dot found (c ∷ cs) = from_last_dot (if c == b'.' then c ∷ cs else found) cs

abbrev pub is_archive : Bytes → Bool
is_archive extension =
    bytes_eq extension (codes ".gz")
    || bytes_eq extension (codes ".bz2")
    || bytes_eq extension (codes ".xz")
    || bytes_eq extension (codes ".zst")

-- `name` without `end`, which it ends in.
abbrev pub without : Bytes → Bytes → Bytes
without name end = take (length name - length end) name

-- The extension, where a name that begins with its last '.' has none.
abbrev pub plain_extension : Bytes → Bytes
plain_extension filename =
    let extension = from_last_dot [] filename in
    if length extension == length filename then [] else extension

-- The extension with the "tar" of an archive.
unfoldable pub extension_of : Bytes → Bytes
unfolding from_last_dot
extension_of filename =
    let extension = plain_extension filename in
    let inner = from_last_dot [] (without filename extension) in
    if is_archive extension && bytes_eq inner (codes ".tar") then inner ++ extension else extension

-- The name that the loop tries for a suffix.
unfoldable pub numbered : Bytes → ℕ → Bytes
unfolding last_part extension_of decimal
numbered path suffix =
    let filename = last_part path path in
    let extension = extension_of filename in
    without path filename
    ++ (without filename extension ++ (b'(' ∷ (decimal suffix ++ (b')' ∷ extension))))

abbrev pub max_suffix : ℕ
max_suffix = 1000000

-- The loop from `suffix` on, with `left` rounds left.
unfoldable pub suffix_loop : (Bytes → Bool) → ℕ → Bytes → ℕ → ℕ → Option Bytes
unfolding numbered
suffix_loop exists out_size path zero suffix = none
suffix_loop exists out_size path (suc left) suffix =
    let rest = suffix_loop exists out_size path left (suffix + 1) in
    if leb out_size (length (numbered path suffix))
    then none
    else if exists (numbered path suffix)
    then rest
    else some (numbered path suffix)

unfoldable pub path_make_unique : (Bytes → Bool) → Bytes → ℕ → Option Bytes
path_make_unique exists path zero = none
path_make_unique exists path (suc room) =
    if exists path
    then suffix_loop exists (suc room) path (max_suffix - 1) 1
    else if leb (suc room) (length path)
    then none
    else some path
