-- ===== src/Paths.antt =====
-- src/utils/path.c, for POSIX: the file name of a URL, and the join of a directory and a name. The
-- sizes of the callers' arrays are arguments.
pub mod Names
pub mod Unique
pub mod Fresh
mod Tests
use cdm.Prelude.{
  ℕ, zero, suc, ◌+◌, ◌-◌, Bool, true, false, Option, none, some, List, [], ◌∷◌, ◌++◌, Bytes, ltb,
  leb, ◌==◌, if◌then◌else◌, take, length,
}

-- The part behind the last '/' of `rest`, or `name` where it has none.
unfoldable pub last_part : Bytes → Bytes → Bytes
last_part name [] = name
last_part name (c ∷ rest) = last_part (if c == b'/' then rest else name) rest

-- The string up to its first '?'.
unfoldable pub before_query : Bytes → Bytes
before_query [] = []
before_query (c ∷ cs) = let rest = before_query cs in if c == b'?' then [] else c ∷ rest

-- "download.bin".
abbrev pub default_name : Bytes
default_name =
    b'd' ∷ b'o' ∷ b'w' ∷ b'n' ∷ b'l' ∷ b'o' ∷ b'a' ∷ b'd' ∷ b'.' ∷ b'b' ∷ b'i' ∷ b'n' ∷ []

abbrev pub or_default : Bytes → Bytes
or_default [] = default_name
or_default (c ∷ cs) = c ∷ cs

-- `none` where `out_size` is 0 and nothing is written.
unfoldable pub path_filename_from_url : Bytes → ℕ → Option Bytes
unfolding last_part before_query
path_filename_from_url url zero = none
path_filename_from_url url (suc room) =
    some (take room (or_default (before_query (take 511 (last_part url url)))))

-- dir[dir_len - 1] == '/', for a directory that is not empty.
unfoldable pub ends_in_separator : Bytes → Bool
ends_in_separator [] = false
ends_in_separator (c ∷ []) = c == b'/'
ends_in_separator (c ∷ d ∷ cs) = ends_in_separator (d ∷ cs)

unfoldable pub path_join : Bytes → Bytes → ℕ → Option Bytes
unfolding ends_in_separator
path_join dir filename out_size =
    let has_separator = ends_in_separator dir in
    let required = length dir + length filename + (if has_separator then 1 else 2) in
    if ltb out_size required
    then none
    else some (dir ++ (if has_separator then filename else b'/' ∷ filename))
