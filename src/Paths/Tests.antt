-- ===== src/Paths/Tests.antt =====
-- The names of path.c at concrete inputs.
use cdm.Prelude.{
  ℕ, zero, suc, ◌≢◌, Bool, ◌||◌, bytes_eq, codes, decimal, digits_loop, arith, ◌≤◌, ◌<◌, ◌≡◌, refl,
  none, some, [], ◌∷◌, Bytes, length,
}
use cdm.Paths.{path_filename_from_url, last_part, before_query}
use cdm.Paths.Unique.{path_make_unique, suffix_loop, numbered, extension_of, from_last_dot}
use cdm.Paths.Fresh.{Unique, path_make_unique-Unique, path_make_unique-finds}

-- "a/b?c".
abbrev address : Bytes
address = b'a' ∷ b'/' ∷ b'b' ∷ b'?' ∷ b'c' ∷ []

name_of_address : path_filename_from_url address 512 ≡ some (b'b' ∷ [])
unfolding path_filename_from_url last_part before_query
name_of_address = refl

-- "d/a.tar.gz".
abbrev archive : Bytes
archive = codes "d/a.tar.gz"

abbrev two_taken : Bytes → Bool
two_taken path = bytes_eq path archive || bytes_eq path (codes "d/a(1).tar.gz")

numbered_archive : path_make_unique two_taken archive 20 ≡ some (codes "d/a(2).tar.gz")
unfolding path_make_unique suffix_loop numbered last_part extension_of from_last_dot decimal
    digits_loop
numbered_archive = refl

path_make_unique-Unique_example : Unique two_taken 20 archive (codes "d/a(2).tar.gz")
path_make_unique-Unique_example =
    path_make_unique-Unique two_taken archive 20 (codes "d/a(2).tar.gz") numbered_archive

path_make_unique-finds_example : path_make_unique two_taken archive 20 ≢ none
unfolding numbered last_part extension_of from_last_dot decimal digits_loop
path_make_unique-finds_example =
    path_make_unique-finds two_taken archive 20 2 (omega arith) (omega arith) refl (omega arith)
      short_names
  where
    short_names : (m : ℕ) → m ≤ 2 → length (numbered archive m) < 20
    short_names zero h = omega arith
    short_names (suc zero) h = omega arith
    short_names (suc (suc zero)) h = omega arith
    short_names (suc (suc (suc m))) h = absurd (omega arith)
