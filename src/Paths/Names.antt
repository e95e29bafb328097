-- ===== src/Paths/Names.antt =====
-- The names that path.c makes.
use cdm.Prelude.{
  ℕ, zero, suc, ◌+◌, ◌≤◌, ◌<◌, ◌≡◌, refl, sym, subst, ltb→lt, inl, inr, ◌⊎◌, Bool, true, false,
  none, some, [], ◌∷◌, ◌++◌, Bytes, arith, ltb, ◌==◌, if◌then◌else◌, take, length, length-append,
  length-take, All, Bool-cases,
}
use cdm.Paths.{
  last_part, before_query, or_default, path_filename_from_url, ends_in_separator, path_join,
}

-- No byte of the name is a '/'.
abbrev pub IsPlain : Bytes → Type 0
IsPlain = All (λ c. (c == b'/') ≡ false)

-- The search keeps `name` where no '/' is left, and else finds a name with none.
last_part_cases :
    (name rest : Bytes)
    → ((last_part name rest ≡ name) × IsPlain rest) ⊎ IsPlain (last_part name rest)
unfolding last_part
last_part_cases name [] = inl (refl, tt)
last_part_cases name (c ∷ rest) = elim (Bool-cases (c == b'/')) [
  | inl slash ↦ elim (last_part_cases rest rest) [
    | inl (e, plain) ↦ inr (rw slash (subst IsPlain (sym e) plain))
    | inr plain ↦ inr (rw slash plain)
  ]
  | inr other ↦ elim (last_part_cases name rest) [
    | inl (e, plain) ↦ inl (rw other e, (other, plain))
    | inr plain ↦ inr (rw other plain)
  ]
]

pub last_part-IsPlain : (url : Bytes) → IsPlain (last_part url url)
last_part-IsPlain url = elim (last_part_cases url url) [
  | inl (e, plain) ↦ subst IsPlain (sym e) plain
  | inr plain ↦ plain
]

before_query-IsPlain : (s : Bytes) → IsPlain s → IsPlain (before_query s)
unfolding before_query
before_query-IsPlain [] h = tt
before_query-IsPlain (c ∷ cs) h = elim (Bool-cases (c == b'?')) [
  | inl query ↦ rw query tt
  | inr other ↦ rw other (h.0, before_query-IsPlain cs h.1)
]

take-IsPlain : (n : ℕ) (s : Bytes) → IsPlain s → IsPlain (take n s)
take-IsPlain zero s h = tt
take-IsPlain (suc n) [] h = tt
take-IsPlain (suc n) (c ∷ cs) h = (h.0, take-IsPlain n cs h.1)

or_default-IsPlain : (s : Bytes) → IsPlain s → IsPlain (or_default s)
or_default-IsPlain [] h = (
  refl,
  (refl, (refl, (refl, (refl, (refl, (refl, (refl, (refl, (refl, (refl, (refl, tt))))))))))),
)
or_default-IsPlain (c ∷ cs) h = h

-- For an array of at least one byte the name of a URL has no '/', and fits with its NUL.
pub path_filename_from_url_lem :
    (url : Bytes) (room : ℕ)
    → (name : Bytes) × (path_filename_from_url url (suc room) ≡ some name)
      × IsPlain name
      × (length name ≤ room)
unfolding path_filename_from_url
path_filename_from_url_lem url room = (
  _,
  refl,
  take-IsPlain room _
      (or_default-IsPlain _ (before_query-IsPlain _ (take-IsPlain 511 _ (last_part-IsPlain url)))),
  length-take room _,
)

joined_fits :
    (dir filename : Bytes) (out_size : ℕ) (separated : Bool)
    → ltb out_size (length dir + length filename + (if separated then 1 else 2)) ≡ false
    → length (dir ++ (if separated then filename else b'/' ∷ filename)) < out_size
joined_fits dir filename out_size true h = ground (arith, length-append dir filename)
joined_fits dir filename out_size false h = ground (arith, length-append dir (b'/' ∷ filename))

-- The joined path is the directory, a '/' where it does not end in one, and the name; it is made
-- exactly where it fits with its NUL.
pub path_join_lem :
    (dir filename : Bytes) (out_size : ℕ)
    → ((path_join dir filename out_size ≡ none)
        × (out_size < length dir + length filename + (if ends_in_separator dir then 1 else 2)))
      ⊎ ((path : Bytes) × (path_join dir filename out_size ≡ some path)
          × (path ≡ dir ++ (if ends_in_separator dir then filename else b'/' ∷ filename))
          × (length path < out_size))
unfolding path_join
path_join_lem dir filename out_size =
    elim (Bool-cases
      (ltb out_size (length dir + length filename + (if ends_in_separator dir then 1 else 2)))) [
        | inl long ↦ inl (rw long refl, ltb→lt _ _ long)
        | inr fits ↦
            inr (
              _,
              rw fits refl,
              refl,
              joined_fits dir filename out_size (ends_in_separator dir) fits,
            )
      ]
