-- ===== src/Paths/Fresh.antt =====
-- The names that `path_make_unique` answers.
use cdm.Prelude.{
  ℕ, zero, suc, ◌+◌, ◌-◌, ◌≤◌, ◌<◌, ◌≡◌, ◌≢◌, refl, ap, sym, subst, ◌∙◌, ◌⊎◌, inl, inr, Bool, true,
  false, ◌&&◌, none, some, [], ◌∷◌, ◌++◌, Bytes, Bool-cases, bytes_eq, leb, ◌==◌, length,
  length-append, take-append_self, eq_or_ne, decimal, codes, arith,
}
use mathlib.Core.List.{append_assoc}
use cdm.Paths.{last_part}
use cdm.Paths.Names.{IsPlain, last_part-IsPlain}
use cdm.Paths.Unique.{
  from_last_dot, is_archive, without, plain_extension, extension_of, numbered, max_suffix,
  suffix_loop, path_make_unique,
}

-- `name` ends in `end`.
abbrev pub Ends : Bytes → Bytes → Type 0
Ends end name = (front : Bytes) × (name ≡ front ++ end)

Ends-refl : (s : Bytes) → Ends s s
Ends-refl s = ([], refl)

Ends-nil : (s : Bytes) → Ends [] s
Ends-nil [] = ([], refl)
Ends-nil (c ∷ cs) = let (front, e) = Ends-nil cs in (c ∷ front, ap (c ∷◌) e)

-- A step further into a string keeps its ends.
Ends-cons : (c : ℕ) (s t : Bytes) → Ends s t → Ends s (c ∷ t)
Ends-cons c s t (front, e) = (c ∷ front, ap (c ∷◌) e)

last_part-Ends :
    (name rest whole : Bytes) → Ends name whole → Ends rest whole → Ends (last_part name rest) whole
unfolding last_part
last_part-Ends name [] whole h k = h
last_part-Ends name (c ∷ rest) whole h (front, e) =
    let later : Ends rest whole = (front ++ (c ∷ []), e ∙ sym (append_assoc front (c ∷ []) rest)) in
    elim (Bool-cases (c == b'/')) [
      | inl slash ↦ rw slash (last_part-Ends rest rest whole later later)
      | inr other ↦ rw other (last_part-Ends name rest whole h later)
    ]

from_last_dot-Ends :
    (found rest whole : Bytes)
    → Ends found whole
    → Ends rest whole
    → Ends (from_last_dot found rest) whole
unfolding from_last_dot
from_last_dot-Ends found [] whole h k = h
from_last_dot-Ends found (c ∷ rest) whole h (front, e) =
    let later : Ends rest whole = (front ++ (c ∷ []), e ∙ sym (append_assoc front (c ∷ []) rest)) in
    elim (Bool-cases (c == b'.')) [
      | inl dot ↦ rw dot (from_last_dot-Ends (c ∷ rest) rest whole (front, e) later)
      | inr other ↦ rw other (from_last_dot-Ends found rest whole h later)
    ]

without-append : (front end : Bytes) → without (front ++ end) end ≡ front
without-append front end =
    let size : length (front ++ end) - length end ≡ length front =
      omega (arith, length-append front end) in
    rw size (take-append_self front end)

-- Nothing is lost where a name is cut before its end.
without-Ends : (name end : Bytes) → Ends end name → name ≡ without name end ++ end
without-Ends name end (front, e) =
    e
    ∙ ap (λ (s : Bytes). s ++ end)
        (sym (ap (λ (s : Bytes). without s end) e ∙ without-append front end))

plain_extension-Ends : (name : Bytes) → Ends (plain_extension name) name
plain_extension-Ends name =
    let dotted = from_last_dot-Ends [] name name (Ends-nil name) (Ends-refl name) in
    elim (Bool-cases (length (from_last_dot [] name) == length name)) [
      | inl e ↦ rw e (Ends-nil name)
      | inr e ↦ rw e dotted
    ]

extension_of-Ends : (name : Bytes) → Ends (extension_of name) name
unfolding extension_of
extension_of-Ends name =
    let extension : Bytes = plain_extension name in
    let stem : Bytes = without name extension in
    let cut : name ≡ stem ++ extension = without-Ends name extension (plain_extension-Ends name) in
    let inner : Bytes = from_last_dot [] stem in
    let (front, e) = from_last_dot-Ends [] stem stem (Ends-nil stem) (Ends-refl stem) in
    elim (Bool-cases (is_archive extension && bytes_eq inner (codes ".tar"))) [
      | inl tar ↦
          rw tar
            (front, cut ∙ ap (λ (s : Bytes). s ++ extension) e ∙ append_assoc front inner extension)
      | inr plain ↦ rw plain (plain_extension-Ends name)
    ]

IsPlain-append : (a b : Bytes) → IsPlain (a ++ b) → IsPlain b
IsPlain-append [] b h = h
IsPlain-append (c ∷ cs) b h = IsPlain-append cs b h.1

-- `out` is `path` with "(n)" inserted into its last part.
abbrev pub Inserted : Bytes → ℕ → Bytes → Type 0
Inserted path n out =
    (front : Bytes) × (back : Bytes) × (path ≡ front ++ back)
    × IsPlain back
    × (out ≡ front ++ (b'(' ∷ (decimal n ++ (b')' ∷ back))))

numbered-Inserted : (path : Bytes) (n : ℕ) → Inserted path n (numbered path n)
unfolding numbered
numbered-Inserted path n =
    let filename : Bytes = last_part path path in
    let extension : Bytes = extension_of filename in
    let (front, e) = extension_of-Ends filename in
    let cut : path ≡ without path filename ++ filename =
      without-Ends path filename
        (last_part-Ends path path path (Ends-refl path) (Ends-refl path)) in
    let stem : filename ≡ without filename extension ++ extension =
      without-Ends filename extension (front, e) in
    (
      without path filename ++ without filename extension,
      extension,
      cut
          ∙ ap (without path filename ++◌) stem
          ∙ sym (append_assoc (without path filename) (without filename extension) extension),
      IsPlain-append front extension (subst IsPlain e (last_part-IsPlain path)),
      sym (append_assoc (without path filename) (without filename extension) _),
    )

same_value : {a b : Bytes} → some a ≡ some b → a ≡ b
same_value h = cc h

differ : {b : Bool} → b ≡ true → b ≡ false → ⊥
differ h k = ground (arith, h, k)

leb_of_lt : (a b : ℕ) → b < a → leb a b ≡ false
leb_of_lt a b h = ground arith

lt_of_leb : (a b : ℕ) → leb a b ≡ false → b < a
lt_of_leb a b h = ground arith

-- What the loop answers from `suffix` on.
abbrev pub Chosen : (Bytes → Bool) → ℕ → Bytes → ℕ → Bytes → Type 0
Chosen exists out_size path suffix out =
    (n : ℕ) × (suffix ≤ n)
    × (out ≡ numbered path n)
    × (exists out ≡ false)
    × (length out < out_size)
    × ((m : ℕ) → suffix ≤ m → m < n → exists (numbered path m) ≡ true)

Chosen-next :
    (exists : Bytes → Bool) (out_size : ℕ) (path : Bytes) (suffix : ℕ) (out : Bytes)
    → exists (numbered path suffix) ≡ true
    → Chosen exists out_size path (suffix + 1) out
    → Chosen exists out_size path suffix out
Chosen-next exists out_size path suffix out taken (n, le, e, free, fits, below) =
    (n, omega arith, e, free, fits, λ m lo hi. at m lo hi (eq_or_ne m suffix))
  where
    at :
        (m : ℕ) → suffix ≤ m → m < n → (m ≡ suffix) ⊎ (m ≢ suffix) → exists (numbered path m) ≡ true
    at m lo hi (inl same) = subst (λ (k : ℕ). exists (numbered path k) ≡ true) (sym same) taken
    at m lo hi (inr other) = below m (omega arith) hi

suffix_loop-Chosen :
    (exists : Bytes → Bool) (out_size : ℕ) (path : Bytes) (left suffix : ℕ) (out : Bytes)
    → suffix_loop exists out_size path left suffix ≡ some out
    → Chosen exists out_size path suffix out
unfolding suffix_loop
suffix_loop-Chosen exists out_size path zero suffix out h = cc
suffix_loop-Chosen exists out_size path (suc left) suffix out h =
    elim (Bool-cases (leb out_size (length (numbered path suffix)))) [
      | inl long ↦ absurd (let h' = rw long at h in ground arith)
      | inr short ↦ elim (Bool-cases (exists (numbered path suffix))) [
        | inl taken ↦
            Chosen-next exists out_size path suffix out taken (
              suffix_loop-Chosen exists out_size path left (suffix + 1) out
                (rw (short, taken) at h))
        | inr free ↦
            let here : some (numbered path suffix) ≡ some out = rw (short, free) at h in
            let e : numbered path suffix ≡ out = same_value here in
            subst (Chosen exists out_size path suffix) e
              (suffix, omega arith, refl, free, ground arith, λ m lo hi. absurd (omega arith))
      ]
    ]

-- The loop gives up only where each number left is taken, or one makes the name too long.
suffix_loop-finds :
    (exists : Bytes → Bool) (out_size : ℕ) (path : Bytes) (left suffix n : ℕ)
    → suffix ≤ n
    → n < suffix + left
    → exists (numbered path n) ≡ false
    → ((m : ℕ) → m ≤ n → length (numbered path m) < out_size)
    → suffix_loop exists out_size path left suffix ≢ none
unfolding suffix_loop
suffix_loop-finds exists out_size path zero suffix n lo hi free fits h = absurd (omega arith)
suffix_loop-finds exists out_size path (suc left) suffix n lo hi free fits h =
    let room = fits suffix lo in
    let short : leb out_size (length (numbered path suffix)) ≡ false =
      leb_of_lt out_size (length (numbered path suffix)) room in
    elim (Bool-cases (exists (numbered path suffix))) [
      | inl taken ↦ elim (eq_or_ne suffix n) [
        | inl same ↦
            absurd (differ (subst (λ (k : ℕ). exists (numbered path k) ≡ true) same taken) free)
        | inr other ↦
            suffix_loop-finds exists out_size path left (suffix + 1) n (omega arith) (omega arith)
              free fits (rw (short, taken) at h)
      ]
      | inr here ↦
          absurd (let h' : some (numbered path suffix) ≡ none = rw (short, here) at h in cc)
    ]

-- What `path_make_unique` answers for `path`.
abbrev pub Unique : (Bytes → Bool) → ℕ → Bytes → Bytes → Type 0
Unique exists out_size path out =
    (exists out ≡ false)
    × (length out < out_size)
    × ((out ≡ path)
        ⊎ ((exists path ≡ true)
            × ((n : ℕ) × (0 < n)
                × Inserted path n out
                × ((m : ℕ) → 0 < m → m < n → exists (numbered path m) ≡ true))))

-- A path that `path_make_unique` answers is free and fits its array; it is the path itself, or else
-- the path is taken and has "(n)" inserted into its last part, with the smallest n whose name is free.
pub path_make_unique-Unique :
    (exists : Bytes → Bool) (path : Bytes) (out_size : ℕ) (out : Bytes)
    → path_make_unique exists path out_size ≡ some out
    → Unique exists out_size path out
unfolding path_make_unique
path_make_unique-Unique exists path zero out h = cc
path_make_unique-Unique exists path (suc room) out h = elim (Bool-cases (exists path)) [
  | inl taken ↦
      let (n, le, e, free, fits, below) =
        suffix_loop-Chosen exists (suc room) path (max_suffix - 1) 1 out (rw taken at h) in
      (
        free,
        fits,
        inr (taken, (n, le, subst (Inserted path n) (sym e) (numbered-Inserted path n), below)),
      )
  | inr free ↦ elim (Bool-cases (leb (suc room) (length path))) [
    | inl long ↦ absurd (let h' = rw (free, long) at h in ground arith)
    | inr short ↦
        let here : some path ≡ some out = rw (free, short) at h in
        let e : path ≡ out = same_value here in
        (
          ap exists (sym e) ∙ free,
          omega (arith, ap length e, lt_of_leb (suc room) (length path) short),
          inl (sym e),
        )
  ]
]

-- `path_make_unique` answers a path where one of the first 999999 numbers is free and no name up to it too long.
pub path_make_unique-finds :
    (exists : Bytes → Bool) (path : Bytes) (out_size n : ℕ)
    → 0 < n
    → n < max_suffix
    → exists (numbered path n) ≡ false
    → length path < out_size
    → ((m : ℕ) → m ≤ n → length (numbered path m) < out_size)
    → path_make_unique exists path out_size ≢ none
unfolding path_make_unique
path_make_unique-finds exists path zero n pos small free fits all h = absurd (omega arith)
path_make_unique-finds exists path (suc room) n pos small free fits all h =
    elim (Bool-cases (exists path)) [
      | inl taken ↦
          suffix_loop-finds exists (suc room) path (max_suffix - 1) 1 n pos (omega arith) free all
            (rw taken at h)
      | inr here ↦
          let short : leb (suc room) (length path) ≡ false = ground arith in
          absurd (let h' = rw (here, short) at h in ground arith)
    ]
