-- ===== src/Ipc/Reserve.antt =====
-- src/platform/ipc_socket.c: `reserve_download`, which queues a download under a path that no file has,
-- and makes an empty file there.
use cdm.Prelude.{
  ℕ, zero, suc, Bool, true, false, Option, none, some, List, [], ◌∷◌, ◌++◌, Bytes, ◌==◌,
  if◌then◌else◌,
}
use cdm.Download.{RequestOptions}
use cdm.Queue.{Queue, Allocation, add, remove, on_entry}
use cdm.Paths.Unique.{path_make_unique}
use cdm.Ipc.{max_path_len}

-- The answers 0, -2 and -1 of `file_preallocate`.
pub data Claim : Type 0 where
  claimed exists failed : Claim

-- What one round of the loop meets: the files that `lstat` finds, whether the path is safe, what the
-- allocator answers, what `file_preallocate` answers, and whether the database took the row.
pub record Attempt : Type 0 where
  pub files : Bytes → Bool
  pub safe : Bool
  pub alloc : Allocation
  pub claim : Claim
  pub inserted : Bool

-- `unlinked` are the files that have been unlinked, in order.
pub record Reserved : Type 0 where
  pub id : ℕ
  pub queue : Queue
  pub unlinked : List Bytes

-- A round ends the loop or does not.
pub data Tried : Type 0 where
  stops : Reserved → Tried
  again : Queue → List Bytes → Tried

abbrev pub listed : Option Bytes → List Bytes
listed none = []
listed (some path) = path ∷ []

-- `download->reserved_file = true` for the entry with the id.
unfoldable pub mark_reserved : ℕ → Queue → Queue
unfolding on_entry
mark_reserved id q = (on_entry {0} id (λ d. (record d { reserved_file = true }, tt)) tt q).0

-- `queue_manager_remove` and what follows it in the round.
unfoldable pub gives_up : Bool → ℕ → List Bytes → Queue → Tried
gives_up goes_on id unlinked q =
    let (q', path) = remove id q in
    if goes_on
    then again q' (unlinked ++ listed path)
    else stops (record { id = 0; queue = q'; unlinked = unlinked ++ listed path })

-- The round once the download is queued, with an id that is not 0.
unfoldable pub claims : Claim → Bool → Bytes → ℕ → Queue → Tried
claims claimed inserted path id q =
    if inserted
    then stops (record { id = id; queue = mark_reserved id q; unlinked = [] })
    else gives_up false id (path ∷ []) (mark_reserved id q)
claims exists inserted path id q = gives_up true id [] q
claims failed inserted path id q = gives_up false id [] q

unfoldable pub reserve_round : Attempt → Bytes → RequestOptions → Bytes → Queue → Tried
reserve_round a url opts path q =
    let (q', id) = add a.safe a.alloc url path (some opts) q in
    if id == 0
    then stops (record { id = 0; queue = q'; unlinked = [] })
    else claims a.claim a.inserted path id q'

unfoldable pub try_unique : Attempt → Bytes → Bytes → RequestOptions → Queue → Tried
try_unique a url dest opts q = elim (path_make_unique a.files dest max_path_len) [
  | none ↦ stops (record { id = 0; queue = q; unlinked = [] })
  | some path ↦ reserve_round a url opts path q
]

abbrev pub before : List Bytes → Reserved → Reserved
before paths r = record r { unlinked = paths ++ r.unlinked }

-- The loop with `left` rounds left; `answers left` is what the next one meets.
unfoldable pub reserve_loop : ℕ → (ℕ → Attempt) → Bytes → Bytes → RequestOptions → Queue → Reserved
reserve_loop zero answers url dest opts q = record { id = 0; queue = q; unlinked = [] }
reserve_loop (suc left) answers url dest opts q = elim (try_unique (answers left) url dest opts q) [
  | stops r ↦ r
  | again q' unlinked ↦ before unlinked (reserve_loop left answers url dest opts q')
]

abbrev pub reserve_attempts : ℕ
reserve_attempts = 1000000

unfoldable pub reserve_download : (ℕ → Attempt) → Bytes → Bytes → RequestOptions → Queue → Reserved
reserve_download answers url dest opts q = reserve_loop reserve_attempts answers url dest opts q
