-- ===== src/Gui/Rows.antt =====
-- The rows of src/gui/gui_model.c and the sizes of their arrays.
use cdm.Prelude.{
  ℕ, zero, suc, ◌-◌, ◌≤◌, ◌<◌, ◌≡◌, refl, ap, ◌∙◌, inl, inr, true, false, Option, none, some, List,
  [], ◌∷◌, Bytes, length, All, ltb, ◌==◌, if◌then◌else◌, arith, length-take, Bool-cases, ltb→lt,
}
use cdm.Ipc.{max_url_len, max_path_len}
use cdm.Gui.Controller.{copied, max_rows}
use cdm.Gui.Model.{
  GuiRow, status_size, row_of, snapshot_loop, gui_model_apply_snapshot, first_with, update_row,
  gui_model_apply_status_update, gui_model_apply_optimistic, or_empty, gui_model_add_local_row,
  ModelCall, init, apply_snapshot, apply_status_update, apply_optimistic, add_local_row, model_call,
  model_calls,
}

-- Each text fits its array with its NUL.
abbrev pub RowOk : GuiRow → Type 0
RowOk r =
    (length r.url < max_url_len)
    × (length r.dest_path < max_path_len)
    × (length r.status < status_size)

-- At most 256 rows, each of them in its arrays.
abbrev pub RowsOk : List GuiRow → Type 0
RowsOk rows = (length rows ≤ max_rows) × All RowOk rows

copied_fits : (size : ℕ) (text : Bytes) → 0 < size → length (copied size text) < size
copied_fits size text h = omega (arith, length-take (size - 1) text)

snapshot_loop-RowsOk :
    (room : ℕ) (rs : List GuiRow)
    → (length (snapshot_loop room rs) ≤ room) × All RowOk (snapshot_loop room rs)
unfolding snapshot_loop row_of
snapshot_loop-RowsOk zero rs = (omega arith, tt)
snapshot_loop-RowsOk (suc room) [] = (omega arith, tt)
snapshot_loop-RowsOk (suc room) (r ∷ rs) =
    let (short, rest) = snapshot_loop-RowsOk room rs in
    (
      (omega arith),
      (
        (
          copied_fits max_url_len r.url (omega arith),
          copied_fits max_path_len r.dest_path (omega arith),
          copied_fits status_size r.status (omega arith),
        ),
        rest,
      ),
    )

first_with-RowsOk :
    (id : ℕ) (change : GuiRow → GuiRow) (rs : List GuiRow)
    → ((r : GuiRow) → RowOk r → RowOk (change r))
    → All RowOk rs
    → (length (first_with id change rs) ≡ length rs) × All RowOk (first_with id change rs)
unfolding first_with
first_with-RowsOk id change [] f h = (refl, tt)
first_with-RowsOk id change (r ∷ rs) f (k, h) = elim (Bool-cases (r.id == id)) [
  | inl e ↦ rw e (refl, (f r k, h))
  | inr e ↦ let (same, rest) = first_with-RowsOk id change rs f h in rw e (ap suc same, (k, rest))
]

update_row-RowOk :
    (text : Bytes) (progress : ℕ) (r : GuiRow) → RowOk r → RowOk (update_row text progress r)
unfolding update_row
update_row-RowOk [] progress r h = h
update_row-RowOk (b ∷ bs) progress r (u, d, s) =
    (u, d, copied_fits status_size (b ∷ bs) (omega arith))

first_with-keeps :
    (id : ℕ) (change : GuiRow → GuiRow) (rs : List GuiRow)
    → ((r : GuiRow) → RowOk r → RowOk (change r))
    → RowsOk rs
    → RowsOk (first_with id change rs)
first_with-keeps id change rs f (short, h) =
    let (same, ok) = first_with-RowsOk id change rs f h in (omega arith, ok)

model_call-RowsOk : (c : ModelCall) (rows : List GuiRow) → RowsOk rows → RowsOk (model_call c rows)
unfolding model_call gui_model_apply_snapshot gui_model_apply_status_update
    gui_model_apply_optimistic gui_model_add_local_row
model_call-RowsOk init rows h = (omega arith, tt)
model_call-RowsOk (apply_snapshot records) rows h = snapshot_loop-RowsOk max_rows records
model_call-RowsOk (apply_status_update id text progress) rows h =
    first_with-keeps id (update_row text progress) rows (update_row-RowOk text progress) h
model_call-RowsOk (apply_optimistic id text) rows h =
    first_with-keeps id (λ r. record r { status = copied status_size text }) rows
      (λ r (u, d, s). (u, d, copied_fits status_size text (omega arith))) h
model_call-RowsOk (add_local_row id url dest_path) rows (short, h) =
    elim (Bool-cases (ltb (length rows) max_rows)) [
      | inl e ↦
          let room = ltb→lt (length rows) max_rows e in
          rw e (
            omega arith,
            (
              (
                copied_fits max_url_len url (omega arith),
                copied_fits max_path_len (or_empty dest_path) (omega arith),
                omega arith,
              ),
              h,
            ),
          )
      | inr e ↦ rw e (short, h)
    ]

-- Every sequence of calls, from any rows that fit, leaves at most 256 rows, and every text of a row fits
-- its array with its NUL.
pub model_calls-RowsOk :
    (cs : List ModelCall) (rows : List GuiRow) → RowsOk rows → RowsOk (model_calls cs rows)
unfolding model_calls
model_calls-RowsOk [] rows h = h
model_calls-RowsOk (c ∷ cs) rows h =
    model_calls-RowsOk cs (model_call c rows) (model_call-RowsOk c rows h)

-- The row that the window shows for an id, the first one with it.
abbrev pub find_row : ℕ → List GuiRow → Option GuiRow
find_row id [] = none
find_row id (r ∷ rs) = if r.id == id then some r else find_row id rs

abbrev pub changed_row : (GuiRow → GuiRow) → Option GuiRow → Option GuiRow
changed_row change none = none
changed_row change (some r) = some (change r)

find_row-first_with :
    (id other : ℕ) (change : GuiRow → GuiRow) (rows : List GuiRow)
    → ((r : GuiRow) → (change r).id ≡ r.id)
    → find_row other (first_with id change rows)
      ≡ (if other == id then changed_row change (find_row other rows) else find_row other rows)
unfolding first_with
find_row-first_with id other change [] f = elim (Bool-cases (other == id)) [
  | inl e ↦ rw e refl
  | inr e ↦ rw e refl
]
find_row-first_with id other change (r ∷ rs) f = elim (Bool-cases (r.id == id)) [
  | inl e ↦ elim (Bool-cases (r.id == other)) [
    | inl o ↦
        let same : (other == id) ≡ true = ground arith in
        let hit : ((change r).id == other) ≡ true = ap (λ k. k == other) (f r) ∙ o in
        rw (e, hit, o, same) refl
    | inr o ↦
        let same : (other == id) ≡ false = ground arith in
        let miss : ((change r).id == other) ≡ false = ap (λ k. k == other) (f r) ∙ o in
        rw (e, miss, o, same) refl
  ]
  | inr e ↦ elim (Bool-cases (r.id == other)) [
    | inl o ↦ let same : (other == id) ≡ false = ground arith in rw (e, o, same) refl
    | inr o ↦ rw (e, o) (find_row-first_with id other change rs f)
  ]
]

update_row-id : (text : Bytes) (progress : ℕ) (r : GuiRow) → (update_row text progress r).id ≡ r.id
unfolding update_row
update_row-id [] progress r = refl
update_row-id (b ∷ bs) progress r = refl

-- A status update changes the row that the window shows for its id, if there is one, to the new progress
-- and, unless its text is empty, to the new status; the row of every other id stays.
pub find_row-apply_status_update :
    (id other progress : ℕ) (text : Bytes) (rows : List GuiRow)
    → find_row other (gui_model_apply_status_update id text progress rows) ≡ (
        if other == id
        then changed_row (update_row text progress) (find_row other rows)
        else find_row other rows)
unfolding gui_model_apply_status_update
find_row-apply_status_update id other progress text rows =
    find_row-first_with id other (update_row text progress) rows (update_row-id text progress)
