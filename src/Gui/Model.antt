-- ===== src/Gui/Model.antt =====
-- src/gui/gui_model.c: the rows that the window shows. Each function holds the mutex for its whole body.
-- The rows behind `g_row_count` are never read, so the state is the list of the rows before it. A float
-- is its bit pattern.
use cdm.Prelude.{
  ℕ, zero, suc, Option, none, some, List, [], ◌∷◌, Bytes, length, take, ltb, ◌==◌, if◌then◌else◌,
  codes,
}
use cdm.Ipc.{max_url_len, max_path_len}
use cdm.Gui.Controller.{copied, max_rows}

pub record GuiRow : Type 0 where
  pub id : ℕ
  pub url : Bytes
  pub dest_path : Bytes
  pub status : Bytes
  pub progress : ℕ

abbrev pub status_size : ℕ
status_size = 16

-- A record of a snapshot has the fields of a row.
unfoldable pub row_of : GuiRow → GuiRow
row_of r = record {
  id = r.id;
  url = copied max_url_len r.url;
  dest_path = copied max_path_len r.dest_path;
  status = copied status_size r.status;
  progress = r.progress;
}

-- The loop with room for so many rows more.
unfoldable pub snapshot_loop : ℕ → List GuiRow → List GuiRow
unfolding row_of
snapshot_loop zero records = []
snapshot_loop (suc room) [] = []
snapshot_loop (suc room) (r ∷ rs) = row_of r ∷ snapshot_loop room rs

unfoldable pub gui_model_apply_snapshot : List GuiRow → List GuiRow → List GuiRow
unfolding snapshot_loop
gui_model_apply_snapshot records rows = snapshot_loop max_rows records

-- The first row with the id is changed.
unfoldable pub first_with : ℕ → (GuiRow → GuiRow) → List GuiRow → List GuiRow
first_with id change [] = []
first_with id change (r ∷ rs) = if r.id == id then change r ∷ rs else r ∷ first_with id change rs

-- An empty text leaves the status as it is.
unfoldable pub update_row : Bytes → ℕ → GuiRow → GuiRow
update_row [] progress r = record r { progress = progress }
update_row (b ∷ bs) progress r = record r {
  status = copied status_size (b ∷ bs);
  progress = progress;
}

unfoldable pub gui_model_apply_status_update : ℕ → Bytes → ℕ → List GuiRow → List GuiRow
unfolding first_with update_row
gui_model_apply_status_update id text progress rows = first_with id (update_row text progress) rows

unfoldable pub gui_model_apply_optimistic : ℕ → Bytes → List GuiRow → List GuiRow
unfolding first_with
gui_model_apply_optimistic id text rows =
    first_with id (λ r. record r { status = copied status_size text }) rows

abbrev pub or_empty : Option Bytes → Bytes
or_empty none = []
or_empty (some text) = text

-- The new row is the first one.
unfoldable pub gui_model_add_local_row : ℕ → Bytes → Option Bytes → List GuiRow → List GuiRow
gui_model_add_local_row id url dest_path rows =
    if ltb (length rows) max_rows
    then record {
      id = id;
      url = copied max_url_len url;
      dest_path = copied max_path_len (or_empty dest_path);
      status = codes "QUEUED";
      progress = 0;
    }
      ∷ rows
    else rows

unfoldable pub gui_model_snapshot_rows : ℕ → List GuiRow → List GuiRow
gui_model_snapshot_rows max rows = take max rows

-- The calls that change the rows.
pub data ModelCall : Type 0 where
  init : ModelCall
  apply_snapshot : List GuiRow → ModelCall
  apply_status_update : ℕ → Bytes → ℕ → ModelCall
  apply_optimistic : ℕ → Bytes → ModelCall
  add_local_row : ℕ → Bytes → Option Bytes → ModelCall

unfoldable pub model_call : ModelCall → List GuiRow → List GuiRow
unfolding gui_model_apply_snapshot gui_model_apply_status_update gui_model_apply_optimistic
    gui_model_add_local_row
model_call init rows = []
model_call (apply_snapshot records) rows = gui_model_apply_snapshot records rows
model_call (apply_status_update id text progress) rows =
    gui_model_apply_status_update id text progress rows
model_call (apply_optimistic id text) rows = gui_model_apply_optimistic id text rows
model_call (add_local_row id url dest_path) rows = gui_model_add_local_row id url dest_path rows

unfoldable pub model_calls : List ModelCall → List GuiRow → List GuiRow
unfolding model_call
model_calls [] rows = rows
model_calls (c ∷ cs) rows = model_calls cs (model_call c rows)
