-- ===== src/Gui/Events.antt =====
-- src/gui/gui_controller.c: what a command makes the controller tell the window.
use cdm.Prelude.{
  ℕ, ◌+◌, ◌≤◌, ◌<◌, ◌≡◌, refl, ap, subst, Bool, true, false, Option, none, some, List, [], ◌∷◌,
  ◌++◌, Bytes, length, arith, length-append, if◌then◌else◌, codes,
}
use cdm.Ipc.{max_url_len, max_path_len}
use cdm.Gui.Ring.{event_cap}
use cdm.Gui.Fifo.{Shows, ring_put-Shows}
use cdm.Gui.Controller.{
  CommandType, add_it, pause_it, resume_it, cancel_it, details_of, Options, GuiControllerCommand,
  copied, passed, adding, pausing, resuming, canceling, GuiControllerEvent, operation, details,
  failure, Client, Events, zero_event, publish, gui_controller_publish, publish_operation,
  publish_error, finish_operation, finish_details, process_command,
}

append-append : {A : Type 0} (xs ys zs : List A) → (xs ++ ys) ++ zs ≡ xs ++ (ys ++ zs)
append-append [] ys zs = refl
append-append (x ∷ xs) ys zs = ap (x ∷◌) (append-append xs ys zs)

abbrev message : CommandType → Bytes
message add_it = codes "Download could not be added"
message pause_it = codes "Download operation failed"
message resume_it = codes "Download operation failed"
message cancel_it = codes "Download operation failed"
message details_of = codes "Download details are unavailable"

abbrev is_found : {D : Type 0} → Option D → Bool
is_found none = false
is_found (some d) = true

module _ {R D : Type 0} where
  abbrev succeeded : Client R D → GuiControllerCommand → Options → Bool
  succeeded client c o = elim c.kind [
    | add_it ↦ (client.add_download c.url c.dest_path (passed o)).0
    | pause_it ↦ client.pause_download c.id
    | resume_it ↦ client.resume_download c.id
    | cancel_it ↦ client.cancel_download c.id
    | details_of ↦ is_found (client.get_details c.id)
  ]

  abbrev told : Client R D → GuiControllerCommand → Options → GuiControllerEvent R D
  told client c o = elim c.kind [
    | add_it ↦
        let (ok, id) = client.add_download c.url c.dest_path (passed o) in
        operation adding id (copied max_url_len c.url) (copied max_path_len c.dest_path) ok
    | pause_it ↦ operation pausing c.id [] [] (client.pause_download c.id)
    | resume_it ↦ operation resuming c.id [] [] (client.resume_download c.id)
    | cancel_it ↦ operation canceling c.id [] [] (client.cancel_download c.id)
    | details_of ↦ details c.id (client.get_details c.id)
  ]

  -- The outcome of the command, and behind it an error message exactly where the command failed.
  abbrev pub reported : Client R D → GuiControllerCommand → Options → List (GuiControllerEvent R D)
  reported client c o =
      told client c o ∷ (if succeeded client c o then [] else failure (message c.kind) ∷ [])

  publish-Shows :
      (e : GuiControllerEvent R D) (q : Events R D) (xs : List (GuiControllerEvent R D))
      → Shows event_cap zero_event q xs
      → length xs < event_cap
      → Shows event_cap zero_event (publish e q) (xs ++ (e ∷ []))
  unfolding gui_controller_publish
  publish-Shows e q xs s h = (ring_put-Shows event_cap zero_event q xs e s h).1

  -- The event, and behind it the message where the outcome is false.
  both_published :
      (ok : Bool) (e f : GuiControllerEvent R D) (q : Events R D)
      (xs : List (GuiControllerEvent R D))
      → Shows event_cap zero_event q xs
      → length xs + 2 ≤ event_cap
      → Shows event_cap zero_event
          (if ok then publish e q else publish f (publish e q))
          (xs ++ (e ∷ (if ok then [] else f ∷ [])))
  both_published true e f q xs s h = publish-Shows e q xs s (omega arith)
  both_published false e f q xs s h =
      let one_more = length-append xs (e ∷ []) in
      let s' =
        publish-Shows f (publish e q) (xs ++ (e ∷ [])) (publish-Shows e q xs s (omega arith))
          (omega arith) in
      subst (Shows event_cap zero_event (publish f (publish e q)))
        (append-append xs (e ∷ []) (f ∷ [])) s'

  details_published :
      (id : ℕ) (found : Option D) (q : Events R D) (xs : List (GuiControllerEvent R D))
      → Shows event_cap zero_event q xs
      → length xs + 2 ≤ event_cap
      → Shows event_cap zero_event (finish_details id found q) (
          xs
          ++ (details id found
              ∷ (if is_found found then [] else failure (message details_of) ∷ [])))
  unfolding finish_details publish_error
  details_published id none q xs s h =
      both_published false (details id none) (failure (message details_of)) q xs s h
  details_published id (some d) q xs s h =
      both_published true (details id (some d)) (failure (message details_of)) q xs s h

  process_kind :
      (k : CommandType) (client : Client R D) (c : GuiControllerCommand) (o : Options)
      (q : Events R D) (xs : List (GuiControllerEvent R D))
      → c.kind ≡ k
      → Shows event_cap zero_event q xs
      → length xs + 2 ≤ event_cap
      → Shows event_cap zero_event (process_command client c o q) (xs ++ reported client c o)
  unfolding process_command finish_operation publish_operation publish_error
  process_kind add_it client c o q xs e s h = rw e (
      both_published (client.add_download c.url c.dest_path (passed o)).0
        (operation adding (client.add_download c.url c.dest_path (passed o)).1
          (copied max_url_len c.url) (copied max_path_len c.dest_path)
          (client.add_download c.url c.dest_path (passed o)).0)
        (failure (message add_it)) q xs s h)
  process_kind pause_it client c o q xs e s h = rw e (
      both_published (client.pause_download c.id)
        (operation pausing c.id [] [] (client.pause_download c.id)) (failure (message pause_it)) q
        xs s h)
  process_kind resume_it client c o q xs e s h = rw e (
      both_published (client.resume_download c.id)
        (operation resuming c.id [] [] (client.resume_download c.id)) (failure (message resume_it))
        q xs s h)
  process_kind cancel_it client c o q xs e s h = rw e (
      both_published (client.cancel_download c.id)
        (operation canceling c.id [] [] (client.cancel_download c.id)) (failure (message cancel_it))
        q xs s h)
  process_kind details_of client c o q xs e s h =
      rw e (details_published c.id (client.get_details c.id) q xs s h)

  -- Where the ring of events has room for two more, a command puts in its outcome, and behind that an
  -- error message exactly where it failed.
  pub process_command-reported :
      (client : Client R D) (c : GuiControllerCommand) (o : Options) (q : Events R D)
      (xs : List (GuiControllerEvent R D))
      → Shows event_cap zero_event q xs
      → length xs + 2 ≤ event_cap
      → Shows event_cap zero_event (process_command client c o q) (xs ++ reported client c o)
  process_command-reported client c o q xs s h = process_kind c.kind client c o q xs refl s h
