-- ===== src/Persistence/Tests.antt =====
-- A run of `db_restore_queue` at concrete rows.
use cdm.Prelude.{◌≡◌, refl, true, none, some, List, [], ◌∷◌, codes, arith, pos, map}
use cdm.Download.{queued, paused}
use cdm.Scheduler.Workers.{start}
use cdm.Scheduler.Interleave.{Sound}
use cdm.Persistence.{DbRow, FoundRow, restored_queue}
use cdm.Persistence.Restored.{IdsOk, restored_queue-Sound}

abbrev was_active : DbRow
was_active = record {
  id = 4;
  url = some (codes "http://h/f");
  dest_path = some (codes "/d/f");
  total_size = 10;
  status = codes "ACTIVE";
  priority = pos 0;
  cookie = none;
  referrer = none;
  extra_headers = none;
  expected_sha256 = none;
  speed_limit_bps = 0;
  reserved_file = true;
}

abbrev two_rows : List FoundRow
two_rows =
    record { row = was_active; chunk_rows = []; entry_memory = true; request_memory = true }
    ∷ record {
      row = record was_active { id = 2; status = codes "PAUSED" };
      chunk_rows = [];
      entry_memory = true;
      request_memory = true;
    }
    ∷ []

-- What was active is queued again, and the ids go on behind the greatest that the database has.
restored_statuses :
    map (λ d. d.status) (restored_queue true true two_rows 9).entries ≡ paused ∷ queued ∷ []
unfolding restored_queue
restored_statuses = refl

restored_next_id : (restored_queue true true two_rows 9).next_id ≡ 10
unfolding restored_queue
restored_next_id = refl

two_rows-IdsOk : IdsOk two_rows
two_rows-IdsOk = (omega arith, omega arith)

restored_queue-Sound_example : Sound (start (restored_queue true true two_rows 9))
restored_queue-Sound_example = restored_queue-Sound true true two_rows 9 two_rows-IdsOk
