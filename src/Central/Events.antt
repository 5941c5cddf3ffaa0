-- ===== src/Central/Events.antt =====
-- crates/fs0-central/src/db/event.rs: the log of file changes.
use fs.Prelude.{
  ℕ, ◌+◌, Bool, Option, none, some, List, [], ◌∷◌, ◌++◌, length, take, get_last?, max, min, ltb,
  if◌then◌else◌,
}
use fs.Prelude.Rows.{select, order_by}
use fs.Core.Error.{Text}
use fs.Core.Convert.{column}
use fs.Core.Exec.{Exec, pure, lift, gets, modify, ◌>>=◌}
use fs.Core.Paths.{join_fs0_path}
use fs.Core.Protocol.{FileChangeLog, FileChangeLogKind, FileChangeLogs}
use fs.Central.Types.{CentralDb, FileEventRow}

-- `file_id.map(...).transpose()?`
abbrev pub optional_file_id : Option ℕ → Exec CentralDb (Option ℕ)
optional_file_id none = pure none
optional_file_id (some file_id) = do id ← lift (column file_id "file_id"); pure (some id)

abbrev pub target_dir : Option (Text × Text) → Option Text
target_dir none = none
target_dir (some target) = some target.0

abbrev pub target_name : Option (Text × Text) → Option Text
target_name none = none
target_name (some target) = some target.1

-- INSERT INTO file_events
abbrev pub with_event : FileEventRow → CentralDb → CentralDb
with_event row db = record db {
  file_events = db.file_events ++ (row ∷ []);
  event_seq = row.event_id;
}

unfoldable pub insert_file_change_log :
    FileChangeLogKind → Option (Text × Text) → Option ℕ → ℕ → Exec CentralDb (Unit {0})
insert_file_change_log kind new_target file_id created_at_ms = do
  id ← optional_file_id file_id
  now ← lift (column created_at_ms "created_at_ms")
  db ← gets (λ db. db)
  modify (
      with_event (record {
        event_id = db.event_seq + 1;
        kind = kind;
        new_dir = target_dir new_target;
        new_name = target_name new_target;
        file_id = id;
        created_at_ms = now;
      }))

abbrev pub new_path_of : Option Text → Option Text → Exec CentralDb (Option Text)
new_path_of (some dir) (some name) = do path ← lift (join_fs0_path dir name); pure (some path)
new_path_of none name = pure none
new_path_of (some dir) none = pure none

unfoldable pub row_to_file_change_log : FileEventRow → Exec CentralDb FileChangeLog
row_to_file_change_log row = do
  new_path ← new_path_of row.new_dir row.new_name
  pure (record {
    event_id = row.event_id;
    kind = row.kind;
    file_id = row.file_id;
    new_path = new_path;
    created_at_ms = row.created_at_ms;
  })

unfoldable pub rows_to_file_change_logs : List FileEventRow → Exec CentralDb (List FileChangeLog)
unfolding row_to_file_change_log
rows_to_file_change_logs [] = pure []
rows_to_file_change_logs (row ∷ rows) = do
  event ← row_to_file_change_log row
  events ← rows_to_file_change_logs rows
  pure (event ∷ events)

abbrev pub is_after : ℕ → FileEventRow → Bool
is_after event_id row = ltb event_id row.event_id

abbrev pub event_id_of : FileEventRow → ℕ
event_id_of row = row.event_id

abbrev pub last_event_id : List FileChangeLog → Option ℕ
last_event_id events = elim (get_last? events) [ none ↦ none | some e ↦ some e.event_id ]

-- One event more than the limit was read, if there is one.
unfoldable pub logs_page : ℕ → List FileChangeLog → FileChangeLogs
logs_page limit events =
    if ltb limit (length events)
    then record {
      operations = take limit events;
      next_event_id = last_event_id (take limit events);
    }
    else record { operations = events; next_event_id = none }

unfoldable pub get_file_change_logs : ℕ → ℕ → Exec CentralDb FileChangeLogs
unfolding rows_to_file_change_logs logs_page
get_file_change_logs after_event_id limit = do
  let limit : ℕ = max 1 (min limit 1024)
  after ← lift (column after_event_id "after_event_id")
  rows ← lift (column (limit + 1) "limit")
  db ← gets (λ db. db)
  events ←
      rows_to_file_change_logs
        (take rows (order_by event_id_of (select (is_after after) db.file_events)))
  pure (logs_page limit events)
