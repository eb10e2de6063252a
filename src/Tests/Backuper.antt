-- ===== src/Tests/Backuper.antt =====
-- The properties of a backup in a directory with an older one.
use mathlib.Core.List.{Memᴰ}
use go_tableland.Steps.{Calls, pure, lift, on_error, ◌>>=◌, call}
use go_tableland.Prelude.{
  pos, ℕ, zero, suc, String, ◌≡◌, refl, true, false, Option, none, some, List, [], ◌∷◌,
}
use go_tableland.Errors.{GoError, text, Result, ok}
use go_tableland.Backup.{FileInfo, remove_name}
use go_tableland.Backup.Backuper.{
  BackupConfig, BackupResult, BackupState, SqliteBackup, add_name, do_backup_raw, attempt,
  create_backup_file, set_backup, init_backup, path_of, backup_path, file_size, get_file_size,
  do_vacuum, do_compress, remove_file, vacuumed, compressed, pruned, conclude, backup_steps,
  deferred, backup_database,
}
use go_tableland.Backup.Backed.{backup_database-ok}
use go_tableland.Backup.Stale.{backup_database-stale}

abbrev no_fault : ℕ → Option GoError
no_fault n = none

abbrev first_fault : ℕ → Option GoError
first_fault zero = some (text "unable to open database file")
first_fault (suc n) = none

abbrev info : String → Result FileInfo
info name = ok (record { name = name; mod_time = 3 })

abbrev sort : List FileInfo → List FileInfo
sort fs = fs

abbrev size_of : ℕ → String → ℕ
size_of n name = 9

abbrev config : BackupConfig
config = record { compression = true; pruning = false; vacuum = true; keep_files = pos 5 }

abbrev copied : SqliteBackup
copied = record { opened = ok tt; step = ok true; remaining = 0; finished = ok tt }

abbrev start : Calls BackupState
start = record {
  state = record { backup = some "tbl_backup_1.db"; names = "tbl_backup_1.db" ∷ [] };
  calls = 0;
}

abbrev result : BackupResult
result = record {
  path = "tbl_backup_2.db.zst";
  size = 9;
  size_after_vacuum = 9;
  size_after_compression = 9;
}

backs_up :
    (backup_database no_fault info sort size_of config copied "tbl_backup_2.db" start).0 ≡ ok result
unfolding backup_database backup_steps deferred conclude init_backup attempt create_backup_file
    set_backup do_backup_raw backup_path path_of get_file_size file_size vacuumed do_vacuum
    compressed do_compress remove_file pruned add_name remove_name ◌>>=◌ call on_error lift pure
backs_up = refl

backup_database-ok_example :
    (result.path ≡ "tbl_backup_2.db.zst")
    × Memᴰ result.path
        (backup_database no_fault info sort size_of config copied "tbl_backup_2.db"
          start).1.state.names
backup_database-ok_example =
    backup_database-ok no_fault info sort size_of config copied "tbl_backup_2.db" start result refl
      backs_up

backup_database-stale_example :
    (backup_database first_fault info sort size_of config copied "tbl_backup_2.db"
      start).1.state.names
    ≡ remove_name "tbl_backup_1.db" start.state.names
backup_database-stale_example =
    backup_database-stale first_fault info sort size_of config copied "tbl_backup_2.db"
      "tbl_backup_1.db" start (text "unable to open database file") refl refl refl
