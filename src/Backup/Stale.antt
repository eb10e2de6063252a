-- ===== src/Backup/Stale.antt =====
-- About Backup of pkg/backup/backuper.go where its databases cannot be opened.
use go_tableland.Steps.{Calls, Run, on_error, ◌>>=◌, ◌>>◌, call}
use go_tableland.Prelude.{ℕ, suc, String, ◌≡◌, refl, ap, ◌∙◌, Option, none, some, List}
use go_tableland.Errors.{GoError, flattened, Result, ok, err, panic}
use go_tableland.Backup.{FileInfo, remove_name}
use go_tableland.Backup.Backuper.{
  BackupConfig, BackupResult, BackupState, SqliteBackup, attempt, create_backup_file, set_backup,
  init_backup, remove_file, backup_steps, removed, deferred, backup_database,
}

bind-err :
    {A B : Type 0} (m : Run BackupState A) (k : A → Run BackupState B) (w w' : Calls BackupState)
    (x : GoError)
    → m w ≡ (err x, w')
    → (m >>= k) w ≡ (err x, w')
unfolding ◌>>=◌
bind-err m k w w' x h = rw (h) refl

on_error-err :
    {A : Type 0} (g : GoError → GoError) (m : Run BackupState A) (w w' : Calls BackupState)
    (x : GoError)
    → m w ≡ (err x, w')
    → on_error g m w ≡ (err (g x), w')
unfolding on_error
on_error-err g m w w' x h = rw (h) refl

module _ (fault : ℕ → Option GoError) (info : String → Result FileInfo)
    (sort : List FileInfo → List FileInfo) (size_of : ℕ → String → ℕ) where
  attempt-err :
      (context : String) (w : Calls BackupState) (e : GoError)
      → fault w.calls ≡ some e
      → attempt fault info sort size_of context w
        ≡ (err (flattened context e), record w { calls = suc w.calls })
  unfolding attempt
  attempt-err context w e f =
      on_error-err (flattened context) (call fault (λ s. (ok tt, s))) w
        (record w { calls = suc w.calls }) e (rw (f, call) refl)

  backup_steps-err :
      (c : BackupConfig) (b : SqliteBackup) (filename : String) (w : Calls BackupState)
      (e : GoError)
      → fault w.calls ≡ some e
      → backup_steps fault info sort size_of c b filename w ≡ (
        err (flattened "initializing backup" (flattened "opening source db" e)),
        record w { calls = suc w.calls },
      )
  unfolding backup_steps init_backup
  backup_steps-err c b filename w e f =
      let w' : Calls BackupState = record w { calls = suc w.calls } in
      bind-err _ _ w w' _ (
        on_error-err (flattened "initializing backup")
          (init_backup fault info sort size_of filename) w w' _
          (bind-err (attempt fault info sort size_of "opening source db")
            (λ u.
              create_backup_file fault info sort size_of filename
              >> (attempt fault info sort size_of "opening backup db"
                  >> set_backup fault info sort size_of filename))
            w w' _ (attempt-err "opening source db" w e f)))

  removed-file :
      (x : GoError) (last : String) (w : Calls BackupState)
      → fault w.calls ≡ none
      → (removed fault info sort size_of x (some last) w).1.state.names
        ≡ remove_name last w.state.names
  unfolding removed remove_file
  removed-file x last w f = rw (f, removed) refl

  failed-deferred :
      (c : BackupConfig) (b : SqliteBackup) (filename : String) (w : Calls BackupState)
      (e : GoError) (o : Option String)
      → fault w.calls ≡ some e
      → w.state.backup ≡ o
      → backup_database fault info sort size_of c b filename w
        ≡ removed fault info sort size_of
            (flattened "initializing backup" (flattened "opening source db" e))
            o
            (record w { calls = suc w.calls })
  unfolding backup_database deferred
  failed-deferred c b filename w e o f h =
      let w' : Calls BackupState = record w { calls = suc w.calls } in
      ap (λ (r : Result BackupResult × Calls BackupState). deferred fault info sort size_of r.0 r.1)
        (backup_steps-err c b filename w e f)
      ∙ ap
          (λ o.
            removed fault info sort size_of
              (flattened "initializing backup" (flattened "opening source db" e)) o w')
          h

  -- Where no backup was made before, the deferred function reads the path of none.
  backup_database-panics :
      (c : BackupConfig) (b : SqliteBackup) (filename : String) (w : Calls BackupState)
      (e : GoError)
      → fault w.calls ≡ some e
      → w.state.backup ≡ none
      → (backup_database fault info sort size_of c b filename w).0
        ≡ panic "invalid memory address or nil pointer dereference"
  unfolding removed
  backup_database-panics c b filename w e f h =
      ap (λ (r : Result BackupResult × Calls BackupState). r.0)
        (failed-deferred c b filename w e none f h)

  -- If an earlier call of Backup has set the backup, and now the source database cannot be opened
  -- while the call after that does not fail, then the directory after Backup is the one from
  -- before without the file of the earlier backup.
  pub backup_database-stale :
      (c : BackupConfig) (b : SqliteBackup) (filename last : String) (w : Calls BackupState)
      (e : GoError)
      → fault w.calls ≡ some e
      → fault (suc w.calls) ≡ none
      → w.state.backup ≡ some last
      → (backup_database fault info sort size_of c b filename w).1.state.names
        ≡ remove_name last w.state.names
  backup_database-stale c b filename last w e f g h =
      ap (λ (r : Result BackupResult × Calls BackupState). r.1.state.names)
        (failed-deferred c b filename w e (some last) f h)
      ∙ removed-file (flattened "initializing backup" (flattened "opening source db" e)) last
          (record w { calls = suc w.calls }) g
