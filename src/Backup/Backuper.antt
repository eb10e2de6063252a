-- ===== src/Backup/Backuper.antt =====
-- Backup of pkg/backup/backuper.go: the directory is the names of its files, and a file's path is its name. Opening
-- databases and copying them are calls that may fail; sizes are a parameter, and times are left out.
use Prim.Native.String.{◌++◌ as str_append}
use go_tableland.Steps.{Calls, Run, pure, fail, lift, on_error, ◌>>=◌, ◌>>◌, call}
use go_tableland.Prelude.{
  ℤ, pos, ℕ, suc, String, str_append, Bool, false, Option, none, some, List, [], ◌∷◌, str_eq, ◌==◌,
  if◌then◌else◌,
}
use go_tableland.Errors.{GoError, text, formatted, flattened, Result, ok, err, panic}
use go_tableland.Backup.{FileInfo, remove_name, prune}

-- Config
pub record BackupConfig : Type 0 where
  pub compression : Bool
  pub pruning : Bool
  pub vacuum : Bool
  pub keep_files : ℤ

unfoldable pub default_backup_config : BackupConfig
default_backup_config = record {
  compression = false;
  pruning = false;
  vacuum = false;
  keep_files = pos 5;
}

unfoldable pub with_compression : Bool → BackupConfig → BackupConfig
with_compression b c = record c { compression = b }

unfoldable pub with_pruning : Bool → ℤ → BackupConfig → BackupConfig
with_pruning b keep c = record c { pruning = b; keep_files = keep }

unfoldable pub with_vacuum : Bool → BackupConfig → BackupConfig
with_vacuum b c = record c { vacuum = b }

-- BackupResult
pub record BackupResult : Type 0 where
  pub path : String
  pub size : ℕ
  pub size_after_vacuum : ℕ
  pub size_after_compression : ℕ

-- A Backuper's field `backup`, once it is set, and the directory.
pub record BackupState : Type 0 where
  pub backup : Option String
  pub names : List String

-- SQLite's backup: Backup, Step, Remaining and Finish.
pub record SqliteBackup : Type 0 where
  pub opened : Result (Unit {0})
  pub step : Result Bool
  pub remaining : ℕ
  pub finished : Result (Unit {0})

unfoldable pub add_name : String → List String → List String
add_name n [] = n ∷ []
add_name n (x ∷ xs) = let rest = add_name n xs in if str_eq x n then x ∷ xs else x ∷ rest

-- doBackupRaw
unfoldable pub do_backup_raw : SqliteBackup → Run BackupState (Unit {0})
unfolding on_error lift fail
do_backup_raw b = do
  on_error (flattened "failed to initialize the backup") (lift b.opened)
  is_done ← on_error (flattened "failed to perform the backup step") (lift b.step)
  (if is_done then pure tt else fail (text "backup is unexpectedly not done"))
  (if b.remaining == 0
      then pure tt
      else fail (formatted "unexpected remaining value" (b.remaining ∷ [])))
  on_error (flattened "failed to finish backup") (lift b.finished)

module _ (fault : ℕ → Option GoError) (info : String → Result FileInfo)
    (sort : List FileInfo → List FileInfo) (size_of : ℕ → String → ℕ) where
  -- A call with no effect on the directory.
  unfoldable pub attempt : String → Run BackupState (Unit {0})
  unfolding on_error call
  attempt context = on_error (flattened context) (call fault (λ s. (ok tt, s)))

  unfoldable pub create_backup_file : String → Run BackupState (Unit {0})
  unfolding on_error call add_name
  create_backup_file filename =
      on_error (flattened "creating backup file")
        (call fault (λ s. (ok tt, record s { names = add_name filename s.names })))

  unfoldable pub set_backup : String → Run BackupState (Unit {0})
  set_backup filename w = (ok tt, record w { state = record w.state { backup = some filename } })

  -- init
  unfoldable pub init_backup : String → Run BackupState (Unit {0})
  unfolding attempt create_backup_file set_backup
  init_backup filename = do
    attempt "opening source db"
    create_backup_file filename
    attempt "opening backup db"
    set_backup filename

  unfoldable pub path_of : Option String → Result String
  path_of none = panic "invalid memory address or nil pointer dereference"
  path_of (some p) = ok p

  -- b.backup.Path()
  unfoldable pub backup_path : Run BackupState String
  unfolding path_of
  backup_path w = (path_of w.state.backup, w)

  -- A size at the time of a call.
  unfoldable pub file_size : String → Run BackupState ℕ
  file_size path w = (ok (size_of w.calls path), w)

  unfoldable pub get_file_size : String → Run BackupState ℕ
  unfolding attempt file_size
  get_file_size path = do attempt "os stat"; file_size path

  unfoldable pub do_vacuum : Run BackupState ℕ
  unfolding attempt backup_path get_file_size on_error
  do_vacuum = do
    attempt "exec vacuum"
    path ← backup_path
    on_error (flattened "get file size") (get_file_size path)

  unfoldable pub do_compress : String → Run BackupState (String × ℕ)
  unfolding on_error call add_name get_file_size pure
  do_compress path = do
    let compressed = str_append path ".zst"
    on_error (flattened "compress")
        (call fault (λ s. (ok tt, record s { names = add_name compressed s.names })))
    size ← on_error (flattened "get file size") (get_file_size compressed)
    pure (compressed, size)

  unfoldable pub remove_file : String → BackupState → BackupState
  unfolding remove_name
  remove_file path s = record s { names = remove_name path s.names }

  -- Prune, on the directory.
  unfoldable pub in_directory : {A : Type 0} → Run (List String) A → Run BackupState A
  in_directory m w =
      let (r, w') = m (record { state = w.state.names; calls = w.calls }) in
      (r, record { state = record w.state { names = w'.state }; calls = w'.calls })

  unfoldable pub vacuumed : BackupConfig → Run BackupState ℕ
  unfolding do_vacuum on_error pure
  vacuumed c = if c.vacuum then on_error (flattened "do vacuum") do_vacuum else pure 0

  unfoldable pub compressed : BackupConfig → String → Run BackupState (String × ℕ)
  unfolding do_compress remove_file on_error call pure backup_path
  compressed c path =
      if c.compression
      then (do
        r ← on_error (flattened "do compress") (do_compress path)
        old ← backup_path
        on_error (flattened "os remove") (call fault (λ s. (ok tt, remove_file old s)))
        pure r)
      else pure (path, 0)

  unfoldable pub pruned : BackupConfig → Run BackupState (Unit {0})
  unfolding in_directory prune on_error pure
  pruned c =
      if c.pruning
      then on_error (flattened "prune") (in_directory (prune fault info sort c.keep_files))
      else pure tt

  -- What Backup does with the copy at its path.
  unfoldable pub conclude : BackupConfig → String → Run BackupState BackupResult
  unfolding attempt get_file_size vacuumed compressed pruned on_error pure
  conclude c path = do
    size ← on_error (flattened "get file size") (get_file_size path)
    vacuum_size ← vacuumed c
    attempt "closing db connection"
    attempt "closing backup connection"
    (result, compressed_size) ← compressed c path
    pruned c
    pure (record {
      path = result;
      size = size;
      size_after_vacuum = vacuum_size;
      size_after_compression = compressed_size;
    })

  -- The body of Backup.
  unfoldable pub backup_steps : BackupConfig → SqliteBackup → String → Run BackupState BackupResult
  unfolding init_backup attempt do_backup_raw backup_path conclude on_error
  backup_steps c b filename = do
    on_error (flattened "initializing backup") (init_backup filename)
    attempt "getting db conn"
    attempt "getting backup db conn"
    on_error (λ e. flattened "backup" (flattened "backup raw" e)) (do_backup_raw b)
    path ← backup_path
    conclude c path

  -- The deferred function: os.Remove of the backup's path, whose error is dropped.
  unfoldable pub removed :
      GoError → Option String → Calls BackupState → Result BackupResult × Calls BackupState
  unfolding remove_file
  removed e none w = (panic "invalid memory address or nil pointer dereference", w)
  removed e (some p) w = elim (fault w.calls) [
    | some x ↦ (err e, record w { calls = suc w.calls })
    | none ↦ (err e, record { state = remove_file p w.state; calls = suc w.calls })
  ]

  unfoldable pub deferred :
      Result BackupResult → Calls BackupState → Result BackupResult × Calls BackupState
  unfolding removed
  deferred (ok r) w = (ok r, w)
  deferred (err e) w = removed e w.state.backup w
  deferred (panic s) w = (panic s, w)

  -- Backup
  unfoldable pub backup_database :
      BackupConfig → SqliteBackup → String → Run BackupState BackupResult
  unfolding backup_steps deferred
  backup_database c b filename w = let (r, w') = backup_steps c b filename w in deferred r w'
