-- ===== src/Backup.antt =====
-- Prune of pkg/backup/pruner.go: the directory of the backups as a list of names.
pub mod Pruned
pub mod Backuper
pub mod FileNames
pub mod BackupParts
pub mod Backed
pub mod Given
pub mod Stale
use Prim.Native.String.{slice}
use go_tableland.Prelude.{
  ℤ, pos, negsuc, ℕ, zero, suc, ◌-◌, String, len, Bool, ◌&&◌, ◌||◌, Option, List, [], ◌∷◌,
  starts_with, str_eq, leb, if◌then◌else◌, length,
}
use go_tableland.Errors.{GoError, text, flattened, Result, ok}
use go_tableland.Steps.{Run, pure, fail, lift, on_error, ◌>>=◌, ◌>>◌, call}

-- fs.FileInfo
pub record FileInfo : Type 0 where
  pub name : String
  pub mod_time : ℕ

-- strings.HasSuffix
unfoldable pub ends_with : String → String → Bool
ends_with s t = leb (len t) (len s) && str_eq (slice s (len s - len t) (len s)) t

-- A name of a backup: BackupFilenamePrefix, and either of the extensions.
unfoldable pub is_backup : String → Bool
unfolding ends_with
is_backup name = starts_with name "tbl_backup" && (ends_with name ".db" || ends_with name ".db.zst")

unfoldable pub take : ℕ → List FileInfo → List FileInfo
take zero fs = []
take (suc n) [] = []
take (suc n) (f ∷ fs) = f ∷ take n fs

unfoldable pub drop : ℕ → List FileInfo → List FileInfo
drop zero fs = fs
drop (suc n) [] = []
drop (suc n) (f ∷ fs) = drop n fs

unfoldable pub remove_name : String → List String → List String
remove_name n [] = []
remove_name n (x ∷ xs) = let rest = remove_name n xs in if str_eq x n then rest else x ∷ rest

-- `info` is DirEntry.Info, and `sort` is sort.Slice by the time of the last change.
module _ (fault : ℕ → Option GoError) (info : String → Result FileInfo)
    (sort : List FileInfo → List FileInfo) where
  -- DirEntry.Info of every backup
  unfoldable pub file_infos : List String → Run (List String) (List FileInfo)
  unfolding is_backup pure on_error lift
  file_infos [] = pure []
  file_infos (n ∷ ns) =
      let rest = file_infos ns in
      if is_backup n
      then (do fi ← on_error (flattened "file info") (lift (info n)); fis ← rest; pure (fi ∷ fis))
      else rest

  unfoldable pub read_backup_files : Run (List String) (List FileInfo)
  unfolding file_infos pure
  read_backup_files = do
    names ← on_error (flattened "read dir") (call fault (λ d. (ok d, d)))
    files ← file_infos names
    pure (sort files)

  unfoldable pub remove_files : List FileInfo → Run (List String) (Unit {0})
  unfolding remove_name pure
  remove_files [] = pure tt
  remove_files (f ∷ fs) = do
    on_error (flattened "os remove") (call fault (λ d. (ok tt, remove_name f.name d)))
    remove_files fs

  unfoldable pub prune_files : ℕ → List FileInfo → Run (List String) (Unit {0})
  unfolding remove_files pure take
  prune_files keep files =
      if leb (length files) keep then pure tt else remove_files (take (length files - keep) files)

  unfoldable pub prune : ℤ → Run (List String) (Unit {0})
  unfolding read_backup_files prune_files fail
  prune (negsuc n) = fail (text "keep less than one")
  prune (pos zero) = fail (text "keep less than one")
  prune (pos (suc keep)) = do
    files ← on_error (flattened "reading backup files") read_backup_files
    prune_files (suc keep) files
