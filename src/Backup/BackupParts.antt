-- ===== src/Backup/BackupParts.antt =====
-- About the parts of Backup of pkg/backup/backuper.go: the directory that each of them leaves.
use Prim.Native.String.{◌++◌ as str_append}
use mathlib.Core.List.{Memᴰ}
use go_tableland.Steps.{pure, fail, lift, on_error, ◌>>=◌, ◌>>◌, call}
use go_tableland.Prelude.{
  ℕ, String, str_append, ◌≡◌, refl, sym, ap, ◌∙◌, true, Option, some, List, [], ◌∷◌, ◌==◌,
  if◌then◌else◌,
}
use go_tableland.Errors.{GoError, text, formatted, flattened, Result, ok, ok_injective}
use go_tableland.Backup.{FileInfo}
use go_tableland.Backup.Backuper.{
  BackupConfig, BackupState, SqliteBackup, add_name, do_backup_raw, attempt, create_backup_file,
  set_backup, init_backup, path_of, backup_path, file_size, get_file_size, do_vacuum, do_compress,
  remove_file, vacuumed, compressed,
}
use go_tableland.Backup.Given.{
  Gives, gives-bind, gives-on_error, gives-call, gives-pure, gives-lift, gives-fail, gives-if,
}
use go_tableland.Backup.FileNames.{Has, add_name-mem, remove_name-kept, longer}

module _ (fault : ℕ → Option GoError) (info : String → Result FileInfo)
    (sort : List FileInfo → List FileInfo) (size_of : ℕ → String → ℕ) where
  pub attempt-Gives :
      (P : BackupState → Type 0) (context : String)
      → Gives P (attempt fault info sort size_of context) (λ u. P)
  unfolding attempt
  attempt-Gives P context =
      gives-call P (λ u. P) fault (flattened context) (λ s. (ok tt, s)) (λ s a p e. p)

  pub init_backup-Gives :
      (f : String) → Gives (λ s. Unit) (init_backup fault info sort size_of f) (λ u. Has f)
  unfolding init_backup create_backup_file set_backup
  init_backup-Gives f =
      gives-bind (λ s. Unit) (λ u s. Unit) (λ u. Has f) _ _
        (attempt-Gives (λ s. Unit) "opening source db")
        λ u.
          gives-bind (λ s. Unit) (λ u s. Memᴰ f s.names) (λ u. Has f)
            (create_backup_file fault info sort size_of f) _
            (gives-call (λ s. Unit) (λ u s. Memᴰ f s.names) fault (flattened "creating backup file")
              (λ s. (ok tt, record s { names = add_name f s.names }))
              (λ s a p e. add_name-mem f s.names))
            λ u.
              gives-bind (λ s. Memᴰ f s.names) (λ u s. Memᴰ f s.names) (λ u. Has f) _ _
                (attempt-Gives (λ s. Memᴰ f s.names) "opening backup db") λ u. set_backup-Gives
    where
      set_backup-Gives :
          Gives (λ s. Memᴰ f s.names) (set_backup fault info sort size_of f) (λ u. Has f)
      set_backup-Gives w a p e = (refl, p)

  pub backup_path-Gives :
      (f : String) (X : BackupState → Type 0)
      → Gives
          (λ s. (s.backup ≡ some f) × X s)
          (backup_path fault info sort size_of)
          (λ p s. (p ≡ f) × ((s.backup ≡ some f) × X s))
  unfolding backup_path path_of
  backup_path-Gives f X w a (same, i) e =
      (sym (ok_injective (ap (path_of fault info sort size_of) (sym same) ∙ e)), (same, i))

  pub get_file_size-Gives :
      (P : BackupState → Type 0) (path : String)
      → Gives P (get_file_size fault info sort size_of path) (λ n. P)
  unfolding get_file_size file_size
  get_file_size-Gives P path =
      gives-bind P (λ u. P) (λ n. P) _ _ (attempt-Gives P "os stat") λ u w n p e. p

  pub vacuumed-Gives :
      (f : String) (c : BackupConfig)
      → Gives (Has f) (vacuumed fault info sort size_of c) (λ n. Has f)
  unfolding vacuumed do_vacuum
  vacuumed-Gives f c =
      gives-if (Has f) (λ n. Has f) c.vacuum _ _
        (λ e.
          gives-on_error (Has f) (λ n. Has f) (flattened "do vacuum")
            (do_vacuum fault info sort size_of)
            (gives-bind (Has f) (λ u. Has f) (λ n. Has f) _ _ (attempt-Gives (Has f) "exec vacuum")
              λ u.
                gives-bind (Has f) (λ p s. (p ≡ f) × Has f s) (λ n. Has f)
                  (backup_path fault info sort size_of) _
                  (backup_path-Gives f (λ s. Memᴰ f s.names))
                  λ p.
                    gives-on_error _ (λ n. Has f) (flattened "get file size")
                      (get_file_size fault info sort size_of p)
                      λ w a q h. get_file_size-Gives (Has f) p w a q.1 h))
        (λ e. gives-pure (Has f) (λ n. Has f) 0 (λ s p. p))

  pub do_backup_raw-Gives :
      (P : BackupState → Type 0) (b : SqliteBackup) → Gives P (do_backup_raw b) (λ u. P)
  unfolding do_backup_raw
  do_backup_raw-Gives P b =
      gives-bind P (λ u. P) (λ u. P) _ _
        (lifted b.opened (flattened "failed to initialize the backup"))
        λ u.
          gives-bind P (λ d. P) (λ u. P) _ _
            (lifted b.step (flattened "failed to perform the backup step"))
            λ d.
              gives-bind P (λ u. P) (λ u. P) _ _
                (gives-if P (λ u. P) d (pure tt) (fail (text "backup is unexpectedly not done"))
                  (λ e. gives-pure P (λ u. P) tt (λ s p. p)) (λ e. gives-fail P (λ u. P) _))
                λ u.
                  gives-bind P (λ u. P) (λ u. P) _ _
                    (gives-if P (λ u. P) (b.remaining == 0) (pure tt)
                      (fail (formatted "unexpected remaining value" (b.remaining ∷ [])))
                      (λ e. gives-pure P (λ u. P) tt (λ s p. p)) (λ e. gives-fail P (λ u. P) _))
                    λ u. lifted b.finished (flattened "failed to finish backup")
    where
      lifted :
          {A : Type 0} (r : Result A) (g : GoError → GoError)
          → Gives P (on_error g (lift r)) (λ a. P)
      lifted r g = gives-on_error P (λ a. P) g (lift r) (gives-lift P r)

  -- The name of the result.
  abbrev pub result_name : BackupConfig → String → String
  result_name c f = if c.compression then str_append f ".zst" else f

  abbrev pub Stored : String → String → BackupState → Type 0
  Stored f r s = Memᴰ r s.names

  pub do_compress-Gives :
      (f : String)
      → Gives
          (Has f)
          (do_compress fault info sort size_of f)
          (λ r s. (r.0 ≡ str_append f ".zst") × (s.backup ≡ some f) × Memᴰ r.0 s.names)
  unfolding do_compress
  do_compress-Gives f =
      gives-bind (Has f) (λ u. Made) (λ r s. (r.0 ≡ z) × (s.backup ≡ some f) × Memᴰ r.0 s.names) _ _
        (gives-call (Has f) (λ u. Made) fault (flattened "compress")
          (λ s. (ok tt, record s { names = add_name z s.names }))
          (λ s a p e. (p.0, add_name-mem z s.names)))
        λ u.
          gives-bind Made (λ n. Made) (λ r s. (r.0 ≡ z) × (s.backup ≡ some f) × Memᴰ r.0 s.names) _
            _
            (gives-on_error Made (λ n. Made) (flattened "get file size")
              (get_file_size fault info sort size_of z) (get_file_size-Gives Made z))
            λ n.
              gives-pure Made (λ r s. (r.0 ≡ z) × (s.backup ≡ some f) × Memᴰ r.0 s.names) (z, n)
                λ s p. (refl, p.0, p.1)
    where
      z : String
      z = str_append f ".zst"

      Made : BackupState → Type 0
      Made s = (s.backup ≡ some f) × Memᴰ z s.names

  pub compressed-Gives :
      (f : String) (c : BackupConfig)
      → Gives
          (Has f)
          (compressed fault info sort size_of c f)
          (λ r s. (r.0 ≡ result_name c f) × Memᴰ r.0 s.names)
  unfolding compressed remove_file
  compressed-Gives f c =
      gives-if (Has f) Q c.compression _ (pure (f, 0))
        (λ e.
          gives-bind (Has f) R Q
            (on_error (flattened "do compress") (do_compress fault info sort size_of f)) _
            (gives-on_error (Has f) R (flattened "do compress")
              (do_compress fault info sort size_of f) (do_compress-Gives f))
            λ r. compressed_rest r e)
        (λ e.
          gives-pure (Has f) Q (f, 0)
            (λ s p. (sym (ap (λ b. if b then str_append f ".zst" else f) e), p.1)))
    where
      Q : String × ℕ → BackupState → Type 0
      Q r s = (r.0 ≡ result_name c f) × Memᴰ r.0 s.names

      R : String × ℕ → BackupState → Type 0
      R r s = (r.0 ≡ str_append f ".zst") × (s.backup ≡ some f) × Memᴰ r.0 s.names

      X : String × ℕ → BackupState → Type 0
      X r s = Memᴰ r.0 s.names

      compressed_rest :
          (r : String × ℕ)
          → c.compression ≡ true
          → Gives
              (R r)
              (backup_path fault info sort size_of >>= λ old.
                on_error
                  (flattened "os remove")
                  (call fault (λ s. (ok tt, remove_file fault info sort size_of old s)))
                >> pure r)
              Q
      compressed_rest r e w a (z, same, i) h =
          gives-bind (λ s. (s.backup ≡ some f) × X r s)
            (λ p s. (p ≡ f) × ((s.backup ≡ some f) × X r s)) Q (backup_path fault info sort size_of)
            _ (backup_path-Gives f (X r))
            (λ old.
              gives-bind (λ s. (old ≡ f) × ((s.backup ≡ some f) × X r s)) (λ u s. X r s) Q
                (on_error (flattened "os remove")
                  (call fault (λ s. (ok tt, remove_file fault info sort size_of old s))))
                _
                (gives-call (λ s. (old ≡ f) × ((s.backup ≡ some f) × X r s)) (λ u s. X r s) fault
                  (flattened "os remove") (λ s. (ok tt, remove_file fault info sort size_of old s))
                  (λ s u p x.
                    remove_name-kept old r.0 s.names (λ eq. longer f (sym z ∙ eq ∙ p.0)) p.1.1))
                (λ u.
                  gives-pure (X r) Q r
                    (λ s p. (z ∙ sym (ap (λ b. if b then str_append f ".zst" else f) e), p))))
            w a (same, i) h
