-- ===== src/Backup/Backed.antt =====
-- About Backup of pkg/backup/backuper.go: the directory behind a backup that succeeds.
use mathlib.Core.List.{Memᴰ}
use go_tableland.Steps.{Calls, Run, pure, on_error, ◌>>◌}
use go_tableland.Prelude.{
  ℕ, String, ◌≡◌, refl, sym, subst, inl, inr, Bool, true, false, Option, none, some, List,
  Option-cases,
}
use go_tableland.Errors.{GoError, flattened, Result, ok, err, panic}
use go_tableland.Backup.{FileInfo}
use go_tableland.Backup.Backuper.{
  BackupConfig, BackupResult, BackupState, SqliteBackup, do_backup_raw, attempt, init_backup,
  backup_path, get_file_size, vacuumed, compressed, pruned, conclude, backup_steps, removed,
  deferred, backup_database,
}
use go_tableland.Backup.Given.{Gives, gives-bind, gives-on_error, gives-pure, gives-if}
use go_tableland.Backup.FileNames.{Has}
use go_tableland.Backup.BackupParts.{
  attempt-Gives, init_backup-Gives, backup_path-Gives, get_file_size-Gives, vacuumed-Gives,
  do_backup_raw-Gives, compressed-Gives, result_name,
}

module _ (fault : ℕ → Option GoError) (info : String → Result FileInfo)
    (sort : List FileInfo → List FileInfo) (size_of : ℕ → String → ℕ) where
  abbrev Backed : BackupConfig → String → BackupResult → BackupState → Type 0
  Backed c f r s = (r.path ≡ result_name fault info sort size_of c f) × Memᴰ r.path s.names

  attempted :
      (c : BackupConfig) (f context : String) (m : Run BackupState BackupResult)
      → Gives (Has f) m (Backed c f)
      → Gives (Has f) (attempt fault info sort size_of context >> m) (Backed c f)
  attempted c f context m g =
      gives-bind (Has f) (λ u. Has f) (Backed c f) (attempt fault info sort size_of context)
        (λ u. m) (attempt-Gives fault info sort size_of (Has f) context) λ u. g

  pruned-Gives :
      (P : BackupState → Type 0) (c : BackupConfig)
      → c.pruning ≡ false
      → Gives P (pruned fault info sort size_of c) (λ u. P)
  unfolding pruned
  pruned-Gives P c off =
      gives-if P (λ u. P) c.pruning _ (pure tt) (λ e. absurd (clash c.pruning e off))
        (λ e. gives-pure P (λ u. P) tt (λ s p. p))
    where
      clash : (b : Bool) → b ≡ true → b ≡ false → ⊥
      clash b p q = cc

  conclude-Gives :
      (c : BackupConfig) (f : String)
      → c.pruning ≡ false
      → Gives (Has f) (conclude fault info sort size_of c f) (Backed c f)
  unfolding conclude
  conclude-Gives c f off =
      gives-bind (Has f) (λ n. Has f) (Backed c f)
        (on_error (flattened "get file size") (get_file_size fault info sort size_of f)) _
        (gives-on_error (Has f) (λ n. Has f) (flattened "get file size")
          (get_file_size fault info sort size_of f)
          (get_file_size-Gives fault info sort size_of (Has f) f))
        λ size.
          gives-bind (Has f) (λ n. Has f) (Backed c f) (vacuumed fault info sort size_of c) _
            (vacuumed-Gives fault info sort size_of f c)
            λ vacuum_size. attempted c f "closing db connection" _ (
              attempted c f "closing backup connection" _ (
                gives-bind (Has f) C (Backed c f) (compressed fault info sort size_of c f) _
                  (compressed-Gives fault info sort size_of f c)
                  λ (r, n).
                    gives-bind (C (r, n)) (λ u. C (r, n)) (Backed c f)
                      (pruned fault info sort size_of c) _ (pruned-Gives (C (r, n)) c off)
                      λ u. gives-pure (C (r, n)) (Backed c f) _ (λ s p. p)))
    where
      C : String × ℕ → BackupState → Type 0
      C r s = (r.0 ≡ result_name fault info sort size_of c f) × Memᴰ r.0 s.names

  backup_steps-Gives :
      (c : BackupConfig) (b : SqliteBackup) (f : String)
      → c.pruning ≡ false
      → Gives (λ s. Unit) (backup_steps fault info sort size_of c b f) (Backed c f)
  unfolding backup_steps
  backup_steps-Gives c b f off =
      gives-bind (λ s. Unit) (λ u. Has f) (Backed c f)
        (on_error (flattened "initializing backup") (init_backup fault info sort size_of f)) _
        (gives-on_error (λ s. Unit) (λ u. Has f) (flattened "initializing backup")
          (init_backup fault info sort size_of f) (init_backup-Gives fault info sort size_of f))
        λ u. attempted c f "getting db conn" _ (
          attempted c f "getting backup db conn" _ (
            gives-bind (Has f) (λ u. Has f) (Backed c f)
              (on_error (λ e. flattened "backup" (flattened "backup raw" e)) (do_backup_raw b)) _
              (gives-on_error (Has f) (λ u. Has f)
                (λ e. flattened "backup" (flattened "backup raw" e)) (do_backup_raw b)
                (do_backup_raw-Gives fault info sort size_of (Has f) b))
              λ u.
                gives-bind (Has f) (λ p s. (p ≡ f) × Has f s) (Backed c f)
                  (backup_path fault info sort size_of) (conclude fault info sort size_of c)
                  (backup_path-Gives fault info sort size_of f (λ s. Memᴰ f s.names))
                  λ p w a (same, has) h.
                    subst (λ x. Gives (Has f) (conclude fault info sort size_of c x) (Backed c f))
                      (sym same) (conclude-Gives c f off) w a has h))

  deferred-ok :
      (r : Result BackupResult) (w : Calls BackupState) (a : BackupResult)
      → (deferred fault info sort size_of r w).0 ≡ ok a
      → (r ≡ ok a) × ((deferred fault info sort size_of r w).1 ≡ w)
  unfolding deferred
  deferred-ok (ok b) w a = λ h. (h, refl)
  deferred-ok (err e) w a = λ h. absurd (stays w.state.backup h)
    where
      stays : (o : Option String) → ¬ ((removed fault info sort size_of e o w).0 ≡ ok a)
      stays none = λ h. cc
      stays (some p) = elim (Option-cases (fault w.calls)) [
        | inl f ↦ rw (f, removed) (λ h. cc)
        | inr (x, f) ↦ rw (f, removed) (λ h. cc)
      ]
  deferred-ok (panic s) w a = λ h. cc

  -- If Backup without pruning returns a result, then the path of the result is that of the new
  -- file, or with .zst behind it if backups are compressed, and the directory has a file of that
  -- name.
  pub backup_database-ok :
      (c : BackupConfig) (b : SqliteBackup) (filename : String) (w : Calls BackupState)
      (r : BackupResult)
      → c.pruning ≡ false
      → (backup_database fault info sort size_of c b filename w).0 ≡ ok r
      → (r.path ≡ result_name fault info sort size_of c filename)
        × Memᴰ r.path (backup_database fault info sort size_of c b filename w).1.state.names
  unfolding backup_database
  backup_database-ok c b filename w r off h =
      let m = backup_steps fault info sort size_of c b filename w in
      let (e, same) = deferred-ok m.0 m.1 r h in
      let (name, i) = backup_steps-Gives c b filename off w r tt e in
      (name, subst (λ (x : Calls BackupState). Memᴰ r.path x.state.names) (sym same) i)
