-- ===== src/Backup/Pruned.antt =====
-- About Prune of pkg/backup/pruner.go.
use mathlib.Core.List.{Perm}
use go_tableland.Prelude.{
  pos, ℕ, zero, suc, ◌-◌, ◌≤◌, String, ◌≡◌, refl, sym, ap, ◌∙◌, subst, ◌⊎◌, inl, inr, true, false,
  Option, List, [], ◌∷◌, ◌++◌, arith, leb, Bool-cases, length, All,
}
use go_tableland.Errors.{GoError, flattened, Result, ok, ok_injective}
use go_tableland.Backup.{
  FileInfo, is_backup, take, drop, remove_name, file_infos, read_backup_files, remove_files,
  prune_files, prune,
}
use go_tableland.Steps.{Calls, pure, lift, on_error, call, bind-ok, call-ok, on_error-ok}

abbrev pub NoNewer : FileInfo → List FileInfo → Type 0
NoNewer f fs = All (λ (k : FileInfo). f.mod_time ≤ k.mod_time) fs

abbrev pub Sorted : List FileInfo → Type 0
Sorted [] = Unit
Sorted (f ∷ fs) = NoNewer f fs × Sorted fs

-- What sort.Slice does with a list.
abbrev pub Sorts : (List FileInfo → List FileInfo) → Type 0
Sorts sort = (fs : List FileInfo) → Perm fs (sort fs) × Sorted (sort fs)

-- The files of the names that are backups.
pub data Infos (info : String → Result FileInfo) : List String → List FileInfo → Type 0 where
  no_names : Infos info [] []
  other :
      (n : String) (ns : List String) (fs : List FileInfo)
      → is_backup n ≡ false
      → Infos info ns fs
      → Infos info (n ∷ ns) fs
  backup :
      (n : String) (f : FileInfo) (ns : List String) (fs : List FileInfo)
      → is_backup n ≡ true
      → info n ≡ ok f
      → Infos info ns fs
      → Infos info (n ∷ ns) (f ∷ fs)

-- A directory without the names of some files.
abbrev pub remove_all : List FileInfo → List String → List String
remove_all [] d = d
remove_all (f ∷ fs) d = remove_all fs (remove_name f.name d)

NoNewer-drop : (n : ℕ) (f : FileInfo) (fs : List FileInfo) → NoNewer f fs → NoNewer f (drop n fs)
unfolding drop
NoNewer-drop zero f fs a = a
NoNewer-drop (suc n) f [] a = tt
NoNewer-drop (suc n) f (g ∷ fs) (le, a) = NoNewer-drop n f fs a

take-NoNewer :
    (n : ℕ) (fs : List FileInfo)
    → Sorted fs
    → All (λ (o : FileInfo). NoNewer o (drop n fs)) (take n fs)
unfolding take drop
take-NoNewer zero fs s = tt
take-NoNewer (suc n) [] s = tt
take-NoNewer (suc n) (f ∷ fs) (a, s) = (NoNewer-drop n f fs a, take-NoNewer n fs s)

take-drop : (n : ℕ) (fs : List FileInfo) → take n fs ++ drop n fs ≡ fs
unfolding take drop
take-drop zero fs = refl
take-drop (suc n) [] = refl
take-drop (suc n) (f ∷ fs) = ap (λ x. f ∷ x) (take-drop n fs)

length-drop : (n : ℕ) (fs : List FileInfo) → length (drop n fs) ≡ length fs - n
unfolding drop
length-drop zero fs = omega arith
length-drop (suc n) [] = omega arith
length-drop (suc n) (f ∷ fs) = length-drop n fs ∙ omega arith

-- The files that go, and those that stay.
abbrev pub Kept : ℕ → List FileInfo → List FileInfo → List FileInfo → Type 0
Kept keep files old new =
    Perm files (old ++ new)
    × All (λ (o : FileInfo). NoNewer o new) old
    × (((old ≡ []) × (length new ≤ keep)) ⊎ (length new ≡ keep))

module _ (fault : ℕ → Option GoError) (info : String → Result FileInfo)
    (sort : List FileInfo → List FileInfo) where
  file_infos-ok :
      (ns : List String) (w : Calls (List String)) (fs : List FileInfo)
      → (file_infos fault info sort ns w).0 ≡ ok fs
      → Infos info ns fs × ((file_infos fault info sort ns w).1.state ≡ w.state)
  unfolding file_infos pure on_error lift
  file_infos-ok [] w fs = λ h. (subst (Infos info []) (ok_injective h) Infos.no_names, refl)
  file_infos-ok (n ∷ ns) w fs = elim (Bool-cases (is_backup n)) [
    | inr b ↦ rw (b) (λ h. let (i, s) = file_infos-ok ns w fs h in (Infos.other n ns fs b i, s))
    | inl b ↦ rw (b) (λ h.
        let (f, e, at) = bind-ok (on_error (flattened "file info") (lift (info n))) _ w fs h in
        let (rest, e', at') =
          bind-ok (file_infos fault info sort ns) (λ fis. pure (f ∷ fis)) w fs
            (ap (λ r. r.0) (sym at) ∙ h) in
        let (i, s) = file_infos-ok ns w rest e' in
        let got = on_error-ok (flattened "file info") (lift (info n)) w f e in
        (
          subst (Infos info (n ∷ ns)) (ok_injective (ap (λ r. r.0) (sym (at ∙ at')) ∙ h))
              (Infos.backup n f ns rest b got i),
          ap (λ r. r.1.state) (at ∙ at') ∙ s,
        ))
  ]

  remove_files-ok :
      (fs : List FileInfo) (w : Calls (List String))
      → (remove_files fault info sort fs w).0 ≡ ok tt
      → (remove_files fault info sort fs w).1.state ≡ remove_all fs w.state
  unfolding remove_files pure
  remove_files-ok [] w h = refl
  remove_files-ok (f ∷ fs) w h =
      let (u, e, at) = bind-ok _ _ w tt h in
      let (r, s) =
        call-ok fault (flattened "os remove") (λ d. (ok tt, remove_name f.name d)) w tt e in
      ap (λ r. r.1.state) at
      ∙ remove_files-ok fs _ (ap (λ r. r.0) (sym at) ∙ h)
      ∙ ap (remove_all fs) s

  read_backup_files-ok :
      (w : Calls (List String)) (sorted : List FileInfo)
      → (read_backup_files fault info sort w).0 ≡ ok sorted
      → (files : List FileInfo) × Infos info w.state files
        × (sort files ≡ sorted)
        × ((read_backup_files fault info sort w).1.state ≡ w.state)
  unfolding read_backup_files pure
  read_backup_files-ok w sorted h =
      let m = on_error (flattened "read dir") (call fault (λ d. (ok d, d))) in
      let (names, c, at) = bind-ok m _ w sorted h in
      let (r, s) = call-ok fault (flattened "read dir") (λ d. (ok d, d)) w names c in
      let (files, c', at') =
        bind-ok (file_infos fault info sort names) (λ files. pure (sort files)) (m w).1 sorted
          (ap (λ r. r.0) (sym at) ∙ h) in
      let (infos, s') = file_infos-ok names (m w).1 files c' in
      (
        files,
        subst (λ d. Infos info d files) (sym (ok_injective r)) infos,
        ok_injective (ap (λ r. r.0) (sym (at ∙ at')) ∙ h),
        ap (λ r. r.1.state) (at ∙ at') ∙ s' ∙ s,
      )

  prune_files-ok :
      (keep : ℕ) (files sorted : List FileInfo) (w : Calls (List String))
      → Perm files sorted
      → Sorted sorted
      → (prune_files fault info sort keep sorted w).0 ≡ ok tt
      → (old : List FileInfo) × (new : List FileInfo) × Kept keep files old new
        × ((prune_files fault info sort keep sorted w).1.state ≡ remove_all old w.state)
  unfolding prune_files pure
  prune_files-ok keep files sorted w p s = elim (Bool-cases (leb (length sorted) keep)) [
    | inl b ↦ rw (b) (λ h. ([], sorted, (p, tt, inl (refl, ground arith)), refl))
    | inr b ↦ rw (b) (λ h.
        let n = length sorted - keep in
        (
          take n sorted,
          drop n sorted,
          (
            subst (Perm files) (sym (take-drop n sorted)) p,
            take-NoNewer n sorted s,
            inr (length-drop n sorted ∙ ground arith),
          ),
          remove_files-ok (take n sorted) w h,
        ))
  ]

  -- If the sorting gives a sorted permutation of its list and Prune with a count above 0 returns
  -- without an error, then the files of the directory's backups fall into those that go and those
  -- that stay: no file that goes is newer than one that stays, those that stay are as many as the
  -- count, or fewer or as many where none goes, and the directory is the one from before without
  -- the names of those that go.
  pub prune-ok :
      (keep : ℕ) (w : Calls (List String))
      → Sorts sort
      → (prune fault info sort (pos (suc keep)) w).0 ≡ ok tt
      → (files : List FileInfo) × (old : List FileInfo) × (new : List FileInfo) × Infos info w.state
          files
        × Kept (suc keep) files old new
        × ((prune fault info sort (pos (suc keep)) w).1.state ≡ remove_all old w.state)
  unfolding prune on_error
  prune-ok keep w sorts h =
      let (sorted, e, at) =
        bind-ok (on_error (flattened "reading backup files") (read_backup_files fault info sort)) _
          w tt h in
      let e1 =
        on_error-ok (flattened "reading backup files") (read_backup_files fault info sort) w sorted
          e in
      let (files, infos, same, s) = read_backup_files-ok w sorted e1 in
      let (perm, order) = sorts files in
      let (old, new, kept, state) =
        prune_files-ok (suc keep) files sorted
          (on_error (flattened "reading backup files") (read_backup_files fault info sort) w).1
          (subst (Perm files) same perm) (subst Sorted same order) (ap (λ r. r.0) (sym at) ∙ h) in
      (files, old, new, infos, kept, ap (λ r. r.1.state) at ∙ state ∙ ap (remove_all old) s)
