-- ===== src/Tests/Backup.antt =====
-- The property of the backups at a directory with two of them.
use mathlib.Core.List.{Perm}
use mathlib.Core.List.Perm
use go_tableland.Prelude.{
  pos, ℕ, ◌≤◌, String, ◌≡◌, refl, inl, inr, Option, none, List, [], ◌∷◌, arith, leb, if◌then◌else◌,
  Bool-cases,
}
use go_tableland.Errors.{GoError, Result, ok}
use go_tableland.Backup.{
  FileInfo, ends_with, is_backup, take, drop, remove_name, file_infos, read_backup_files,
  remove_files, prune_files, prune,
}
use go_tableland.Backup.Pruned.{NoNewer, Sorted, Sorts, Infos, remove_all, Kept, prune-ok}
use go_tableland.Steps.{Calls, pure, lift, on_error, ◌>>=◌, call}

insert : FileInfo → List FileInfo → List FileInfo
insert f [] = f ∷ []
insert f (g ∷ gs) =
    let rest = insert f gs in if leb f.mod_time g.mod_time then f ∷ g ∷ gs else g ∷ rest

by_time : List FileInfo → List FileInfo
unfolding insert
by_time [] = []
by_time (f ∷ fs) = insert f (by_time fs)

insert-Perm : (f : FileInfo) (fs : List FileInfo) → Perm (f ∷ fs) (insert f fs)
unfolding insert
insert-Perm f [] = Perm.refl (f ∷ [])
insert-Perm f (g ∷ gs) = elim (Bool-cases (leb f.mod_time g.mod_time)) [
  | inl b ↦ rw (b) (Perm.refl (f ∷ g ∷ gs))
  | inr b ↦ rw (b) (Perm.trans (Perm.swap g f gs) (Perm.cons g (insert-Perm f gs)))
]

NoNewer-insert :
    (g f : FileInfo) (fs : List FileInfo)
    → g.mod_time ≤ f.mod_time
    → NoNewer g fs
    → NoNewer g (insert f fs)
unfolding insert
NoNewer-insert g f [] le a = (le, tt)
NoNewer-insert g f (h ∷ hs) le (le', a) = elim (Bool-cases (leb f.mod_time h.mod_time)) [
  | inl b ↦ rw (b) (le, (le', a))
  | inr b ↦ rw (b) (le', NoNewer-insert g f hs le a)
]

NoNewer-older :
    (f g : FileInfo) (fs : List FileInfo) → f.mod_time ≤ g.mod_time → NoNewer g fs → NoNewer f fs
NoNewer-older f g [] le a = tt
NoNewer-older f g (h ∷ hs) le (le', a) = (omega arith, NoNewer-older f g hs le a)

insert-Sorted : (f : FileInfo) (fs : List FileInfo) → Sorted fs → Sorted (insert f fs)
unfolding insert
insert-Sorted f [] s = (tt, tt)
insert-Sorted f (g ∷ gs) (a, s) = elim (Bool-cases (leb f.mod_time g.mod_time)) [
  | inl b ↦ rw (b) ((ground arith, NoNewer-older f g gs (ground arith) a), (a, s))
  | inr b ↦ rw (b) (NoNewer-insert g f gs (ground arith) a, insert-Sorted f gs s)
]

by_time-Sorts : Sorts by_time
unfolding by_time
by_time-Sorts [] = (Perm.refl [], tt)
by_time-Sorts (f ∷ fs) =
    let (perm, sorted) = by_time-Sorts fs in
    (
      Perm.trans (Perm.cons f perm) (insert-Perm f (by_time fs)),
      insert-Sorted f (by_time fs) sorted,
    )

abbrev no_fault : ℕ → Option GoError
no_fault n = none

abbrev info : String → Result FileInfo
info name = ok (record { name = name; mod_time = 3 })

abbrev directory : Calls (List String)
directory = record { state = "tbl_backup_1.db" ∷ "notes" ∷ "tbl_backup_2.db" ∷ []; calls = 0 }

prunes : (prune no_fault info by_time (pos 1) directory).0 ≡ ok tt
unfolding prune read_backup_files file_infos is_backup ends_with prune_files remove_files
    remove_name take drop by_time insert ◌>>=◌ call on_error lift pure
prunes = refl

prune-ok_example :
    (files : List FileInfo) × (old : List FileInfo) × (new : List FileInfo) × Infos info
      directory.state files
    × Kept 1 files old new
    × ((prune no_fault info by_time (pos 1) directory).1.state ≡ remove_all old directory.state)
prune-ok_example = prune-ok no_fault info by_time 0 directory by_time-Sorts prunes
