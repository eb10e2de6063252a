-- ===== src/Backup/FileNames.antt =====
-- About the names of a directory's files.
use Prim.Native.String.{◌++◌ as str_append}
use package.text.Mathlib.TextLemmas.{append_cancel_left, append-nil}
use mathlib.Core.List.{Memᴰ}
use mathlib.Core.List.Memᴰ
use go_tableland.Prelude.{
  String, str_append, ◌≡◌, refl, sym, ◌∙◌, ◌≢◌, inl, inr, some, List, [], ◌∷◌, arith, eq_iff,
  str_eq, Bool-cases, str_eq_sound,
}
use go_tableland.Errors.{text}
use go_tableland.Backup.{remove_name}
use go_tableland.Backup.Backuper.{BackupState, add_name}

-- The backup is this file, and it is in the directory.
abbrev pub Has : String → BackupState → Type 0
Has f s = (s.backup ≡ some f) × Memᴰ f s.names

pub add_name-mem : (n : String) (ns : List String) → Memᴰ n (add_name n ns)
unfolding add_name
add_name-mem n [] = Memᴰ.head refl
add_name-mem n (x ∷ xs) = elim (Bool-cases (str_eq x n)) [
  | inl b ↦ rw (b) (Memᴰ.head (sym (str_eq_sound x n b)))
  | inr b ↦ rw (b) (Memᴰ.tail (add_name-mem n xs))
]

add_name-kept : (n m : String) (ns : List String) → Memᴰ m ns → Memᴰ m (add_name n ns)
unfolding add_name
add_name-kept n m [] i = absurd (Memᴰ.not-nil i)
add_name-kept n m (x ∷ xs) i = elim (Bool-cases (str_eq x n)) [
  | inl b ↦ rw (b) i
  | inr b ↦ rw (b) (elim (Memᴰ.cases_cons i) [
    | inl e ↦ Memᴰ.head e
    | inr t ↦ Memᴰ.tail (add_name-kept n m xs t)
  ])
]

pub remove_name-kept :
    (n m : String) (ns : List String) → m ≢ n → Memᴰ m ns → Memᴰ m (remove_name n ns)
unfolding remove_name
remove_name-kept n m [] ne i = absurd (Memᴰ.not-nil i)
remove_name-kept n m (x ∷ xs) ne i = elim (Memᴰ.cases_cons i) [
  | inl e ↦ elim (Bool-cases (str_eq x n)) [
    | inl b ↦ absurd (ne (e ∙ str_eq_sound x n b))
    | inr b ↦ rw (b) (Memᴰ.head e)
  ]
  | inr t ↦ elim (Bool-cases (str_eq x n)) [
    | inl b ↦ rw (b) (remove_name-kept n m xs ne t)
    | inr b ↦ rw (b) (Memᴰ.tail (remove_name-kept n m xs ne t))
  ]
]

pub longer : (f : String) → str_append f ".zst" ≢ f
longer f e = nonempty (append_cancel_left f ".zst" "" (e ∙ sym (append-nil f)))
  where
    nonempty : ◌≢◌ {A = String} ".zst" ""
    nonempty = ground (arith, eq_iff ".zst" "")
