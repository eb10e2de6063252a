-- ===== src/Nonce/Hashes.antt =====
-- Lists of transactions as sets of hashes.
use go_tableland.Prelude.{
  ℕ, suc, ◌+◌, String, ◌≡◌, refl, sym, ap, ◌∙◌, subst, ◌≢◌, inl, inr, Bool, true, false, ◌||◌, List,
  [], ◌∷◌, arith, eq_refl, str_eq, if◌then◌else◌, Bool-cases, str_eq_sound,
}
use go_tableland.Errors.{ok}
use go_tableland.Nonce.{PendingTx}
use go_tableland.Nonce.Node.{remove_at, delete_index}

unfoldable pub mem : String → List PendingTx → Bool
mem h [] = false
mem h (t ∷ ts) = str_eq t.hash h || mem h ts

-- No hash stands twice.
unfoldable pub Distinct : List PendingTx → Type 0
unfolding mem
Distinct [] = Unit
Distinct (t ∷ ts) = (mem t.hash ts ≡ false) × Distinct ts

unfoldable pub without : String → List PendingTx → List PendingTx
without h [] = []
without h (t ∷ ts) = let rest = without h ts in if str_eq t.hash h then rest else t ∷ rest

pub or_false : (a b : Bool) → (a || b) ≡ false → (a ≡ false) × (b ≡ false)
or_false true b h = absurd (cc)
or_false false b h = (refl, h)

pub delete_index-absent :
    (h : String) (i d : ℕ) (ts : List PendingTx) → mem h ts ≡ false → delete_index h i d ts ≡ d
unfolding mem delete_index
delete_index-absent h i d [] a = refl
delete_index-absent h i d (t ∷ ts) a =
    let (here, rest) = or_false (str_eq t.hash h) (mem h ts) a in
    rw (here) (delete_index-absent h (suc i) d ts rest)

without-absent : (h : String) (ts : List PendingTx) → mem h ts ≡ false → without h ts ≡ ts
unfolding mem without
without-absent h [] a = refl
without-absent h (t ∷ ts) a =
    let (here, rest) = or_false (str_eq t.hash h) (mem h ts) a in
    rw (here) (ap (λ x. t ∷ x) (without-absent h ts rest))

-- The only index of a hash.
position : String → List PendingTx → ℕ
position h [] = 0
position h (t ∷ ts) = let rest = suc (position h ts) in if str_eq t.hash h then 0 else rest

delete_index-position :
    (h : String) (i d : ℕ) (ts : List PendingTx)
    → Distinct ts
    → mem h ts ≡ true
    → delete_index h i d ts ≡ i + position h ts
unfolding Distinct mem delete_index position
delete_index-position h i d [] n p = cc
delete_index-position h i d (t ∷ ts) (new, n) p = elim (Bool-cases (str_eq t.hash h)) [
  | inl s ↦ rw (s) (
      delete_index-absent h (suc i) i ts
        (subst (λ x. mem x ts ≡ false) (str_eq_sound t.hash h s) new)
      ∙ omega arith)
  | inr s ↦ rw (s) (delete_index-position h (suc i) d ts n (sym (rw (s) refl) ∙ p) ∙ omega arith)
]

remove_at-position :
    (h : String) (ts : List PendingTx)
    → Distinct ts
    → mem h ts ≡ true
    → remove_at (position h ts) ts ≡ ok (without h ts)
unfolding Distinct mem position remove_at without
remove_at-position h [] n p = cc
remove_at-position h (t ∷ ts) (new, n) p = elim (Bool-cases (str_eq t.hash h)) [
  | inl s ↦ rw (s) (
      ap ok
        (sym (without-absent h ts (subst (λ x. mem x ts ≡ false) (str_eq_sound t.hash h s) new))))
  | inr s ↦ rw (s, remove_at-position h ts n (sym (rw (s) refl) ∙ p)) refl
]

-- The removal of a hash that stands there is the list without it.
pub remove_at-without :
    (h : String) (ts : List PendingTx)
    → Distinct ts
    → mem h ts ≡ true
    → remove_at (delete_index h 0 0 ts) ts ≡ ok (without h ts)
remove_at-without h ts n p =
    let at : delete_index h 0 0 ts ≡ position h ts =
      delete_index-position h 0 0 ts n p ∙ omega arith in
    rw (at) (remove_at-position h ts n p)

pub mem-without_self : (h : String) (ts : List PendingTx) → mem h (without h ts) ≡ false
unfolding mem without
mem-without_self h [] = refl
mem-without_self h (t ∷ ts) = elim (Bool-cases (str_eq t.hash h)) [
  | inl s ↦ rw (s) (mem-without_self h ts)
  | inr s ↦ rw (s) (rw (s) (mem-without_self h ts))
]

pub mem-without-other :
    (g h : String) (ts : List PendingTx) → str_eq h g ≡ false → mem g (without h ts) ≡ mem g ts
unfolding mem without
mem-without-other g h [] d = refl
mem-without-other g h (t ∷ ts) d = elim (Bool-cases (str_eq t.hash h)) [
  | inl s ↦
      let other : str_eq t.hash g ≡ false = ap (λ x. str_eq x g) (str_eq_sound t.hash h s) ∙ d in
      rw (s, other) (mem-without-other g h ts d)
  | inr s ↦ rw (s) (ap (λ x. str_eq t.hash g || x) (mem-without-other g h ts d))
]

pub str_eq_other : (s t : String) → str_eq s t ≡ false → str_eq t s ≡ false
str_eq_other s t h = elim (Bool-cases (str_eq t s)) [
  | inl e ↦ absurd (true-ne-false (sym (eq_refl s) ∙ ap (str_eq s) (sym (str_eq_sound t s e)) ∙ h))
  | inr e ↦ e
]
  where
    true-ne-false : true ≢ false
    true-ne-false e = cc

pub Distinct-without : (h : String) (ts : List PendingTx) → Distinct ts → Distinct (without h ts)
unfolding Distinct without
Distinct-without h [] n = tt
Distinct-without h (t ∷ ts) (new, n) = elim (Bool-cases (str_eq t.hash h)) [
  | inl s ↦ rw (s) (Distinct-without h ts n)
  | inr s ↦
      rw (s)
        (mem-without-other t.hash h ts (str_eq_other t.hash h s) ∙ new, Distinct-without h ts n)
]
