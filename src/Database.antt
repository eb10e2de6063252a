-- ===== src/Database.antt =====
-- The SQLite database that a validator keeps: the tables of
-- pkg/sqlstore/impl/system/migrations/001_init.up.sql and 002, and the tables that users create.
-- A table with a primary key is a function from the key; the receipts, which have two keys, are a
-- list. Timestamps are left out: no statement here reads them, and neither does the state hash.
pub mod Statements
use go_tableland.Prelude.{
  ℤ, pos, negsuc, eq_ℤ, eq_of_parts, ℕ, ◌-◌, ◌%◌, ◌^◌, ◌<◌, String, ◌≡◌, subst, ◌≢◌, inl, inr, true,
  not, ◌&&◌, Option, List, arith, ltb, ◌==◌, if◌then◌else◌, Bool-cases,
}
use go_tableland.Errors.{err_constraint, GoError, text, sqlite}

-- A row of `registry`, below its key (chain_id, id).
pub record RegistryRow : Type 0 where
  pub controller : ℕ
  pub prefix : String
  pub structure : String

-- A row of `system_txn_receipts`; its error is kept as the GoError whose text it is.
pub record ReceiptRow : Type 0 where
  pub chain_id : ℕ
  pub block_number : ℤ
  pub index_in_block : ℕ
  pub txn_hash : String
  pub table_id : Option ℤ
  pub error : Option GoError
  pub error_event_idx : Option ℕ

-- A row of a user's table: its rowid, and its columns as one text.
pub record Row : Type 0 where
  pub rowid : ℕ
  pub columns : String

-- An address is its number, whose hexadecimal text the columns hold. A table id that a statement
-- passes as a text or as an integer is compared as an integer.
pub record Db : Type 0 where
  pub registry : ℕ → ℤ → Option RegistryRow
  pub system_acl : ℕ → ℤ → ℕ → Option ℕ
  pub system_controller : ℕ → ℤ → Option ℕ
  pub system_txn_receipts : List ReceiptRow
  pub system_txn_processor : ℕ → Option ℤ
  pub tables : String → Option (List Row)

-- tables.TableID is a big.Int: String() keeps it, Int64() is its low 64 bits with a sign.
abbrev pub string_key : ℕ → ℤ
string_key id = pos id

unfoldable pub int64_key : ℕ → ℤ
int64_key id =
    let low = id % 2 ^ 64 in if ltb low (2 ^ 63) then pos low else negsuc (2 ^ 64 - low - 1)

-- Below 2^63 the two keys of an id are the same.
pub int64_key_small : (id : ℕ) → id < 2 ^ 63 → int64_key id ≡ string_key id
unfolding int64_key
int64_key_small id h = ground arith

-- Writes of one key.
abbrev pub put₂ {ℓ} : {V : Type ℓ} → (ℕ → ℤ → V) → ℕ → ℤ → V → ℕ → ℤ → V
put₂ f c t v c' t' = if (c == c') && eq_ℤ t t' then v else f c' t'

abbrev pub put₃ {ℓ} : {V : Type ℓ} → (ℕ → ℤ → ℕ → V) → ℕ → ℤ → ℕ → V → ℕ → ℤ → ℕ → V
put₃ f c t a v c' t' a' = if (c == c') && (eq_ℤ t t' && (a == a')) then v else f c' t' a'

abbrev pub put₁ {ℓ} : {V : Type ℓ} → (ℕ → V) → ℕ → V → ℕ → V
put₁ f c v c' = if c == c' then v else f c'

-- The text with which the driver reports a violated constraint.
abbrev pub constraint : String → GoError
constraint s = sqlite err_constraint s

keys₃ :
    (c n : ℕ) (t u : ℤ) (a b : ℕ)
    → ((c == n) && (eq_ℤ t u && (a == b))) ≡ true
    → (c ≡ n) × (t ≡ u) × (a ≡ b)
keys₃ c n t u a b h = ground (arith, eq_of_parts t u)

keys₂ : (c n : ℕ) (t u : ℤ) → ((c == n) && eq_ℤ t u) ≡ true → (c ≡ n) × (t ≡ u)
keys₂ c n t u h = ground (arith, eq_of_parts t u)

-- What holds of the written value at its key, and of the others at theirs, holds everywhere.
pub put₃_elim :
    {V : Type 0} (P : ℕ → ℤ → ℕ → V → Type 0) (f : ℕ → ℤ → ℕ → V) (c : ℕ) (t : ℤ) (a : ℕ) (v : V)
    → P c t a v
    → (n : ℕ) (u : ℤ) (b : ℕ) → P n u b (f n u b)
    → P n u b (put₃ f c t a v n u b)
put₃_elim P f c t a v h n u b k = elim (Bool-cases ((c == n) && (eq_ℤ t u && (a == b)))) [
  | inl e ↦
      let (p, q, r) = keys₃ c n t u a b e in
      rw e (subst (λ x. P x u b v) p (subst (λ x. P c x b v) q (subst (λ x. P c t x v) r h)))
  | inr e ↦ rw e k
]

pub put₂_elim :
    {V : Type 0} (P : ℕ → ℤ → V → Type 0) (f : ℕ → ℤ → V) (c : ℕ) (t : ℤ) (v : V)
    → P c t v
    → (n : ℕ) (u : ℤ) → P n u (f n u)
    → P n u (put₂ f c t v n u)
put₂_elim P f c t v h n u k = elim (Bool-cases ((c == n) && eq_ℤ t u)) [
  | inl e ↦ let (p, q) = keys₂ c n t u e in rw e (subst (λ x. P x u v) p (subst (λ x. P c x v) q h))
  | inr e ↦ rw e k
]

eq_self : (a : ℕ) → (a == a) ≡ true
eq_self a = ground arith

-- A write is read back.
pub put₃-self {ℓ} :
    {V : Type ℓ} (f : ℕ → ℤ → ℕ → V) (c : ℕ) (t : ℤ) (a : ℕ) (v : V) → put₃ f c t a v c t a ≡ v
put₃-self f c t a v = simp eq_self

pub put₂-self {ℓ} : {V : Type ℓ} (f : ℕ → ℤ → V) (c : ℕ) (t : ℤ) (v : V) → put₂ f c t v c t ≡ v
put₂-self f c t v = simp eq_self

-- The entries of another address are not written.
pub put₃-ne {ℓ} :
    {V : Type ℓ} (f : ℕ → ℤ → ℕ → V) (c : ℕ) (t : ℤ) (a b n : ℕ) (u : ℤ) (v : V)
    → b ≢ a
    → put₃ f c t a v n u b ≡ f n u b
put₃-ne f c t a b n u v h = ground arith
