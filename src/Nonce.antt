-- ===== src/Nonce.antt =====
-- LocalTracker of pkg/nonce/impl/tracker.go, with its store (pkg/nonce/impl/store.go) and the statements
-- on system_pending_tx of pkg/sqlstore/impl/system/store.go. This file holds the store; the children hold
-- the tracker's operations. Times are whole numbers of one unit.
pub mod Node
pub mod Operations
pub mod Balance
pub mod Hashes
pub mod Synced
pub mod Reconciled
pub mod Quiet
pub mod Runs
pub mod Absent
pub mod Stored
pub mod Gwei
use go_tableland.Prelude.{
  ℤ, leb_ℤ, eq_ℤ, decimal, ℕ, suc, String, Bool, true, false, not, ◌&&◌, ◌||◌, Option, List, [],
  ◌∷◌, ◌++◌, str_eq, ◌==◌, if◌then◌else◌,
}
use go_tableland.Errors.{GoError, text, flattened, Result, ok, err, panic}
use go_tableland.Database.{constraint}
use go_tableland.Steps.{Run, on_error, call}

-- noncepkg.PendingTx, less its address and chain
pub record PendingTx : Type 0 where
  pub hash : String
  pub nonce : ℤ
  pub bump_price_count : ℕ
  pub created_at : ℕ

-- A row of system_pending_tx.
pub record PendingRow : Type 0 where
  pub chain_id : ℕ
  pub address : String
  pub tx : PendingTx

-- The tracker and the rows of the store.
pub record Tracker : Type 0 where
  pub curr_nonce : ℤ
  pub curr_wei_balance : ℕ
  pub txn_confirmation_attempts : ℕ
  pub eth_client_unhealthy : ℕ
  pub pending_txs : List PendingTx
  pub rows : List PendingRow

-- The primary key.
unfoldable pub has_row : ℕ → String → ℤ → List PendingRow → Bool
has_row chain address n [] = false
has_row chain address n (r ∷ rs) =
    ((r.chain_id == chain) && (str_eq r.address address && eq_ℤ r.tx.nonce n))
    || has_row chain address n rs

-- INSERT INTO system_pending_tx
unfoldable pub insert_row : PendingRow → List PendingRow → Result (List PendingRow)
unfolding has_row
insert_row r rows =
    if has_row r.chain_id r.address r.tx.nonce rows
    then err (constraint "UNIQUE constraint failed: system_pending_tx")
    else ok (rows ++ (r ∷ []))

-- DELETE FROM system_pending_tx WHERE chain_id=?1 AND hash=?2
unfoldable pub delete_rows : ℕ → String → List PendingRow → List PendingRow
delete_rows chain h [] = []
delete_rows chain h (r ∷ rs) =
    let rest = delete_rows chain h rs in
    if (r.chain_id == chain) && str_eq r.tx.hash h then rest else r ∷ rest

-- SELECT ... WHERE address = ?1 AND chain_id = ?2
unfoldable pub own_txs : ℕ → String → List PendingRow → List PendingTx
own_txs chain address [] = []
own_txs chain address (r ∷ rs) =
    let rest = own_txs chain address rs in
    if (r.chain_id == chain) && str_eq r.address address then r.tx ∷ rest else rest

-- order by nonce
unfoldable pub insert_by_nonce : PendingTx → List PendingTx → List PendingTx
insert_by_nonce t [] = t ∷ []
insert_by_nonce t (u ∷ us) =
    let rest = insert_by_nonce t us in if leb_ℤ t.nonce u.nonce then t ∷ u ∷ us else u ∷ rest

unfoldable pub order_by_nonce : List PendingTx → List PendingTx
unfolding insert_by_nonce
order_by_nonce [] = []
order_by_nonce (t ∷ ts) = insert_by_nonce t (order_by_nonce ts)

-- A value that a statement is given.
pub data Value : Type 0 where
  text_value : String → Value
  integer_value : ℕ → Value
  null : Value

-- A comparison of a column with NULL is not true, and no text that starts with 0x is a number.
unfoldable pub is_integer : ℕ → Value → Bool
is_integer n (integer_value m) = n == m
is_integer n (text_value s) = false
is_integer n null = false

unfoldable pub is_text : String → Value → Bool
is_text s (text_value t) = str_eq s t
is_text s (integer_value m) = false
is_text s null = false

-- The text that a value is stored as in a TEXT column; NULL is never given.
unfoldable pub stored_text : String → Value → String
unfolding decimal
stored_text old (text_value t) = t
stored_text old (integer_value m) = decimal m
stored_text old null = old

-- UPDATE system_pending_tx SET hash=?3, bump_price_count=bump_price_count+1, updated_at=?4
-- WHERE chain_id=?1 AND hash=?2
unfoldable pub update_rows : Value → Value → Value → List PendingRow → List PendingRow
unfolding is_integer is_text stored_text
update_rows p1 p2 p3 [] = []
update_rows p1 p2 p3 (r ∷ rs) =
    let rest = update_rows p1 p2 p3 rs in
    if is_integer r.chain_id p1 && is_text r.tx.hash p2
    then record r {
      tx = record r.tx {
        hash = stored_text r.tx.hash p3;
        bump_price_count = suc r.tx.bump_price_count;
      };
    }
      ∷ rest
    else r ∷ rest

-- ReplacePendingTxByHash of the store with that of the generated queries, which binds the parameters in
-- the order Hash, UpdatedAt, ChainID, Hash_2.
unfoldable pub replace_rows : ℕ → String → String → List PendingRow → List PendingRow
unfolding update_rows
replace_rows chain old_hash new_hash rows =
    update_rows (text_value old_hash) null (integer_value chain) rows

module _ (fault : ℕ → Option GoError) (chain : ℕ) (address : String) where
  unfoldable pub list_pending_tx : Run Tracker (List PendingTx)
  unfolding order_by_nonce own_txs
  list_pending_tx = on_error (flattened "nonce store list pending tx") (
      on_error (flattened "list pending tx")
        (call fault (λ t. (ok (order_by_nonce (own_txs chain address t.rows)), t))))

  abbrev store_rows : Tracker → Result (List PendingRow) → Result (Unit {0}) × Tracker
  store_rows t (ok rows) = (ok tt, record t { rows = rows })
  store_rows t (err e) = (err e, t)
  store_rows t (panic s) = (panic s, t)

  unfoldable pub insert_pending_tx : PendingTx → Run Tracker (Unit {0})
  unfolding insert_row
  insert_pending_tx tx = on_error (flattened "nonce store insert pending tx") (
      on_error (flattened "insert pending tx") (
        call fault (λ t.
          store_rows t
            (insert_row (record { chain_id = chain; address = address; tx = tx }) t.rows))))

  unfoldable pub delete_pending_tx : String → Run Tracker (Unit {0})
  unfolding delete_rows
  delete_pending_tx h = on_error (flattened "nonce store delete pending tx") (
      on_error (flattened "delete pending tx")
        (call fault (λ t. (ok tt, record t { rows = delete_rows chain h t.rows }))))

  unfoldable pub replace_pending_tx : String → String → Run Tracker (Unit {0})
  unfolding replace_rows
  replace_pending_tx old_hash new_hash = on_error (flattened "replacing pending tx") (
      on_error (flattened "replace pending tx") (
        call fault (λ t. (ok tt, record t { rows = replace_rows chain old_hash new_hash t.rows }))))
