-- ===== src/System/Store.antt =====
-- The reads of SystemStore (pkg/sqlstore/impl/system/store.go) on the database's tables. Addresses are printed by
-- a parameter, and so are the times of creation, which the database's model leaves out.
use Prim.Native.String.{String}
use go_tableland.Prelude.{
  ℤ, ℕ, String, Bool, false, ◌&&◌, ◌||◌, Option, none, some, List, [], ◌∷◌, str_eq, ◌==◌,
  if◌then◌else◌,
}
use go_tableland.Errors.{GoError, text, wrapped, flattened, Result, ok, err, panic}
use go_tableland.Database.{RegistryRow, ReceiptRow, Db, int64_key}
use go_tableland.System.{Table, Receipt, Lookup, found, no_rows, failed, flattened_as}

-- SELECT ... from system_txn_receipts WHERE chain_id=?1 and txn_hash=?2
unfoldable pub select_receipt : ℕ → String → List ReceiptRow → Option ReceiptRow
select_receipt chain hash [] = none
select_receipt chain hash (r ∷ rs) =
    let rest = select_receipt chain hash rs in
    if (r.chain_id == chain) && str_eq r.txn_hash hash then some r else rest

-- A NULL index of an error is read as 0.
unfoldable pub index_of : Option GoError → Option ℕ → Option ℕ
index_of none i = none
index_of (some e) none = some 0
index_of (some e) (some i) = some i

unfoldable pub receipt_from_row : ℕ → String → ReceiptRow → Receipt
unfolding index_of
receipt_from_row chain hash r = record {
  chain_id = chain;
  block_number = r.block_number;
  index_in_block = r.index_in_block;
  txn_hash = hash;
  table_id = r.table_id;
  error = r.error;
  error_event_idx = index_of r.error r.error_event_idx;
}

unfoldable pub found_receipt : ℕ → String → Option ReceiptRow → Option Receipt
unfolding receipt_from_row
found_receipt chain hash none = none
found_receipt chain hash (some r) = some (receipt_from_row chain hash r)

unfoldable pub store_get_receipt : Option GoError → ℕ → String → Db → Result (Option Receipt)
unfolding select_receipt found_receipt
store_get_receipt none chain hash db =
    ok (found_receipt chain hash (select_receipt chain hash db.system_txn_receipts))
store_get_receipt (some e) chain hash db = err (flattened "get receipt" e)

-- NewTableIDFromInt64 takes any integer.
unfoldable pub table_from_sql : (ℕ → String) → (ℕ → ℤ → ℤ) → ℕ → ℤ → RegistryRow → Table
table_from_sql hex created chain id r = record {
  id = id;
  chain_id = chain;
  controller = hex r.controller;
  prefix = r.prefix;
  structure = r.structure;
  created_at = created chain id;
}

unfoldable pub store_get_table :
    (ℕ → String) → (ℕ → ℤ → ℤ) → Option GoError → ℕ → ℕ → Db → Lookup Table
unfolding table_from_sql int64_key
store_get_table hex created none chain id db = elim (db.registry chain (int64_key id)) [
  | none ↦ no_rows
  | some r ↦ found (table_from_sql hex created chain (int64_key id) r)
]
store_get_table hex created (some e) chain id db = failed (wrapped "failed to get the table" e)

-- strings.ContainsAny(address, "%_")
unfoldable pub has_wildcard : String → Bool
has_wildcard String.[] = false
has_wildcard (String.◌∷◌ c s) =
    let letter = String.◌∷◌ c "" in str_eq letter "%" || (str_eq letter "_" || has_wildcard s)

unfoldable pub sanitize_address : String → Result (Unit {0})
unfolding has_wildcard
sanitize_address address =
    if has_wildcard address then err (text "address contains invalid characters") else ok tt

unfoldable pub tables_of_address :
    (String → Result (List Table)) → String → Result (Unit {0}) → Result (List Table)
unfolding flattened_as
tables_of_address select address (ok u) = flattened_as "failed to get the table" (select address)
tables_of_address select address (err e) = err (flattened "sanitizing address" e)
tables_of_address select address (panic p) = panic p

-- `select` is the query: upper(controller) LIKE upper(?2).
unfoldable pub store_get_tables_by_controller :
    (String → Result (List Table)) → String → Result (List Table)
unfolding sanitize_address tables_of_address
store_get_tables_by_controller select address =
    tables_of_address select address (sanitize_address address)

unfoldable pub store_get_tables_by_structure :
    (String → Result (List Table)) → String → Result (List Table)
unfolding flattened_as
store_get_tables_by_structure select hash = flattened_as "failed to get the table" (select hash)
