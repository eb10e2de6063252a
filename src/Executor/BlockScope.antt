-- ===== src/Executor/BlockScope.antt =====
-- blockScope of pkg/eventprocessor/impl/executor/impl/blockscope.go: transactions under a
-- savepoint, receipts, and the processed height. The scope's own transaction is the World's `db`.
use go_tableland.Prelude.{
  ℤ, ℕ, String, Bool, Option, none, some, List, [], ◌∷◌, ◌==◌, if◌then◌else◌,
}
use go_tableland.Errors.{GoError, wrapped, flattened, valid_utf8, Result, ok, err, panic}
use go_tableland.Database.{ReceiptRow, Db, int64_key}
use go_tableland.Database.Statements.{update_height, insert_height, exists_receipt, insert_receipt}
use go_tableland.Executor.{Env, M, pure, fail, lift, on_error, ◌>>=◌, ◌>>◌, call, ScopeVars}
use go_tableland.Executor.Events.{TxnEvents, TxnResult, execute_txn_events}

-- eventprocessor.Receipt of pkg/eventprocessor/eventprocessor.go
pub record Receipt : Type 0 where
  pub chain_id : ℕ
  pub block_number : ℤ
  pub index_in_block : ℕ
  pub txn_hash : String
  pub table_id : Option ℕ
  pub error : Option GoError
  pub error_event_idx : Option ℕ

abbrev pub unchanged : Db → Result (Unit {0}) × Db
unchanged db = (ok tt, db)

-- The row that a receipt is stored as: a NullInt64 for the id, and the error as valid UTF-8.
unfoldable pub receipt_row : Receipt → ReceiptRow
receipt_row r = record {
  chain_id = r.chain_id;
  block_number = r.block_number;
  index_in_block = r.index_in_block;
  txn_hash = r.txn_hash;
  table_id = elim (r.table_id) [ none ↦ none | some id ↦ some (int64_key id) ];
  error = elim (r.error) [ none ↦ none | some e ↦ some (valid_utf8 e) ];
  error_event_idx = r.error_event_idx;
}

module _ (env : Env) (vars : ScopeVars) where
  -- ROLLBACK TO txnscope brings back the database of the savepoint.
  unfoldable pub rollback_to : Db → M (Unit {0})
  rollback_to saved = on_error (flattened "rollbacking savepoint") (call env (λ db. (ok tt, saved)))

  unfoldable pub release : M (Unit {0})
  release = on_error (flattened "releasing savepoint") (call env unchanged)

  -- What follows executeTxnEvents: a failed transaction is rolled back.
  unfoldable pub finish_result : Option GoError → Db → TxnResult → M TxnResult
  finish_result none saved res = do release; pure res
  finish_result (some x) saved res = do rollback_to saved; release; pure res

  unfoldable pub finish_txn : Db → Result TxnResult → M TxnResult
  unfolding finish_result
  finish_txn saved (panic s) = lift (panic s)
  finish_txn saved (err e) = do rollback_to saved; fail (wrapped "executing query" e)
  finish_txn saved (ok res) = finish_result res.error saved res

  unfoldable pub under_savepoint : M TxnResult → M TxnResult
  unfolding finish_txn
  under_savepoint m w = let (r, w') = m w in finish_txn w.db r w'

  -- blockScope.ExecuteTxnEvents
  unfoldable pub execute_txn : TxnEvents → M TxnResult
  execute_txn txn = do
    on_error (flattened "creating savepoint") (call env unchanged)
    under_savepoint (execute_txn_events env (record { vars = vars; txn_hash = txn.txn_hash }) txn)

  unfoldable pub set_last_processed_height : ℤ → M (Unit {0})
  set_last_processed_height height = do
    ra ←
        on_error (flattened "update last processed block number")
          (call env (update_height vars.chain_id height))
    if ra == 1
        then pure tt
        else on_error (flattened "inserting first processed height")
            (call env (insert_height vars.chain_id height))

  unfoldable pub save_txn_receipts : List Receipt → M (Unit {0})
  unfolding receipt_row
  save_txn_receipts [] = pure tt
  save_txn_receipts (r ∷ rs) = do
    on_error (flattened "insert txn receipt") (call env (insert_receipt (receipt_row r)))
    save_txn_receipts rs

  unfoldable pub txn_receipt_exists : String → M Bool
  txn_receipt_exists hash =
      on_error (flattened "get txn receipt") (call env (exists_receipt vars.chain_id hash))
