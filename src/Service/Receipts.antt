-- ===== src/Service/Receipts.antt =====
-- GetReceipt of internal/tableland/impl/mesa.go.
use go_tableland.Prelude.{ℤ, pos, negsuc, ℕ, String, Option, none, some}
use go_tableland.Errors.{GoError, flattened, Result, ok, err, panic}
use go_tableland.System.{Receipt, show_ℤ}
use go_tableland.Parsing.Statements.{bind_result, flatten_error}
use go_tableland.Service.{Mesa, stack_of}

-- tableland.TxnReceipt; an error that is not set is empty.
pub record TxnReceipt : Type 0 where
  pub chain_id : ℕ
  pub txn_hash : String
  pub block_number : ℤ
  pub table_id : Option String
  pub error : Option GoError
  pub error_event_idx : ℤ

-- The index of no event is -1.
unfoldable pub event_idx : Option ℕ → ℤ
event_idx none = negsuc 0
event_idx (some i) = pos i

unfoldable pub table_text : Option ℤ → Option String
unfolding show_ℤ
table_text none = none
table_text (some id) = some (show_ℤ id)

unfoldable pub txn_receipt : Receipt → TxnReceipt
unfolding event_idx table_text
txn_receipt r = record {
  chain_id = r.chain_id;
  txn_hash = r.txn_hash;
  block_number = r.block_number;
  table_id = table_text r.table_id;
  error = r.error;
  error_event_idx = event_idx r.error_event_idx;
}

unfoldable pub answered_receipt : Result (Option Receipt) → Result (Option TxnReceipt)
unfolding txn_receipt
answered_receipt (ok none) = ok none
answered_receipt (ok (some r)) = ok (some (txn_receipt r))
answered_receipt (err e) = err (flattened "get txn receipt" e)
answered_receipt (panic p) = panic p

-- GetReceipt; `unmarshal_text` is that of a hash, and a receipt is absent where the code returns
-- false.
unfoldable pub service_get_receipt :
    Mesa → (String → Result (Unit {0})) → ℕ → String → Result (Option TxnReceipt)
unfolding stack_of answered_receipt
service_get_receipt mesa unmarshal_text chain hash =
    bind_result (flatten_error "invalid txn hash" (unmarshal_text hash))
      λ u. bind_result (stack_of mesa chain) λ stack. answered_receipt (stack.get_receipt hash)
