-- ===== src/Api/Rpc/Receipts.antt =====
-- About the two ways to ask for a receipt: GetReceipt of internal/router/controllers/legacy/rpcservice.go and
-- GetReceiptByTransactionHash of internal/system/impl/sqlstore.go.
use mathlib.Core.Option.{map as map_option}
use go_tableland.Prelude.{◌≡◌, Option}
use go_tableland.Errors.{Result, ok, err, panic}
use go_tableland.Parsing.Statements.{flatten_error}
use go_tableland.System.{Receipt}
use go_tableland.Service.Receipts.{TxnReceipt, txn_receipt, answered_receipt}

-- The same answer: no receipt, the same receipt, or an error.
abbrev pub SameReceipts : Result (Option Receipt) → Result (Option TxnReceipt) → Type 0
SameReceipts (ok o) (ok o') = o' ≡ map_option txn_receipt o
SameReceipts (err e) (err e') = Unit
SameReceipts (panic p) (panic p') = Unit
SameReceipts _ _ = ⊥

rpc_answer : Result (Option Receipt) → Result (Option TxnReceipt)
unfolding answered_receipt
rpc_answer r = flatten_error "calling GetReceipt" (answered_receipt r)
