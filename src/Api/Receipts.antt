-- ===== src/Api/Receipts.antt =====
-- GetReceiptByTransactionHash of internal/router/controllers/controller.go.
use go_tableland.Prelude.{
  ℤ, pos, negsuc, ℕ, ◌-◌, ◌%◌, ◌^◌, String, Option, none, some, ltb, if◌then◌else◌,
}
use go_tableland.Errors.{GoError, text, Result, ok, err, panic}
use go_tableland.System.{Receipt, SystemService, show_ℤ, get_receipt_by_transaction_hash}
use go_tableland.Api.{encoded, Writer, set_content_type, write_header, refuse_with, respond}

-- apiv1.TransactionReceipt; a field that is not set is empty.
pub record TransactionReceipt : Type 0 where
  pub table_id : String
  pub transaction_hash : String
  pub block_number : ℤ
  pub chain_id : ℤ
  pub error : Option GoError
  pub error_event_idx : ℤ

-- A conversion to int32 keeps the low 32 bits.
unfoldable pub int32 : ℕ → ℤ
int32 n = let low = n % 2 ^ 32 in if ltb low (2 ^ 31) then pos low else negsuc (2 ^ 32 - low - 1)

-- An error's index is read through its pointer.
unfoldable pub with_error :
    Option GoError → Option ℕ → TransactionReceipt → Result TransactionReceipt
unfolding int32
with_error none i t = ok t
with_error (some e) none t = panic "invalid memory address or nil pointer dereference"
with_error (some e) (some i) t = ok (record t { error = some e; error_event_idx = int32 i })

unfoldable pub show_id : Option ℤ → String
unfolding show_ℤ
show_id none = ""
show_id (some id) = show_ℤ id

unfoldable pub receipt_response : String → Receipt → Result TransactionReceipt
unfolding with_error int32 show_id
receipt_response param r = with_error r.error r.error_event_idx (record {
  table_id = show_id r.table_id;
  transaction_hash = param;
  block_number = r.block_number;
  chain_id = int32 r.chain_id;
  error = none;
  error_event_idx = pos 0;
})

module _ {J : Type 0} where
  unfoldable pub send_receipt :
      (TransactionReceipt → J) → Result TransactionReceipt → Writer J → Result (Writer J)
  unfolding respond set_content_type
  send_receipt encode (ok t) w =
      ok (respond 200 (encoded (encode t)) (set_content_type "application/json" w))
  send_receipt encode (err e) w = err e
  send_receipt encode (panic p) w = panic p

  unfoldable pub answer_receipt :
      (TransactionReceipt → J) → String → Result (Option Receipt) → Writer J → Result (Writer J)
  unfolding send_receipt receipt_response refuse_with set_content_type write_header
  answer_receipt encode param (ok none) w = ok (write_header 404 w)
  answer_receipt encode param (ok (some r)) w = send_receipt encode (receipt_response param r) w
  answer_receipt encode param (err e) w = ok (
      refuse_with 400 (text "Get receipt by transaction hash failed")
        (set_content_type "application/json" w))
  answer_receipt encode param (panic p) w = panic p

  unfoldable pub answer_hash :
      {H : Type 0}
      → (TransactionReceipt → J)
      → SystemService
      → (H → String)
      → Option ℕ
      → String
      → Result H
      → Writer J
      → Result (Writer J)
  unfolding answer_receipt refuse_with set_content_type get_receipt_by_transaction_hash
  answer_hash encode service hex context param (ok hash) w =
      answer_receipt encode param (get_receipt_by_transaction_hash service hex context hash) w
  answer_hash encode service hex context param (err e) w =
      ok (refuse_with 400 (text "Invalid transaction hash") (set_content_type "application/json" w))
  answer_hash encode service hex context param (panic p) w = panic p

  -- `parse` is ParseHexOrString with HexToHash, and `hex` the text of a hash.
  unfoldable pub get_receipt_handler :
      {H : Type 0}
      → (TransactionReceipt → J)
      → SystemService
      → (H → String)
      → (String → Result H)
      → Option ℕ
      → String
      → Writer J
      → Result (Writer J)
  unfolding answer_hash
  get_receipt_handler encode service hex parse context param w =
      answer_hash encode service hex context param (parse param) w
