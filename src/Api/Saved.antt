-- ===== src/Api/Saved.antt =====
-- About the receipts that the API serves: GetReceiptByTransactionHash of internal/router/controllers/controller.go over
-- the rows that pkg/eventprocessor/impl/executor saves.
use mathlib.Core.List.{append_assoc}
use go_tableland.Prelude.{
  ℤ, pos, ℕ, String, ◌≡◌, refl, ap, ◌∙◌, Bool, true, false, ◌||◌, Option, none, some, List, [], ◌∷◌,
  ◌++◌, arith, eq_iff, eq_refl, if◌then◌else◌,
}
use go_tableland.Errors.{GoError, Result, ok, err}
use go_tableland.Database.{ReceiptRow, Db, constraint}
use go_tableland.Database.Statements.{has_hash, has_position, insert_receipt}
use go_tableland.System.{
  SystemStore, SystemService, found_store, store_of, with_store, receipt_of,
  get_receipt_by_transaction_hash,
}
use go_tableland.System.Store.{
  select_receipt, index_of, receipt_from_row, found_receipt, store_get_receipt,
}
use go_tableland.Api.{encoded, Writer, new_writer}
use go_tableland.Api.Receipts.{
  TransactionReceipt, int32, with_error, show_id, receipt_response, send_receipt, answer_receipt,
  answer_hash, get_receipt_handler,
}

-- The index of an error: 0 where the row has none.
abbrev pub shown_index : Option GoError → Option ℕ → ℤ
shown_index none i = pos 0
shown_index (some e) none = pos 0
shown_index (some e) (some i) = int32 i

-- What the answer for a row shows.
abbrev pub shown : String → ReceiptRow → TransactionReceipt
shown param r = record {
  table_id = show_id r.table_id;
  transaction_hash = param;
  block_number = r.block_number;
  chain_id = int32 r.chain_id;
  error = r.error;
  error_event_idx = shown_index r.error r.error_event_idx;
}

no_other :
    (chain : ℕ) (hash : String) (r : ReceiptRow) (xs ys : List ReceiptRow)
    → has_hash chain hash xs ≡ false
    → r.chain_id ≡ chain
    → r.txn_hash ≡ hash
    → select_receipt chain hash (xs ++ (r ∷ ys)) ≡ some r
unfolding select_receipt has_hash
no_other chain hash r [] ys n c h = ground (arith, c, h, eq_refl hash, eq_iff r.txn_hash hash)
no_other chain hash r (x ∷ xs) ys n c h = ground (arith, n, c, h, no_other chain hash r xs ys)

-- A row that is inserted is found by its chain and hash, whatever is inserted after it.
insert_receipt-found :
    (r : ReceiptRow) (db : Db) (later : List ReceiptRow)
    → (insert_receipt r db).0 ≡ ok tt
    → select_receipt r.chain_id r.txn_hash ((insert_receipt r db).1.system_txn_receipts ++ later)
      ≡ some r
unfolding insert_receipt
insert_receipt-found r db later =
    go (has_position r.chain_id r.block_number r.index_in_block db.system_txn_receipts)
      (has_hash r.chain_id r.txn_hash db.system_txn_receipts) refl
  where
    after : Bool → Result (Unit {0}) × Db
    after b =
        if b
        then (err (constraint "UNIQUE constraint failed: system_txn_receipts"), db)
        else (ok tt, record db { system_txn_receipts = db.system_txn_receipts ++ (r ∷ []) })

    go :
        (p h : Bool)
        → has_hash r.chain_id r.txn_hash db.system_txn_receipts ≡ h
        → (after (p || h)).0 ≡ ok tt
        → select_receipt r.chain_id r.txn_hash ((after (p || h)).1.system_txn_receipts ++ later)
          ≡ some r
    go true h e i = cc
    go false true e i = cc
    go false false e i =
        ap (select_receipt r.chain_id r.txn_hash)
          (append_assoc db.system_txn_receipts (r ∷ []) later)
        ∙ no_other r.chain_id r.txn_hash r db.system_txn_receipts later e refl refl

receipt_response-shown :
    (param : String) (r : ReceiptRow)
    → receipt_response param (receipt_from_row r.chain_id r.txn_hash r) ≡ ok (shown param r)
unfolding receipt_response receipt_from_row
receipt_response-shown param r = go r.error r.error_event_idx
  where
    base : TransactionReceipt
    base = record {
      table_id = show_id r.table_id;
      transaction_hash = param;
      block_number = r.block_number;
      chain_id = int32 r.chain_id;
      error = none;
      error_event_idx = pos 0;
    }

    go :
        (e : Option GoError) (i : Option ℕ)
        → with_error e (index_of e i) base
          ≡ ok (record base { error = e; error_event_idx = shown_index e i })
    go none i = refl
    go (some e) none = refl
    go (some e) (some i) = refl

-- The answer with a receipt.
abbrev pub receipt_answer : {J : Type 0} → J → Writer J
receipt_answer j = record {
  content_type = some "application/json";
  sent = some (200, some "application/json");
  superfluous = 0;
  body = encoded j ∷ [];
}

send_receipt-shown :
    {J : Type 0} (encode : TransactionReceipt → J) (param : String) (r : ReceiptRow)
    → send_receipt encode (ok (shown param r)) new_writer
      ≡ ok (receipt_answer (encode (shown param r)))
unfolding send_receipt
send_receipt-shown encode param r = refl

service_receipt :
    (service : SystemService) {H : Type 0} (hex : H → String) (hash : H) (r : ReceiptRow)
    (store : SystemStore) (db : Db)
    → hex hash ≡ r.txn_hash
    → service.stores r.chain_id ≡ some store
    → ((hash : String) → store.get_receipt hash ≡ store_get_receipt none r.chain_id hash db)
    → select_receipt r.chain_id r.txn_hash db.system_txn_receipts ≡ some r
    → get_receipt_by_transaction_hash service hex (some r.chain_id) hash
      ≡ ok (some (receipt_from_row r.chain_id r.txn_hash r))
unfolding get_receipt_by_transaction_hash store_of store_get_receipt
service_receipt service hex hash r store db text has reads at =
    ap
      (λ q.
        with_store service (found_store service r.chain_id q)
          (λ s. receipt_of service r.chain_id (s.get_receipt (hex hash))))
      has
    ∙ ap (λ x. receipt_of service r.chain_id (store.get_receipt x)) text
    ∙ ap (receipt_of service r.chain_id) (reads r.txn_hash)
    ∙ ap (λ q. receipt_of service r.chain_id (ok (found_receipt r.chain_id r.txn_hash q))) at

-- If a receipt was inserted without an error, and the store of its chain reads a database whose
-- receipts are those after the insertion with any later ones behind them, then a request of that
-- chain whose parameter is read as a hash that is printed as the receipt's is answered with
-- status 200 and the receipt: its table, block, chain, error, and the index of the error, or 0
-- where it has none.
pub get_receipt_handler-saved :
    {J H : Type 0} (encode : TransactionReceipt → J) (service : SystemService) (hex : H → String)
    (parse : String → Result H) (param : String) (hash : H) (r : ReceiptRow) (store : SystemStore)
    (db db' : Db) (later : List ReceiptRow)
    → (insert_receipt r db).0 ≡ ok tt
    → db'.system_txn_receipts ≡ (insert_receipt r db).1.system_txn_receipts ++ later
    → service.stores r.chain_id ≡ some store
    → ((hash : String) → store.get_receipt hash ≡ store_get_receipt none r.chain_id hash db')
    → parse param ≡ ok hash
    → hex hash ≡ r.txn_hash
    → get_receipt_handler encode service hex parse (some r.chain_id) param new_writer
      ≡ ok (receipt_answer (encode (shown param r)))
unfolding get_receipt_handler
get_receipt_handler-saved encode service hex parse param hash r store db db' later i same has reads
      p text =
    let at : select_receipt r.chain_id r.txn_hash db'.system_txn_receipts ≡ some r =
      ap (select_receipt r.chain_id r.txn_hash) same ∙ insert_receipt-found r db later i in
    let served = service_receipt service hex hash r store db' text has reads at in
    ap (λ q. answer_hash encode service hex (some r.chain_id) param q new_writer) p
    ∙ ap (λ q. answer_receipt encode param q new_writer) served
    ∙ ap (λ q. send_receipt encode q new_writer) (receipt_response-shown param r)
    ∙ send_receipt-shown encode param r
