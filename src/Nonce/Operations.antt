-- ===== src/Nonce/Operations.antt =====
-- The operations of LocalTracker (pkg/nonce/impl/tracker.go). Each that holds the lock is one
-- computation; the loop of checkPendingTxns takes the lock for each transaction.
use go_tableland.Prelude.{
  ℤ, pos, ltb_ℤ, ◌+ℤ◌, ◌-ℤ◌, ℕ, suc, ◌-◌, String, Bool, Option, List, [], ◌∷◌, ◌++◌, ltb,
  if◌then◌else◌,
}
use go_tableland.Errors.{GoError, text, flattened, Result, ok, err, panic}
use go_tableland.Database.{int64_key}
use go_tableland.Nonce.{
  PendingTx, Tracker, list_pending_tx, insert_pending_tx, delete_pending_tx, replace_pending_tx,
}
use go_tableland.Nonce.Gwei.{gwei_of}
use go_tableland.Steps.{Calls, Run, pure, fail, lift, on_error, ◌>>=◌, ◌>>◌}
use go_tableland.Nonce.Node.{
  Answer, answer, refused, Txn, EthNode, TrackerConfig, Checked, included, pending_tx_may_be_stuck,
  receipt_not_found, block_diff_not_enough, is_not_found, ask, modify, state_of, logged, need,
  remove_at, delete_index, new_gas_price,
}

module _ (fault : ℕ → Option GoError) (node : EthNode) (config : TrackerConfig) where
  -- registerPendingTx with the nonce that GetNonce returned; a failed insert is only logged.
  unfoldable pub register_pending_tx : ℤ → String → Run Tracker (Unit {0})
  unfolding insert_pending_tx ask modify logged ◌+ℤ◌
  register_pending_tx nonce h = do
    now ← ask node.now
    logged (
        insert_pending_tx fault config.chain_id config.address
          (record { hash = h; nonce = nonce; bump_price_count = 0; created_at = now }))
    modify (λ t. record t {
      pending_txs =
          t.pending_txs
          ++ (record { hash = h; nonce = nonce; bump_price_count = 0; created_at = now } ∷ []);
      curr_nonce = nonce +ℤ pos 1;
    })

  -- Resync, and what NewLocalTracker starts with
  unfoldable pub initialize : Run Tracker (Unit {0})
  unfolding list_pending_tx ask need modify int64_key
  initialize = do
    network ← ask node.pending_nonce_at
    nonce ← need "get pending nonce at" network
    pending ←
        on_error (flattened "get nonce for tracker initialization")
          (list_pending_tx fault config.chain_id config.address)
    modify (λ t. record t { pending_txs = pending; curr_nonce = int64_key nonce })

  unfoldable pub delete_pending_tx_by_hash : String → Run Tracker (Unit {0})
  unfolding delete_pending_tx state_of lift modify remove_at delete_index
  delete_pending_tx_by_hash h = do
    on_error (flattened "delete pending tx")
        (delete_pending_tx fault config.chain_id config.address h)
    t ← state_of
    pending ← lift (remove_at (delete_index h 0 0 t.pending_txs) t.pending_txs)
    modify (λ t. record t { pending_txs = pending })

  -- A transaction without a receipt that is older than the stuck interval.
  unfoldable pub check_stuck : PendingTx → Answer (Txn × Bool) → Run Tracker Checked
  unfolding delete_pending_tx_by_hash initialize pure
  check_stuck tx (answer a) = pure pending_tx_may_be_stuck
  check_stuck tx (refused s) =
      if is_not_found s
      then (do
        on_error (flattened "deleting pending tx not present in mempool")
            (delete_pending_tx_by_hash tx.hash)
        on_error (flattened "re-initializing after pending tx removed from the pool") initialize
        pure included)
      else pure pending_tx_may_be_stuck

  -- A transaction without a receipt, at a time.
  unfoldable pub check_age : PendingTx → String → ℕ → Run Tracker Checked
  unfolding check_stuck ask pure fail is_not_found
  check_age tx s now =
      if ltb config.stuck_interval (now - tx.created_at)
      then (ask (λ n. node.transaction_by_hash n tx.hash) >>= check_stuck tx)
      else if is_not_found s
      then pure receipt_not_found
      else fail (flattened "get transaction receipt" (text s))

  unfoldable pub check_receipt : PendingTx → ℤ → Answer ℤ → Run Tracker Checked
  unfolding check_age delete_pending_tx_by_hash ask pure ◌-ℤ◌
  check_receipt tx head (refused s) = ask node.now >>= check_age tx s
  check_receipt tx head (answer block) =
      if ltb_ℤ (head -ℤ block) (pos config.min_block_chain_depth)
      then pure block_diff_not_enough
      else (do
        on_error (flattened "deleting pending txn by hash") (delete_pending_tx_by_hash tx.hash)
        pure included)

  unfoldable pub check_if_pending_tx_was_included : PendingTx → ℤ → Run Tracker Checked
  unfolding check_receipt ask
  check_if_pending_tx_was_included tx head = do
    receipt ← ask (λ n. node.transaction_receipt n tx.hash)
    check_receipt tx head receipt

  unfoldable pub bump_txn_gas : String → Run Tracker String
  unfolding ask need lift new_gas_price pure fail
  bump_txn_gas h = do
    found ← ask (λ n. node.transaction_by_hash n h)
    pending ← need "get pending txn from the mempool" found
    if pending.1 then pure tt else fail (text "the transaction hash isn't pending")
    price ← ask node.suggest_gas_price
    suggested ← need "get suggested gas price" price
    txn ← on_error (flattened "signing txn") (
        lift (
          node.sign (record pending.0 { gas_price = new_gas_price pending.0.gas_price suggested })))
    sent ← ask (λ n. node.send_transaction n txn)
    need "sending txn" sent
    pure (node.hash_of txn)

  -- What checkPendingTxns does with a stuck transaction before it leaves the loop. The replaced hash is
  -- written to the copy of the list, which is not read again.
  unfoldable pub bump : PendingTx → Run Tracker (Unit {0})
  unfolding bump_txn_gas modify replace_pending_tx logged pure
  bump tx =
      if ltb 3 tx.bump_price_count
      then modify (λ t. record t { txn_confirmation_attempts = suc t.txn_confirmation_attempts })
      else (do
        modify (λ t. record t { txn_confirmation_attempts = 0 })
        logged (do
          bumped ← bump_txn_gas tx.hash
          replace_pending_tx fault config.chain_id config.address tx.hash bumped))

  -- Whether the loop goes on after a check, with what the rest of it gives. An error that is not told
  -- apart is only logged.
  unfoldable pub after_check :
      PendingTx → Result Checked → Result (Unit {0}) × Calls Tracker → Run Tracker (Unit {0})
  unfolding bump
  after_check tx (ok included) next w = next
  after_check tx (ok pending_tx_may_be_stuck) next w = bump tx w
  after_check tx (ok receipt_not_found) next w = (ok tt, w)
  after_check tx (ok block_diff_not_enough) next w = (ok tt, w)
  after_check tx (err e) next w = next
  after_check tx (panic s) next w = (panic s, w)

  -- The loop over the copy of the pending transactions.
  unfoldable pub check_each : ℤ → List PendingTx → Run Tracker (Unit {0})
  unfolding check_if_pending_tx_was_included after_check pure
  check_each head [] w = pure tt w
  check_each head (tx ∷ rest) w =
      let (r, w') = check_if_pending_tx_was_included tx head w in
      after_check tx r (check_each head rest w') w'

  unfoldable pub check_pending_txns : Run Tracker (Unit {0})
  unfolding check_each ask need state_of
  check_pending_txns = do
    tip ← ask node.header_by_number
    head ← need "get chain tip header" tip
    t ← state_of
    check_each head t.pending_txs

  unfoldable pub set_balance : Answer ℕ → Run Tracker (Unit {0})
  unfolding modify lift gwei_of fail
  set_balance (refused s) =
      modify (λ t. record t { eth_client_unhealthy = suc t.eth_client_unhealthy })
      >> fail (flattened "get balance" (text s))
  set_balance (answer wei) = do
    gwei ← on_error (flattened "converting wei to gwei") (lift (gwei_of wei))
    modify (λ t. record t { curr_wei_balance = gwei; eth_client_unhealthy = 0 })

  unfoldable pub check_balance : Run Tracker (Unit {0})
  unfolding ask set_balance
  check_balance = do balance ← ask node.balance_at; set_balance balance
