-- ===== src/Nonce/Quiet.antt =====
-- About the bump of a stuck transaction's gas price (pkg/nonce/impl/tracker.go) and its statement
-- (pkg/sqlstore/impl/system/store.go).
use go_tableland.Prelude.{
  ℕ, String, ◌≡◌, refl, ap, ◌∙◌, inl, inr, Bool, true, false, Option, List, [], ◌∷◌, ltb,
  if◌then◌else◌, Bool-cases, Option-cases,
}
use go_tableland.Errors.{GoError, text, flattened, Result, ok, err, panic}
use go_tableland.Nonce.{
  PendingTx, PendingRow, Tracker, is_integer, is_text, update_rows, replace_rows,
  replace_pending_tx,
}
use go_tableland.Nonce.Synced.{SameLists}
use go_tableland.Steps.{Calls, Run, pure, fail, lift, on_error, continue, ◌>>=◌, call}
use go_tableland.Nonce.Node.{
  Answer, answer, refused, EthNode, TrackerConfig, ask, modify, logged, need, new_gas_price,
}
use go_tableland.Nonce.Operations.{bump_txn_gas, bump}

replace_rows_lem :
    (chain : ℕ) (old_hash new_hash : String) (rows : List PendingRow)
    → replace_rows chain old_hash new_hash rows ≡ rows
unfolding replace_rows update_rows is_integer is_text
replace_rows_lem chain old_hash new_hash [] = refl
replace_rows_lem chain old_hash new_hash (r ∷ rs) =
    ap (λ x. r ∷ x) (replace_rows_lem chain old_hash new_hash rs)

module _ (fault : ℕ → Option GoError) (node : EthNode) (config : TrackerConfig) where
  -- A computation that leaves the transactions and the rows as they were.
  abbrev pub Quiet : {A : Type 0} → Run Tracker A → Type 0
  Quiet m = (w : Calls Tracker) → SameLists w.state (m w).1.state

  Quiet-bind :
      {A B : Type 0} (m : Run Tracker A) (f : A → Run Tracker B)
      → Quiet m
      → ((a : A) → Quiet (f a))
      → Quiet (m >>= f)
  unfolding ◌>>=◌
  Quiet-bind m f first next w = go (m w).0 (m w).1 (first w)
    where
      go :
          (r : Result _) (w' : Calls Tracker)
          → SameLists w.state w'.state
          → SameLists w.state (continue r f w').1.state
      go (ok a) w' (p, q) = ((next a w').0 ∙ p, (next a w').1 ∙ q)
      go (err e) w' s = s
      go (panic x) w' s = s

  pub need-Quiet : {A : Type 0} (context : String) (r : Answer A) → Quiet (need context r)
  unfolding need pure fail
  need-Quiet context (answer a) w = (refl, refl)
  need-Quiet context (refused s) w = (refl, refl)

  pub ask-Quiet : {A : Type 0} (f : ℕ → A) → Quiet (ask f)
  unfolding ask
  ask-Quiet f w = (refl, refl)

  lift-Quiet : {A : Type 0} (g : GoError → GoError) (r : Result A) → Quiet (on_error g (lift r))
  unfolding lift on_error
  lift-Quiet g r w = (refl, refl)

  pending-Quiet : (b : Bool) (e : GoError) → Quiet (if b then pure tt else fail e)
  unfolding pure fail
  pending-Quiet true e w = (refl, refl)
  pending-Quiet false e w = (refl, refl)

  bump_txn_gas-Quiet : (h : String) → Quiet (bump_txn_gas fault node config h)
  unfolding bump_txn_gas pure
  bump_txn_gas-Quiet h =
      Quiet-bind (ask (λ n. node.transaction_by_hash n h)) _
        (ask-Quiet (λ n. node.transaction_by_hash n h))
        (λ found.
          Quiet-bind (need "get pending txn from the mempool" found) _
            (need-Quiet "get pending txn from the mempool" found)
            (λ pending.
              Quiet-bind
                (if pending.1 then pure tt else fail (text "the transaction hash isn't pending")) _
                (pending-Quiet pending.1 (text "the transaction hash isn't pending"))
                (λ u.
                  Quiet-bind (ask node.suggest_gas_price) _ (ask-Quiet node.suggest_gas_price)
                    (λ price.
                      Quiet-bind (need "get suggested gas price" price) _
                        (need-Quiet "get suggested gas price" price)
                        (λ suggested.
                          Quiet-bind
                            (on_error (flattened "signing txn") (
                              lift (
                                node.sign (record pending.0 {
                                  gas_price = new_gas_price pending.0.gas_price suggested;
                                }))))
                            _ (lift-Quiet (flattened "signing txn") _)
                            (λ txn.
                              Quiet-bind (ask (λ n. node.send_transaction n txn)) _
                                (ask-Quiet (λ n. node.send_transaction n txn))
                                (λ sent.
                                  Quiet-bind (need "sending txn" sent) _
                                    (need-Quiet "sending txn" sent) (λ v w. (refl, refl)))))))))

  replace_pending_tx-keeps :
      (old_hash new_hash : String)
      → Quiet (replace_pending_tx fault config.chain_id config.address old_hash new_hash)
  unfolding replace_pending_tx on_error call
  replace_pending_tx-keeps old_hash new_hash w = elim (Option-cases (fault w.calls)) [
    | inl e ↦ rw (e, call) (refl, replace_rows_lem config.chain_id old_hash new_hash w.state.rows)
    | inr (x, e) ↦ rw (e, call) (refl, refl)
  ]

  logged-Quiet : (m : Run Tracker (Unit {0})) → Quiet m → Quiet (logged m)
  unfolding logged
  logged-Quiet m q w = q w

  -- What checkPendingTxns does with a stuck transaction, the bump of its gas price and the
  -- replacement of its hash included, leaves the pending transactions in memory and the rows of
  -- the store as they were, however it ends.
  pub bump-Quiet : (tx : PendingTx) → Quiet (bump fault node config tx)
  unfolding bump modify
  bump-Quiet tx = elim (Bool-cases (ltb 3 tx.bump_price_count)) [
    | inl b ↦ rw (b) (λ w. (refl, refl))
    | inr b ↦ rw (b) (
        Quiet-bind (modify (λ t. record t { txn_confirmation_attempts = 0 })) _ (λ w. (refl, refl))
          (λ u.
            logged-Quiet
              (bump_txn_gas fault node config tx.hash >>= λ bumped.
                replace_pending_tx fault config.chain_id config.address tx.hash bumped)
              (Quiet-bind (bump_txn_gas fault node config tx.hash)
                (λ bumped. replace_pending_tx fault config.chain_id config.address tx.hash bumped)
                (bump_txn_gas-Quiet tx.hash) (λ bumped. replace_pending_tx-keeps tx.hash bumped))))
  ]
