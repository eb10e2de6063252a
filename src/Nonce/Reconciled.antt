-- ===== src/Nonce/Reconciled.antt =====
-- About the tracker's operations on its pending transactions (pkg/nonce/impl/tracker.go).
use go_tableland.Prelude.{
  ℤ, pos, ltb_ℤ, ◌-ℤ◌, ℕ, suc, ◌-◌, String, inl, inr, Bool, Option, List, ◌∷◌, ltb, Bool-cases,
  Option-cases,
}
use go_tableland.Errors.{GoError, text, flattened}
use go_tableland.Database.{int64_key}
use go_tableland.Nonce.{PendingTx, Tracker, list_pending_tx, delete_pending_tx}
use go_tableland.Nonce.Synced.{Takes, takes-bind, Both, removed, relisted, fewer}
use go_tableland.Steps.{Run, pure, fail, lift, on_error, ◌>>=◌, call}
use go_tableland.Nonce.Node.{
  Answer, answer, refused, Answer-cases, Txn, EthNode, TrackerConfig, Checked, receipt_not_found,
  block_diff_not_enough, is_not_found, ask, modify, state_of, need,
}
use go_tableland.Nonce.Operations.{
  initialize, delete_pending_tx_by_hash, check_stuck, check_age, check_receipt,
  check_if_pending_tx_was_included,
}

module _ (fault : ℕ → Option GoError) (node : EthNode) (config : TrackerConfig) where
  delete-Takes :
      (tx : PendingTx) (rest : List PendingTx)
      → Takes
          (Both config (tx ∷ rest))
          (delete_pending_tx_by_hash fault node config tx.hash)
          (Both config rest)
  unfolding delete_pending_tx_by_hash delete_pending_tx on_error call ◌>>=◌ state_of lift modify
  delete-Takes tx rest w b = elim (Option-cases (fault w.calls)) [
    | inl e ↦
        let (at, after) = removed config tx rest w.state b in
        rw (e, call, delete_pending_tx) (rw (at) after)
    | inr (x, e) ↦ rw (e, call, delete_pending_tx) (fewer config tx rest w.state b)
  ]

  pub initialize-Takes :
      (rest : List PendingTx)
      → Takes (Both config rest) (initialize fault node config) (Both config rest)
  unfolding initialize list_pending_tx on_error call ◌>>=◌ ask need fail pure modify
  initialize-Takes rest w b = elim (Answer-cases (node.pending_nonce_at w.calls)) [
    | inl (n, a) ↦ elim (Option-cases (fault (suc w.calls))) [
      | inl e ↦
          rw (a) (rw (e, call, list_pending_tx) (relisted config rest w.state (int64_key n) b))
      | inr (x, e) ↦ rw (a) (rw (e, call, list_pending_tx) b)
    ]
    | inr (s, a) ↦ rw (a) b
  ]

  delete-fails-Takes :
      (f : GoError → GoError) (tx : PendingTx) (rest : List PendingTx)
      → Takes
          (Both config (tx ∷ rest))
          (on_error f (delete_pending_tx_by_hash fault node config tx.hash))
          (Both config rest)
  unfolding on_error
  delete-fails-Takes f tx rest w b = delete-Takes tx rest w b

  initialize-fails-Takes :
      (f : GoError → GoError) (rest : List PendingTx)
      → Takes (Both config rest) (on_error f (initialize fault node config)) (Both config rest)
  unfolding on_error
  initialize-fails-Takes f rest w b = initialize-Takes rest w b

  -- Every way that the check of a transaction ends leaves the others to be checked.
  abbrev pub Checks : PendingTx → List PendingTx → {A : Type 0} → Run Tracker A → Type 0
  Checks tx rest m = Takes (Both config (tx ∷ rest)) m (Both config rest)

  pure-Checks :
      (tx : PendingTx) (rest : List PendingTx) {A : Type 0} (a : A) → Checks tx rest (pure a)
  unfolding pure
  pure-Checks tx rest a w b = fewer config tx rest w.state b

  fail-Checks :
      (A : Type 0) (tx : PendingTx) (rest : List PendingTx) (e : GoError)
      → Checks tx rest (fail {A = A} e)
  unfolding fail
  fail-Checks A tx rest e w b = fewer config tx rest w.state b

  ask-Takes :
      {A : Type 0} (txs : List PendingTx) (f : ℕ → A)
      → Takes (Both config txs) (ask f) (Both config txs)
  unfolding ask
  ask-Takes txs f w b = b

  check_stuck-Checks :
      (tx : PendingTx) (rest : List PendingTx) (r : Answer (Txn × Bool))
      → Checks tx rest (check_stuck fault node config tx r)
  unfolding check_stuck pure
  check_stuck-Checks tx rest (answer a) = λ w b. fewer config tx rest w.state b
  check_stuck-Checks tx rest (refused s) = elim (Bool-cases (is_not_found s)) [
    | inl n ↦ rw (n) (
        takes-bind (Both config (tx ∷ rest)) (Both config rest) (Both config rest)
          (on_error (flattened "deleting pending tx not present in mempool")
            (delete_pending_tx_by_hash fault node config tx.hash))
          _ (delete-fails-Takes (flattened "deleting pending tx not present in mempool") tx rest)
          (λ u.
            takes-bind (Both config rest) (Both config rest) (Both config rest)
              (on_error (flattened "re-initializing after pending tx removed from the pool")
                (initialize fault node config))
              _
              (initialize-fails-Takes
                (flattened "re-initializing after pending tx removed from the pool") rest)
              (λ v w b. b) (λ t b. b))
          (λ t b. b))
    | inr n ↦ rw (n) (λ w b. fewer config tx rest w.state b)
  ]

  check_age-Checks :
      (tx : PendingTx) (rest : List PendingTx) (s : String) (now : ℕ)
      → Checks tx rest (check_age fault node config tx s now)
  unfolding check_age
  check_age-Checks tx rest s now =
      elim (Bool-cases (ltb config.stuck_interval (now - tx.created_at))) [
        | inl old ↦ rw (old) (
            takes-bind (Both config (tx ∷ rest)) (Both config (tx ∷ rest)) (Both config rest)
              (ask (λ n. node.transaction_by_hash n tx.hash)) _
              (ask-Takes (tx ∷ rest) (λ n. node.transaction_by_hash n tx.hash))
              (check_stuck-Checks tx rest) (fewer config tx rest))
        | inr old ↦ elim (Bool-cases (is_not_found s)) [
          | inl n ↦ rw (old, n) (pure-Checks tx rest receipt_not_found)
          | inr n ↦
              rw (old, n)
                (fail-Checks Checked tx rest (flattened "get transaction receipt" (text s)))
        ]
      ]

  check_receipt-Checks :
      (tx : PendingTx) (rest : List PendingTx) (head : ℤ) (r : Answer ℤ)
      → Checks tx rest (check_receipt fault node config tx head r)
  unfolding check_receipt pure
  check_receipt-Checks tx rest head (answer block) =
      elim (Bool-cases (ltb_ℤ (head -ℤ block) (pos config.min_block_chain_depth))) [
        | inl d ↦ rw (d) (pure-Checks tx rest block_diff_not_enough)
        | inr d ↦ rw (d) (
            takes-bind (Both config (tx ∷ rest)) (Both config rest) (Both config rest)
              (on_error (flattened "deleting pending txn by hash")
                (delete_pending_tx_by_hash fault node config tx.hash))
              _ (delete-fails-Takes (flattened "deleting pending txn by hash") tx rest) (λ u w b. b)
              (λ t b. b))
      ]
  check_receipt-Checks tx rest head (refused s) =
      takes-bind (Both config (tx ∷ rest)) (Both config (tx ∷ rest)) (Both config rest)
        (ask node.now) _ (ask-Takes (tx ∷ rest) node.now) (check_age-Checks tx rest s)
        (fewer config tx rest)

  pub check-Checks :
      (tx : PendingTx) (rest : List PendingTx) (head : ℤ)
      → Checks tx rest (check_if_pending_tx_was_included fault node config tx head)
  unfolding check_if_pending_tx_was_included
  check-Checks tx rest head =
      takes-bind (Both config (tx ∷ rest)) (Both config (tx ∷ rest)) (Both config rest)
        (ask (λ n. node.transaction_receipt n tx.hash)) _
        (ask-Takes (tx ∷ rest) (λ n. node.transaction_receipt n tx.hash))
        (check_receipt-Checks tx rest head) (fewer config tx rest)
