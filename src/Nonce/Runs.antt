-- ===== src/Nonce/Runs.antt =====
-- About the tracker's runs (pkg/nonce/impl/tracker.go).
use go_tableland.Prelude.{
  ℤ, ℕ, suc, String, ◌≡◌, refl, ◌⊎◌, inl, inr, false, Option, none, List, [], ◌∷◌,
}
use go_tableland.Errors.{GoError, Result, ok, err, panic}
use go_tableland.Nonce.{PendingTx, Tracker, has_row, insert_row, insert_pending_tx}
use go_tableland.Nonce.Gwei.{gwei_of}
use go_tableland.Nonce.Hashes.{mem}
use go_tableland.Nonce.Synced.{
  Takes, takes-bind, SameLists, Synced, Both, same-Synced, Both-Synced, Synced-Both, appended,
  Synced-none,
}
use go_tableland.Nonce.Reconciled.{initialize-Takes, check-Checks}
use go_tableland.Nonce.Quiet.{need-Quiet, ask-Quiet, bump-Quiet}
use go_tableland.Steps.{Calls, pure, fail, lift, on_error, ◌>>=◌, call}
use go_tableland.Nonce.Node.{
  Answer, answer, refused, EthNode, TrackerConfig, Checked, included, pending_tx_may_be_stuck,
  receipt_not_found, block_diff_not_enough, ask, modify, state_of, logged, need,
}
use go_tableland.Nonce.Operations.{
  register_pending_tx, initialize, check_if_pending_tx_was_included, after_check, check_each,
  check_pending_txns, set_balance, check_balance,
}

Result-cases :
    {A : Type 0} (r : Result A)
    → ((a : A) × (r ≡ ok a)) ⊎ (((e : GoError) × (r ≡ err e)) ⊎ ((s : String) × (r ≡ panic s)))
Result-cases (ok a) = inl (a, refl)
Result-cases (err e) = inr (inl (e, refl))
Result-cases (panic s) = inr (inr (s, refl))

module _ (fault : ℕ → Option GoError) (node : EthNode) (config : TrackerConfig) where
  after_check-Synced :
      (tx : PendingTx) (r : Result Checked) (next : Result (Unit {0}) × Calls Tracker)
      (w : Calls Tracker)
      → Synced config next.1.state
      → Synced config w.state
      → Synced config (after_check fault node config tx r next w).1.state
  unfolding after_check
  after_check-Synced tx (ok included) next w n s = n
  after_check-Synced tx (ok pending_tx_may_be_stuck) next w n s =
      same-Synced config w.state _ (bump-Quiet fault node config tx w) s
  after_check-Synced tx (ok receipt_not_found) next w n s = s
  after_check-Synced tx (ok block_diff_not_enough) next w n s = s
  after_check-Synced tx (err e) next w n s = n
  after_check-Synced tx (panic x) next w n s = s

  check_each-Synced :
      (head : ℤ) (txs : List PendingTx)
      → Takes (Both config txs) (check_each fault node config head txs) (Synced config)
  unfolding check_each pure
  check_each-Synced head [] w b = Both-Synced config [] w.state b
  check_each-Synced head (tx ∷ rest) w b =
      let after = check-Checks fault node config tx rest head w b in
      let w' = (check_if_pending_tx_was_included fault node config tx head w).1 in
      after_check-Synced tx (check_if_pending_tx_was_included fault node config tx head w).0
        (check_each fault node config head rest w') w' (check_each-Synced head rest w' after)
        (Both-Synced config rest w'.state after)

  copy-Synced :
      (head : ℤ)
      → Takes
          (Synced config)
          (state_of >>= λ t. check_each fault node config head t.pending_txs)
          (Synced config)
  unfolding ◌>>=◌ state_of
  copy-Synced head w s = check_each-Synced head w.state.pending_txs w (Synced-Both config w.state s)

  check_pending_txns-Synced :
      Takes (Synced config) (check_pending_txns fault node config) (Synced config)
  unfolding check_pending_txns
  check_pending_txns-Synced =
      takes-bind (Synced config) (Synced config) (Synced config) (ask node.header_by_number) _
        (λ w s. quietly w.state _ (ask-Quiet fault node config node.header_by_number w) s)
        (λ tip.
          takes-bind (Synced config) (Synced config) (Synced config)
            (need "get chain tip header" tip) _
            (λ w s. quietly w.state _ (need-Quiet fault node config "get chain tip header" tip w) s)
            copy-Synced (λ t s. s))
        (λ t s. s)
    where
      quietly : (t t' : Tracker) → SameLists t t' → Synced config t → Synced config t'
      quietly t t' q s = same-Synced config t t' q s

  -- A registered hash is new, and its row is stored; the other operations are free.
  pub data Step : Calls Tracker → Calls Tracker → Type 0 where
    registered :
        (w : Calls Tracker) (nonce : ℤ) (h : String)
        → mem h w.state.pending_txs ≡ false
        → fault (suc w.calls) ≡ none
        → has_row config.chain_id config.address nonce w.state.rows ≡ false
        → Step w (register_pending_tx fault node config nonce h w).1
    resynced : (w : Calls Tracker) → Step w (initialize fault node config w).1
    checked : (w : Calls Tracker) → Step w (check_pending_txns fault node config w).1
    weighed : (w : Calls Tracker) → Step w (check_balance fault node config w).1

  pub data Reaches : Calls Tracker → Calls Tracker → Type 0 where
    here : (w : Calls Tracker) → Reaches w w
    further : (w w' w'' : Calls Tracker) → Reaches w w' → Step w' w'' → Reaches w w''

  register-Synced :
      (w : Calls Tracker) (nonce : ℤ) (h : String)
      → mem h w.state.pending_txs ≡ false
      → fault (suc w.calls) ≡ none
      → has_row config.chain_id config.address nonce w.state.rows ≡ false
      → Synced config w.state
      → Synced config (register_pending_tx fault node config nonce h w).1.state
  unfolding register_pending_tx insert_pending_tx insert_row on_error call ◌>>=◌ ask modify logged
  register-Synced w nonce h new e free s =
      rw (e, call, insert_pending_tx) (rw (free) (appended config w.state nonce h _ new s))

  initialize-Synced : Takes (Synced config) (initialize fault node config) (Synced config)
  initialize-Synced w s =
      Both-Synced config [] _
        (initialize-Takes fault node config [] w (Synced-none config w.state s))

  set_balance-keeps :
      (r : Answer ℕ) (w : Calls Tracker)
      → SameLists w.state (set_balance fault node config r w).1.state
  unfolding set_balance modify lift fail on_error ◌>>=◌
  set_balance-keeps (refused s) w = (refl, refl)
  set_balance-keeps (answer wei) w = elim (Result-cases (gwei_of wei)) [
    | inl (n, e) ↦ rw (e) (refl, refl)
    | inr (inl (x, e)) ↦ rw (e) (refl, refl)
    | inr (inr (x, e)) ↦ rw (e) (refl, refl)
  ]

  check_balance-Synced : Takes (Synced config) (check_balance fault node config) (Synced config)
  unfolding check_balance ask ◌>>=◌
  check_balance-Synced w s =
      same-Synced config w.state _
        (set_balance-keeps (node.balance_at w.calls) (record w { calls = suc w.calls })) s

  step-Synced : {w w' : Calls Tracker} → Step w w' → Synced config w.state → Synced config w'.state
  step-Synced (Step.registered w nonce h new e free) s = register-Synced w nonce h new e free s
  step-Synced (Step.resynced w) s = initialize-Synced w s
  step-Synced (Step.checked w) s = check_pending_txns-Synced w s
  step-Synced (Step.weighed w) s = check_balance-Synced w s

  -- However the registering of new hashes whose insert succeeds, resyncs, checks of the pending
  -- transactions and checks of the balance follow one another, and whatever calls of the store
  -- and of the node fail in the last three: if the tracker's memory and its rows in the store
  -- hold the same hashes, each once, they do so afterwards.
  pub Reaches-Synced :
      {w w' : Calls Tracker} → Reaches w w' → Synced config w.state → Synced config w'.state
  Reaches-Synced (Reaches.here w) s = s
  Reaches-Synced (Reaches.further w w' w'' r step) s = step-Synced step (Reaches-Synced r s)
