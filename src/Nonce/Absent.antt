-- ===== src/Nonce/Absent.antt =====
-- About the deletion of a hash that is not pending (pkg/nonce/impl/tracker.go).
use go_tableland.Prelude.{ℕ, String, ◌≡◌, refl, false, Option, none, List, [], ◌∷◌}
use go_tableland.Errors.{GoError, panic}
use go_tableland.Nonce.{PendingTx, Tracker, delete_pending_tx}
use go_tableland.Nonce.Hashes.{mem, delete_index-absent}
use go_tableland.Steps.{Calls, lift, on_error, ◌>>=◌, call}
use go_tableland.Nonce.Node.{EthNode, TrackerConfig, modify, state_of, remove_at, delete_index}
use go_tableland.Nonce.Operations.{delete_pending_tx_by_hash}

module _ (fault : ℕ → Option GoError) (node : EthNode) (config : TrackerConfig) where
  -- If the store's call does not fail and a hash is not among the pending transactions in memory,
  -- its deletion removes the first of them, and panics where there is none.
  pub delete_pending_tx_by_hash-absent :
      (h : String) (w : Calls Tracker)
      → fault w.calls ≡ none
      → mem h w.state.pending_txs ≡ false
      → (((t : PendingTx) (ts : List PendingTx)
            → w.state.pending_txs ≡ t ∷ ts
            → (delete_pending_tx_by_hash fault node config h w).1.state.pending_txs ≡ ts)
          × (w.state.pending_txs ≡ []
              → (delete_pending_tx_by_hash fault node config h w).0
                ≡ panic "slice bounds out of range"))
  unfolding delete_pending_tx_by_hash delete_pending_tx on_error call ◌>>=◌ state_of lift modify
      remove_at
  delete_pending_tx_by_hash-absent h w e a =
      let at : delete_index h 0 0 w.state.pending_txs ≡ 0 =
        delete_index-absent h 0 0 w.state.pending_txs a in
      (
        λ t ts l. rw (e, call, delete_pending_tx) (rw (at) (rw (l) refl)),
        λ l. rw (e, call, delete_pending_tx) (rw (at) (rw (l) refl)),
      )
