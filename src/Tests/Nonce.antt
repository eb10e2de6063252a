-- ===== src/Tests/Nonce.antt =====
-- The properties of the nonce tracker at one that has no pending transaction.
use go_tableland.Prelude.{
  pos, ℕ, ◌+◌, ◌/◌, ◌≤◌, ◌≡◌, refl, ◌⊎◌, true, false, Option, none, List, [], ◌∷◌,
}
use go_tableland.Errors.{GoError, ok, panic}
use go_tableland.Nonce.{PendingTx, Tracker, has_row}
use go_tableland.Nonce.Gwei.{gwei_of}
use go_tableland.Nonce.Hashes.{mem}
use go_tableland.Nonce.Balance.{gwei_of_lem, new_gas_price_lem}
use go_tableland.Nonce.Synced.{SameLists, Synced, empty-Synced}
use go_tableland.Nonce.Quiet.{bump-Quiet}
use go_tableland.Nonce.Runs.{Step, Reaches, Reaches-Synced}
use go_tableland.Nonce.Absent.{delete_pending_tx_by_hash-absent}
use go_tableland.Steps.{Calls}
use go_tableland.Nonce.Node.{answer, refused, Txn, EthNode, TrackerConfig, new_gas_price}
use go_tableland.Nonce.Operations.{
  register_pending_tx, delete_pending_tx_by_hash, bump, check_pending_txns,
}

abbrev no_fault : ℕ → Option GoError
no_fault n = none

abbrev txn : Txn
txn = record { nonce = 7; gas_price = 100; body = "" }

node : EthNode
node = record {
  pending_nonce_at = λ n. answer 7;
  transaction_receipt = λ n h. refused "not found";
  header_by_number = λ n. answer (pos 20);
  balance_at = λ n. answer 12345678901;
  transaction_by_hash = λ n h. answer (txn, true);
  suggest_gas_price = λ n. answer 110;
  sign = λ t. ok t;
  send_transaction = λ n t. answer tt;
  hash_of = λ t. "0xb";
  now = λ n. 1000;
}

abbrev tracker_config : TrackerConfig
tracker_config = record {
  min_block_chain_depth = 5;
  stuck_interval = 600;
  chain_id = 1;
  address = "0xaa";
}

abbrev tracker : Tracker
tracker = record {
  curr_nonce = pos 7;
  curr_wei_balance = 0;
  txn_confirmation_attempts = 0;
  eth_client_unhealthy = 0;
  pending_txs = [];
  rows = [];
}

abbrev start : Calls Tracker
start = record { state = tracker; calls = 0 }

abbrev pending_tx : PendingTx
pending_tx = record { hash = "0xa"; nonce = pos 7; bump_price_count = 0; created_at = 0 }

gwei_of_example : gwei_of 12345678901 ≡ ok 12
gwei_of_example = gwei_of_lem 12345678901

gas_price_example :
    (110 ≤ new_gas_price 100 110)
    × (100 + 100 / 4 ≤ new_gas_price 100 110)
    × ((new_gas_price 100 110 ≡ 100 + 100 / 4) ⊎ (new_gas_price 100 110 ≡ 110))
gas_price_example = new_gas_price_lem 100 110

bump-Quiet_example : SameLists tracker (bump no_fault node tracker_config pending_tx start).1.state
bump-Quiet_example = bump-Quiet no_fault node tracker_config pending_tx start

start-Synced : Synced tracker_config tracker
start-Synced = empty-Synced tracker_config 0 0 0 (pos 7)

after_one : Calls Tracker
after_one = (register_pending_tx no_fault node tracker_config (pos 7) "0xa" start).1

one_registered : Step no_fault node tracker_config start after_one
unfolding after_one mem has_row
one_registered = Step.registered start (pos 7) "0xa" refl refl refl

Reaches-Synced_example :
    Synced tracker_config (check_pending_txns no_fault node tracker_config after_one).1.state
Reaches-Synced_example =
    Reaches-Synced no_fault node tracker_config
      (Reaches.further start after_one (check_pending_txns no_fault node tracker_config after_one).1
        (Reaches.further start start after_one (Reaches.here start) one_registered)
        (Step.checked after_one))
      start-Synced

abbrev one_pending : Calls Tracker
one_pending = record { state = record tracker { pending_txs = pending_tx ∷ [] }; calls = 0 }

other_hash : mem "0xc" (pending_tx ∷ []) ≡ false
unfolding mem
other_hash = refl

delete_pending_tx_by_hash-absent_example :
    (((t : PendingTx) (ts : List PendingTx)
        → pending_tx ∷ [] ≡ t ∷ ts
        → (delete_pending_tx_by_hash no_fault node tracker_config "0xc"
            one_pending).1.state.pending_txs
          ≡ ts)
      × (pending_tx ∷ [] ≡ []
          → (delete_pending_tx_by_hash no_fault node tracker_config "0xc" one_pending).0
            ≡ panic "slice bounds out of range"))
delete_pending_tx_by_hash-absent_example =
    delete_pending_tx_by_hash-absent no_fault node tracker_config "0xc" one_pending refl other_hash
