-- ===== src/Feed.antt =====
-- EventFeed of pkg/eventprocessor/eventfeed/impl/eventfeed.go: the logs of the registry contract as
-- blocks of transactions. This file holds the logs and their packing; the children hold the rest.
pub mod Pack
pub mod Persist
pub mod Saved
pub mod Persisted
pub mod Parse
pub mod Again
pub mod Fetch
pub mod Ranges
pub mod Rounds
pub mod Order
pub mod Outages
pub mod ExtraInfo
use go_tableland.Prelude.{ℤ, eq_ℤ, ℕ, String, List, [], ◌∷◌, ◌++◌, str_eq, if◌then◌else◌}
use go_tableland.Database.{int64_key}
use go_tableland.Executor.Events.{Event, TxnEvents}
use go_tableland.Processor.{BlockEvents, Processor}

-- types.Log of go-ethereum, less its removed flag
pub record Log : Type 0 where
  pub address : String
  pub topics : List String
  pub log_data : String
  pub block_number : ℕ
  pub tx_hash : String
  pub tx_index : ℕ
  pub block_hash : String
  pub index : ℕ

-- int64(l.BlockNumber)
abbrev pub block_of : Log → ℤ
block_of l = int64_key l.block_number

abbrev pub new_txn : String → Event → TxnEvents
new_txn h e = record { txn_hash = h; events = e ∷ [] }

-- The event goes to the last transaction if that has its hash, else to a new one.
unfoldable pub add_to_txns : String → Event → List TxnEvents → List TxnEvents
add_to_txns h e [] = new_txn h e ∷ []
add_to_txns h e (t ∷ []) =
    if str_eq t.txn_hash h
    then record t { events = t.events ++ (e ∷ []) } ∷ []
    else t ∷ new_txn h e ∷ []
add_to_txns h e (t ∷ u ∷ ts) = t ∷ add_to_txns h e (u ∷ ts)

-- The same of blocks: `newEvents` points to the last one.
unfoldable pub add_to_blocks : Log → Event → List BlockEvents → List BlockEvents
unfolding add_to_txns
add_to_blocks l e [] = record { block_number = block_of l; txns = new_txn l.tx_hash e ∷ [] } ∷ []
add_to_blocks l e (b ∷ []) =
    if eq_ℤ b.block_number (block_of l)
    then record b { txns = add_to_txns l.tx_hash e b.txns } ∷ []
    else b ∷ record { block_number = block_of l; txns = new_txn l.tx_hash e ∷ [] } ∷ []
add_to_blocks l e (b ∷ c ∷ bs) = b ∷ add_to_blocks l e (c ∷ bs)

unfoldable pub pack_from : List BlockEvents → List (Log × Event) → List BlockEvents
unfolding add_to_blocks
pack_from bs [] = bs
pack_from bs ((l, e) ∷ rest) = pack_from (add_to_blocks l e bs) rest

-- packEvents, of the logs with their parsed events
unfoldable pub pack_events : List (Log × Event) → List BlockEvents
unfolding pack_from
pack_events logs = pack_from [] logs
