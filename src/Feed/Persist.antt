-- ===== src/Feed/Persist.antt =====
-- persistEvents of pkg/eventprocessor/eventfeed/impl/eventfeed.go, with AreEVMEventsPersisted and
-- SaveEVMEvents of pkg/sqlstore/impl/system/store.go.
use go_tableland.Prelude.{
  ℤ, ℕ, String, Bool, false, ◌&&◌, ◌||◌, Option, none, some, List, [], ◌∷◌, ◌++◌, str_eq, ◌==◌,
  if◌then◌else◌,
}
use go_tableland.Errors.{GoError, flattened, Result, ok, err}
use go_tableland.Database.{constraint}
use go_tableland.Executor.Events.{Event}
use go_tableland.Feed.{Log, block_of}
use go_tableland.Steps.{Run, pure, lift, on_error, ◌>>=◌, ◌>>◌, call, transaction}

-- tableland.EVMEvent, and the row of system_evm_events that it is stored as
pub record EvmEvent : Type 0 where
  pub address : String
  pub topics : String
  pub log_data : String
  pub block_number : ℤ
  pub tx_hash : String
  pub tx_index : ℕ
  pub block_hash : String
  pub event_index : ℕ
  pub chain_id : ℕ
  pub event_json : String
  pub event_type : String

-- The JSON encoders, and the name of an event's Go type.
pub record Encoder : Type 0 where
  pub marshal_event : Event → Result String
  pub marshal_topics : List String → Result String
  pub event_type : Event → String

-- SELECT 1 FROM system_evm_events where chain_id=?1 and tx_hash=?2
unfoldable pub has_events : ℕ → String → List EvmEvent → Bool
has_events chain h [] = false
has_events chain h (r ∷ rs) = ((r.chain_id == chain) && str_eq r.tx_hash h) || has_events chain h rs

-- The primary key.
unfoldable pub has_key : EvmEvent → List EvmEvent → Bool
has_key e [] = false
has_key e (r ∷ rs) =
    ((r.chain_id == e.chain_id) && (str_eq r.tx_hash e.tx_hash && (r.event_index == e.event_index)))
    || has_key e rs

-- INSERT INTO system_evm_events
unfoldable pub insert_evm_event : EvmEvent → List EvmEvent → Result (Unit {0}) × List EvmEvent
unfolding has_key
insert_evm_event e rows =
    if has_key e rows
    then (err (constraint "UNIQUE constraint failed: system_evm_events"), rows)
    else (ok tt, rows ++ (e ∷ []))

-- The map persistedTxnHashEvents, whose last entries come first.
unfoldable pub cached : String → List (String × Bool) → Option Bool
cached h [] = none
cached h ((k, b) ∷ cache) = if str_eq k h then some b else cached h cache

unfoldable pub evm_event : Encoder → ℕ → Log → Event → String → String → EvmEvent
evm_event encoder chain l e json topics = record {
  address = l.address;
  topics = topics;
  log_data = l.log_data;
  block_number = block_of l;
  tx_hash = l.tx_hash;
  tx_index = l.tx_index;
  block_hash = l.block_hash;
  event_index = l.index;
  chain_id = chain;
  event_json = json;
  event_type = encoder.event_type e;
}

module _ (fault : ℕ → Option GoError) (encoder : Encoder) (chain : ℕ) where
  unfoldable pub are_evm_events_persisted : String → Run (List EvmEvent) Bool
  unfolding has_events
  are_evm_events_persisted h =
      on_error (flattened "evm txn events lookup")
        (call fault (λ rows. (ok (has_events chain h rows), rows)))

  unfoldable pub look_up :
      String → List (String × Bool) → Run (List EvmEvent) (Bool × List (String × Bool))
  look_up h cache = do
    b ← on_error (flattened "check if evm txn events are persisted") (are_evm_events_persisted h)
    pure (b, (h, b) ∷ cache)

  -- Whether the transaction's events are persisted, and the map with the answer.
  unfoldable pub known :
      String → List (String × Bool) → Run (List EvmEvent) (Bool × List (String × Bool))
  unfolding look_up
  known h cache = elim (cached h cache) [ some b ↦ pure (b, cache) | none ↦ look_up h cache ]

  -- The row of a log, which is also handed to the telemetry.
  unfoldable pub make_row : Log → Event → Run (List EvmEvent) (List EvmEvent)
  unfolding evm_event
  make_row l e = do
    json ← on_error (flattened "marshaling event") (lift (encoder.marshal_event e))
    topics ← on_error (flattened "marshaling topics array") (lift (encoder.marshal_topics l.topics))
    on_error (flattened "collecting new tableland event metric")
        (call fault (λ rows. (ok tt, rows)))
    pure (evm_event encoder chain l e json topics ∷ [])

  -- The loop over the logs: the rows to save.
  unfoldable pub collect_rows :
      List (String × Bool)
      → List (Log × Event)
      → List EvmEvent
      → Run (List EvmEvent) (List EvmEvent)
  collect_rows cache [] rows = pure rows
  collect_rows cache ((l, e) ∷ rest) rows = do
    found ← known l.tx_hash cache
    new ← if found.0 then pure [] else make_row l e
    collect_rows found.1 rest (rows ++ new)

  unfoldable pub save_evm_events : List EvmEvent → Run (List EvmEvent) (Unit {0})
  save_evm_events [] = pure tt
  save_evm_events (e ∷ es) = do
    on_error (flattened "insert evm event") (call fault (insert_evm_event e))
    save_evm_events es

  unfoldable pub persist_events : List (Log × Event) → Run (List EvmEvent) (Unit {0})
  persist_events logs = transaction fault (do
    rows ← collect_rows [] logs []
    on_error (flattened "persisting events") (save_evm_events rows))
