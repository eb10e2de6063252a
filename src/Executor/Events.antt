-- ===== src/Executor/Events.antt =====
-- The events of one EVM transaction: executeTxnEvents of
-- pkg/eventprocessor/impl/executor/impl/txnscope.go.
use go_tableland.Prelude.{ℕ, suc, String, Option, none, some, List, [], ◌∷◌}
use go_tableland.Errors.{GoError, text, flattened}
use go_tableland.Executor.{Env, M, pure, fail, on_error, ◌>>=◌, TxnScope, EventResult}
use go_tableland.Executor.RunSql.{RunSqlEvent, execute_run_sql_event}
use go_tableland.Executor.Tables.{
  CreateTableEvent, SetControllerEvent, TransferEvent, execute_create_table_event,
  execute_set_controller_event, execute_transfer_event,
}

pub data Event : Type 0 where
  run_sql : RunSqlEvent → Event
  create_table_event : CreateTableEvent → Event
  set_controller_event : SetControllerEvent → Event
  transfer_event : TransferEvent → Event
  unknown_event : Event

-- eventfeed.TxnEvents
pub record TxnEvents : Type 0 where
  pub txn_hash : String
  pub events : List Event

-- executor.TxnExecutionResult
pub record TxnResult : Type 0 where
  pub table_id : Option ℕ
  pub error : Option GoError
  pub error_event_idx : Option ℕ

-- A failed event ends the loop with its index.
abbrev pub stop_at : Option GoError → ℕ → Option ℕ → M TxnResult → M TxnResult
stop_at none idx id rest = rest
stop_at (some x) idx id rest =
    pure (record { table_id = id; error = some x; error_event_idx = some idx })

module _ (env : Env) (ts : TxnScope) where
  -- The type switch.
  unfoldable pub execute_event : Event → M EventResult
  execute_event (run_sql e) =
      on_error (flattened "executing runsql event") (execute_run_sql_event env ts e)
  execute_event (create_table_event e) =
      on_error (flattened "executing create-table event") (execute_create_table_event env ts e)
  execute_event (set_controller_event e) =
      on_error (flattened "executing set-controller event") (execute_set_controller_event env ts e)
  execute_event (transfer_event e) =
      on_error (flattened "executing transfer event") (execute_transfer_event env ts e)
  execute_event unknown_event = fail (text "unknown event type")

  -- The loop, from the index `idx`, with the result of the event before.
  unfoldable pub execute_events_from : ℕ → Option ℕ → List Event → M TxnResult
  execute_events_from idx last [] =
      pure (record { table_id = last; error = none; error_event_idx = none })
  execute_events_from idx last (e ∷ es) = do
    res ← execute_event e
    stop_at res.error idx res.table_id (execute_events_from (suc idx) res.table_id es)

  unfoldable pub execute_txn_events : TxnEvents → M TxnResult
  execute_txn_events txn = execute_events_from 0 none txn.events
