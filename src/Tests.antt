-- ===== src/Tests.antt =====
-- The properties at concrete worlds, where their hypotheses hold.
pub mod Blocks
pub mod Confined
pub mod Retries
pub mod Transfers
pub mod RowLimits
pub mod Feed
pub mod Nonce
pub mod Formatter
pub mod Backup
pub mod Service
pub mod Telemetry
pub mod Api
pub mod StateHash
pub mod Backuper
pub mod Names
pub mod Rpc
pub mod ExtraInfo
use go_tableland.Prelude.{◌≡◌, refl, not, ◌&&◌, ◌||◌, none, some, [], ◌∷◌, arith}
use go_tableland.Errors.{err_constraint, GoError, sqlite, flattened, ok, err, as_query_execution}
use go_tableland.Acl.{priv_insert, op_insert, has_privilege, can_execute, grant_mask, revoke_mask}
use go_tableland.Database.{int64_key}
use go_tableland.Database.Statements.{upsert_acl, revoke_acl, select_controller, upsert_controller}
use go_tableland.Executor.{query_failed, Env, on_error, ◌>>=◌, call}
use go_tableland.Executor.Grants.{execute_grant_privileges_tx, execute_revoke_privileges_tx}
use go_tableland.Executor.Writes.{
  query_outcome, query_statement, privileges_of_row, execute_query_and_get_affected_rows,
  execute_write_stmt,
}
use go_tableland.Executor.RunSql.{event_result, controlled}
use go_tableland.Executor.Tables.{set_controller, execute_set_controller_event}
use go_tableland.Executor.Events.{TxnResult, execute_event, execute_events_from, execute_txn_events}
use go_tableland.Executor.BlockScope.{
  release, finish_result, finish_txn, under_savepoint, execute_txn,
}
use go_tableland.Executor.Atomic.{after_savepoint, execute_txn-Settled}
use go_tableland.Executor.Access.{AllowedBy, write_stmt-refused}
use go_tableland.Executor.MaskBits.{insert_needs, may_write}
use go_tableland.Executor.Privileges.{may_write-grant, may_write-revoke}
use go_tableland.Executor.QueryFaults.{affected_rows-Uncontrolled}
use go_tableland.Fixtures.{env, database, world, vars, scope, open_policy, insert_stmt, control_txn}

-- The run of the control transaction.
abbrev control_result : TxnResult
control_result = record { table_id = some 1; error = none; error_event_idx = none }

control_returns : (execute_txn env vars control_txn world).0 ≡ ok control_result
unfolding execute_txn execute_txn_events execute_events_from execute_event
    execute_set_controller_event set_controller controlled event_result under_savepoint finish_txn
    finish_result release ◌>>=◌ call upsert_controller
control_returns = refl

execute_txn-Settled_example :
    ((execute_txn_events env scope control_txn (after_savepoint env vars world)).0
      ≡ ok control_result)
    × ((execute_txn env vars control_txn world).1.db
        ≡ (execute_txn_events env scope control_txn (after_savepoint env vars world)).1.db)
execute_txn-Settled_example =
    execute_txn-Settled env vars control_txn world control_result control_returns

stranger_not_allowed : ¬ AllowedBy env scope none insert_stmt 11 open_policy database
unfolding can_execute privileges_of_row int64_key has_privilege
stranger_not_allowed h = cc

write_stmt-refused_example :
    (¬ ((execute_write_stmt env scope insert_stmt 11 open_policy 0 world).0 ≡ ok tt))
    × ((execute_write_stmt env scope insert_stmt 11 open_policy 0 world).1.db ≡ database)
unfolding select_controller
write_stmt-refused_example =
    write_stmt-refused env scope insert_stmt 11 open_policy 0 none world refl stranger_not_allowed

grant_returns : (execute_grant_privileges_tx env scope 1 11 (priv_insert ∷ []) world).0 ≡ ok tt
unfolding execute_grant_privileges_tx call upsert_acl grant_mask on_error int64_key
grant_returns = refl

may_write-grant_example :
    may_write scope 1 11 op_insert
      (execute_grant_privileges_tx env scope 1 11 (priv_insert ∷ []) world).1.db
    ≡ (may_write scope 1 11 op_insert database || has_privilege priv_insert (priv_insert ∷ []))
unfolding int64_key
may_write-grant_example =
    may_write-grant env scope 1 11 (priv_insert ∷ []) world insert_needs tt grant_returns

revoke_returns : (execute_revoke_privileges_tx env scope 1 10 (priv_insert ∷ []) world).0 ≡ ok tt
unfolding execute_revoke_privileges_tx call revoke_acl revoke_mask on_error
revoke_returns = refl

may_write-revoke_example :
    may_write scope 1 10 op_insert
      (execute_revoke_privileges_tx env scope 1 10 (priv_insert ∷ []) world).1.db
    ≡ (may_write scope 1 10 op_insert database
        && not (has_privilege priv_insert (priv_insert ∷ [])))
unfolding int64_key
may_write-revoke_example =
    may_write-revoke env scope 1 10 (priv_insert ∷ []) world insert_needs (omega arith)
      (omega arith) revoke_returns

-- A database that reports a violated constraint.
abbrev strict_env : Env
strict_env = record env { query = λ q db. query_failed (sqlite err_constraint "UNIQUE") }

abbrev constraint_error : GoError
constraint_error = flattened "executing query" (sqlite err_constraint "UNIQUE")

constraint_reported :
    (execute_query_and_get_affected_rows strict_env scope "insert" world).0 ≡ err constraint_error
unfolding execute_query_and_get_affected_rows query_statement query_outcome ◌>>=◌ call on_error
constraint_reported = refl

affected_rows-Uncontrolled_example : as_query_execution constraint_error ≡ none
affected_rows-Uncontrolled_example =
    affected_rows-Uncontrolled strict_env scope "insert" world constraint_error constraint_reported
