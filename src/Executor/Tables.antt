-- ===== src/Executor/Tables.antt =====
-- The events about a table as a whole: executeCreateTableEvent, executeSetControllerEvent and
-- executeTransferEvent of pkg/eventprocessor/impl/executor/impl/txnscope_createtable.go,
-- txnscope_setcontroller.go and txnscope_transfer.go.
use go_tableland.Prelude.{ℕ, String, Option, none, some, List, [], ◌∷◌, ◌==◌, if◌then◌else◌}
use go_tableland.Errors.{GoError, text, flattened, query_fault}
use go_tableland.Acl.{Privilege, priv_insert, priv_update, priv_delete, all_privileges}
use go_tableland.Database.{string_key}
use go_tableland.Database.Statements.{
  insert_registry, update_registry_controller, insert_acl, upsert_controller, delete_controller,
}
use go_tableland.Parsing.Statements.{CreateStmt, get_raw_query_for_table_id}
use go_tableland.Parsing.Validator.{validate_create_table}
use go_tableland.Executor.{
  Env, M, pure, on_error, ◌>>=◌, ◌>>◌, call, TxnScope, EventResult, failed_event,
}
use go_tableland.Executor.Grants.{execute_grant_privileges_tx, execute_revoke_privileges_tx}
use go_tableland.Executor.Writes.{exec_statement}
use go_tableland.Executor.RunSql.{controlled, unless_invalid}

-- ethereum.ContractCreateTable; `none` is a nil TableId
pub record CreateTableEvent : Type 0 where
  pub owner : ℕ
  pub table_id : Option ℕ
  pub statement : String

-- ethereum.ContractSetController
pub record SetControllerEvent : Type 0 where
  pub table_id : Option ℕ
  pub controller : ℕ

-- ethereum.ContractTransferTable
pub record TransferEvent : Type 0 where
  pub from : ℕ
  pub to : ℕ
  pub table_id : Option ℕ

abbrev pub every_privilege : List Privilege
every_privilege = priv_insert ∷ priv_update ∷ priv_delete ∷ []

abbrev table_id_is_empty : GoError
table_id_is_empty = text "table id is empty"

-- An event without a table id fails; any other goes on with it.
abbrev pub with_table_id : Option ℕ → (ℕ → M EventResult) → M EventResult
with_table_id none f = pure (failed_event table_id_is_empty)
with_table_id (some id) f = f id

module _ (env : Env) (ts : TxnScope) where
  unfoldable pub insert_table : ℕ → ℕ → CreateStmt → M (Unit {0})
  insert_table id owner stmt = do
    on_error (flattened "inserting new table in system-wide registry") (
        call env (
          insert_registry ts.vars.chain_id (string_key id)
            (record { controller = owner; prefix = stmt.prefix; structure = stmt.structure_hash })))
    on_error (flattened "inserting new entry into system acl")
        (call env (insert_acl ts.vars.chain_id (string_key id) owner all_privileges))
    on_error (query_fault "exec CREATE statement")
        (call env (exec_statement env (get_raw_query_for_table_id env.parser.sql stmt id)))
    pure tt

  unfoldable pub execute_create_table_event : CreateTableEvent → M EventResult
  execute_create_table_event e =
      unless_invalid "query validation"
        (validate_create_table env.parser e.statement ts.vars.chain_id)
        λ stmt. with_table_id e.table_id λ id.
          controlled "table creation execution failed" "executing table creation" id
            (insert_table id e.owner stmt)

  -- The zero address unsets the controller.
  unfoldable pub set_controller : ℕ → ℕ → M (Unit {0})
  set_controller id controller =
      if controller == 0
      then on_error (query_fault "deleting entry from system controller")
          (call env (delete_controller ts.vars.chain_id (string_key id)))
      else on_error (query_fault "inserting new entry into system controller")
          (call env (upsert_controller ts.vars.chain_id (string_key id) controller))

  unfoldable pub execute_set_controller_event : SetControllerEvent → M EventResult
  execute_set_controller_event e = with_table_id e.table_id λ id.
      controlled "set controller execution failed" "executing set controller" id
        (set_controller id e.controller)

  unfoldable pub change_table_owner : ℕ → ℕ → M (Unit {0})
  change_table_owner id owner =
      on_error (query_fault "updating table owner")
        (call env (update_registry_controller ts.vars.chain_id (string_key id) owner))

  -- The next step, unless the last one failed in a controlled way.
  abbrev pub if_done : Option GoError → EventResult → M EventResult → M EventResult
  if_done none res k = k
  if_done (some e) res k = pure res

  abbrev pub and_then : M EventResult → M EventResult → M EventResult
  and_then m k = m >>= λ res. if_done res.error res k

  unfoldable pub execute_transfer_event : TransferEvent → M EventResult
  execute_transfer_event e = with_table_id e.table_id λ id.
      and_then
        (controlled "change table owner execution failed" "executing change table owner" id
          (change_table_owner id e.to))
        (and_then
          (controlled "revoke privileges execution failed" "executing revoke privileges" id
            (execute_revoke_privileges_tx env ts id e.from every_privilege))
          (controlled "grant privileges execution failed" "executing grant privileges" id
            (execute_grant_privileges_tx env ts id e.to every_privilege)))
