-- ===== src/Executor/Writes.antt =====
-- Writes: executeWriteStmt and what it calls in
-- pkg/eventprocessor/impl/executor/impl/txnscope_runsql.go, and CheckPrivileges of
-- internal/tableland/impl/acl.go with GetACLOnTableByController of pkg/sqlstore/impl/system/store.go.
use go_tableland.Prelude.{
  ℕ, ◌+◌, String, ◌⊎◌, inl, inr, Bool, ◌&&◌, Option, none, some, List, [], ◌∷◌, ◌++◌, str_eq, ltb,
  ◌==◌, if◌then◌else◌, length,
}
use go_tableland.Errors.{
  acl_denied, query_resolution, row_count_limit, policy_apply_returning_clause, policy_with_check,
  GoError, text, formatted, query_execution, wrapped, flattened, Result, ok, err, panic,
  query_fault,
}
use go_tableland.Acl.{Privilege, Operation, op_insert, can_execute, privileges_of_mask}
use go_tableland.Database.{Db, int64_key}
use go_tableland.Database.Statements.{select_controller, select_acl}
use go_tableland.Parsing.Statements.{
  MutatingStmt, bind_result, eq_operation, ClauseError, cant_add_returning_on_delete,
  add_returning_clause, get_query,
}
use go_tableland.Executor.{
  Executed, exec_failed, exec_done, Queried, query_failed, query_done, AuditQuery, Env, M, pure,
  fail, lift, on_error, ◌>>=◌, ◌>>◌, call, TxnScope, Policy,
}
use go_tableland.Executor.Policies.{clause_error_text, apply_policy}

unfoldable pub exec_outcome : Executed → Db → Result (Result ℕ) × Db
exec_outcome (exec_failed e) db = (err e, db)
exec_outcome (exec_done db' ra) db = (ok ra, db')

-- ExecContext on the text of a user's statement.
unfoldable pub exec_statement : Env → String → Db → Result (Result ℕ) × Db
unfolding exec_outcome
exec_statement env q db = exec_outcome (env.exec q db) db

unfoldable pub query_outcome : Queried → Db → Result (List (Result ℕ) × Option GoError) × Db
query_outcome (query_failed e) db = (err e, db)
query_outcome (query_done db' rows rows_err) db = (ok (rows, rows_err), db')

-- QueryContext on it: the rows, and what rows.Err() would say.
unfoldable pub query_statement : Env → String → Db → Result (List (Result ℕ) × Option GoError) × Db
unfolding query_outcome
query_statement env q db = query_outcome (env.query q db) db

-- The loop over rows.Next().
unfoldable pub scan_rows : List (Result ℕ) → List ℕ → Result (List ℕ)
scan_rows [] ids = ok ids
scan_rows (ok id ∷ rows) ids = scan_rows rows (ids ++ (id ∷ []))
scan_rows (err e ∷ rows) ids = err (flattened "scan row column" e)
scan_rows (panic s ∷ rows) ids = panic s

-- No row means no privilege.
unfoldable pub privileges_of_row : Option ℕ → List Privilege
privileges_of_row none = []
privileges_of_row (some mask) = privileges_of_mask mask

module _ (env : Env) (ts : TxnScope) where
  unfoldable pub get_acl_on_table_by_controller : ℕ → ℕ → M (List Privilege)
  get_acl_on_table_by_controller id addr = do
    row ←
        on_error (flattened "failed to get the acl info")
          (call env (select_acl ts.vars.chain_id (int64_key id) addr))
    pure (privileges_of_row row)

  unfoldable pub check_privileges : ℕ → ℕ → Operation → M Bool
  check_privileges addr id op = do
    privileges ← on_error (flattened "privileges lookup") (get_acl_on_table_by_controller id addr)
    pure (can_execute privileges op).0

  -- The controller's address, or `none` for "".
  unfoldable pub get_controller : ℕ → M (Option ℕ)
  get_controller id =
      on_error (flattened "controller lookup") (call env (select_controller ts.vars.chain_id id))

  unfoldable pub check_row_count_limit : ℕ → Bool → ℕ → Result (Unit {0})
  check_row_count_limit rows_affected is_insert before =
      let max : ℕ = ts.vars.max_table_row_count in
      if ltb 0 max && is_insert
      then (if ltb max (before + rows_affected)
          then err (
              query_execution row_count_limit (
                formatted "table maximum row count exceeded"
                  (before ∷ (before + rows_affected) ∷ [])))
          else ok tt)
      else ok tt

  -- The QueryContext call returns its error before the test isErrCausedByQuery is reached.
  unfoldable pub execute_query_and_get_affected_rows : String → M (List ℕ)
  execute_query_and_get_affected_rows q = do
    rows ← on_error (flattened "executing query") (call env (query_statement env q))
    lift (scan_rows rows.0 [])

  unfoldable pub check_affected_rows_against_auditing_query : ℕ → AuditQuery → M (Unit {0})
  check_affected_rows_against_auditing_query affected q = do
    count ←
        on_error (query_fault "checking affected rows query exec")
          (call env (λ db. (env.audit q db, db)))
    if count == affected
        then pure tt
        else fail (
            query_execution policy_with_check (
              formatted "number of affected rows does not match auditing count"
                (affected ∷ count ∷ [])))

  -- With a controller the policy decides, else the caller's privileges.
  unfoldable pub authorize_by : Option ℕ → MutatingStmt → ℕ → Policy → M MutatingStmt
  authorize_by (some controller) ws addr policy =
      on_error (wrapped "not allowed to execute stmt")
        (lift (apply_policy env.parser.sql policy ws))
  authorize_by none ws addr policy = do
    allowed ←
        on_error (flattened "error checking acl") (check_privileges addr ws.table_id ws.operation)
    if allowed then pure ws else fail (query_execution acl_denied (text "not enough privileges"))

  -- Who may write.
  unfoldable pub authorize : MutatingStmt → ℕ → Policy → M MutatingStmt
  authorize ws addr policy = do
    controller ← on_error (wrapped "checking controller is set") (get_controller ws.table_id)
    authorize_by controller ws addr policy

  unfoldable pub resolve_query : MutatingStmt → M String
  resolve_query ws =
      on_error (query_execution query_resolution)
        (lift (get_query env.parser.sql ts.txn_hash ts.vars.block_number ws))

  -- The branch of a policy without a check.
  unfoldable pub write_unchecked : MutatingStmt → ℕ → M (Unit {0})
  write_unchecked ws before = do
    q ← resolve_query ws
    tag ← on_error (query_fault "exec query") (call env (exec_statement env q))
    affected ← on_error (flattened "get rows affected") (lift tag)
    on_error (wrapped "check row limit")
        (lift (check_row_count_limit affected (eq_operation ws.operation op_insert) before))

  -- AddReturningClause, whose error on a delete is only logged.
  unfoldable pub with_returning : MutatingStmt → ClauseError ⊎ MutatingStmt → Result MutatingStmt
  with_returning ws (inr ws') = ok ws'
  with_returning ws (inl cant_add_returning_on_delete) = ok ws
  with_returning ws (inl e) =
      err (query_execution policy_apply_returning_clause (clause_error_text e))

  unfoldable pub add_returning : MutatingStmt → M MutatingStmt
  unfolding with_returning
  add_returning ws = lift (bind_result (add_returning_clause ws) (with_returning ws))

  -- The branch of a policy with a check.
  unfoldable pub write_checked : MutatingStmt → Policy → ℕ → M (Unit {0})
  write_checked ws policy before = do
    ws' ← add_returning ws
    q ← resolve_query ws'
    ids ← on_error (flattened "get rows ids") (execute_query_and_get_affected_rows q)
    on_error (wrapped "check row limit")
        (lift (check_row_count_limit (length ids) (eq_operation ws'.operation op_insert) before))
    on_error (wrapped "check affected rows against auditing query") (
        check_affected_rows_against_auditing_query (length ids)
          (record { table = ws'.db_table_name; check = policy.with_check; rowids = ids }))

  unfoldable pub execute_write_stmt : MutatingStmt → ℕ → Policy → ℕ → M (Unit {0})
  execute_write_stmt ws addr policy before = do
    ws' ← authorize ws addr policy
    if str_eq policy.with_check ""
        then write_unchecked ws' before
        else write_checked ws' policy before
