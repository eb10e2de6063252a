-- ===== src/Executor/Policies.antt =====
-- applyPolicy of pkg/eventprocessor/impl/executor/impl/txnscope_runsql.go. The statement is a
-- pointer there: the call returns it with the where clauses that it adds.
use go_tableland.Prelude.{inl, inr, not, ◌&&◌, ◌||◌, none, some, str_eq, leb, if◌then◌else◌, length}
use go_tableland.Errors.{
  policy_denied, policy_check_columns, policy_apply_where_clause, GoError, text, query_execution,
  Result, ok, err,
}
use go_tableland.Acl.{Operation, op_insert, op_update, op_delete}
use go_tableland.Parsing.{SqlParser}
use go_tableland.Parsing.Statements.{
  MutatingStmt, bind_result, eq_operation, ClauseError, cant_add_where_on_insert,
  cant_add_returning_on_delete, can_only_check_columns_on_update, clause_failed, check_columns,
  add_where_clause,
}
use go_tableland.Executor.{Policy}

-- The three checks of the operation.
unfoldable pub check_operation : Policy → Operation → Result (Unit {0})
unfolding eq_operation
check_operation policy op =
    if eq_operation op op_insert && not policy.allow_insert
    then err (query_execution policy_denied (text "insert is not allowed by policy"))
    else if eq_operation op op_update && not policy.allow_update
    then err (query_execution policy_denied (text "update is not allowed by policy"))
    else if eq_operation op op_delete && not policy.allow_delete
    then err (query_execution policy_denied (text "delete is not allowed by policy"))
    else ok tt

-- The error of a clause, as a GoError: the text of a sentinel or the error itself.
unfoldable pub clause_error_text : ClauseError → GoError
clause_error_text cant_add_where_on_insert = text "can't add where clauses to an insert"
clause_error_text cant_add_returning_on_delete = text "can't add returning clause to an delete"
clause_error_text can_only_check_columns_on_update = text "can only check columns on update"
clause_error_text (clause_failed e) = e

-- The columns of an update, where the policy restricts them.
unfoldable pub apply_columns : Policy → MutatingStmt → Result (Unit {0})
unfolding eq_operation
apply_columns policy s =
    if eq_operation s.operation op_update && not (leb (length policy.updatable_columns) 0)
    then bind_result (check_columns policy.updatable_columns s) elim [
      | none ↦ ok tt
      | some can_only_check_columns_on_update ↦ ok tt
      | some e ↦ err (query_execution policy_check_columns (clause_error_text e))
    ]
    else ok tt

-- The policy's where clause, on an update or a delete.
unfoldable pub apply_where : SqlParser → Policy → MutatingStmt → Result MutatingStmt
unfolding eq_operation
apply_where sql policy s =
    if (eq_operation s.operation op_update || eq_operation s.operation op_delete)
      && not (str_eq policy.where_clause "")
    then bind_result (add_where_clause sql policy.where_clause s) elim [
      | inr s' ↦ ok s'
      | inl cant_add_where_on_insert ↦ ok s
      | inl e ↦ err (query_execution policy_apply_where_clause (clause_error_text e))
    ]
    else ok s

unfoldable pub apply_policy : SqlParser → Policy → MutatingStmt → Result MutatingStmt
unfolding check_operation apply_columns apply_where
apply_policy sql policy s =
    bind_result (check_operation policy s.operation)
      λ _. bind_result (apply_columns policy s) λ _. apply_where sql policy s
