-- ===== src/Executor/RunSql.antt =====
-- A RunSQL event: executeRunSQLEvent, execWriteQueries and getTablePrefixAndRowCountByTableID of
-- pkg/eventprocessor/impl/executor/impl/txnscope_runsql.go.
use Prim.Native.Char.{code}
use go_tableland.Prelude.{
  ℕ, ◌+◌, String, Bool, true, false, not, ◌&&◌, Option, none, some, List, [], ◌∷◌, str_eq, leb,
  ◌==◌, if◌then◌else◌,
}
use go_tableland.Errors.{
  Code, table_prefix, GoError, text, formatted, query_execution, wrapped, flattened, coded, Result,
  ok, err, panic, as_query_execution,
}
use go_tableland.Database.{string_key}
use go_tableland.Database.Statements.{select_prefix_and_count}
use go_tableland.Parsing.Statements.{Mutating, write_stmt, grant_stmt, other_stmt, base}
use go_tableland.Parsing.Validator.{validate_mutating_query}
use go_tableland.Executor.{
  Env, M, pure, fail, lift, on_error, ◌>>=◌, ◌>>◌, call, TxnScope, EventResult, failed_event,
  done_event, Policy,
}
use go_tableland.Executor.Grants.{execute_grant_stmt}
use go_tableland.Executor.Writes.{execute_write_stmt}

-- ethereum.ContractRunSQL
pub record RunSqlEvent : Type 0 where
  pub caller : ℕ
  pub is_owner : Bool
  pub table_id : ℕ
  pub statement : String
  pub policy : Policy

unfoldable pub fold_char : ℕ → ℕ
fold_char c = if leb b'A' c && leb c b'Z' then c + 32 else c

-- strings.EqualFold on the ASCII letters that a table's prefix may hold.
unfoldable pub equal_fold : String → String → Bool
unfolding fold_char
equal_fold String.[] String.[] = true
equal_fold String.[] (String.◌∷◌ d t) = false
equal_fold (String.◌∷◌ c s) String.[] = false
equal_fold (String.◌∷◌ c s) (String.◌∷◌ d t) =
    (fold_char (code c) == fold_char (code d)) && equal_fold s t

-- A handler's `errors.As(err, &dbErr)`: a controlled error becomes the event's result.
unfoldable pub handled : String → String → GoError → Option (Code × GoError) → Result EventResult
handled message context e (some (c, msg)) = ok (failed_event (coded message c msg))
handled message context e none = err (flattened context e)

unfoldable pub event_result : String → String → ℕ → Result (Unit {0}) → Result EventResult
unfolding handled as_query_execution
event_result message context id (ok u) = ok (done_event id)
event_result message context id (err e) = handled message context e (as_query_execution e)
event_result message context id (panic s) = panic s

unfoldable pub controlled : String → String → ℕ → M (Unit {0}) → M EventResult
unfolding event_result
controlled message context id m w = let (r, w') = m w in (event_result message context id r, w')

-- A statement that the validator refuses is the event's failure.
abbrev pub unless_invalid : {A : Type 0} → String → Result A → (A → M EventResult) → M EventResult
unless_invalid message (ok a) f = f a
unless_invalid message (err x) f = pure (failed_event (flattened message x))
unless_invalid message (panic s) f = lift (panic s)

module _ (env : Env) (ts : TxnScope) where
  unfoldable pub get_table_prefix_and_row_count : ℕ → String → M (String × ℕ)
  get_table_prefix_and_row_count id name =
      on_error (flattened "table prefix lookup")
        (call env (select_prefix_and_count ts.vars.chain_id (string_key id) name))

  -- The statement's prefix, if it has one, is the table's.
  unfoldable pub check_prefix : String → String → Result (Unit {0})
  unfolding equal_fold
  check_prefix expected mq_prefix =
      if not (str_eq mq_prefix "") && not (equal_fold expected mq_prefix)
      then err (query_execution table_prefix (flattened expected (text mq_prefix)))
      else ok tt

  -- The type switch of the loop of execWriteQueries.
  unfoldable pub execute_mutating : ℕ → Bool → Policy → ℕ → Mutating → M (Unit {0})
  execute_mutating caller is_owner policy before (grant_stmt s) =
      on_error (wrapped "executing grant stmt") (execute_grant_stmt env ts s is_owner)
  execute_mutating caller is_owner policy before (write_stmt s) =
      on_error (wrapped "executing write stmt") (execute_write_stmt env ts s caller policy before)
  execute_mutating caller is_owner policy before (other_stmt s) = fail (text "unknown stmt type")

  -- The row count is the one before the first statement.
  unfoldable pub exec_loop : ℕ → Bool → Policy → String → ℕ → List Mutating → M (Unit {0})
  exec_loop caller is_owner policy prefix before [] = pure tt
  exec_loop caller is_owner policy prefix before (mq ∷ mqs) = do
    lift (check_prefix prefix (base mq).prefix)
    execute_mutating caller is_owner policy before mq
    exec_loop caller is_owner policy prefix before mqs

  unfoldable pub exec_write_queries : ℕ → List Mutating → Bool → Policy → M (Unit {0})
  exec_write_queries caller [] is_owner policy = pure tt
  exec_write_queries caller (mq ∷ mqs) is_owner policy = do
    found ←
        on_error (query_execution Code.table_lookup)
          (get_table_prefix_and_row_count (base mq).table_id (base mq).db_table_name)
    exec_loop caller is_owner policy found.0 found.1 (mq ∷ mqs)

  -- The statements of the event, which must target its table.
  unfoldable pub execute_statements : RunSqlEvent → List Mutating → M EventResult
  execute_statements e [] = lift (panic "index out of range")
  execute_statements e (mq ∷ mqs) =
      if (base mq).table_id == e.table_id
      then controlled "db query execution failed" "executing mutating-query" e.table_id
          (exec_write_queries e.caller (mq ∷ mqs) e.is_owner e.policy)
      else pure (
          failed_event
            (formatted "query targets another table id" ((base mq).table_id ∷ e.table_id ∷ [])))

  unfoldable pub execute_run_sql_event : RunSqlEvent → M EventResult
  execute_run_sql_event e =
      unless_invalid "parsing query"
        (validate_mutating_query env.parser e.statement ts.vars.chain_id) (execute_statements e)
