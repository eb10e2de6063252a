-- ===== src/Errors.antt =====
-- Go's errors as values: pkg/eventprocessor/impl/executor/impl/txnscope.go (errQueryExecution) and
-- executor.go (isErrCausedByQuery). A message that fmt.Sprintf builds is kept as the format's text
-- beside its arguments, so that no text is lost and none has to be printed.
use go_tableland.Prelude.{ℕ, String, Bool, true, false, Option, none, some, List, ◌≡◌}

-- The sqlite3.ErrNo values that the executor tells apart; the others by their number.
pub data ErrNo : Type 0 where
  err_error err_constraint err_too_big err_mismatch : ErrNo
  err_other : ℕ → ErrNo

-- The codes of errQueryExecution; `sqlite_code` is "SQLITE_" followed by the driver's text.
pub data Code : Type 0 where
  table_lookup table_prefix acl_not_owner acl_unknown_operation acl_denied : Code
  query_resolution row_count_limit policy_denied policy_check_columns : Code
  policy_apply_where_clause policy_apply_returning_clause policy_with_check : Code
  sqlite_code : String → Code

-- `wrapped` is fmt.Errorf with %w, which errors.As looks through; `flattened` is fmt.Errorf with %s,
-- which keeps only the text. `coded` is a message with a code and a text, and
-- `valid_utf8` a text without its invalid bytes (strings.ToValidUTF8).
pub data GoError : Type 0 where
  text : String → GoError
  formatted : String → List ℕ → GoError
  sqlite : ErrNo → String → GoError
  query_execution : Code → GoError → GoError
  wrapped : String → GoError → GoError
  flattened : String → GoError → GoError
  coded : String → Code → GoError → GoError
  valid_utf8 : GoError → GoError

-- A call returns, returns an error, or panics.
pub data Result (A : Type 0) : Type 0 where
  ok : A → Result A
  err : GoError → Result A
  panic : String → Result A

pub ok_injective : {A : Type 0} {a b : A} → ok a ≡ ok b → a ≡ b
ok_injective e = cc

-- errors.As(err, &dbErr) for a *errQueryExecution.
unfoldable pub as_query_execution : GoError → Option (Code × GoError)
as_query_execution (query_execution c m) = some (c, m)
as_query_execution (wrapped s e) = as_query_execution e
as_query_execution _ = none

-- errors.As(err, &sqlErr) for a sqlite3.Error.
unfoldable pub as_sqlite : GoError → Option (ErrNo × String)
as_sqlite (sqlite n s) = some (n, s)
as_sqlite (wrapped s e) = as_sqlite e
as_sqlite _ = none

-- The list sqlite3ExecutionErrors.
unfoldable pub is_execution_error : ErrNo → Bool
is_execution_error (err_other n) = false
is_execution_error _ = true

-- The text of the driver's error, if it is one that the query itself causes.
unfoldable pub is_err_caused_by_query : GoError → Option String
unfolding as_sqlite is_execution_error
is_err_caused_by_query e = elim (as_sqlite e) [
  | none ↦ none
  | some (n, s) ↦ elim (is_execution_error n) [ true ↦ some s | false ↦ none ]
]

-- What every handler does with a failed statement: a query's own fault becomes an
-- errQueryExecution, anything else stays an infrastructure error.
unfoldable pub query_fault : String → GoError → GoError
unfolding is_err_caused_by_query
query_fault context e = elim (is_err_caused_by_query e) [
  | some s ↦ query_execution (sqlite_code s) e
  | none ↦ flattened context e
]

-- An error that retrying cannot cure, which the executor reports in a receipt.
abbrev pub IsControlled : GoError → Type 0
IsControlled e = (p : Code × GoError) × (as_query_execution e ≡ some p)
