-- ===== src/Executor.antt =====
-- The state of an execution and its calls of the database: the transaction of a block scope
-- (pkg/eventprocessor/impl/executor/impl/blockscope.go) as an explicit state.
pub mod Grants
pub mod Policies
pub mod Writes
pub mod RunSql
pub mod Tables
pub mod Events
pub mod BlockScope
pub mod Scopes
pub mod Yields
pub mod Confined
pub mod Frames
pub mod Framed
pub mod Ledger
pub mod Registered
pub mod Integrity
pub mod Atomic
pub mod NonOwner
pub mod MaskBits
pub mod Privileges
pub mod Calls
pub mod Access
pub mod Ensures
pub mod QueryFaults
pub mod Transfers
pub mod RowLimits
use go_tableland.Prelude.{ℤ, ℕ, suc, String, Bool, not, Option, none, some, List}
use go_tableland.Errors.{GoError, text, Result, ok, err, panic}
use go_tableland.Database.{Db}
use go_tableland.Parsing.Validator.{QueryValidator}

-- What ExecContext did: failed, with no effect, or left a database and counted rows.
pub data Executed : Type 0 where
  exec_failed : GoError → Executed
  exec_done : Db → Result ℕ → Executed

-- What QueryContext did: failed, or left a database and returned rows. A row is the rowid that
-- Scan reads, or Scan's error; the last field is what rows.Err() says after the last row.
pub data Queried : Type 0 where
  query_failed : GoError → Queried
  query_done : Db → List (Result ℕ) → Option GoError → Queried

-- SELECT count(1) FROM table WHERE (check) AND rowid in (ids) LIMIT 1
pub record AuditQuery : Type 0 where
  pub table : String
  pub check : String
  pub rowids : List ℕ

-- The world outside the repository: the validator with its parser library; how the engine executes the text of a
-- user's statement; the hash of a state; and whether the n-th call of the database fails for a reason of its own.
pub record Env : Type 0 where
  pub parser : QueryValidator
  pub exec : String → Db → Executed
  pub query : String → Db → Queried
  pub audit : AuditQuery → Db → Result ℕ
  pub state_hash : Db → String
  pub fault : ℕ → Option GoError

-- The open transaction's view of the database, and the number of calls made so far.
pub record World : Type 0 where
  pub db : Db
  pub calls : ℕ

abbrev pub M : Type 0 → Type 0
M A = World → Result A × World

unfoldable pub pure : {A : Type 0} → A → M A
pure a w = (ok a, w)

unfoldable pub fail : {A : Type 0} → GoError → M A
fail e w = (err e, w)

-- A computation that does not touch the database.
unfoldable pub lift : {A : Type 0} → Result A → M A
lift r w = (r, w)

-- The error of a call, as a handler rewrites it.
abbrev pub map_error : {A : Type 0} → (GoError → GoError) → Result A → Result A
map_error f (ok a) = ok a
map_error f (err e) = err (f e)
map_error f (panic s) = panic s

unfoldable pub on_error : {A : Type 0} → (GoError → GoError) → M A → M A
on_error f m w = let (r, w') = m w in (map_error f r, w')

abbrev pub continue : {A B : Type 0} → Result A → (A → M B) → M B
continue (ok a) f w = f a w
continue (err e) f w = (err e, w)
continue (panic s) f w = (panic s, w)

-- A panic passes through, as an error does. Opening this opens the computations above.
infixl 5 ◌>>=◌ ◌>>◌
unfoldable pub ◌>>=◌ : {A B : Type 0} → M A → (A → M B) → M B
unfolding pure fail lift on_error
◌>>=◌ m f w = let (r, w') = m w in continue r f w'

abbrev pub ◌>>◌ : {A B : Type 0} → M A → M B → M B
m >> k = m >>= λ _. k

-- One call of the database: it fails with no effect, or runs.
unfoldable pub call : Env → {A : Type 0} → (Db → Result A × Db) → M A
call env statement w = elim (env.fault w.calls) [
  | some e ↦ (err e, record w { calls = suc w.calls })
  | none ↦ let (r, db') = statement w.db in (r, record { db = db'; calls = suc w.calls })
]

-- scopeVars
pub record ScopeVars : Type 0 where
  pub chain_id : ℕ
  pub max_table_row_count : ℕ
  pub block_number : ℤ

-- txnScope, with the transaction hash of its statement resolver
pub record TxnScope : Type 0 where
  pub vars : ScopeVars
  pub txn_hash : String

-- eventExecutionResult
pub record EventResult : Type 0 where
  pub table_id : Option ℕ
  pub error : Option GoError

abbrev pub failed_event : GoError → EventResult
failed_event e = record { table_id = none; error = some e }

abbrev pub done_event : ℕ → EventResult
done_event id = record { table_id = some id; error = none }

-- ethereum.ITablelandControllerPolicy
pub record Policy : Type 0 where
  pub allow_insert : Bool
  pub allow_update : Bool
  pub allow_delete : Bool
  pub where_clause : String
  pub updatable_columns : List String
  pub with_check : String
