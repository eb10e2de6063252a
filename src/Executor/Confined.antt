-- ===== src/Executor/Confined.antt =====
-- What is relied on of the SQL engine and the parser library, under the statements that
-- pkg/eventprocessor/impl/executor/impl executes for users.
use go_tableland.Prelude.{ℤ, ℕ, String, ◌≡◌, false, Option, List}
use go_tableland.Errors.{ok}
use go_tableland.Database.{Row, Db}
use go_tableland.Parsing.{CreateNode, Node, create_table}
use go_tableland.Parsing.Statements.{table_name}
use go_tableland.Parsing.Validator.{has_prefix}
use go_tableland.Parsing.Permitted.{Permitted}
use go_tableland.Executor.{Env}
use go_tableland.Executor.Writes.{exec_statement, query_statement}

-- Only the users' tables differ.
abbrev pub OnlyTables : Db → Db → Type 0
OnlyTables d d' = (ts : String → Option (List Row)) × (d' ≡ record d { tables = ts })

-- A write whose table has the form of a user's table, and no system table's prefix, changes only
-- users' tables, once the library has resolved it to a text; so does the text of a CREATE TABLE
-- whose table is named after its chain and id, with a prefix that is no system table's.
pub record Confined (env : Env) : Type 0 where
  pub write :
      (n : Node) (hash : String) (block : ℤ) (q : String)
      → Permitted env.parser n
      → env.parser.sql.resolve hash block n ≡ ok q
      → (d : Db)
      → OnlyTables d (exec_statement env q d).1 × OnlyTables d (query_statement env q d).1
  pub create :
      (c : CreateNode) (prefix : String) (chain id : ℕ)
      → has_prefix prefix env.parser.system_table_prefixes ≡ false
      → c.table ≡ table_name prefix chain id
      → (d : Db)
      → OnlyTables d (exec_statement env (env.parser.sql.node_string (create_table c)) d).1
