-- ===== src/Fixtures.antt =====
-- Concrete worlds for the examples: one chain, one table, a parser that knows three texts, and a
-- database that never fails.
use go_tableland.Prelude.{
  pos, negsuc, eq_ℤ, true, false, ◌&&◌, none, some, [], ◌∷◌, ◌==◌, if◌then◌else◌,
}
use go_tableland.Errors.{text, ok}
use go_tableland.Acl.{op_insert}
use go_tableland.Database.{RegistryRow, Db}
use go_tableland.Parsing.{Node, insert, ValidatedTable, SqlParser}
use go_tableland.Parsing.Statements.{MutatingStmt}
use go_tableland.Parsing.Validator.{QueryValidator}
use go_tableland.Executor.{exec_done, query_failed, Env, World, ScopeVars, TxnScope, Policy}
use go_tableland.Executor.RunSql.{RunSqlEvent}
use go_tableland.Executor.Events.{set_controller_event, TxnEvents}
use go_tableland.Executor.Scopes.{Executor}
use go_tableland.Processor.{Config, BlockEvents, Processor}

abbrev pub insert_node : Node
insert_node = insert (record {
  table = "t_1_1";
  select = none;
  body = "insert into t_1_1 values (1)";
  returning_rowid = false;
})

abbrev pub target : ValidatedTable
target = record { name = "t_1_1"; prefix = "t"; chain_id = 1; token_id = 1 }

abbrev pub sql : SqlParser
sql = record {
  parse = λ q. ok (record { statements = (insert_node, none) ∷ [] });
  validate_target_table = λ t. ok target;
  validate_target_tables = λ t. ok (target ∷ []);
  validate_create_target_table = λ t. ok target;
  resolve = λ hash block n. ok "insert into t_1_1 values (1)";
  node_string = λ n. "";
  structure_hash = λ n. "";
  hex_to_address = λ s. 0;
  is_address = λ s. true;
}

abbrev pub validator : QueryValidator
validator = record {
  sql = sql;
  system_table_prefixes = "system_" ∷ [];
  max_read_query_size = 100;
  max_write_query_size = 100;
}

-- A write succeeds and adds a row.
abbrev pub env : Env
env = record {
  parser = validator;
  exec = λ q db.
      exec_done (record db { tables = λ name. some (record { rowid = 1; columns = "1" } ∷ []) })
        (ok 1);
  query = λ q db. query_failed (text "unused");
  audit = λ q db. ok 0;
  state_hash = λ db. "hash";
  fault = λ n. none;
}

-- Every call fails.
abbrev pub broken_env : Env
broken_env = record env { fault = λ n. some (text "disk I/O error") }

abbrev pub registered : RegistryRow
registered = record { controller = 10; prefix = "t"; structure = "s" }

-- One table of address 10, which has every privilege on it; no block has been executed.
abbrev pub database : Db
database = record {
  registry = λ chain id. if (chain == 1) && eq_ℤ id (pos 1) then some registered else none;
  system_acl =
      λ chain id a. if (chain == 1) && (eq_ℤ id (pos 1) && (a == 10)) then some 7 else none;
  system_controller = λ chain id. none;
  system_txn_receipts = [];
  system_txn_processor = λ chain. none;
  tables = λ name. some [];
}

abbrev pub world : World
world = record { db = database; calls = 0 }

abbrev pub vars : ScopeVars
vars = record { chain_id = 1; max_table_row_count = 5; block_number = pos 1 }

abbrev pub scope : TxnScope
scope = record { vars = vars; txn_hash = "0x01" }

abbrev pub open_policy : Policy
open_policy = record {
  allow_insert = true;
  allow_update = true;
  allow_delete = true;
  where_clause = "";
  updatable_columns = [];
  with_check = "";
}

-- An insert by an address without privileges.
abbrev pub stranger_insert : RunSqlEvent
stranger_insert = record {
  caller = 11;
  is_owner = false;
  table_id = 1;
  statement = "insert into t_1_1 values (1)";
  policy = open_policy;
}

abbrev pub insert_stmt : MutatingStmt
insert_stmt = record {
  node = insert_node;
  prefix = "t";
  table_id = 1;
  db_table_name = "t_1_1";
  operation = op_insert;
}

-- Sets the table's controller.
abbrev pub control_txn : TxnEvents
control_txn = record {
  txn_hash = "0x01";
  events = set_controller_event (record { table_id = some 1; controller = 7 }) ∷ [];
}

abbrev pub config : Config
config = record { dedup_executed_txns = true; hash_calc_step = 10 }

abbrev pub executor : Executor
executor = record {
  chain_id = 1;
  max_table_row_count = 5;
  committed = database;
  token_free = true;
  closed = false;
  open_transactions = 0;
  calls = 0;
}

abbrev pub processor : Processor
processor = record {
  executor = executor;
  next_hash_calc_block_number = pos 10;
  last_processed_height = negsuc 0;
  hashes = [];
}

-- A block without transactions, and one with the control transaction.
abbrev pub empty_block : BlockEvents
empty_block = record { block_number = pos 1; txns = [] }

abbrev pub control_block : BlockEvents
control_block = record { block_number = pos 2; txns = control_txn ∷ [] }
