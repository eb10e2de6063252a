-- ===== src/Tests/Blocks.antt =====
-- The properties of the processor and the validator at concrete inputs.
use go_tableland.Prelude.{
  pos, ◌≤ℤ◌, ◌<ℤ◌, ◌+ℤ◌, ℕ, ◌*◌, ◌≤◌, len, ◌≡◌, refl, Option, some, List, [], ◌∷◌, arith,
}
use go_tableland.Errors.{GoError, ok}
use go_tableland.Database.Statements.{select_height, update_height, insert_height}
use go_tableland.Parsing.{Node, ValidatedTable}
use go_tableland.Parsing.Statements.{Mutating, write_stmt}
use go_tableland.Parsing.Validator.{
  has_prefix, check_non_empty_statement, parse_statements, check_no_system_tables_referencing,
  validate_write_query, validate_node, same_target, validate_loop, operation_of, mutating_stmt,
  to_mutating, to_mutating_all, check_target, validate_mutating_query,
}
use go_tableland.Parsing.OneTable.{AllTarget, HandedOn, validate_mutating_query-OneTable}
use go_tableland.Executor.{◌>>=◌, call}
use go_tableland.Executor.Events.{execute_txn_events}
use go_tableland.Executor.BlockScope.{set_last_processed_height, save_txn_receipts}
use go_tableland.Executor.Scopes.{
  height_of, get_last_executed, check_height, opened, new_block_scope, commit, close_scope,
}
use go_tableland.Executor.Ledger.{SameLedger, txn_events-SameLedger}
use go_tableland.Executor.Registered.{SameTable}
use go_tableland.Executor.Integrity.{txn_events-SameTable}
use go_tableland.Processor.{
  Processor, next_multiple_of, execute_txns, execute_body, finish_block, hash_then_execute,
  after_open, execute_block, retry_block, run_daemon,
}
use go_tableland.Processor.Blocks.{
  committed_height, execute_block-Advances, execute_block-abandoned,
}
use go_tableland.Processor.Daemon.{Ascending, run_daemon-Ascending}
use go_tableland.Processor.Hashes.{next_multiple_of-Bounds}
use go_tableland.Tests.Confined.{env-Confined}
use go_tableland.Fixtures.{
  validator, env, broken_env, registered, database, world, scope, insert_stmt, control_txn, config,
  processor, empty_block,
}

block_returns : (execute_block env config 1 5 empty_block processor).0 ≡ ok tt
unfolding execute_block new_block_scope opened check_height get_last_executed select_height
    height_of after_open hash_then_execute finish_block execute_body execute_txns save_txn_receipts
    set_last_processed_height update_height insert_height commit close_scope ◌>>=◌ call
block_returns = refl

execute_block-Advances_example :
    (committed_height env config 1 5 processor <ℤ pos 1)
    × (committed_height env config 1 5 (execute_block env config 1 5 empty_block processor).1
        ≡ pos 1)
    × ((execute_block env config 1 5 empty_block processor).1.last_processed_height ≡ pos 1)
execute_block-Advances_example =
    execute_block-Advances env config 1 5 empty_block processor refl block_returns

broken_block : ¬ ((execute_block broken_env config 1 5 empty_block processor).0 ≡ ok tt)
unfolding execute_block new_block_scope after_open
broken_block h = cc

execute_block-abandoned_example :
    (execute_block broken_env config 1 5 empty_block processor).1.executor.committed ≡ database
execute_block-abandoned_example =
    execute_block-abandoned broken_env config 1 5 empty_block processor broken_block

abbrev after_block : Processor
after_block = (execute_block env config 1 5 empty_block processor).1

daemon_returns : run_daemon env config 1 5 1 (empty_block ∷ []) processor ≡ some after_block
unfolding run_daemon retry_block execute_block new_block_scope opened check_height get_last_executed
    select_height height_of after_open hash_then_execute finish_block execute_body execute_txns
    save_txn_receipts set_last_processed_height update_height insert_height commit close_scope ◌>>=◌
    call
daemon_returns = refl

run_daemon-Ascending_example :
    Ascending (committed_height env config 1 5 processor) (empty_block ∷ [])
    × (committed_height env config 1 5 after_block ≡ pos 1)
run_daemon-Ascending_example =
    run_daemon-Ascending env config 1 5 1 (empty_block ∷ []) processor after_block refl
      daemon_returns

abbrev accepted : List Mutating
accepted = write_stmt insert_stmt ∷ []

query_accepted : validate_mutating_query validator "insert into t_1_1 values (1)" 1 ≡ ok accepted
unfolding validate_mutating_query parse_statements check_non_empty_statement validate_loop
    validate_node validate_write_query check_no_system_tables_referencing has_prefix same_target
    check_target to_mutating_all to_mutating mutating_stmt operation_of
query_accepted = refl

validate_mutating_query-OneTable_example :
    (len "insert into t_1_1 values (1)" ≤ 100)
    × ((stmts : List (Node × Option GoError)) × (parse_statements validator
            "insert into t_1_1 values (1)"
          ≡ ok stmts)
        × ((t : ValidatedTable) × (t.chain_id ≡ 1)
            × AllTarget validator t stmts
            × HandedOn validator t stmts accepted))
validate_mutating_query-OneTable_example =
    validate_mutating_query-OneTable validator "insert into t_1_1 values (1)" 1 accepted
      query_accepted

txn_events-SameLedger_example :
    SameLedger database (execute_txn_events env scope control_txn world).1.db
txn_events-SameLedger_example = txn_events-SameLedger env scope control_txn world env-Confined

txn_events-SameTable_example :
    SameTable registered ((execute_txn_events env scope control_txn world).1.db.registry 1 (pos 1))
txn_events-SameTable_example =
    txn_events-SameTable env scope control_txn world 1 (pos 1) registered env-Confined refl

next_multiple_of-Bounds_example :
    (pos 12 <ℤ next_multiple_of (pos 12) 10)
    × ((k : ℕ) × (next_multiple_of (pos 12) 10 ≡ pos (10 * k))
        × (pos (10 * k) ≤ℤ (pos 12 +ℤ pos 10)))
next_multiple_of-Bounds_example = next_multiple_of-Bounds (pos 12) 10 (omega arith) (omega arith)
