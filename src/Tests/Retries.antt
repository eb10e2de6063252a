-- ===== src/Tests/Retries.antt =====
-- The properties of the retries and of the token at concrete blocks.
use go_tableland.Prelude.{pos, ◌≡◌, refl, true, none, some, arith, ◌==◌, if◌then◌else◌}
use go_tableland.Errors.{GoError, text, err}
use go_tableland.Executor.{Env}
use go_tableland.Executor.Scopes.{height_of}
use go_tableland.Processor.{Processor, execute_block}
use go_tableland.Processor.Token.{execute_block-late, execute_block-token}
use go_tableland.Fixtures.{env, database, config, executor, processor, empty_block}

-- The first call fails, the others do not.
abbrev flaky_env : Env
flaky_env = record env { fault = λ n. if n == 0 then some (text "database is locked") else none }

execute_block-token_example :
    (execute_block flaky_env config 1 5 empty_block processor).1.executor.token_free ≡ true
execute_block-token_example = execute_block-token flaky_env config 1 5 empty_block processor refl

-- A processor whose database has the height 5.
abbrev late_processor : Processor
late_processor = record processor {
  executor = record executor {
    committed = record database { system_txn_processor = λ chain. some (pos 5) };
  };
}

execute_block-late_example :
    ((e : GoError) × ((execute_block env config 1 5 empty_block late_processor).0 ≡ err e))
    × ((execute_block env config 1 5 empty_block late_processor).1.executor.open_transactions ≡ 1)
    × ((execute_block env config 1 5 empty_block late_processor).1.executor.token_free ≡ true)
unfolding height_of
execute_block-late_example =
    execute_block-late env config 1 5 empty_block late_processor refl refl refl refl (omega arith)
