-- ===== src/Tests/RowLimits.antt =====
-- An insert into the example's table.
use go_tableland.Prelude.{ℕ, ◌+◌, ◌≤◌, String, ◌≡◌, refl, arith}
use go_tableland.Errors.{ok}
use go_tableland.Parsing.Statements.{eq_operation, get_query}
use go_tableland.Executor.{lift, on_error, ◌>>=◌, call}
use go_tableland.Executor.Writes.{
  exec_outcome, exec_statement, check_row_count_limit, resolve_query, write_unchecked,
}
use go_tableland.Executor.RowLimits.{write_unchecked-RowLimit}
use go_tableland.Fixtures.{env, database, world, scope, insert_stmt}

insert_returns : (write_unchecked env scope insert_stmt 3 world).0 ≡ ok tt
unfolding write_unchecked resolve_query get_query exec_statement exec_outcome check_row_count_limit
    eq_operation ◌>>=◌ call on_error lift
insert_returns = refl

write_unchecked-RowLimit_example :
    (q : String) × (get_query env.parser.sql scope.txn_hash scope.vars.block_number insert_stmt
      ≡ ok q)
    × ((write_unchecked env scope insert_stmt 3 world).1.db ≡ (exec_statement env q database).1)
    × ((affected : ℕ) × ((exec_statement env q database).0 ≡ ok (ok affected)) × (3 + affected ≤ 5))
write_unchecked-RowLimit_example =
    write_unchecked-RowLimit env scope insert_stmt 3 world refl (omega arith) insert_returns
