-- ===== src/Tests/Confined.antt =====
-- The example's engine changes only users' tables.
use go_tableland.Prelude.{refl}
use go_tableland.Executor.Confined.{Confined}
use go_tableland.Executor.Writes.{exec_outcome, exec_statement, query_outcome, query_statement}
use go_tableland.Fixtures.{env}

pub env-Confined : Confined env
unfolding exec_statement exec_outcome query_statement query_outcome
env-Confined = record {
  write = λ n hash block q p r d. ((_, refl), (d.tables, refl));
  create = λ c prefix chain id p named d. (_, refl);
}
