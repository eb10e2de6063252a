-- ===== src/Tests/Transfers.antt =====
-- A transfer of the example's table.
use go_tableland.Prelude.{◌≡◌, refl, true, false, none, some, arith}
use go_tableland.Errors.{Result, ok}
use go_tableland.Acl.{op_insert, grant_mask, revoke_mask}
use go_tableland.Database.{int64_key}
use go_tableland.Database.Statements.{update_registry_controller, upsert_acl, revoke_acl}
use go_tableland.Executor.{World, pure, on_error, ◌>>=◌, call, EventResult}
use go_tableland.Executor.Grants.{execute_grant_privileges_tx, execute_revoke_privileges_tx}
use go_tableland.Executor.RunSql.{event_result, controlled}
use go_tableland.Executor.Tables.{change_table_owner, execute_transfer_event}
use go_tableland.Executor.MaskBits.{insert_needs, may_write}
use go_tableland.Executor.Transfers.{transfer_event-Moves}
use go_tableland.Fixtures.{env, world, scope}

abbrev handover : Result EventResult × World
handover = execute_transfer_event env scope (record { from = 10; to = 11; table_id = some 1 }) world

transfer_returns : handover.0 ≡ ok (record { table_id = some 1; error = none })
unfolding execute_transfer_event controlled event_result change_table_owner
    execute_revoke_privileges_tx execute_grant_privileges_tx update_registry_controller revoke_acl
    upsert_acl revoke_mask grant_mask int64_key ◌>>=◌ call on_error pure
transfer_returns = refl

transfer_event-Moves_example :
    (may_write scope 1 11 op_insert handover.1.db ≡ true)
    × (may_write scope 1 10 op_insert handover.1.db ≡ false)
unfolding int64_key
transfer_event-Moves_example =
    transfer_event-Moves env scope 1 10 11 world (record { table_id = some 1; error = none })
      insert_needs (omega arith) (λ h. omega arith) (omega arith) tt transfer_returns refl
