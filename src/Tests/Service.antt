-- ===== src/Tests/Service.antt =====
-- The properties of the service at a chain with one table.
use go_tableland.Prelude.{◌≡◌, refl, true, none, some}
use go_tableland.Errors.{ok}
use go_tableland.Database.{RegistryRow, int64_key}
use go_tableland.Parsing.{ValidatedTable}
use go_tableland.Parsing.Statements.{base}
use go_tableland.Parsing.Validator.{parse_statements, validate_mutating_query}
use go_tableland.Service.{
  run_sql_tx, ChainStack, Mesa, first_statement, get_table, stack_of, check_table_prefix,
  service_validate_write_query, relay_stack, relay_write_query,
}
use go_tableland.Service.Accepted.{OnTable, service_validate_write_query-ok, relay_write_query-ok}
use go_tableland.Fixtures.{validator}

abbrev registered : RegistryRow
registered = record { controller = 7; prefix = "t"; structure = "" }

abbrev stack : ChainStack
stack = record {
  store = λ chain id. some registered;
  allow_transaction_relay = true;
  send = λ r. ok "0x01";
  get_receipt = λ hash. ok none;
}

mesa : Mesa
mesa = record { parser = validator; chain_stacks = λ chain. some stack }

accepts : service_validate_write_query mesa 1 "insert" ≡ ok 1
unfolding mesa service_validate_write_query stack_of first_statement base get_table
    check_table_prefix validate_mutating_query parse_statements
accepts = refl

relays : relay_write_query mesa 1 7 "insert" ≡ ok "0x01"
unfolding mesa relay_write_query stack_of relay_stack first_statement base validate_mutating_query
    parse_statements
relays = refl

service_validate_write_query-ok_example :
    (s : ChainStack) × (t : ValidatedTable) × (row : RegistryRow) × (mesa.chain_stacks 1 ≡ some s)
    × OnTable mesa.parser 1 "insert" t
    × (t.token_id ≡ 1)
    × (s.store 1 (int64_key 1) ≡ some row)
    × (row.prefix ≡ t.prefix)
service_validate_write_query-ok_example = service_validate_write_query-ok mesa 1 1 "insert" accepts

relay_write_query-ok_example :
    (s : ChainStack) × (t : ValidatedTable) × (mesa.chain_stacks 1 ≡ some s)
    × (s.allow_transaction_relay ≡ true)
    × OnTable mesa.parser 1 "insert" t
    × (s.send (run_sql_tx 7 t.token_id "insert") ≡ ok "0x01")
relay_write_query-ok_example = relay_write_query-ok mesa 1 7 "insert" "0x01" relays
