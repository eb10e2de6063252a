-- ===== src/Service.antt =====
-- TablelandMesa of internal/tableland/impl/mesa.go: validation and relaying of statements, on the
-- validator's model and the table registry of the store.
pub mod Accepted
pub mod Receipts
use go_tableland.Prelude.{
  ℤ, ℕ, String, Bool, not, Option, none, some, List, [], ◌∷◌, str_eq, if◌then◌else◌,
}
use go_tableland.Errors.{text, formatted, wrapped, Result, ok, err, panic}
use go_tableland.Database.{RegistryRow, int64_key}
use go_tableland.System.{Receipt}
use go_tableland.Parsing.Statements.{MutatingStmt, Mutating, base, bind_result, flatten_error}
use go_tableland.Parsing.Validator.{QueryValidator, validate_mutating_query, validate_create_table}

-- What the registry contract is asked to send.
pub data Relayed : Type 0 where
  run_sql_tx : ℕ → ℕ → String → Relayed
  set_controller_tx : ℕ → ℕ → ℕ → Relayed

-- chains.ChainStack: the store's tables and receipts, whether relaying is allowed, and the contract's client, which answers
-- with a transaction's hash.
pub record ChainStack : Type 0 where
  pub store : ℕ → ℤ → Option RegistryRow
  pub allow_transaction_relay : Bool
  pub send : Relayed → Result String
  pub get_receipt : String → Result (Option Receipt)

pub record Mesa : Type 0 where
  pub parser : QueryValidator
  pub chain_stacks : ℕ → Option ChainStack

-- mutatingStmts[0]
unfoldable pub first_statement : List Mutating → Result MutatingStmt
unfolding base
first_statement [] = panic "index out of range"
first_statement (m ∷ ms) = ok (base m)

-- GetTable of the store
unfoldable pub get_table : ChainStack → ℕ → ℕ → Result RegistryRow
unfolding int64_key
get_table stack chain id = elim (stack.store chain (int64_key id)) [
  | none ↦ err (wrapped "failed to get the table" (text "sql: no rows in result set"))
  | some row ↦ ok row
]

module _ (mesa : Mesa) where
  unfoldable pub stack_of : ℕ → Result ChainStack
  stack_of chain = elim (mesa.chain_stacks chain) [
    | none ↦ err (formatted "chain id isn't supported in the validator" (chain ∷ []))
    | some stack ↦ ok stack
  ]

  unfoldable pub service_validate_create_table : ℕ → String → Result String
  unfolding validate_create_table
  service_validate_create_table chain statement =
      bind_result
        (flatten_error "parsing create table statement"
          (validate_create_table mesa.parser statement chain))
        λ s. ok s.structure_hash

  unfoldable pub check_table_prefix : MutatingStmt → RegistryRow → Result ℕ
  check_table_prefix m row =
      if str_eq row.prefix m.prefix then ok m.table_id else err (text "table prefix doesn't match")

  unfoldable pub service_validate_write_query : ℕ → String → Result ℕ
  unfolding stack_of first_statement get_table check_table_prefix validate_mutating_query
  service_validate_write_query chain statement = bind_result (stack_of chain) λ stack.
      bind_result
        (flatten_error "validating query" (validate_mutating_query mesa.parser statement chain))
        λ ms. bind_result (first_statement ms) λ m.
          bind_result (flatten_error "getting table" (get_table stack chain m.table_id))
            λ row. check_table_prefix m row

  -- The stack of a chain whose transactions are relayed.
  unfoldable pub relay_stack : ChainStack → ℕ → Result ChainStack
  relay_stack stack chain =
      if stack.allow_transaction_relay
      then ok stack
      else err (formatted "chain id does not suppport relaying of transactions" (chain ∷ []))

  unfoldable pub relay_write_query : ℕ → ℕ → String → Result String
  unfolding stack_of relay_stack first_statement validate_mutating_query
  relay_write_query chain caller statement = bind_result (stack_of chain) λ stack.
      bind_result (relay_stack stack chain) λ relay.
        bind_result
          (flatten_error "validating query" (validate_mutating_query mesa.parser statement chain))
          λ ms.
            bind_result (first_statement ms)
              λ m. flatten_error "sending tx" (relay.send (run_sql_tx caller m.table_id statement))

  unfoldable pub service_set_controller : ℕ → ℕ → ℕ → ℕ → Result String
  unfolding stack_of relay_stack
  service_set_controller chain caller controller id = bind_result (stack_of chain) λ stack.
      bind_result (relay_stack stack chain)
        λ relay. flatten_error "sending tx" (relay.send (set_controller_tx caller id controller))
