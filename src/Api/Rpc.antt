-- ===== src/Api/Rpc.antt =====
-- The JSON-RPC service of internal/router/controllers/legacy/rpcservice.go, over TablelandMesa. An answer is what
-- the method returns, beside what it hands to the telemetry.
pub mod Signed
pub mod Relayed
pub mod Receipts
use go_tableland.Prelude.{
  ℤ, decimal, ℕ, String, Bool, not, ◌&&◌, Option, none, some, List, [], ◌∷◌, ◌++◌, str_eq, ltb,
  if◌then◌else◌, length,
}
use go_tableland.Errors.{text, flattened, Result, ok, err}
use go_tableland.Names.{new_table_id}
use go_tableland.System.{found}
use go_tableland.Parsing.Statements.{bind_result, flatten_error}
use go_tableland.Formatter.{
  Output, output_from_string, FormatConfig, with_output, with_unwrap, with_extract, TableData, Json,
  format,
}
use go_tableland.UserStore.{ColumnValue, UserStore}
use go_tableland.Telemetry.Payloads.{Payload}
use go_tableland.Service.{
  Mesa, service_validate_create_table, service_validate_write_query, relay_write_query,
  service_set_controller,
}
use go_tableland.Service.Receipts.{TxnReceipt, service_get_receipt}
use go_tableland.Api.Query.{read_query_metric}
use go_tableland.Api.Middlewares.{Context}

-- RunReadQueryRequest
pub record RunReadQueryRequest : Type 0 where
  pub statement : String
  pub output : Option String
  pub unwrap : Option Bool
  pub extract : Option Bool

unfoldable pub output_option : String → Option Output → Result (List (FormatConfig → FormatConfig))
unfolding with_output
output_option s none = err (flattened "is not a valid output" (text s))
output_option s (some o) = ok (with_output o ∷ [])

unfoldable pub output_options : Option String → Result (List (FormatConfig → FormatConfig))
unfolding output_option output_from_string
output_options none = ok []
output_options (some s) = output_option s (output_from_string s)

unfoldable pub bool_options :
    (Bool → FormatConfig → FormatConfig) → Option Bool → List (FormatConfig → FormatConfig)
bool_options option none = []
bool_options option (some b) = option b ∷ []

-- FormatOpts
unfoldable pub format_opts : RunReadQueryRequest → Result (List (FormatConfig → FormatConfig))
unfolding output_options bool_options with_extract with_unwrap
format_opts r =
    bind_result (output_options r.output)
      λ os. ok (os ++ (bool_options with_extract r.extract ++ bool_options with_unwrap r.unwrap))

-- The caller's address and the chain of a context.
unfoldable pub context_chain : Context → Result ℕ
context_chain c = elim c.chain_id [
  | none ↦ err (text "no chain id found in context")
  | some chain ↦ ok chain
]

unfoldable pub caller_of : String → Option String → Result String
caller_of missing none = err (text missing)
caller_of missing (some a) = if str_eq a "" then err (text missing) else ok a

module _ (mesa : Mesa) where
  unfoldable pub rpc_validate_create_table : Context → String → Result String
  unfolding context_chain service_validate_create_table
  rpc_validate_create_table c statement = bind_result (context_chain c) λ chain.
      flatten_error "calling ValidateCreateTable"
        (service_validate_create_table mesa chain statement)

  unfoldable pub rpc_validate_write_query : Context → String → Result String
  unfolding context_chain service_validate_write_query
  rpc_validate_write_query c statement = bind_result (context_chain c) λ chain.
      bind_result
        (flatten_error "calling ValidateWriteQuery"
          (service_validate_write_query mesa chain statement))
        λ id. ok (decimal id)

  -- `hex_to_address` is common.HexToAddress.
  module _ (hex_to_address : String → ℕ) where
    unfoldable pub rpc_relay_write_query : Context → String → Result String
    unfolding context_chain caller_of relay_write_query
    rpc_relay_write_query c statement = bind_result (context_chain c) λ chain.
        bind_result (caller_of "no controller address found in context" c.address) λ caller.
          flatten_error "calling RelayWriteQuery"
            (relay_write_query mesa chain (hex_to_address caller) statement)

    unfoldable pub rpc_set_controller : Context → String → String → Result String
    unfolding context_chain caller_of new_table_id service_set_controller
    rpc_set_controller c controller token_id = bind_result (context_chain c) λ chain.
        bind_result (caller_of "no caller address found in context" c.address) λ caller.
          bind_result (flatten_error "parsing token ID" (new_table_id token_id)) λ id.
            flatten_error "calling SetController" (
              service_set_controller mesa chain (hex_to_address caller) (hex_to_address controller)
                id)

  unfoldable pub rpc_get_receipt :
      (String → Result (Unit {0})) → Context → String → Result (Option TxnReceipt)
  unfolding context_chain service_get_receipt
  rpc_get_receipt unmarshal_text c hash = bind_result (context_chain c) λ chain.
      flatten_error "calling GetReceipt" (service_get_receipt mesa unmarshal_text chain hash)

module _ (json : Json ColumnValue) where
  unfoldable pub read_response :
      Context
      → ℤ
      → String
      → TableData ColumnValue
      → String × FormatConfig
      → Result (String × Option Payload)
  unfolding read_query_metric
  read_response c took statement d (formatted_rows, config) =
      if config.unwrap_rows && ltb 1 (length d.rows)
      then err (text "unwrapped results with more than one row aren't supported in JSON RPC API")
      else ok (formatted_rows, read_query_metric c.ip_address statement config took)

  -- RunReadQuery; `run` is that of the service.
  unfoldable pub rpc_run_read_query :
      (String → Result (TableData ColumnValue))
      → Context
      → ℤ
      → RunReadQueryRequest
      → Result (String × Option Payload)
  unfolding format_opts format read_response
  rpc_run_read_query run c took r =
      bind_result (flatten_error "calling RunReadQuery" (run r.statement)) λ d.
        bind_result (flatten_error "getting format opts from request" (format_opts r)) λ opts.
          bind_result (flatten_error "formatting result" (format json d opts))
            (read_response c took r.statement d)
