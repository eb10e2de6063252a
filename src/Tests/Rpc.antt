-- ===== src/Tests/Rpc.antt =====
-- The properties of the JSON-RPC service at a signed request.
use go_tableland.Prelude.{ℕ, String, ◌≡◌, refl, true, none, some, [], str_eq, if◌then◌else◌}
use go_tableland.Errors.{Result, ok}
use go_tableland.Fixtures.{validator, database}
use go_tableland.Parsing.Statements.{base}
use go_tableland.Parsing.Validator.{parse_statements, validate_mutating_query}
use go_tableland.System.{no_rows, SystemStore, SystemService, no_schema}
use go_tableland.System.Store.{store_get_receipt}
use go_tableland.Service.{
  ChainStack, Mesa, first_statement, stack_of, relay_stack, relay_write_query,
}
use go_tableland.Names.{add_first}
use go_tableland.Api.Middlewares.{
  HttpRequest, passed, SiweMessage, Siwe, lower_char, to_lower, split_bearer,
  requires_authentication, verified, check_message, check_token, decoded, parse_auth, with_issuer,
  authorize_parts, check_authorization, authenticate_method, authenticate_body, authenticate,
}
use go_tableland.Api.Middlewares.RateLimit.{rate_limit_key}
use go_tableland.Api.Rpc.{context_chain, caller_of, rpc_relay_write_query}
use go_tableland.Api.Rpc.Signed.{Signed}
use go_tableland.Api.Rpc.Relayed.{SentFor, rpc_relay_write_query-Signed}

abbrev siwe : Siwe
siwe = record {
  decode_string = λ s. ok s;
  unmarshal = λ s. ok (s, "signature");
  parse_message = λ s. ok (record { domain = "Tableland"; chain_id = 1; address = "0xAB" });
  verify = λ m s d. ok tt;
}

abbrev signed_request : HttpRequest
signed_request = record {
  path = "/rpc";
  body = ok "";
  authorization = "Bearer token";
  forwarded_for = "";
  remote_addr = "";
  context = record { address = none; chain_id = none; ip_address = none };
}

abbrev known_request : HttpRequest
known_request = record signed_request {
  context = record { address = some "0xab"; chain_id = some 1; ip_address = none };
}

abbrev method : String → Result String
method b = ok "tableland_relayWriteQuery"

abbrev empty_store : SystemStore
empty_store = record {
  get_table = λ id. no_rows;
  get_tables_by_controller = λ a. ok [];
  get_tables_by_structure = λ h. ok [];
  get_schema_by_table_name = λ n. ok no_schema;
  get_receipt = λ hash. store_get_receipt none 1 hash database;
}

abbrev service : SystemService
service = record {
  ext_url_prefix = "";
  metadata_renderer_uri = "";
  animation_renderer_uri = "";
  stores = λ chain. some empty_store;
}

abbrev stack : ChainStack
stack = record {
  store = λ chain id. none;
  allow_transaction_relay = true;
  send = λ r. ok "0x01";
  get_receipt = λ hash. store_get_receipt none 1 hash database;
}

abbrev mesa : Mesa
mesa = record { parser = validator; chain_stacks = λ chain. some stack }

abbrev hex : String → ℕ
hex s = if str_eq s "0xab" then 171 else 0

passes : authenticate siwe method signed_request ≡ passed known_request
unfolding authenticate authenticate_body authenticate_method requires_authentication
    check_authorization authorize_parts split_bearer add_first with_issuer parse_auth decoded
    check_token check_message verified to_lower lower_char
passes = refl

relays : rpc_relay_write_query mesa hex known_request.context "insert" ≡ ok "0x01"
unfolding rpc_relay_write_query context_chain caller_of relay_write_query stack_of relay_stack
    first_statement base validate_mutating_query parse_statements
relays = refl

rpc_relay_write_query-Signed_example :
    (msg : SiweMessage) × Signed siwe signed_request msg
    × SentFor mesa hex msg.chain_id (to_lower msg.address) "insert" "0x01"
    × (rate_limit_key (λ s. ok s) known_request ≡ ok (to_lower msg.address))
rpc_relay_write_query-Signed_example =
    rpc_relay_write_query-Signed siwe method (λ s. ok s) mesa hex signed_request known_request
      "insert" "0x01" refl passes relays
