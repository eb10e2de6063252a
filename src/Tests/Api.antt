-- ===== src/Tests/Api.antt =====
-- The properties of the API at a small store.
use mathlib.Core.List.{append-nil}
use go_tableland.Prelude.{pos, String, ◌≡◌, refl, sym, ◌⊎◌, false, Option, none, some, [], ◌∷◌}
use go_tableland.Errors.{text, Result, ok, err}
use go_tableland.Database.{ReceiptRow}
use go_tableland.Database.Statements.{has_hash, has_position, insert_receipt}
use go_tableland.Fixtures.{sql, database}
use go_tableland.Parsing.{Node, select}
use go_tableland.Parsing.Validator.{
  QueryValidator, parse_statements, first_node, check_select_node, validate_read_query,
}
use go_tableland.Formatter.{TableData, Json}
use go_tableland.UserStore.{
  int64, ColumnValue, other_value, scan, fetched_row, scan_row, prepend, get_rows_data, table_data,
  rows_of_columns, rows_to_table_data, exec_read_query, UserStore, read_resolved, read,
}
use go_tableland.Telemetry.Payloads.{Payload}
use go_tableland.System.{no_rows, SystemStore, SystemService, no_schema}
use go_tableland.System.Store.{store_get_receipt}
use go_tableland.Api.{Writer, new_writer}
use go_tableland.Api.Params.{either}
use go_tableland.Api.Query.{run_select, run_read_query, QueryRequest, get_table_query}
use go_tableland.Api.Row.{RowReply, get_table_row}
use go_tableland.Api.Receipts.{get_receipt_handler}
use go_tableland.Api.Rectangular.{NoPanic}
use go_tableland.Api.Formatted.{Returns}
use go_tableland.Api.Answered.{statement_of, Served, Refused, get_table_query-answers}
use go_tableland.Api.Saved.{shown, receipt_answer, get_receipt_handler-saved}
use go_tableland.Api.Route.{routed, BadRequest, get_table_row-refused}

abbrev json : Json ColumnValue
json = record {
  marshal_table = λ d. ok "table";
  marshal_items = λ is. ok "items";
  marshal_item = λ i. ok "item";
}

json-Returns : Returns json
json-Returns = ((λ d s h. cc), (λ is s h. cc), λ i s h. cc)

abbrev users : UserStore Node
users = record {
  get_query = λ n. ok "select";
  query_context =
      λ q. ok (record { columns = ok ("a" ∷ []); fetched = fetched_row (int64 (pos 7) ∷ []) ∷ [] });
  valid_json = λ s. false;
}

abbrev request : QueryRequest
request = record { query = λ name. ""; ip_address = some "1.2.3.4"; took = pos 3 }

abbrev reader : QueryValidator
reader = record {
  sql = record sql { parse = λ q. ok (record { statements = (select "select", none) ∷ [] }) };
  system_table_prefixes = [];
  max_read_query_size = 100;
  max_write_query_size = 100;
}

quiet_run : NoPanic (run_read_query reader users (statement_of request))
unfolding run_read_query run_select validate_read_query parse_statements first_node
    check_select_node either read read_resolved exec_read_query rows_to_table_data rows_of_columns
    get_rows_data table_data prepend scan_row scan
quiet_run s h = cc

reads :
    run_read_query reader users ""
    ≡ ok (record { columns = "a" ∷ []; rows = (other_value (int64 (pos 7)) ∷ []) ∷ [] })
unfolding run_read_query run_select validate_read_query parse_statements first_node
    check_select_node read read_resolved exec_read_query rows_to_table_data rows_of_columns
    get_rows_data table_data prepend scan_row scan
reads = refl

get_table_query-answers_example :
    (w : Writer (Unit {0})) × (metric : Option Payload) × (get_table_query json
        (run_read_query reader users)
        request
        new_writer
      ≡ ok (w, metric))
    × (Served json (run_read_query reader users) request w metric ⊎ Refused w metric)
get_table_query-answers_example =
    get_table_query-answers json reader users request json-Returns quiet_run

abbrev receipt : ReceiptRow
receipt = record {
  chain_id = 1;
  block_number = pos 9;
  index_in_block = 0;
  txn_hash = "0xab";
  table_id = some (pos 2);
  error = some (text "no");
  error_event_idx = some 1;
}

abbrev store : SystemStore
store = record {
  get_table = λ id. no_rows;
  get_tables_by_controller = λ a. ok [];
  get_tables_by_structure = λ h. ok [];
  get_schema_by_table_name = λ n. ok no_schema;
  get_receipt = λ hash. store_get_receipt none 1 hash (insert_receipt receipt database).1;
}

abbrev service : SystemService
service = record {
  ext_url_prefix = "";
  metadata_renderer_uri = "";
  animation_renderer_uri = "";
  stores = λ chain. some store;
}

inserted : (insert_receipt receipt database).0 ≡ ok tt
unfolding insert_receipt has_position has_hash
inserted = refl

get_receipt_handler-saved_example :
    get_receipt_handler (λ t. t) service (λ (s : String). s) (λ s. ok s) (some 1) "0xab" new_writer
    ≡ ok (receipt_answer (shown "0xab" receipt))
get_receipt_handler-saved_example =
    get_receipt_handler-saved (λ t. t) service (λ (s : String). s) (λ s. ok s) "0xab" "0xab" receipt
      store database (insert_receipt receipt database).1 [] inserted
      (sym (append-nil (insert_receipt receipt database).1.system_txn_receipts)) refl (λ h. refl)
      refl refl

abbrev syntax_error : String → Result (TableData ColumnValue)
syntax_error s = err (text "syntax error")

get_table_row-refused_example :
    (w : Writer RowReply) × (get_table_row json
        (routed "1" "2" "a" "7" (λ n. "") (err (text "none")))
        syntax_error
        new_writer
      ≡ ok w)
    × BadRequest w
get_table_row-refused_example =
    get_table_row-refused json "1" "2" "a" "7" (λ n. "") (err (text "none")) syntax_error
      λ n. (text "syntax error", refl)
