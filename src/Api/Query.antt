-- ===== src/Api/Query.antt =====
-- GetTableQuery and CollectReadQueryMetric of internal/router/controllers/controller.go, and RunReadQuery of
-- internal/tableland/impl/mesa.go.
use go_tableland.Steps.{map_error}
use go_tableland.Prelude.{
  ℤ, String, ◌&&◌, Option, none, some, List, [], str_eq, ltb, if◌then◌else◌, length,
}
use go_tableland.Errors.{text, flattened, Result, ok, err, panic}
use go_tableland.Formatter.{Output, table, objects, FormatConfig, TableData, Json, format}
use go_tableland.UserStore.{ColumnValue, UserStore, read}
use go_tableland.Api.{bytes, Writer, set_content_type, write_header, write, refuse_with}
use go_tableland.Api.Params.{either, formatter_options}
use go_tableland.Telemetry.Payloads.{Payload, read_query}
use go_tableland.Parsing.{Node}
use go_tableland.Parsing.Validator.{QueryValidator, validate_read_query}

-- runSelect
unfoldable pub run_select : UserStore Node → Result Node → Result (TableData ColumnValue)
unfolding read
run_select store (ok stmt) =
    map_error (λ e. flattened "running read statement" (flattened "executing read-query" e))
      (read store stmt)
run_select store (err e) = err (flattened "validating query" e)
run_select store (panic p) = panic p

-- RunReadQuery
unfoldable pub run_read_query :
    QueryValidator → UserStore Node → String → Result (TableData ColumnValue)
unfolding run_select validate_read_query
run_read_query parser store statement = run_select store (validate_read_query parser statement)

unfoldable pub output_string : Output → String
output_string table = "table"
output_string objects = "objects"

-- CollectReadQueryMetric: what is handed to Collect, if the context has an address.
unfoldable pub read_query_metric : Option String → String → FormatConfig → ℤ → Option Payload
unfolding output_string
read_query_metric none statement c took = none
read_query_metric (some ip) statement c took =
    if str_eq ip ""
    then none
    else some (
        read_query (record {
          version = 0;
          ip_address = ip;
          sql_statement = statement;
          format_options = record {
            extract = c.extract_values;
            unwrap = c.unwrap_rows;
            output = output_string c.output;
          };
          took_milli = took;
        }))

-- runReadRequest: rows, or the answer that was written.
pub data ReadAnswer (J : Type 0) : Type 0 where
  rows_read : TableData ColumnValue → ReadAnswer J
  refused : Writer J → ReadAnswer J
  read_panic : String → ReadAnswer J

module _ {J : Type 0} where
  unfoldable pub run_read_request : Result (TableData ColumnValue) → Writer J → ReadAnswer J
  unfolding refuse_with
  run_read_request (ok d) w = elim d.rows [
    | [] ↦ refused (refuse_with 404 (text "Row not found") w)
    | _ ↦ rows_read d
  ]
  run_read_request (err e) w = refused (refuse_with 400 e w)
  run_read_request (panic p) w = read_panic p

  -- config.Unwrap && len(res.Rows) > 1
  unfoldable pub lines_type : FormatConfig → TableData ColumnValue → Writer J → Writer J
  unfolding set_content_type
  lines_type c d w =
      if c.unwrap_rows && ltb 1 (length d.rows)
      then set_content_type "application/jsonl+json" w
      else w

-- A request: its query parameters, the address in its context, and how long the reading took.
pub record QueryRequest : Type 0 where
  pub query : String → String
  pub ip_address : Option String
  pub took : ℤ

module _ (json : Json ColumnValue) (r : QueryRequest) (statement : String) where
  -- The status is sent before the type of several lines is set.
  unfoldable pub answer_formatted :
      TableData ColumnValue
      → Result (String × FormatConfig)
      → Writer (Unit {0})
      → Result (Writer (Unit {0}) × Option Payload)
  unfolding write write_header refuse_with lines_type read_query_metric
  answer_formatted d (ok (formatted_rows, c)) w = ok (
    write (bytes formatted_rows) (lines_type c d (write_header 200 w)),
    read_query_metric r.ip_address statement c r.took,
  )
  answer_formatted d (err e) w = ok (refuse_with 500 (flattened "Error formatting data" e) w, none)
  answer_formatted d (panic p) w = panic p

  unfoldable pub answer_options :
      TableData ColumnValue
      → Result (List (FormatConfig → FormatConfig))
      → Writer (Unit {0})
      → Result (Writer (Unit {0}) × Option Payload)
  unfolding answer_formatted refuse_with format
  answer_options d (ok opts) w = answer_formatted d (format json d opts) w
  answer_options d (err e) w =
      ok (refuse_with 400 (flattened "Error parsing formatting params" e) w, none)
  answer_options d (panic p) w = panic p

  unfoldable pub answer_read :
      ReadAnswer (Unit {0}) → Writer (Unit {0}) → Result (Writer (Unit {0}) × Option Payload)
  unfolding answer_options formatter_options
  answer_read (rows_read d) w = answer_options d (formatter_options r.query) w
  answer_read (refused w') w = ok (w', none)
  answer_read (read_panic p) w = panic p

-- GetTableQuery; `run` is RunReadQuery.
unfoldable pub get_table_query :
    Json ColumnValue
    → (String → Result (TableData ColumnValue))
    → QueryRequest
    → Writer (Unit {0})
    → Result (Writer (Unit {0}) × Option Payload)
unfolding answer_read run_read_request set_content_type either
get_table_query json run r w =
    let statement = either r.query "s" "statement" in
    let w' = set_content_type "application/json" w in
    answer_read json r statement (run_read_request (run statement) w') w'
