-- ===== src/Api/Answered.antt =====
-- About GetTableQuery of internal/router/controllers/controller.go with the store and the formatter.
use go_tableland.Prelude.{
  ℕ, String, ◌≡◌, refl, ◌≢◌, ◌⊎◌, inl, inr, Bool, true, false, ◌&&◌, Option, none, some, List, [],
  ◌∷◌, arith, ltb, if◌then◌else◌, length,
}
use go_tableland.Errors.{GoError, text, Result, ok, err, panic}
use go_tableland.Formatter.{FormatConfig, TableData, Json, format}
use go_tableland.UserStore.{ColumnValue, UserStore}
use go_tableland.Parsing.{Node}
use go_tableland.Parsing.Validator.{QueryValidator}
use go_tableland.Telemetry.Payloads.{Payload}
use go_tableland.Api.{
  Body, service_error, bytes, Writer, new_writer, set_content_type, write_header, write,
  refuse_with,
}
use go_tableland.Api.Params.{either, formatter_options}
use go_tableland.Api.Query.{
  run_read_query, read_query_metric, run_read_request, lines_type, QueryRequest, answer_formatted,
  answer_options, answer_read, get_table_query,
}
use go_tableland.Api.Rectangular.{NoPanic, run_read_query-Rectangular}
use go_tableland.Api.Formatted.{Returns, format-NoPanic}
use go_tableland.Api.Options.{formatter_options-NoPanic}

-- The statement of a request.
abbrev pub statement_of : QueryRequest → String
statement_of r = either r.query "s" "statement"

-- A status and one body, as JSON.
abbrev pub Sends : ℕ → Body (Unit {0}) → Writer (Unit {0}) → Type 0
Sends n b w = (w.sent ≡ some (n, some "application/json")) × (w.superfluous ≡ 0) × (w.body ≡ b ∷ [])

-- An answer with the rows that were read, and its metric.
abbrev pub Served :
    Json ColumnValue
    → (String → Result (TableData ColumnValue))
    → QueryRequest
    → Writer (Unit {0})
    → Option Payload
    → Type 0
Served json run r w metric =
    (d : TableData ColumnValue) × (opts : List (FormatConfig → FormatConfig)) × (s : String)
    × (c : FormatConfig) × (run (statement_of r) ≡ ok d)
    × (d.rows ≢ [])
    × (formatter_options r.query ≡ ok opts)
    × (format json d opts ≡ ok (s, c))
    × Sends 200 (bytes s) w
    × (metric ≡ read_query_metric r.ip_address (statement_of r) c r.took)

-- A refusal, with no metric.
abbrev pub Refused : Writer (Unit {0}) → Option Payload → Type 0
Refused w metric =
    (n : ℕ) × (e : GoError) × Sends n (service_error e) w × (n ≢ 200) × (metric ≡ none)

abbrev json_writer : Writer (Unit {0})
json_writer = record {
  content_type = some "application/json";
  sent = none;
  superfluous = 0;
  body = [];
}

refuse_with-Sends : (n : ℕ) (e : GoError) → Sends n (service_error e) (refuse_with n e json_writer)
unfolding refuse_with write_header write
refuse_with-Sends n e = (refl, refl, refl)

rows-Sends :
    (b : Bool) (s : String)
    → Sends 200 (bytes s) (
        write (bytes s) (
          if b
          then set_content_type "application/jsonl+json" (write_header 200 json_writer)
          else write_header 200 json_writer))
unfolding write_header write set_content_type
rows-Sends true s = (refl, refl, refl)
rows-Sends false s = (refl, refl, refl)

module _ (json : Json ColumnValue) (run : String → Result (TableData ColumnValue))
    (r : QueryRequest) where
  abbrev Answers : Result (Writer (Unit {0}) × Option Payload) → Type 0
  Answers x =
      (w : Writer (Unit {0})) × (metric : Option Payload) × (x ≡ ok (w, metric))
      × (Served json run r w metric ⊎ Refused w metric)

  refuse_with-Answers :
      (n : ℕ) (e : GoError) → n ≢ 200 → Answers (ok (refuse_with n e json_writer, none))
  refuse_with-Answers n e h =
      (refuse_with n e json_writer, none, refl, inr (n, e, refuse_with-Sends n e, h, refl))

  answer_formatted-Answers :
      (d : TableData ColumnValue) (opts : List (FormatConfig → FormatConfig))
      (res : Result (String × FormatConfig))
      → run (statement_of r) ≡ ok d
      → d.rows ≢ []
      → formatter_options r.query ≡ ok opts
      → format json d opts ≡ res
      → NoPanic res
      → Answers (answer_formatted json r (statement_of r) d res json_writer)
  unfolding answer_formatted lines_type
  answer_formatted-Answers d opts (ok (s, c)) e ne o f q = (
    _,
    _,
    refl,
    inl (d, opts, s, c, e, ne, o, f, rows-Sends (c.unwrap_rows && ltb 1 (length d.rows)) s, refl),
  )
  answer_formatted-Answers d opts (err x) e ne o f q =
      refuse_with-Answers 500 _ (λ h. omega (arith, h))
  answer_formatted-Answers d opts (panic p) e ne o f q = absurd (q p refl)

  answer_options-Answers :
      (d : TableData ColumnValue) (opts : Result (List (FormatConfig → FormatConfig)))
      → run (statement_of r) ≡ ok d
      → d.rows ≢ []
      → formatter_options r.query ≡ opts
      → ((os : List (FormatConfig → FormatConfig)) → NoPanic (format json d os))
      → Answers (answer_options json r (statement_of r) d opts json_writer)
  unfolding answer_options
  answer_options-Answers d (ok opts) e ne o q =
      answer_formatted-Answers d opts (format json d opts) e ne o refl (q opts)
  answer_options-Answers d (err x) e ne o q = refuse_with-Answers 400 _ (λ h. omega (arith, h))
  answer_options-Answers d (panic p) e ne o q = absurd (formatter_options-NoPanic r.query p o)

  answer_read-Answers :
      (res : Result (TableData ColumnValue))
      → run (statement_of r) ≡ res
      → NoPanic res
      → ((d : TableData ColumnValue)
          → run (statement_of r) ≡ ok d
          → (os : List (FormatConfig → FormatConfig)) → NoPanic (format json d os))
      → Answers (answer_read json r (statement_of r) (run_read_request res json_writer) json_writer)
  unfolding answer_read run_read_request
  answer_read-Answers (ok d) e q f = rows d.rows refl
    where
      rows :
          (rs : List (List ColumnValue))
          → d.rows ≡ rs
          → Answers (
              answer_read json r (statement_of r) (run_read_request (ok d) json_writer) json_writer)
      rows [] g =
          rw (g, run_read_request)
            (refuse_with-Answers 404 (text "Row not found") (λ h. omega (arith, h)))
      rows (x ∷ rs) g =
          rw (g, run_read_request)
            (answer_options-Answers d (formatter_options r.query) e (λ h. cc) refl (f d e))
  answer_read-Answers (err x) e q f = refuse_with-Answers 400 x (λ h. omega (arith, h))
  answer_read-Answers (panic p) e q f = absurd (q p refl)

-- If encoding/json returns and running the read query does not panic, GetTableQuery answers, with
-- one status and one body of type application/json, and one of two things holds: the status is
-- 200, the query read at least one row, the parameters are valid, the body is the formatted rows,
-- and the metric of the request is what CollectReadQueryMetric makes of them; or the status is
-- another one, the body is a ServiceError and there is no metric.
pub get_table_query-answers :
    (json : Json ColumnValue) (parser : QueryValidator) (store : UserStore Node) (r : QueryRequest)
    → Returns json
    → NoPanic (run_read_query parser store (statement_of r))
    → (w : Writer (Unit {0})) × (metric : Option Payload) × (get_table_query json
          (run_read_query parser store)
          r
          new_writer
        ≡ ok (w, metric))
      × (Served json (run_read_query parser store) r w metric ⊎ Refused w metric)
unfolding get_table_query set_content_type
get_table_query-answers json parser store r quiet q =
    answer_read-Answers json (run_read_query parser store) r
      (run_read_query parser store (statement_of r)) refl q
      λ d e opts.
        format-NoPanic json quiet d opts
          (run_read_query-Rectangular parser store (statement_of r) d e)
