-- ===== src/Telemetry.antt =====
-- Metrics of pkg/telemetry: their types (metrics.go), how one is collected (telemetry.go) and the table of
-- pkg/telemetry/storage/db.go. encoding/json is a parameter.
pub mod Publisher
pub mod Rows
pub mod Batches
pub mod Held
pub mod Delivered
pub mod Sent
pub mod Payloads
use go_tableland.Prelude.{
  ℤ, pos, ltb_ℤ, ◌-ℤ◌, ℕ, zero, suc, String, Bool, true, false, not, ◌&&◌, ◌||◌, Option, none, some,
  List, [], ◌∷◌, ◌++◌, map, ltb, ◌==◌, if◌then◌else◌, length, any,
}
use go_tableland.Errors.{GoError, text, formatted, flattened, Result, ok, err, panic}
use go_tableland.Steps.{map_error}
use go_tableland.Telemetry.Payloads.{
  MetricType, type_number, Payload, Metric, state_hash_type, git_summary_type,
  chain_stacks_summary_type, read_query_type, new_block_type, new_tableland_event_type, state_hash,
  git_summary, chain_stacks, read_query, new_block, new_tableland_event, unknown,
}

-- A row of system_metrics
pub record MetricRow : Type 0 where
  pub rowid : ℕ
  pub version : ℕ
  pub timestamp : ℤ
  pub type : ℕ
  pub payload : String
  pub published : Bool

pub record PayloadJson : Type 0 where
  pub marshal : Payload → Result String
  pub unmarshal : MetricType → String → Result Payload

-- The switch of Collect
unfoldable pub metric_type : Payload → Result MetricType
metric_type (state_hash m) = ok state_hash_type
metric_type (git_summary m) = ok git_summary_type
metric_type (chain_stacks m) = ok chain_stacks_summary_type
metric_type (read_query m) = ok read_query_type
metric_type (new_block m) = ok new_block_type
metric_type (new_tableland_event m) = ok new_tableland_event_type
metric_type (unknown t) = err (flattened "unknown metric type" (text t))

-- The rowid SQLite gives: above all that are in the table.
unfoldable pub next_rowid : List MetricRow → ℕ
next_rowid [] = 1
next_rowid (r ∷ rs) = let n = next_rowid rs in if ltb r.rowid n then n else suc r.rowid

-- The cases of FetchMetrics' switch.
unfoldable pub type_of_number : ℕ → Result MetricType
type_of_number n =
    if n == 0
    then ok state_hash_type
    else if n == 1
    then ok git_summary_type
    else if n == 2
    then ok chain_stacks_summary_type
    else if n == 3
    then ok read_query_type
    else if n == 4
    then ok new_block_type
    else if n == 5
    then ok new_tableland_event_type
    else err (formatted "unknown metric type: %d" (n ∷ []))

unfoldable pub rows_published : Bool → List MetricRow → List MetricRow
rows_published b [] = []
rows_published b (r ∷ rs) =
    let rest = rows_published b rs in if same r.published b then r ∷ rest else rest
  where
    same : Bool → Bool → Bool
    same true c = c
    same false c = not c

unfoldable pub limit : ℕ → List MetricRow → List MetricRow
limit zero rs = []
limit (suc n) [] = []
limit (suc n) (r ∷ rs) = r ∷ limit n rs

-- The rows that rows.Next gives: all, or those before a step that fails.
unfoldable pub stepped : Option ℕ → List MetricRow → List MetricRow
unfolding limit
stepped none rows = rows
stepped (some n) rows = limit n rows

module _ (json : PayloadJson) where
  -- The outcome of the statement that inserts a row.
  unfoldable pub insert_metric_row :
      Option GoError → Metric → String → List MetricRow → Result (Unit {0}) × List MetricRow
  unfolding next_rowid type_number
  insert_metric_row (some e) m payload rows = (err (flattened "insert into system_metrics" e), rows)
  insert_metric_row none m payload rows = (
    ok tt,
    rows
        ++ (record {
          rowid = next_rowid rows;
          version = m.version;
          timestamp = m.timestamp;
          type = type_number m.type;
          payload = payload;
          published = false;
        }
            ∷ []),
  )

  unfoldable pub insert_metric :
      Option GoError → Metric → Result String → List MetricRow → Result (Unit {0}) × List MetricRow
  unfolding insert_metric_row
  insert_metric fault m (err e) rows =
      (err (flattened "marshal json" (flattened "marshal" e)), rows)
  insert_metric fault m (panic s) rows = (panic s, rows)
  insert_metric fault m (ok payload) rows = insert_metric_row fault m payload rows

  unfoldable pub store_metric :
      Option GoError → Metric → List MetricRow → Result (Unit {0}) × List MetricRow
  unfolding insert_metric
  store_metric fault m rows = insert_metric fault m (json.marshal m.payload) rows

  unfoldable pub collect_typed :
      Option GoError
      → Result MetricType
      → ℤ
      → Payload
      → List MetricRow
      → Result (Unit {0}) × List MetricRow
  unfolding store_metric
  collect_typed fault (err e) now p rows = (err e, rows)
  collect_typed fault (panic s) now p rows = (panic s, rows)
  collect_typed fault (ok t) now p rows =
      let (r, rows') =
        store_metric fault
          (record { row_id = 0; version = 1; timestamp = now; type = t; payload = p }) rows in
      (map_error (flattened "store metric") r, rows')

  -- Collect, whether or not a store is set.
  unfoldable pub collect :
      Option GoError → Bool → ℤ → Payload → List MetricRow → Result (Unit {0}) × List MetricRow
  unfolding collect_typed metric_type
  collect fault false now p rows = (ok tt, rows)
  collect fault true now p rows = collect_typed fault (metric_type p) now p rows

  unfoldable pub decode_payload : MetricRow → MetricType → Result Payload → Result Metric
  decode_payload r t (ok p) = ok (record {
    row_id = r.rowid;
    version = r.version;
    timestamp = r.timestamp;
    type = t;
    payload = p;
  })
  decode_payload r t (err e) = err (flattened "scan rows of system metrics" e)
  decode_payload r t (panic s) = panic s

  unfoldable pub decode_typed : MetricRow → Result MetricType → Result Metric
  unfolding decode_payload
  decode_typed r (ok t) = decode_payload r t (json.unmarshal t r.payload)
  decode_typed r (err e) = err e
  decode_typed r (panic s) = panic s

  -- The body of FetchMetrics' loop.
  unfoldable pub decode_row : MetricRow → Result Metric
  unfolding decode_typed type_of_number
  decode_row r = decode_typed r (type_of_number r.type)

  unfoldable pub decode_cons : Result Metric → Result (List Metric) → Result (List Metric)
  decode_cons (ok m) (ok ms) = ok (m ∷ ms)
  decode_cons (ok m) (err e) = err e
  decode_cons (ok m) (panic s) = panic s
  decode_cons (err e) rest = err e
  decode_cons (panic s) rest = panic s

  unfoldable pub decode_rows : List MetricRow → Result (List Metric)
  unfolding decode_row decode_cons
  decode_rows [] = ok []
  decode_rows (r ∷ rs) = decode_cons (decode_row r) (decode_rows rs)

  -- `order` is ORDER BY timestamp. Where stepping through the rows fails, rows.Next says no and the
  -- loop ends as after the last row: rows.Err is not asked.
  unfoldable pub fetch_metrics :
      (List MetricRow → List MetricRow)
      → Bool
      → ℕ
      → Option ℕ
      → List MetricRow
      → Result (List Metric)
  unfolding decode_rows rows_published limit stepped
  fetch_metrics order b amount stop rows =
      decode_rows (stepped stop (limit amount (order (rows_published b rows))))

unfoldable pub has_id : ℕ → List ℕ → Bool
has_id n [] = false
has_id n (i ∷ is) = n == i || has_id n is

unfoldable pub update_published : List ℕ → List MetricRow → List MetricRow
unfolding has_id
update_published ids [] = []
update_published ids (r ∷ rs) =
    let rest = update_published ids rs in
    if has_id r.rowid ids then record r { published = true } ∷ rest else r ∷ rest

unfoldable pub rows_affected : List ℕ → List MetricRow → ℕ
unfolding has_id
rows_affected ids [] = 0
rows_affected ids (r ∷ rs) = let n = rows_affected ids rs in if has_id r.rowid ids then suc n else n

unfoldable pub mark_as_published : List ℕ → List MetricRow → Result (Unit {0}) × List MetricRow
unfolding update_published rows_affected
mark_as_published [] rows = (err (text "rowids cannot be empty"), rows)
mark_as_published (i ∷ is) rows =
    let n = rows_affected (i ∷ is) rows in
    (
      (if n == length (i ∷ is)
          then ok tt
          else err (
              formatted "rows affected %d, differs from rowids length %d"
                (n ∷ length (i ∷ is) ∷ []))),
      update_published (i ∷ is) rows,
    )

unfoldable pub delete_old_rows : ℤ → List MetricRow → List MetricRow
delete_old_rows threshold [] = []
delete_old_rows threshold (r ∷ rs) =
    let rest = delete_old_rows threshold rs in
    if ltb_ℤ r.timestamp threshold && r.published then rest else r ∷ rest

unfoldable pub delete_published_older_than :
    ℤ → ℤ → List MetricRow → Result (Unit {0}) × List MetricRow
unfolding delete_old_rows
delete_published_older_than now duration rows =
    if ltb_ℤ duration (pos 0)
    then (ok tt, rows)
    else (ok tt, delete_old_rows (now -ℤ duration) rows)
