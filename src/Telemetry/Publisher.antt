-- ===== src/Telemetry/Publisher.antt =====
-- The publisher of pkg/telemetry/publisher: publisher.go and the exporter of exporters.go. Other goroutines
-- collect metrics between its calls. The HTTP client is a parameter.
use go_tableland.Prelude.{
  ℤ, pos, ℕ, String, true, false, Option, List, [], ◌∷◌, ◌==◌, if◌then◌else◌,
}
use go_tableland.Errors.{GoError, formatted, flattened, Result, ok, err, panic}
use go_tableland.Steps.{Calls, Run, pure, on_error, ◌>>=◌, ◌>>◌, call}
use go_tableland.Telemetry.Payloads.{Payload, Metric}
use go_tableland.Telemetry.{
  MetricRow, PayloadJson, collect, fetch_metrics, mark_as_published, delete_published_older_than,
}

-- What another goroutine collects, and the fault of its statement.
pub record Arrival : Type 0 where
  pub now : ℤ
  pub payload : Payload
  pub fault : Option GoError

-- The table; the bodies that the endpoint has received; and what other goroutines collect before each
-- of the next statements.
pub record World : Type 0 where
  pub rows : List MetricRow
  pub received : List String
  pub arrivals : List (List Arrival)

-- `post` is client.Do, which may change what the endpoint has received, and `body` is json.Marshal.
pub record HttpExporter : Type 0 where
  pub body : String → List Metric → String
  pub new_request : String → Result (Unit {0})
  pub post : String → List String → Result ℕ × List String

module _ (json : PayloadJson) where
  unfoldable pub collect_all : List Arrival → List MetricRow → List MetricRow
  unfolding collect
  collect_all [] rows = rows
  collect_all (a ∷ others) rows =
      collect_all others (collect json a.fault true a.now a.payload rows).1

  unfoldable pub arrive : World → World
  unfolding collect_all
  arrive w = elim w.arrivals [
    | [] ↦ w
    | ps ∷ rest ↦ record w { rows = collect_all ps w.rows; arrivals = rest }
  ]

  -- A statement on the table, after what others collected.
  unfoldable pub statement :
      {A : Type 0} → (List MetricRow → Result A × List MetricRow) → World → Result A × World
  unfolding arrive
  statement f w = let w' = arrive w in let (r, rows) = f w'.rows in (r, record w' { rows = rows })

unfoldable pub check_status : Result ℕ → Result (Unit {0})
check_status (ok n) = if n == 200 then ok tt else err (formatted "status code: %d" (n ∷ []))
check_status (err e) = err (flattened "posting metrics" e)
check_status (panic s) = panic s

-- Export, once the request is built.
unfoldable pub send_request :
    HttpExporter → String → Result (Unit {0}) → World → Result (Unit {0}) × World
unfolding check_status
send_request x body (ok u) w =
    let (r, received) = x.post body w.received in (check_status r, record w { received = received })
send_request x body (err e) w = (err (flattened "creating request" e), w)
send_request x body (panic s) w = (panic s, w)

unfoldable pub export : HttpExporter → String → List Metric → World → Result (Unit {0}) × World
unfolding send_request
export x node ms = send_request x (x.body node ms) (x.new_request (x.body node ms))

-- NewPublisher
pub record Publisher : Type 0 where
  pub exporter : HttpExporter
  pub node_id : String
  pub fetch_amount : ℕ

unfoldable pub new_publisher : HttpExporter → String → Publisher
new_publisher x node = record { exporter = x; node_id = node; fetch_amount = 100 }

unfoldable pub row_ids : List Metric → List ℕ
row_ids [] = []
row_ids (m ∷ ms) = m.row_id ∷ row_ids ms

unfoldable pub after_tick : Result (Unit {0}) → Calls World → Calls World → Calls World
after_tick (ok u) w rest = rest
after_tick (err e) w rest = rest
after_tick (panic s) w rest = w

-- A tick: its time, and after how many rows stepping through what is fetched fails, if it does.
pub record Tick : Type 0 where
  pub now : ℤ
  pub stop : Option ℕ

-- In milliseconds.
abbrev pub seven_days : ℤ
seven_days = pos 604800000

module _ (json : PayloadJson) (order : List MetricRow → List MetricRow) (fault : ℕ → Option GoError)
    (p : Publisher) where
  -- What publish does with the metrics it fetched.
  unfoldable pub publish_metrics : ℤ → List Metric → Run World (Unit {0})
  unfolding statement export row_ids mark_as_published delete_published_older_than on_error call
      pure
  publish_metrics now [] = pure tt
  publish_metrics now (m ∷ ms) = do
    on_error (flattened "export metrics") (call fault (export p.exporter p.node_id (m ∷ ms)))
    on_error (flattened "mark as published")
        (call fault (statement json (mark_as_published (row_ids (m ∷ ms)))))
    on_error (flattened "delete older than")
        (call fault (statement json (delete_published_older_than now seven_days)))

  unfoldable pub publish : Tick → Run World (Unit {0})
  unfolding publish_metrics statement fetch_metrics on_error call
  publish t = do
    ms ← on_error (flattened "fetch unpublished metrics") (
        call fault (
          statement json
            (λ rows. (fetch_metrics json order false p.fetch_amount t.stop rows, rows))))
    publish_metrics t.now ms

  -- The loop of Start, at the times of its ticks: an error is logged, a panic ends the process.
  unfoldable pub run_publisher : List Tick → Calls World → Calls World
  unfolding publish after_tick
  run_publisher [] w = w
  run_publisher (t ∷ ticks) w =
      let (r, w') = publish t w in let rest = run_publisher ticks w' in after_tick r w' rest
