-- ===== src/Telemetry/Delivered.antt =====
-- About publish and Start of pkg/telemetry/publisher/publisher.go.
use mathlib.Core.List.{Memᴰ}
use go_tableland.Prelude.{ℤ, ℕ, String, ◌≡◌, sym, ap, ◌∙◌, subst, false, Option, List, [], ◌∷◌, All}
use go_tableland.Errors.{GoError, flattened, Result, ok, err, panic}
use go_tableland.Steps.{Calls, Run, on_error, ◌>>=◌, call, bind-Kept, call-Kept, call-ok}
use go_tableland.Telemetry.Payloads.{Metric}
use go_tableland.Telemetry.{
  MetricRow, PayloadJson, fetch_metrics, mark_as_published, delete_published_older_than,
}
use go_tableland.Telemetry.Publisher.{
  World, Tick, HttpExporter, arrive, statement, export, Publisher, row_ids, after_tick, seven_days,
  publish_metrics, publish, run_publisher,
}
use go_tableland.Telemetry.Batches.{
  Reorders, mem-limit, mem-stepped, mem-rows_published, FromRow, decode_rows-FromRow,
}
use go_tableland.Telemetry.Held.{
  Reliable, Keeps, Keeps-refl, Keeps-trans, statement-Keeps, delete-Keeps, mark-Keeps,
  send_request-Keeps, send_request-ok,
}

module _ (json : PayloadJson) (order : List MetricRow → List MetricRow) (fault : ℕ → Option GoError)
    (p : Publisher) where
  publish_metrics-Keeps :
      (now : ℤ) (ms : List Metric) (w : Calls World)
      → Reliable p.exporter
      → All (FromRow json w.state.rows) ms
      → Keeps json p.exporter p.node_id w.state
          (publish_metrics json order fault p now ms w).1.state
  unfolding publish_metrics export
  publish_metrics-Keeps now [] w rel from = Keeps-refl json p.exporter p.node_id w.state
  publish_metrics-Keeps now (m ∷ ms) w rel from =
      bind-Kept K trans sends (λ u. marks >>= λ u'. deletes) w
        (call-Kept K fault (flattened "export metrics") (export x node (m ∷ ms)) w (same w.state)
          (send_request-Keeps json x node body (x.new_request body) w.state rel))
        λ u e.
          let (sent, at) =
            call-ok fault (flattened "export metrics") (export x node (m ∷ ms)) w u e in
          let (got, rows) =
            send_request-ok json x node body (x.new_request body) w.state rel sent in
          let w1 = (sends w).1 in
          bind-Kept K trans marks (λ u'. deletes) w1
            (call-Kept K fault (flattened "mark as published")
              (statement json (mark_as_published (row_ids (m ∷ ms)))) w1 (same w1.state)
              (mark-Keeps json x node m ms w1.state
                (subst (λ rs. All (FromRow json rs) (m ∷ ms))
                  (sym (ap (λ (s : World). s.rows) at ∙ rows)) from)
                (subst (Memᴰ body) (sym (ap (λ (s : World). s.received) at)) got)))
            λ u' e'.
              call-Kept K fault (flattened "delete older than")
                (statement json (delete_published_older_than now seven_days)) (marks w1).1
                (same (marks w1).1.state) (delete-Keeps json x node now (marks w1).1.state)
    where
      x : HttpExporter
      x = p.exporter

      node : String
      node = p.node_id

      body : String
      body = x.body node (m ∷ ms)

      K : World → World → Type 0
      K = Keeps json x node

      same : (s : World) → K s s
      same = Keeps-refl json x node

      trans : (s t u : World) → K s t → K t u → K s u
      trans = Keeps-trans json x node

      sends : Run World (Unit {0})
      sends = on_error (flattened "export metrics") (call fault (export x node (m ∷ ms)))

      marks : Run World (Unit {0})
      marks =
          on_error (flattened "mark as published")
            (call fault (statement json (mark_as_published (row_ids (m ∷ ms)))))

      deletes : Run World (Unit {0})
      deletes =
          on_error (flattened "delete older than")
            (call fault (statement json (delete_published_older_than now seven_days)))

  -- What publish fetches first.
  fetched : Option ℕ → World → Result (List Metric) × World
  unfolding statement
  fetched stop =
      statement json (λ rows. (fetch_metrics json order false p.fetch_amount stop rows, rows))

  fetched-Keeps :
      (stop : Option ℕ) (w : World) → Keeps json p.exporter p.node_id w (fetched stop w).1
  unfolding fetched
  fetched-Keeps stop w =
      statement-Keeps json p.exporter p.node_id
        (λ rows. (fetch_metrics json order false p.fetch_amount stop rows, rows)) w
        (Keeps-refl json p.exporter p.node_id (arrive json w))

  fetched-FromRow :
      (stop : Option ℕ) (w : World) (ms : List Metric)
      → Reorders order
      → (fetched stop w).0 ≡ ok ms
      → All (FromRow json (fetched stop w).1.rows) ms
  unfolding fetched statement fetch_metrics
  fetched-FromRow stop w ms perm e =
      let rows = (arrive json w).rows in
      decode_rows-FromRow json rows _ ms
        (λ r i.
          mem-rows_published false rows r
            (perm _ r (mem-limit p.fetch_amount _ r (mem-stepped stop _ r i))))
        e

  publish-Keeps :
      (t : Tick) (w : Calls World)
      → Reliable p.exporter
      → Reorders order
      → Keeps json p.exporter p.node_id w.state (publish json order fault p t w).1.state
  unfolding publish fetched
  publish-Keeps t w rel perm =
      bind-Kept (Keeps json p.exporter p.node_id) (Keeps-trans json p.exporter p.node_id)
        (on_error context (call fault (fetched t.stop))) (publish_metrics json order fault p t.now)
        w
        (call-Kept (Keeps json p.exporter p.node_id) fault context (fetched t.stop) w
          (Keeps-refl json p.exporter p.node_id w.state) (fetched-Keeps t.stop w.state))
        λ ms e.
          let (got, at) = call-ok fault context (fetched t.stop) w ms e in
          publish_metrics-Keeps t.now ms (on_error context (call fault (fetched t.stop)) w).1 rel (
            subst (λ (s : World). All (FromRow json s.rows) ms) (sym at)
              (fetched-FromRow t.stop w.state ms perm got))
    where
      context : GoError → GoError
      context = flattened "fetch unpublished metrics"

  after_tick-Keeps :
      (r : Result (Unit {0})) (w last w' : Calls World)
      → Keeps json p.exporter p.node_id w.state w'.state
      → Keeps json p.exporter p.node_id w'.state last.state
      → Keeps json p.exporter p.node_id w.state (after_tick r w' last).state
  unfolding after_tick
  after_tick-Keeps (ok u) w last w' =
      Keeps-trans json p.exporter p.node_id w.state w'.state last.state
  after_tick-Keeps (err e) w last w' =
      Keeps-trans json p.exporter p.node_id w.state w'.state last.state
  after_tick-Keeps (panic s) w last w' = λ k l. k

  -- If the endpoint keeps what it received and has every body that it answers with 200, and the
  -- ordering of rows gives rows of the table, then over any ticks of the publisher, with any
  -- failing calls, any failing steps through the fetched rows and whatever other goroutines
  -- collect meanwhile, from a table of distinct rowids: the rowids stay distinct, the endpoint
  -- loses no body, and every row that was not published is still in the table and not published,
  -- or its metric is in a batch that the endpoint has.
  pub run_publisher-Keeps :
      (ticks : List Tick) (w : Calls World)
      → Reliable p.exporter
      → Reorders order
      → Keeps json p.exporter p.node_id w.state (run_publisher json order fault p ticks w).state
  unfolding run_publisher
  run_publisher-Keeps [] w rel perm = Keeps-refl json p.exporter p.node_id w.state
  run_publisher-Keeps (t ∷ ticks) w rel perm =
      let w' = (publish json order fault p t w).1 in
      after_tick-Keeps (publish json order fault p t w).0 w
        (run_publisher json order fault p ticks w') w' (publish-Keeps t w rel perm)
        (run_publisher-Keeps ticks w' rel perm)
