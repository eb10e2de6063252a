-- ===== src/Telemetry/Sent.antt =====
-- About what publish of pkg/telemetry/publisher/publisher.go has sent where it returns no error.
use mathlib.Core.List.{Memᴰ}
use mathlib.Core.List.Memᴰ
use go_tableland.Prelude.{ℤ, ℕ, String, ◌≡◌, sym, ap, ◌∙◌, subst, false, Option, List, [], ◌∷◌}
use go_tableland.Errors.{GoError, flattened, Result, ok}
use go_tableland.Steps.{Calls, Run, on_error, ◌>>=◌, call, bind-ok, bind-Kept, call-Kept, call-ok}
use go_tableland.Telemetry.Payloads.{Metric}
use go_tableland.Telemetry.{
  MetricRow, PayloadJson, rows_published, limit, stepped, fetch_metrics, mark_as_published,
  delete_published_older_than,
}
use go_tableland.Telemetry.Publisher.{
  World, Tick, arrive, statement, export, Publisher, row_ids, seven_days, publish_metrics, publish,
}
use go_tableland.Telemetry.Rows.{arrive-Extends}
use go_tableland.Telemetry.Batches.{decode_rows-mem}
use go_tableland.Telemetry.Held.{Reliable, Delivered, send_request-ok}

abbrev Grows : World → World → Type 0
Grows v w = (b : String) → Memᴰ b v.received → Memᴰ b w.received

Grows-trans : (u v w : World) → Grows u v → Grows v w → Grows u w
Grows-trans u v w f g b i = g b (f b i)

statement-Grows :
    (json : PayloadJson) {A : Type 0} (f : List MetricRow → Result A × List MetricRow) (w : World)
    → Grows w (statement json f w).1
unfolding statement
statement-Grows json f w b i = subst (Memᴰ b) (sym (arrive-Extends json w).1) i

module _ (json : PayloadJson) (order : List MetricRow → List MetricRow) (fault : ℕ → Option GoError)
    (p : Publisher) where
  publish_metrics-ok :
      (now : ℤ) (m : Metric) (ms : List Metric) (w : Calls World)
      → Reliable p.exporter
      → (publish_metrics json order fault p now (m ∷ ms) w).0 ≡ ok tt
      → Memᴰ
          (p.exporter.body p.node_id (m ∷ ms))
          (publish_metrics json order fault p now (m ∷ ms) w).1.state.received
  unfolding publish_metrics export
  publish_metrics-ok now m ms w rel h =
      let (u, e, at) = bind-ok sends (λ u. marks >>= λ u'. deletes) w tt h in
      let (sent, at1) =
        call-ok fault (flattened "export metrics") (export p.exporter p.node_id (m ∷ ms)) w u e in
      let (got, rows) =
        send_request-ok json p.exporter p.node_id body (p.exporter.new_request body) w.state rel
          sent in
      let w1 = (sends w).1 in
      subst (λ (r : Result (Unit {0}) × Calls World). Memᴰ body r.1.state.received) (sym at)
        (bind-Kept Grows Grows-trans marks (λ u'. deletes) w1
          (call-Kept Grows fault (flattened "mark as published")
            (statement json (mark_as_published (row_ids (m ∷ ms)))) w1 (λ b i. i)
            (statement-Grows json (mark_as_published (row_ids (m ∷ ms))) w1.state))
          (λ u' e'.
            call-Kept Grows fault (flattened "delete older than")
              (statement json (delete_published_older_than now seven_days)) (marks w1).1 (λ b i. i)
              (statement-Grows json (delete_published_older_than now seven_days)
                (marks w1).1.state))
          body (subst (Memᴰ body) (sym (ap (λ (s : World). s.received) at1)) got))
    where
      body : String
      body = p.exporter.body p.node_id (m ∷ ms)

      sends : Run World (Unit {0})
      sends =
          on_error (flattened "export metrics") (call fault (export p.exporter p.node_id (m ∷ ms)))

      marks : Run World (Unit {0})
      marks =
          on_error (flattened "mark as published")
            (call fault (statement json (mark_as_published (row_ids (m ∷ ms)))))

      deletes : Run World (Unit {0})
      deletes =
          on_error (flattened "delete older than")
            (call fault (statement json (delete_published_older_than now seven_days)))

  -- The rows that publish takes: the first of those that are not published, after what arrived, up
  -- to a step that fails.
  abbrev pub batch : Option ℕ → World → List MetricRow
  batch stop w =
      stepped stop (limit p.fetch_amount (order (rows_published false (arrive json w).rows)))

  -- If the endpoint keeps what it received and has every body that it answers with 200, and
  -- publish returns without an error, then every row among the first unpublished ones, as many as
  -- the publisher fetches, after what other goroutines collected before the statement, is
  -- delivered: it decodes to a metric of a batch that the endpoint has. Where a step through the
  -- rows fails, that holds of the rows before it only, though publish returns without an error.
  pub publish-ok :
      (t : Tick) (w : Calls World) (r : MetricRow)
      → Reliable p.exporter
      → (publish json order fault p t w).0 ≡ ok tt
      → Memᴰ r (batch t.stop w.state)
      → Delivered json p.exporter p.node_id r (publish json order fault p t w).1.state
  unfolding publish statement fetch_metrics
  publish-ok t w r rel h i =
      let (ms, e, at) = bind-ok fetches (publish_metrics json order fault p t.now) w tt h in
      let (got, at1) = call-ok fault (flattened "fetch unpublished metrics") first w ms e in
      let (m, j, decoded) = decode_rows-mem json (batch t.stop w.state) ms r got i in
      subst
        (λ (q : Result (Unit {0}) × Calls World). Delivered json p.exporter p.node_id r q.1.state)
        (sym at)
        (
          m,
          decoded,
          (ms, j, sent m ms j (ap (λ (q : Result (Unit {0}) × Calls World). q.0) (sym at) ∙ h)),
        )
    where
      first : World → Result (List Metric) × World
      first =
          statement json (λ rows. (fetch_metrics json order false p.fetch_amount t.stop rows, rows))

      fetches : Run World (List Metric)
      fetches = on_error (flattened "fetch unpublished metrics") (call fault first)

      sent :
          (m : Metric) (ms : List Metric)
          → Memᴰ m ms
          → (publish_metrics json order fault p t.now ms (fetches w).1).0 ≡ ok tt
          → Memᴰ
              (p.exporter.body p.node_id ms)
              (publish_metrics json order fault p t.now ms (fetches w).1).1.state.received
      sent m [] j h = absurd (Memᴰ.not-nil j)
      sent m (n ∷ ms) j h = publish_metrics-ok t.now n ms (fetches w).1 rel h
