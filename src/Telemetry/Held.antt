-- ===== src/Telemetry/Held.antt =====
-- About the steps of publish (pkg/telemetry/publisher/publisher.go) and the metrics that are held or delivered.
use mathlib.Core.List.{Memᴰ}
use go_tableland.Prelude.{
  ℤ, ◌-ℤ◌, ℕ, String, ◌≡◌, refl, sym, ap, subst, ◌⊎◌, inl, inr, List, ◌∷◌, arith, ◌==◌, Bool-cases,
  All,
}
use go_tableland.Errors.{Result, ok, err, panic}
use go_tableland.Telemetry.Payloads.{Metric}
use go_tableland.Telemetry.{
  MetricRow, PayloadJson, decode_row, has_id, mark_as_published, delete_published_older_than,
}
use go_tableland.Telemetry.Publisher.{
  World, HttpExporter, arrive, statement, check_status, send_request, row_ids, seven_days,
}
use go_tableland.Telemetry.Rows.{
  Distinct, Held, arrive-Extends, update_published-Distinct, update_published-mem,
  delete_old_rows-Distinct, delete_old_rows-mem,
}
use go_tableland.Telemetry.Batches.{FromRow, FromRow-later, row_ids-FromRow}

-- An endpoint forgets nothing, and has a body that it answers with 200.
abbrev pub Reliable : HttpExporter → Type 0
Reliable x =
    ((b c : String) (received : List String) → Memᴰ c received → Memᴰ c (x.post b received).1)
    × ((b : String) (received : List String)
        → (x.post b received).0 ≡ ok 200
        → Memᴰ b (x.post b received).1)

module _ (json : PayloadJson) (x : HttpExporter) (node : String) where
  -- A row whose metric is in a batch that the endpoint has.
  abbrev pub Delivered : MetricRow → World → Type 0
  Delivered r w =
      (m : Metric) × (decode_row json r ≡ ok m)
      × ((ms : List Metric) × Memᴰ m ms × Memᴰ (x.body node ms) w.received)

  -- Rowids stay distinct, the endpoint forgets nothing, and a row that is not published stays
  -- unless its metric is delivered.
  abbrev pub Keeps : World → World → Type 0
  Keeps w w' =
      Distinct w.rows
      → Distinct w'.rows
        × ((b : String) → Memᴰ b w.received → Memᴰ b w'.received)
        × ((r : MetricRow) → Held r w.rows → Held r w'.rows ⊎ Delivered r w')

  pub Keeps-refl : (w : World) → Keeps w w
  Keeps-refl w d = (d, (λ b i. i), λ r h. inl h)

  pub Keeps-trans : (u v w : World) → Keeps u v → Keeps v w → Keeps u w
  Keeps-trans u v w f g d =
      let (d1, k1, h1) = f d in
      let (d2, k2, h2) = g d1 in
      (
        d2,
        (λ b i. k2 b (k1 b i)),
        λ r h. elim (h1 r h) [
          | inl held ↦ h2 r held
          | inr (m, e, (ms, i, j)) ↦ inr (m, e, (ms, i, k2 _ j))
        ],
      )

  arrive-Keeps : (w : World) → Keeps w (arrive json w)
  arrive-Keeps w d =
      let ((sub, dist), same) = arrive-Extends json w in
      (dist d, (λ b i. subst (Memᴰ b) (sym same) i), λ r (i, f). inl (sub r i, f))

  -- Writing the rows of what arrived.
  pub statement-Keeps :
      {A : Type 0} (f : List MetricRow → Result A × List MetricRow) (w : World)
      → Keeps (arrive json w) (record (arrive json w) { rows = (f (arrive json w).rows).1 })
      → Keeps w (statement json f w).1
  unfolding statement
  statement-Keeps f w k =
      let a : World = arrive json w in
      Keeps-trans w a (record a { rows = (f a.rows).1 }) (arrive-Keeps w) k

  pub delete-Keeps :
      (now : ℤ) (w : World)
      → Keeps w (statement json (delete_published_older_than now seven_days) w).1
  unfolding delete_published_older_than
  delete-Keeps now w = statement-Keeps (delete_published_older_than now seven_days) w λ d. (
    delete_old_rows-Distinct (now -ℤ seven_days) (arrive json w).rows d,
    (λ b i. i),
    λ r (i, f). inl (delete_old_rows-mem (now -ℤ seven_days) (arrive json w).rows r i f, f),
  )

  pub mark-Keeps :
      (m : Metric) (ms : List Metric) (w : World)
      → All (FromRow json w.rows) (m ∷ ms)
      → Memᴰ (x.body node (m ∷ ms)) w.received
      → Keeps w (statement json (mark_as_published (row_ids (m ∷ ms))) w).1
  unfolding mark_as_published row_ids
  mark-Keeps m ms w from got = statement-Keeps (mark_as_published (row_ids (m ∷ ms))) w λ d.
      let a : World = arrive json w in
      let ids = row_ids (m ∷ ms) in
      let ((sub, dist), same) = arrive-Extends json w in
      let later = FromRow-later json w.rows a.rows (m ∷ ms) sub from in
      (
        update_published-Distinct ids a.rows d,
        (λ b i. i),
        λ r (i, f). elim (Bool-cases (has_id r.rowid ids)) [
          | inl h ↦
              let (n, j, e) = row_ids-FromRow json a.rows (m ∷ ms) r d later i h in
              inr (n, e, (m ∷ ms, j, subst (Memᴰ (x.body node (m ∷ ms))) (sym same) got))
          | inr h ↦ inl (update_published-mem ids a.rows r i h, f)
        ],
      )

  pub send_request-Keeps :
      (body : String) (r : Result (Unit {0})) (w : World)
      → Reliable x
      → Keeps w (send_request x body r w).1
  unfolding send_request
  send_request-Keeps body (ok u) w (kept, got) =
      λ d. (d, (λ b i. kept body b w.received i), λ r h. inl h)
  send_request-Keeps body (err e) w rel = Keeps-refl w
  send_request-Keeps body (panic s) w rel = Keeps-refl w

  -- A batch that is sent without an error is at the endpoint; the rows are as they were.
  pub send_request-ok :
      (body : String) (r : Result (Unit {0})) (w : World)
      → Reliable x
      → (send_request x body r w).0 ≡ ok tt
      → Memᴰ body (send_request x body r w).1.received × ((send_request x body r w).1.rows ≡ w.rows)
  unfolding send_request
  send_request-ok body (ok u) w (kept, got) h =
      (got body w.received (status (x.post body w.received).0 h), refl)
    where
      status : (q : Result ℕ) → check_status q ≡ ok tt → q ≡ ok 200
      status (ok n) = elim (Bool-cases (n == 200)) [
        | inl b ↦ rw (b, check_status) (λ h. ap ok (ground (arith, b)))
        | inr b ↦ rw (b, check_status) (λ h. cc)
      ]
      status (err e) = λ h. cc
      status (panic s) = λ h. cc
  send_request-ok body (err e) w rel h = cc
  send_request-ok body (panic s) w rel h = cc
