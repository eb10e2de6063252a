-- ===== src/Tests/Telemetry.antt =====
-- The properties of the publisher at a table with two metrics, one of which another goroutine collects.
use mathlib.Core.List.{Memᴰ}
use go_tableland.Prelude.{pos, ℕ, ◌≡◌, refl, false, Option, none, some, List, [], ◌∷◌}
use go_tableland.Errors.{GoError, ok}
use go_tableland.Steps.{Calls, pure, lift, on_error, ◌>>=◌, call}
use go_tableland.Telemetry.Payloads.{type_number, Payload, new_block}
use go_tableland.Telemetry.{
  MetricRow, PayloadJson, metric_type, next_rowid, type_of_number, rows_published, limit,
  insert_metric_row, insert_metric, store_metric, collect_typed, collect, decode_payload,
  decode_typed, decode_row, decode_cons, decode_rows, fetch_metrics, stepped, has_id,
  update_published, rows_affected, mark_as_published, delete_old_rows, delete_published_older_than,
}
use go_tableland.Telemetry.Publisher.{
  World, HttpExporter, collect_all, arrive, statement, check_status, send_request, export,
  Publisher, Tick, row_ids, publish_metrics, publish, run_publisher,
}
use go_tableland.Telemetry.Batches.{Reorders}
use go_tableland.Telemetry.Held.{Reliable, Delivered, Keeps}
use go_tableland.Telemetry.Delivered.{run_publisher-Keeps}
use go_tableland.Telemetry.Sent.{batch, publish-ok}

abbrev block_metric : Payload
block_metric =
    new_block (record { version = 0; chain_id = 1; block_number = pos 7; block_timestamp_unix = 9 })

abbrev json : PayloadJson
json = record { marshal = λ p. ok "{}"; unmarshal = λ t s. ok block_metric }

abbrev endpoint : HttpExporter
endpoint = record {
  body = λ node ms. node;
  new_request = λ body. ok tt;
  post = λ body received. (ok 200, body ∷ received);
}

endpoint-Reliable : Reliable endpoint
endpoint-Reliable = ((λ b c received i. Memᴰ.tail i), λ b received h. Memᴰ.head refl)

abbrev in_order : List MetricRow → List MetricRow
in_order rows = rows

in_order-Reorders : Reorders in_order
in_order-Reorders rows r i = i

abbrev no_fault : ℕ → Option GoError
no_fault n = none

abbrev node : Publisher
node = record { exporter = endpoint; node_id = "n"; fetch_amount = 100 }

abbrev stored : MetricRow
stored = record {
  rowid = 1;
  version = 1;
  timestamp = pos 5;
  type = 4;
  payload = "{}";
  published = false;
}

abbrev start : Calls World
start = record {
  state = record {
    rows = stored ∷ [];
    received = [];
    arrivals = (record { now = pos 6; payload = block_metric; fault = none } ∷ []) ∷ [];
  };
  calls = 0;
}

abbrev tick : ℕ → Option ℕ → Tick
tick n stop = record { now = pos n; stop = stop }

publishes : (publish json in_order no_fault node (tick 10 none) start).0 ≡ ok tt
unfolding publish publish_metrics statement arrive collect_all collect collect_typed store_metric
    insert_metric insert_metric_row metric_type type_number next_rowid fetch_metrics stepped limit
    rows_published decode_rows decode_cons decode_row decode_typed decode_payload type_of_number
    export send_request check_status row_ids has_id mark_as_published update_published rows_affected
    delete_published_older_than delete_old_rows ◌>>=◌ call on_error lift pure
publishes = refl

run_publisher-Keeps_example :
    Keeps json endpoint "n" start.state
      (run_publisher json in_order no_fault node (tick 10 none ∷ tick 20 (some 1) ∷ []) start).state
run_publisher-Keeps_example =
    run_publisher-Keeps json in_order no_fault node (tick 10 none ∷ tick 20 (some 1) ∷ []) start
      endpoint-Reliable in_order-Reorders

oldest_row : Memᴰ stored (batch json in_order no_fault node none start.state)
unfolding arrive collect_all collect collect_typed store_metric insert_metric insert_metric_row
    metric_type type_number next_rowid stepped limit rows_published
oldest_row = Memᴰ.head refl

publish-ok_example :
    Delivered json endpoint "n" stored
      (publish json in_order no_fault node (tick 10 none) start).1.state
publish-ok_example =
    publish-ok json in_order no_fault node (tick 10 none) start stored endpoint-Reliable publishes
      oldest_row
