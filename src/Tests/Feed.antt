-- ===== src/Tests/Feed.antt =====
-- The properties of the event feed at a chain with two logs.
use go_tableland.Prelude.{
  ℤ, pos, leb_ℤ, ◌≤ℤ◌, ◌<ℤ◌, ◌+ℤ◌, ◌-ℤ◌, ℕ, ◌≤◌, ◌≡◌, refl, subst, inl, inr, Bool, true, false,
  ◌&&◌, Option, none, some, List, [], ◌∷◌, ◌++◌, map, arith, if◌then◌else◌, Bool-cases,
}
use go_tableland.Errors.{GoError, text, ok}
use go_tableland.Database.{int64_key}
use go_tableland.Executor.Events.{Event, unknown_event}
use go_tableland.Processor.{BlockEvents}
use go_tableland.Processor.Daemon.{Ascending, last_height}
use go_tableland.Feed.{Log, add_to_txns, add_to_blocks, pack_from, pack_events}
use go_tableland.Feed.Pack.{entry_of, flatten, Packed, pack_events-flatten}
use go_tableland.Feed.Persist.{
  EvmEvent, Encoder, has_events, has_key, insert_evm_event, cached, evm_event,
  are_evm_events_persisted, look_up, known, make_row, collect_rows, save_evm_events, persist_events,
}
use go_tableland.Feed.Saved.{Rows}
use go_tableland.Feed.Persisted.{persist_events-ok, persist_events-kept}
use go_tableland.Feed.Again.{persist_events-again}
use go_tableland.Feed.Parse.{Abi, is_supported, then_result, unpack_data, parse_event, parse_logs}
use go_tableland.Feed.Fetch.{
  Reply, logs_found, Chain, FetchConfig, Feed, tip_of, to_height, advance, advanced, maybe_persist,
  deliver, handle_parsed, handle_reply, ask_range, round, catch_up, follow,
}
use go_tableland.Feed.Ranges.{Covers, Deep, follow-Covers}
use go_tableland.Feed.Order.{InOrder, Ordered, follow-Ascending}
use go_tableland.Feed.Outages.{Served, Recovers, Enough, catch_up-reaches, catch_up-stuck}
use go_tableland.Steps.{Calls, pure, lift, on_error, ◌>>=◌, call, committed, transaction}

abbrev first_log : Log
first_log = record {
  address = "0x4b48";
  topics = "0xrunsql" ∷ [];
  log_data = "";
  block_number = 11;
  tx_hash = "0x01";
  tx_index = 0;
  block_hash = "0xb1";
  index = 0;
}

abbrev second_log : Log
second_log = record first_log { block_number = 12; tx_hash = "0x02"; block_hash = "0xb2" }

abbrev two_logs : List (Log × Event)
two_logs = (first_log, unknown_event) ∷ (second_log, unknown_event) ∷ []

abbrev encoder : Encoder
encoder = record {
  marshal_event = λ e. ok "{}";
  marshal_topics = λ ts. ok "[]";
  event_type = λ e. "ContractRunSQL";
}

abbrev no_fault : ℕ → Option GoError
no_fault n = none

abbrev no_connection : ℕ → Option GoError
no_connection n = some (text "database is locked")

abbrev empty_store : Calls (List EvmEvent)
empty_store = record { state = []; calls = 0 }

abi : Abi Event
abi = record {
  event_by_id = λ id. ok "RunSQL";
  event_id = λ name. some "0xrunsql";
  new = λ name. unknown_event;
  unpack_into = λ e name s. ok e;
  parse_topics = λ e name ts. ok e;
  event_of = λ e. e;
}

-- The node has the first log, in block 11, and no other.
abbrev answer_range : ℤ → ℤ → Reply
answer_range lo hi =
    if leb_ℤ lo (pos 11) && leb_ℤ (pos 11) hi then logs_found (first_log ∷ []) else logs_found []

chain : Chain Event
chain = record {
  cancelled = λ n. false;
  filter_logs = λ n lo hi. answer_range lo hi;
  abi = abi;
  encoder = encoder;
  fault = no_fault;
  chain_id = 1;
}

abbrev fetch_config : FetchConfig
fetch_config = record { min_block_chain_depth = 5; persistence = false }

abbrev feed : Feed
feed = record {
  from_height = pos 10;
  max_blocks_fetch_size = 100000;
  sent = [];
  stored = empty_store;
  rounds = 0;
}

-- The feed that has caught up with the head 20.
abbrev done : Feed
done = record feed {
  from_height = pos 16;
  sent = pack_events ((first_log, unknown_event) ∷ []);
  rounds = 1;
}

catches_up : follow chain fetch_config 2 (pos 20 ∷ []) feed ≡ some done
unfolding chain abi follow catch_up round tip_of to_height ask_range handle_reply handle_parsed
    maybe_persist deliver advanced advance parse_logs parse_event then_result unpack_data
    is_supported pure ◌+ℤ◌ ◌-ℤ◌ pack_events pack_from add_to_blocks add_to_txns
catches_up = refl

pack_events-flatten_example :
    (flatten (pack_events two_logs) ≡ map entry_of two_logs) × Packed (pack_events two_logs)
pack_events-flatten_example = pack_events-flatten two_logs

persists : (persist_events no_fault encoder 1 two_logs empty_store).0 ≡ ok tt
unfolding persist_events transaction committed collect_rows known cached look_up
    are_evm_events_persisted has_events make_row evm_event save_evm_events insert_evm_event has_key
    ◌>>=◌ pure lift on_error call int64_key
persists = refl

persist_events-ok_example :
    (new : List EvmEvent) × Rows encoder 1 [] two_logs new
    × ((persist_events no_fault encoder 1 two_logs empty_store).1.state ≡ [] ++ new)
persist_events-ok_example = persist_events-ok no_fault encoder 1 two_logs empty_store persists

refuses : ¬ ((persist_events no_connection encoder 1 two_logs empty_store).0 ≡ ok tt)
unfolding persist_events transaction
refuses h = cc

persist_events-kept_example :
    (persist_events no_connection encoder 1 two_logs empty_store).1.state ≡ []
persist_events-kept_example =
    persist_events-kept no_connection encoder 1 two_logs empty_store refuses

persist_events-again_example :
    (persist_events no_fault encoder 1 two_logs
      (persist_events no_fault encoder 1 two_logs empty_store).1).1.state
    ≡ (persist_events no_fault encoder 1 two_logs empty_store).1.state
persist_events-again_example =
    persist_events-again no_fault no_fault encoder encoder 1 two_logs empty_store
      (persist_events no_fault encoder 1 two_logs empty_store).1 persists refl

follow-Covers_example :
    (new : List BlockEvents) × (done.sent ≡ [] ++ new)
    × (100000 ≤ 100000)
    × Covers chain (Deep fetch_config (pos 20 ∷ [])) 100000 (pos 10) (pos 16) new
follow-Covers_example = follow-Covers chain fetch_config 2 (pos 20 ∷ []) feed done catches_up

range-InOrder :
    (lo hi : ℤ) (logs : List Log) → answer_range lo hi ≡ logs_found logs → InOrder lo hi logs
unfolding int64_key
range-InOrder lo hi logs = elim (Bool-cases (leb_ℤ lo (pos 11) && leb_ℤ (pos 11) hi)) [
  | inl b ↦
      let (below, above) = both (leb_ℤ lo (pos 11)) (leb_ℤ (pos 11) hi) b in
      rw (b) (λ h. subst (InOrder lo hi) (found_injective h) (ground arith, ground arith, tt))
  | inr b ↦ rw (b) (λ h. subst (InOrder lo hi) (found_injective h) tt)
]
  where
    found_injective : {xs ys : List Log} → logs_found xs ≡ logs_found ys → xs ≡ ys
    found_injective h = cc

    both : (a b : Bool) → (a && b) ≡ true → (a ≡ true) × (b ≡ true)
    both true b h = (refl, h)
    both false b h = absurd (cc)

ordered : Ordered chain
unfolding chain
ordered n lo hi logs h = range-InOrder lo hi logs h

follow-Ascending_example :
    (new : List BlockEvents) × (done.sent ≡ [] ++ new)
    × Ascending (pos 10 -ℤ pos 1) new
    × (last_height (pos 10 -ℤ pos 1) new <ℤ pos 16)
follow-Ascending_example =
    follow-Ascending chain fetch_config 2 (pos 20 ∷ []) feed done ordered catches_up

range-Served : (n : ℕ) (lo hi : ℤ) → Served chain n lo hi
unfolding chain abi parse_logs parse_event then_result unpack_data is_supported
range-Served n lo hi = elim (Bool-cases (leb_ℤ lo (pos 11) && leb_ℤ (pos 11) hi)) [
  | inl b ↦ rw (b) (first_log ∷ [], (first_log, unknown_event) ∷ [], refl, refl)
  | inr b ↦ rw (b) ([], [], refl, refl)
]

recovers : Recovers chain 0
unfolding chain
recovers = (λ n. refl, λ n lo hi. inl (range-Served n lo hi))

enough : Enough 0 (tip_of fetch_config (pos 20)) feed 6
unfolding tip_of ◌-ℤ◌ ◌+ℤ◌
enough = omega arith

catch_up-reaches_example :
    (f : Feed) × (catch_up chain fetch_config 7 (pos 20) feed ≡ some f)
    × (tip_of fetch_config (pos 20) <ℤ f.from_height)
catch_up-reaches_example =
    catch_up-reaches chain fetch_config 0 6 (pos 20) feed recovers refl refl (omega arith) enough

going : (n : ℕ) → chain.cancelled n ≡ false
unfolding chain
going n = refl

below : pos 10 ≤ℤ tip_of fetch_config (pos 20)
unfolding tip_of ◌-ℤ◌
below = omega arith

catch_up-stuck_example :
    catch_up chain fetch_config 3 (pos 20) (record feed { max_blocks_fetch_size = 0 }) ≡ none
catch_up-stuck_example =
    catch_up-stuck chain fetch_config 3 (pos 20) (record feed { max_blocks_fetch_size = 0 }) going
      refl below
