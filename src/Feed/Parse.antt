-- ===== src/Feed/Parse.antt =====
-- parseEvent and getTopicsForEventTypes of pkg/eventprocessor/eventfeed/impl/eventfeed.go, with the
-- supported events of pkg/eventprocessor/eventfeed/eventfeed.go.
use go_tableland.Prelude.{
  String, ◌≡◌, refl, sym, ap, ◌∙◌, Bool, ◌||◌, Option, none, some, List, [], ◌∷◌, map, str_eq,
  if◌then◌else◌,
}
use go_tableland.Errors.{GoError, text, flattened, Result, ok, err, panic}
use go_tableland.Executor.Events.{Event}
use go_tableland.Feed.{Log}

-- The calls of go-ethereum's abi package on the contract's ABI, and of reflect on the generated
-- structs: an event's name by its id, an event's id by its name, an empty struct of the event's type,
-- and its fields as they are read from the data and from the topics.
pub record Abi (S : Type 0) : Type 0 where
  pub event_by_id : String → Result String
  pub event_id : String → Option String
  pub new : String → S
  pub unpack_into : S → String → String → Result S
  pub parse_topics : S → String → List String → Result S
  pub event_of : S → Event

-- SupportedEvents
unfoldable pub is_supported : String → Bool
is_supported name =
    str_eq name "RunSQL"
    || str_eq name "CreateTable"
    || str_eq name "SetController"
    || str_eq name "TransferTable"

unfoldable pub then_result :
    {A B : Type 0} → (GoError → GoError) → Result A → (A → Result B) → Result B
then_result f (ok a) k = k a
then_result f (err e) k = err (f e)
then_result f (panic s) k = panic s

parsed_injective : {a b : List (Log × Event)} → ok a ≡ ok b → a ≡ b
parsed_injective h = cc

module _ {S : Type 0} (abi : Abi S) where
  -- Fields that are not indexed, where the event has data.
  unfoldable pub unpack_data : String → S → String → Result S
  unpack_data name s data_text =
      if str_eq data_text "" then ok s else abi.unpack_into s name data_text

  -- parseEvent, of the log's topics and data
  unfoldable pub parse_event : List String → String → Result Event
  unfolding is_supported then_result unpack_data
  parse_event [] data_text = panic "index out of range"
  parse_event (t ∷ ts) data_text =
      then_result (flattened "detecting event type") (abi.event_by_id t) (λ name.
        if is_supported name
        then (then_result (flattened "unpacking into interface")
            (unpack_data name (abi.new name) data_text)
            (λ s.
              then_result (flattened "unpacking indexed topics") (abi.parse_topics s name ts)
                (λ s'. ok (abi.event_of s'))))
        else err (text "unknown event type"))

  -- The loop of Start over the logs: each with its event, or the first that fails.
  unfoldable pub parse_logs : List Log → Result (List (Log × Event))
  unfolding parse_event then_result
  parse_logs [] = ok []
  parse_logs (l ∷ ls) =
      then_result (λ e. e) (parse_event l.topics l.log_data)
        (λ e. then_result (λ e. e) (parse_logs ls) (λ rest. ok ((l, e) ∷ rest)))

  unfoldable pub check_types : List String → Result (Unit {0})
  unfolding is_supported
  check_types [] = ok tt
  check_types (t ∷ ts) =
      if is_supported t then check_types ts else err (text "event type filter isn't supported")

  unfoldable pub topics_of : List String → Result (List String)
  unfolding then_result
  topics_of [] = ok []
  topics_of (t ∷ ts) = elim (abi.event_id t) [
    | none ↦ err (text "event type wasn't found in compiled contract")
    | some id ↦ then_result (λ e. e) (topics_of ts) (λ ids. ok (id ∷ ids))
  ]

  unfoldable pub get_topics_for_event_types : List String → Result (List String)
  unfolding check_types topics_of then_result
  get_topics_for_event_types ets = then_result (λ e. e) (check_types ets) (λ u. topics_of ets)

  pub then_result-ok :
      {A B : Type 0} (f : GoError → GoError) (r : Result A) (k : A → Result B) (b : B)
      → then_result f r k ≡ ok b
      → (a : A) × (r ≡ ok a) × (k a ≡ ok b)
  unfolding then_result
  then_result-ok f (ok a) k b h = (a, refl, h)
  then_result-ok f (err e) k b h = cc
  then_result-ok f (panic s) k b h = cc

  -- The logs keep their order, and none is left out.
  pub parse_logs-map :
      (logs : List Log) (parsed : List (Log × Event))
      → parse_logs logs ≡ ok parsed
      → map (λ (p : Log × Event). p.0) parsed ≡ logs
  unfolding parse_logs then_result
  parse_logs-map [] parsed h = ap (map (λ (p : Log × Event). p.0)) (parsed_injective (sym h))
  parse_logs-map (l ∷ ls) parsed h =
      let (e, at, h') = then_result-ok (λ x. x) (parse_event l.topics l.log_data) _ parsed h in
      let (rest, at', h'') = then_result-ok (λ x. x) (parse_logs ls) _ parsed h' in
      ap (map (λ (p : Log × Event). p.0)) (parsed_injective (sym h''))
      ∙ ap (λ x. l ∷ x) (parse_logs-map ls rest at')
