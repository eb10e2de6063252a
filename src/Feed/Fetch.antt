-- ===== src/Feed/Fetch.antt =====
-- The loop of Start of pkg/eventprocessor/eventfeed/impl/eventfeed.go: block ranges are asked for, and
-- their events are parsed, persisted and sent.
use Prim.Native.String.{find}
use go_tableland.Prelude.{
  ℤ, pos, eq_ℤ, ltb_ℤ, ◌+ℤ◌, ◌-ℤ◌, ℕ, zero, suc, ◌*◌, ◌/◌, String, len, Bool, ◌||◌, Option, none,
  some, List, [], ◌∷◌, ◌++◌, leb, if◌then◌else◌,
}
use go_tableland.Errors.{GoError, Result, ok, err, panic}
use go_tableland.Executor.Events.{Event}
use go_tableland.Processor.{BlockEvents}
use go_tableland.Feed.{Log, pack_events}
use go_tableland.Feed.Parse.{Abi, parse_logs}
use go_tableland.Feed.Persist.{EvmEvent, Encoder, persist_events}
use go_tableland.Steps.{Calls, Run, pure}

-- FilterLogs answers, or refuses with a message.
pub data Reply : Type 0 where
  logs_found : List Log → Reply
  refused : String → Reply

-- The outside world by the number of the round: whether the context is cancelled, what the chain
-- client says of a block range, and the other services.
pub record Chain (S : Type 0) : Type 0 where
  pub cancelled : ℕ → Bool
  pub filter_logs : ℕ → ℤ → ℤ → Reply
  pub abi : Abi S
  pub encoder : Encoder
  pub fault : ℕ → Option GoError
  pub chain_id : ℕ

pub record FetchConfig : Type 0 where
  pub min_block_chain_depth : ℕ
  pub persistence : Bool

-- The feed: `sent` are the blocks handed to the channel, `stored` is the table of events.
pub record Feed : Type 0 where
  pub from_height : ℤ
  pub max_blocks_fetch_size : ℕ
  pub sent : List BlockEvents
  pub stored : Calls (List EvmEvent)
  pub rounds : ℕ

-- What one round of the inner loop does.
pub data Round : Type 0 where
  caught_up : Round
  again : Feed → Round
  crashed : String → Round

-- strings.Contains
unfoldable pub contains : String → String → Bool
contains s t = leb (find s t) (len s)

unfoldable pub is_size_error : String → Bool
unfolding contains
is_size_error s =
    contains s "read limit exceeded"
    || contains s "Log response size exceeded"
    || contains s "is greater than the limit"

unfoldable pub refuse : String → Feed → Feed
unfolding is_size_error
refuse s f =
    if is_size_error s
    then record f { max_blocks_fetch_size = f.max_blocks_fetch_size * 80 / 100 }
    else f

-- The last height that may be asked for, and the end of the range.
unfoldable pub tip_of : FetchConfig → ℤ → ℤ
unfolding ◌-ℤ◌
tip_of config head = head -ℤ pos config.min_block_chain_depth

unfoldable pub to_height : ℤ → Feed → ℤ
unfolding ◌+ℤ◌ ◌-ℤ◌
to_height tip f =
    if ltb_ℤ (pos f.max_blocks_fetch_size) (tip -ℤ f.from_height +ℤ pos 1)
    then f.from_height +ℤ pos f.max_blocks_fetch_size -ℤ pos 1
    else tip

unfoldable pub advance : ℤ → List BlockEvents → Feed → Feed
unfolding ◌+ℤ◌
advance to new f = record f { from_height = to +ℤ pos 1; sent = f.sent ++ new }

-- The end of a round that has done its range: the log of the progress divides by the head's number.
unfoldable pub advanced : ℤ → ℤ → List BlockEvents → Feed → Round
unfolding advance
advanced head to new f =
    if eq_ℤ head (pos 0) then crashed "integer divide by zero" else again (advance to new f)

module _ {S : Type 0} (chain : Chain S) (config : FetchConfig) where
  -- persistEvents where that is asked for
  unfoldable pub maybe_persist : List (Log × Event) → Run (List EvmEvent) (Unit {0})
  unfolding pure
  maybe_persist logs =
      if config.persistence
      then persist_events chain.fault chain.encoder chain.chain_id logs
      else pure tt

  unfoldable pub deliver : ℤ → ℤ → List (Log × Event) → Result (Unit {0}) → Feed → Round
  unfolding advanced
  deliver head to logs (ok u) f = advanced head to (pack_events logs) f
  deliver head to logs (err e) f = again f
  deliver head to logs (panic s) f = crashed s

  unfoldable pub handle_parsed : ℤ → ℤ → Result (List (Log × Event)) → Feed → Round
  unfolding deliver maybe_persist
  handle_parsed head to (ok logs) f =
      let (r, w) = maybe_persist logs f.stored in deliver head to logs r (record f { stored = w })
  handle_parsed head to (err e) f = again f
  handle_parsed head to (panic s) f = crashed s

  unfoldable pub handle_reply : ℤ → ℤ → Reply → Feed → Round
  unfolding handle_parsed refuse advanced
  handle_reply head to (refused s) f = again (refuse s f)
  handle_reply head to (logs_found []) f = advanced head to [] f
  handle_reply head to (logs_found (l ∷ ls)) f =
      handle_parsed head to (parse_logs chain.abi (l ∷ ls)) f

  unfoldable pub ask_range : ℤ → ℤ → Feed → Round
  unfolding handle_reply
  ask_range head to f =
      handle_reply head to (chain.filter_logs f.rounds f.from_height to)
        (record f { rounds = suc f.rounds })

  -- One round for a head.
  unfoldable pub round : ℤ → Feed → Round
  unfolding ask_range to_height tip_of
  round head f =
      if chain.cancelled f.rounds
      then caught_up
      else if ltb_ℤ (tip_of config head) f.from_height
      then caught_up
      else ask_range head (to_height (tip_of config head) f) f

  -- The rounds for a head; `none` means that they go on after `fuel` of them, or that one panics.
  unfoldable pub catch_up : ℕ → ℤ → Feed → Option Feed
  unfolding round
  catch_up zero head f = none
  catch_up (suc fuel) head f = elim (round head f) [
    | caught_up ↦ some f
    | again f' ↦ catch_up fuel head f'
    | crashed s ↦ none
  ]

  -- The rounds for the heads that chHeads brings.
  unfoldable pub follow : ℕ → List ℤ → Feed → Option Feed
  unfolding catch_up
  follow fuel [] f = some f
  follow fuel (h ∷ hs) f = elim (catch_up fuel h f) [ none ↦ none | some f' ↦ follow fuel hs f' ]
