-- ===== src/Feed/ExtraInfo.antt =====
-- fetchExtraBlockInfo of pkg/eventprocessor/eventfeed/impl/analytics.go, with GetBlocksMissingExtraInfo and
-- InsertBlockExtraInfo of pkg/sqlstore/impl/system/store.go. The goroutines of a round are run one after
-- another in the order in which they finish; what each one asks the node and the database is the round's.
pub mod Heights
pub mod Skipped
pub mod Complete
use go_tableland.Prelude.{
  ℤ, ltb_ℤ, eq_ℤ, ℕ, Bool, true, false, not, ◌&&◌, ◌||◌, Option, none, some, List, [], ◌∷◌, ◌++◌,
  ◌==◌, if◌then◌else◌,
}
use go_tableland.Errors.{GoError, flattened, Result, ok, err, panic}
use go_tableland.Database.{int64_key, constraint}
use go_tableland.Feed.Persist.{EvmEvent, known}
use go_tableland.Telemetry.Payloads.{NewBlockMetric}

-- A row of system_evm_blocks.
pub record BlockRow : Type 0 where
  pub chain_id : ℕ
  pub block_number : ℤ
  pub timestamp : ℤ

unfoldable pub has_block : ℕ → ℤ → List BlockRow → Bool
has_block chain n [] = false
has_block chain n (b ∷ bs) =
    ((b.chain_id == chain) && eq_ℤ b.block_number n) || has_block chain n bs

-- INSERT INTO system_evm_blocks
unfoldable pub insert_block : BlockRow → List BlockRow → Result (Unit {0}) × List BlockRow
unfolding has_block
insert_block b bs =
    if has_block b.chain_id b.block_number bs
    then (err (constraint "UNIQUE constraint failed: system_evm_blocks"), bs)
    else (ok tt, bs ++ (b ∷ []))

-- SELECT DISTINCT e.block_number ... ORDER BY e.block_number
unfoldable pub add_number : ℤ → List ℤ → List ℤ
add_number n [] = n ∷ []
add_number n (m ∷ ms) =
    let others = add_number n ms in
    if ltb_ℤ n m then n ∷ m ∷ ms else if eq_ℤ n m then m ∷ ms else m ∷ others

-- e.block_number>?2, if a height is known
unfoldable pub above_height : Option ℤ → ℤ → Bool
above_height none n = true
above_height (some h) n = ltb_ℤ h n

-- A row's block is asked for.
unfoldable pub is_missing : ℕ → Option ℤ → List BlockRow → EvmEvent → Bool
unfolding has_block above_height
is_missing chain height bs e =
    (e.chain_id == chain)
    && (above_height height e.block_number && not (has_block chain e.block_number bs))

unfoldable pub missing_numbers : ℕ → Option ℤ → List BlockRow → List EvmEvent → List ℤ
unfolding is_missing add_number
missing_numbers chain height bs [] = []
missing_numbers chain height bs (e ∷ es) =
    let rest = missing_numbers chain height bs es in
    if is_missing chain height bs e then add_number e.block_number rest else rest

unfoldable pub get_blocks_missing_extra_info :
    Option GoError → ℕ → Option ℤ → List BlockRow → List EvmEvent → Result (List ℤ)
unfolding missing_numbers
get_blocks_missing_extra_info none chain height bs es = ok (missing_numbers chain height bs es)
get_blocks_missing_extra_info (some e) chain height bs es =
    err (flattened "get blocks missing extra info" e)

-- The rows of events that a round finds, and what its calls answer: HeaderByNumber with the block's
-- time, Collect and the insertion with an error. `order` is that in which the goroutines finish.
pub record InfoRound : Type 0 where
  pub rows : List EvmEvent
  pub query_fault : Option GoError
  pub header_by_number : ℤ → Result ℕ
  pub collect_fault : ℤ → Option GoError
  pub insert_fault : ℤ → Option GoError
  pub order : List ℤ → List ℤ

pub record ExtraInfo : Type 0 where
  pub blocks : List BlockRow
  pub metrics : List NewBlockMetric
  pub from_height : Option ℤ

module _ (chain : ℕ) where
  -- InsertBlockExtraInfo, whose error is only logged
  unfoldable pub insert_block_extra_info : Option GoError → ℤ → ℕ → ExtraInfo → ExtraInfo
  unfolding insert_block int64_key
  insert_block_extra_info (some e) n time s = s
  insert_block_extra_info none n time s = record s {
    blocks =
        (insert_block (record { chain_id = chain; block_number = n; timestamp = int64_key time })
          s.blocks).1;
  }

  unfoldable pub collect_block : InfoRound → ℤ → ℕ → Option GoError → ExtraInfo → ExtraInfo
  unfolding insert_block_extra_info
  collect_block r n time (some e) s = s
  collect_block r n time none s = insert_block_extra_info (r.insert_fault n) n time (record s {
    metrics =
        s.metrics
        ++ (record { version = 0; chain_id = chain; block_number = n; block_timestamp_unix = time }
            ∷ []);
  })

  unfoldable pub fetch_block : InfoRound → ℤ → Result ℕ → ExtraInfo → ExtraInfo
  unfolding collect_block
  fetch_block r n (ok time) s = collect_block r n time (r.collect_fault n) s
  fetch_block r n (err e) s = s
  fetch_block r n (panic p) s = s

  unfoldable pub fetch_blocks : InfoRound → List ℤ → ExtraInfo → ExtraInfo
  unfolding fetch_block
  fetch_blocks r [] s = s
  fetch_blocks r (n ∷ ns) s = fetch_blocks r ns (fetch_block r n (r.header_by_number n) s)

  -- blockNumbers[len(blockNumbers)-1], if there is one
  unfoldable pub last_known_height : Option ℤ → List ℤ → Option ℤ
  last_known_height height [] = height
  last_known_height height (n ∷ ns) = last_known_height (some n) ns

  unfoldable pub answer_round : InfoRound → Result (List ℤ) → ExtraInfo → ExtraInfo
  unfolding fetch_blocks last_known_height
  answer_round r (ok ns) s =
      let s' = fetch_blocks r (r.order ns) s in
      record s' { from_height = last_known_height s'.from_height ns }
  answer_round r (err e) s = s
  answer_round r (panic p) s = s

  unfoldable pub extra_info_round : InfoRound → ExtraInfo → ExtraInfo
  unfolding answer_round get_blocks_missing_extra_info
  extra_info_round r s =
      answer_round r
        (get_blocks_missing_extra_info r.query_fault chain s.from_height s.blocks r.rows) s

  -- fetchExtraBlockInfo, for so many rounds
  unfoldable pub fetch_extra_block_info : List InfoRound → ExtraInfo → ExtraInfo
  unfolding extra_info_round
  fetch_extra_block_info [] s = s
  fetch_extra_block_info (r ∷ rs) s = fetch_extra_block_info rs (extra_info_round r s)
