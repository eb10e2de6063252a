-- ===== src/Tests/ExtraInfo.antt =====
-- The properties of the rounds of fetchExtraBlockInfo at two blocks.
use mathlib.Core.List.{Memᴰ}
use go_tableland.Prelude.{ℤ, pos, eq_ℤ, ◌≡◌, refl, true, false, none, [], ◌∷◌, if◌then◌else◌}
use go_tableland.Errors.{text, ok, err}
use go_tableland.Feed.Persist.{EvmEvent}
use go_tableland.Feed.ExtraInfo.{
  has_block, add_number, above_height, is_missing, missing_numbers, InfoRound, ExtraInfo,
  extra_info_round, fetch_extra_block_info,
}
use go_tableland.Feed.ExtraInfo.Skipped.{fetch_extra_block_info-skips}
use go_tableland.Feed.ExtraInfo.Complete.{extra_info_round_complete}

abbrev stored : ℤ → EvmEvent
stored n = record {
  address = "";
  topics = "";
  log_data = "";
  block_number = n;
  tx_hash = "0x01";
  tx_index = 0;
  block_hash = "";
  event_index = 0;
  chain_id = 1;
  event_json = "";
  event_type = "";
}

abbrev fetched : InfoRound
fetched = record {
  rows = stored (pos 5) ∷ stored (pos 7) ∷ [];
  query_fault = none;
  header_by_number = λ n. ok 100;
  collect_fault = λ n. none;
  insert_fault = λ n. none;
  order = λ ns. ns;
}

-- The node does not know the block 5 yet.
abbrev late : InfoRound
late = record fetched {
  header_by_number = λ n. if eq_ℤ n (pos 5) then err (text "not found") else ok 100;
}

abbrev nothing_known : ExtraInfo
nothing_known = record { blocks = []; metrics = []; from_height = none }

five_is_asked : Memᴰ (pos 5) (missing_numbers 1 none [] fetched.rows)
unfolding missing_numbers is_missing add_number above_height has_block
five_is_asked = Memᴰ.head refl

fetch_extra_block_info-skips_example :
    has_block 1 (pos 5) (fetch_extra_block_info 1 (late ∷ fetched ∷ []) nothing_known).blocks
    ≡ false
fetch_extra_block_info-skips_example =
    fetch_extra_block_info-skips 1 late (fetched ∷ []) (pos 5) nothing_known (text "not found")
      (λ ns n i. i) ((λ ns n i. i), tt) refl five_is_asked refl

above_nothing : above_height none (pos 5) ≡ true
unfolding above_height
above_nothing = refl

extra_info_round_complete_example :
    has_block 1 (pos 5) (extra_info_round 1 fetched nothing_known).blocks ≡ true
extra_info_round_complete_example =
    extra_info_round_complete 1 fetched nothing_known (stored (pos 5))
      (λ n. ((100, refl), refl, refl)) refl (λ ns n i. i) (Memᴰ.head refl) refl above_nothing
