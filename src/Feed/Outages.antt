-- ===== src/Feed/Outages.antt =====
-- About the end of the inner loop of Start (pkg/eventprocessor/eventfeed/impl/eventfeed.go).
use go_tableland.Prelude.{
  ℤ, pos, eq_ℤ, ltb_ℤ, ◌≤ℤ◌, ◌<ℤ◌, ◌+ℤ◌, ◌-ℤ◌, +ℤ_parts, -ℤ_parts, eq_of_parts, ℕ, zero, suc, ◌-◌,
  ◌≤◌, ◌<◌, String, ◌≡◌, refl, sym, ◌∙◌, subst, ◌≢◌, ◌⊎◌, inl, inr, true, false, none, some, List,
  [], ◌∷◌, arith, Bool-cases,
}
use go_tableland.Errors.{ok}
use go_tableland.Executor.Events.{Event}
use go_tableland.Feed.{Log}
use go_tableland.Feed.Parse.{parse_logs}
use go_tableland.Feed.Fetch.{
  logs_found, refused, Chain, FetchConfig, Feed, caught_up, again, is_size_error, refuse, tip_of,
  to_height, advance, advanced, maybe_persist, deliver, handle_parsed, handle_reply, ask_range,
  round, catch_up,
}
use go_tableland.Feed.Rounds.{round-again, round-caught_up}
use go_tableland.Feed.Ranges.{Round-cases}
use go_tableland.Steps.{pure}

-- A round in which the client serves a range, with logs that can be parsed.
abbrev pub Served : {S : Type 0} → Chain S → ℕ → ℤ → ℤ → Type 0
Served chain n lo hi =
    (logs : List Log) × (parsed : List (Log × Event)) × (chain.filter_logs n lo hi
      ≡ logs_found logs)
    × (parse_logs chain.abi logs ≡ ok parsed)

-- From the round `recovery` on the client serves; before, it may refuse, but not for a size. The
-- context is not cancelled.
abbrev pub Recovers : {S : Type 0} → Chain S → ℕ → Type 0
Recovers chain recovery =
    ((n : ℕ) → chain.cancelled n ≡ false)
    × ((n : ℕ) (lo hi : ℤ)
        → Served chain n lo hi
          ⊎ ((n < recovery)
              × ((s : String) × (chain.filter_logs n lo hi ≡ refused s)
                  × (is_size_error s ≡ false))))

-- The rounds that a head can still need.
abbrev pub Enough : ℕ → ℤ → Feed → ℕ → Type 0
Enough recovery tip f fuel = tip -ℤ f.from_height +ℤ pos 1 +ℤ pos (recovery - f.rounds) ≤ℤ pos fuel

true-ne-false : true ≢ false
true-ne-false h = cc

to_height-least :
    (tip : ℤ) (f : Feed)
    → f.from_height ≤ℤ tip
    → 1 ≤ f.max_blocks_fetch_size
    → f.from_height ≤ℤ to_height tip f
unfolding to_height
to_height-least tip f h m =
    let a = +ℤ_parts f.from_height (pos f.max_blocks_fetch_size) in
    let b = -ℤ_parts (f.from_height +ℤ pos f.max_blocks_fetch_size) (pos 1) in
    elim (Bool-cases (ltb_ℤ (pos f.max_blocks_fetch_size) (tip -ℤ f.from_height +ℤ pos 1))) [
      | inl e ↦ rw (e, to_height) (omega arith)
      | inr e ↦ rw (e, to_height) h
    ]

fewer-moved :
    (recovery : ℕ) (tip to : ℤ) (f f' : Feed) (fuel : ℕ)
    → f.from_height ≤ℤ to
    → f'.from_height ≡ to +ℤ pos 1
    → f'.rounds ≡ suc f.rounds
    → Enough recovery tip f (suc fuel)
    → Enough recovery tip f' fuel
fewer-moved recovery tip to f f' fuel lo from rounds enough =
    let c = +ℤ_parts to (pos 1) in
    let a = -ℤ_parts tip f.from_height in
    let b = +ℤ_parts (tip -ℤ f.from_height) (pos 1) in
    let d = +ℤ_parts (tip -ℤ f.from_height +ℤ pos 1) (pos (recovery - f.rounds)) in
    let a' = -ℤ_parts tip (to +ℤ pos 1) in
    let b' = +ℤ_parts (tip -ℤ (to +ℤ pos 1)) (pos 1) in
    let d' = +ℤ_parts (tip -ℤ (to +ℤ pos 1) +ℤ pos 1) (pos (recovery - suc f.rounds)) in
    rw (from, rounds) (omega arith)

fewer-refused :
    (recovery : ℕ) (tip : ℤ) (f f' : Feed) (fuel : ℕ)
    → f.rounds < recovery
    → f'.from_height ≡ f.from_height
    → f'.rounds ≡ suc f.rounds
    → Enough recovery tip f (suc fuel)
    → Enough recovery tip f' fuel
fewer-refused recovery tip f f' fuel lt from rounds enough =
    let d = +ℤ_parts (tip -ℤ f.from_height +ℤ pos 1) (pos (recovery - f.rounds)) in
    let d' = +ℤ_parts (tip -ℤ f.from_height +ℤ pos 1) (pos (recovery - suc f.rounds)) in
    rw (from, rounds) (omega arith)

module _ {S : Type 0} (chain : Chain S) (config : FetchConfig) where
  served :
      (head to : ℤ) (logs : List Log) (parsed : List (Log × Event)) (f : Feed)
      → eq_ℤ head (pos 0) ≡ false
      → config.persistence ≡ false
      → parse_logs chain.abi logs ≡ ok parsed
      → (f' : Feed) × (handle_reply chain config head to (logs_found logs) f ≡ again f')
        × (f'.from_height ≡ to +ℤ pos 1)
        × (f'.max_blocks_fetch_size ≡ f.max_blocks_fetch_size)
        × (f'.rounds ≡ f.rounds)
  unfolding handle_reply handle_parsed maybe_persist deliver advanced advance pure
  served head to [] parsed f z off p = rw (z, handle_reply, advanced) (_, refl, refl, refl, refl)
  served head to (l ∷ ls) parsed f z off p =
      rw (p, off, z, handle_reply, handle_parsed, maybe_persist, deliver, advanced)
        (_, refl, refl, refl, refl)

  next_round :
      (recovery : ℕ) (head : ℤ) (f : Feed) (fuel : ℕ)
      → Recovers chain recovery
      → eq_ℤ head (pos 0) ≡ false
      → config.persistence ≡ false
      → f.from_height ≤ℤ tip_of config head
      → 1 ≤ f.max_blocks_fetch_size
      → Enough recovery (tip_of config head) f (suc fuel)
      → (f' : Feed) × (round chain config head f ≡ again f')
        × (f'.max_blocks_fetch_size ≡ f.max_blocks_fetch_size)
        × Enough recovery (tip_of config head) f' fuel
  unfolding round ask_range handle_reply refuse
  next_round recovery head f fuel (going, replies) z off le m enough =
      let tip = tip_of config head in
      let to = to_height tip f in
      let more : ltb_ℤ tip f.from_height ≡ false = ground arith in
      elim (replies f.rounds f.from_height to) [
        | inl (logs, parsed, e, p) ↦
            let (f', at, from, size, rounds) =
              served head to logs parsed (record f { rounds = suc f.rounds }) z off p in
            (
              f',
              rw (going f.rounds, more, round, e) at,
              size,
              fewer-moved recovery tip to f f' fuel (to_height-least tip f le m) from rounds enough,
            )
        | inr (lt, (s, e, small)) ↦ (
          record f { rounds = suc f.rounds },
          rw (going f.rounds, more, round, e, small, refuse) refl,
          refl,
          fewer-refused recovery tip f (record f { rounds = suc f.rounds }) fuel lt refl refl
              enough,
        )
      ]

  round-beyond :
      (head : ℤ) (f : Feed)
      → chain.cancelled f.rounds ≡ false
      → tip_of config head <ℤ f.from_height
      → round chain config head f ≡ caught_up
  unfolding round
  round-beyond head f c b =
      let beyond : ltb_ℤ (tip_of config head) f.from_height ≡ true = ground arith in
      rw (c, beyond, round) refl

  too-few :
      (recovery : ℕ) (tip : ℤ) (f : Feed)
      → tip -ℤ f.from_height +ℤ pos 1 +ℤ pos (recovery - f.rounds) ≤ℤ pos 0
      → ¬ (f.from_height ≤ℤ tip)
  too-few recovery tip f enough le =
      let a = -ℤ_parts tip f.from_height in
      let b = +ℤ_parts (tip -ℤ f.from_height) (pos 1) in
      let d = +ℤ_parts (tip -ℤ f.from_height +ℤ pos 1) (pos (recovery - f.rounds)) in omega arith

  -- If the head is not block 0, events are not persisted, the context is not cancelled, the
  -- largest fetch size is at least 1, and the node serves every range from some round on and
  -- refuses before it only for other reasons than a size, then as many rounds as there are
  -- heights left up to the head's depth and rounds left of the outage, and one more, bring the
  -- feed past that depth.
  pub catch_up-reaches :
      (recovery fuel : ℕ) (head : ℤ) (f : Feed)
      → Recovers chain recovery
      → eq_ℤ head (pos 0) ≡ false
      → config.persistence ≡ false
      → 1 ≤ f.max_blocks_fetch_size
      → Enough recovery (tip_of config head) f fuel
      → (f' : Feed) × (catch_up chain config (suc fuel) head f ≡ some f')
        × (tip_of config head <ℤ f'.from_height)
  unfolding catch_up
  catch_up-reaches recovery zero head f r z off m enough =
      elim (Bool-cases (ltb_ℤ (tip_of config head) f.from_height)) [
        | inl b ↦
            (f, rw (round-beyond head f (r.0 f.rounds) (ground arith), catch_up) refl, ground arith)
        | inr b ↦ absurd (too-few recovery (tip_of config head) f enough (ground arith))
      ]
  catch_up-reaches recovery (suc fuel) head f r z off m enough =
      elim (Bool-cases (ltb_ℤ (tip_of config head) f.from_height)) [
        | inl b ↦
            (f, rw (round-beyond head f (r.0 f.rounds) (ground arith), catch_up) refl, ground arith)
        | inr b ↦
            let (f1, at, size, enough') =
              next_round recovery head f fuel r z off (ground arith) m enough in
            let (f', done, past) =
              catch_up-reaches recovery fuel head f1 r z off (subst (λ x. 1 ≤ x) (sym size) m)
                enough' in
            (f', rw (at, catch_up) done, past)
      ]

  stuck_round :
      (head : ℤ) (f f' : Feed)
      → f.max_blocks_fetch_size ≡ 0
      → round chain config head f ≡ again f'
      → (f'.from_height ≡ f.from_height) × (f'.max_blocks_fetch_size ≡ 0)
  stuck_round head f f' empty h = elim (round-again chain config head f f' h) [
    | inl (from, sent, size) ↦ (from, omega arith)
    | inr (to, logs, parsed, (lo, hi, top), e, p, (from, sent, size)) ↦
        let b = +ℤ_parts f.from_height (pos f.max_blocks_fetch_size) in
        (from ∙ eq_of_parts (to +ℤ pos 1) f.from_height (omega arith), omega arith)
  ]

  -- If the largest fetch size is 0, the feed's height is not beyond the head's depth and the
  -- context is not cancelled, then no number of rounds gets the feed through the head.
  pub catch_up-stuck :
      (fuel : ℕ) (head : ℤ) (f : Feed)
      → ((n : ℕ) → chain.cancelled n ≡ false)
      → f.max_blocks_fetch_size ≡ 0
      → f.from_height ≤ℤ tip_of config head
      → catch_up chain config fuel head f ≡ none
  unfolding catch_up
  catch_up-stuck zero head f going empty le = refl
  catch_up-stuck (suc fuel) head f going empty le = elim (Round-cases (round chain config head f)) [
    | inl e ↦ elim (round-caught_up chain config head f e) [
      | inl c ↦ absurd (true-ne-false (sym c ∙ going f.rounds))
      | inr b ↦ absurd (omega arith)
    ]
    | inr (inl (f1, e)) ↦
        let (from, size) = stuck_round head f f1 empty e in
        rw (e, catch_up)
          (catch_up-stuck fuel head f1 going size
            (subst (λ x. x ≤ℤ tip_of config head) (sym from) le))
    | inr (inr (x, e)) ↦ rw (e, catch_up) refl
  ]
