-- ===== src/Feed/Rounds.antt =====
-- About one round of the inner loop of Start (pkg/eventprocessor/eventfeed/impl/eventfeed.go).
use go_tableland.Prelude.{
  ℤ, pos, eq_ℤ, ltb_ℤ, ◌≤ℤ◌, ◌<ℤ◌, ◌+ℤ◌, ◌-ℤ◌, +ℤ_parts, -ℤ_parts, ℕ, suc, ◌≤◌, String, ◌≡◌, refl,
  subst, ◌≢◌, ◌⊎◌, inl, inr, true, List, [], ◌∷◌, ◌++◌, arith, Bool-cases,
}
use go_tableland.Errors.{Result, ok, err, panic}
use go_tableland.Executor.Events.{Event}
use go_tableland.Processor.{BlockEvents}
use go_tableland.Feed.{Log, pack_from, pack_events}
use go_tableland.Feed.Parse.{parse_logs}
use go_tableland.Feed.Fetch.{
  Reply, logs_found, refused, Chain, FetchConfig, Feed, caught_up, again, is_size_error, refuse,
  tip_of, to_height, advance, advanced, maybe_persist, deliver, handle_parsed, handle_reply,
  ask_range, round,
}

-- A round that is tried again, and one that has done its range.
abbrev pub Same : Feed → Feed → Type 0
Same f f' =
    (f'.from_height ≡ f.from_height)
    × (f'.sent ≡ f.sent)
    × (f'.max_blocks_fetch_size ≤ f.max_blocks_fetch_size)

abbrev pub Moved : ℤ → List (Log × Event) → Feed → Feed → Type 0
Moved to parsed f f' =
    (f'.from_height ≡ to +ℤ pos 1)
    × (f'.sent ≡ f.sent ++ pack_events parsed)
    × (f'.max_blocks_fetch_size ≤ f.max_blocks_fetch_size)

again_injective : {f f' : Feed} → again f ≡ again f' → f ≡ f'
again_injective h = cc

refuse-Same : (s : String) (f : Feed) → Same f (refuse s f)
unfolding refuse
refuse-Same s f = elim (Bool-cases (is_size_error s)) [
  | inl h ↦ rw (h, refuse) (refl, refl, ground arith)
  | inr h ↦ rw (h, refuse) (refl, refl, ground arith)
]

advanced-again :
    (head to : ℤ) (logs : List (Log × Event)) (f f' : Feed)
    → advanced head to (pack_events logs) f ≡ again f'
    → Moved to logs f f'
unfolding advanced advance
advanced-again head to logs f f' = elim (Bool-cases (eq_ℤ head (pos 0))) [
  | inl z ↦ rw (z, advanced) (λ h. cc)
  | inr z ↦
      rw (z, advanced) (λ h. subst (Moved to logs f) (again_injective h) (refl, refl, ground arith))
]

advanced-not-caught_up :
    (head to : ℤ) (new : List BlockEvents) (f : Feed) → advanced head to new f ≢ caught_up
unfolding advanced
advanced-not-caught_up head to new f = elim (Bool-cases (eq_ℤ head (pos 0))) [
  | inl z ↦ rw (z, advanced) (λ h. cc)
  | inr z ↦ rw (z, advanced) (λ h. cc)
]

module _ {S : Type 0} (chain : Chain S) (config : FetchConfig) where
  deliver-again :
      (head to : ℤ) (logs : List (Log × Event)) (r : Result (Unit {0})) (f f' : Feed)
      → deliver chain config head to logs r f ≡ again f'
      → Same f f' ⊎ Moved to logs f f'
  unfolding deliver
  deliver-again head to logs (ok u) f f' h = inr (advanced-again head to logs f f' h)
  deliver-again head to logs (err e) f f' h =
      inl (subst (Same f) (again_injective h) (refl, refl, ground arith))
  deliver-again head to logs (panic s) f f' h = cc

  handle_parsed-again :
      (head to : ℤ) (r : Result (List (Log × Event))) (f f' : Feed)
      → handle_parsed chain config head to r f ≡ again f'
      → Same f f' ⊎ ((parsed : List (Log × Event)) × (r ≡ ok parsed) × Moved to parsed f f')
  unfolding handle_parsed
  handle_parsed-again head to (ok logs) f f' h =
      elim (deliver-again head to logs (maybe_persist chain config logs f.stored).0
        (record f { stored = (maybe_persist chain config logs f.stored).1 }) f' h) [
          | inl s ↦ inl s
          | inr m ↦ inr (logs, refl, m)
        ]
  handle_parsed-again head to (err e) f f' h =
      inl (subst (Same f) (again_injective h) (refl, refl, ground arith))
  handle_parsed-again head to (panic s) f f' h = cc

  handle_reply-again :
      (head to : ℤ) (reply : Reply) (f f' : Feed)
      → handle_reply chain config head to reply f ≡ again f'
      → Same f f'
        ⊎ ((logs : List Log) × (parsed : List (Log × Event)) × (reply ≡ logs_found logs)
            × (parse_logs chain.abi logs ≡ ok parsed)
            × Moved to parsed f f')
  unfolding handle_reply parse_logs pack_events pack_from
  handle_reply-again head to (refused s) f f' h =
      inl (subst (Same f) (again_injective h) (refuse-Same s f))
  handle_reply-again head to (logs_found []) f f' h =
      inr ([], [], refl, refl, advanced-again head to [] f f' h)
  handle_reply-again head to (logs_found (l ∷ ls)) f f' h =
      elim (handle_parsed-again head to (parse_logs chain.abi (l ∷ ls)) f f' h) [
        | inl s ↦ inl s
        | inr (parsed, e, m) ↦ inr (l ∷ ls, parsed, refl, e, m)
      ]

-- What the bounds of a range `lo` to `to` are.
abbrev pub Bounded : ℤ → ℤ → ℕ → ℤ → Type 0
Bounded lo tip m to = (lo ≤ℤ to +ℤ pos 1) × (to +ℤ pos 1 ≤ℤ lo +ℤ pos m) × (to ≤ℤ tip)

-- A range that is cut.
cut_range :
    (lo tip : ℤ) (m : ℕ) → pos m <ℤ tip -ℤ lo +ℤ pos 1 → Bounded lo tip m (lo +ℤ pos m -ℤ pos 1)
cut_range lo tip m h =
    let a = -ℤ_parts tip lo in
    let b = +ℤ_parts (tip -ℤ lo) (pos 1) in
    let c = +ℤ_parts lo (pos m) in
    let d = -ℤ_parts (lo +ℤ pos m) (pos 1) in
    let e = +ℤ_parts (lo +ℤ pos m -ℤ pos 1) (pos 1) in (omega arith, omega arith, omega arith)

whole_range : (lo tip : ℤ) (m : ℕ) → lo ≤ℤ tip → tip -ℤ lo +ℤ pos 1 ≤ℤ pos m → Bounded lo tip m tip
whole_range lo tip m h k =
    let a = -ℤ_parts tip lo in
    let b = +ℤ_parts (tip -ℤ lo) (pos 1) in
    let c = +ℤ_parts lo (pos m) in
    let e = +ℤ_parts tip (pos 1) in (omega arith, omega arith, omega arith)

to_height-bounds :
    (tip : ℤ) (f : Feed)
    → f.from_height ≤ℤ tip
    → Bounded f.from_height tip f.max_blocks_fetch_size (to_height tip f)
unfolding to_height
to_height-bounds tip f h =
    elim (Bool-cases (ltb_ℤ (pos f.max_blocks_fetch_size) (tip -ℤ f.from_height +ℤ pos 1))) [
      | inl b ↦
          rw (b, to_height) (cut_range f.from_height tip f.max_blocks_fetch_size (ground arith))
      | inr b ↦
          rw (b, to_height) (whole_range f.from_height tip f.max_blocks_fetch_size h (ground arith))
    ]

module _ {S : Type 0} (chain : Chain S) (config : FetchConfig) where
  -- What a round did that is followed by another.
  abbrev pub Progress : ℤ → Feed → Feed → Type 0
  Progress tip f f' =
      Same f f'
      ⊎ ((to : ℤ) × (logs : List Log) × (parsed : List (Log × Event)) × Bounded f.from_height tip
            f.max_blocks_fetch_size to
          × (chain.filter_logs f.rounds f.from_height to ≡ logs_found logs)
          × (parse_logs chain.abi logs ≡ ok parsed)
          × Moved to parsed f f')

  pub round-again :
      (head : ℤ) (f f' : Feed)
      → round chain config head f ≡ again f'
      → Progress (tip_of config head) f f'
  unfolding round ask_range
  round-again head f f' = elim (Bool-cases (chain.cancelled f.rounds)) [
    | inl c ↦ rw (c, round) (λ h. cc)
    | inr c ↦ elim (Bool-cases (ltb_ℤ (tip_of config head) f.from_height)) [
      | inl b ↦ rw (c, b, round) (λ h. cc)
      | inr b ↦
          let le : f.from_height ≤ℤ tip_of config head = ground arith in
          rw (c, b, round)
            (λ h.
              let to = to_height (tip_of config head) f in
              elim (handle_reply-again chain config head to
                (chain.filter_logs f.rounds f.from_height to) (record f { rounds = suc f.rounds })
                f' h) [
                  | inl s ↦ inl s
                  | inr (logs, parsed, e, p, m) ↦
                      inr (to, logs, parsed, to_height-bounds (tip_of config head) f le, e, p, m)
                ])
    ]
  ]

  deliver-not-caught_up :
      (head to : ℤ) (logs : List (Log × Event)) (r : Result (Unit {0})) (f : Feed)
      → deliver chain config head to logs r f ≢ caught_up
  unfolding deliver
  deliver-not-caught_up head to logs (ok u) f h = advanced-not-caught_up head to _ f h
  deliver-not-caught_up head to logs (err e) f h = cc
  deliver-not-caught_up head to logs (panic s) f h = cc

  handle_parsed-not-caught_up :
      (head to : ℤ) (r : Result (List (Log × Event))) (f : Feed)
      → handle_parsed chain config head to r f ≢ caught_up
  unfolding handle_parsed
  handle_parsed-not-caught_up head to (ok logs) f h = deliver-not-caught_up head to logs _ _ h
  handle_parsed-not-caught_up head to (err e) f h = cc
  handle_parsed-not-caught_up head to (panic s) f h = cc

  handle_reply-not-caught_up :
      (head to : ℤ) (reply : Reply) (f : Feed)
      → handle_reply chain config head to reply f ≢ caught_up
  unfolding handle_reply
  handle_reply-not-caught_up head to (refused s) f h = cc
  handle_reply-not-caught_up head to (logs_found []) f h = advanced-not-caught_up head to [] f h
  handle_reply-not-caught_up head to (logs_found (l ∷ ls)) f h =
      handle_parsed-not-caught_up head to _ f h

  pub round-caught_up :
      (head : ℤ) (f : Feed)
      → round chain config head f ≡ caught_up
      → (chain.cancelled f.rounds ≡ true) ⊎ (tip_of config head <ℤ f.from_height)
  unfolding round ask_range
  round-caught_up head f = elim (Bool-cases (chain.cancelled f.rounds)) [
    | inl c ↦ λ h. inl c
    | inr c ↦ elim (Bool-cases (ltb_ℤ (tip_of config head) f.from_height)) [
      | inl b ↦ λ h. inr (ground arith)
      | inr b ↦
          rw (c, b, round)
            (λ h. absurd (
              handle_reply-not-caught_up head (to_height (tip_of config head) f)
                (chain.filter_logs f.rounds f.from_height (to_height (tip_of config head) f)) _ h))
    ]
  ]
