-- ===== src/Feed/Ranges.antt =====
-- About the block ranges that Start of pkg/eventprocessor/eventfeed/impl/eventfeed.go asks for.
use mathlib.Core.List.{append_assoc, append-nil}
use go_tableland.Prelude.{
  ℤ, pos, ◌≤ℤ◌, ◌<ℤ◌, ◌+ℤ◌, +ℤ_parts, ℕ, zero, suc, ◌≤◌, String, ◌≡◌, refl, sym, ap, ◌∙◌, subst,
  ◌⊎◌, inl, inr, true, some, List, [], ◌∷◌, ◌++◌, arith, Option-cases, All,
}
use go_tableland.Errors.{ok}
use go_tableland.Executor.Events.{Event}
use go_tableland.Processor.{BlockEvents}
use go_tableland.Feed.{Log, pack_events}
use go_tableland.Feed.Parse.{parse_logs}
use go_tableland.Feed.Fetch.{
  logs_found, Chain, FetchConfig, Feed, Round, caught_up, again, crashed, tip_of, round, catch_up,
  follow,
}
use go_tableland.Feed.Rounds.{Progress, round-again, round-caught_up}

-- The ranges from a height up to another: each begins where the one before ends, is no longer than
-- `limit`, ends at a height that is final, and its logs are sent.
pub data Covers {S : Type 0} (chain : Chain S) (Final : ℤ → Type 0) (limit : ℕ)
    : ℤ → ℤ → List BlockEvents → Type 0 where
  no_range : (lo : ℤ) → Covers chain Final limit lo lo []
  range :
      (lo to end : ℤ) (n : ℕ) (logs : List Log) (parsed : List (Log × Event))
      (rest : List BlockEvents)
      → lo ≤ℤ to +ℤ pos 1
      → to +ℤ pos 1 ≤ℤ lo +ℤ pos limit
      → Final to
      → chain.filter_logs n lo to ≡ logs_found logs
      → parse_logs chain.abi logs ≡ ok parsed
      → Covers chain Final limit (to +ℤ pos 1) end rest
      → Covers chain Final limit lo end (pack_events parsed ++ rest)

-- A height that is deep enough below one of the heads.
abbrev pub Deep : FetchConfig → List ℤ → ℤ → Type 0
Deep config [] t = ⊥
Deep config (h ∷ hs) t = (t ≤ℤ tip_of config h) ⊎ Deep config hs t

pub some_injective : {f f' : Feed} → some f ≡ some f' → f ≡ f'
some_injective h = cc

pub Round-cases :
    (r : Round)
    → (r ≡ caught_up) ⊎ (((f : Feed) × (r ≡ again f)) ⊎ ((s : String) × (r ≡ crashed s)))
Round-cases caught_up = inl refl
Round-cases (again f) = inr (inl (f, refl))
Round-cases (crashed s) = inr (inr (s, refl))

module _ {S : Type 0} (chain : Chain S) (config : FetchConfig) (Final : ℤ → Type 0)
    (limit : ℕ) where
  -- What the rounds between two states have sent.
  abbrev pub Sends : Feed → Feed → Type 0
  Sends f f' =
      (new : List BlockEvents) × (f'.sent ≡ f.sent ++ new)
      × (f'.max_blocks_fetch_size ≤ limit)
      × Covers chain Final limit f.from_height f'.from_height new

  prepend :
      (tip : ℤ) (f f' f'' : Feed)
      → ((t : ℤ) → t ≤ℤ tip → Final t)
      → f.max_blocks_fetch_size ≤ limit
      → Progress chain config tip f f'
      → Sends f' f''
      → Sends f f''
  prepend tip f f' f'' final m (inl (from, sent, size)) (new, eq, m', covers) = (
    new,
    rw (sym sent) eq,
    m',
    subst (λ x. Covers chain Final limit x f''.from_height new) from covers,
  )
  prepend tip f f' f'' final m (inr (to, logs, parsed, (lo, hi, top), e, p, (from, sent, size)))
        (new, eq, m', covers) =
      (
        pack_events parsed ++ new,
        eq ∙ ap (λ x. x ++ new) sent ∙ append_assoc f.sent (pack_events parsed) new,
        m',
        Covers.range f.from_height to f''.from_height f.rounds logs parsed new lo (wider to f hi m)
            (final to top) e p
            (subst (λ x. Covers chain Final limit x f''.from_height new) from covers),
      )
    where
      wider :
          (to : ℤ) (f : Feed)
          → to +ℤ pos 1 ≤ℤ f.from_height +ℤ pos f.max_blocks_fetch_size
          → f.max_blocks_fetch_size ≤ limit
          → to +ℤ pos 1 ≤ℤ f.from_height +ℤ pos limit
      wider to f h m =
          let a = +ℤ_parts f.from_height (pos f.max_blocks_fetch_size) in
          let b = +ℤ_parts f.from_height (pos limit) in omega arith

  pub catch_up-Sends :
      (fuel : ℕ) (head : ℤ) (f f' : Feed)
      → ((t : ℤ) → t ≤ℤ tip_of config head → Final t)
      → f.max_blocks_fetch_size ≤ limit
      → catch_up chain config fuel head f ≡ some f'
      → Sends f f' × ((chain.cancelled f'.rounds ≡ true) ⊎ (tip_of config head <ℤ f'.from_height))
  unfolding catch_up
  catch_up-Sends zero head f f' final m = λ h. cc
  catch_up-Sends (suc fuel) head f f' final m = elim (Round-cases (round chain config head f)) [
    | inl e ↦
        rw (e, catch_up)
          (λ h.
            subst
              (λ x.
                Sends f x
                × ((chain.cancelled x.rounds ≡ true) ⊎ (tip_of config head <ℤ x.from_height)))
              (some_injective h)
              (
                ([], sym (append-nil f.sent), m, Covers.no_range f.from_height),
                round-caught_up chain config head f e,
              ))
    | inr (inl (f1, e)) ↦
        rw (e, catch_up)
          (λ h.
            let p = round-again chain config head f f1 e in
            let (s, last) = catch_up-Sends fuel head f1 f' final (smaller f f1 p m) h in
            (prepend (tip_of config head) f f1 f' final m p s, last))
    | inr (inr (x, e)) ↦ rw (e, catch_up) (λ h. cc)
  ]
    where
      smaller :
          (f f1 : Feed)
          → Progress chain config (tip_of config head) f f1
          → f.max_blocks_fetch_size ≤ limit
          → f1.max_blocks_fetch_size ≤ limit
      smaller f f1 (inl (_, _, size)) m = omega arith
      smaller f f1 (inr (_, _, _, _, _, _, (_, _, size))) m = omega arith

  Covers-append :
      {lo mid end : ℤ} {xs ys : List BlockEvents}
      → Covers chain Final limit lo mid xs
      → Covers chain Final limit mid end ys
      → Covers chain Final limit lo end (xs ++ ys)
  Covers-append {end = end} {ys = ys} (Covers.no_range lo) d = d
  Covers-append {end = end} {ys = ys} (Covers.range lo to mid n logs parsed rest a b t e p c) d =
      subst (Covers chain Final limit lo end) (sym (append_assoc (pack_events parsed) rest ys))
        (Covers.range lo to end n logs parsed (rest ++ ys) a b t e p (Covers-append c d))

  follow-Sends :
      (fuel : ℕ) (heads : List ℤ) (f f' : Feed)
      → All (λ head. (t : ℤ) → t ≤ℤ tip_of config head → Final t) heads
      → f.max_blocks_fetch_size ≤ limit
      → follow chain config fuel heads f ≡ some f'
      → Sends f f'
  unfolding follow
  follow-Sends fuel [] f f' final m = λ h.
      subst (Sends f) (some_injective h)
        ([], sym (append-nil f.sent), m, Covers.no_range f.from_height)
  follow-Sends fuel (head ∷ heads) f f' (final, finals) m =
      elim (Option-cases (catch_up chain config fuel head f)) [
        | inl e ↦ rw (e, follow) (λ h. cc)
        | inr (f1, e) ↦
            rw (e, follow)
              (λ h.
                let ((new, s, m', c), last) = catch_up-Sends fuel head f f1 final m e in
                let (new', s', m'', c') = follow-Sends fuel heads f1 f' finals m' h in
                (
                  new ++ new',
                  s' ∙ ap (λ x. x ++ new') s ∙ append_assoc f.sent new new',
                  m'',
                  Covers-append c c',
                ))
      ]

Deep-All :
    (config : FetchConfig) (heads : List ℤ) (Final : ℤ → Type 0)
    → ((t : ℤ) → Deep config heads t → Final t)
    → All (λ head. (t : ℤ) → t ≤ℤ tip_of config head → Final t) heads
Deep-All config [] Final k = tt
Deep-All config (h ∷ hs) Final k =
    (λ t le. k t (inl le), Deep-All config hs Final (λ t d. k t (inr d)))

-- If the feed gets through a list of heads with the given number of rounds for each, what it has
-- sent since is, in order, the packed events of consecutive ranges of blocks that lead from the
-- height where it began to the one where it stands: each range begins where the one before ends,
-- is no longer than the largest fetch size at the beginning, ends at least the configured depth
-- below one of the heads, and is answered by the node in one round with logs that can be parsed.
pub follow-Covers :
    {S : Type 0} (chain : Chain S) (config : FetchConfig) (fuel : ℕ) (heads : List ℤ) (f f' : Feed)
    → follow chain config fuel heads f ≡ some f'
    → (new : List BlockEvents) × (f'.sent ≡ f.sent ++ new)
      × (f'.max_blocks_fetch_size ≤ f.max_blocks_fetch_size)
      × Covers chain (Deep config heads) f.max_blocks_fetch_size f.from_height f'.from_height new
follow-Covers chain config fuel heads f f' h =
    follow-Sends chain config (Deep config heads) f.max_blocks_fetch_size fuel heads f f'
      (Deep-All config heads (Deep config heads) (λ t d. d)) (omega arith) h
