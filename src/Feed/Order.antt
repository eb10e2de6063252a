-- ===== src/Feed/Order.antt =====
-- About the order of the blocks that the feed of pkg/eventprocessor/eventfeed/impl/eventfeed.go sends.
use go_tableland.Prelude.{
  ℤ, pos, eq_ℤ, ◌≤ℤ◌, ◌<ℤ◌, ◌-ℤ◌, +ℤ_parts, -ℤ_parts, eq_of_parts, ℕ, ◌≡◌, refl, sym, subst, inl,
  inr, some, List, [], ◌∷◌, ◌++◌, map, arith, Bool-cases,
}
use go_tableland.Executor.Events.{Event}
use go_tableland.Processor.{BlockEvents}
use go_tableland.Processor.Daemon.{Ascending, last_height}
use go_tableland.Feed.{Log, block_of, add_to_blocks, pack_from, pack_events}
use go_tableland.Feed.Parse.{parse_logs-map}
use go_tableland.Feed.Fetch.{logs_found, Chain, FetchConfig, Feed, follow}
use go_tableland.Feed.Ranges.{Covers, follow-Covers}

-- Logs of a range, in the order of their blocks.
abbrev pub InOrder : ℤ → ℤ → List Log → Type 0
InOrder lo hi [] = Unit
InOrder lo hi (l ∷ ls) = (lo ≤ℤ block_of l) × (block_of l ≤ℤ hi) × InOrder (block_of l) hi ls

-- What eth_getLogs promises of its answer.
abbrev pub Ordered : {S : Type 0} → Chain S → Type 0
Ordered chain =
    (n : ℕ) (lo hi : ℤ) (logs : List Log)
    → chain.filter_logs n lo hi ≡ logs_found logs
    → InOrder lo hi logs

last_height-least : (h : ℤ) (bs : List BlockEvents) → Ascending h bs → h ≤ℤ last_height h bs
last_height-least h [] a = omega arith
last_height-least h (b ∷ bs) (lt, a) =
    let least = last_height-least b.block_number bs a in omega arith

above :
    (h x : ℤ) (b : BlockEvents) (bs : List BlockEvents)
    → Ascending h (b ∷ bs)
    → last_height h (b ∷ bs) ≤ℤ x
    → h <ℤ x
above h x b bs (lt, a) le = let least = last_height-least b.block_number bs a in omega arith

add_to_blocks-Ascending :
    (h : ℤ) (l : Log) (e : Event) (bs : List BlockEvents)
    → Ascending h bs
    → h <ℤ block_of l
    → last_height h bs ≤ℤ block_of l
    → Ascending h (add_to_blocks l e bs) × (last_height h (add_to_blocks l e bs) ≡ block_of l)
unfolding add_to_blocks
add_to_blocks-Ascending h l e [] a lt le = ((lt, tt), refl)
add_to_blocks-Ascending h l e (b ∷ []) (a, _) lt le =
    elim (Bool-cases (eq_ℤ b.block_number (block_of l))) [
      | inl s ↦
          rw (s, add_to_blocks) ((a, tt), ground (arith, eq_of_parts b.block_number (block_of l)))
      | inr s ↦ rw (s, add_to_blocks) ((a, (ground arith, tt)), refl)
    ]
add_to_blocks-Ascending h l e (b ∷ c ∷ bs) (a, a') lt le =
    let (asc, last) =
      add_to_blocks-Ascending b.block_number l e (c ∷ bs) a'
        (above b.block_number (block_of l) c bs a' le) le in
    ((a, asc), last)

pack_from-Ascending :
    (h lo hi : ℤ) (bs : List BlockEvents) (logs : List (Log × Event))
    → Ascending h bs
    → h <ℤ lo
    → last_height h bs ≤ℤ lo
    → last_height h bs ≤ℤ hi
    → InOrder lo hi (map (λ (p : Log × Event). p.0) logs)
    → Ascending h (pack_from bs logs) × (last_height h (pack_from bs logs) ≤ℤ hi)
unfolding pack_from
pack_from-Ascending h lo hi bs [] a lt le top o = (a, top)
pack_from-Ascending h lo hi bs ((l, e) ∷ rest) a lt le top (lower, upper, o) =
    let (asc, last) = add_to_blocks-Ascending h l e bs a (omega arith) (omega arith) in
    pack_from-Ascending h (block_of l) hi (add_to_blocks l e bs) rest asc (omega arith)
      (subst (λ x. x ≤ℤ block_of l) (sym last) (omega arith))
      (subst (λ x. x ≤ℤ hi) (sym last) upper) o

Ascending-append :
    (h : ℤ) (xs ys : List BlockEvents)
    → Ascending h xs
    → Ascending (last_height h xs) ys
    → Ascending h (xs ++ ys) × (last_height h (xs ++ ys) ≡ last_height (last_height h xs) ys)
Ascending-append h [] ys a b = (b, refl)
Ascending-append h (x ∷ xs) ys (lt, a) b =
    let (asc, last) = Ascending-append x.block_number xs ys a b in ((lt, asc), last)

Covers-Ascending :
    {S : Type 0} (chain : Chain S) {Final : ℤ → Type 0} {limit : ℕ} {lo end : ℤ}
    {new : List BlockEvents} (h : ℤ)
    → Ordered chain
    → Covers chain Final limit lo end new
    → h <ℤ lo
    → Ascending h new × (last_height h new <ℤ end)
unfolding pack_events
Covers-Ascending chain h ordered (Covers.no_range lo) lt = (tt, lt)
Covers-Ascending chain h ordered (Covers.range lo to end n logs parsed rest a b t e p c) lt =
    let o =
      subst (InOrder lo to) (sym (parse_logs-map chain.abi logs parsed p))
        (ordered n lo to logs e) in
    let next = +ℤ_parts to (pos 1) in
    let (asc, last) = pack_from-Ascending h lo to [] parsed tt lt (omega arith) (omega arith) o in
    let (asc', last') =
      Covers-Ascending chain (last_height h (pack_events parsed)) ordered c (omega arith) in
    let (all, at) = Ascending-append h (pack_events parsed) rest asc asc' in
    (all, subst (λ x. x <ℤ end) (sym at) last')

-- If the node's answers for a range hold logs of that range in the order of their blocks, and the
-- feed gets through a list of heads, then the numbers of the blocks that it has sent since ascend
-- strictly from the height where it began, and stay below the height where it stands.
pub follow-Ascending :
    {S : Type 0} (chain : Chain S) (config : FetchConfig) (fuel : ℕ) (heads : List ℤ) (f f' : Feed)
    → Ordered chain
    → follow chain config fuel heads f ≡ some f'
    → (new : List BlockEvents) × (f'.sent ≡ f.sent ++ new)
      × Ascending (f.from_height -ℤ pos 1) new
      × (last_height (f.from_height -ℤ pos 1) new <ℤ f'.from_height)
follow-Ascending chain config fuel heads f f' ordered h =
    let (new, sent, size, covers) = follow-Covers chain config fuel heads f f' h in
    let before = -ℤ_parts f.from_height (pos 1) in
    let (asc, last) =
      Covers-Ascending chain (f.from_height -ℤ pos 1) ordered covers (omega arith) in
    (new, sent, asc, last)
