-- ===== src/Feed/ExtraInfo/Skipped.antt =====
-- About the blocks whose header fetchExtraBlockInfo of pkg/eventprocessor/eventfeed/impl/analytics.go does not get.
use mathlib.Core.List.{Memᴰ}
use go_tableland.Prelude.{
  ℤ, leb_ℤ, ltb_ℤ, eq_ℤ, eq_of_parts, ℕ, ◌≡◌, refl, sym, ap, ◌∙◌, subst, ◌⊎◌, inl, inr, true, false,
  Option, none, some, List, [], ◌∷◌, ◌++◌, arith, Bool-cases, Option-cases,
}
use go_tableland.Errors.{GoError, Result, ok, err, panic}
use go_tableland.Database.{int64_key}
use go_tableland.Feed.ExtraInfo.{
  BlockRow, has_block, insert_block, missing_numbers, get_blocks_missing_extra_info, InfoRound,
  ExtraInfo, insert_block_extra_info, collect_block, fetch_block, fetch_blocks, last_known_height,
  answer_round, extra_info_round, fetch_extra_block_info,
}
use go_tableland.Feed.ExtraInfo.Heights.{
  Ascending, missing_numbers-Ascending, missing_numbers-above, missing_numbers-Lacks,
  last_known_height-top,
}

-- The goroutines of a round are those of its blocks.
abbrev pub OwnBlocks : InfoRound → Type 0
OwnBlocks r = (ns : List ℤ) (n : ℤ) → Memᴰ n (r.order ns) → Memᴰ n ns

abbrev pub EachOwn : List InfoRound → Type 0
EachOwn [] = Unit
EachOwn (r ∷ rs) = OwnBlocks r × EachOwn rs

-- Fetching the block m adds no row for the block n.
abbrev Harmless : InfoRound → ℤ → ℤ → Type 0
Harmless r n m = (eq_ℤ m n ≡ false) ⊎ ((e : GoError) × (r.header_by_number m ≡ err e))

has_block-append :
    (chain : ℕ) (n : ℤ) (bs : List BlockRow) (b : BlockRow)
    → has_block chain n bs ≡ false
    → eq_ℤ b.block_number n ≡ false
    → has_block chain n (bs ++ (b ∷ [])) ≡ false
unfolding has_block
has_block-append chain n [] b h e = ground (arith, h, e)
has_block-append chain n (x ∷ bs) b h e =
    let rest = has_block-append chain n bs b (ground (arith, h)) e in ground (arith, h, rest)

module _ (chain : ℕ) where
  insert_block-Lacks :
      (n : ℤ) (b : BlockRow) (bs : List BlockRow)
      → has_block chain n bs ≡ false
      → eq_ℤ b.block_number n ≡ false
      → has_block chain n (insert_block b bs).1 ≡ false
  unfolding insert_block
  insert_block-Lacks n b bs h e = elim (Bool-cases (has_block b.chain_id b.block_number bs)) [
    | inl c ↦ rw (c, insert_block) h
    | inr c ↦ rw (c, insert_block) (has_block-append chain n bs b h e)
  ]

  insert_block_extra_info-Lacks :
      (n m : ℤ) (time : ℕ) (f : Option GoError) (s : ExtraInfo)
      → has_block chain n s.blocks ≡ false
      → eq_ℤ m n ≡ false
      → has_block chain n (insert_block_extra_info chain f m time s).blocks ≡ false
  unfolding insert_block_extra_info
  insert_block_extra_info-Lacks n m time (some e) s h d = h
  insert_block_extra_info-Lacks n m time none s h d =
      insert_block-Lacks n
        (record { chain_id = chain; block_number = m; timestamp = int64_key time }) s.blocks h d

  collect_block-Lacks :
      (r : InfoRound) (n m : ℤ) (time : ℕ) (c : Option GoError) (s : ExtraInfo)
      → has_block chain n s.blocks ≡ false
      → eq_ℤ m n ≡ false
      → has_block chain n (collect_block chain r m time c s).blocks ≡ false
  unfolding collect_block
  collect_block-Lacks r n m time (some e) s h d = h
  collect_block-Lacks r n m time none s h d =
      insert_block_extra_info-Lacks n m time (r.insert_fault m) _ h d

  fetch_block-Lacks :
      (r : InfoRound) (n m : ℤ) (a : Result ℕ) (s : ExtraInfo)
      → has_block chain n s.blocks ≡ false
      → (eq_ℤ m n ≡ false) ⊎ ((e : GoError) × (a ≡ err e))
      → has_block chain n (fetch_block chain r m a s).blocks ≡ false
  unfolding fetch_block
  fetch_block-Lacks r n m (ok time) s h (inl d) =
      collect_block-Lacks r n m time (r.collect_fault m) s h d
  fetch_block-Lacks r n m (ok time) s h (inr (e, f)) = absurd cc
  fetch_block-Lacks r n m (err e) s h d = h
  fetch_block-Lacks r n m (panic p) s h d = h

  fetch_blocks-Lacks :
      (r : InfoRound) (n : ℤ) (ns : List ℤ) (s : ExtraInfo)
      → ((m : ℤ) → Memᴰ m ns → Harmless r n m)
      → has_block chain n s.blocks ≡ false
      → has_block chain n (fetch_blocks chain r ns s).blocks ≡ false
  unfolding fetch_blocks
  fetch_blocks-Lacks r n [] s f h = h
  fetch_blocks-Lacks r n (m ∷ ns) s f h =
      fetch_blocks-Lacks r n ns (fetch_block chain r m (r.header_by_number m) s)
        (λ k i. f k (Memᴰ.tail i))
        (fetch_block-Lacks r n m (r.header_by_number m) s h (f m (Memᴰ.head refl)))

  collect_block-height :
      (r : InfoRound) (m : ℤ) (time : ℕ) (c : Option GoError) (s : ExtraInfo)
      → (collect_block chain r m time c s).from_height ≡ s.from_height
  unfolding collect_block insert_block_extra_info
  collect_block-height r m time (some e) s = refl
  collect_block-height r m time none s = elim (Option-cases (r.insert_fault m)) [
    | inl f ↦ rw (f, insert_block_extra_info) refl
    | inr (e, f) ↦ rw (f, insert_block_extra_info) refl
  ]

  fetch_block-height :
      (r : InfoRound) (m : ℤ) (a : Result ℕ) (s : ExtraInfo)
      → (fetch_block chain r m a s).from_height ≡ s.from_height
  unfolding fetch_block
  fetch_block-height r m (ok time) s = collect_block-height r m time (r.collect_fault m) s
  fetch_block-height r m (err e) s = refl
  fetch_block-height r m (panic p) s = refl

  fetch_blocks-height :
      (r : InfoRound) (ns : List ℤ) (s : ExtraInfo)
      → (fetch_blocks chain r ns s).from_height ≡ s.from_height
  unfolding fetch_blocks
  fetch_blocks-height r [] s = refl
  fetch_blocks-height r (m ∷ ns) s =
      fetch_blocks-height r ns (fetch_block chain r m (r.header_by_number m) s)
      ∙ fetch_block-height r m (r.header_by_number m) s

  -- The block n has no row, and is not above the height from which the next round asks.
  abbrev Skipped : ℤ → ExtraInfo → Type 0
  Skipped n s =
      (has_block chain n s.blocks ≡ false)
      × ((h : ℤ) × (s.from_height ≡ some h) × (leb_ℤ n h ≡ true))

  answer_round-Lacks :
      (r : InfoRound) (n : ℤ) (ns : List ℤ) (s : ExtraInfo)
      → OwnBlocks r
      → ((m : ℤ) → Memᴰ m ns → Harmless r n m)
      → has_block chain n s.blocks ≡ false
      → has_block chain n (answer_round chain r (ok ns) s).blocks ≡ false
  unfolding answer_round
  answer_round-Lacks r n ns s own f lacks =
      fetch_blocks-Lacks r n (r.order ns) s (λ m i. f m (own ns m i)) lacks

  -- After a round with blocks the height is not below any of them.
  answer_round-height :
      (r : InfoRound) (n : ℤ) (ns : List ℤ) (s : ExtraInfo)
      → Ascending ns
      → Memᴰ n ns
      → (h : ℤ) × ((answer_round chain r (ok ns) s).from_height ≡ some h) × (leb_ℤ n h ≡ true)
  unfolding answer_round
  answer_round-height r n ns s up i =
      last_known_height-top chain (fetch_blocks chain r (r.order ns) s).from_height n ns up i

  later_round-height :
      (r : InfoRound) (n h : ℤ) (ns : List ℤ) (s : ExtraInfo)
      → Ascending ns
      → ((m : ℤ) → Memᴰ m ns → ltb_ℤ h m ≡ true)
      → s.from_height ≡ some h
      → leb_ℤ n h ≡ true
      → (k : ℤ) × ((answer_round chain r (ok ns) s).from_height ≡ some k) × (leb_ℤ n k ≡ true)
  unfolding answer_round last_known_height
  later_round-height r n h [] s up above e b = (h, fetch_blocks-height r (r.order []) s ∙ e, b)
  later_round-height r n h (m ∷ ns) s up above e b =
      let (k, last, top) = answer_round-height r m (m ∷ ns) s up (Memᴰ.head refl) in
      let low = above m (Memᴰ.head refl) in (k, last, ground (arith, b, low, top))

  -- The query of a later round does not ask for a block that was passed over.
  extra_info_round-Skipped :
      (r : InfoRound) (n : ℤ) (s : ExtraInfo)
      → OwnBlocks r
      → Skipped n s
      → Skipped n (extra_info_round chain r s)
  unfolding extra_info_round get_blocks_missing_extra_info answer_round
  extra_info_round-Skipped r n s own (lacks, (h, e, b)) = go r.query_fault s.from_height e
    where
      go :
          (q : Option GoError) (from : Option ℤ)
          → from ≡ some h
          → Skipped n
              (answer_round chain r (get_blocks_missing_extra_info q chain from s.blocks r.rows) s)
      go (some x) from f = (lacks, (h, e, b))
      go none from f =
          subst
            (λ from.
              Skipped n (answer_round chain r (ok (missing_numbers chain from s.blocks r.rows)) s))
            (sym f)
            (
              answer_round-Lacks r n ns s own (λ m i. inl (other m (above m i))) lacks,
              later_round-height r n h ns s up above e b,
            )
        where
          ns : List ℤ
          ns = missing_numbers chain (some h) s.blocks r.rows

          up : Ascending ns
          up = missing_numbers-Ascending chain (some h) s.blocks r.rows

          above : (m : ℤ) → Memᴰ m ns → ltb_ℤ h m ≡ true
          above m i = missing_numbers-above chain h m s.blocks r.rows i

          other : (m : ℤ) → ltb_ℤ h m ≡ true → eq_ℤ m n ≡ false
          other m a = ground (arith, a, b)

  fetch_extra_block_info-Skipped :
      (rs : List InfoRound) (n : ℤ) (s : ExtraInfo)
      → EachOwn rs
      → Skipped n s
      → Skipped n (fetch_extra_block_info chain rs s)
  unfolding fetch_extra_block_info
  fetch_extra_block_info-Skipped [] n s own k = k
  fetch_extra_block_info-Skipped (r ∷ rs) n s (own, rest) k =
      fetch_extra_block_info-Skipped rs n (extra_info_round chain r s) rest
        (extra_info_round-Skipped r n s own k)

  -- If the query of a round of fetchExtraBlockInfo does not fail and asks for a block whose
  -- header the node then fails to give, and the goroutines of every round are among those of its
  -- blocks, the block has no row after that round and any later ones, whatever the later calls
  -- return.
  pub fetch_extra_block_info-skips :
      (r : InfoRound) (rs : List InfoRound) (n : ℤ) (s : ExtraInfo) (e : GoError)
      → OwnBlocks r
      → EachOwn rs
      → r.query_fault ≡ none
      → Memᴰ n (missing_numbers chain s.from_height s.blocks r.rows)
      → r.header_by_number n ≡ err e
      → has_block chain n (fetch_extra_block_info chain (r ∷ rs) s).blocks ≡ false
  unfolding fetch_extra_block_info extra_info_round get_blocks_missing_extra_info
  fetch_extra_block_info-skips r rs n s e own owns asked i lost =
      (fetch_extra_block_info-Skipped rs n (extra_info_round chain r s) owns (
        subst
          (λ q. Skipped n (
            answer_round chain r
              (get_blocks_missing_extra_info q chain s.from_height s.blocks r.rows) s))
          (sym asked)
          (answer_round-Lacks r n ns s own harmless lacks, answer_round-height r n ns s up i))).0
    where
      ns : List ℤ
      ns = missing_numbers chain s.from_height s.blocks r.rows

      up : Ascending ns
      up = missing_numbers-Ascending chain s.from_height s.blocks r.rows

      lacks : has_block chain n s.blocks ≡ false
      lacks = missing_numbers-Lacks chain s.from_height n s.blocks r.rows i

      harmless : (m : ℤ) → Memᴰ m ns → Harmless r n m
      harmless m j = elim (Bool-cases (eq_ℤ m n)) [
        | inl same ↦ inr (e, ap r.header_by_number (eq_of_parts m n (ground (arith, same))) ∙ lost)
        | inr other ↦ inl other
      ]
