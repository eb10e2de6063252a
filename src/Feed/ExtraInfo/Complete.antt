-- ===== src/Feed/ExtraInfo/Complete.antt =====
-- About a round of fetchExtraBlockInfo of pkg/eventprocessor/eventfeed/impl/analytics.go whose calls do not fail.
use mathlib.Core.List.{Memᴰ}
use mathlib.Core.List.Memᴰ
use go_tableland.Prelude.{
  ℤ, ltb_ℤ, eq_ℤ, eq_of_parts, ℕ, ◌≡◌, refl, sym, ap, ◌∙◌, subst, inl, inr, Bool, true, false,
  Option, none, some, List, [], ◌∷◌, ◌++◌, arith, if◌then◌else◌, Bool-cases,
}
use go_tableland.Errors.{GoError, Result, ok, err, panic}
use go_tableland.Database.{int64_key}
use go_tableland.Feed.Persist.{EvmEvent}
use go_tableland.Feed.ExtraInfo.{
  BlockRow, has_block, insert_block, add_number, above_height, is_missing, missing_numbers,
  get_blocks_missing_extra_info, InfoRound, ExtraInfo, insert_block_extra_info, collect_block,
  fetch_block, fetch_blocks, answer_round, extra_info_round,
}

add_number-self : (n : ℤ) (ms : List ℤ) → Memᴰ n (add_number n ms)
unfolding add_number
add_number-self n [] = Memᴰ.head refl
add_number-self n (m ∷ ms) = go (ltb_ℤ n m) (eq_ℤ n m) refl (add_number-self n ms)
  where
    go :
        (b c : Bool)
        → eq_ℤ n m ≡ c
        → Memᴰ n (add_number n ms)
        → Memᴰ n (if b then n ∷ m ∷ ms else if c then m ∷ ms else m ∷ add_number n ms)
    go true c e i = Memᴰ.head refl
    go false true e i = Memᴰ.head (eq_of_parts n m (ground (arith, e)))
    go false false e i = Memᴰ.tail i

add_number-keeps : (n x : ℤ) (ms : List ℤ) → Memᴰ x ms → Memᴰ x (add_number n ms)
unfolding add_number
add_number-keeps n x [] i = Memᴰ.tail i
add_number-keeps n x (m ∷ ms) i = go (ltb_ℤ n m) (eq_ℤ n m) i (add_number-keeps n x ms)
  where
    go :
        (b c : Bool)
        → Memᴰ x (m ∷ ms)
        → (Memᴰ x ms → Memᴰ x (add_number n ms))
        → Memᴰ x (if b then n ∷ m ∷ ms else if c then m ∷ ms else m ∷ add_number n ms)
    go true c i k = Memᴰ.tail i
    go false true i k = i
    go false false (Memᴰ.head e) k = Memᴰ.head e
    go false false (Memᴰ.tail i) k = Memᴰ.tail (k i)

missing_numbers-asked :
    (chain : ℕ) (height : Option ℤ) (bs : List BlockRow) (e : EvmEvent) (es : List EvmEvent)
    → Memᴰ e es
    → is_missing chain height bs e ≡ true
    → Memᴰ e.block_number (missing_numbers chain height bs es)
unfolding missing_numbers
missing_numbers-asked chain height bs e [] i m = absurd (Memᴰ.not-nil i)
missing_numbers-asked chain height bs e (x ∷ es) i m =
    go (is_missing chain height bs x) refl i (λ j. missing_numbers-asked chain height bs e es j m)
  where
    rest : List ℤ
    rest = missing_numbers chain height bs es

    go :
        (b : Bool)
        → is_missing chain height bs x ≡ b
        → Memᴰ e (x ∷ es)
        → (Memᴰ e es → Memᴰ e.block_number rest)
        → Memᴰ e.block_number (if b then add_number x.block_number rest else rest)
    go true b (Memᴰ.head s) k =
        subst (λ y. Memᴰ e.block_number (add_number y rest))
          (ap (λ (y : EvmEvent). y.block_number) s) (add_number-self e.block_number rest)
    go true b (Memᴰ.tail j) k = add_number-keeps x.block_number e.block_number rest (k j)
    go false b (Memᴰ.head s) k =
        let no : is_missing chain height bs e ≡ false = ap (is_missing chain height bs) s ∙ b in
        absurd (ground (arith, m, no))
    go false b (Memᴰ.tail j) k = k j

has_block-append :
    (chain : ℕ) (n : ℤ) (bs : List BlockRow) (b : BlockRow)
    → has_block chain n bs ≡ true
    → has_block chain n (bs ++ (b ∷ [])) ≡ true
unfolding has_block
has_block-append chain n [] b h = absurd cc
has_block-append chain n (x ∷ bs) b h = ground (arith, h, has_block-append chain n bs b)

has_block-new :
    (b : BlockRow) (bs : List BlockRow)
    → has_block b.chain_id b.block_number (bs ++ (b ∷ [])) ≡ true
unfolding has_block
has_block-new b [] = ground arith
has_block-new b (x ∷ bs) = let rest = has_block-new b bs in ground (arith, rest)

insert_block-Has :
    (b : BlockRow) (bs : List BlockRow)
    → has_block b.chain_id b.block_number (insert_block b bs).1 ≡ true
unfolding insert_block
insert_block-Has b bs = elim (Bool-cases (has_block b.chain_id b.block_number bs)) [
  | inl c ↦ rw (c, insert_block) c
  | inr c ↦ rw (c, insert_block) (has_block-new b bs)
]

insert_block-keeps :
    (chain : ℕ) (n : ℤ) (b : BlockRow) (bs : List BlockRow)
    → has_block chain n bs ≡ true
    → has_block chain n (insert_block b bs).1 ≡ true
unfolding insert_block
insert_block-keeps chain n b bs h = elim (Bool-cases (has_block b.chain_id b.block_number bs)) [
  | inl c ↦ rw (c, insert_block) h
  | inr c ↦ rw (c, insert_block) (has_block-append chain n bs b h)
]

-- No call of the round fails.
abbrev pub Quiet : InfoRound → Type 0
Quiet r =
    (n : ℤ)
    → ((time : ℕ) × (r.header_by_number n ≡ ok time))
      × (r.collect_fault n ≡ none)
      × (r.insert_fault n ≡ none)

module _ (chain : ℕ) where
  insert_block_extra_info-keeps :
      (f : Option GoError) (n m : ℤ) (time : ℕ) (s : ExtraInfo)
      → has_block chain n s.blocks ≡ true
      → has_block chain n (insert_block_extra_info chain f m time s).blocks ≡ true
  unfolding insert_block_extra_info
  insert_block_extra_info-keeps (some e) n m time s h = h
  insert_block_extra_info-keeps none n m time s h =
      insert_block-keeps chain n
        (record { chain_id = chain; block_number = m; timestamp = int64_key time }) s.blocks h

  collect_block-keeps :
      (r : InfoRound) (n m : ℤ) (time : ℕ) (c : Option GoError) (s : ExtraInfo)
      → has_block chain n s.blocks ≡ true
      → has_block chain n (collect_block chain r m time c s).blocks ≡ true
  unfolding collect_block
  collect_block-keeps r n m time (some e) s h = h
  collect_block-keeps r n m time none s h =
      insert_block_extra_info-keeps (r.insert_fault m) n m time _ h

  fetch_block-keeps :
      (r : InfoRound) (n m : ℤ) (a : Result ℕ) (s : ExtraInfo)
      → has_block chain n s.blocks ≡ true
      → has_block chain n (fetch_block chain r m a s).blocks ≡ true
  unfolding fetch_block
  fetch_block-keeps r n m (ok time) s h = collect_block-keeps r n m time (r.collect_fault m) s h
  fetch_block-keeps r n m (err e) s h = h
  fetch_block-keeps r n m (panic p) s h = h

  fetch_blocks-keeps :
      (r : InfoRound) (n : ℤ) (ns : List ℤ) (s : ExtraInfo)
      → has_block chain n s.blocks ≡ true
      → has_block chain n (fetch_blocks chain r ns s).blocks ≡ true
  unfolding fetch_blocks
  fetch_blocks-keeps r n [] s h = h
  fetch_blocks-keeps r n (m ∷ ns) s h =
      fetch_blocks-keeps r n ns (fetch_block chain r m (r.header_by_number m) s)
        (fetch_block-keeps r n m (r.header_by_number m) s h)

  fetch_block-Has :
      (r : InfoRound) (n : ℤ) (s : ExtraInfo)
      → Quiet r
      → has_block chain n (fetch_block chain r n (r.header_by_number n) s).blocks ≡ true
  unfolding fetch_block collect_block insert_block_extra_info
  fetch_block-Has r n s quiet =
      let ((time, h), c, i) = quiet n in
      rw (h, fetch_block) (go time (r.collect_fault n) (r.insert_fault n) c i)
    where
      go :
          (time : ℕ) (c f : Option GoError)
          → c ≡ none
          → f ≡ none
          → has_block chain n
              (collect_block chain (record r { insert_fault = λ k. f }) n time c s).blocks
            ≡ true
      go time none none c f =
          insert_block-Has
            (record { chain_id = chain; block_number = n; timestamp = int64_key time }) s.blocks
      go time (some e) f c g = absurd cc
      go time none (some e) c g = absurd cc

  fetch_blocks-Has :
      (r : InfoRound) (n : ℤ) (ns : List ℤ) (s : ExtraInfo)
      → Quiet r
      → Memᴰ n ns
      → has_block chain n (fetch_blocks chain r ns s).blocks ≡ true
  unfolding fetch_blocks
  fetch_blocks-Has r n [] s quiet i = absurd (Memᴰ.not-nil i)
  fetch_blocks-Has r n (m ∷ ns) s quiet (Memᴰ.head e) =
      fetch_blocks-keeps r n ns (fetch_block chain r m (r.header_by_number m) s) (
        subst
          (λ k. has_block chain k (fetch_block chain r m (r.header_by_number m) s).blocks ≡ true)
          (sym e) (fetch_block-Has r m s quiet))
  fetch_blocks-Has r n (m ∷ ns) s quiet (Memᴰ.tail i) =
      fetch_blocks-Has r n ns (fetch_block chain r m (r.header_by_number m) s) quiet i

  -- If no call of a round of fetchExtraBlockInfo fails and every block asked for is fetched in
  -- it, then after the round the block of every stored event of the chain that is above the known
  -- height has its row in system_evm_blocks.
  pub extra_info_round_complete :
      (r : InfoRound) (s : ExtraInfo) (e : EvmEvent)
      → Quiet r
      → r.query_fault ≡ none
      → ((ns : List ℤ) (n : ℤ) → Memᴰ n ns → Memᴰ n (r.order ns))
      → Memᴰ e r.rows
      → e.chain_id ≡ chain
      → above_height s.from_height e.block_number ≡ true
      → has_block chain e.block_number (extra_info_round chain r s).blocks ≡ true
  unfolding extra_info_round get_blocks_missing_extra_info answer_round is_missing
  extra_info_round_complete r s e quiet asked all i on_chain above =
      subst
        (λ q.
          has_block chain e.block_number
            (answer_round chain r
              (get_blocks_missing_extra_info q chain s.from_height s.blocks r.rows) s).blocks
          ≡ true)
        (sym asked) found
    where
      ns : List ℤ
      ns = missing_numbers chain s.from_height s.blocks r.rows

      found : has_block chain e.block_number (fetch_blocks chain r (r.order ns) s).blocks ≡ true
      found = elim (Bool-cases (has_block chain e.block_number s.blocks)) [
        | inl has ↦ fetch_blocks-keeps r e.block_number (r.order ns) s has
        | inr lacks ↦ fetch_blocks-Has r e.block_number (r.order ns) s quiet (
            all ns e.block_number (
              missing_numbers-asked chain s.from_height s.blocks e r.rows i
                (ground (arith, on_chain, above, lacks))))
      ]
