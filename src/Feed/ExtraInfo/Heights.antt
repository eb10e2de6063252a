-- ===== src/Feed/ExtraInfo/Heights.antt =====
-- About the blocks that fetchExtraBlockInfo of pkg/eventprocessor/eventfeed/impl/analytics.go passes over.
use mathlib.Core.List.{Memᴰ}
use mathlib.Core.List.Memᴰ
use go_tableland.Prelude.{
  ℤ, leb_ℤ, ltb_ℤ, eq_ℤ, ℕ, ◌≡◌, refl, sym, subst, ◌⊎◌, inl, inr, Bool, true, false, Option, some,
  List, [], ◌∷◌, arith, if◌then◌else◌,
}
use go_tableland.Feed.Persist.{EvmEvent}
use go_tableland.Feed.ExtraInfo.{
  BlockRow, has_block, add_number, above_height, is_missing, missing_numbers, last_known_height,
}

-- In strictly ascending order.
abbrev pub Ascending : List ℤ → Type 0
Ascending [] = Unit
Ascending (m ∷ ms) = ((x : ℤ) → Memᴰ x ms → ltb_ℤ m x ≡ true) × Ascending ms

add_number-Mem : (n x : ℤ) (ms : List ℤ) → Memᴰ x (add_number n ms) → (x ≡ n) ⊎ Memᴰ x ms
unfolding add_number
add_number-Mem n x [] (Memᴰ.head e) = inl e
add_number-Mem n x [] (Memᴰ.tail i) = inr i
add_number-Mem n x (m ∷ ms) i = go (ltb_ℤ n m) (eq_ℤ n m) i (add_number-Mem n x ms)
  where
    go :
        (b c : Bool)
        → Memᴰ x (if b then n ∷ m ∷ ms else if c then m ∷ ms else m ∷ add_number n ms)
        → (Memᴰ x (add_number n ms) → (x ≡ n) ⊎ Memᴰ x ms)
        → (x ≡ n) ⊎ Memᴰ x (m ∷ ms)
    go true c (Memᴰ.head e) k = inl e
    go true c (Memᴰ.tail i) k = inr i
    go false true i k = inr i
    go false false (Memᴰ.head e) k = inr (Memᴰ.head e)
    go false false (Memᴰ.tail i) k = elim (k i) [ inl e ↦ inl e | inr j ↦ inr (Memᴰ.tail j) ]

add_number-Ascending : (n : ℤ) (ms : List ℤ) → Ascending ms → Ascending (add_number n ms)
unfolding add_number
add_number-Ascending n [] a = ((λ x i. absurd (Memᴰ.not-nil i)), tt)
add_number-Ascending n (m ∷ ms) (low, a) =
    go (ltb_ℤ n m) (eq_ℤ n m) refl refl (add_number-Ascending n ms a)
  where
    lower : ltb_ℤ n m ≡ true → (x : ℤ) → Memᴰ x (m ∷ ms) → ltb_ℤ n x ≡ true
    lower b x (Memᴰ.head e) = subst (λ k. ltb_ℤ n k ≡ true) (sym e) b
    lower b x (Memᴰ.tail i) = let c = low x i in ground (arith, b, c)

    higher : ltb_ℤ n m ≡ false → eq_ℤ n m ≡ false → (x : ℤ) → (x ≡ n) ⊎ Memᴰ x ms → ltb_ℤ m x ≡ true
    higher b c x (inl e) = subst (λ k. ltb_ℤ m k ≡ true) (sym e) (ground (arith, b, c))
    higher b c x (inr i) = low x i

    go :
        (b c : Bool)
        → ltb_ℤ n m ≡ b
        → eq_ℤ n m ≡ c
        → Ascending (add_number n ms)
        → Ascending (if b then n ∷ m ∷ ms else if c then m ∷ ms else m ∷ add_number n ms)
    go true c b e k = (lower b, (low, a))
    go false true b e k = (low, a)
    go false false b e k = ((λ x i. higher b e x (add_number-Mem n x ms i)), k)

pub missing_numbers-Ascending :
    (chain : ℕ) (height : Option ℤ) (bs : List BlockRow) (es : List EvmEvent)
    → Ascending (missing_numbers chain height bs es)
unfolding missing_numbers
missing_numbers-Ascending chain height bs [] = tt
missing_numbers-Ascending chain height bs (e ∷ es) =
    go (is_missing chain height bs e) (missing_numbers-Ascending chain height bs es)
  where
    rest : List ℤ
    rest = missing_numbers chain height bs es

    go :
        (b : Bool) → Ascending rest → Ascending (if b then add_number e.block_number rest else rest)
    go true a = add_number-Ascending e.block_number rest a
    go false a = a

-- What is asked for is the block of a row that misses it.
missing_numbers-Mem :
    (chain : ℕ) (height : Option ℤ) (x : ℤ) (bs : List BlockRow) (es : List EvmEvent)
    → Memᴰ x (missing_numbers chain height bs es)
    → (e : EvmEvent) × (is_missing chain height bs e ≡ true) × (x ≡ e.block_number)
unfolding missing_numbers
missing_numbers-Mem chain height x bs [] i = absurd (Memᴰ.not-nil i)
missing_numbers-Mem chain height x bs (e ∷ es) i =
    go (is_missing chain height bs e) refl i (missing_numbers-Mem chain height x bs es)
  where
    rest : List ℤ
    rest = missing_numbers chain height bs es

    Asked : Type 0
    Asked = (e : EvmEvent) × (is_missing chain height bs e ≡ true) × (x ≡ e.block_number)

    go :
        (b : Bool)
        → is_missing chain height bs e ≡ b
        → Memᴰ x (if b then add_number e.block_number rest else rest)
        → (Memᴰ x rest → Asked)
        → Asked
    go true b i k = elim (add_number-Mem e.block_number x rest i) [
      | inl s ↦ (e, b, s)
      | inr j ↦ k j
    ]
    go false b i k = k i

pub missing_numbers-above :
    (chain : ℕ) (h x : ℤ) (bs : List BlockRow) (es : List EvmEvent)
    → Memᴰ x (missing_numbers chain (some h) bs es)
    → ltb_ℤ h x ≡ true
unfolding is_missing above_height
missing_numbers-above chain h x bs es i =
    let (e, b, s) = missing_numbers-Mem chain (some h) x bs es i in
    subst (λ n. ltb_ℤ h n ≡ true) (sym s) (ground (arith, b))

pub missing_numbers-Lacks :
    (chain : ℕ) (height : Option ℤ) (x : ℤ) (bs : List BlockRow) (es : List EvmEvent)
    → Memᴰ x (missing_numbers chain height bs es)
    → has_block chain x bs ≡ false
unfolding is_missing
missing_numbers-Lacks chain height x bs es i =
    let (e, b, s) = missing_numbers-Mem chain height x bs es i in
    subst (λ n. has_block chain n bs ≡ false) (sym s) (ground (arith, b))

-- The last number of an ascending list is not below any of it.
pub last_known_height-top :
    (chain : ℕ) (height : Option ℤ) (n : ℤ) (ns : List ℤ)
    → Ascending ns
    → Memᴰ n ns
    → (h : ℤ) × (last_known_height chain height ns ≡ some h) × (leb_ℤ n h ≡ true)
unfolding last_known_height
last_known_height-top chain height n [] a i = absurd (Memᴰ.not-nil i)
last_known_height-top chain height n (m ∷ []) a (Memᴰ.head e) =
    (m, refl, subst (λ k. leb_ℤ k m ≡ true) (sym e) (ground arith))
last_known_height-top chain height n (m ∷ []) a (Memᴰ.tail i) = absurd (Memᴰ.not-nil i)
last_known_height-top chain height n (m ∷ k ∷ ms) (low, a) (Memᴰ.head e) =
    let (h, last, up) = last_known_height-top chain (some m) k (k ∷ ms) a (Memᴰ.head refl) in
    let b = low k (Memᴰ.head refl) in
    (h, last, subst (λ x. leb_ℤ x h ≡ true) (sym e) (ground (arith, b, up)))
last_known_height-top chain height n (m ∷ k ∷ ms) (low, a) (Memᴰ.tail i) =
    last_known_height-top chain (some m) n (k ∷ ms) a i
