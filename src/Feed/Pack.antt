-- ===== src/Feed/Pack.antt =====
-- About packEvents of pkg/eventprocessor/eventfeed/impl/eventfeed.go.
use mathlib.Core.List.{append_assoc, append-nil}
use package.text.Mathlib.TextEquality.{eq_iff}
use go_tableland.Prelude.{
  ℤ, eq_ℤ, eq_of_parts, String, ◌≡◌, refl, sym, ap, ◌∙◌, ◌≢◌, inl, inr, true, false, List, [], ◌∷◌,
  ◌++◌, map, arith, eq_iff, str_eq, Bool-cases, str_eq_sound,
}
use go_tableland.Executor.Events.{Event, TxnEvents}
use go_tableland.Processor.{BlockEvents}
use go_tableland.Feed.{Log, block_of, new_txn, add_to_txns, add_to_blocks, pack_from, pack_events}

-- An event with the block and the transaction that it stands in.
abbrev pub Entry : Type 0
Entry = ℤ × String × Event

abbrev pub entry_of : Log × Event → Entry
entry_of (l, e) = (block_of l, l.tx_hash, e)

abbrev pub flat_events : ℤ → String → List Event → List Entry
flat_events n h [] = []
flat_events n h (e ∷ es) = (n, h, e) ∷ flat_events n h es

abbrev pub flat_txns : ℤ → List TxnEvents → List Entry
flat_txns n [] = []
flat_txns n (t ∷ ts) = flat_events n t.txn_hash t.events ++ flat_txns n ts

-- The events of packed blocks, in order.
abbrev pub flatten : List BlockEvents → List Entry
flatten [] = []
flatten (b ∷ bs) = flat_txns b.block_number b.txns ++ flatten bs

flat_events-append :
    (n : ℤ) (h : String) (es fs : List Event)
    → flat_events n h (es ++ fs) ≡ flat_events n h es ++ flat_events n h fs
flat_events-append n h [] fs = refl
flat_events-append n h (e ∷ es) fs = ap (λ x. (n, h, e) ∷ x) (flat_events-append n h es fs)

flat_txns-add :
    (n : ℤ) (h : String) (e : Event) (ts : List TxnEvents)
    → flat_txns n (add_to_txns h e ts) ≡ flat_txns n ts ++ ((n, h, e) ∷ [])
unfolding add_to_txns
flat_txns-add n h e [] = refl
flat_txns-add n h e (t ∷ []) = elim (Bool-cases (str_eq t.txn_hash h)) [
  | inl s ↦ rw (s, add_to_txns) simp (append-nil, flat_events-append, str_eq_sound t.txn_hash h s)
  | inr s ↦ rw (s, add_to_txns) (simp append-nil)
]
flat_txns-add n h e (t ∷ u ∷ ts) =
    ap (λ x. flat_events n t.txn_hash t.events ++ x) (flat_txns-add n h e (u ∷ ts))
    ∙ sym (append_assoc (flat_events n t.txn_hash t.events) (flat_txns n (u ∷ ts)) _)

number_lem : (m n : ℤ) → eq_ℤ m n ≡ true → m ≡ n
number_lem m n h = ground (arith, eq_of_parts m n)

flatten-add :
    (l : Log) (e : Event) (bs : List BlockEvents)
    → flatten (add_to_blocks l e bs) ≡ flatten bs ++ (entry_of (l, e) ∷ [])
unfolding add_to_blocks
flatten-add l e [] = refl
flatten-add l e (b ∷ []) = elim (Bool-cases (eq_ℤ b.block_number (block_of l))) [
  | inl s ↦
      rw (s, add_to_blocks) simp
        (append-nil, flat_txns-add, number_lem b.block_number (block_of l) s)
  | inr s ↦ rw (s, add_to_blocks) (simp append-nil)
]
flatten-add l e (b ∷ c ∷ bs) =
    ap (λ x. flat_txns b.block_number b.txns ++ x) (flatten-add l e (c ∷ bs))
    ∙ sym (append_assoc (flat_txns b.block_number b.txns) (flatten (c ∷ bs)) _)

flatten-pack_from :
    (bs : List BlockEvents) (logs : List (Log × Event))
    → flatten (pack_from bs logs) ≡ flatten bs ++ map entry_of logs
unfolding pack_from
flatten-pack_from bs [] = sym (append-nil _)
flatten-pack_from bs ((l, e) ∷ rest) =
    flatten-pack_from (add_to_blocks l e bs) rest
    ∙ rw (flatten-add l e bs) (append_assoc (flatten bs) (entry_of (l, e) ∷ []) (map entry_of rest))

-- The first transaction, if there is one, has another hash.
abbrev pub OtherHash : String → List TxnEvents → Type 0
OtherHash h [] = Unit
OtherHash h (t ∷ ts) = h ≢ t.txn_hash

abbrev pub OtherNumber : ℤ → List BlockEvents → Type 0
OtherNumber n [] = Unit
OtherNumber n (b ∷ bs) = n ≢ b.block_number

-- Every transaction has an event, and adjacent ones have different hashes.
abbrev pub PackedTxns : List TxnEvents → Type 0
PackedTxns [] = Unit
PackedTxns (t ∷ ts) = (t.events ≢ []) × OtherHash t.txn_hash ts × PackedTxns ts

-- Every block has a transaction, and adjacent ones have different numbers.
abbrev pub Packed : List BlockEvents → Type 0
Packed [] = Unit
Packed (b ∷ bs) = (b.txns ≢ []) × PackedTxns b.txns × OtherNumber b.block_number bs × Packed bs

append-ne-nil : {A : Type 0} (xs : List A) (x : A) → xs ++ (x ∷ []) ≢ []
append-ne-nil [] x h = cc
append-ne-nil (y ∷ ys) x h = cc

cons-ne-nil : {A : Type 0} (xs : List A) (x : A) → x ∷ xs ≢ []
cons-ne-nil xs x h = cc

str_ne : (s t : String) → str_eq s t ≡ false → s ≢ t
str_ne s t h e = ground (arith, eq_iff s t)

number_ne : (m n : ℤ) → eq_ℤ m n ≡ false → m ≢ n
number_ne m n h e = ground arith

add_to_txns-OtherHash :
    (g h : String) (e : Event) (t : TxnEvents) (ts : List TxnEvents)
    → OtherHash g (t ∷ ts)
    → OtherHash g (add_to_txns h e (t ∷ ts))
unfolding add_to_txns
add_to_txns-OtherHash g h e t [] p = elim (Bool-cases (str_eq t.txn_hash h)) [
  | inl s ↦ rw (s, add_to_txns) p
  | inr s ↦ rw (s, add_to_txns) p
]
add_to_txns-OtherHash g h e t (u ∷ ts) p = p

add_to_txns-PackedTxns :
    (h : String) (e : Event) (ts : List TxnEvents)
    → PackedTxns ts
    → (add_to_txns h e ts ≢ []) × PackedTxns (add_to_txns h e ts)
unfolding add_to_txns
add_to_txns-PackedTxns h e [] p = (cons-ne-nil _ _, (cons-ne-nil [] e, tt, tt))
add_to_txns-PackedTxns h e (t ∷ []) (p, q, r) = elim (Bool-cases (str_eq t.txn_hash h)) [
  | inl s ↦ rw (s, add_to_txns) (cons-ne-nil _ _, (append-ne-nil t.events e, tt, tt))
  | inr s ↦
      rw (s, add_to_txns) (cons-ne-nil _ _, (p, str_ne t.txn_hash h s, (cons-ne-nil [] e, tt, tt)))
]
add_to_txns-PackedTxns h e (t ∷ u ∷ ts) (p, q, r) = (
  cons-ne-nil _ _,
  (p, add_to_txns-OtherHash t.txn_hash h e u ts q, (add_to_txns-PackedTxns h e (u ∷ ts) r).1),
)

add_to_blocks-OtherNumber :
    (n : ℤ) (l : Log) (e : Event) (b : BlockEvents) (bs : List BlockEvents)
    → OtherNumber n (b ∷ bs)
    → OtherNumber n (add_to_blocks l e (b ∷ bs))
unfolding add_to_blocks
add_to_blocks-OtherNumber n l e b [] p = elim (Bool-cases (eq_ℤ b.block_number (block_of l))) [
  | inl s ↦ rw (s, add_to_blocks) p
  | inr s ↦ rw (s, add_to_blocks) p
]
add_to_blocks-OtherNumber n l e b (c ∷ bs) p = p

new_block : (l : Log) (e : Event) → PackedTxns (new_txn l.tx_hash e ∷ [])
new_block l e = (cons-ne-nil [] e, tt, tt)

add_to_blocks-Packed :
    (l : Log) (e : Event) (bs : List BlockEvents) → Packed bs → Packed (add_to_blocks l e bs)
unfolding add_to_blocks
add_to_blocks-Packed l e [] p = (cons-ne-nil _ _, new_block l e, tt, tt)
add_to_blocks-Packed l e (b ∷ []) (p, q, _, _) =
    elim (Bool-cases (eq_ℤ b.block_number (block_of l))) [
      | inl s ↦
          rw (s, add_to_blocks)
            (let (ne, packed) = add_to_txns-PackedTxns l.tx_hash e b.txns q in (ne, packed, tt, tt))
      | inr s ↦
          rw (s, add_to_blocks)
            (
              p,
              q,
              number_ne b.block_number (block_of l) s,
              (cons-ne-nil _ _, new_block l e, tt, tt),
            )
    ]
add_to_blocks-Packed l e (b ∷ c ∷ bs) (p, q, r, s) =
    (p, q, add_to_blocks-OtherNumber b.block_number l e c bs r, add_to_blocks-Packed l e (c ∷ bs) s)

pack_from-Packed :
    (bs : List BlockEvents) (logs : List (Log × Event)) → Packed bs → Packed (pack_from bs logs)
unfolding pack_from
pack_from-Packed bs [] p = p
pack_from-Packed bs ((l, e) ∷ rest) p =
    pack_from-Packed (add_to_blocks l e bs) rest (add_to_blocks-Packed l e bs p)

-- The events of the packed blocks, in order and with the block number and the transaction hash
-- that they stand under, are those of the logs; no packed block is without a transaction and no
-- transaction without an event, and adjacent blocks have different numbers and adjacent
-- transactions of a block different hashes.
pub pack_events-flatten :
    (logs : List (Log × Event))
    → (flatten (pack_events logs) ≡ map entry_of logs) × Packed (pack_events logs)
unfolding pack_events
pack_events-flatten logs = (flatten-pack_from [] logs, pack_from-Packed [] logs tt)
