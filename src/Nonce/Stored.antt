-- ===== src/Nonce/Stored.antt =====
-- The hashes of a tracker's own rows, and of lists that grow.
use go_tableland.Prelude.{
  leb_ℤ, ℕ, String, ◌≡◌, refl, ap, ◌∙◌, inl, inr, Bool, true, false, ◌&&◌, ◌||◌, List, [], ◌∷◌,
  ◌++◌, arith, eq_refl, str_eq, ◌==◌, Bool-cases,
}
use go_tableland.Nonce.{
  PendingTx, PendingRow, delete_rows, own_txs, insert_by_nonce, order_by_nonce,
}
use go_tableland.Nonce.Hashes.{mem, Distinct, without, or_false, str_eq_other}

or_swap : (a b c : Bool) → (a || (b || c)) ≡ (b || (a || c))
or_swap true true c = refl
or_swap true false c = refl
or_swap false true c = refl
or_swap false false c = refl

mem-insert :
    (g : String) (t : PendingTx) (us : List PendingTx)
    → mem g (insert_by_nonce t us) ≡ mem g (t ∷ us)
unfolding mem insert_by_nonce
mem-insert g t [] = refl
mem-insert g t (u ∷ us) = elim (Bool-cases (leb_ℤ t.nonce u.nonce)) [
  | inl s ↦ rw (s, insert_by_nonce) refl
  | inr s ↦
      rw (s, insert_by_nonce)
        (ap (λ x. str_eq u.hash g || x) (mem-insert g t us)
          ∙ or_swap (str_eq u.hash g) (str_eq t.hash g) (mem g us))
]

pub mem-order : (g : String) (ts : List PendingTx) → mem g (order_by_nonce ts) ≡ mem g ts
unfolding mem order_by_nonce
mem-order g [] = refl
mem-order g (t ∷ ts) =
    mem-insert g t (order_by_nonce ts) ∙ ap (λ x. str_eq t.hash g || x) (mem-order g ts)

or-both : (a b : Bool) → a ≡ false → b ≡ false → (a || b) ≡ false
or-both true b h k = h
or-both false b h k = k

Distinct-insert :
    (t : PendingTx) (us : List PendingTx)
    → mem t.hash us ≡ false
    → Distinct us
    → Distinct (insert_by_nonce t us)
unfolding Distinct mem insert_by_nonce
Distinct-insert t [] new n = (refl, tt)
Distinct-insert t (u ∷ us) new (old, n) = elim (Bool-cases (leb_ℤ t.nonce u.nonce)) [
  | inl s ↦ rw (s, insert_by_nonce) (new, (old, n))
  | inr s ↦
      let (here, rest) = or_false (str_eq u.hash t.hash) (mem t.hash us) new in
      rw (s, insert_by_nonce)
        (
          mem-insert u.hash t us
              ∙ or-both (str_eq t.hash u.hash) (mem u.hash us) (str_eq_other u.hash t.hash here)
                  old,
          Distinct-insert t us rest n,
        )
]

pub Distinct-order : (ts : List PendingTx) → Distinct ts → Distinct (order_by_nonce ts)
unfolding Distinct order_by_nonce
Distinct-order [] n = tt
Distinct-order (t ∷ ts) (new, n) =
    Distinct-insert t (order_by_nonce ts) (mem-order t.hash ts ∙ new) (Distinct-order ts n)

-- The statement and the list without the hash agree on a tracker's own rows.
pub own_txs-delete :
    (chain : ℕ) (address h : String) (rows : List PendingRow)
    → own_txs chain address (delete_rows chain h rows) ≡ without h (own_txs chain address rows)
unfolding own_txs delete_rows without
own_txs-delete chain address h [] = refl
own_txs-delete chain address h (r ∷ rs) = elim (Bool-cases (r.chain_id == chain)) [
  | inr c ↦ rw (c) (rw (c) (own_txs-delete chain address h rs))
  | inl c ↦ elim (Bool-cases (str_eq r.tx.hash h)) [
    | inl s ↦ elim (Bool-cases (str_eq r.address address)) [
      | inl a ↦ rw (c, s, a) (rw (s) (own_txs-delete chain address h rs))
      | inr a ↦ rw (c, s, a) (own_txs-delete chain address h rs)
    ]
    | inr s ↦ elim (Bool-cases (str_eq r.address address)) [
      | inl a ↦ rw (c, s, a) (rw (c, s) (ap (λ x. r.tx ∷ x) (own_txs-delete chain address h rs)))
      | inr a ↦ rw (c, s, a) (rw (c) (own_txs-delete chain address h rs))
    ]
  ]
]

pub mem-append :
    (g : String) (ts : List PendingTx) (t : PendingTx)
    → mem g (ts ++ (t ∷ [])) ≡ (mem g ts || str_eq t.hash g)
unfolding mem
mem-append g [] t = or-end (str_eq t.hash g)
  where
    or-end : (b : Bool) → (b || false) ≡ b
    or-end true = refl
    or-end false = refl
mem-append g (u ∷ us) t =
    ap (λ x. str_eq u.hash g || x) (mem-append g us t)
    ∙ or_assoc (str_eq u.hash g) (mem g us) (str_eq t.hash g)
  where
    or_assoc : (a b c : Bool) → (a || (b || c)) ≡ ((a || b) || c)
    or_assoc true b c = refl
    or_assoc false b c = refl

pub Distinct-append :
    (ts : List PendingTx) (t : PendingTx)
    → mem t.hash ts ≡ false
    → Distinct ts
    → Distinct (ts ++ (t ∷ []))
unfolding Distinct mem
Distinct-append [] t new n = (refl, tt)
Distinct-append (u ∷ us) t new (old, n) =
    let (here, rest) = or_false (str_eq u.hash t.hash) (mem t.hash us) new in
    (
      mem-append u.hash us t
          ∙ or-both (mem u.hash us) (str_eq t.hash u.hash) old (str_eq_other u.hash t.hash here),
      Distinct-append us t rest n,
    )

own : (n : ℕ) → (n == n) ≡ true
own n = ground arith

pub own_txs-append :
    (chain : ℕ) (address : String) (tx : PendingTx) (rows : List PendingRow)
    → own_txs chain address (rows ++ (record { chain_id = chain; address = address; tx = tx } ∷ []))
      ≡ own_txs chain address rows ++ (tx ∷ [])
unfolding own_txs
own_txs-append chain address tx [] = rw (own chain, eq_refl address) refl
own_txs-append chain address tx (r ∷ rs) =
    elim (Bool-cases ((r.chain_id == chain) && str_eq r.address address)) [
      | inl b ↦ rw (b) (ap (λ x. r.tx ∷ x) (own_txs-append chain address tx rs))
      | inr b ↦ rw (b) (own_txs-append chain address tx rs)
    ]
