-- ===== src/Nonce/Synced.antt =====
-- About the pending transactions in memory and in the store (pkg/nonce/impl/tracker.go).
use go_tableland.Prelude.{
  ℤ, pos, ◌+ℤ◌, ℕ, String, ◌≡◌, refl, sym, ap, ◌∙◌, subst, ◌≢◌, inl, inr, Bool, true, false, ◌||◌,
  Option, List, [], ◌∷◌, ◌++◌, eq_refl, str_eq, Bool-cases, Option-cases, str_eq_sound, All,
}
use go_tableland.Errors.{GoError, Result, ok, err, panic}
use go_tableland.Nonce.{PendingTx, Tracker, delete_rows, own_txs, order_by_nonce}
use go_tableland.Nonce.Hashes.{
  mem, Distinct, without, or_false, remove_at-without, mem-without_self, mem-without-other,
  str_eq_other, Distinct-without,
}
use go_tableland.Nonce.Stored.{
  mem-order, Distinct-order, own_txs-delete, mem-append, Distinct-append, own_txs-append,
}
use go_tableland.Steps.{Calls, Run, on_error, continue, ◌>>=◌, call}
use go_tableland.Nonce.Node.{TrackerConfig, remove_at, delete_index}

-- A computation takes states with one property to states with another, however it ends.
abbrev pub Takes : {A : Type 0} → (Tracker → Type 0) → Run Tracker A → (Tracker → Type 0) → Type 0
Takes P m Q = (w : Calls Tracker) → P w.state → Q (m w).1.state

pub takes-bind :
    {A B : Type 0} (P R Q : Tracker → Type 0) (m : Run Tracker A) (f : A → Run Tracker B)
    → Takes P m R
    → ((a : A) → Takes R (f a) Q)
    → ((t : Tracker) → R t → Q t)
    → Takes P (m >>= f) Q
unfolding ◌>>=◌
takes-bind P R Q m f first next rest w p = go (m w).0 (m w).1 (first w p)
  where
    go : (r : Result _) (w' : Calls Tracker) → R w'.state → Q (continue r f w').1.state
    go (ok a) w' x = next a w' x
    go (err e) w' x = rest w'.state x
    go (panic s) w' x = rest w'.state x

pub takes-on_error :
    {A : Type 0} (P Q : Tracker → Type 0) (g : GoError → GoError) (m : Run Tracker A)
    → Takes P m Q
    → Takes P (on_error g m) Q
unfolding on_error
takes-on_error P Q g m h w p = h w p

pub takes-call :
    {A : Type 0} (P Q : Tracker → Type 0) (fault : ℕ → Option GoError)
    (statement : Tracker → Result A × Tracker)
    → ((t : Tracker) → P t → Q t)
    → ((t : Tracker) → P t → Q (statement t).1)
    → Takes P (call fault statement) Q
unfolding call
takes-call P Q fault statement failed ran w p = elim (Option-cases (fault w.calls)) [
  | inl e ↦ rw (e, call) (ran w.state p)
  | inr (x, e) ↦ rw (e, call) (failed w.state p)
]

-- The same pending transactions and rows.
abbrev pub SameLists : Tracker → Tracker → Type 0
SameLists t t' = (t'.pending_txs ≡ t.pending_txs) × (t'.rows ≡ t.rows)

true-ne-false : true ≢ false
true-ne-false h = cc

module _ (config : TrackerConfig) where
  abbrev pub stored : Tracker → List PendingTx
  stored t = own_txs config.chain_id config.address t.rows

  -- Memory and store hold the same hashes, each once.
  pub Synced : Tracker → Type 0
  Synced t =
      Distinct t.pending_txs
      × Distinct (stored t)
      × ((h : String) → mem h t.pending_txs ≡ mem h (stored t))

  -- The transactions of a list are different ones that are pending.
  pub Pending : List PendingTx → Tracker → Type 0
  Pending txs t = Distinct txs × All (λ (x : PendingTx). mem x.hash t.pending_txs ≡ true) txs

  pub Both : List PendingTx → Tracker → Type 0
  Both txs t = Synced t × Pending txs t

  mem-false :
      (g h : String) (ts : List PendingTx) → mem g ts ≡ true → mem h ts ≡ false → str_eq h g ≡ false
  mem-false g h ts p q = elim (Bool-cases (str_eq h g)) [
    | inl e ↦ absurd (true-ne-false (sym p ∙ ap (λ x. mem x ts) (sym (str_eq_sound h g e)) ∙ q))
    | inr e ↦ e
  ]

  others :
      (h : String) (txs ts : List PendingTx)
      → mem h txs ≡ false
      → All (λ (x : PendingTx). mem x.hash ts ≡ true) txs
      → All (λ (x : PendingTx). mem x.hash (without h ts) ≡ true) txs
  unfolding mem
  others h [] ts new a = tt
  others h (x ∷ xs) ts new (p, a) =
      let (here, rest) = or_false (str_eq x.hash h) (mem h xs) new in
      (mem-without-other x.hash h ts (str_eq_other x.hash h here) ∙ p, others h xs ts rest a)

  pub removed :
      (tx : PendingTx) (rest : List PendingTx) (t : Tracker)
      → Both (tx ∷ rest) t
      → (remove_at (delete_index tx.hash 0 0 t.pending_txs) t.pending_txs
          ≡ ok (without tx.hash t.pending_txs))
        × Both rest (record t {
          pending_txs = without tx.hash t.pending_txs;
          rows = delete_rows config.chain_id tx.hash t.rows;
        })
  unfolding Both Synced Pending Distinct
  removed tx rest t ((n, m, same), ((new, d), (p, a))) = (
    remove_at-without tx.hash t.pending_txs n p,
    (
      (
        Distinct-without tx.hash t.pending_txs n,
        subst Distinct (sym (own_txs-delete config.chain_id config.address tx.hash t.rows))
            (Distinct-without tx.hash (stored t) m),
        λ h.
            agree h (stored t) (same h)
            ∙ ap (mem h) (sym (own_txs-delete config.chain_id config.address tx.hash t.rows)),
      ),
      (d, others tx.hash rest t.pending_txs new a),
    ),
  )
    where
      agree :
          (h : String) (ts : List PendingTx)
          → mem h t.pending_txs ≡ mem h ts
          → mem h (without tx.hash t.pending_txs) ≡ mem h (without tx.hash ts)
      agree h ts e = elim (Bool-cases (str_eq tx.hash h)) [
        | inl s ↦
            subst (λ x. mem x (without tx.hash t.pending_txs) ≡ mem x (without tx.hash ts))
              (str_eq_sound tx.hash h s)
              (mem-without_self tx.hash t.pending_txs ∙ sym (mem-without_self tx.hash ts))
        | inr s ↦
            mem-without-other h tx.hash t.pending_txs s ∙ e ∙ sym (mem-without-other h tx.hash ts s)
      ]

  -- A list that was read anew.
  pub relisted :
      (rest : List PendingTx) (t : Tracker) (n : ℤ)
      → Both rest t
      → Both rest (record t { pending_txs = order_by_nonce (stored t); curr_nonce = n })
  unfolding Both Synced Pending
  relisted rest t n ((d, m, same), (dr, a)) =
      ((Distinct-order (stored t) m, m, λ h. mem-order h (stored t)), (dr, All-listed rest a))
    where
      All-listed :
          (txs : List PendingTx)
          → All (λ (x : PendingTx). mem x.hash t.pending_txs ≡ true) txs
          → All (λ (x : PendingTx). mem x.hash (order_by_nonce (stored t)) ≡ true) txs
      All-listed [] a = tt
      All-listed (x ∷ xs) (p, a) =
          (mem-order x.hash (stored t) ∙ sym (same x.hash) ∙ p, All-listed xs a)

  pub fewer :
      (tx : PendingTx) (rest : List PendingTx) (t : Tracker) → Both (tx ∷ rest) t → Both rest t
  unfolding Both Pending Distinct
  fewer tx rest t (s, ((new, d), (p, a))) = (s, (d, a))

  pub same-Synced : (t t' : Tracker) → SameLists t t' → Synced t → Synced t'
  unfolding Synced
  same-Synced t t' (p, r) (n, m, same) = (
    subst Distinct (sym p) n,
    subst (λ x. Distinct (own_txs config.chain_id config.address x)) (sym r) m,
    λ h. ap (mem h) p ∙ same h ∙ ap (λ x. mem h (own_txs config.chain_id config.address x)) (sym r),
  )

  pub Both-Synced : (txs : List PendingTx) (t : Tracker) → Both txs t → Synced t
  unfolding Both
  Both-Synced txs t b = b.0

  within :
      (txs ts : List PendingTx)
      → ((h : String) → mem h txs ≡ true → mem h ts ≡ true)
      → All (λ (x : PendingTx). mem x.hash ts ≡ true) txs
  unfolding mem
  within [] ts k = tt
  within (x ∷ xs) ts k = (
    k x.hash (left (str_eq x.hash x.hash) (mem x.hash xs) (eq_refl x.hash)),
    within xs ts (λ h p. k h (right (str_eq x.hash h) (mem h xs) p)),
  )
    where
      left : (a b : Bool) → a ≡ true → (a || b) ≡ true
      left true b h = refl
      left false b h = absurd (true-ne-false (sym h))

      right : (a b : Bool) → b ≡ true → (a || b) ≡ true
      right true b h = refl
      right false b h = h

  -- The transactions in memory are all pending.
  pub Synced-Both : (t : Tracker) → Synced t → Both t.pending_txs t
  unfolding Both Synced Pending
  Synced-Both t s = (s, (s.0, within t.pending_txs t.pending_txs (λ h p. p)))

  -- A transaction that is added to both.
  pub appended :
      (t : Tracker) (nonce : ℤ) (h : String) (now : ℕ)
      → mem h t.pending_txs ≡ false
      → Synced t
      → (let tx : PendingTx = record {
        hash = h;
        nonce = nonce;
        bump_price_count = 0;
        created_at = now;
      } in
          Synced (record t {
            pending_txs = t.pending_txs ++ (tx ∷ []);
            curr_nonce = nonce +ℤ pos 1;
            rows =
                t.rows
                ++ (record { chain_id = config.chain_id; address = config.address; tx = tx } ∷ []);
          }))
  unfolding Synced
  appended t nonce h now new (n, m, same) =
      let tx : PendingTx = record {
        hash = h;
        nonce = nonce;
        bump_price_count = 0;
        created_at = now;
      } in
      let at = own_txs-append config.chain_id config.address tx t.rows in
      (
        Distinct-append t.pending_txs tx new n,
        subst Distinct (sym at) (Distinct-append (stored t) tx (sym (same h) ∙ new) m),
        λ g.
            mem-append g t.pending_txs tx
            ∙ ap (λ x. x || str_eq h g) (same g)
            ∙ sym (mem-append g (stored t) tx)
            ∙ ap (mem g) (sym at),
      )

  pub Synced-none : (t : Tracker) → Synced t → Both [] t
  unfolding Both Pending Distinct
  Synced-none t s = (s, (tt, tt))

  pub empty-Synced :
      (balance attempts unhealthy : ℕ) (n : ℤ)
      → Synced (record {
        curr_nonce = n;
        curr_wei_balance = balance;
        txn_confirmation_attempts = attempts;
        eth_client_unhealthy = unhealthy;
        pending_txs = [];
        rows = [];
      })
  unfolding Synced Distinct own_txs mem
  empty-Synced balance attempts unhealthy n = (tt, tt, λ h. refl)
