-- ===== src/Nonce/Node.antt =====
-- What the tracker of pkg/nonce/impl/tracker.go works with: the node, its transactions, and the list of pending ones.
use Prim.Native.String.{find}
use go_tableland.Prelude.{
  ℤ, ℕ, zero, suc, ◌*◌, ◌/◌, String, len, ◌≡◌, refl, ◌⊎◌, inl, inr, Bool, List, [], ◌∷◌, str_eq,
  ltb, leb, if◌then◌else◌,
}
use go_tableland.Errors.{text, flattened, Result, ok, err, panic}
use go_tableland.Nonce.{PendingTx}
use go_tableland.Steps.{Run, pure, fail}

-- What a node answers, or the message it refuses with.
pub data Answer (A : Type 0) : Type 0 where
  answer : A → Answer A
  refused : String → Answer A

pub Answer-cases :
    {A : Type 0} (r : Answer A) → ((a : A) × (r ≡ answer a)) ⊎ ((s : String) × (r ≡ refused s))
Answer-cases (answer a) = inl (a, refl)
Answer-cases (refused s) = inr (s, refl)

-- A transaction of the mempool; its other fields are one text.
pub record Txn : Type 0 where
  pub nonce : ℕ
  pub gas_price : ℕ
  pub body : String

-- The node, the wallet and the clock, by the number of the call.
pub record EthNode : Type 0 where
  pub pending_nonce_at : ℕ → Answer ℕ
  pub transaction_receipt : ℕ → String → Answer ℤ
  pub header_by_number : ℕ → Answer ℤ
  pub balance_at : ℕ → Answer ℕ
  pub transaction_by_hash : ℕ → String → Answer (Txn × Bool)
  pub suggest_gas_price : ℕ → Answer ℕ
  pub sign : Txn → Result Txn
  pub send_transaction : ℕ → Txn → Answer (Unit {0})
  pub hash_of : Txn → String
  pub now : ℕ → ℕ

pub record TrackerConfig : Type 0 where
  pub min_block_chain_depth : ℕ
  pub stuck_interval : ℕ
  pub chain_id : ℕ
  pub address : String

-- nil, or the errors that checkPendingTxns tells apart.
pub data Checked : Type 0 where
  included pending_tx_may_be_stuck receipt_not_found block_diff_not_enough : Checked

-- strings.Contains(err.Error(), "not found")
unfoldable pub is_not_found : String → Bool
is_not_found s = leb (find s "not found") (len s)

module _ {S : Type 0} where
  -- A call of the node.
  unfoldable pub ask : {A : Type 0} → (ℕ → A) → Run S A
  ask f w = (ok (f w.calls), record w { calls = suc w.calls })

  unfoldable pub modify : (S → S) → Run S (Unit {0})
  modify f w = (ok tt, record w { state = f w.state })

  unfoldable pub state_of : Run S S
  state_of w = (ok w.state, w)

  -- An error that is only logged.
  unfoldable pub logged : Run S (Unit {0}) → Run S (Unit {0})
  logged m w = let (r, w') = m w in (forget r, w')
    where
      forget : Result (Unit {0}) → Result (Unit {0})
      forget (ok u) = ok u
      forget (err e) = ok tt
      forget (panic s) = panic s

  unfoldable pub need : {A : Type 0} → String → Answer A → Run S A
  unfolding fail pure
  need context (answer a) = pure a
  need context (refused s) = fail (flattened context (text s))

-- append(s[:i], s[i+1:]...), which panics if the list has no index `i`.
unfoldable pub remove_at : ℕ → List PendingTx → Result (List PendingTx)
remove_at i [] = panic "slice bounds out of range"
remove_at zero (t ∷ ts) = ok ts
remove_at (suc i) (t ∷ ts) = keep_first t (remove_at i ts)
  where
    keep_first : PendingTx → Result (List PendingTx) → Result (List PendingTx)
    keep_first t (ok ts) = ok (t ∷ ts)
    keep_first t (err e) = err e
    keep_first t (panic s) = panic s

-- The last index of a hash, from the index `i`; `found` if there is none.
unfoldable pub delete_index : String → ℕ → ℕ → List PendingTx → ℕ
delete_index h i found [] = found
delete_index h i found (t ∷ ts) = delete_index h (suc i) (if str_eq t.hash h then i else found) ts

-- The higher of the old price with a quarter more, and of what the node suggests.
unfoldable pub new_gas_price : ℕ → ℕ → ℕ
new_gas_price old suggested =
    let candidate = old * 125 / 100 in if ltb candidate suggested then suggested else candidate
