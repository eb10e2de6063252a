-- ===== src/Nonce/Balance.antt =====
-- About the balance and the gas price of pkg/nonce/impl/tracker.go.
use go_tableland.Prelude.{
  ℕ, zero, suc, ◌+◌, ◌*◌, ◌/◌, ◌^◌, ◌≤◌, ◌<◌, ◌≡◌, refl, sym, ◌∙◌, ◌⊎◌, inl, inr, List, [], ◌∷◌,
  arith, ltb, if◌then◌else◌, Bool-cases, length,
}
use go_tableland.Errors.{text, ok, err}
use go_tableland.Nonce.Gwei.{digits, value, parse_int, drop, gwei_of}
use go_tableland.Nonce.Node.{new_gas_price}

nine : (n : ℕ) → n / 10 / 10 / 10 / 10 / 10 / 10 / 10 / 10 / 10 ≡ n / 1000000000
nine n = omega arith

tenths : ℕ → ℕ → ℕ
tenths zero n = n
tenths (suc k) n = tenths k (n / 10)

tenths-zero : (k : ℕ) → tenths k 0 ≡ 0
unfolding tenths
tenths-zero zero = refl
tenths-zero (suc k) = tenths-zero k

value-digits : (fuel n : ℕ) → n < fuel → value (digits fuel n) ≡ n
unfolding value digits
value-digits zero n lt = omega arith
value-digits (suc fuel) n lt = elim (Bool-cases (ltb n 10)) [
  | inl b ↦ rw (b, digits) (omega arith)
  | inr b ↦
      let big : 10 ≤ n = ground arith in
      rw (b, digits, value-digits fuel (n / 10) (omega arith)) (omega arith)
]

value-drop : (k fuel n : ℕ) → n < fuel → value (drop k (digits fuel n)) ≡ tenths k n
unfolding value digits drop tenths
value-drop zero fuel n lt = value-digits fuel n lt
value-drop (suc k) zero n lt = omega arith
value-drop (suc k) (suc fuel) n lt = elim (Bool-cases (ltb n 10)) [
  | inl b ↦
      let small : n / 10 ≡ 0 = ground arith in rw (b, digits, small, tenths-zero k) (nothing k)
  | inr b ↦
      let big : 10 ≤ n = ground arith in rw (b, digits) (value-drop k fuel (n / 10) (omega arith))
]
  where
    nothing : (k : ℕ) → value (drop k []) ≡ 0
    nothing zero = refl
    nothing (suc k) = refl

drop-short : (k : ℕ) (ds : List ℕ) → length ds ≤ k → value (drop k ds) ≡ 0
unfolding drop value
drop-short zero [] le = refl
drop-short zero (d ∷ ds) le = omega arith
drop-short (suc k) [] le = refl
drop-short (suc k) (d ∷ ds) le = drop-short k ds (omega arith)

-- The balance without its last nine digits, read as a number, is the balance divided by 10^9, and
-- an error where that is 2^63 or more.
pub gwei_of_lem :
    (wei : ℕ)
    → gwei_of wei ≡ (
        if ltb (wei / 1000000000) (2 ^ 63)
        then ok (wei / 1000000000)
        else err (text "value out of range"))
unfolding gwei_of parse_int tenths
gwei_of_lem wei =
    let at : value (drop 9 (digits (suc wei) wei)) ≡ wei / 1000000000 =
      value-drop 9 (suc wei) wei (omega arith) ∙ nine wei in
    elim (Bool-cases (ltb 9 (length (digits (suc wei) wei)))) [
      | inl b ↦ rw (b, gwei_of, at) refl
      | inr b ↦
          let none_left : wei / 1000000000 ≡ 0 =
            sym at ∙ drop-short 9 (digits (suc wei) wei) (ground arith) in
          rw (b, gwei_of, none_left) refl
    ]

-- The new gas price is at least the suggested one and at least the old one with a quarter more,
-- rounded down, and is one of the two.
pub new_gas_price_lem :
    (old suggested : ℕ)
    → (suggested ≤ new_gas_price old suggested)
      × (old + old / 4 ≤ new_gas_price old suggested)
      × ((new_gas_price old suggested ≡ old + old / 4) ⊎ (new_gas_price old suggested ≡ suggested))
unfolding new_gas_price
new_gas_price_lem old suggested = elim (Bool-cases (ltb (old * 125 / 100) suggested)) [
  | inl b ↦ rw (b, new_gas_price) (omega arith, ground arith, inr refl)
  | inr b ↦ rw (b, new_gas_price) (ground arith, ground arith, inl (omega arith))
]
