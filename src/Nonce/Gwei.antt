-- ===== src/Nonce/Gwei.antt =====
-- The text of the balance in checkBalance of pkg/nonce/impl/tracker.go.
use go_tableland.Prelude.{
  ℕ, zero, suc, ◌+◌, ◌*◌, ◌/◌, ◌%◌, ◌^◌, true, false, List, [], ◌∷◌, ltb, if◌then◌else◌, length,
}
use go_tableland.Errors.{text, Result, ok, err}

-- The decimal digits of big.Int's String(), the last one first.
unfoldable pub digits : ℕ → ℕ → List ℕ
digits zero n = []
digits (suc fuel) n = elim (ltb n 10) [ true ↦ n ∷ [] | false ↦ n % 10 ∷ digits fuel (n / 10) ]

unfoldable pub value : List ℕ → ℕ
value [] = 0
value (d ∷ ds) = d + 10 * value ds

-- strconv.ParseInt, of digits
unfoldable pub parse_int : List ℕ → Result ℕ
unfolding value
parse_int ds = if ltb (value ds) (2 ^ 63) then ok (value ds) else err (text "value out of range")

unfoldable pub drop : ℕ → List ℕ → List ℕ
drop zero ds = ds
drop (suc k) [] = []
drop (suc k) (d ∷ ds) = drop k ds

-- The text without its last nine digits. A number has fewer digits than itself plus one.
unfoldable pub gwei_of : ℕ → Result ℕ
unfolding digits parse_int drop
gwei_of wei =
    let s = digits (suc wei) wei in if ltb 9 (length s) then parse_int (drop 9 s) else ok 0
