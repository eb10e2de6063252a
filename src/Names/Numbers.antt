-- ===== src/Names/Numbers.antt =====
-- About the numbers in the names of tables: NewTableID of pkg/tables/tables.go and strconv.ParseInt on what is
-- printed.
use Prim.Native.Char.{Char, code}
use Prim.Native.String.{String, ◌++◌ as str_append}
use text.Mathlib.TextLemmas.{
  nil-append, cons-append, append-nil as str_append-nil, append_assoc as str_append_assoc,
}
use go_tableland.Prelude.{pos, decimal, ℕ, ◌+◌, ◌*◌, ◌<◌, ◌^◌, ◌≡◌, refl, sym, ap, ◌∙◌, some, arith}
use go_tableland.Prelude.Decimal.{decimal-digits}
use go_tableland.Errors.{ok}
use go_tableland.Names.{
  digit_value, digits_value, unsigned, positive, set_string, not_negative, new_table_id, in_int64,
}

pub single-append : (c : Char) (s : String) → str_append (String.◌∷◌ c "") s ≡ String.◌∷◌ c s
single-append c s = cons-append c "" s ∙ ap (String.◌∷◌ c) (nil-append s)

pub snoc-append :
    (s : String) (c : Char) (rest : String)
    → str_append (str_append s (String.◌∷◌ c "")) rest ≡ str_append s (String.◌∷◌ c rest)
snoc-append s c rest =
    str_append_assoc s (String.◌∷◌ c "") rest ∙ ap (str_append s) (single-append c rest)

digits_value-cons :
    (acc d : ℕ) (c : Char) (rest : String)
    → d < 10
    → code c ≡ 48 + d
    → digits_value acc (String.◌∷◌ c rest) ≡ digits_value (acc * 10 + d) rest
unfolding digits_value digit_value
digits_value-cons acc d c rest h k = ground (arith, h, k)

digits_value-decimal :
    (n : ℕ) (rest : String) → digits_value 0 (str_append (decimal n) rest) ≡ digits_value n rest
digits_value-decimal =
    decimal-digits
      (λ n s. (rest : String) → digits_value 0 (str_append s rest) ≡ digits_value n rest)
      (λ d c h k rest.
        ap (digits_value 0) (single-append c rest)
        ∙ digits_value-cons 0 d c rest h k
        ∙ ap (λ m. digits_value m rest) (omega arith))
      (λ n d c s h k before rest.
        ap (digits_value 0) (snoc-append s c rest)
        ∙ before (String.◌∷◌ c rest)
        ∙ digits_value-cons n d c rest h k)

-- The first digit.
starts_with_digit :
    (n : ℕ)
    → (d : ℕ) × (c : Char) × (rest : String) × (d < 10)
      × (code c ≡ 48 + d)
      × (decimal n ≡ String.◌∷◌ c rest)
starts_with_digit =
    decimal-digits
      (λ n s.
        (d : ℕ) × (c : Char) × (rest : String) × (d < 10)
        × (code c ≡ 48 + d)
        × (s ≡ String.◌∷◌ c rest))
      (λ d c h k. (d, c, "", h, k, refl))
      (λ n d c s h k before.
        let (d', c', rest, h', k', e) = before in
        (
          d',
          c',
          str_append rest (String.◌∷◌ c ""),
          h',
          k',
          ap (λ t. str_append t (String.◌∷◌ c "")) e ∙ cons-append c' rest (String.◌∷◌ c ""),
        ))

set_string-digit :
    (d : ℕ) (c : Char) (rest : String)
    → d < 10
    → code c ≡ 48 + d
    → set_string (String.◌∷◌ c rest) ≡ positive (digits_value 0 (String.◌∷◌ c rest))
unfolding set_string unsigned
set_string-digit d c rest h k = ground (arith, h, k)

set_string-decimal : (n : ℕ) → set_string (decimal n) ≡ some (pos n)
unfolding positive digits_value
set_string-decimal n =
    let (d, c, rest, h, k, e) = starts_with_digit n in
    ap set_string e
    ∙ set_string-digit d c rest h k
    ∙ ap (λ t. positive (digits_value 0 t)) (sym e ∙ sym (str_append-nil (decimal n)))
    ∙ ap positive (digits_value-decimal n "")

pub new_table_id-decimal : (n : ℕ) → new_table_id (decimal n) ≡ ok n
unfolding new_table_id not_negative
new_table_id-decimal n = ap not_negative (set_string-decimal n)

pub in_int64-decimal : (n : ℕ) → n < 2 ^ 63 → in_int64 (set_string (decimal n)) ≡ ok (pos n)
unfolding in_int64
in_int64-decimal n h = ap in_int64 (set_string-decimal n) ∙ ground (arith, h)
