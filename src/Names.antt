-- ===== src/Names.antt =====
-- Names and ids of tables as texts: NewTableID of pkg/tables/tables.go and NewTableFromName of
-- internal/tableland/tableland.go.
pub mod Numbers
pub mod Printed
use Prim.Native.Char.{code}
use Prim.Native.String.{String, ◌++◌ as str_append}
use go_tableland.Prelude.{
  ℤ, pos, negsuc, leb_ℤ, ltb_ℤ, ℕ, zero, suc, ◌+◌, ◌-◌, ◌*◌, ◌^◌, String, str_append, ◌≡◌, refl,
  ◌&&◌, Option, none, some, List, [], ◌∷◌, leb, ◌==◌, if◌then◌else◌,
}
use go_tableland.Errors.{text, flattened, Result, ok, err, panic}

-- A digit by its code point.
unfoldable pub digit_value : ℕ → Option ℕ
digit_value c = if leb 48 c && leb c 57 then some (c - 48) else none

unfoldable pub digits_value : ℕ → String → Option ℕ
unfolding digit_value
digits_value acc String.[] = some acc
digits_value acc (String.◌∷◌ c s) = elim (digit_value (code c)) [
  | none ↦ none
  | some d ↦ digits_value (acc * 10 + d) s
]

unfoldable pub unsigned : String → Option ℕ
unfolding digits_value
unsigned String.[] = none
unsigned (String.◌∷◌ c s) = digits_value 0 (String.◌∷◌ c s)

unfoldable pub negate : Option ℕ → Option ℤ
negate none = none
negate (some zero) = some (pos zero)
negate (some (suc n)) = some (negsuc n)

unfoldable pub positive : Option ℕ → Option ℤ
positive none = none
positive (some n) = some (pos n)

-- SetString of a big.Int with base 10: a sign may stand before the digits.
unfoldable pub set_string : String → Option ℤ
unfolding unsigned negate positive
set_string String.[] = none
set_string (String.◌∷◌ c s) =
    if code c == 45
    then negate (unsigned s)
    else if code c == 43
    then positive (unsigned s)
    else positive (unsigned (String.◌∷◌ c s))

unfoldable pub not_negative : Option ℤ → Result ℕ
not_negative none = err (text "parsing stringified id failed")
not_negative (some (negsuc n)) = err (text "table id is negative")
not_negative (some (pos n)) = ok n

-- NewTableID
unfoldable pub new_table_id : String → Result ℕ
unfolding set_string not_negative
new_table_id s = not_negative (set_string s)

-- strconv.ParseInt(s, 10, 64)
unfoldable pub in_int64 : Option ℤ → Result ℤ
in_int64 none = err (text "strconv.ParseInt: invalid syntax")
in_int64 (some x) =
    if leb_ℤ (negsuc (2 ^ 63 - 1)) x && ltb_ℤ x (pos (2 ^ 63))
    then ok x
    else err (text "strconv.ParseInt: value out of range")

unfoldable pub add_first : String → List String → List String
add_first c [] = c ∷ []
add_first c (x ∷ xs) = str_append c x ∷ xs

-- strings.Split(name, "_")
unfoldable pub split : String → List String
unfolding add_first
split String.[] = "" ∷ []
split (String.◌∷◌ c s) =
    let rest = split s in if code c == 95 then "" ∷ rest else add_first (String.◌∷◌ c "") rest

-- strings.Join(parts, "_")
unfoldable pub join : List String → String
join [] = ""
join (x ∷ []) = x
join (x ∷ y ∷ rest) = str_append x (str_append "_" (join (y ∷ rest)))

-- The parts before the last two, and these.
unfoldable pub last_two : List String → Option (List String × String × String)
last_two [] = none
last_two (x ∷ []) = none
last_two (x ∷ y ∷ []) = some ([], x, y)
last_two (x ∷ y ∷ z ∷ rest) = elim (last_two (y ∷ z ∷ rest)) [
  | none ↦ none
  | some (before, a, b) ↦ some (x ∷ before, a, b)
]

-- tableland.Table
pub record TableName : Type 0 where
  pub prefix : String
  pub chain_id : ℤ
  pub id : ℕ

unfoldable pub table_named : List String → Result ℕ → Result ℤ → Result TableName
unfolding join
table_named before (ok id) (ok chain) =
    ok (record { prefix = join before; chain_id = chain; id = id })
table_named before (ok id) (err e) = err (flattened "parse chain id" e)
table_named before (ok id) (panic p) = panic p
table_named before (err e) chain = err (flattened "new table id" e)
table_named before (panic p) chain = panic p

unfoldable pub name_of_parts : Option (List String × String × String) → Result TableName
unfolding table_named new_table_id in_int64 set_string
name_of_parts none = err (text "table name has invalid format")
name_of_parts (some (before, chain, id)) =
    table_named before (new_table_id id) (in_int64 (set_string chain))

-- NewTableFromName
unfoldable pub new_table_from_name : String → Result TableName
unfolding name_of_parts last_two split
new_table_from_name name = name_of_parts (last_two (split name))

parses_name :
    new_table_from_name "my_table_1337_12"
    ≡ ok (record { prefix = "my_table"; chain_id = pos 1337; id = 12 })
unfolding new_table_from_name
parses_name = refl
