-- ===== src/Api/Params.antt =====
-- formatterOptions of internal/router/controllers/controller.go.
use go_tableland.Prelude.{
  String, Bool, true, false, Option, none, some, List, [], ◌∷◌, ◌++◌, str_eq, if◌then◌else◌, any,
}
use go_tableland.Errors.{text, flattened, Result, ok, err, panic}
use go_tableland.Formatter.{
  Output, objects, output_from_string, FormatConfig, with_output, with_unwrap, with_extract,
  and_then,
}

-- strconv.ParseBool
unfoldable pub parse_bool : String → Result Bool
parse_bool s =
    if any (str_eq s) ("1" ∷ "t" ∷ "T" ∷ "true" ∷ "TRUE" ∷ "True" ∷ [])
    then ok true
    else if any (str_eq s) ("0" ∷ "f" ∷ "F" ∷ "false" ∷ "FALSE" ∷ "False" ∷ [])
    then ok false
    else err (flattened "strconv.ParseBool: invalid syntax" (text s))

pub record FormatterParams : Type 0 where
  pub output : Option Output
  pub extract : Option Bool
  pub unwrap : Option Bool

unfoldable pub output_found : Option Output → Result (Option Output)
output_found (some o) = ok (some o)
output_found none = err (text "bad output query parameter")

unfoldable pub optional : {A : Type 0} → Result A → Result (Option A)
optional (ok a) = ok (some a)
optional (err e) = err e
optional (panic s) = panic s

-- A parameter that is absent or empty is not set.
unfoldable pub output_param : String → Result (Option Output)
unfolding output_from_string output_found
output_param s = if str_eq s "" then ok none else output_found (output_from_string s)

unfoldable pub bool_param : String → Result (Option Bool)
unfolding parse_bool optional
bool_param s = if str_eq s "" then ok none else optional (parse_bool s)

-- The old parameter `mode`.
unfoldable pub apply_mode : String → FormatterParams → FormatterParams
apply_mode mode c =
    if str_eq mode "list"
    then record c { unwrap = some true; extract = some true }
    else if str_eq mode "json"
    then record c { output = some objects }
    else c

-- `query` is r.URL.Query().Get; a name's second spelling counts where the first is empty.
unfoldable pub either : (String → String) → String → String → String
either query a b = if str_eq (query a) "" then query b else query a

unfoldable pub get_formatter_params : (String → String) → Result FormatterParams
unfolding output_param bool_param apply_mode either and_then
get_formatter_params query =
    and_then (λ e. e) (output_param (either query "output" "format"))
      λ o.
        and_then (λ e. e) (bool_param (query "extract"))
          λ x.
            and_then (λ e. e) (bool_param (query "unwrap"))
              λ u. ok (apply_mode (query "mode") (record { output = o; extract = x; unwrap = u }))

unfoldable pub options_of : FormatterParams → List (FormatConfig → FormatConfig)
unfolding with_output with_extract with_unwrap
options_of p =
    elim p.output [ some o ↦ with_output o ∷ [] | none ↦ [] ]
    ++ (elim p.extract [ some b ↦ with_extract b ∷ [] | none ↦ [] ]
        ++ elim p.unwrap [ some b ↦ with_unwrap b ∷ [] | none ↦ [] ])

unfoldable pub formatter_options : (String → String) → Result (List (FormatConfig → FormatConfig))
unfolding get_formatter_params options_of and_then
formatter_options query = and_then (λ e. e) (get_formatter_params query) (λ p. ok (options_of p))
