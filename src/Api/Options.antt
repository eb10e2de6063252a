-- ===== src/Api/Options.antt =====
-- About the parameters of a query's format (internal/router/controllers/controller.go).
use go_tableland.Prelude.{String, refl, true, false, Option, none, some, [], ◌∷◌, str_eq, any}
use go_tableland.Errors.{text, flattened, Result, ok, err, panic}
use go_tableland.Formatter.{Output, output_from_string}
use go_tableland.Api.Params.{
  parse_bool, output_found, optional, output_param, bool_param, either, get_formatter_params,
  options_of, formatter_options,
}
use go_tableland.Api.Rectangular.{NoPanic, and_then-NoPanic, if-NoPanic}

parse_bool-NoPanic : (s : String) → NoPanic (parse_bool s)
unfolding parse_bool
parse_bool-NoPanic s =
    if-NoPanic (any (str_eq s) ("1" ∷ "t" ∷ "T" ∷ "true" ∷ "TRUE" ∷ "True" ∷ [])) (ok true) _
      (λ p h. cc)
      (if-NoPanic (any (str_eq s) ("0" ∷ "f" ∷ "F" ∷ "false" ∷ "FALSE" ∷ "False" ∷ [])) (ok false)
        (err (flattened "strconv.ParseBool: invalid syntax" (text s))) (λ p h. cc) (λ p h. cc))

optional-NoPanic : {A : Type 0} (r : Result A) → NoPanic r → NoPanic (optional r)
unfolding optional
optional-NoPanic (ok b) q s h = cc
optional-NoPanic (err e) q s h = cc
optional-NoPanic (panic p) q s h = q p refl

bool_param-NoPanic : (s : String) → NoPanic (bool_param s)
unfolding bool_param
bool_param-NoPanic s =
    if-NoPanic (str_eq s "") (ok none) _ (λ p h. cc)
      (optional-NoPanic (parse_bool s) (parse_bool-NoPanic s))

output_found-NoPanic : (o : Option Output) → NoPanic (output_found o)
unfolding output_found
output_found-NoPanic none s h = cc
output_found-NoPanic (some o) s h = cc

output_param-NoPanic : (s : String) → NoPanic (output_param s)
unfolding output_param
output_param-NoPanic s =
    if-NoPanic (str_eq s "") (ok none) _ (λ p h. cc) (output_found-NoPanic (output_from_string s))

pub formatter_options-NoPanic : (query : String → String) → NoPanic (formatter_options query)
unfolding formatter_options get_formatter_params
formatter_options-NoPanic query =
    and_then-NoPanic (λ e. e) _ (λ p. ok (options_of p))
      (and_then-NoPanic (λ e. e) (output_param (either query "output" "format")) _
        (output_param-NoPanic (either query "output" "format"))
        λ o f.
          and_then-NoPanic (λ e. e) (bool_param (query "extract")) _
            (bool_param-NoPanic (query "extract"))
            λ x g.
              and_then-NoPanic (λ e. e) (bool_param (query "unwrap")) _
                (bool_param-NoPanic (query "unwrap")) λ u h s i. cc)
      λ p e s h. cc
