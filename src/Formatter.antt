-- ===== src/Formatter.antt =====
-- internal/formatter/formatter.go: the rows of a read query as text. A Go map is a list of its entries, and
-- encoding/json is a parameter.
pub mod Objects
use Prim.Native.String.{◌++◌ as str_append}
use go_tableland.Prelude.{
  String, str_append, Bool, false, Option, none, some, List, [], ◌∷◌, ◌++◌, map, str_eq,
  if◌then◌else◌, length,
}
use go_tableland.Errors.{GoError, text, formatted, flattened, Result, ok, err, panic}

-- Output
pub data Output : Type 0 where
  table objects : Output

unfoldable pub output_from_string : String → Option Output
output_from_string s =
    if str_eq s "table" then some table else if str_eq s "objects" then some objects else none

pub record FormatConfig : Type 0 where
  pub output : Output
  pub unwrap_rows : Bool
  pub extract_values : Bool

-- FormatOption
unfoldable pub with_output : Output → FormatConfig → FormatConfig
with_output o c = record c { output = o }

unfoldable pub with_unwrap : Bool → FormatConfig → FormatConfig
with_unwrap b c = record c { unwrap_rows = b }

unfoldable pub with_extract : Bool → FormatConfig → FormatConfig
with_extract b c = record c { extract_values = b }

unfoldable pub apply_options : List (FormatConfig → FormatConfig) → FormatConfig → FormatConfig
apply_options [] c = c
apply_options (opt ∷ opts) c = apply_options opts (opt c)

-- What an interface{} of the list holds: a row as a map, or a value.
pub data Item (V : Type 0) : Type 0 where
  object : List (String × V) → Item V
  bare : V → Item V

-- tableland.TableData
pub record TableData (V : Type 0) : Type 0 where
  pub columns : List String
  pub rows : List (List V)

pub record Json (V : Type 0) : Type 0 where
  pub marshal_table : TableData V → Result String
  pub marshal_items : List (Item V) → Result String
  pub marshal_item : Item V → Result String

unfoldable pub and_then :
    {A B : Type 0} → (GoError → GoError) → Result A → (A → Result B) → Result B
and_then f (ok a) k = k a
and_then f (err e) k = err (f e)
and_then f (panic s) k = panic s

module _ {V : Type 0} where
  -- object[name] = val
  unfoldable pub put : String → V → List (String × V) → List (String × V)
  put name v [] = (name, v) ∷ []
  put name v ((k, u) ∷ rest) =
      let others = put name v rest in if str_eq k name then (name, v) ∷ rest else (k, u) ∷ others

  -- A row as a map; a row that is longer than the columns is out of their range.
  unfoldable pub to_object : List String → List V → List (String × V) → Result (List (String × V))
  unfolding put
  to_object names [] acc = ok acc
  to_object [] (v ∷ vs) acc = panic "index out of range"
  to_object (name ∷ names) (v ∷ vs) acc = to_object names vs (put name v acc)

  unfoldable pub to_objects : List String → List (List V) → Result (List (Item V))
  unfolding to_object and_then
  to_objects names [] = ok []
  to_objects names (row ∷ rows) =
      and_then (λ e. e) (to_object names row [])
        (λ o. and_then (λ e. e) (to_objects names rows) (λ rest. ok (object o ∷ rest)))

  unfoldable pub extract_item : Item V → Result (Item V)
  extract_item (object ((name, v) ∷ [])) = ok (bare v)
  extract_item (object []) =
      err (
        formatted "can only extract values for result sets with one column but this has %d"
          (0 ∷ []))
  extract_item (object (p ∷ q ∷ rest)) = err (
      formatted "can only extract values for result sets with one column but this has %d"
        (length (p ∷ q ∷ rest) ∷ []))
  extract_item (bare v) = panic "interface conversion"

  unfoldable pub extract : List (Item V) → Result (List (Item V))
  unfolding extract_item and_then
  extract [] = ok []
  extract (i ∷ is) =
      and_then (λ e. e) (extract_item i) (λ v. and_then (λ e. e) (extract is) (λ vs. ok (v ∷ vs)))

  module _ (json : Json V) where
    -- The items from the second one on, each after a line break.
    unfoldable pub unwrap_rest : String → List (Item V) → Result String
    unfolding and_then
    unwrap_rest buf [] = ok buf
    unwrap_rest buf (i ∷ is) =
        and_then (λ e. e) (json.marshal_item i)
          (λ b. unwrap_rest (str_append (str_append buf "\n") b) is)

    unfoldable pub unwrap : List (Item V) → Result String
    unfolding and_then unwrap_rest
    unwrap [] = ok ""
    unwrap (i ∷ is) = and_then (λ e. e) (json.marshal_item i) (λ b. unwrap_rest b is)

    unfoldable pub finish : FormatConfig → List (Item V) → Result (String × FormatConfig)
    unfolding and_then unwrap
    finish c items =
        if c.unwrap_rows
        then and_then (flattened "unwrapping values") (unwrap items) (λ b. ok (b, c))
        else and_then (flattened "marshaling to json") (json.marshal_items items) (λ b. ok (b, c))

    unfoldable pub format_objects : FormatConfig → List (Item V) → Result (String × FormatConfig)
    unfolding and_then finish extract
    format_objects c items =
        if c.extract_values
        then and_then (flattened "extracting values") (extract items) (finish c)
        else finish c items

    unfoldable pub format_output :
        Output → FormatConfig → TableData V → Result (String × FormatConfig)
    unfolding and_then format_objects to_objects
    format_output table c data_rows =
        and_then (flattened "marshaling to json") (json.marshal_table data_rows) (λ b. ok (b, c))
    format_output objects c data_rows =
        and_then (λ e. e) (to_objects data_rows.columns data_rows.rows) (format_objects c)

    -- Format
    unfoldable pub format :
        TableData V → List (FormatConfig → FormatConfig) → Result (String × FormatConfig)
    unfolding apply_options format_output
    format data_rows opts =
        let c =
          apply_options opts
            (record { output = objects; unwrap_rows = false; extract_values = false }) in
        format_output c.output c data_rows
