-- ===== src/Api/Formatted.antt =====
-- About the formatting of what a query read: pkg/sqlstore/impl/user with internal/formatter/formatter.go.
use Prim.Native.String.{◌++◌ as str_append}
use go_tableland.Prelude.{
  String, str_append, ◌≡◌, refl, sym, subst, List, [], ◌∷◌, arith, length, All,
}
use go_tableland.Errors.{GoError, flattened, Result, ok, err, panic, ok_injective}
use go_tableland.Formatter.{
  Output, table, objects, FormatConfig, Item, object, TableData, Json, and_then, put, to_object,
  to_objects, extract_item, extract, unwrap_rest, unwrap, finish, format_objects, format_output,
  format,
}
use go_tableland.UserStore.{ColumnValue}
use go_tableland.Api.Rectangular.{NoPanic, and_then-NoPanic, if-NoPanic, Rectangular}

-- Rows that are not longer than the columns are within their range.
to_object-NoPanic :
    {V : Type 0} (names : List String) (vs : List V) (acc : List (String × V))
    → length vs ≡ length names
    → NoPanic (to_object names vs acc)
unfolding to_object
to_object-NoPanic names [] acc e s h = cc
to_object-NoPanic [] (v ∷ vs) acc e s h = omega (arith, e)
to_object-NoPanic (n ∷ names) (v ∷ vs) acc e s h =
    to_object-NoPanic names vs (put n v acc) (omega (arith, e)) s h

-- Items that toObjects makes.
abbrev Objects : {V : Type 0} → List (Item V) → Type 0
Objects {V} is = All (λ (i : Item V). (o : List (String × V)) × (i ≡ object o)) is

to_objects-NoPanic :
    {V : Type 0} (names : List String) (rows : List (List V))
    → All (λ (r : List V). length r ≡ length names) rows
    → NoPanic (to_objects names rows)
unfolding to_objects
to_objects-NoPanic names [] a = λ s h. cc
to_objects-NoPanic names (row ∷ rows) (e, a) =
    and_then-NoPanic (λ e. e) (to_object names row [])
      (λ o. and_then (λ e. e) (to_objects names rows) (λ rest. ok (object o ∷ rest)))
      (to_object-NoPanic names row [] e)
      λ o f.
        and_then-NoPanic (λ e. e) (to_objects names rows) (λ rest. ok (object o ∷ rest))
          (to_objects-NoPanic names rows a) λ rest g s h. cc

-- A result that is made of two.
bound :
    {A B : Type 0} (f : GoError → GoError) (r : Result A) (k : A → Result B) (b : B)
    → and_then f r k ≡ ok b
    → (a : A) × (r ≡ ok a) × (k a ≡ ok b)
unfolding and_then
bound f (ok a) k b h = (a, refl, h)
bound f (err e) k b h = cc
bound f (panic s) k b h = cc

to_objects-Objects :
    {V : Type 0} (names : List String) (rows : List (List V)) (is : List (Item V))
    → to_objects names rows ≡ ok is
    → Objects is
unfolding to_objects
to_objects-Objects names [] is = λ h. subst Objects (ok_injective h) tt
to_objects-Objects names (row ∷ rows) is = λ h.
    let (o, e, h1) = bound (λ e. e) (to_object names row []) _ is h in
    let (rest, f, h2) =
      bound (λ e. e) (to_objects names rows) (λ rest. ok (object o ∷ rest)) is h1 in
    subst Objects (ok_injective h2) ((o, refl), to_objects-Objects names rows rest f)

extract_item-NoPanic : {V : Type 0} (o : List (String × V)) → NoPanic (extract_item (object o))
unfolding extract_item
extract_item-NoPanic [] s h = cc
extract_item-NoPanic (p ∷ []) s h = cc
extract_item-NoPanic (p ∷ q ∷ rest) s h = cc

extract-NoPanic : {V : Type 0} (is : List (Item V)) → Objects is → NoPanic (extract is)
unfolding extract
extract-NoPanic [] a = λ s h. cc
extract-NoPanic (i ∷ is) ((o, e), a) =
    and_then-NoPanic (λ e. e) (extract_item i)
      (λ v. and_then (λ e. e) (extract is) (λ vs. ok (v ∷ vs)))
      (subst (λ x. NoPanic (extract_item x)) (sym e) (extract_item-NoPanic o))
      λ v f.
        and_then-NoPanic (λ e. e) (extract is) (λ vs. ok (v ∷ vs)) (extract-NoPanic is a)
          λ vs g s h. cc

-- encoding/json returns.
abbrev pub Returns : Json ColumnValue → Type 0
Returns json =
    ((d : TableData ColumnValue) → NoPanic (json.marshal_table d))
    × ((is : List (Item ColumnValue)) → NoPanic (json.marshal_items is))
    × ((i : Item ColumnValue) → NoPanic (json.marshal_item i))

module _ (json : Json ColumnValue) (quiet : Returns json) where
  unwrap_rest-NoPanic :
      (buf : String) (is : List (Item ColumnValue)) → NoPanic (unwrap_rest json buf is)
  unfolding unwrap_rest
  unwrap_rest-NoPanic buf [] = λ s h. cc
  unwrap_rest-NoPanic buf (i ∷ is) =
      and_then-NoPanic (λ e. e) (json.marshal_item i) _ (quiet.2 i)
        λ b e. unwrap_rest-NoPanic (str_append (str_append buf "\n") b) is

  unwrap-NoPanic : (is : List (Item ColumnValue)) → NoPanic (unwrap json is)
  unfolding unwrap
  unwrap-NoPanic [] = λ s h. cc
  unwrap-NoPanic (i ∷ is) =
      and_then-NoPanic (λ e. e) (json.marshal_item i) _ (quiet.2 i) λ b e. unwrap_rest-NoPanic b is

  finish-NoPanic : (c : FormatConfig) (is : List (Item ColumnValue)) → NoPanic (finish json c is)
  unfolding finish
  finish-NoPanic c is =
      if-NoPanic c.unwrap_rows _ _
        (and_then-NoPanic (flattened "unwrapping values") (unwrap json is) _ (unwrap-NoPanic is)
          λ s e p h. cc)
        (and_then-NoPanic (flattened "marshaling to json") (json.marshal_items is) _ (quiet.1 is)
          λ s e p h. cc)

  format_objects-NoPanic :
      (c : FormatConfig) (is : List (Item ColumnValue))
      → Objects is
      → NoPanic (format_objects json c is)
  unfolding format_objects
  format_objects-NoPanic c is a =
      if-NoPanic c.extract_values _ _
        (and_then-NoPanic (flattened "extracting values") (extract is) _ (extract-NoPanic is a)
          λ vs e. finish-NoPanic c vs)
        (finish-NoPanic c is)

  format_output-NoPanic :
      (o : Output) (c : FormatConfig) (d : TableData ColumnValue)
      → Rectangular d
      → NoPanic (format_output json o c d)
  unfolding format_output
  format_output-NoPanic table c d a =
      and_then-NoPanic (flattened "marshaling to json") (json.marshal_table d) _ (quiet.0 d)
        λ s e p h. cc
  format_output-NoPanic objects c d a =
      and_then-NoPanic (λ e. e) (to_objects d.columns d.rows) _
        (to_objects-NoPanic d.columns d.rows a)
        λ is e. format_objects-NoPanic c is (to_objects-Objects d.columns d.rows is e)

  pub format-NoPanic :
      (d : TableData ColumnValue) (opts : List (FormatConfig → FormatConfig))
      → Rectangular d
      → NoPanic (format json d opts)
  unfolding format
  format-NoPanic d opts a = format_output-NoPanic _ _ d a
