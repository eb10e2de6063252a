-- ===== src/Api/Rectangular.antt =====
-- About the rows that pkg/sqlstore/impl/user reads: as wide as the columns.
use go_tableland.Steps.{map_error}
use go_tableland.Prelude.{
  ℕ, suc, String, ◌≡◌, refl, ap, ◌∙◌, subst, inl, inr, Bool, true, false, List, [], ◌∷◌, arith,
  ◌==◌, if◌then◌else◌, Bool-cases, length, All,
}
use go_tableland.Errors.{GoError, flattened, Result, ok, err, panic, ok_injective}
use go_tableland.Formatter.{TableData, and_then}
use go_tableland.UserStore.{
  SqlValue, ColumnValue, Fetched, fetched_row, broken, interrupted, SqlRows, scan_row, prepend,
  get_rows_data, table_data, rows_of_columns, rows_to_table_data, exec_read_query, UserStore,
  read_resolved, read,
}
use go_tableland.Parsing.{Node}
use go_tableland.Parsing.Validator.{QueryValidator, validate_read_query}
use go_tableland.Api.Query.{run_select, run_read_query}

abbrev pub NoPanic : {A : Type 0} → Result A → Type 0
NoPanic r = (s : String) → ¬ (r ≡ panic s)

pub and_then-NoPanic :
    {A B : Type 0} (f : GoError → GoError) (r : Result A) (k : A → Result B)
    → NoPanic r
    → ((a : A) → r ≡ ok a → NoPanic (k a))
    → NoPanic (and_then f r k)
unfolding and_then
and_then-NoPanic f (ok a) k q h s e = h a refl s e
and_then-NoPanic f (err x) k q h s e = cc
and_then-NoPanic f (panic p) k q h s e = q p refl

pub if-NoPanic :
    {A : Type 0} (b : Bool) (x y : Result A) → NoPanic x → NoPanic y → NoPanic (if b then x else y)
if-NoPanic true x y p q = p
if-NoPanic false x y p q = q

-- Every row is as wide as the columns.
abbrev pub Rectangular : TableData ColumnValue → Type 0
Rectangular d = All (λ (r : List ColumnValue). length r ≡ length d.columns) d.rows

length-scan_row :
    (valid : String → Bool) (vs : List SqlValue) → length (scan_row valid vs) ≡ length vs
unfolding scan_row
length-scan_row valid [] = refl
length-scan_row valid (v ∷ vs) = ap suc (length-scan_row valid vs)

prepend-ok :
    (r : List ColumnValue) (rest : Result (List (List ColumnValue)))
    (rows : List (List ColumnValue))
    → prepend r rest ≡ ok rows
    → (rs : List (List ColumnValue)) × (rest ≡ ok rs) × (r ∷ rs ≡ rows)
unfolding prepend
prepend-ok r (ok rs) rows h = (rs, refl, ok_injective h)
prepend-ok r (err e) rows h = cc
prepend-ok r (panic s) rows h = cc

get_rows_data-width :
    (valid : String → Bool) (width : ℕ) (fs : List Fetched) (rows : List (List ColumnValue))
    → get_rows_data valid width fs ≡ ok rows
    → All (λ (r : List ColumnValue). length r ≡ width) rows
unfolding get_rows_data
get_rows_data-width valid width [] rows =
    λ h. subst (All (λ (r : List ColumnValue). length r ≡ width)) (ok_injective h) tt
get_rows_data-width valid width (interrupted e ∷ fs) rows =
    λ h. subst (All (λ (r : List ColumnValue). length r ≡ width)) (ok_injective h) tt
get_rows_data-width valid width (broken e ∷ fs) rows = λ h. cc
get_rows_data-width valid width (fetched_row vs ∷ fs) rows =
    elim (Bool-cases (length vs == width)) [
      | inl b ↦ rw (b) (λ h.
          let (rs, e, same) =
            prepend-ok (scan_row valid vs) (get_rows_data valid width fs) rows h in
          subst (All (λ (r : List ColumnValue). length r ≡ width)) same
            (length-scan_row valid vs ∙ ground (arith, b), get_rows_data-width valid width fs rs e))
      | inr b ↦ rw (b) (λ h. cc)
    ]

table_data-Rectangular :
    (columns : List String) (rows : Result (List (List ColumnValue))) (d : TableData ColumnValue)
    → ((rs : List (List ColumnValue))
        → rows ≡ ok rs
        → All (λ (r : List ColumnValue). length r ≡ length columns) rs)
    → table_data columns rows ≡ ok d
    → Rectangular d
unfolding table_data
table_data-Rectangular columns (ok rs) d wide h = subst Rectangular (ok_injective h) (wide rs refl)
table_data-Rectangular columns (err e) d wide h = cc
table_data-Rectangular columns (panic s) d wide h = cc

rows_of_columns-Rectangular :
    (valid : String → Bool) (fs : List Fetched) (columns : Result (List String))
    (d : TableData ColumnValue)
    → rows_of_columns valid fs columns ≡ ok d
    → Rectangular d
unfolding rows_of_columns
rows_of_columns-Rectangular valid fs (ok columns) d h =
    table_data-Rectangular columns _ d (get_rows_data-width valid (length columns) fs) h
rows_of_columns-Rectangular valid fs (err e) d h = cc
rows_of_columns-Rectangular valid fs (panic s) d h = cc

exec_read_query-Rectangular :
    (valid : String → Bool) (rows : Result SqlRows) (d : TableData ColumnValue)
    → exec_read_query valid rows ≡ ok d
    → Rectangular d
unfolding exec_read_query rows_to_table_data
exec_read_query-Rectangular valid (ok rows) d h =
    rows_of_columns-Rectangular valid rows.fetched rows.columns d h
exec_read_query-Rectangular valid (err e) d h = cc
exec_read_query-Rectangular valid (panic s) d h = cc

-- Whatever the context of an error.
unwrapped :
    {A : Type 0} (f : GoError → GoError) (r : Result A) (a : A) → map_error f r ≡ ok a → r ≡ ok a
unwrapped f (ok b) a h = h
unwrapped f (err e) a h = cc
unwrapped f (panic s) a h = cc

read-Rectangular :
    (store : UserStore Node) (stmt : Node) (d : TableData ColumnValue)
    → read store stmt ≡ ok d
    → Rectangular d
unfolding read
read-Rectangular store stmt d = go (store.get_query stmt)
  where
    go : (q : Result String) → read_resolved store q ≡ ok d → Rectangular d
    go (ok q) h =
        exec_read_query-Rectangular store.valid_json (store.query_context q) d
          (unwrapped (flattened "parsing result to json") _ d h)
    go (err e) h = cc
    go (panic s) h = cc

pub run_read_query-Rectangular :
    (parser : QueryValidator) (store : UserStore Node) (statement : String)
    (d : TableData ColumnValue)
    → run_read_query parser store statement ≡ ok d
    → Rectangular d
unfolding run_read_query
run_read_query-Rectangular parser store statement d = go (validate_read_query parser statement)
  where
    go : (s : Result Node) → run_select store s ≡ ok d → Rectangular d
    go (ok stmt) h = read-Rectangular store stmt d (
        unwrapped (λ e. flattened "running read statement" (flattened "executing read-query" e)) _ d
          h)
    go (err e) h = cc
    go (panic s) h = cc
