-- ===== src/UserStore.antt =====
-- pkg/sqlstore/impl/user, and the values it reads (ColumnValue of internal/tableland/tableland.go). The database is
-- a parameter: a query's answer is its columns and the rows that rows.Next goes through.
use go_tableland.Formatter.{TableData}
use go_tableland.Steps.{map_error}
use Prim.Native.String.{String}
use go_tableland.Prelude.{
  ℤ, ℕ, String, Bool, ◌&&◌, ◌||◌, List, [], ◌∷◌, starts_with, str_eq, ◌==◌, if◌then◌else◌, length,
}
use go_tableland.Errors.{GoError, text, flattened, Result, ok, err, panic}

-- What an interface{} of the driver or of the program holds.
pub data SqlValue : Type 0 where
  null : SqlValue
  int64 : ℤ → SqlValue
  float64 : String → SqlValue
  string : String → SqlValue
  blob : String → SqlValue
  boolean : Bool → SqlValue
  time_value : ℤ → SqlValue
  int : ℤ → SqlValue
  int_pointers : ℤ → SqlValue

-- ColumnValue, by the field that Value reads.
pub data ColumnValue : Type 0 where
  json_value : String → ColumnValue
  other_value : SqlValue → ColumnValue

-- strings.TrimLeft(src, " ")
unfoldable pub trim_left : String → String
trim_left String.[] = ""
trim_left (String.◌∷◌ c s) =
    let rest = trim_left s in if str_eq (String.◌∷◌ c "") " " then rest else String.◌∷◌ c s

-- Scan; `valid` is json.Valid.
unfoldable pub scan : (String → Bool) → SqlValue → ColumnValue
unfolding trim_left
scan valid (string s) =
    if (starts_with (trim_left s) "{" || starts_with (trim_left s) "[") && valid s
    then json_value s
    else other_value (string s)
scan valid v = other_value v

-- What rows.Next and rows.Scan meet: a row, one that cannot be scanned, or an error that ends the rows.
pub data Fetched : Type 0 where
  fetched_row : List SqlValue → Fetched
  broken : GoError → Fetched
  interrupted : GoError → Fetched

pub record SqlRows : Type 0 where
  pub columns : Result (List String)
  pub fetched : List Fetched

unfoldable pub scan_row : (String → Bool) → List SqlValue → List ColumnValue
unfolding scan
scan_row valid [] = []
scan_row valid (v ∷ vs) = scan valid v ∷ scan_row valid vs

unfoldable pub prepend :
    List ColumnValue → Result (List (List ColumnValue)) → Result (List (List ColumnValue))
prepend r (ok rs) = ok (r ∷ rs)
prepend r (err e) = err e
prepend r (panic s) = panic s

-- rows.Scan refuses a row that is not as wide as its destinations; rows.Err is not asked.
unfoldable pub get_rows_data : (String → Bool) → ℕ → List Fetched → Result (List (List ColumnValue))
unfolding scan_row prepend
get_rows_data valid width [] = ok []
get_rows_data valid width (interrupted e ∷ fs) = ok []
get_rows_data valid width (broken e ∷ fs) = err (flattened "scan row column" e)
get_rows_data valid width (fetched_row vs ∷ fs) =
    let rest = get_rows_data valid width fs in
    if length vs == width
    then prepend (scan_row valid vs) rest
    else err (flattened "scan row column" (text "sql: expected destination arguments in Scan"))

unfoldable pub table_data :
    List String → Result (List (List ColumnValue)) → Result (TableData ColumnValue)
table_data columns (ok rows) = ok (record { columns = columns; rows = rows })
table_data columns (err e) = err e
table_data columns (panic s) = panic s

unfoldable pub rows_of_columns :
    (String → Bool) → List Fetched → Result (List String) → Result (TableData ColumnValue)
unfolding get_rows_data table_data
rows_of_columns valid fs (ok columns) = table_data columns (get_rows_data valid (length columns) fs)
rows_of_columns valid fs (err e) =
    err (flattened "get columns from rows" (flattened "get columns from sql.Rows" e))
rows_of_columns valid fs (panic s) = panic s

unfoldable pub rows_to_table_data : (String → Bool) → SqlRows → Result (TableData ColumnValue)
unfolding rows_of_columns
rows_to_table_data valid rows = rows_of_columns valid rows.fetched rows.columns

unfoldable pub exec_read_query : (String → Bool) → Result SqlRows → Result (TableData ColumnValue)
unfolding rows_to_table_data
exec_read_query valid (ok rows) = rows_to_table_data valid rows
exec_read_query valid (err e) = err (flattened "executing query" e)
exec_read_query valid (panic s) = panic s

-- A store: GetQuery of a statement with the store's resolver, and the database.
pub record UserStore (Stmt : Type 0) : Type 0 where
  pub get_query : Stmt → Result String
  pub query_context : String → Result SqlRows
  pub valid_json : String → Bool

module _ {Stmt : Type 0} where
  unfoldable pub read_resolved : UserStore Stmt → Result String → Result (TableData ColumnValue)
  unfolding exec_read_query
  read_resolved store (ok q) =
      map_error (flattened "parsing result to json")
        (exec_read_query store.valid_json (store.query_context q))
  read_resolved store (err e) = err (flattened "get query" e)
  read_resolved store (panic s) = panic s

  -- Read
  unfoldable pub read : UserStore Stmt → Stmt → Result (TableData ColumnValue)
  unfolding read_resolved
  read store stmt = read_resolved store (store.get_query stmt)
