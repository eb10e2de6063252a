-- ===== src/StateHash.antt =====
-- pkg/dbhash/dbhash.go: the text of the database that is hashed. The database is a parameter: what a query
-- answers; and so is the digest, crypto/sha1 in hexadecimal.
pub mod Concat
use Prim.Native.String.{◌++◌ as str_append}
use go_tableland.Prelude.{
  ◌*◌, String, str_append, Bool, false, not, List, [], ◌∷◌, ◌++◌, str_eq, if◌then◌else◌,
}
use go_tableland.Errors.{GoError, text, wrapped, flattened, Result, ok, err, panic}

-- What rows.Next and rows.Scan meet; rows.Err is not asked.
pub data Scanned (A : Type 0) : Type 0 where
  scanned : A → Scanned A
  scan_failed : GoError → Scanned A
  cut_off : GoError → Scanned A

-- A row of a table as its cells' bytes.
pub record TableRows : Type 0 where
  pub columns : Result (List String)
  pub rows : List (Scanned (List String))

pub record HashConfig : Type 0 where
  pub fetch_schemas_query : String
  pub per_table_query : String → String

-- DefaultConfig
unfoldable pub default_config : HashConfig
default_config = record {
  fetch_schemas_query =
      "SELECT tbl_name, sql FROM sqlite_schema WHERE type='table' ORDER BY tbl_name";
  per_table_query = λ name. str_append "SELECT * FROM " name;
}

unfoldable pub with_fetch_schemas_query : String → HashConfig → HashConfig
with_fetch_schemas_query q c = record c { fetch_schemas_query = q }

unfoldable pub with_per_table_query_fn : (String → String) → HashConfig → HashConfig
with_per_table_query_fn f c = record c { per_table_query = f }

unfoldable pub apply_hash_options : List (HashConfig → HashConfig) → HashConfig → HashConfig
apply_hash_options [] c = c
apply_hash_options (opt ∷ opts) c = apply_hash_options opts (opt c)

-- errors.Is(err, sql.ErrNoRows)
unfoldable pub is_no_rows : GoError → Bool
is_no_rows (text s) = str_eq s "sql: no rows in result set"
is_no_rows (wrapped s e) = is_no_rows e
is_no_rows _ = false

unfoldable pub write_cells : List String → String → String
write_cells [] buf = buf
write_cells (c ∷ cs) buf = write_cells cs (str_append buf c)

unfoldable pub write_rows : List (Scanned (List String)) → String → Result String
unfolding write_cells
write_rows [] buf = ok buf
write_rows (cut_off e ∷ rs) buf = ok buf
write_rows (scan_failed e ∷ rs) buf = err (flattened "table row scan" e)
write_rows (scanned cells ∷ rs) buf = write_rows rs (write_cells cells buf)

unfoldable pub write_table :
    List (Scanned (List String)) → Result (List String) → String → Result String
unfolding write_rows
write_table rs (ok columns) buf = write_rows rs buf
write_table rs (err e) buf = err (flattened "columns" e)
write_table rs (panic s) buf = panic s

-- tableStateWriter, on the answer of the query.
unfoldable pub table_state_writer : Result TableRows → String → Result String
unfolding write_table
table_state_writer (ok t) buf = write_table t.rows t.columns buf
table_state_writer (err e) buf = err (flattened "querying table" e)
table_state_writer (panic s) buf = panic s

-- What follows a table: ErrNoRows is skipped, and the buffer stays as it was written.
unfoldable pub after_table : Result String → String → Result String
unfolding is_no_rows
after_table (ok buf) before = ok buf
after_table (err e) before =
    if is_no_rows e then ok before else err (flattened "table state writer" e)
after_table (panic s) before = panic s

unfoldable pub next_table : Result String → (String → Result String) → Result String
next_table (ok buf) k = k buf
next_table (err e) k = err e
next_table (panic s) k = panic s

module _ (query : String → Result TableRows) (config : HashConfig) where
  unfoldable pub write_schemas : List (Scanned (String × String)) → String → Result String
  unfolding table_state_writer after_table next_table
  write_schemas [] buf = ok buf
  write_schemas (cut_off e ∷ rs) buf = ok buf
  write_schemas (scan_failed e ∷ rs) buf = err (flattened "schema scan row" e)
  write_schemas (scanned (name, stmt) ∷ rs) buf =
      let named = str_append (str_append buf name) stmt in
      next_table
        (after_table (table_state_writer (query (config.per_table_query name)) named) named)
        (write_schemas rs)

  -- databaseStateWriter, on the answer of the schemas' query.
  unfoldable pub database_state_writer : Result (List (Scanned (String × String))) → Result String
  unfolding write_schemas
  database_state_writer (ok schemas) = write_schemas schemas ""
  database_state_writer (err e) = err (flattened "querying schemas" e)
  database_state_writer (panic s) = panic s

unfoldable pub digest_of : (String → String) → Result String → Result String
digest_of digest (ok s) = ok (digest s)
digest_of digest (err e) = err (flattened "database hash writer failed" e)
digest_of digest (panic s) = panic s

-- DatabaseStateHash
unfoldable pub database_state_hash :
    (String → String)
    → (String → Result (List (Scanned (String × String))))
    → (String → Result TableRows)
    → List (HashConfig → HashConfig)
    → Result String
unfolding default_config apply_hash_options database_state_writer digest_of
database_state_hash digest schemas query opts =
    let c = apply_hash_options opts default_config in
    digest_of digest (database_state_writer query c (schemas c.fetch_schemas_query))
