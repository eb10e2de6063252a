-- ===== src/System/Reads.antt =====
-- More of SystemStore (pkg/sqlstore/impl/system/store.go): the schema of a table, the stored blocks and events,
-- and the node's id. The parser and strings.ToLower on a column's type are parameters.
use Prim.Native.Char.{Char, code}
use go_tableland.Prelude.{
  ℤ, eq_ℤ, ℕ, zero, suc, ◌+◌, String, Bool, true, false, ◌&&◌, ◌||◌, Option, none, some, List, [],
  ◌∷◌, ◌++◌, starts_with, str_eq, ◌==◌, if◌then◌else◌,
}
use go_tableland.Errors.{GoError, text, wrapped, flattened, Result, ok, err, panic}
use go_tableland.System.{ColumnSchema, TableSchema}
use go_tableland.Feed.Persist.{EvmEvent}
use go_tableland.Feed.ExtraInfo.{BlockRow}
use go_tableland.Steps.{Run, pure, on_error, ◌>>=◌, ◌>>◌, call}

-- A letter of a text is this small letter, or its capital, in ASCII.
unfoldable pub same_letter : Char → Char → Bool
same_letter c small = (code c == code small) || (code c + 32 == code small)

unfoldable pub starts_like : String → String → Bool
unfolding same_letter
starts_like s String.[] = true
starts_like String.[] (String.◌∷◌ d t) = false
starts_like (String.◌∷◌ c s) (String.◌∷◌ d t) = same_letter c d && starts_like s t

-- strings.Contains(strings.ToLower(s), t)
unfoldable pub contains_like : String → String → Bool
unfolding starts_like
contains_like String.[] t = starts_like String.[] t
contains_like (String.◌∷◌ c s) t = starts_like (String.◌∷◌ c s) t || contains_like s t

-- strings.Replace(s, "autoincrement", "", -1): the number counts what is left of a word.
unfoldable pub without_autoincrement : ℕ → String → String
without_autoincrement n String.[] = ""
without_autoincrement (suc n) (String.◌∷◌ c s) = without_autoincrement n s
without_autoincrement zero (String.◌∷◌ c s) =
    let behind = without_autoincrement 12 s in
    let rest = without_autoincrement zero s in
    if starts_with (String.◌∷◌ c s) "autoincrement" then behind else String.◌∷◌ c rest

-- createStmt[:strings.LastIndex(strings.ToLower(createStmt), "strict")]
unfoldable pub before_strict : String → Option String
unfolding starts_like
before_strict String.[] = none
before_strict (String.◌∷◌ c s) = elim (before_strict s) [
  | some front ↦ some (String.◌∷◌ c front)
  | none ↦ if starts_like (String.◌∷◌ c s) "strict" then some "" else none
]

unfoldable pub cleaned_statement : String → String
unfolding contains_like without_autoincrement
cleaned_statement s = if contains_like s "autoincrement" then without_autoincrement 0 s else s

-- sqlparser's nodes.
pub record ColumnDef : Type 0 where
  pub column : String
  pub type : String
  pub constraints : List String

pub data ParsedStatement : Type 0 where
  create_table_node : List ColumnDef → List String → ParsedStatement
  other_node : ParsedStatement

pub record ParsedSql : Type 0 where
  -- ast.Errors[0]
  pub first_error : Option GoError
  pub statements : List ParsedStatement

module _ (to_lower : String → String) (parse : String → Result ParsedSql) where
  unfoldable pub column_schemas : List ColumnDef → List ColumnSchema
  column_schemas [] = []
  column_schemas (c ∷ cs) =
      record { name = c.column; type = to_lower c.type; constraints = c.constraints }
      ∷ column_schemas cs

  unfoldable pub schema_of_statements : List ParsedStatement → Result TableSchema
  unfolding column_schemas
  schema_of_statements (create_table_node columns constraints ∷ rest) =
      ok (record { columns = column_schemas columns; table_constraints = constraints })
  schema_of_statements (other_node ∷ rest) = panic "interface conversion"
  schema_of_statements [] = panic "index out of range"

  unfoldable pub schema_of_ast : ParsedSql → Result TableSchema
  unfolding schema_of_statements
  schema_of_ast ast = elim ast.first_error [
    | none ↦ schema_of_statements ast.statements
    | some e ↦ err (flattened "non-syntax error" e)
  ]

  unfoldable pub schema_of_parse : Result ParsedSql → Result TableSchema
  unfolding schema_of_ast
  schema_of_parse (ok ast) = schema_of_ast ast
  schema_of_parse (err e) = err (flattened "failed to parse create stmt" e)
  schema_of_parse (panic p) = panic p

  unfoldable pub schema_of_front : Option String → Result TableSchema
  unfolding schema_of_parse
  schema_of_front none = panic "slice bounds out of range"
  schema_of_front (some front) = schema_of_parse (parse front)

  -- GetSchemaByTableName, of what the query gives.
  unfoldable pub store_get_schema_by_table_name : Result String → Result TableSchema
  unfolding schema_of_front before_strict cleaned_statement
  store_get_schema_by_table_name (ok statement) =
      schema_of_front (before_strict (cleaned_statement statement))
  store_get_schema_by_table_name (err e) = err (flattened "failed to get the table" e)
  store_get_schema_by_table_name (panic p) = panic p

-- SELECT ... from system_evm_events where chain_id=?1 and tx_hash=?2
unfoldable pub select_events : ℕ → String → List EvmEvent → List EvmEvent
select_events chain hash [] = []
select_events chain hash (e ∷ es) =
    let rest = select_events chain hash es in
    if (e.chain_id == chain) && str_eq e.tx_hash hash then e ∷ rest else rest

-- GetEVMEvents
unfoldable pub get_evm_events : Option GoError → ℕ → String → List EvmEvent → Result (List EvmEvent)
unfolding select_events
get_evm_events none chain hash es = ok (select_events chain hash es)
get_evm_events (some e) chain hash es = err (flattened "get events by txhash" e)

unfoldable pub select_block : ℕ → ℤ → List BlockRow → Option BlockRow
select_block chain n [] = none
select_block chain n (b ∷ bs) =
    let rest = select_block chain n bs in
    if (b.chain_id == chain) && eq_ℤ b.block_number n then some b else rest

unfoldable pub found_block : Option BlockRow → Result BlockRow
found_block none = err (wrapped "block information not found" (text "sql: no rows in result set"))
found_block (some b) = ok b

-- GetBlockExtraInfo
unfoldable pub get_block_extra_info : Option GoError → ℕ → ℤ → List BlockRow → Result BlockRow
unfolding found_block select_block
get_block_extra_info none chain n bs = found_block (select_block chain n bs)
get_block_extra_info (some e) chain n bs = err (flattened "get block information" e)

-- The id that is stored, or the fresh one.
unfoldable pub id_or_insert : (ℕ → Option GoError) → String → List String → Run (List String) String
unfolding on_error call pure
id_or_insert fault fresh (id ∷ rest) = pure id
id_or_insert fault fresh [] = do
  on_error (flattened "failed to insert id") (call fault (λ ids. (ok tt, ids ++ (fresh ∷ []))))
  pure fresh

-- GetID; `fresh` is a new UUID without its dashes.
unfoldable pub get_id : (ℕ → Option GoError) → String → Run (List String) String
unfolding on_error call id_or_insert
get_id fault fresh = do
  ids ← on_error (flattened "failed to get id") (call fault (λ ids. (ok ids, ids)))
  id_or_insert fault fresh ids
