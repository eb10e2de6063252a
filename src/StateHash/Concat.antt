-- ===== src/StateHash/Concat.antt =====
-- About the text that DatabaseStateHash of pkg/dbhash/dbhash.go hashes.
use Prim.Native.String.{◌++◌ as str_append}
use package.text.Mathlib.TextLemmas.{append-nil, append_assoc, nil-append}
use go_tableland.Prelude.{String, str_append, ◌≡◌, sym, ap, ◌∙◌, List, [], ◌∷◌}
use go_tableland.Errors.{text, Result, ok}
use go_tableland.StateHash.{
  Scanned, scanned, TableRows, HashConfig, default_config, apply_hash_options, write_cells,
  write_rows, write_table, table_state_writer, after_table, next_table, write_schemas,
  database_state_writer, digest_of, database_state_hash,
}

abbrev pub all_scanned : {A : Type 0} → List A → List (Scanned A)
all_scanned [] = []
all_scanned (x ∷ xs) = scanned x ∷ all_scanned xs

-- Texts one behind the other.
abbrev pub concat : List String → String
concat [] = ""
concat (s ∷ ss) = str_append s (concat ss)

abbrev pub concat_rows : List (List String) → String
concat_rows [] = ""
concat_rows (r ∷ rs) = str_append (concat r) (concat_rows rs)

-- A database that is read without an error: its schemas, and the cells of each table.
abbrev pub state_text : (String → List (List String)) → List (String × String) → String
state_text cells [] = ""
state_text cells ((name, stmt) ∷ rest) =
    str_append name
      (str_append stmt (str_append (concat_rows (cells name)) (state_text cells rest)))

write_cells_lem :
    (cs : List String) (buf : String) → write_cells cs buf ≡ str_append buf (concat cs)
unfolding write_cells
write_cells_lem [] buf = sym (append-nil buf)
write_cells_lem (c ∷ cs) buf =
    write_cells_lem cs (str_append buf c) ∙ append_assoc buf c (concat cs)

write_rows_lem :
    (rs : List (List String)) (buf : String)
    → write_rows (all_scanned rs) buf ≡ ok (str_append buf (concat_rows rs))
unfolding write_rows
write_rows_lem [] buf = ap ok (sym (append-nil buf))
write_rows_lem (r ∷ rs) buf =
    write_rows_lem rs (write_cells r buf)
    ∙ ap (λ b. ok (str_append b (concat_rows rs))) (write_cells_lem r buf)
    ∙ ap ok (append_assoc buf (concat r) (concat_rows rs))

-- A query that answers the rows of a table.
abbrev pub Answers :
    (String → Result TableRows) → HashConfig → (String → List (List String)) → Type 0
Answers query c cells =
    (name : String)
    → (columns : List String) × (query (c.per_table_query name)
        ≡ ok (record { columns = ok columns; rows = all_scanned (cells name) }))

module _ (query : String → Result TableRows) (c : HashConfig) (cells : String → List (List String))
    (answers : Answers query c cells) where
  table_lem :
      (name buf : String)
      → after_table (table_state_writer (query (c.per_table_query name)) buf) buf
        ≡ ok (str_append buf (concat_rows (cells name)))
  unfolding table_state_writer write_table after_table
  table_lem name buf =
      let (columns, e) = answers name in
      ap (λ q. after_table (table_state_writer q buf) buf) e
      ∙ ap (λ q. after_table q buf) (write_rows_lem (cells name) buf)

  write_schemas_lem :
      (schemas : List (String × String)) (buf : String)
      → write_schemas query c (all_scanned schemas) buf
        ≡ ok (str_append buf (state_text cells schemas))
  unfolding write_schemas next_table
  write_schemas_lem [] buf = ap ok (sym (append-nil buf))
  write_schemas_lem ((name, stmt) ∷ rest) buf =
      let named = str_append (str_append buf name) stmt in
      let rows = concat_rows (cells name) in
      let others = state_text cells rest in
      ap (λ q. next_table q (write_schemas query c (all_scanned rest))) (table_lem name named)
      ∙ write_schemas_lem rest (str_append named rows)
      ∙ ap ok (
          append_assoc named rows others
          ∙ append_assoc (str_append buf name) stmt (str_append rows others)
          ∙ append_assoc buf name (str_append stmt (str_append rows others)))

-- If the schemas' query and the query of every table give their rows without an error, then the
-- hash of the state is the digest of one text: for each table in the order of the schemas its
-- name, its statement and its cells row by row, one behind the other and with nothing between
-- them.
pub database_state_hash-concat :
    (digest : String → String) (schemas_of : String → Result (List (Scanned (String × String))))
    (query : String → Result TableRows) (opts : List (HashConfig → HashConfig))
    (schemas : List (String × String)) (cells : String → List (List String))
    → (let c = apply_hash_options opts default_config in
        (schemas_of c.fetch_schemas_query ≡ ok (all_scanned schemas)) × Answers query c cells)
    → database_state_hash digest schemas_of query opts ≡ ok (digest (state_text cells schemas))
unfolding database_state_hash database_state_writer digest_of
database_state_hash-concat digest schemas_of query opts schemas cells (e, answers) =
    let c = apply_hash_options opts default_config in
    ap (λ q. digest_of digest (database_state_writer query c q)) e
    ∙ ap (digest_of digest) (write_schemas_lem query c cells answers schemas "")
    ∙ ap (λ s. ok (digest s)) (nil-append (state_text cells schemas))
