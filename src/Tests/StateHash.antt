-- ===== src/Tests/StateHash.antt =====
-- The property of the state hash at a database with one table, and two databases with one text.
use go_tableland.Prelude.{String, ◌≡◌, refl, List, [], ◌∷◌}
use go_tableland.Errors.{Result, ok}
use go_tableland.StateHash.{
  Scanned, TableRows, default_config, apply_hash_options, write_cells, write_rows, write_table,
  table_state_writer, after_table, next_table, write_schemas, database_state_writer, digest_of,
  database_state_hash,
}
use go_tableland.StateHash.Concat.{all_scanned, state_text, database_state_hash-concat}

abbrev schemas : List (String × String)
schemas = ("t", "create") ∷ []

-- Two rows of the table: 1, 23.
abbrev cells : String → List (List String)
cells name = ("1" ∷ "23" ∷ []) ∷ []

-- 12, 3.
abbrev moved_cells : String → List (List String)
moved_cells name = ("12" ∷ "3" ∷ []) ∷ []

abbrev answer : (String → List (List String)) → String → Result TableRows
answer cs q = ok (record { columns = ok ("a" ∷ "b" ∷ []); rows = all_scanned (cs q) })

abbrev schemas_of : String → Result (List (Scanned (String × String)))
schemas_of q = ok (all_scanned schemas)

database_state_hash-concat_example :
    database_state_hash (λ s. s) schemas_of (answer cells) [] ≡ ok (state_text cells schemas)
database_state_hash-concat_example =
    database_state_hash-concat (λ s. s) schemas_of (answer cells) [] schemas cells
      (refl, λ name. ("a" ∷ "b" ∷ [], refl))

-- The cells' borders are not hashed.
same_hash :
    (digest : String → String)
    → database_state_hash digest schemas_of (answer cells) []
      ≡ database_state_hash digest schemas_of (answer moved_cells) []
unfolding database_state_hash apply_hash_options default_config database_state_writer write_schemas
    next_table after_table table_state_writer write_table write_rows write_cells digest_of
same_hash digest = refl
