-- ===== src/Api/Row.antt =====
-- GetTableRow of internal/router/controllers/controller.go.
use go_tableland.Prelude.{decimal, ℕ, String, List, [], ◌∷◌, str_eq, if◌then◌else◌}
use go_tableland.Errors.{text, flattened, Result, ok, err, panic}
use go_tableland.Names.{new_table_id}
use go_tableland.System.{◌<>◌}
use go_tableland.Formatter.{FormatConfig, TableData, Json, and_then, format}
use go_tableland.UserStore.{string, ColumnValue, other_value}
use go_tableland.Api.{bytes, encoded, Writer, set_content_type, refuse_with, respond}
use go_tableland.Api.Params.{formatter_options}
use go_tableland.Api.Query.{
  ReadAnswer, rows_read, refused, read_panic, run_read_request, lines_type,
}
use go_tableland.Api.Metadata.{
  MetadataConfig, Metadata, metadata_config_to_metadata, user_row_to_map,
}

pub data RowReply : Type 0 where
  metadata_reply : Metadata → RowReply

-- A request: the path's variables, the query, and MetadataConfig as urlquery reads it.
pub record RowRequest : Type 0 where
  pub vars : String → String
  pub query : String → String
  pub metadata_config : Result MetadataConfig

-- res.Rows[0]
unfoldable pub first_row : TableData ColumnValue → Result (List ColumnValue)
first_row d = elim d.rows [ [] ↦ panic "index out of range" | row ∷ rest ↦ ok row ]

-- prefixRes.Rows[0][0].Value().(string)
unfoldable pub text_of : List ColumnValue → Result String
text_of (other_value (string s) ∷ rest) = ok s
text_of [] = panic "index out of range"
text_of _ = panic "interface conversion"

unfoldable pub prefix_statement : String → String → String
prefix_statement id chain =
    "select prefix from registry where id=" <> id <> " and chain_id=" <> chain <> " LIMIT 1"

unfoldable pub row_statement : String → String → String → String → String → String
row_statement prefix chain id key value =
    "SELECT * FROM " <> prefix <> "_" <> chain <> "_" <> id <> " WHERE " <> key <> "=" <> value
    <> " LIMIT 1"

module _ (json : Json ColumnValue) (r : RowRequest) where
  -- Here the type is set before the status.
  unfoldable pub answer_row_formatted :
      TableData ColumnValue
      → Result (String × FormatConfig)
      → Writer RowReply
      → Result (Writer RowReply)
  unfolding respond refuse_with lines_type
  answer_row_formatted d (ok (formatted_rows, c)) w =
      ok (respond 200 (bytes formatted_rows) (lines_type c d w))
  answer_row_formatted d (err e) w = ok (refuse_with 500 (flattened "Error formatting data" e) w)
  answer_row_formatted d (panic p) w = panic p

  unfoldable pub answer_row_options :
      TableData ColumnValue
      → Result (List (FormatConfig → FormatConfig))
      → Writer RowReply
      → Result (Writer RowReply)
  unfolding answer_row_formatted refuse_with format
  answer_row_options d (ok opts) w = answer_row_formatted d (format json d opts) w
  answer_row_options d (err e) w = ok (refuse_with 400 (flattened "Invalid formatting params" e) w)
  answer_row_options d (panic p) w = panic p

  unfoldable pub answer_metadata :
      MetadataConfig
      → Result (List (String × ColumnValue))
      → Writer RowReply
      → Result (Writer RowReply)
  unfolding respond metadata_config_to_metadata
  answer_metadata c (ok row) w =
      ok (respond 200 (encoded (metadata_reply (metadata_config_to_metadata row c))) w)
  answer_metadata c (err e) w = err e
  answer_metadata c (panic p) w = panic p

  unfoldable pub answer_erc721 :
      TableData ColumnValue → Result MetadataConfig → Writer RowReply → Result (Writer RowReply)
  unfolding answer_metadata user_row_to_map refuse_with first_row
  answer_erc721 d (ok c) w =
      answer_metadata c (and_then (λ e. e) (first_row d) (λ row. user_row_to_map d.columns row []))
        w
  answer_erc721 d (err e) w = ok (refuse_with 400 (text "Invalid metadata config") w)
  answer_erc721 d (panic p) w = panic p

  unfoldable pub answer_row : ReadAnswer RowReply → Writer RowReply → Result (Writer RowReply)
  unfolding answer_erc721 answer_row_options formatter_options
  answer_row (rows_read d) w =
      if str_eq (r.query "format") "erc721"
      then answer_erc721 d r.metadata_config w
      else answer_row_options d (formatter_options r.query) w
  answer_row (refused w') w = ok w'
  answer_row (read_panic p) w = panic p

  module _ (run : String → Result (TableData ColumnValue)) where
    -- The row of a table whose prefix was read.
    unfoldable pub read_row : ℕ → Result String → Writer RowReply → Result (Writer RowReply)
    unfolding answer_row run_read_request row_statement
    read_row id (ok prefix) w =
        answer_row
          (run_read_request
            (run (
              row_statement prefix (r.vars "chainID") (decimal id) (r.vars "key") (r.vars "value")))
            w)
          w
    read_row id (err e) w = err e
    read_row id (panic p) w = panic p

    unfoldable pub answer_prefix :
        ℕ → ReadAnswer RowReply → Writer RowReply → Result (Writer RowReply)
    unfolding read_row first_row text_of and_then
    answer_prefix id (rows_read d) w = read_row id (and_then (λ e. e) (first_row d) text_of) w
    answer_prefix id (refused w') w = ok w'
    answer_prefix id (read_panic p) w = panic p

    unfoldable pub read_prefix : Result ℕ → Writer RowReply → Result (Writer RowReply)
    unfolding answer_prefix run_read_request prefix_statement refuse_with
    read_prefix (ok id) w =
        answer_prefix id
          (run_read_request (run (prefix_statement (decimal id) (r.vars "chainID"))) w) w
    read_prefix (err e) w = ok (refuse_with 400 (text "Invalid id format") w)
    read_prefix (panic p) w = panic p

    -- GetTableRow
    unfoldable pub get_table_row : Writer RowReply → Result (Writer RowReply)
    unfolding read_prefix set_content_type new_table_id
    get_table_row w =
        read_prefix (new_table_id (r.vars "id")) (set_content_type "application/json" w)
