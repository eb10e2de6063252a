-- ===== src/Api/Route.antt =====
-- About GetTableRow of internal/router/controllers/controller.go behind its route (internal/router/router.go).
use go_tableland.Prelude.{
  ℤ, pos, negsuc, decimal, ℕ, String, ◌≡◌, refl, ap, Option, none, some, [], ◌∷◌, str_eq,
  if◌then◌else◌,
}
use go_tableland.Errors.{GoError, text, Result, ok, err, panic}
use go_tableland.Names.{set_string, not_negative, new_table_id}
use go_tableland.Formatter.{TableData, Json}
use go_tableland.UserStore.{ColumnValue}
use go_tableland.Api.{
  service_error, Writer, new_writer, set_content_type, write_header, write, refuse_with,
}
use go_tableland.Api.Query.{run_read_request}
use go_tableland.Api.Metadata.{MetadataConfig}
use go_tableland.Api.Row.{
  RowReply, RowRequest, prefix_statement, answer_prefix, read_prefix, get_table_row,
}
use go_tableland.Api.Rectangular.{NoPanic}

-- mux.Vars for /chain/{chainId}/tables/{id}/{key}/{value}; a name that the path has not is empty.
unfoldable pub row_vars : String → String → String → String → String → String
row_vars chain id key value name =
    if str_eq name "chainId"
    then chain
    else if str_eq name "id"
    then id
    else if str_eq name "key"
    then key
    else if str_eq name "value"
    then value
    else ""

-- The request that the route makes.
abbrev pub routed :
    String → String → String → String → (String → String) → Result MetadataConfig → RowRequest
routed chain id key value query config = record {
  vars = row_vars chain id key value;
  query = query;
  metadata_config = config;
}

-- Status 400 and an error.
abbrev pub BadRequest : Writer RowReply → Type 0
BadRequest w =
    (e : GoError) × (w.sent ≡ some (400, some "application/json")) × (w.body ≡ service_error e ∷ [])

no_chain : (chain id key value : String) → row_vars chain id key value "chainID" ≡ ""
unfolding row_vars
no_chain chain id key value = refl

not_negative-NoPanic : (n : Option ℤ) → NoPanic (not_negative n)
unfolding not_negative
not_negative-NoPanic none = λ s h. cc
not_negative-NoPanic (some (pos n)) = λ s h. cc
not_negative-NoPanic (some (negsuc n)) = λ s h. cc

-- Behind its route, whose path names the chain chainId, GetTableRow answers every request with
-- status 400 and an error, if the database refuses the statements for the prefix that name no
-- chain.
pub get_table_row-refused :
    (json : Json ColumnValue) (chain id key value : String) (query : String → String)
    (config : Result MetadataConfig) (run : String → Result (TableData ColumnValue))
    → ((n : ℕ) → (e : GoError) × (run (prefix_statement (decimal n) "") ≡ err e))
    → (w : Writer RowReply) × (get_table_row json
          (routed chain id key value query config)
          run
          new_writer
        ≡ ok w)
      × BadRequest w
unfolding get_table_row read_prefix answer_prefix run_read_request row_vars set_content_type
    new_table_id refuse_with write_header write
get_table_row-refused json chain id key value query config run refuses =
    go (new_table_id id) (not_negative-NoPanic (set_string id))
  where
    r : RowRequest
    r = routed chain id key value query config

    json_writer : Writer RowReply
    json_writer = set_content_type "application/json" new_writer

    go :
        (p : Result ℕ)
        → NoPanic p
        → (w : Writer RowReply) × (read_prefix json r run p json_writer ≡ ok w) × BadRequest w
    go (ok n) q =
        let (e, f) = refuses n in
        (
          refuse_with 400 e json_writer,
          ap (λ a. answer_prefix json r run n (run_read_request a json_writer) json_writer) f,
          (e, refl, refl),
        )
    go (err e) q = (
      refuse_with 400 (text "Invalid id format") json_writer,
      refl,
      (text "Invalid id format", refl, refl),
    )
    go (panic s) q = absurd (q s refl)
