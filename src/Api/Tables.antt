-- ===== src/Api/Tables.antt =====
-- The handlers of internal/router/controllers/controller.go that serve tables, and Version and HealthHandler.
use go_tableland.Prelude.{ℕ, String, Option, List, [], ◌∷◌, starts_with, if◌then◌else◌}
use go_tableland.Errors.{text, Result, ok, err, panic}
use go_tableland.Names.{new_table_id}
use go_tableland.System.{
  Table, TableSchema, TableMetadataAttribute, TableMetadata, SystemService, full_table_name,
  MetadataAnswer, answered, table_not_found, metadata_error, metadata_panic, get_table_metadata,
  get_tables_by_controller, get_tables_by_structure, get_schema_by_table_name,
}
use go_tableland.Api.{encoded, Writer, set_content_type, write_header, refuse_with, respond}

-- apiv1.Table
pub record ApiTable : Type 0 where
  pub name : String
  pub external_url : String
  pub animation_url : String
  pub image : String
  pub attributes : List TableMetadataAttribute
  pub schema : TableSchema

unfoldable pub metadata_v1 : TableMetadata → ApiTable
metadata_v1 m = record {
  name = m.name;
  external_url = m.external_url;
  animation_url = m.animation_url;
  image = m.image;
  attributes = m.attributes;
  schema = m.schema;
}

-- tableNameIDUnified
pub record TableNameIdUnified : Type 0 where
  pub controller : String
  pub name : String
  pub structure : String

unfoldable pub unified : List Table → List TableNameIdUnified
unfolding full_table_name
unified [] = []
unified (t ∷ ts) =
    record { controller = t.controller; name = full_table_name t; structure = t.structure }
    ∷ unified ts

-- apiv1.VersionInfo
pub record VersionInfo : Type 0 where
  pub version : ℕ
  pub git_commit : String
  pub git_branch : String
  pub git_state : String
  pub git_summary : String
  pub build_date : String
  pub binary_version : String

-- What these handlers encode.
pub data Listing : Type 0 where
  api_table : ApiTable → Listing
  table_metadata : TableMetadata → Listing
  unified_tables : List TableNameIdUnified → Listing
  schema_response : TableSchema → Listing
  version_info : VersionInfo → Listing

unfoldable pub json_type : Writer Listing → Writer Listing
unfolding set_content_type
json_type = set_content_type "application/json"

-- A request's uri is only asked whether it is one of the first version of the API.
unfoldable pub answer_table : String → MetadataAnswer → Writer Listing → Result (Writer Listing)
unfolding respond refuse_with write_header json_type metadata_v1
answer_table uri (answered m) w =
    ok (respond 200 (encoded (api_table (metadata_v1 m))) (json_type w))
answer_table uri (table_not_found m) w =
    if starts_with uri "/api/v1/tables"
    then ok (write_header 404 w)
    else ok (respond 200 (encoded (table_metadata m)) (json_type w))
answer_table uri (metadata_error e) w =
    ok (refuse_with 500 (text "Failed to fetch metadata") (json_type w))
answer_table uri (metadata_panic p) w = panic p

unfoldable pub get_table_handler :
    SystemService → Option ℕ → String → String → Writer Listing → Result (Writer Listing)
unfolding answer_table refuse_with json_type get_table_metadata new_table_id
get_table_handler service context uri id w = elim (new_table_id id) [
  | ok n ↦ answer_table uri (get_table_metadata service context n) w
  | err e ↦ ok (refuse_with 400 (text "Invalid id format") (json_type w))
  | panic p ↦ panic p
]

unfoldable pub answer_tables : Result (List Table) → Writer Listing → Result (Writer Listing)
unfolding respond refuse_with unified
answer_tables (ok ts) w = ok (respond 200 (encoded (unified_tables (unified ts))) w)
answer_tables (err e) w = ok (refuse_with 500 (text "Failed to fetch tables") w)
answer_tables (panic p) w = panic p

unfoldable pub tables_by_controller_handler :
    SystemService → Option ℕ → String → Writer Listing → Result (Writer Listing)
unfolding answer_tables json_type get_tables_by_controller
tables_by_controller_handler service context address w =
    answer_tables (get_tables_by_controller service context address) (json_type w)

unfoldable pub tables_by_structure_handler :
    SystemService → Option ℕ → String → Writer Listing → Result (Writer Listing)
unfolding answer_tables json_type get_tables_by_structure
tables_by_structure_handler service context hash w =
    answer_tables (get_tables_by_structure service context hash) (json_type w)

unfoldable pub answer_schema : Result TableSchema → Writer Listing → Result (Writer Listing)
unfolding respond refuse_with
answer_schema (ok s) w = elim s.columns [
  | [] ↦ ok (refuse_with 500 (text "Table does not exist") w)
  | _ ↦ ok (respond 200 (encoded (schema_response s)) w)
]
answer_schema (err e) w = ok (refuse_with 500 (text "Failed to get schema from table") w)
answer_schema (panic p) w = panic p

unfoldable pub schema_handler : SystemService → String → Writer Listing → Result (Writer Listing)
unfolding answer_schema json_type get_schema_by_table_name
schema_handler service name w = answer_schema (get_schema_by_table_name service name) (json_type w)

unfoldable pub version_handler : VersionInfo → Writer Listing → Result (Writer Listing)
unfolding respond json_type
version_handler v w = ok (respond 200 (encoded (version_info v)) (json_type w))

unfoldable pub health_handler : Writer Listing → Result (Writer Listing)
unfolding write_header
health_handler w = ok (write_header 200 w)
