-- ===== src/Api/Metadata.antt =====
-- The ERC-721 metadata of a row: metadataConfigToMetadata of internal/router/controllers/controller.go.
use go_tableland.System.{◌<>◌}
use go_tableland.Prelude.{String, Option, none, some, List, [], ◌∷◌, str_eq, if◌then◌else◌}
use go_tableland.Errors.{Result, ok, panic}
use go_tableland.Formatter.{put}
use go_tableland.UserStore.{int, int_pointers, ColumnValue, other_value}
use go_tableland.System.{show_ℤ, ◌<>◌}

pub record AttributeConfig : Type 0 where
  pub column : String
  pub display_type : String
  pub trait_type : String

pub record MetadataConfig : Type 0 where
  pub image : String
  pub image_transparent : String
  pub image_data : String
  pub external_url : String
  pub description : String
  pub name : String
  pub attributes : List AttributeConfig
  pub background_color : String
  pub animation_url : String
  pub youtube_url : String

-- An interface{} of the metadata: a column's value, or a text.
pub data Field : Type 0 where
  column_value : ColumnValue → Field
  field_text : String → Field

pub record Attribute : Type 0 where
  pub display_type : String
  pub trait_type : String
  pub value : ColumnValue

pub record Metadata : Type 0 where
  pub image : Option Field
  pub image_transparent : Option Field
  pub image_data : Option Field
  pub external_url : Option Field
  pub description : Option Field
  pub name : Option Field
  pub attributes : List Attribute
  pub background_color : Option Field
  pub animation_url : Option Field
  pub youtube_url : Option Field

-- row[name]
unfoldable pub get : String → List (String × ColumnValue) → Option ColumnValue
get name [] = none
get name ((k, v) ∷ rest) = if str_eq k name then some v else get name rest

unfoldable pub field : List (String × ColumnValue) → String → Option Field
unfolding get
field row name = elim (get name row) [ some v ↦ some (column_value v) | none ↦ none ]

-- A name that is a number is written with a sign before it.
unfoldable pub name_field : ColumnValue → Field
unfolding show_ℤ
name_field (other_value (int x)) = field_text ("#" <> show_ℤ x)
name_field (other_value (int_pointers x)) = field_text ("#" <> show_ℤ x)
name_field v = column_value v

unfoldable pub metadata_name : List (String × ColumnValue) → String → Option Field
unfolding get name_field
metadata_name row name = elim (get name row) [ some v ↦ some (name_field v) | none ↦ none ]

-- The attributes whose column the row has.
unfoldable pub metadata_attributes :
    List (String × ColumnValue) → List AttributeConfig → List Attribute
unfolding get
metadata_attributes row [] = []
metadata_attributes row (a ∷ others) =
    let rest = metadata_attributes row others in
    elim (get a.column row) [
      | some v ↦
          record { display_type = a.display_type; trait_type = a.trait_type; value = v } ∷ rest
      | none ↦ rest
    ]

unfoldable pub metadata_config_to_metadata : List (String × ColumnValue) → MetadataConfig → Metadata
unfolding field metadata_name metadata_attributes
metadata_config_to_metadata row c = record {
  image = field row c.image;
  image_transparent = field row c.image_transparent;
  image_data = field row c.image_data;
  external_url = field row c.external_url;
  description = field row c.description;
  name = metadata_name row c.name;
  attributes = metadata_attributes row c.attributes;
  background_color = field row c.background_color;
  animation_url = field row c.animation_url;
  youtube_url = field row c.youtube_url;
}

-- A row that is shorter than the columns is out of their range.
unfoldable pub user_row_to_map :
    List String
    → List ColumnValue
    → List (String × ColumnValue)
    → Result (List (String × ColumnValue))
unfolding put
user_row_to_map [] row m = ok m
user_row_to_map (c ∷ cs) [] m = panic "index out of range"
user_row_to_map (c ∷ cs) (v ∷ vs) m = user_row_to_map cs vs (put c v m)
