-- ===== src/System.antt =====
-- SystemSQLStoreService of internal/system/impl/sqlstore.go: what the API serves of the tables and receipts, over
-- the stores of the chains (the interface SystemStore of pkg/sqlstore/sqlstore.go). Controllers of tables are texts.
pub mod Store
pub mod Reads
use Prim.Native.String.{◌++◌ as str_append}
use go_tableland.Prelude.{
  ℤ, pos, negsuc, decimal, ℕ, suc, ◌-◌, ◌/◌, String, str_append, not, Option, none, some, List, [],
  ◌∷◌, ◌++◌, str_eq, if◌then◌else◌,
}
use go_tableland.Errors.{GoError, text, formatted, flattened, Result, ok, err, panic}
use go_tableland.Names.{TableName, new_table_from_name}

-- sqlstore.Table; an id may be negative, if it was read from an int64.
pub record Table : Type 0 where
  pub id : ℤ
  pub chain_id : ℕ
  pub controller : String
  pub prefix : String
  pub structure : String
  pub created_at : ℤ

pub record ColumnSchema : Type 0 where
  pub name : String
  pub type : String
  pub constraints : List String

pub record TableSchema : Type 0 where
  pub columns : List ColumnSchema
  pub table_constraints : List String

pub record TableMetadataAttribute : Type 0 where
  pub display_type : String
  pub trait_type : String
  pub value : ℤ

pub record TableMetadata : Type 0 where
  pub name : String
  pub external_url : String
  pub image : String
  pub message : String
  pub animation_url : String
  pub attributes : List TableMetadataAttribute
  pub schema : TableSchema

-- eventprocessor.Receipt and sqlstore.Receipt
pub record Receipt : Type 0 where
  pub chain_id : ℕ
  pub block_number : ℤ
  pub index_in_block : ℕ
  pub txn_hash : String
  pub table_id : Option ℤ
  pub error : Option GoError
  pub error_event_idx : Option ℕ

-- A missing row is an answer of its own: errors.Is(err, sql.ErrNoRows).
pub data Lookup (A : Type 0) : Type 0 where
  found : A → Lookup A
  no_rows : Lookup A
  failed : GoError → Lookup A

pub record SystemStore : Type 0 where
  pub get_table : ℕ → Lookup Table
  pub get_tables_by_controller : String → Result (List Table)
  pub get_tables_by_structure : String → Result (List Table)
  pub get_schema_by_table_name : String → Result TableSchema
  pub get_receipt : String → Result (Option Receipt)

pub record SystemService : Type 0 where
  pub ext_url_prefix : String
  pub metadata_renderer_uri : String
  pub animation_renderer_uri : String
  pub stores : ℕ → Option SystemStore

-- fmt's %d of a whole number, and %s of a TableID.
unfoldable pub show_ℤ : ℤ → String
show_ℤ (pos n) = decimal n
show_ℤ (negsuc n) = str_append "-" (decimal (suc n))

infixl 60 ◌<>◌
abbrev pub ◌<>◌ : String → String → String
s <> t = str_append s t

-- {prefix}_{chain}_{id}
unfoldable pub full_table_name : Table → String
unfolding show_ℤ
full_table_name t = t.prefix <> "_" <> decimal t.chain_id <> "_" <> show_ℤ t.id

-- emptyMetadataImage
abbrev pub empty_metadata_image : String
empty_metadata_image =
    "data:image/svg+xml;base64,PHN2ZyB3aWR0aD0nNTEyJyBoZWlnaHQ9JzUxMicgeG1sbnM9J2h0dHA6Ly93d3cudzMub3JnLzIwMDAvc3ZnJz48cmVjdCB3aWR0aD0nNTEyJyBoZWlnaHQ9JzUxMicgZmlsbD0nIzAwMCcvPjwvc3ZnPg=="

abbrev pub no_schema : TableSchema
no_schema = record { columns = []; table_constraints = [] }

-- What GetTableMetadata returns: metadata, and ErrTableNotFound beside it; or another error.
pub data MetadataAnswer : Type 0 where
  answered : TableMetadata → MetadataAnswer
  table_not_found : TableMetadata → MetadataAnswer
  metadata_error : GoError → MetadataAnswer
  metadata_panic : String → MetadataAnswer

unfoldable pub in_context : {A : Type 0} → Option ℕ → (ℕ → Result A) → Result A
in_context none k = err (text "no chain id found in context")
in_context (some chain) k = k chain

unfoldable pub flattened_as : {A : Type 0} → String → Result A → Result A
flattened_as context (ok a) = ok a
flattened_as context (err e) = err (flattened context e)
flattened_as context (panic s) = panic s

module _ (s : SystemService) where
  unfoldable pub external_url : ℕ → ℤ → String
  unfolding show_ℤ
  external_url chain id = s.ext_url_prefix <> "/chain/" <> decimal chain <> "/tables/" <> show_ℤ id

  unfoldable pub get_metadata_image : ℕ → ℤ → String
  unfolding show_ℤ
  get_metadata_image chain id =
      if str_eq s.metadata_renderer_uri ""
      then "https://bafkreifhuhrjhzbj4onqgbrmhpysk2mop2jimvdvfut6taiyzt2yqzt43a.ipfs.dweb.link"
      else s.metadata_renderer_uri <> "/" <> decimal chain <> "/" <> show_ℤ id

  unfoldable pub get_animation_url : ℕ → ℤ → String
  unfolding show_ℤ
  get_animation_url chain id =
      if str_eq s.animation_renderer_uri ""
      then ""
      else s.animation_renderer_uri <> "/?chain=" <> decimal chain <> "&id=" <> show_ℤ id

  unfoldable pub placeholder : ℕ → ℤ → String → TableMetadata
  unfolding external_url
  placeholder chain id message = record {
    name = "";
    external_url = external_url chain id;
    image = empty_metadata_image;
    message = message;
    animation_url = "";
    attributes = [];
    schema = no_schema;
  }

  unfoldable pub metadata_of : Table → Result TableSchema → MetadataAnswer
  unfolding full_table_name external_url get_metadata_image get_animation_url
  metadata_of t (ok schema) = answered (record {
    name = full_table_name t;
    external_url = external_url t.chain_id t.id;
    image = get_metadata_image t.chain_id t.id;
    message = "";
    animation_url = get_animation_url t.chain_id t.id;
    attributes =
        record { display_type = "date"; trait_type = "created"; value = t.created_at } ∷ [];
    schema = schema;
  })
  metadata_of t (err e) = metadata_error (flattened "get table schema information" e)
  metadata_of t (panic p) = metadata_panic p

  unfoldable pub metadata_of_lookup : SystemStore → ℕ → ℕ → Lookup Table → MetadataAnswer
  unfolding metadata_of placeholder full_table_name
  metadata_of_lookup store chain id (found t) =
      metadata_of t (store.get_schema_by_table_name (full_table_name t))
  metadata_of_lookup store chain id no_rows =
      table_not_found (placeholder chain (pos id) "Table not found")
  metadata_of_lookup store chain id (failed e) =
      answered (placeholder chain (pos id) "Failed to fetch the table")

  unfoldable pub metadata_in : ℕ → ℕ → Option SystemStore → MetadataAnswer
  unfolding metadata_of_lookup placeholder
  metadata_in id chain none = answered (placeholder chain (pos id) "Chain isn't supported")
  metadata_in id chain (some store) = metadata_of_lookup store chain id (store.get_table id)

  -- GetTableMetadata; the chain is the context's.
  unfoldable pub get_table_metadata : Option ℕ → ℕ → MetadataAnswer
  unfolding metadata_in
  get_table_metadata none id = metadata_error (text "no chain id found in context")
  get_table_metadata (some chain) id = metadata_in id chain (s.stores chain)

  unfoldable pub found_store : ℕ → Option SystemStore → Result SystemStore
  found_store chain none = err (formatted "chain id isn't supported in the validator" (chain ∷ []))
  found_store chain (some store) = ok store

  unfoldable pub store_of : ℕ → Result SystemStore
  unfolding found_store
  store_of chain = found_store chain (s.stores chain)

  unfoldable pub with_store :
      {A : Type 0} → Result SystemStore → (SystemStore → Result A) → Result A
  with_store (ok store) k = k store
  with_store (err e) k = err e
  with_store (panic p) k = panic p

  unfoldable pub receipt_of : ℕ → Result (Option Receipt) → Result (Option Receipt)
  receipt_of chain (ok none) = ok none
  receipt_of chain (ok (some r)) = ok (some (record r { chain_id = chain }))
  receipt_of chain (err e) = err (flattened "transaction receipt lookup" e)
  receipt_of chain (panic p) = panic p

  -- `hex` is common.Hash.Hex.
  unfoldable pub get_receipt_by_transaction_hash :
      {H : Type 0} → (H → String) → Option ℕ → H → Result (Option Receipt)
  unfolding in_context with_store store_of receipt_of
  get_receipt_by_transaction_hash hex context hash =
      in_context context λ chain.
        with_store (store_of chain) λ store. receipt_of chain (store.get_receipt (hex hash))

  unfoldable pub get_tables_by_controller : Option ℕ → String → Result (List Table)
  unfolding in_context with_store store_of flattened_as
  get_tables_by_controller context controller = in_context context λ chain.
      with_store (store_of chain) λ store.
        flattened_as "error fetching the tables" (store.get_tables_by_controller controller)

  unfoldable pub get_tables_by_structure : Option ℕ → String → Result (List Table)
  unfolding in_context with_store store_of flattened_as
  get_tables_by_structure context structure = in_context context λ chain.
      with_store (store_of chain)
        λ store. flattened_as "get tables by structure" (store.get_tables_by_structure structure)

  unfoldable pub schema_in : String → Result TableName → Result TableSchema
  unfolding with_store store_of flattened_as
  schema_in name (err e) = err (flattened "new table from name" e)
  schema_in name (panic p) = panic p
  schema_in name (ok t) = elim t.chain_id [
    | negsuc n ↦ err (text "chain id isn't supported in the validator")
    | pos chain ↦
        with_store (store_of chain)
          λ store. flattened_as "get schema by table name" (store.get_schema_by_table_name name)
  ]

  -- GetSchemaByTableName
  unfoldable pub get_schema_by_table_name : String → Result TableSchema
  unfolding schema_in new_table_from_name
  get_schema_by_table_name name = schema_in name (new_table_from_name name)
