-- ===== src/Telemetry/Payloads.antt =====
-- The metrics of pkg/telemetry/metrics.go.
use go_tableland.Prelude.{ℤ, ℕ, String, Bool, List}

pub data MetricType : Type 0 where
  state_hash_type git_summary_type chain_stacks_summary_type : MetricType
  read_query_type new_block_type new_tableland_event_type : MetricType

unfoldable pub type_number : MetricType → ℕ
type_number state_hash_type = 0
type_number git_summary_type = 1
type_number chain_stacks_summary_type = 2
type_number read_query_type = 3
type_number new_block_type = 4
type_number new_tableland_event_type = 5

pub record StateHashMetric : Type 0 where
  pub version : ℕ
  pub chain_id : ℕ
  pub block_number : ℤ
  pub hash : String

pub record GitSummaryMetric : Type 0 where
  pub version : ℕ
  pub git_commit : String
  pub git_branch : String
  pub git_state : String
  pub git_summary : String
  pub build_date : String
  pub binary_version : String

-- A map is a list of its entries.
pub record ChainStacksMetric : Type 0 where
  pub version : ℕ
  pub last_processed_block_numbers : List (ℕ × ℤ)

pub record ReadQueryFormatOptions : Type 0 where
  pub extract : Bool
  pub unwrap : Bool
  pub output : String

pub record ReadQueryMetric : Type 0 where
  pub version : ℕ
  pub ip_address : String
  pub sql_statement : String
  pub format_options : ReadQueryFormatOptions
  pub took_milli : ℤ

pub record NewBlockMetric : Type 0 where
  pub version : ℕ
  pub chain_id : ℕ
  pub block_number : ℤ
  pub block_timestamp_unix : ℕ

pub record NewTablelandEventMetric : Type 0 where
  pub version : ℕ
  pub address : String
  pub topics : String
  pub event_data : String
  pub block_number : ℕ
  pub tx_hash : String
  pub tx_index : ℕ
  pub block_hash : String
  pub index : ℕ
  pub chain_id : ℕ
  pub event_json : String
  pub event_type : String

-- The interface{} that Collect takes; any other type by its name.
pub data Payload : Type 0 where
  state_hash : StateHashMetric → Payload
  git_summary : GitSummaryMetric → Payload
  chain_stacks : ChainStacksMetric → Payload
  read_query : ReadQueryMetric → Payload
  new_block : NewBlockMetric → Payload
  new_tableland_event : NewTablelandEventMetric → Payload
  unknown : String → Payload

pub record Metric : Type 0 where
  pub row_id : ℕ
  pub version : ℕ
  pub timestamp : ℤ
  pub type : MetricType
  pub payload : Payload
