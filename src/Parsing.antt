-- ===== src/Parsing.antt =====
-- Statements as the parser library (github.com/tablelandnetwork/sqlparser) hands them to
-- pkg/parsing/impl/validator.go: of each node the fields that the Go code reads or writes, with the
-- rest as one text. The library itself is the parameter `SqlParser`.
pub mod Statements
pub mod Validator
pub mod OneTable
pub mod Returned
pub mod Permitted
use go_tableland.Prelude.{ℤ, ℕ, String, Bool, Option, List}
use go_tableland.Errors.{GoError, text, Result}

pub record InsertNode : Type 0 where
  pub table : String
  pub select : Option String
  pub body : String
  pub returning_rowid : Bool

pub record UpdateNode : Type 0 where
  pub table : String
  pub columns : List String
  pub body : String
  pub where_clauses : List String
  pub returning_rowid : Bool

pub record DeleteNode : Type 0 where
  pub table : String
  pub body : String
  pub where_clauses : List String

-- The privileges of a grant are a Go map: here in the order in which a loop meets them.
pub record GrantNode : Type 0 where
  pub table : String
  pub roles : List String
  pub privileges : List String

pub record CreateNode : Type 0 where
  pub table : String
  pub body : String
  pub strict_mode : Bool

pub data Node : Type 0 where
  insert : InsertNode → Node
  update : UpdateNode → Node
  delete : DeleteNode → Node
  grant : GrantNode → Node
  revoke : GrantNode → Node
  create_table : CreateNode → Node
  select : String → Node

-- sqlparser.AST; the error of a statement is beside it.
pub record Ast : Type 0 where
  pub statements : List (Node × Option GoError)

-- sqlparser.ValidatedTable: {prefix}_{chainID}_{tokenID}
pub record ValidatedTable : Type 0 where
  pub name : String
  pub prefix : String
  pub chain_id : ℕ
  pub token_id : ℕ

-- The parser library, and the two conversions of addresses of go-ethereum's common package.
pub record SqlParser : Type 0 where
  pub parse : String → Result Ast
  pub validate_target_table : String → Result ValidatedTable
  pub validate_target_tables : String → Result (List ValidatedTable)
  pub validate_create_target_table : String → Result ValidatedTable
  pub resolve : String → ℤ → Node → Result String
  pub node_string : Node → String
  pub structure_hash : CreateNode → String
  pub hex_to_address : String → ℕ
  pub is_address : String → Bool
