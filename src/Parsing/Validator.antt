-- ===== src/Parsing/Validator.antt =====
-- QueryValidator of pkg/parsing/impl/validator.go: which SQL texts the validator accepts, and the
-- statements that it hands on.
use go_tableland.Prelude.{
  ℕ, String, len, Bool, false, ◌||◌, Option, none, some, List, [], ◌∷◌, starts_with, str_eq, ltb,
  ◌==◌, if◌then◌else◌,
}
use go_tableland.Errors.{GoError, text, formatted, wrapped, flattened, Result, ok, err, panic}
use go_tableland.Acl.{Operation, op_select, op_insert, op_update, op_delete, op_grant, op_revoke}
use go_tableland.Parsing.{
  GrantNode, Node, insert, update, delete, grant, revoke, create_table, select, Ast, ValidatedTable,
  SqlParser,
}
use go_tableland.Parsing.Statements.{
  MutatingStmt, Mutating, write_stmt, grant_stmt, bind_result, wrap_error, CreateStmt,
}

-- QueryValidator, with the parser library that it calls.
pub record QueryValidator : Type 0 where
  pub sql : SqlParser
  pub system_table_prefixes : List String
  pub max_read_query_size : ℕ
  pub max_write_query_size : ℕ

unfoldable pub has_prefix : String → List String → Bool
has_prefix s [] = false
has_prefix s (p ∷ ps) = starts_with s p || has_prefix s ps

unfoldable pub check_non_empty_statement : Ast → Result (List (Node × Option GoError))
check_non_empty_statement ast = elim (ast.statements) [
  | [] ↦ err (wrapped "empty-statement check" (text "the statement is empty"))
  | s ∷ rest ↦ ok (s ∷ rest)
]

-- sqlparser.Parse and the check that there is a statement.
unfoldable pub parse_statements : QueryValidator → String → Result (List (Node × Option GoError))
unfolding check_non_empty_statement
parse_statements pp query =
    bind_result (wrap_error "unable to parse the query" (pp.sql.parse query))
      check_non_empty_statement

unfoldable pub check_no_system_tables_referencing : QueryValidator → String → Result (Unit {0})
unfolding has_prefix
check_no_system_tables_referencing pp table =
    if has_prefix table pp.system_table_prefixes
    then err (text "the query is referencing a system table")
    else ok tt

-- The tables that the select of an insert reads; the code takes the first one.
unfoldable pub check_select_tables : ValidatedTable → List ValidatedTable → Result ValidatedTable
check_select_tables target [] = panic "index out of range"
check_select_tables target (t ∷ []) =
    if t.chain_id == target.chain_id
    then ok target
    else err (formatted "insert with select chain mismatch" (target.chain_id ∷ t.chain_id ∷ []))
check_select_tables target (t ∷ u ∷ rest) = err (text "select should have only one table")

-- validateWriteQuery: of a statement with this table and, if it is an insert, this select.
unfoldable pub validate_write_query :
    QueryValidator → String → Option String → Result ValidatedTable
unfolding check_no_system_tables_referencing check_select_tables
validate_write_query pp table source =
    bind_result
      (wrap_error "no system-table reference" (check_no_system_tables_referencing pp table))
      λ _.
        bind_result (wrap_error "table name is not valid" (pp.sql.validate_target_table table))
          λ target. elim source [
            | none ↦ ok target
            | some s ↦
                bind_result
                  (wrap_error "validating select table names" (pp.sql.validate_target_tables s))
                  (check_select_tables target)
          ]

unfoldable pub check_roles : QueryValidator → List String → Result (Unit {0})
check_roles pp [] = ok tt
check_roles pp (r ∷ rs) =
    if pp.sql.is_address r then check_roles pp rs else err (text "role is not an eth address")

unfoldable pub validate_grant_query : QueryValidator → GrantNode → Result ValidatedTable
unfolding check_roles
validate_grant_query pp g =
    bind_result (check_roles pp g.roles)
      λ _. wrap_error "table name is not valid" (pp.sql.validate_target_table g.table)

-- The type switch of the loop.
unfoldable pub validate_node : QueryValidator → Node → Result ValidatedTable
unfolding validate_write_query validate_grant_query
validate_node pp (insert n) =
    wrap_error "validating write-query" (validate_write_query pp n.table n.select)
validate_node pp (update n) =
    wrap_error "validating write-query" (validate_write_query pp n.table none)
validate_node pp (delete n) =
    wrap_error "validating write-query" (validate_write_query pp n.table none)
validate_node pp (grant g) = wrap_error "validating grant-query" (validate_grant_query pp g)
validate_node pp (revoke g) = wrap_error "validating grant-query" (validate_grant_query pp g)
validate_node pp _ = err (text "the statement isn't supported")

-- targetTable, after a statement that references refTable.
unfoldable pub same_target : Option ValidatedTable → ValidatedTable → Result ValidatedTable
same_target none ref = ok ref
same_target (some target) ref =
    if str_eq target.name ref.name
    then ok target
    else err (
        flattened "queries are referencing two distinct tables"
          (flattened target.name (text ref.name)))

-- The loop over the statements, from the target table found so far.
unfoldable pub validate_loop :
    QueryValidator
    → Option ValidatedTable
    → List (Node × Option GoError)
    → Result (Option ValidatedTable)
unfolding validate_node same_target
validate_loop pp target [] = ok target
validate_loop pp target ((n, some e) ∷ rest) = err (wrapped "non sysntax error" e)
validate_loop pp target ((n, none) ∷ rest) =
    bind_result (bind_result (validate_node pp n) (same_target target))
      λ t. validate_loop pp (some t) rest

-- The operation of a node, by its type.
unfoldable pub operation_of : Node → Operation
operation_of (insert n) = op_insert
operation_of (update n) = op_update
operation_of (delete n) = op_delete
operation_of (grant g) = op_grant
operation_of (revoke g) = op_revoke
operation_of _ = op_select

unfoldable pub mutating_stmt : ValidatedTable → Node → MutatingStmt
unfolding operation_of
mutating_stmt target n = record {
  node = n;
  prefix = target.prefix;
  table_id = target.token_id;
  db_table_name = target.name;
  operation = operation_of n;
}

unfoldable pub to_mutating : ValidatedTable → Node → Result Mutating
unfolding mutating_stmt
to_mutating target (create_table c) = err (text "the statement isn't supported")
to_mutating target (select s) = err (text "the statement isn't supported")
to_mutating target (grant g) = ok (grant_stmt (mutating_stmt target (grant g)))
to_mutating target (revoke g) = ok (grant_stmt (mutating_stmt target (revoke g)))
to_mutating target n = ok (write_stmt (mutating_stmt target n))

unfoldable pub to_mutating_all :
    ValidatedTable → List (Node × Option GoError) → Result (List Mutating)
unfolding to_mutating
to_mutating_all target [] = ok []
to_mutating_all target ((n, e) ∷ rest) =
    bind_result (to_mutating target n)
      λ m. bind_result (to_mutating_all target rest) λ ms. ok (m ∷ ms)

-- A nil targetTable is dereferenced if there is no statement, which the check before rules out.
unfoldable pub check_target : ℕ → Option ValidatedTable → Result ValidatedTable
check_target chain none = panic "nil pointer dereference"
check_target chain (some target) =
    if target.chain_id == chain
    then ok target
    else err (formatted "the query references another chain-id" (target.chain_id ∷ chain ∷ []))

unfoldable pub validate_mutating_query : QueryValidator → String → ℕ → Result (List Mutating)
unfolding parse_statements validate_loop check_target to_mutating_all
validate_mutating_query pp query chain =
    if ltb pp.max_write_query_size (len query)
    then err (formatted "write query size is too long" (len query ∷ pp.max_write_query_size ∷ []))
    else bind_result (parse_statements pp query) λ stmts.
      bind_result (validate_loop pp none stmts)
        λ t. bind_result (check_target chain t) λ target. to_mutating_all target stmts

-- ValidateCreateTable, from the statements on.
unfoldable pub validate_create_node : QueryValidator → ℕ → Node → Result CreateStmt
unfolding has_prefix
validate_create_node pp chain (create_table node) =
    bind_result
      (wrap_error "create table name is not valid" (pp.sql.validate_create_target_table node.table))
      λ t.
        if has_prefix t.prefix pp.system_table_prefixes
        then err (flattened "prefix is not allowed as part of table's name" (text t.prefix))
        else if t.chain_id == chain
        then ok (record {
          chain_id = chain;
          node = node;
          structure_hash = pp.sql.structure_hash node;
          prefix = t.prefix;
        })
        else err (text "the query references a table name with the wrong format")
validate_create_node pp chain _ = err (text "the query isn't a CREATE")

unfoldable pub first_node : List (Node × Option GoError) → Result Node
first_node [] = panic "index out of range"
first_node ((n, e) ∷ rest) = ok n

unfoldable pub validate_create_table : QueryValidator → String → ℕ → Result CreateStmt
unfolding parse_statements first_node validate_create_node
validate_create_table pp query chain =
    bind_result (parse_statements pp query)
      λ stmts. bind_result (first_node stmts) (validate_create_node pp chain)

unfoldable pub check_select_node : Node → Result Node
check_select_node (select s) = ok (select s)
check_select_node _ = err (text "the query isn't a read-query")

-- ValidateReadQuery: the statement that a readStmt holds.
unfoldable pub validate_read_query : QueryValidator → String → Result Node
unfolding parse_statements first_node check_select_node
validate_read_query pp query =
    if ltb pp.max_read_query_size (len query)
    then err (formatted "read query size is too long" (len query ∷ pp.max_read_query_size ∷ []))
    else bind_result (parse_statements pp query)
        λ stmts. bind_result (first_node stmts) check_select_node
