-- ===== src/Parsing/Statements.antt =====
-- The statements that the validator returns: mutatingStmt, writeStmt, grantStmt and createStmt of
-- pkg/parsing/impl/validator.go with their methods.
use go_tableland.Prelude.{
  ℤ, decimal, ℕ, String, str_append, ◌⊎◌, inl, inr, Bool, true, false, ◌||◌, Option, none, some,
  List, [], ◌∷◌, ◌++◌, map, str_eq, if◌then◌else◌,
}
use go_tableland.Errors.{GoError, text, wrapped, flattened, Result, ok, err, panic}
use go_tableland.Acl.{
  Privilege, priv_zero, new_privilege_from_sql_string, Operation, op_select, op_insert, op_update,
  op_delete, op_grant, op_revoke, op_create,
}
use go_tableland.Parsing.{
  CreateNode, Node, insert, update, delete, grant, revoke, create_table, Ast, SqlParser,
}

pub record MutatingStmt : Type 0 where
  pub node : Node
  pub prefix : String
  pub table_id : ℕ
  pub db_table_name : String
  pub operation : Operation

-- A parsing.MutatingStmt: a writeStmt, a grantStmt, or a value of another type.
pub data Mutating : Type 0 where
  write_stmt grant_stmt other_stmt : MutatingStmt → Mutating

unfoldable pub base : Mutating → MutatingStmt
base (write_stmt s) = s
base (grant_stmt s) = s
base (other_stmt s) = s

abbrev pub bind_result : {A B : Type 0} → Result A → (A → Result B) → Result B
bind_result (ok a) f = f a
bind_result (err e) f = err e
bind_result (panic s) f = panic s

-- `fmt.Errorf(context + ": %s", err)` on the error of a call.
abbrev pub flatten_error : {A : Type 0} → String → Result A → Result A
flatten_error context (ok a) = ok a
flatten_error context (err e) = err (flattened context e)
flatten_error context (panic s) = panic s

-- The same with %w.
abbrev pub wrap_error : {A : Type 0} → String → Result A → Result A
wrap_error context (ok a) = ok a
wrap_error context (err e) = err (wrapped context e)
wrap_error context (panic s) = panic s

unfoldable pub eq_operation : Operation → Operation → Bool
eq_operation op_select op_select = true
eq_operation op_insert op_insert = true
eq_operation op_update op_update = true
eq_operation op_delete op_delete = true
eq_operation op_grant op_grant = true
eq_operation op_revoke op_revoke = true
eq_operation op_create op_create = true
eq_operation _ _ = false

-- The sentinel errors of pkg/parsing/query_validator.go, compared by identity.
pub data ClauseError : Type 0 where
  cant_add_where_on_insert cant_add_returning_on_delete can_only_check_columns_on_update :
      ClauseError
  clause_failed : GoError → ClauseError

-- writeStmt.AddReturningClause: the statement with RETURNING rowid, or the error.
unfoldable pub add_returning_clause : MutatingStmt → Result (ClauseError ⊎ MutatingStmt)
unfolding eq_operation
add_returning_clause s =
    if eq_operation s.operation op_delete
    then ok (inl cant_add_returning_on_delete)
    else if eq_operation s.operation op_update
    then elim s.node [
      | update u ↦ ok (inr (record s { node = update (record u { returning_rowid = true }) }))
      | _ ↦ panic "interface conversion"
    ]
    else if eq_operation s.operation op_insert
    then elim s.node [
      | insert n ↦ ok (inr (record s { node = insert (record n { returning_rowid = true }) }))
      | _ ↦ panic "interface conversion"
    ]
    else ok (inr s)

unfoldable pub contains_column : String → List String → Bool
contains_column c [] = false
contains_column c (a ∷ rest) = str_eq a c || contains_column c rest

-- The loop over the assigned columns: the first one that is not allowed.
unfoldable pub first_forbidden : List String → List String → Option String
unfolding contains_column
first_forbidden allowed [] = none
first_forbidden allowed (c ∷ cs) =
    if contains_column c allowed then first_forbidden allowed cs else some c

-- writeStmt.CheckColumns; `none` is a nil error.
unfoldable pub check_columns : List String → MutatingStmt → Result (Option ClauseError)
unfolding eq_operation first_forbidden
check_columns allowed s =
    if eq_operation s.operation op_update
    then elim s.node [
      | update u ↦ elim (first_forbidden allowed u.columns) [
        | none ↦ ok none
        | some c ↦ ok (some (clause_failed (flattened "column is not allowed" (text c))))
      ]
      | _ ↦ panic "interface conversion"
    ]
    else ok (some can_only_check_columns_on_update)

module _ (sql : SqlParser) where
  -- The first statement of the helper query, and its error.
  pub first_parsed : Ast → Result (Node × Option GoError)
  first_parsed ast = elim (ast.statements) [ [] ↦ panic "index out of range" | s ∷ rest ↦ ok s ]

  -- Appends the helper's where clauses to an update or a delete.
  unfoldable pub append_where : List String → MutatingStmt → MutatingStmt
  append_where ws s = elim s.node [
    | update u ↦ record s { node = update (record u { where_clauses = u.where_clauses ++ ws }) }
    | delete d ↦ record s { node = delete (record d { where_clauses = d.where_clauses ++ ws }) }
    | _ ↦ s
  ]

  -- The helper statement is an *Update, or the type assertion panics.
  unfoldable pub helper_where :
      Node × Option GoError → MutatingStmt → Result (ClauseError ⊎ MutatingStmt)
  unfolding append_where
  helper_where (n, some e) s = ok (inl (clause_failed (text "parsing where clauses: %!s(<nil>)")))
  helper_where (update u, none) s = ok (inr (append_where u.where_clauses s))
  helper_where (_, none) s = panic "interface conversion"

  -- writeStmt.AddWhereClause
  unfoldable pub add_where_clause : String → MutatingStmt → Result (ClauseError ⊎ MutatingStmt)
  unfolding eq_operation first_parsed helper_where
  add_where_clause clauses s =
      if eq_operation s.operation op_insert
      then ok (inl cant_add_where_on_insert)
      else elim (sql.parse (str_append "UPDATE helper SET foo = 'bar' WHERE " clauses)) [
        | err e ↦ ok (inl (clause_failed (flattened "parsing where clauses" e)))
        | panic p ↦ panic p
        | ok ast ↦ bind_result (first_parsed ast) (λ n. helper_where n s)
      ]

  -- mutatingStmt.GetQuery
  unfoldable pub get_query : String → ℤ → MutatingStmt → Result String
  get_query hash block s = elim s.node [
    | insert n ↦ flatten_error "resolving write statement" (sql.resolve hash block s.node)
    | update n ↦ flatten_error "resolving write statement" (sql.resolve hash block s.node)
    | delete n ↦ flatten_error "resolving write statement" (sql.resolve hash block s.node)
    | _ ↦ ok (sql.node_string s.node)
  ]

  -- grantStmt.GetRoles
  unfoldable pub get_roles : MutatingStmt → Result (List ℕ)
  get_roles s = elim s.node [
    | grant g ↦ ok (map sql.hex_to_address g.roles)
    | revoke g ↦ ok (map sql.hex_to_address g.roles)
    | _ ↦ panic "interface conversion"
  ]

-- The loop of GetPrivileges, which drops the error of an unknown privilege.
unfoldable pub privilege_or_zero : String → Privilege
unfolding new_privilege_from_sql_string
privilege_or_zero s = elim (new_privilege_from_sql_string s) [ some p ↦ p | none ↦ priv_zero ]

-- grantStmt.GetPrivileges
unfoldable pub get_privileges : MutatingStmt → Result (List Privilege)
unfolding privilege_or_zero
get_privileges s = elim s.node [
  | grant g ↦ ok (map privilege_or_zero g.privileges)
  | revoke g ↦ ok (map privilege_or_zero g.privileges)
  | _ ↦ panic "interface conversion"
]

-- createStmt
pub record CreateStmt : Type 0 where
  pub chain_id : ℕ
  pub node : CreateNode
  pub structure_hash : String
  pub prefix : String

-- createStmt.GetRawQueryForTableID: the name becomes {prefix}_{chainID}_{id}, in strict mode.
unfoldable pub table_name : String → ℕ → ℕ → String
unfolding decimal
table_name prefix chain id =
    str_append prefix (str_append "_" (str_append (decimal chain) (str_append "_" (decimal id))))

unfoldable pub get_raw_query_for_table_id : SqlParser → CreateStmt → ℕ → String
unfolding table_name
get_raw_query_for_table_id sql s id =
    sql.node_string (
      create_table
        (record s.node { table = table_name s.prefix s.chain_id id; strict_mode = true }))
