-- ===== src/Parsing/Permitted.antt =====
-- About the tables that the statements of pkg/parsing/impl/validator.go write to.
use go_tableland.Prelude.{
  ℤ, ℕ, String, ◌≡◌, refl, inl, inr, ◌⊎◌, false, Option, none, some, List, [], ◌∷◌, ◌==◌,
  if◌then◌else◌, Bool-cases, All, str_append, ltb, len,
}
use go_tableland.Errors.{GoError, text, flattened, Result, ok, err, panic}
use go_tableland.Acl.{op_insert, op_update, op_delete}
use go_tableland.Parsing.{
  CreateNode, Node, insert, update, delete, grant, revoke, create_table, select, Ast,
  ValidatedTable,
}
use go_tableland.Parsing.Statements.{
  MutatingStmt, Mutating, write_stmt, bind_result, wrap_error, eq_operation, ClauseError,
  clause_failed, first_parsed, append_where, helper_where, add_where_clause, add_returning_clause,
  get_query, CreateStmt,
}
use go_tableland.Parsing.Validator.{
  QueryValidator, parse_statements, has_prefix, check_no_system_tables_referencing,
  validate_write_query, validate_node, same_target, validate_loop, mutating_stmt, to_mutating,
  to_mutating_all, check_target, validate_mutating_query, first_node, validate_create_node,
  validate_create_table,
}
use go_tableland.Parsing.Returned.{
  OkAll, OkAll-bind, OkAll-ok, OkAll-err, OkAll-panic, OkAll-const, OkAll-any, OkAll-self,
  OkAll-weaken, OkAll-wrap, flat, OkAll-if,
}

module _ (pp : QueryValidator) where
  -- A table's name with the form of a user's, and without a system table's prefix.
  abbrev pub Permits : String → Type 0
  Permits table =
      (has_prefix table pp.system_table_prefixes ≡ false)
      × ((t : ValidatedTable) × (pp.sql.validate_target_table table ≡ ok t))

  -- A write to such a table.
  abbrev pub Permitted : Node → Type 0
  Permitted (insert n) = Permits n.table
  Permitted (update n) = Permits n.table
  Permitted (delete n) = Permits n.table
  Permitted _ = ⊥

  -- The statements that the validator hands on.
  abbrev pub Allowed : Mutating → Type 0
  Allowed (write_stmt s) = Permitted s.node
  Allowed _ = Unit

  abbrev NodePermits : Node → Type 0
  NodePermits (insert n) = Permits n.table
  NodePermits (update n) = Permits n.table
  NodePermits (delete n) = Permits n.table
  NodePermits _ = Unit

  no_system :
      (table : String)
      → OkAll
          (λ u. has_prefix table pp.system_table_prefixes ≡ false)
          (check_no_system_tables_referencing pp table)
  unfolding check_no_system_tables_referencing
  no_system table = elim (Bool-cases (has_prefix table pp.system_table_prefixes)) [
    | inl e ↦ rw (e) (OkAll-err _ _)
    | inr e ↦ rw (e) (OkAll-ok _ tt refl)
  ]

  write_query-Permits :
      (table : String) (source : Option String)
      → OkAll (λ t. Permits table) (validate_write_query pp table source)
  unfolding validate_write_query
  write_query-Permits table source =
      OkAll-bind _ (λ t. Permits table) _ _ (OkAll-wrap _ _ _ (no_system table))
        λ u no.
          OkAll-bind _ (λ t. Permits table) _ _
            (OkAll-wrap _ _ _ (OkAll-self (pp.sql.validate_target_table table)))
            λ t e. OkAll-const (Permits table) _ (no, (t, e))

  validate_node-NodePermits : (n : Node) → OkAll (λ t. NodePermits n) (validate_node pp n)
  unfolding validate_node
  validate_node-NodePermits (insert n) = OkAll-wrap _ _ _ (write_query-Permits n.table n.select)
  validate_node-NodePermits (update n) = OkAll-wrap _ _ _ (write_query-Permits n.table none)
  validate_node-NodePermits (delete n) = OkAll-wrap _ _ _ (write_query-Permits n.table none)
  validate_node-NodePermits (grant g) = OkAll-any _
  validate_node-NodePermits (revoke g) = OkAll-any _
  validate_node-NodePermits (create_table c) = OkAll-any _
  validate_node-NodePermits (select s) = OkAll-any _

  validate_loop-NodePermits :
      (target : Option ValidatedTable) (stmts : List (Node × Option GoError))
      → OkAll
          (λ t. All (λ (x : Node × Option GoError). NodePermits x.0) stmts)
          (validate_loop pp target stmts)
  unfolding validate_loop
  validate_loop-NodePermits target [] = OkAll-ok _ _ tt
  validate_loop-NodePermits target ((n, some e) ∷ rest) = OkAll-err _ _
  validate_loop-NodePermits target ((n, none) ∷ rest) =
      OkAll-bind (λ t. NodePermits n) _ _ _
        (OkAll-bind _ _ _ _ (validate_node-NodePermits n)
          (λ t c. OkAll-const (NodePermits n) (same_target target t) c))
        λ t c.
          OkAll-weaken _ _ _ (validate_loop-NodePermits (some t) rest)
            (λ u rest_checked. (c, rest_checked))

  to_mutating-Allowed :
      (target : ValidatedTable) (n : Node) → NodePermits n → OkAll Allowed (to_mutating target n)
  unfolding to_mutating mutating_stmt
  to_mutating-Allowed target (insert n) c = OkAll-ok _ _ c
  to_mutating-Allowed target (update n) c = OkAll-ok _ _ c
  to_mutating-Allowed target (delete n) c = OkAll-ok _ _ c
  to_mutating-Allowed target (grant g) c = OkAll-ok _ _ tt
  to_mutating-Allowed target (revoke g) c = OkAll-ok _ _ tt
  to_mutating-Allowed target (create_table g) c = OkAll-err _ _
  to_mutating-Allowed target (select s) c = OkAll-err _ _

  to_mutating_all-Allowed :
      (target : ValidatedTable) (stmts : List (Node × Option GoError))
      → All (λ (x : Node × Option GoError). NodePermits x.0) stmts
      → OkAll (All Allowed) (to_mutating_all target stmts)
  unfolding to_mutating_all
  to_mutating_all-Allowed target [] c = OkAll-ok _ _ tt
  to_mutating_all-Allowed target ((n, e) ∷ rest) (c, cs) =
      OkAll-bind Allowed _ _ _ (to_mutating-Allowed target n c) λ m a.
        OkAll-bind (All Allowed) _ _ _ (to_mutating_all-Allowed target rest cs)
          λ ms rest_allowed. OkAll-ok _ _ (a, rest_allowed)

  from_statements :
      (chain : ℕ) (stmts : List (Node × Option GoError))
      → Unit {0}
      → OkAll (All Allowed) (
          bind_result
            (validate_loop pp none stmts)
            (λ t. bind_result (check_target chain t) (λ target. to_mutating_all target stmts)))
  from_statements chain stmts u =
      OkAll-bind (λ t. All (λ (x : Node × Option GoError). NodePermits x.0) stmts) (All Allowed)
        (validate_loop pp none stmts)
        (λ t. bind_result (check_target chain t) (λ target. to_mutating_all target stmts))
        (validate_loop-NodePermits none stmts)
        λ t c.
          OkAll-bind (λ target. Unit) (All Allowed) (check_target chain t)
            (λ target. to_mutating_all target stmts) (OkAll-any _)
            (λ target v. to_mutating_all-Allowed target stmts c)

  -- The statements of a text that the validator accepts write to permitted tables only.
  pub validate_mutating_query-Allowed :
      (query : String) (chain : ℕ) → OkAll (All Allowed) (validate_mutating_query pp query chain)
  unfolding validate_mutating_query
  validate_mutating_query-Allowed query chain =
      elim (Bool-cases (ltb pp.max_write_query_size (len query))) [
        | inl e ↦ rw (e, validate_mutating_query) (OkAll-err _ _)
        | inr e ↦
            rw (e, validate_mutating_query)
              (OkAll-bind (λ stmts. Unit) (All Allowed) (parse_statements pp query)
                (λ stmts. bind_result (validate_loop pp none stmts) (λ t.
                  bind_result (check_target chain t) (λ target. to_mutating_all target stmts)))
                (OkAll-any _) (from_statements chain))
      ]

  -- The prefix of a table that may be created.
  pub validate_create_table-prefix :
      (query : String) (chain : ℕ)
      → OkAll
          (λ (s : CreateStmt). has_prefix s.prefix pp.system_table_prefixes ≡ false)
          (validate_create_table pp query chain)
  unfolding validate_create_table validate_create_node
  validate_create_table-prefix query chain =
      OkAll-bind (λ stmts. Unit) NoPrefix (parse_statements pp query)
        (λ stmts. bind_result (first_node stmts) (validate_create_node pp chain)) (OkAll-any _)
        λ stmts u.
          OkAll-bind (λ n. Unit) NoPrefix (first_node stmts) (validate_create_node pp chain)
            (OkAll-any _) (λ n v. node n)
    where
      NoPrefix : CreateStmt → Type 0
      NoPrefix s = has_prefix s.prefix pp.system_table_prefixes ≡ false

      created : CreateNode → ValidatedTable → Result CreateStmt
      created c t =
          if has_prefix t.prefix pp.system_table_prefixes
          then err (flattened "prefix is not allowed as part of table's name" (text t.prefix))
          else if t.chain_id == chain
          then ok (record {
            chain_id = chain;
            node = c;
            structure_hash = pp.sql.structure_hash c;
            prefix = t.prefix;
          })
          else err (text "the query references a table name with the wrong format")

      created-NoPrefix : (c : CreateNode) (t : ValidatedTable) → OkAll NoPrefix (created c t)
      created-NoPrefix c t = elim (Bool-cases (has_prefix t.prefix pp.system_table_prefixes)) [
        | inl e ↦ rw (e) (OkAll-err NoPrefix _)
        | inr e ↦ rw (e) (
            OkAll-if NoPrefix (t.chain_id == chain) _ _ (OkAll-ok NoPrefix _ e)
              (OkAll-err NoPrefix _))
      ]

      node :
          (n : Node)
          → OkAll
              (λ (s : CreateStmt). has_prefix s.prefix pp.system_table_prefixes ≡ false)
              (validate_create_node pp chain n)
      node (create_table c) =
          OkAll-bind (λ t. Unit) NoPrefix
            (wrap_error "create table name is not valid"
              (pp.sql.validate_create_target_table c.table))
            (λ t. created c t) (OkAll-any _) (λ t u. created-NoPrefix c t)
      node (insert n) = OkAll-err _ _
      node (update n) = OkAll-err _ _
      node (delete n) = OkAll-err _ _
      node (grant n) = OkAll-err _ _
      node (revoke n) = OkAll-err _ _
      node (select n) = OkAll-err _ _

  -- Where clauses do not change the table.
  append_where-Permitted :
      (ws : List String) (s : MutatingStmt) (n : Node)
      → s.node ≡ n
      → Permitted n
      → Permitted (append_where pp.sql ws s).node
  unfolding append_where
  append_where-Permitted ws s (insert n) e p = rw (e, append_where, e) p
  append_where-Permitted ws s (update n) e p = rw (e, append_where) p
  append_where-Permitted ws s (delete n) e p = rw (e, append_where) p
  append_where-Permitted ws s (grant n) e p = elim p [ ]
  append_where-Permitted ws s (revoke n) e p = elim p [ ]
  append_where-Permitted ws s (create_table n) e p = elim p [ ]
  append_where-Permitted ws s (select n) e p = elim p [ ]

  -- A statement that a call gives still writes to its table.
  abbrev pub Still : ClauseError ⊎ MutatingStmt → Type 0
  Still (inl e) = Unit
  Still (inr s) = Permitted s.node

  helper_where-Still :
      (x : Node × Option GoError) (s : MutatingStmt)
      → Permitted s.node
      → OkAll Still (helper_where pp.sql x s)
  unfolding helper_where
  helper_where-Still (n, some e) s p = OkAll-ok Still _ tt
  helper_where-Still (update u, none) s p =
      OkAll-ok Still _ (append_where-Permitted u.where_clauses s s.node refl p)
  helper_where-Still (insert n, none) s p = OkAll-panic Still _
  helper_where-Still (delete n, none) s p = OkAll-panic Still _
  helper_where-Still (grant n, none) s p = OkAll-panic Still _
  helper_where-Still (revoke n, none) s p = OkAll-panic Still _
  helper_where-Still (create_table n, none) s p = OkAll-panic Still _
  helper_where-Still (select n, none) s p = OkAll-panic Still _

  pub add_where_clause-Still :
      (clauses : String) (s : MutatingStmt)
      → Permitted s.node
      → OkAll Still (add_where_clause pp.sql clauses s)
  unfolding add_where_clause
  add_where_clause-Still clauses s p =
      OkAll-if Still (eq_operation s.operation op_insert) _ _ (OkAll-ok Still _ tt)
        (go (pp.sql.parse (str_append "UPDATE helper SET foo = 'bar' WHERE " clauses)))
    where
      go :
          (r : Result Ast)
          → OkAll Still (elim r [
            | err e ↦ ok (inl (clause_failed (flattened "parsing where clauses" e)))
            | panic p ↦ panic p
            | ok ast ↦ bind_result (first_parsed pp.sql ast) (λ n. helper_where pp.sql n s)
          ])
      go (err e) = OkAll-ok Still _ tt
      go (panic x) = OkAll-panic Still x
      go (ok ast) =
          OkAll-bind (λ n. Unit) Still (first_parsed pp.sql ast) (λ n. helper_where pp.sql n s)
            (OkAll-any _) (λ n u. helper_where-Still n s p)

  pub add_returning_clause-Still :
      (s : MutatingStmt) (n : Node)
      → s.node ≡ n
      → Permitted n
      → OkAll Still (add_returning_clause s)
  unfolding add_returning_clause
  add_returning_clause-Still s (insert n) e p =
      rw (e, add_returning_clause)
        (OkAll-if Still (eq_operation s.operation op_delete) _ _ (OkAll-ok Still _ tt) (
          OkAll-if Still (eq_operation s.operation op_update) _ _ (OkAll-panic Still _) (
            OkAll-if Still (eq_operation s.operation op_insert) _ _ (OkAll-ok Still _ p)
              (OkAll-ok Still _ p))))
  add_returning_clause-Still s (update n) e p =
      rw (e, add_returning_clause)
        (OkAll-if Still (eq_operation s.operation op_delete) _ _ (OkAll-ok Still _ tt) (
          OkAll-if Still (eq_operation s.operation op_update) _ _ (OkAll-ok Still _ p) (
            OkAll-if Still (eq_operation s.operation op_insert) _ _ (OkAll-panic Still _)
              (OkAll-ok Still _ p))))
  add_returning_clause-Still s (delete n) e p =
      rw (e, add_returning_clause)
        (OkAll-if Still (eq_operation s.operation op_delete) _ _ (OkAll-ok Still _ tt) (
          OkAll-if Still (eq_operation s.operation op_update) _ _ (OkAll-panic Still _) (
            OkAll-if Still (eq_operation s.operation op_insert) _ _ (OkAll-panic Still _)
              (OkAll-ok Still _ p))))
  add_returning_clause-Still s (grant n) e p = elim p [ ]
  add_returning_clause-Still s (revoke n) e p = elim p [ ]
  add_returning_clause-Still s (create_table n) e p = elim p [ ]
  add_returning_clause-Still s (select n) e p = elim p [ ]

  -- A permitted write is resolved to the text that is executed.
  pub get_query-resolved :
      (hash : String) (block : ℤ) (s : MutatingStmt) (n : Node)
      → s.node ≡ n
      → Permitted n
      → OkAll (λ q. pp.sql.resolve hash block n ≡ ok q) (get_query pp.sql hash block s)
  unfolding get_query
  get_query-resolved hash block s (insert n) e p = rw (e, get_query, e) (flat _ _)
  get_query-resolved hash block s (update n) e p = rw (e, get_query, e) (flat _ _)
  get_query-resolved hash block s (delete n) e p = rw (e, get_query, e) (flat _ _)
  get_query-resolved hash block s (grant n) e p = elim p [ ]
  get_query-resolved hash block s (revoke n) e p = elim p [ ]
  get_query-resolved hash block s (create_table n) e p = elim p [ ]
  get_query-resolved hash block s (select n) e p = elim p [ ]
