-- ===== src/Executor/Framed/Writes.antt =====
-- Writes are framed, whatever they return.
use go_tableland.Prelude.{
  ℕ, String, ◌≡◌, refl, not, ◌&&◌, ◌||◌, inl, inr, ◌⊎◌, Option, none, some, str_eq, ◌==◌, length,
}
use go_tableland.Acl.{Operation, op_insert, op_update, op_delete}
use go_tableland.Database.{Db}
use go_tableland.Errors.{policy_apply_where_clause, query_execution, wrapped, flattened, ok, err}
use go_tableland.Parsing.Statements.{
  MutatingStmt, bind_result, eq_operation, ClauseError, cant_add_where_on_insert,
  cant_add_returning_on_delete, can_only_check_columns_on_update, clause_failed, add_where_clause,
  add_returning_clause,
}
use go_tableland.Parsing.Returned.{OkAll, OkAll-bind, OkAll-ok, OkAll-err, OkAll-any, OkAll-if}
use go_tableland.Parsing.Permitted.{
  Permitted, Still, add_where_clause-Still, add_returning_clause-Still, get_query-resolved,
}
use go_tableland.Executor.{AuditQuery, lift, on_error, ◌>>=◌, ◌>>◌, Env, TxnScope, Policy}
use go_tableland.Executor.Policies.{
  check_operation, apply_columns, apply_where, apply_policy, clause_error_text,
}
use go_tableland.Executor.Confined.{Confined}
use go_tableland.Executor.Yields.{
  Yields, Yields-lift, Yields-pure, Yields-fail, Yields-if, Yields-on_error, Yields-bind,
  Frames-after,
}
use go_tableland.Executor.Writes.{
  check_row_count_limit, exec_statement, query_statement, with_returning,
  get_acl_on_table_by_controller, check_privileges, get_controller,
  execute_query_and_get_affected_rows, check_affected_rows_against_auditing_query, authorize_by,
  authorize, resolve_query, write_unchecked, add_returning, write_checked, execute_write_stmt,
}
use go_tableland.Executor.Frames.{Frames, Frames-bind, Frames-if, frame_rules}
use go_tableland.Executor.Framed.{
  UserFramed, framed-only, framed-select_controller, framed-select_acl,
}

module _ (env : Env) (R : Db → Db → Type 0) (sf : UserFramed R) (confined : Confined env)
    (ts : TxnScope) where
  acl-Frames : (id addr : ℕ) (op : Operation) → Frames R (check_privileges env ts addr id op)
  unfolding check_privileges get_acl_on_table_by_controller
  acl-Frames id addr op = search (frame_rules, sf.frame, framed-select_acl env R sf) depth 9

  authorize_by-Frames :
      (o : Option ℕ) (s : MutatingStmt) (addr : ℕ) (policy : Policy)
      → Frames R (authorize_by env ts o s addr policy)
  unfolding authorize_by
  authorize_by-Frames (some c) s addr policy = search (frame_rules, sf.frame)
  authorize_by-Frames none s addr policy =
      Frames-bind R sf.frame _ _ (search (frame_rules, sf.frame, acl-Frames)) λ allowed.
        Frames-if R sf.frame allowed _ _ (search (frame_rules, sf.frame))
          (search (frame_rules, sf.frame))

  authorize-Frames :
      (s : MutatingStmt) (addr : ℕ) (policy : Policy) → Frames R (authorize env ts s addr policy)
  unfolding authorize get_controller
  authorize-Frames s addr policy =
      search (frame_rules, sf.frame, authorize_by-Frames, framed-select_controller env R sf) depth 7

  audit-Frames :
      (n : ℕ) (q : AuditQuery) → Frames R (check_affected_rows_against_auditing_query env ts n q)
  unfolding check_affected_rows_against_auditing_query
  audit-Frames n q =
      Frames-bind R sf.frame _ _ (search (frame_rules, sf.frame, sf.frame.same)) λ count.
        Frames-if R sf.frame (count == n) _ _ (search (frame_rules, sf.frame))
          (search (frame_rules, sf.frame))

  -- The statement that is authorized still writes to its table.
  apply_policy-Permitted :
      (s : MutatingStmt) (policy : Policy)
      → Permitted env.parser s.node
      → OkAll
          (λ (s' : MutatingStmt). Permitted env.parser s'.node)
          (apply_policy env.parser.sql policy s)
  unfolding apply_policy apply_where
  apply_policy-Permitted s policy p =
      OkAll-bind (λ u. Unit) Q (check_operation policy s.operation)
        (λ u. bind_result (apply_columns policy s) (λ v. apply_where env.parser.sql policy s))
        (OkAll-any _)
        λ u _.
          OkAll-bind (λ v. Unit) Q (apply_columns policy s)
            (λ v. apply_where env.parser.sql policy s) (OkAll-any _)
            λ v _.
              OkAll-if Q
                ((eq_operation s.operation op_update || eq_operation s.operation op_delete)
                  && not (str_eq policy.where_clause ""))
                _ _
                (OkAll-bind (Still env.parser) Q
                  (add_where_clause env.parser.sql policy.where_clause s) _
                  (add_where_clause-Still env.parser policy.where_clause s p) added)
                (OkAll-ok Q s p)
    where
      Q : MutatingStmt → Type 0
      Q s' = Permitted env.parser s'.node

      added :
          (x : ClauseError ⊎ MutatingStmt)
          → Still env.parser x
          → OkAll Q (elim x [
            | inr s' ↦ ok s'
            | inl cant_add_where_on_insert ↦ ok s
            | inl e ↦ err (query_execution policy_apply_where_clause (clause_error_text e))
          ])
      added (inr s') q = OkAll-ok Q s' q
      added (inl cant_add_where_on_insert) q = OkAll-ok Q s p
      added (inl cant_add_returning_on_delete) q = OkAll-err Q _
      added (inl can_only_check_columns_on_update) q = OkAll-err Q _
      added (inl (clause_failed e)) q = OkAll-err Q _

  authorize-Yields :
      (s : MutatingStmt) (addr : ℕ) (policy : Policy)
      → Permitted env.parser s.node
      → Yields
          (λ (s' : MutatingStmt). Permitted env.parser s'.node)
          (authorize env ts s addr policy)
  unfolding authorize authorize_by
  authorize-Yields s addr policy p = Yields-bind Q _ _ by
    where
      Q : MutatingStmt → Type 0
      Q s' = Permitted env.parser s'.node

      by : (o : Option ℕ) → Yields Q (authorize_by env ts o s addr policy)
      by (some c) = Yields-on_error Q _ _ (Yields-lift Q _ (apply_policy-Permitted s policy p))
      by none =
          Yields-bind Q _ _ λ allowed. Yields-if Q allowed _ _ (Yields-pure Q s p) (Yields-fail Q _)

  -- The text that is executed.
  resolve-Yields :
      (s : MutatingStmt)
      → Permitted env.parser s.node
      → Yields
          (λ q. env.parser.sql.resolve ts.txn_hash ts.vars.block_number s.node ≡ ok q)
          (resolve_query env ts s)
  unfolding resolve_query
  resolve-Yields s p = Yields-on_error _ _ _ (
      Yields-lift _ _
        (get_query-resolved env.parser ts.txn_hash ts.vars.block_number s s.node refl p))

  resolve-Frames : (s : MutatingStmt) → Frames R (resolve_query env ts s)
  unfolding resolve_query
  resolve-Frames s = search (frame_rules, sf.frame)

  unchecked-Frames :
      (s : MutatingStmt) (before : ℕ)
      → Permitted env.parser s.node
      → Frames R (write_unchecked env ts s before)
  unfolding write_unchecked
  unchecked-Frames s before p =
      Frames-after R sf.frame _ _ _ (resolve-Frames s) (resolve-Yields s p) λ q e.
        let ran : (d : Db) → R d (exec_statement env q d).1 =
          λ d. framed-only env R sf d _ (confined.write s.node _ _ q p e d).0 in
        search (frame_rules, sf.frame, ran) depth 10

  affected-Frames :
      (q : String)
      → ((d : Db) → R d (query_statement env q d).1)
      → Frames R (execute_query_and_get_affected_rows env ts q)
  unfolding execute_query_and_get_affected_rows
  affected-Frames q ran = search (frame_rules, sf.frame, ran) depth 7

  returning-Yields :
      (s : MutatingStmt)
      → Permitted env.parser s.node
      → Yields (λ (s' : MutatingStmt). Permitted env.parser s'.node) (add_returning env ts s)
  unfolding add_returning with_returning
  returning-Yields s p =
      Yields-lift Q (bind_result (add_returning_clause s) (with_returning env ts s)) (
        OkAll-bind (Still env.parser) Q (add_returning_clause s) (with_returning env ts s)
          (add_returning_clause-Still env.parser s s.node refl p) given)
    where
      Q : MutatingStmt → Type 0
      Q s' = Permitted env.parser s'.node

      given :
          (x : ClauseError ⊎ MutatingStmt)
          → Still env.parser x
          → OkAll Q (with_returning env ts s x)
      given (inr s') q = OkAll-ok Q s' q
      given (inl cant_add_returning_on_delete) q = OkAll-ok Q s p
      given (inl cant_add_where_on_insert) q = OkAll-err Q _
      given (inl can_only_check_columns_on_update) q = OkAll-err Q _
      given (inl (clause_failed e)) q = OkAll-err Q _

  returning-Frames : (s : MutatingStmt) → Frames R (add_returning env ts s)
  unfolding add_returning
  returning-Frames s = search (frame_rules, sf.frame)

  checked-Frames :
      (s : MutatingStmt) (policy : Policy) (before : ℕ)
      → Permitted env.parser s.node
      → Frames R (write_checked env ts s policy before)
  unfolding write_checked
  checked-Frames s policy before p =
      Frames-after R sf.frame _ _ _ (returning-Frames s) (returning-Yields s p) λ s' p'.
        Frames-after R sf.frame _ _ _ (resolve-Frames s') (resolve-Yields s' p') λ q e. rest s' q (
          affected-Frames q (λ d. framed-only env R sf d _ (confined.write s'.node _ _ q p' e d).1))
    where
      rest :
          (s' : MutatingStmt) (q : String)
          → Frames R (execute_query_and_get_affected_rows env ts q)
          → Frames R (
              on_error (flattened "get rows ids") (execute_query_and_get_affected_rows env ts q)
              >>= λ ids.
                  on_error (wrapped "check row limit") (
                    lift (
                      check_row_count_limit env ts
                        (length ids)
                        (eq_operation s'.operation op_insert)
                        before))
                  >> on_error (wrapped "check affected rows against auditing query") (
                      check_affected_rows_against_auditing_query env ts (length ids) (record {
                        table = s'.db_table_name;
                        check = policy.with_check;
                        rowids = ids;
                      })))
      rest s' q ran = search (frame_rules, sf.frame, audit-Frames) depth 12

  pub write_stmt-Frames :
      (s : MutatingStmt) (addr : ℕ) (policy : Policy) (before : ℕ)
      → Permitted env.parser s.node
      → Frames R (execute_write_stmt env ts s addr policy before)
  unfolding execute_write_stmt
  write_stmt-Frames s addr policy before p =
      Frames-after R sf.frame _ _ _ (authorize-Frames s addr policy)
        (authorize-Yields s addr policy p)
        λ s' p'.
          Frames-if R sf.frame (str_eq policy.with_check "") _ _ (unchecked-Frames s' before p')
            (checked-Frames s' policy before p')
