-- ===== src/Executor/RowLimits.antt =====
-- About checkRowCountLimit of pkg/eventprocessor/impl/executor/impl/txnscope_runsql.go, where the
-- policy has no check.
use go_tableland.Prelude.{ℕ, ◌+◌, ◌≤◌, ◌<◌, String, ◌≡◌, sym, ap, ◌∙◌, subst, true, arith}
use go_tableland.Errors.{
  query_resolution, GoError, query_execution, wrapped, flattened, Result, ok, query_fault,
}
use go_tableland.Acl.{op_insert}
use go_tableland.Parsing.Statements.{MutatingStmt, eq_operation, get_query}
use go_tableland.Executor.{Env, World, lift, map_error, on_error, call, TxnScope}
use go_tableland.Executor.Writes.{
  exec_statement, check_row_count_limit, resolve_query, write_unchecked,
}
use go_tableland.Executor.Calls.{call-ok, bind-ok}

on_error-ok :
    {A : Type 0} (f : GoError → GoError) (r : Result A) (a : A) → map_error f r ≡ ok a → r ≡ ok a
on_error-ok f r a e = ground arith

module _ (env : Env) (ts : TxnScope) where
  limit_lem :
      (affected before : ℕ)
      → check_row_count_limit env ts affected true before ≡ ok tt
      → 0 < ts.vars.max_table_row_count
      → before + affected ≤ ts.vars.max_table_row_count
  unfolding check_row_count_limit
  limit_lem affected before h p = ground arith

  -- If an insert under a policy without a check returns without an error, and there is a maximum
  -- of rows, then the text that the parser library resolves the insert to, for the hash of its
  -- transaction and its block, was executed on the database as it was, the database left is the
  -- one that this execution gives, and the rows that it reports, added to the row count given,
  -- are within the maximum.
  pub write_unchecked-RowLimit :
      (ws : MutatingStmt) (before : ℕ) (w : World)
      → ws.operation ≡ op_insert
      → 0 < ts.vars.max_table_row_count
      → (write_unchecked env ts ws before w).0 ≡ ok tt
      → (q : String) × (get_query env.parser.sql ts.txn_hash ts.vars.block_number ws ≡ ok q)
        × ((write_unchecked env ts ws before w).1.db ≡ (exec_statement env q w.db).1)
        × ((affected : ℕ) × ((exec_statement env q w.db).0 ≡ ok (ok affected))
            × (before + affected ≤ ts.vars.max_table_row_count))
  unfolding write_unchecked resolve_query on_error lift eq_operation
  write_unchecked-RowLimit ws before w o p h =
      let (q, e1, k1) = bind-ok (resolve_query env ts ws) _ w tt h in
      let (tag, e2, k2) =
        bind-ok (on_error (query_fault "exec query") (call env (exec_statement env q))) _ w tt
          (ap (λ (x : Result (Unit {0}) × World). x.0) (sym k1) ∙ h) in
      let (ran, d) = call-ok env (query_fault "exec query") (exec_statement env q) w tag e2 in
      let (affected, e3, k3) =
        bind-ok (on_error (flattened "get rows affected") (lift tag)) _ _ tt
          (ap (λ (x : Result (Unit {0}) × World). x.0) (sym (k1 ∙ k2)) ∙ h) in
      let last = ap (λ (x : Result (Unit {0}) × World). x.0) (sym (k1 ∙ k2 ∙ k3)) ∙ h in
      let limit =
        subst (λ b. check_row_count_limit env ts affected b before ≡ ok tt)
          (ap (λ x. eq_operation x op_insert) o)
          (on_error-ok (wrapped "check row limit")
            (check_row_count_limit env ts affected (eq_operation ws.operation op_insert) before) tt
            last) in
      (
        q,
        on_error-ok (query_execution query_resolution)
            (get_query env.parser.sql ts.txn_hash ts.vars.block_number ws) q e1,
        ap (λ (x : Result (Unit {0}) × World). x.1.db) (k1 ∙ k2 ∙ k3) ∙ d,
        (affected, ran ∙ ap ok (on_error-ok _ tag affected e3), limit_lem affected before limit p),
      )
