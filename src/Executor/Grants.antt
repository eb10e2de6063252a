-- ===== src/Executor/Grants.antt =====
-- Grants and revokes: executeGrantStmt, executeGrantPrivilegesTx and executeRevokePrivilegesTx of
-- pkg/eventprocessor/impl/executor/impl/txnscope_runsql.go.
use go_tableland.Prelude.{ℕ, Bool, Option, none, some, List, [], ◌∷◌, if◌then◌else◌}
use go_tableland.Errors.{
  acl_not_owner, acl_unknown_operation, text, query_execution, wrapped, query_fault,
}
use go_tableland.Acl.{Privilege, Operation, op_grant, op_revoke, grant_mask, revoke_mask}
use go_tableland.Database.{string_key, int64_key}
use go_tableland.Database.Statements.{upsert_acl, revoke_acl}
use go_tableland.Parsing.Statements.{MutatingStmt, get_roles, get_privileges}
use go_tableland.Executor.{Env, M, pure, fail, lift, on_error, ◌>>=◌, ◌>>◌, call, TxnScope}

-- The loop that builds a mask ends at a privilege that it does not know.
abbrev pub with_mask : Option ℕ → (ℕ → M (Unit {0})) → M (Unit {0})
with_mask none f = fail (text "unknown privilege")
with_mask (some mask) f = f mask

module _ (env : Env) (ts : TxnScope) where
  unfoldable pub execute_grant_privileges_tx : ℕ → ℕ → List Privilege → M (Unit {0})
  execute_grant_privileges_tx id addr privileges = with_mask (grant_mask privileges) λ mask.
      on_error (query_fault "creating/updating acl entry on system acl")
        (call env (upsert_acl ts.vars.chain_id (int64_key id) addr mask))

  unfoldable pub execute_revoke_privileges_tx : ℕ → ℕ → List Privilege → M (Unit {0})
  execute_revoke_privileges_tx id addr privileges = with_mask (revoke_mask privileges) λ mask.
      on_error (query_fault "removing acl entry from system acl")
        (call env (revoke_acl ts.vars.chain_id (string_key id) addr mask))

  -- The body of the loop over the roles: the switch on gs.Operation().
  unfoldable pub execute_role : Operation → ℕ → List Privilege → ℕ → M (Unit {0})
  execute_role op_grant id privileges role =
      on_error (wrapped "executing grant privileges tx")
        (execute_grant_privileges_tx id role privileges)
  execute_role op_revoke id privileges role =
      on_error (wrapped "executing revoke privileges tx")
        (execute_revoke_privileges_tx id role privileges)
  execute_role _ id privileges role =
      fail (query_execution acl_unknown_operation (text "unknown grant stmt operation"))

  unfoldable pub execute_roles : MutatingStmt → List Privilege → List ℕ → M (Unit {0})
  execute_roles s privileges [] = pure tt
  execute_roles s privileges (role ∷ roles) = do
    execute_role s.operation s.table_id privileges role
    execute_roles s privileges roles

  unfoldable pub execute_grant_stmt : MutatingStmt → Bool → M (Unit {0})
  execute_grant_stmt s is_owner =
      if is_owner
      then (do
        roles ← lift (get_roles env.parser.sql s)
        privileges ← lift (get_privileges s)
        execute_roles s privileges roles)
      else fail (query_execution acl_not_owner (text "non owner cannot execute grant stmt"))
