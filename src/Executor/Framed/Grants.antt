-- ===== src/Executor/Framed/Grants.antt =====
-- Grants and writes are framed, whatever they return.
use go_tableland.Prelude.{ℕ, ◌≡◌, refl, Bool, Option, none, some, List, [], ◌∷◌}
use go_tableland.Acl.{Privilege, Operation, op_grant, op_revoke, grant_mask, revoke_mask}
use go_tableland.Database.{Db, string_key, int64_key}
use go_tableland.Parsing.Statements.{MutatingStmt}
use go_tableland.Executor.{Env, M, TxnScope}
use go_tableland.Executor.Grants.{
  with_mask, execute_grant_privileges_tx, execute_revoke_privileges_tx, execute_role, execute_roles,
  execute_grant_stmt,
}
use go_tableland.Executor.Frames.{Frames, Frames-bind, frame_rules}
use go_tableland.Executor.Framed.{StatementsFramed}

module _ (env : Env) (R : Db → Db → Type 0) (sf : StatementsFramed R) (ts : TxnScope) where
  with_mask-Frames :
      (o : Option ℕ) (f : ℕ → M (Unit {0}))
      → ((m : ℕ) → o ≡ some m → Frames R (f m))
      → Frames R (with_mask o f)
  with_mask-Frames none f h = search (frame_rules, sf.frame)
  with_mask-Frames (some m) f h = h m refl

  pub grant-Frames :
      (id addr : ℕ) (ps : List Privilege) → Frames R (execute_grant_privileges_tx env ts id addr ps)
  unfolding execute_grant_privileges_tx
  grant-Frames id addr ps =
      with_mask-Frames (grant_mask ps) _
        λ m e. search (frame_rules, sf.frame, sf.upsert ts.vars.chain_id (int64_key id) addr m ps e)

  pub revoke-Frames :
      (id addr : ℕ) (ps : List Privilege)
      → Frames R (execute_revoke_privileges_tx env ts id addr ps)
  unfolding execute_revoke_privileges_tx
  revoke-Frames id addr ps =
      with_mask-Frames (revoke_mask ps) _ λ m e.
        search (frame_rules, sf.frame, sf.revoke ts.vars.chain_id (string_key id) addr m ps e)

  role-Frames :
      (op : Operation) (id : ℕ) (ps : List Privilege) (role : ℕ)
      → Frames R (execute_role env ts op id ps role)
  unfolding execute_role
  role-Frames op_grant id ps role = search (frame_rules, sf.frame, grant-Frames)
  role-Frames op_revoke id ps role = search (frame_rules, sf.frame, revoke-Frames)
  role-Frames _ id ps role = search (frame_rules, sf.frame)

  roles-Frames :
      (s : MutatingStmt) (ps : List Privilege) (roles : List ℕ)
      → Frames R (execute_roles env ts s ps roles)
  unfolding execute_roles
  roles-Frames s ps [] = search (frame_rules, sf.frame)
  roles-Frames s ps (role ∷ roles) =
      Frames-bind R sf.frame _ _ (role-Frames s.operation s.table_id ps role)
        λ _. roles-Frames s ps roles

  pub grant_stmt-Frames :
      (s : MutatingStmt) (owner : Bool) → Frames R (execute_grant_stmt env ts s owner)
  unfolding execute_grant_stmt
  grant_stmt-Frames s owner = search (frame_rules, sf.frame, roles-Frames) depth 7
