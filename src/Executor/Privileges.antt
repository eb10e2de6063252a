-- ===== src/Executor/Privileges.antt =====
-- About the grants and revokes of pkg/eventprocessor/impl/executor/impl/txnscope_runsql.go
-- against the check of a write.
use go_tableland.Prelude.{
  ℤ, ℕ, ◌^◌, ◌<◌, ◌≡◌, refl, sym, ap, ◌∙◌, subst, ◌≢◌, inl, inr, not, ◌&&◌, ◌||◌, Option, some,
  List, Option-cases,
}
use go_tableland.Errors.{Result, ok}
use go_tableland.Acl.{Privilege, Operation, has_privilege, can_execute, grant_mask, revoke_mask}
use go_tableland.Acl.Loops.{grant_mask_lem, revoke_mask_lem}
use go_tableland.Database.{Db, string_key, int64_key, int64_key_small, put₃, put₃-self, put₃-ne}
use go_tableland.Executor.{Env, World, ◌>>=◌, TxnScope}
use go_tableland.Executor.Grants.{execute_grant_privileges_tx, execute_revoke_privileges_tx}
use go_tableland.Executor.Writes.{privileges_of_row}
use go_tableland.Executor.Calls.{call-ok}
use go_tableland.Executor.MaskBits.{
  WriteOperation, needs-ne-zero, entry, may_write, or_mask, entry-upsert, and_mask, entry-revoke,
  MaskBelow8, can_execute_row, holds-or_mask, holds-and_mask,
}

module _ (env : Env) (ts : TxnScope) (id addr : ℕ) (ps : List Privilege) (w : World) where
  abbrev granted : Result (Unit {0}) × World
  granted = execute_grant_privileges_tx env ts id addr ps w

  abbrev revoked : Result (Unit {0}) × World
  revoked = execute_revoke_privileges_tx env ts id addr ps w

  -- A grant that returns has run its statement.
  granted_lem :
      granted.0 ≡ ok tt
      → (m : ℕ) × (grant_mask ps ≡ some m)
        × (granted.1.db.system_acl
            ≡ put₃ w.db.system_acl ts.vars.chain_id
                (int64_key id)
                addr
                (some (or_mask (entry ts id addr w.db) m)))
  unfolding execute_grant_privileges_tx ◌>>=◌
  granted_lem = elim (Option-cases (grant_mask ps)) [
    | inl e ↦ rw e (λ h. cc)
    | inr (m, e) ↦ rw e (λ h.
        let (r, d) = call-ok env _ _ w tt h in
        (
          m,
          refl,
          ap (λ (x : Db). x.system_acl) d
              ∙ entry-upsert ts.vars.chain_id (int64_key id) addr m w.db r,
        ))
  ]

  revoked_lem :
      revoked.0 ≡ ok tt
      → (m : ℕ) × (revoke_mask ps ≡ some m)
        × (revoked.1.db.system_acl ts.vars.chain_id (string_key id) addr
            ≡ and_mask (w.db.system_acl ts.vars.chain_id (string_key id) addr) m)
  unfolding execute_revoke_privileges_tx ◌>>=◌
  revoked_lem = elim (Option-cases (revoke_mask ps)) [
    | inl e ↦ rw e (λ h. cc)
    | inr (m, e) ↦ rw e (λ h.
        let (r, d) = call-ok env _ _ w tt h in
        (
          m,
          refl,
          ap (λ (x : Db). x.system_acl ts.vars.chain_id (string_key id) addr) d
              ∙ entry-revoke ts.vars.chain_id (string_key id) addr m w.db,
        ))
  ]

  -- A grant that returns leaves every entry of another address as it was.
  pub others-grant :
      (b : ℕ)
      → b ≢ addr
      → granted.0 ≡ ok tt
      → (n : ℕ) (u : ℤ) → granted.1.db.system_acl n u b ≡ w.db.system_acl n u b
  others-grant b other h n u =
      let (m, e, d) = granted_lem h in
      ap (λ (f : ℕ → ℤ → ℕ → Option ℕ). f n u b) d
      ∙ put₃-ne w.db.system_acl ts.vars.chain_id (int64_key id) addr b n u _ other

  module _ {op : Operation} {p : Privilege} (needs : WriteOperation op p) where
    grant_value :
        (m : ℕ)
        → grant_mask ps ≡ some m
        → MaskBelow8 (entry ts id addr w.db)
        → (can_execute (privileges_of_row (some (or_mask (entry ts id addr w.db) m))) op).0
          ≡ (may_write ts id addr op w.db || has_privilege p ps)
    grant_value m e below =
        let (lt, eq) = grant_mask_lem p (needs-ne-zero needs) ps m e in
        rw (can_execute_row _ needs, can_execute_row _ needs, ← eq)
          (holds-or_mask p (entry ts id addr w.db) m below lt)

    -- After a grant to an address that returns, where the mask stored before (if any) is below 8,
    -- an insert, update or delete by that address is allowed exactly if it was allowed before or
    -- its privilege is among the granted ones.
    pub may_write-grant :
        MaskBelow8 (entry ts id addr w.db)
        → granted.0 ≡ ok tt
        → may_write ts id addr op granted.1.db
          ≡ (may_write ts id addr op w.db || has_privilege p ps)
    may_write-grant below h =
        let (m, e, d) = granted_lem h in
        ap
          (λ (f : ℕ → ℤ → ℕ → Option ℕ).
            (can_execute (privileges_of_row (f ts.vars.chain_id (int64_key id) addr)) op).0)
          d
        ∙ ap (λ (o : Option ℕ). (can_execute (privileges_of_row o) op).0)
            (put₃-self w.db.system_acl ts.vars.chain_id (int64_key id) addr _)
        ∙ grant_value m e below

    revoke_value :
        (m : ℕ)
        → revoke_mask ps ≡ some m
        → MaskBelow8 (entry ts id addr w.db)
        → (can_execute (privileges_of_row (and_mask (entry ts id addr w.db) m)) op).0
          ≡ (may_write ts id addr op w.db && not (has_privilege p ps))
    revoke_value m e below =
        let (lt, eq) = revoke_mask_lem p (needs-ne-zero needs) ps m e in
        rw (can_execute_row _ needs, can_execute_row _ needs, ← eq)
          (holds-and_mask p (entry ts id addr w.db) m below lt)

    -- After a revoke from an address that returns, of a table whose id is below 2^63 and where
    -- the mask stored before (if any) is below 8, an insert, update or delete by that address is
    -- allowed exactly if it was allowed before and its privilege is not among the revoked ones.
    pub may_write-revoke :
        id < 2 ^ 63
        → MaskBelow8 (entry ts id addr w.db)
        → revoked.0 ≡ ok tt
        → may_write ts id addr op revoked.1.db
          ≡ (may_write ts id addr op w.db && not (has_privilege p ps))
    may_write-revoke small below h =
        let (m, e, d) = revoked_lem h in
        ap (λ (o : Option ℕ). (can_execute (privileges_of_row o) op).0)
          (subst
            (λ t.
              revoked.1.db.system_acl ts.vars.chain_id t addr
              ≡ and_mask (w.db.system_acl ts.vars.chain_id t addr) m)
            (sym (int64_key_small id small)) d)
        ∙ revoke_value m e below
