-- ===== src/Executor/Transfers.antt =====
-- About the transfer events of pkg/eventprocessor/impl/executor/impl/txnscope_transfer.go.
use Prim.Native.Nat.{bit_and}
use go_tableland.Prelude.{
  ℤ, ℕ, ◌^◌, ◌<◌, String, ◌≡◌, refl, sym, ap, ◌∙◌, subst, ◌≢◌, inl, inr, Bool, true, false, not,
  ◌&&◌, Option, none, some, List, arith, Option-cases,
}
use go_tableland.Errors.{Code, GoError, Result, ok, err, panic, as_query_execution, ok_injective}
use go_tableland.Acl.{Privilege, Operation, has_privilege, can_execute, revoke_mask}
use go_tableland.Database.{Db, string_key, int64_key, put₃-ne}
use go_tableland.Database.Statements.{update_registry_controller, revoke_acl}
use go_tableland.Executor.{Env, World, M, pure, fail, TxnScope, EventResult}
use go_tableland.Executor.Writes.{privileges_of_row}
use go_tableland.Executor.Grants.{execute_grant_privileges_tx, execute_revoke_privileges_tx}
use go_tableland.Executor.RunSql.{handled, event_result, controlled}
use go_tableland.Executor.Tables.{
  every_privilege, change_table_owner, if_done, and_then, execute_transfer_event,
}
use go_tableland.Executor.Calls.{call-ok, bind-ok}
use go_tableland.Executor.MaskBits.{
  WriteOperation, insert_needs, update_needs, delete_needs, entry, may_write, MaskBelow8,
}
use go_tableland.Executor.Privileges.{others-grant, may_write-grant, may_write-revoke}

-- A step that succeeds has run its statement.
controlled-done :
    (message context : String) (id : ℕ) (m : M (Unit {0})) (w : World) (res : EventResult)
    → (controlled message context id m w).0 ≡ ok res
    → res.error ≡ none
    → (m w).0 ≡ ok tt
unfolding controlled
controlled-done message context id m w res = step (m w).0
  where
    step :
        (r : Result (Unit {0}))
        → event_result message context id r ≡ ok res
        → res.error ≡ none
        → r ≡ ok tt
    step (ok u) h e = refl
    step (err x) h e = absurd (refused (as_query_execution x) h e)
      where
        refused :
            (o : Option (Code × GoError))
            → handled message context x o ≡ ok res
            → res.error ≡ none
            → ⊥
        refused none h e = ground arith
        refused (some (c, msg)) h e = ground arith
    step (panic s) h e = cc

err-ne-ok : (e : GoError) → ¬ (err e ≡ ok (tt {0}))
err-ne-ok e h = cc

some-ne-none : {x : GoError} → ¬ (some x ≡ none)
some-ne-none h = cc

and_not-true : (b c : Bool) → c ≡ true → (b && not c) ≡ false
and_not-true b c h = ground arith

owner_acl_lem :
    (c : ℕ) (t : ℤ) (a : ℕ) (d : Db)
    → (update_registry_controller c t a d).1.system_acl ≡ d.system_acl
unfolding update_registry_controller
owner_acl_lem c t a d = ground arith

revoke_others_lem :
    (c : ℕ) (t : ℤ) (a m b n : ℕ) (u : ℤ) (d : Db)
    → b ≢ a
    → (revoke_acl c t a m d).1.system_acl n u b ≡ d.system_acl n u b
unfolding revoke_acl
revoke_others_lem c t a m b n u d other = elim (Option-cases (d.system_acl c t a)) [
  | inl e ↦ rw (e, revoke_acl) refl
  | inr (k, e) ↦ rw (e, revoke_acl) (put₃-ne d.system_acl c t a b n u (some (bit_and k m)) other)
]

module _ (env : Env) (ts : TxnScope) where
  and_then-done :
      (m k : M EventResult) (w : World) (res : EventResult)
      → (and_then env ts m k w).0 ≡ ok res
      → res.error ≡ none
      → (r : EventResult) × ((m w).0 ≡ ok r)
        × (r.error ≡ none)
        × (and_then env ts m k w ≡ k (m w).1)
  unfolding pure
  and_then-done m k w res h e =
      let (r, er, eq) = bind-ok m (λ x. if_done env ts x.error x k) w res h in
      elim (Option-cases r.error) [
        | inl n ↦ (r, er, n, eq ∙ ap (λ o. if_done env ts o r k (m w).1) n)
        | inr (x, y) ↦ absurd (
            stopped r x y (m w).1 (
              ap (λ (z : Result EventResult × World). z.0)
                (sym (eq ∙ ap (λ o. if_done env ts o r k (m w).1) y))
              ∙ h))
      ]
    where
      stopped :
          (r : EventResult) (x : GoError)
          → r.error ≡ some x
          → (w' : World) → (pure r w').0 ≡ ok res
          → ⊥
      stopped r x y w' h' =
          some-ne-none (sym y ∙ ap (λ (z : EventResult). z.error) (ok_injective h') ∙ e)

  owner_changed :
      (id owner : ℕ) (w : World)
      → (change_table_owner env ts id owner w).0 ≡ ok tt
      → (change_table_owner env ts id owner w).1.db.system_acl ≡ w.db.system_acl
  unfolding change_table_owner
  owner_changed id owner w h =
      let (r, d) = call-ok env _ _ w tt h in
      ap (λ (x : Db). x.system_acl) d ∙ owner_acl_lem ts.vars.chain_id (string_key id) owner w.db

  others-revoke :
      (id addr b : ℕ) (ps : List Privilege) (w : World)
      → b ≢ addr
      → (execute_revoke_privileges_tx env ts id addr ps w).0 ≡ ok tt
      → (n : ℕ) (u : ℤ)
      → (execute_revoke_privileges_tx env ts id addr ps w).1.db.system_acl n u b
        ≡ w.db.system_acl n u b
  unfolding execute_revoke_privileges_tx fail
  others-revoke id addr b ps w other = elim (Option-cases (revoke_mask ps)) [
    | inl e ↦ rw e (λ h n u. absurd (err-ne-ok _ h))
    | inr (m, e) ↦ rw e (λ h n u.
        let (r, d) = call-ok env _ _ w tt h in
        ap (λ (x : Db). x.system_acl n u b) d
        ∙ revoke_others_lem ts.vars.chain_id (string_key id) addr m b n u w.db other)
  ]

  every-has :
      {op : Operation} {p : Privilege}
      → WriteOperation op p
      → has_privilege p every_privilege ≡ true
  unfolding has_privilege
  every-has insert_needs = refl
  every-has update_needs = refl
  every-has delete_needs = refl

  module _ (id from to : ℕ) (w : World) where
    abbrev owned : World
    owned = (change_table_owner env ts id to w).1

    abbrev revoked : World
    revoked = (execute_revoke_privileges_tx env ts id from every_privilege owned).1

    abbrev moved : World
    moved = (execute_grant_privileges_tx env ts id to every_privilege revoked).1

    -- The three steps, once each of them has run.
    moved_lem :
        {op : Operation} {p : Privilege}
        → WriteOperation op p
        → id < 2 ^ 63
        → from ≢ to
        → to ≢ from
        → MaskBelow8 (entry ts id from w.db)
        → MaskBelow8 (entry ts id to w.db)
        → (change_table_owner env ts id to w).0 ≡ ok tt
        → (execute_revoke_privileges_tx env ts id from every_privilege owned).0 ≡ ok tt
        → (execute_grant_privileges_tx env ts id to every_privilege revoked).0 ≡ ok tt
        → (may_write ts id to op moved.db ≡ true) × (may_write ts id from op moved.db ≡ false)
    moved_lem {op} {p} needs small ne ne' mf mt h1 h2 h3 =
        let acl : owned.db.system_acl ≡ w.db.system_acl = owner_changed id to w h1 in
        let mf' : MaskBelow8 (entry ts id from owned.db) =
          subst (λ f. MaskBelow8 (f ts.vars.chain_id (int64_key id) from)) (sym acl) mf in
        let mt' : MaskBelow8 (entry ts id to revoked.db) =
          subst MaskBelow8
            (sym (
              others-revoke id from to every_privilege owned ne' h2 ts.vars.chain_id (int64_key id)
              ∙ ap (λ f. f ts.vars.chain_id (int64_key id) to) acl))
            mt in
        let lost = may_write-revoke env ts id from every_privilege owned needs small mf' h2 in
        let won = may_write-grant env ts id to every_privilege revoked needs mt' h3 in
        let kept =
          others-grant env ts id to every_privilege revoked from ne h3 ts.vars.chain_id
            (int64_key id) in
        let has = every-has needs in
        (
          ground (arith, won, has),
          ap (λ o. (can_execute (privileges_of_row o) op).0) kept
              ∙ lost
              ∙ and_not-true (may_write ts id from op owned.db) _ has,
        )

    abbrev transfer : Result EventResult × World
    transfer = execute_transfer_event env ts (record { from = from; to = to; table_id = some id }) w

    -- After a transfer event between two different addresses whose result has no error, of a
    -- table whose id is below 2^63 and where the masks stored before for both addresses (if any)
    -- are below 8, an insert, update or delete is allowed to the new owner and not to the old
    -- one.
    pub transfer_event-Moves :
        {op : Operation} {p : Privilege} (res : EventResult)
        → WriteOperation op p
        → id < 2 ^ 63
        → from ≢ to
        → MaskBelow8 (entry ts id from w.db)
        → MaskBelow8 (entry ts id to w.db)
        → transfer.0 ≡ ok res
        → res.error ≡ none
        → (may_write ts id to op transfer.1.db ≡ true)
          × (may_write ts id from op transfer.1.db ≡ false)
    unfolding execute_transfer_event controlled
    transfer_event-Moves {op} {p} res needs small ne mf mt h e =
        let (r1, e1, n1, eq1) = and_then-done _ _ w res h e in
        let h1 =
          controlled-done "change table owner execution failed" "executing change table owner" id
            (change_table_owner env ts id to) w r1 e1 n1 in
        let (r2, e2, n2, eq2) =
          and_then-done _ _ owned res (ap (λ (x : Result EventResult × World). x.0) (sym eq1) ∙ h)
            e in
        let h2 =
          controlled-done "revoke privileges execution failed" "executing revoke privileges" id
            (execute_revoke_privileges_tx env ts id from every_privilege) owned r2 e2 n2 in
        let same = eq1 ∙ eq2 in
        let h3 =
          controlled-done "grant privileges execution failed" "executing grant privileges" id
            (execute_grant_privileges_tx env ts id to every_privilege) revoked res
            (ap (λ (x : Result EventResult × World). x.0) (sym same) ∙ h) e in
        let (won, lost) = moved_lem needs small ne (λ x. ne (sym x)) mf mt h1 h2 h3 in
        let at : (transfer.1.db ≡ moved.db) =
          ap (λ (x : Result EventResult × World). x.1.db) same in
        (ap (λ d. may_write ts id to op d) at ∙ won, ap (λ d. may_write ts id from op d) at ∙ lost)
