-- ===== src/Executor/Atomic.antt =====
-- About ExecuteTxnEvents of pkg/eventprocessor/impl/executor/impl/blockscope.go: the savepoint
-- around a transaction.
use go_tableland.Prelude.{
  suc, String, ◌≡◌, refl, sym, ap, ◌∙◌, subst, inl, inr, Option, none, some, arith, Option-cases,
}
use go_tableland.Errors.{GoError, Result, ok, err, panic}
use go_tableland.Database.{Db}
use go_tableland.Executor.{Env, World, M, lift, ◌>>=◌, call, ScopeVars, TxnScope}
use go_tableland.Executor.Events.{TxnEvents, TxnResult, execute_txn_events}
use go_tableland.Executor.BlockScope.{
  unchanged, rollback_to, release, finish_result, finish_txn, under_savepoint, execute_txn,
}

-- A call that only reads or moves a savepoint.
call-db : (env : Env) (w : World) → (call env unchanged w).1.db ≡ w.db
unfolding call
call-db env w = ground arith

module _ (env : Env) (vars : ScopeVars) where
  abbrev scope_of : TxnEvents → TxnScope
  scope_of txn = record { vars = vars; txn_hash = txn.txn_hash }

  -- The world in which the events run: the savepoint costs one call.
  abbrev pub after_savepoint : World → World
  after_savepoint w = record { db = w.db; calls = suc w.calls }

  finish_result-failed :
      (x : GoError) (saved : Db) (res r : TxnResult) (w : World)
      → (finish_result env vars (some x) saved res w).0 ≡ ok r
      → ((finish_result env vars (some x) saved res w).1.db ≡ saved) × (r ≡ res)
  unfolding finish_result rollback_to release ◌>>=◌ call
  finish_result-failed x saved res r w h = ground arith

  finish_result-done :
      (saved : Db) (res r : TxnResult) (w : World)
      → (finish_result env vars none saved res w).0 ≡ ok r
      → ((finish_result env vars none saved res w).1.db ≡ w.db) × (r ≡ res)
  unfolding finish_result release ◌>>=◌ call
  finish_result-done saved res r w h = ground arith

  -- The database at the end: what the events made of it, or the one from before.
  abbrev pub Settled : Option GoError → Db → Db → Db → Type 0
  Settled none before run final = final ≡ run
  Settled (some x) before run final = final ≡ before

  finish_result-Settled :
      (o : Option GoError) (saved : Db) (res r : TxnResult) (w : World)
      → res.error ≡ o
      → (finish_result env vars o saved res w).0 ≡ ok r
      → (r ≡ res) × Settled r.error saved w.db (finish_result env vars o saved res w).1.db
  finish_result-Settled none saved res r w e h =
      let (d, same) = finish_result-done saved res r w h in
      (
        same,
        subst (λ x. Settled x saved w.db (finish_result env vars none saved res w).1.db)
            (sym (ap (λ (q : TxnResult). q.error) same ∙ e)) d,
      )
  finish_result-Settled (some x) saved res r w e h =
      let (d, same) = finish_result-failed x saved res r w h in
      (
        same,
        subst (λ y. Settled y saved w.db (finish_result env vars (some x) saved res w).1.db)
            (sym (ap (λ (q : TxnResult). q.error) same ∙ e)) d,
      )

  finish_err-ne-ok :
      (e : GoError) (saved : Db) (r : TxnResult) (w : World)
      → ¬ ((finish_txn env vars saved (err e) w).0 ≡ ok r)
  unfolding finish_txn rollback_to ◌>>=◌ call
  finish_err-ne-ok e saved r w h = ground arith

  lift_panic-ne-ok :
      (s : String) (r : TxnResult) (w : World) → ¬ ((lift {A = TxnResult} (panic s) w).0 ≡ ok r)
  unfolding ◌>>=◌
  lift_panic-ne-ok s r w h = cc

  finish_txn-Settled :
      (saved : Db) (res : Result TxnResult) (r : TxnResult) (w : World)
      → (finish_txn env vars saved res w).0 ≡ ok r
      → (res ≡ ok r) × Settled r.error saved w.db (finish_txn env vars saved res w).1.db
  unfolding finish_txn
  finish_txn-Settled saved (ok res) r w h =
      let (same, s) = finish_result-Settled res.error saved res r w refl h in (cc, s)
  finish_txn-Settled saved (err e) r w h = absurd (finish_err-ne-ok e saved r w h)
  finish_txn-Settled saved (panic s) r w h = absurd (lift_panic-ne-ok s r w h)

  under_savepoint-Settled :
      (m : M TxnResult) (w : World) (r : TxnResult)
      → (under_savepoint env vars m w).0 ≡ ok r
      → ((m w).0 ≡ ok r) × Settled r.error w.db (m w).1.db (under_savepoint env vars m w).1.db
  unfolding under_savepoint
  under_savepoint-Settled m w r h = finish_txn-Settled w.db (m w).0 r (m w).1 h

  -- If ExecuteTxnEvents returns a result, it is the result that executeTxnEvents returns after
  -- the savepoint; where that result has no error the database is left as the events made it, and
  -- where it has one the database is the one from before the transaction.
  pub execute_txn-Settled :
      (txn : TxnEvents) (w : World) (r : TxnResult)
      → (execute_txn env vars txn w).0 ≡ ok r
      → ((execute_txn_events env (scope_of txn) txn (after_savepoint w)).0 ≡ ok r)
        × Settled r.error w.db
            (execute_txn_events env (scope_of txn) txn (after_savepoint w)).1.db
            (execute_txn env vars txn w).1.db
  unfolding execute_txn ◌>>=◌ call
  execute_txn-Settled txn w r = elim (Option-cases (env.fault w.calls)) [
    | inl e ↦
        rw (e, call)
          (under_savepoint-Settled (execute_txn_events env (scope_of txn) txn) (after_savepoint w)
            r)
    | inr (x, e) ↦ rw (e, call) (λ h. cc)
  ]
