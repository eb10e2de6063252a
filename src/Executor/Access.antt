-- ===== src/Executor/Access.antt =====
-- About the checks of executeWriteStmt (pkg/eventprocessor/impl/executor/impl/txnscope_runsql.go)
-- before a statement runs.
use go_tableland.Prelude.{
  ℤ, ℕ, ◌≡◌, refl, sym, ap, ◌∙◌, subst, inl, inr, Bool, true, false, Option, none, some, arith,
  if◌then◌else◌, Option-cases,
}
use go_tableland.Errors.{
  acl_denied, GoError, text, query_execution, wrapped, flattened, Result, ok, err, panic,
  ok_injective,
}
use go_tableland.Executor.Frames.{IsFrame, Frames, frame_rules}
use go_tableland.Acl.{Operation}
use go_tableland.Database.{Db}
use go_tableland.Database.Statements.{select_controller, select_acl}
use go_tableland.Parsing.{SqlParser}
use go_tableland.Parsing.Statements.{MutatingStmt}
use go_tableland.Executor.{
  Env, World, M, pure, fail, lift, on_error, continue, ◌>>=◌, call, TxnScope, Policy,
}
use go_tableland.Executor.Policies.{check_operation, apply_policy}
use go_tableland.Executor.Writes.{
  get_acl_on_table_by_controller, check_privileges, get_controller, authorize_by, authorize,
  execute_write_stmt,
}
use go_tableland.Executor.Calls.{call-ok, bind-ok}
use go_tableland.Executor.MaskBits.{may_write}

on_error-ok :
    {A : Type 0} (f : GoError → GoError) (m : M A) (w : World) (a : A)
    → (on_error f m w).0 ≡ ok a
    → (m w).0 ≡ ok a
unfolding on_error
on_error-ok f m w a e = ground arith

-- What follows a computation that does not return is not run.
bind-stop :
    {A B : Type 0} (m : M A) (f : A → M B) (w : World)
    → ((a : A) → ¬ ((m w).0 ≡ ok a))
    → ((m >>= f) w).1 ≡ (m w).1
unfolding ◌>>=◌
bind-stop m f w h = go (m w).0 (m w).1 h
  where
    go : (r : Result _) (w' : World) → ((a : _) → ¬ (r ≡ ok a)) → (continue r f w').1 ≡ w'
    go (ok a) w' h = absurd (h a refl)
    go (err x) w' h = refl
    go (panic s) w' h = refl

module _ (env : Env) (ts : TxnScope) where
  -- What the table's controller is read as.
  abbrev pub controller_of : ℕ → Db → Result (Option ℕ)
  controller_of id db = (select_controller ts.vars.chain_id id db).0

  select_controller-db : (c id : ℕ) (d : Db) → (select_controller c id d).1 ≡ d
  unfolding select_controller
  select_controller-db c id d = ground arith

  get_controller-ok :
      (id : ℕ) (w : World) (o : Option ℕ)
      → (get_controller env ts id w).0 ≡ ok o
      → (controller_of id w.db ≡ ok o) × ((get_controller env ts id w).1.db ≡ w.db)
  unfolding get_controller
  get_controller-ok id w o e =
      let (r, d) =
        call-ok env (flattened "controller lookup") (select_controller ts.vars.chain_id id) w o e in
      (r, d ∙ select_controller-db ts.vars.chain_id id w.db)

  check_privileges-ok :
      (addr id : ℕ) (op : Operation) (w : World) (b : Bool)
      → (check_privileges env ts addr id op w).0 ≡ ok b
      → (b ≡ may_write ts id addr op w.db) × ((check_privileges env ts addr id op w).1.db ≡ w.db)
  unfolding check_privileges get_acl_on_table_by_controller select_acl ◌>>=◌ call
  check_privileges-ok addr id op w b = elim (Option-cases (env.fault w.calls)) [
    | inl f ↦ rw (f, call) (λ e. (cc, refl))
    | inr (x, f) ↦ rw (f, call) (λ e. cc)
  ]

  -- Whether a write without a controller, or with one, gets past its checks.
  abbrev pub AllowedBy : Option ℕ → MutatingStmt → ℕ → Policy → Db → Type 0
  AllowedBy none ws addr policy db = may_write ts ws.table_id addr ws.operation db ≡ true
  AllowedBy (some c) ws addr policy db = check_operation policy ws.operation ≡ ok tt

  abbrev denied : GoError
  denied = query_execution acl_denied (text "not enough privileges")

  after_check :
      (b : Bool) (ws ws' : MutatingStmt) (w : World)
      → ((if b then pure ws else fail denied) w).0 ≡ ok ws'
      → (b ≡ true) × (((if b then pure ws else fail denied) w).1 ≡ w)
  unfolding pure fail
  after_check true ws ws' w e = (refl, refl)
  after_check false ws ws' w e = cc

  apply_policy-ok :
      (sql : SqlParser) (policy : Policy) (ws ws' : MutatingStmt)
      → apply_policy sql policy ws ≡ ok ws'
      → check_operation policy ws.operation ≡ ok tt
  unfolding apply_policy
  apply_policy-ok sql policy ws ws' e = ground arith

  authorize_by-ok :
      (o : Option ℕ) (ws ws' : MutatingStmt) (addr : ℕ) (policy : Policy) (w : World)
      → (authorize_by env ts o ws addr policy w).0 ≡ ok ws'
      → AllowedBy o ws addr policy w.db × ((authorize_by env ts o ws addr policy w).1.db ≡ w.db)
  unfolding authorize_by on_error lift
  authorize_by-ok none ws ws' addr policy w e =
      let (b, eb, eq) = bind-ok _ _ w ws' e in
      let (t, d) = check_privileges-ok addr ws.table_id ws.operation w b (
        on_error-ok (flattened "error checking acl")
          (check_privileges env ts addr ws.table_id ws.operation) w b eb) in
      let (can, stay) =
        after_check b ws ws' _ (ap (λ (x : Result MutatingStmt × World). x.0) (sym eq) ∙ e) in
      (
        sym t ∙ can,
        ap (λ (x : Result MutatingStmt × World). x.1.db) eq ∙ ap (λ (x : World). x.db) stay ∙ d,
      )
  authorize_by-ok (some c) ws ws' addr policy w e = (
    apply_policy-ok env.parser.sql policy ws ws' (
        on_error-ok (wrapped "not allowed to execute stmt")
          (lift (apply_policy env.parser.sql policy ws)) w ws' e),
    refl,
  )

  authorize-ok :
      (ws ws' : MutatingStmt) (addr : ℕ) (policy : Policy) (w : World)
      → (authorize env ts ws addr policy w).0 ≡ ok ws'
      → (o : Option ℕ) × (controller_of ws.table_id w.db ≡ ok o) × AllowedBy o ws addr policy w.db
  unfolding authorize on_error
  authorize-ok ws ws' addr policy w e =
      let (o, eo, eq) = bind-ok _ _ w ws' e in
      let (c, d) = get_controller-ok ws.table_id w o (
        on_error-ok (wrapped "checking controller is set") (get_controller env ts ws.table_id) w o
          eo) in
      let (a, d') =
        authorize_by-ok o ws ws' addr policy _
          (ap (λ (x : Result MutatingStmt × World). x.0) (sym eq) ∙ e) in
      (o, c, subst (λ x. AllowedBy o ws addr policy x) d a)

  Same : Db → Db → Type 0
  Same a b = b ≡ a

  Same-frame : IsFrame Same
  unfolding Same
  Same-frame = record { same = λ d. refl; both = λ a b c h k. k ∙ h }

  select_controller-Same : (c id : ℕ) (d : Db) → Same d (select_controller c id d).1
  unfolding Same
  select_controller-Same c id d = select_controller-db c id d

  select_acl-Same : (c : ℕ) (t : ℤ) (a : ℕ) (d : Db) → Same d (select_acl c t a d).1
  unfolding Same select_acl
  select_acl-Same c t a d = refl

  authorize_by-Same :
      (o : Option ℕ) (ws : MutatingStmt) (addr : ℕ) (policy : Policy)
      → Frames Same (authorize_by env ts o ws addr policy)
  unfolding authorize_by check_privileges get_acl_on_table_by_controller
  authorize_by-Same none ws addr policy = search (frame_rules, Same-frame, select_acl-Same) depth 12
  authorize_by-Same (some c) ws addr policy = search (frame_rules, Same-frame) depth 12

  authorize-Same :
      (ws : MutatingStmt) (addr : ℕ) (policy : Policy)
      → Frames Same (authorize env ts ws addr policy)
  unfolding authorize get_controller
  authorize-Same ws addr policy =
      search (frame_rules, Same-frame, select_controller-Same, authorize_by-Same) depth 12

  -- If the table's controller is read as unset and the caller's stored privileges do not allow
  -- the statement's operation, or it is read as set and the policy's check of the operation
  -- fails, then executeWriteStmt does not return without an error and leaves the database as it
  -- was, whatever calls of the database fail.
  pub write_stmt-refused :
      (ws : MutatingStmt) (addr : ℕ) (policy : Policy) (before : ℕ) (o : Option ℕ) (w : World)
      → controller_of ws.table_id w.db ≡ ok o
      → ¬ AllowedBy o ws addr policy w.db
      → (¬ ((execute_write_stmt env ts ws addr policy before w).0 ≡ ok tt))
        × ((execute_write_stmt env ts ws addr policy before w).1.db ≡ w.db)
  unfolding execute_write_stmt Same
  write_stmt-refused ws addr policy before o w c refused =
      let never = λ (ws' : MutatingStmt) (e : (authorize env ts ws addr policy w).0 ≡ ok ws').
        let (o', c', a) = authorize-ok ws ws' addr policy w e in
        refused (subst (λ x. AllowedBy x ws addr policy w.db) (ok_injective (sym c' ∙ c)) a) in
      (
        λ h. let (ws', e, eq) = bind-ok _ _ w tt h in never ws' e,
        ap (λ (x : World). x.db) (bind-stop _ _ w never) ∙ (authorize-Same ws addr policy).at w,
      )
