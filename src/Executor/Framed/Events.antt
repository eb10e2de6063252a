-- ===== src/Executor/Framed/Events.antt =====
-- Every event of a transaction is framed, whatever it returns.
use go_tableland.Prelude.{
  ℕ, suc, ◌≡◌, refl, false, All, Bool, Option, none, some, List, [], ◌∷◌, ◌==◌,
}
use go_tableland.Errors.{GoError}
use go_tableland.Database.{Db}
use go_tableland.Parsing.Statements.{
  Mutating, write_stmt, grant_stmt, other_stmt, CreateStmt, get_raw_query_for_table_id,
}
use go_tableland.Parsing.Validator.{has_prefix}
use go_tableland.Parsing.Permitted.{
  Allowed, validate_mutating_query-Allowed, validate_create_table-prefix,
}
use go_tableland.Executor.Writes.{exec_statement}
use go_tableland.Executor.Confined.{Confined}
use go_tableland.Executor.{Env, M, TxnScope, EventResult, Policy}
use go_tableland.Executor.RunSql.{
  RunSqlEvent, execute_mutating, execute_statements, execute_run_sql_event,
}
use go_tableland.Executor.Tables.{
  CreateTableEvent, SetControllerEvent, TransferEvent, with_table_id, insert_table,
  execute_create_table_event, set_controller, execute_set_controller_event, change_table_owner,
  if_done, and_then, execute_transfer_event,
}
use go_tableland.Executor.Events.{
  Event, run_sql, create_table_event, set_controller_event, transfer_event, unknown_event,
  TxnEvents, TxnResult, stop_at, execute_event, execute_events_from, execute_txn_events,
}
use go_tableland.Executor.Frames.{Frames, Frames-bind, Frames-if, frame_rules}
use go_tableland.Executor.Framed.{StatementsFramed, framed-only, framed-controlled}
use go_tableland.Executor.Framed.Grants.{grant-Frames, revoke-Frames, grant_stmt-Frames}
use go_tableland.Executor.Framed.Writes.{write_stmt-Frames}
use go_tableland.Executor.Framed.Loop.{statements-Frames_of, unless_invalid-Frames}

module _ (env : Env) (R : Db → Db → Type 0) (sf : StatementsFramed R) (confined : Confined env)
    (ts : TxnScope) where
  mutating-Frames :
      (caller : ℕ) (owner : Bool) (policy : Policy) (before : ℕ) (mq : Mutating)
      → Allowed env.parser mq
      → Frames R (execute_mutating env ts caller owner policy before mq)
  unfolding execute_mutating
  mutating-Frames caller owner policy before (grant_stmt s) a =
      search (frame_rules, sf.frame, grant_stmt-Frames env R sf ts)
  mutating-Frames caller owner policy before (write_stmt s) a =
      let written = write_stmt-Frames env R sf.users confined ts s caller policy before a in
      search (frame_rules, sf.frame, written)
  mutating-Frames caller owner policy before (other_stmt s) a = search (frame_rules, sf.frame)

  statements-Frames :
      (e : RunSqlEvent) (mqs : List Mutating)
      → All (Allowed env.parser) mqs
      → Frames R (execute_statements env ts e mqs)
  statements-Frames e =
      statements-Frames_of env R sf.users ts e
        (λ before. mutating-Frames e.caller e.is_owner e.policy before)

  with_table_id-Frames :
      (o : Option ℕ) (f : ℕ → M EventResult)
      → ((id : ℕ) → Frames R (f id))
      → Frames R (with_table_id o f)
  with_table_id-Frames none f h = search (frame_rules, sf.frame)
  with_table_id-Frames (some id) f h = h id

  run_sql-Frames : (e : RunSqlEvent) → Frames R (execute_run_sql_event env ts e)
  unfolding execute_run_sql_event
  run_sql-Frames e =
      unless_invalid-Frames env R sf.users ts (All (Allowed env.parser)) _ _ _
        (validate_mutating_query-Allowed env.parser e.statement ts.vars.chain_id)
        (statements-Frames e)

  insert_table-Frames :
      (id owner : ℕ) (stmt : CreateStmt)
      → has_prefix stmt.prefix env.parser.system_table_prefixes ≡ false
      → Frames R (insert_table env ts id owner stmt)
  unfolding insert_table get_raw_query_for_table_id
  insert_table-Frames id owner stmt p =
      let ran : (d : Db)
          → R d (exec_statement env (get_raw_query_for_table_id env.parser.sql stmt id) d).1 =
        λ d.
          framed-only env R sf.users d _
            (confined.create _ stmt.prefix stmt.chain_id id p refl d) in
      search (frame_rules, sf.frame, sf.register, sf.entry, ran) depth 12

  create_table-Frames : (e : CreateTableEvent) → Frames R (execute_create_table_event env ts e)
  unfolding execute_create_table_event
  create_table-Frames e =
      unless_invalid-Frames env R sf.users ts
        (λ (s : CreateStmt). has_prefix s.prefix env.parser.system_table_prefixes ≡ false) _ _ _
        (validate_create_table-prefix env.parser e.statement ts.vars.chain_id)
        λ stmt p.
          with_table_id-Frames e.table_id _
            λ id. framed-controlled env R sf.users _ _ _ _ (insert_table-Frames id e.owner stmt p)

  set_controller-Frames :
      (e : SetControllerEvent) → Frames R (execute_set_controller_event env ts e)
  unfolding execute_set_controller_event set_controller
  set_controller-Frames e = with_table_id-Frames e.table_id _ λ id.
      framed-controlled env R sf.users _ _ _ _ (
        Frames-if R sf.frame (e.controller == 0) _ _
          (search (frame_rules, sf.frame, sf.unset_control))
          (search (frame_rules, sf.frame, sf.set_control)))

  if_done-Frames :
      (o : Option GoError) (res : EventResult) (k : M EventResult)
      → Frames R k
      → Frames R (if_done env ts o res k)
  if_done-Frames none res k h = h
  if_done-Frames (some e) res k h = search (frame_rules, sf.frame)

  and_then-Frames : (m k : M EventResult) → Frames R m → Frames R k → Frames R (and_then env ts m k)
  and_then-Frames m k hm hk =
      Frames-bind R sf.frame m _ hm (λ res. if_done-Frames res.error res k hk)

  transfer-Frames : (e : TransferEvent) → Frames R (execute_transfer_event env ts e)
  unfolding execute_transfer_event change_table_owner
  transfer-Frames e = with_table_id-Frames e.table_id _ λ id.
      and_then-Frames _ _
        (framed-controlled env R sf.users _ _ _ _ (search (frame_rules, sf.frame, sf.owner)))
        (and_then-Frames _ _
          (framed-controlled env R sf.users _ _ _ _ (revoke-Frames env R sf ts id e.from _))
          (framed-controlled env R sf.users _ _ _ _ (grant-Frames env R sf ts id e.to _)))

  event-Frames : (e : Event) → Frames R (execute_event env ts e)
  unfolding execute_event
  event-Frames (run_sql e) = search (frame_rules, sf.frame, run_sql-Frames)
  event-Frames (create_table_event e) = search (frame_rules, sf.frame, create_table-Frames)
  event-Frames (set_controller_event e) = search (frame_rules, sf.frame, set_controller-Frames)
  event-Frames (transfer_event e) = search (frame_rules, sf.frame, transfer-Frames)
  event-Frames unknown_event = search (frame_rules, sf.frame)

  stop_at-Frames :
      (o : Option GoError) (idx : ℕ) (id : Option ℕ) (rest : M TxnResult)
      → Frames R rest
      → Frames R (stop_at o idx id rest)
  stop_at-Frames none idx id rest h = h
  stop_at-Frames (some x) idx id rest h = search (frame_rules, sf.frame)

  events_from-Frames :
      (idx : ℕ) (last : Option ℕ) (es : List Event)
      → Frames R (execute_events_from env ts idx last es)
  unfolding execute_events_from
  events_from-Frames idx last [] = search (frame_rules, sf.frame)
  events_from-Frames idx last (e ∷ es) = Frames-bind R sf.frame _ _ (event-Frames e) λ res.
      stop_at-Frames res.error idx res.table_id _ (events_from-Frames (suc idx) res.table_id es)

  -- All the events of a transaction, wherever they stop.
  pub txn_events-Frames : (txn : TxnEvents) → Frames R (execute_txn_events env ts txn)
  unfolding execute_txn_events
  txn_events-Frames txn = events_from-Frames 0 none txn.events
