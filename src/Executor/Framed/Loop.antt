-- ===== src/Executor/Framed/Loop.antt =====
-- The loop over the statements of an event is framed, once each statement is.
use go_tableland.Prelude.{ℕ, String, refl, List, [], ◌∷◌, ◌==◌, All}
use go_tableland.Errors.{Result, ok, err, panic}
use go_tableland.Database.{Db}
use go_tableland.Parsing.Statements.{Mutating, base}
use go_tableland.Parsing.Permitted.{Allowed}
use go_tableland.Parsing.Returned.{OkAll}
use go_tableland.Executor.{Env, M, TxnScope, EventResult}
use go_tableland.Executor.RunSql.{
  RunSqlEvent, unless_invalid, get_table_prefix_and_row_count, execute_mutating, exec_loop,
  exec_write_queries, execute_statements,
}
use go_tableland.Executor.Frames.{Frames, Frames-bind, Frames-if, frame_rules}
use go_tableland.Executor.Framed.{UserFramed, framed-controlled, framed-select_prefix_and_count}

module _ (env : Env) (R : Db → Db → Type 0) (sf : UserFramed R) (ts : TxnScope) where
  module _ (e : RunSqlEvent)
      (each : (before : ℕ) (mq : Mutating)
        → Allowed env.parser mq
        → Frames R (execute_mutating env ts e.caller e.is_owner e.policy before mq)) where
    loop-Frames :
        (prefix : String) (before : ℕ) (mqs : List Mutating)
        → All (Allowed env.parser) mqs
        → Frames R (exec_loop env ts e.caller e.is_owner e.policy prefix before mqs)
    unfolding exec_loop
    loop-Frames prefix before [] a = search (frame_rules, sf.frame)
    loop-Frames prefix before (mq ∷ mqs) (a, rest_allowed) =
        Frames-bind R sf.frame _ _ (search (frame_rules, sf.frame)) λ _.
          Frames-bind R sf.frame _ _ (each before mq a)
            λ _. loop-Frames prefix before mqs rest_allowed

    queries-Frames :
        (mqs : List Mutating)
        → All (Allowed env.parser) mqs
        → Frames R (exec_write_queries env ts e.caller mqs e.is_owner e.policy)
    unfolding exec_write_queries get_table_prefix_and_row_count
    queries-Frames [] a = search (frame_rules, sf.frame)
    queries-Frames (mq ∷ mqs) a =
        let looped : (prefix : String) (before : ℕ)
            → Frames R (exec_loop env ts e.caller e.is_owner e.policy prefix before (mq ∷ mqs)) =
          λ prefix before. loop-Frames prefix before (mq ∷ mqs) a in
        search (frame_rules, sf.frame, looped, framed-select_prefix_and_count env R sf) depth 8

    pub statements-Frames_of :
        (mqs : List Mutating)
        → All (Allowed env.parser) mqs
        → Frames R (execute_statements env ts e mqs)
    unfolding execute_statements
    statements-Frames_of [] a = search (frame_rules, sf.frame)
    statements-Frames_of (mq ∷ mqs) a =
        Frames-if R sf.frame ((base mq).table_id == e.table_id) _ _
          (framed-controlled env R sf _ _ _ _ (queries-Frames (mq ∷ mqs) a))
          (search (frame_rules, sf.frame))

  pub unless_invalid-Frames :
      {A : Type 0} (P : A → Type 0) (message : String) (r : Result A) (f : A → M EventResult)
      → OkAll P r
      → ((a : A) → P a → Frames R (f a))
      → Frames R (unless_invalid message r f)
  unless_invalid-Frames P message (ok a) f p h = h a (p.at a refl)
  unless_invalid-Frames P message (err e) f p h = search (frame_rules, sf.frame)
  unless_invalid-Frames P message (panic s) f p h = search (frame_rules, sf.frame)
