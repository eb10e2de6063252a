-- ===== src/Executor/QueryFaults.antt =====
-- About the errors of executeQueryAndGetAffectedRows of
-- pkg/eventprocessor/impl/executor/impl/txnscope_runsql.go.
use go_tableland.Prelude.{ℕ, String, ◌≡◌, refl, none, List, [], ◌∷◌, ◌++◌, arith}
use go_tableland.Errors.{GoError, flattened, Result, ok, err, panic, as_query_execution}
use go_tableland.Executor.{Env, World, M, lift, map_error, on_error, continue, ◌>>=◌, TxnScope}
use go_tableland.Executor.Writes.{scan_rows, execute_query_and_get_affected_rows}

-- No error of the computation is a controlled one.
record Uncontrolled {A : Type 0} (m : M A) : Type 0 where
  at : (w : World) (e : GoError) → (m w).0 ≡ err e → as_query_execution e ≡ none

flattened-Uncontrolled :
    {A : Type 0} (s : String) (m : M A) → Uncontrolled (on_error (flattened s) m)
unfolding on_error as_query_execution
flattened-Uncontrolled s m = record { at = λ w. from (m w).0 }
  where
    from :
        {A : Type 0} (r : Result A) (e : GoError)
        → map_error (flattened s) r ≡ err e
        → as_query_execution e ≡ none
    from r e h = ground arith

bind-Uncontrolled :
    {A B : Type 0} (m : M A) (f : A → M B)
    → Uncontrolled m
    → ((a : A) → Uncontrolled (f a))
    → Uncontrolled (m >>= f)
unfolding ◌>>=◌
bind-Uncontrolled m f h k = record { at = λ w. from (m w).0 (m w).1 (h.at w) }
  where
    from :
        (r : Result _) (w' : World)
        → ((e : GoError) → r ≡ err e → as_query_execution e ≡ none)
        → (e : GoError) → (continue r f w').0 ≡ err e
        → as_query_execution e ≡ none
    from (ok a) w' g e h' = (k a).at w' e h'
    from (err x) w' g e h' = g e (same x e _ _ h' refl refl)
      where
        same :
            {C D : Type 0} (x e : GoError) (r : Result C) (s : Result D)
            → r ≡ err e
            → r ≡ err x
            → s ≡ err x
            → s ≡ err e
        same x e r s h k l = cc
    from (panic s) w' g e h' = cc

scan_rows-Uncontrolled :
    (rows : List (Result ℕ)) (ids : List ℕ) → Uncontrolled (lift (scan_rows rows ids))
unfolding lift scan_rows as_query_execution
scan_rows-Uncontrolled rows ids = record { at = λ w. scanned rows ids }
  where
    scanned :
        (rows : List (Result ℕ)) (ids : List ℕ) (e : GoError)
        → scan_rows rows ids ≡ err e
        → as_query_execution e ≡ none
    scanned [] ids e h = cc
    scanned (ok id ∷ rows) ids e h = scanned rows (ids ++ (id ∷ [])) e h
    scanned (err x ∷ rows) ids e h = ground arith
    scanned (panic s ∷ rows) ids e h = cc

module _ (env : Env) (ts : TxnScope) where
  rows-Uncontrolled : (q : String) → Uncontrolled (execute_query_and_get_affected_rows env ts q)
  unfolding execute_query_and_get_affected_rows
  rows-Uncontrolled q =
      bind-Uncontrolled _ _ (flattened-Uncontrolled _ _) λ rows. scan_rows-Uncontrolled rows.0 []

  -- Whatever the error of the query is, a violated constraint included, the error with which
  -- executeQueryAndGetAffectedRows returns is not a controlled one.
  pub affected_rows-Uncontrolled :
      (q : String) (w : World) (e : GoError)
      → (execute_query_and_get_affected_rows env ts q w).0 ≡ err e
      → as_query_execution e ≡ none
  affected_rows-Uncontrolled q w e h = (rows-Uncontrolled q).at w e h
