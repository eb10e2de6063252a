-- ===== src/Executor/Scopes.antt =====
-- Executor of pkg/eventprocessor/impl/executor/impl/executor.go: opening, committing and closing
-- block scopes. The executor holds the committed database, the token of chBlockScope, the closed
-- flag, and the count of transactions that are open on the database; an open scope is a World.
use go_tableland.Prelude.{
  ℤ, pos, negsuc, leb_ℤ, ℕ, suc, ◌-◌, Bool, true, false, not, ◌&&◌, Option, none, some,
  if◌then◌else◌,
}
use go_tableland.Errors.{text, flattened, Result, ok, err, panic}
use go_tableland.Database.{Db}
use go_tableland.Database.Statements.{select_height}
use go_tableland.Executor.{Env, World, M, pure, fail, on_error, ◌>>=◌, call}

pub record Executor : Type 0 where
  pub chain_id : ℕ
  pub max_table_row_count : ℕ
  pub committed : Db
  pub token_free : Bool
  pub closed : Bool
  pub open_transactions : ℕ
  pub calls : ℕ

-- NewExecutor; a negative maximum is refused.
unfoldable pub new_executor : ℕ → ℤ → Db → Result Executor
new_executor chain (negsuc n) db = err (text "maximum table row count is negative")
new_executor chain (pos n) db = ok (record {
  chain_id = chain;
  max_table_row_count = n;
  committed = db;
  token_free = true;
  closed = false;
  open_transactions = 0;
  calls = 0;
})

unfoldable pub height_of : Option ℤ → ℤ
height_of none = negsuc 0
height_of (some n) = n

module _ (env : Env) where
  -- getLastExecutedBlockNumber: -1 if there is no row.
  unfoldable pub get_last_executed : ℕ → M ℤ
  get_last_executed chain = do
    h ← on_error (flattened "get last block number query") (call env (select_height chain))
    pure (height_of h)

  -- The check that the new block is above the last one.
  unfoldable pub check_height : ℕ → ℤ → M (Unit {0})
  check_height chain n = do
    last ← on_error (flattened "get last processed height") (get_last_executed chain)
    if leb_ℤ n last
        then fail (text "latest executed block isn't smaller than new block")
        else pure tt

  -- A transaction has been opened: an error hands the token back, and nothing else.
  unfoldable pub opened : ℤ → World → Executor → Result World × Executor
  unfolding check_height
  opened n w ex =
      let (r, w') = check_height ex.chain_id n w in
      elim r [
        | ok u ↦ (
          ok w',
          record ex {
            token_free = false;
            open_transactions = suc ex.open_transactions;
            calls = w'.calls;
          },
        )
        | err e ↦ (
          err e,
          record ex {
            token_free = true;
            open_transactions = suc ex.open_transactions;
            calls = w'.calls;
          },
        )
        | panic s ↦ (
          panic s,
          record ex {
            token_free = false;
            open_transactions = suc ex.open_transactions;
            calls = w'.calls;
          },
        )
      ]

  -- Executor.NewBlockScope. Where the token is free and the executor is closed, Go's select takes
  -- either case: `take_closed` says which.
  unfoldable pub new_block_scope : Bool → ℤ → Executor → Result World × Executor
  unfolding opened
  new_block_scope take_closed n ex =
      if ex.token_free && not (ex.closed && take_closed)
      then (elim (env.fault ex.calls) [
        | some e ↦ (err (flattened "opening db transaction" e), record ex { calls = suc ex.calls })
        | none ↦ opened n (record { db = ex.committed; calls = suc ex.calls }) ex
      ])
      else if ex.closed
      then (err (text "executor is closed"), ex)
      else (panic "parallel block scope detected, this must never happen", ex)

  -- blockScope.Commit
  unfoldable pub commit : World → Executor → Result (Unit {0}) × Executor
  commit w ex = elim (env.fault w.calls) [
    | some e ↦ (err (flattened "commit db txn" e), record ex { calls = suc w.calls })
    | none ↦ (ok tt, record ex { committed = w.db; calls = suc w.calls })
  ]

-- blockScope.Close: what was not committed is gone, and the token is free again.
unfoldable pub close_scope : Executor → Executor
close_scope ex = record ex { token_free = true; open_transactions = ex.open_transactions - 1 }

-- Executor.Close, where the context is done before the token is free if `timeout` says so.
unfoldable pub close_executor : Bool → Executor → Option (Result (Unit {0})) × Executor
close_executor timeout ex =
    if ex.token_free && not timeout
    then (some (ok tt), record ex { closed = true; token_free = false })
    else if timeout
    then (some (err (text "executor was force closed due to timeout")), record ex { closed = true })
    else (none, record ex { closed = true })
