-- ===== src/Processor.antt =====
-- EventProcessor of pkg/eventprocessor/impl/eventprocessor.go: the execution of a block as one
-- transaction, the pace of the state hash, and the daemon's loop that retries a block.
pub mod Blocks
pub mod Daemon
pub mod Hashes
pub mod Token
pub mod Late
use Prim.Native.Nat.{◌/◌, ◌*◌}
use go_tableland.Prelude.{
  ℤ, pos, negsuc, leb_ℤ, ℕ, zero, suc, ◌+◌, ◌-◌, ◌*◌, ◌/◌, String, Bool, true, false, not, Option,
  none, some, List, [], ◌∷◌, ◌++◌, leb, if◌then◌else◌,
}
use go_tableland.Errors.{flattened, Result, ok, err, panic}
use go_tableland.Executor.{Env, World, M, pure, fail, on_error, ◌>>=◌, ◌>>◌, call, ScopeVars}
use go_tableland.Executor.Events.{TxnEvents, TxnResult}
use go_tableland.Executor.BlockScope.{
  Receipt, unchanged, execute_txn, set_last_processed_height, save_txn_receipts, txn_receipt_exists,
}
use go_tableland.Executor.Scopes.{Executor, new_block_scope, commit, close_scope}

-- eventprocessor.Config, but for the time between two attempts
pub record Config : Type 0 where
  pub dedup_executed_txns : Bool
  pub hash_calc_step : ℕ

-- eventfeed.BlockEvents
pub record BlockEvents : Type 0 where
  pub block_number : ℤ
  pub txns : List TxnEvents

-- The processor's own fields, the executor behind it, and the hashes that it has reported.
pub record Processor : Type 0 where
  pub executor : Executor
  pub next_hash_calc_block_number : ℤ
  pub last_processed_height : ℤ
  pub hashes : List (ℤ × String)

-- nextMultipleOf, y * ((x + y) / y), at x ≥ -1 and y ≥ 1: Go's division rounds towards 0, and the
-- sum is not negative there.
unfoldable pub next_multiple_of : ℤ → ℕ → ℤ
next_multiple_of (pos x) y = pos (y * ((x + y) / y))
next_multiple_of (negsuc k) y = if leb (suc k) y then pos (y * ((y - suc k) / y)) else negsuc 0

module _ (env : Env) (config : Config) (chain_id max_rows : ℕ) where
  abbrev vars_of : BlockEvents → ScopeVars
  vars_of block = record {
    chain_id = chain_id;
    max_table_row_count = max_rows;
    block_number = block.block_number;
  }

  -- calculateHash: reads the state, then hands the metric to telemetry, which may fail.
  unfoldable pub calculate_hash : M String
  calculate_hash = do
    h ←
        on_error (flattened "calculating hash for current block")
          (call env (λ db. (ok (env.state_hash db), db)))
    on_error (flattened "calculating hash for current block") (call env unchanged)
    pure h

  -- The check that the transaction was executed before.
  unfoldable pub is_duplicate : BlockEvents → TxnEvents → M Bool
  is_duplicate block txn =
      if config.dedup_executed_txns
      then on_error (flattened "checking if receipt already exist")
          (txn_receipt_exists env (vars_of block) txn.txn_hash)
      else pure false

  abbrev receipt_of : BlockEvents → ℕ → TxnEvents → TxnResult → Receipt
  receipt_of block idx txn res = record {
    chain_id = chain_id;
    block_number = block.block_number;
    index_in_block = idx;
    txn_hash = txn.txn_hash;
    table_id = res.table_id;
    error = res.error;
    error_event_idx = res.error_event_idx;
  }

  -- One round of the loop: a receipt, unless the transaction is skipped.
  unfoldable pub execute_one : BlockEvents → ℕ → TxnEvents → M (List Receipt)
  execute_one block idx txn = do
    dup ← is_duplicate block txn
    if dup then pure [] else do
      res ← on_error (flattened "executing txn events") (execute_txn env (vars_of block) txn)
      pure (receipt_of block idx txn res ∷ [])

  -- The loop over the transactions, with the receipts so far.
  unfoldable pub execute_txns : BlockEvents → ℕ → List TxnEvents → List Receipt → M (List Receipt)
  execute_txns block idx [] receipts = pure receipts
  execute_txns block idx (txn ∷ txns) receipts = do
    rs ← execute_one block idx txn
    execute_txns block (suc idx) txns (receipts ++ rs)

  -- From the loop to the new height.
  unfoldable pub execute_body : BlockEvents → M (Unit {0})
  execute_body block = do
    receipts ← execute_txns block 0 block.txns []
    on_error (flattened "saving txn receipts") (save_txn_receipts env (vars_of block) receipts)
    on_error (flattened "set new processed height")
        (set_last_processed_height env (vars_of block) block.block_number)

  -- The scope's transaction is done: commit it, and record the height.
  unfoldable pub finish_block :
      BlockEvents → Result (Unit {0}) × World → Processor → Result (Unit {0}) × Processor
  finish_block block (err e, w) p =
      (err e, record p { executor = close_scope (record p.executor { calls = w.calls }) })
  finish_block block (panic s, w) p =
      (panic s, record p { executor = close_scope (record p.executor { calls = w.calls }) })
  finish_block block (ok u, w) p =
      let (r, ex) = commit env w p.executor in
      elim r [
        | ok v ↦ (
          ok tt,
          record p { executor = close_scope ex; last_processed_height = block.block_number },
        )
        | err e ↦ (err (flattened "committing changes" e), record p { executor = close_scope ex })
        | panic s ↦ (panic s, record p { executor = close_scope ex })
      ]

  -- After the hash: it is reported, and the next one is set, whatever becomes of the block.
  unfoldable pub after_hash :
      BlockEvents → Result String → World → Processor → Result (Unit {0}) × Processor
  unfolding execute_body finish_block
  after_hash block (ok h) w p = finish_block block (execute_body block w) (record p {
    next_hash_calc_block_number = next_multiple_of block.block_number config.hash_calc_step;
    hashes = p.hashes ++ ((block.block_number, h) ∷ []);
  })
  after_hash block (err e) w p = finish_block block (err (flattened "calculate hash" e), w) p
  after_hash block (panic s) w p = finish_block block (panic s, w) p

  -- The hash is calculated first where it is due.
  unfoldable pub hash_then_execute : BlockEvents → World → Processor → Result (Unit {0}) × Processor
  unfolding calculate_hash execute_body finish_block after_hash
  hash_then_execute block w p =
      if leb_ℤ p.next_hash_calc_block_number block.block_number
      then (let (r, w') = calculate_hash w in after_hash block r w' p)
      else finish_block block (execute_body block w) p

  -- The scope is open, or the block is given up.
  unfoldable pub after_open : BlockEvents → Result World → Processor → Result (Unit {0}) × Processor
  unfolding hash_then_execute
  after_open block (ok w) p = hash_then_execute block w p
  after_open block (err e) p = (err (flattened "opening block scope" e), p)
  after_open block (panic s) p = (panic s, p)

  -- executeBlock
  unfoldable pub execute_block : BlockEvents → Processor → Result (Unit {0}) × Processor
  unfolding after_open
  execute_block block p =
      let (r, ex) = new_block_scope env true block.block_number p.executor in
      after_open block r (record p { executor = ex })

  -- The retry loop of startDaemon for one block; `none` means that it still retries after `fuel`
  -- attempts.
  unfoldable pub retry_block : ℕ → BlockEvents → Processor → Option Processor
  unfolding execute_block
  retry_block zero block p = none
  retry_block (suc fuel) block p =
      let (r, p') = execute_block block p in
      let rest = retry_block fuel block p' in
      elim r [ ok u ↦ some p' | err e ↦ rest | panic s ↦ none ]

  -- The daemon's loop over the feed's blocks.
  unfoldable pub run_daemon : ℕ → List BlockEvents → Processor → Option Processor
  unfolding retry_block
  run_daemon fuel [] p = some p
  run_daemon fuel (block ∷ blocks) p = elim (retry_block fuel block p) [
    | none ↦ none
    | some p' ↦ run_daemon fuel blocks p'
  ]
