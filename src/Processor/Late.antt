-- ===== src/Processor/Late.antt =====
-- About a block that is not above the processed height (NewBlockScope of
-- pkg/eventprocessor/impl/executor/impl/executor.go) in the retries of startDaemon of
-- pkg/eventprocessor/impl/eventprocessor.go.
use go_tableland.Prelude.{ℤ, ◌≤ℤ◌, ◌≡◌}
use go_tableland.Errors.{Result, ok}
use go_tableland.Executor.{World}
use go_tableland.Executor.Scopes.{Executor, height_of}
use go_tableland.Processor.{Processor}

-- The block of this number is not above the committed height.
abbrev pub Late : ℤ → Executor → Type 0
Late n ex = n ≤ℤ height_of (ex.committed.system_txn_processor ex.chain_id)

-- No scope is opened, and the executor's database and chain are the same.
abbrev Refused : Executor → Result World × Executor → Type 0
Refused ex x =
    ((w : World) → ¬ (x.0 ≡ ok w)) × (x.1.committed ≡ ex.committed) × (x.1.chain_id ≡ ex.chain_id)
