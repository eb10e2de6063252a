-- ===== src/Processor/Blocks.antt =====
-- About executeBlock of pkg/eventprocessor/impl/eventprocessor.go: its commit and its height.
use go_tableland.Prelude.{
  ℤ, leb_ℤ, ◌<ℤ◌, ℕ, suc, String, ◌≡◌, refl, sym, ap, subst, inl, inr, true, false, some, arith,
  Bool-cases, Option-cases,
}
use go_tableland.Errors.{GoError, flattened, Result, ok, err, panic}
use go_tableland.Database.{Db}
use go_tableland.Database.Statements.{select_height, update_height, insert_height}
use go_tableland.Executor.{Env, World, ◌>>=◌, call, ScopeVars}
use go_tableland.Executor.BlockScope.{set_last_processed_height}
use go_tableland.Executor.Scopes.{
  Executor, height_of, get_last_executed, check_height, opened, new_block_scope, commit,
  close_scope,
}
use go_tableland.Executor.Ensures.{Ensures, Ensures-on_error, Ensures-bind}
use go_tableland.Processor.{
  Config, BlockEvents, Processor, execute_body, finish_block, after_hash, hash_then_execute,
  after_open, execute_block,
}

err-ne-ok : (e : GoError) → ¬ (err e ≡ ok (tt {0}))
err-ne-ok e h = cc

panic-ne-ok : (s : String) → ¬ (panic s ≡ ok (tt {0}))
panic-ne-ok s h = cc

module _ (env : Env) (config : Config) (chain_id max_rows : ℕ) where
  -- The end of a block that returns.
  finish_block-ok :
      (block : BlockEvents) (r : Result (Unit {0})) (w : World) (p : Processor)
      → (finish_block env config chain_id max_rows block (r, w) p).0 ≡ ok tt
      → (r ≡ ok tt)
        × ((finish_block env config chain_id max_rows block (r, w) p).1.executor.committed ≡ w.db)
        × ((finish_block env config chain_id max_rows block (r, w) p).1.last_processed_height
            ≡ block.block_number)
  unfolding finish_block commit close_scope
  finish_block-ok block r w p h = ground arith

  finish_block-err :
      (block : BlockEvents) (r : Result (Unit {0})) (w : World) (p : Processor)
      → ¬ ((finish_block env config chain_id max_rows block (r, w) p).0 ≡ ok tt)
      → (finish_block env config chain_id max_rows block (r, w) p).1.executor.committed
        ≡ p.executor.committed
  unfolding finish_block commit close_scope
  finish_block-err block r w p h = ground arith

  finish_block-chain :
      (block : BlockEvents) (r : Result (Unit {0})) (w : World) (p : Processor)
      → (finish_block env config chain_id max_rows block (r, w) p).1.executor.chain_id
        ≡ p.executor.chain_id
  unfolding finish_block commit close_scope
  finish_block-chain block r w p = ground arith

  check_height-ok :
      (chain : ℕ) (n : ℤ) (w : World)
      → (check_height env chain n w).0 ≡ ok tt
      → (leb_ℤ n (height_of (w.db.system_txn_processor chain)) ≡ false)
        × ((check_height env chain n w).1.db ≡ w.db)
  unfolding check_height get_last_executed ◌>>=◌ call select_height
  check_height-ok chain n w = elim (Option-cases (env.fault w.calls)) [
    | inl f ↦ rw (f, call) (λ e. ground arith)
    | inr (x, f) ↦ rw (f, call) (λ e. cc)
  ]

  set_height-ok :
      (vars : ScopeVars) (n : ℤ) (w : World)
      → (set_last_processed_height env vars n w).0 ≡ ok tt
      → (set_last_processed_height env vars n w).1.db.system_txn_processor vars.chain_id ≡ some n
  unfolding set_last_processed_height ◌>>=◌ call update_height insert_height
  set_height-ok vars n w h = ground arith

  new_block_scope-ok :
      (n : ℤ) (ex : Executor) (w : World)
      → (new_block_scope env true n ex).0 ≡ ok w
      → (w.db ≡ ex.committed)
        × (leb_ℤ n (height_of (ex.committed.system_txn_processor ex.chain_id)) ≡ false)
  unfolding new_block_scope opened
  new_block_scope-ok n ex w h =
      ground
        (arith, check_height-ok ex.chain_id n (record { db = ex.committed; calls = suc ex.calls }))

  new_block_scope-chain :
      (n : ℤ) (ex : Executor) → (new_block_scope env true n ex).1.chain_id ≡ ex.chain_id
  unfolding new_block_scope opened
  new_block_scope-chain n ex = ground arith

  new_block_scope-committed :
      (n : ℤ) (ex : Executor) → (new_block_scope env true n ex).1.committed ≡ ex.committed
  unfolding new_block_scope opened
  new_block_scope-committed n ex = ground arith

  HeightIs : ℤ → Db → Type 0
  HeightIs n db = db.system_txn_processor chain_id ≡ some n

  execute_body-HeightIs :
      (block : BlockEvents)
      → Ensures (HeightIs block.block_number) (execute_body env config chain_id max_rows block)
  unfolding execute_body HeightIs
  execute_body-HeightIs block = Ensures-bind _ _ _ λ receipts.
      Ensures-bind _ _ _ λ u.
        Ensures-on_error _ _ _ (record { at = λ w a e. set_height-ok _ block.block_number w e })

  -- What an attempt at a block leaves: the new height is committed and recorded, or nothing is.
  record Attempted (block : BlockEvents) (before : Db) (chain : ℕ)
      (x : Result (Unit {0}) × Processor) : Type 0 where
    advanced :
        x.0 ≡ ok tt
        → HeightIs block.block_number x.1.executor.committed
          × (x.1.last_processed_height ≡ block.block_number)
    kept : ¬ (x.0 ≡ ok tt) → x.1.executor.committed ≡ before
    same_chain : x.1.executor.chain_id ≡ chain

  finish_block-Attempted :
      (block : BlockEvents) (r : Result (Unit {0})) (w : World) (p : Processor)
      → (r ≡ ok tt → HeightIs block.block_number w.db)
      → Attempted block p.executor.committed p.executor.chain_id
          (finish_block env config chain_id max_rows block (r, w) p)
  finish_block-Attempted block r w p h = record {
    advanced = λ e.
        let (o, c, l) = finish_block-ok block r w p e in
        (subst (λ d. HeightIs block.block_number d) (sym c) (h o), l);
    kept = finish_block-err block r w p;
    same_chain = finish_block-chain block r w p;
  }

  body-Attempted :
      (block : BlockEvents) (w : World) (p : Processor)
      → Attempted block p.executor.committed p.executor.chain_id (
          finish_block env config chain_id max_rows block
            (execute_body env config chain_id max_rows block w)
            p)
  body-Attempted block w p =
      finish_block-Attempted block _ _ p ((execute_body-HeightIs block).at w tt)

  after_hash-Attempted :
      (block : BlockEvents) (r : Result String) (w : World) (p : Processor)
      → Attempted block p.executor.committed p.executor.chain_id
          (after_hash env config chain_id max_rows block r w p)
  unfolding after_hash
  after_hash-Attempted block (ok h) w p = body-Attempted block w _
  after_hash-Attempted block (err e) w p =
      finish_block-Attempted block (err (flattened "calculate hash" e)) w p
        (λ x. absurd (err-ne-ok _ x))
  after_hash-Attempted block (panic s) w p =
      finish_block-Attempted block (panic s) w p (λ x. absurd (panic-ne-ok _ x))

  hash_then_execute-Attempted :
      (block : BlockEvents) (w : World) (p : Processor)
      → Attempted block p.executor.committed p.executor.chain_id
          (hash_then_execute env config chain_id max_rows block w p)
  unfolding hash_then_execute
  hash_then_execute-Attempted block w p =
      elim (Bool-cases (leb_ℤ p.next_hash_calc_block_number block.block_number)) [
        | inl e ↦ rw e (after_hash-Attempted block _ _ p)
        | inr e ↦ rw e (body-Attempted block w p)
      ]

  after_open-Attempted :
      (block : BlockEvents) (r : Result World) (p : Processor)
      → Attempted block p.executor.committed p.executor.chain_id
          (after_open env config chain_id max_rows block r p)
  unfolding after_open
  after_open-Attempted block (ok w) p = hash_then_execute-Attempted block w p
  after_open-Attempted block (err e) p = record {
    advanced = λ x. cc;
    kept = λ x. refl;
    same_chain = refl;
  }
  after_open-Attempted block (panic s) p = record {
    advanced = λ x. cc;
    kept = λ x. refl;
    same_chain = refl;
  }

  execute_block-Attempted :
      (block : BlockEvents) (p : Processor)
      → Attempted block p.executor.committed p.executor.chain_id
          (execute_block env config chain_id max_rows block p)
  unfolding execute_block
  execute_block-Attempted block p =
      subst
        (λ d.
          Attempted block d p.executor.chain_id
            (execute_block env config chain_id max_rows block p))
        (new_block_scope-committed block.block_number p.executor)
        (subst
          (λ c.
            Attempted block (new_block_scope env true block.block_number p.executor).1.committed c
              (execute_block env config chain_id max_rows block p))
          (new_block_scope-chain block.block_number p.executor) (after_open-Attempted block _ _))

  -- The height that the committed database records.
  abbrev pub committed_height : Processor → ℤ
  committed_height p = height_of (p.executor.committed.system_txn_processor chain_id)

  after_open-ok :
      (block : BlockEvents) (r : Result World) (p : Processor)
      → (after_open env config chain_id max_rows block r p).0 ≡ ok tt
      → (w : World) × (r ≡ ok w)
  unfolding after_open
  after_open-ok block (ok w) p h = (w, refl)
  after_open-ok block (err e) p h = cc
  after_open-ok block (panic s) p h = cc

  opened_above :
      (block : BlockEvents) (p : Processor)
      → p.executor.chain_id ≡ chain_id
      → (execute_block env config chain_id max_rows block p).0 ≡ ok tt
      → committed_height p <ℤ block.block_number
  unfolding execute_block
  opened_above block p c h =
      let (w, e) = after_open-ok block _ _ h in
      let (d, above) = new_block_scope-ok block.block_number p.executor w e in
      above_lem block.block_number _ (
        subst
          (λ x.
            leb_ℤ block.block_number (height_of (p.executor.committed.system_txn_processor x))
            ≡ false)
          c above)
    where
      above_lem : (n h : ℤ) → leb_ℤ n h ≡ false → h <ℤ n
      above_lem n h e = ground arith

  -- If the executor is of the processor's chain and executeBlock returns without an error, the
  -- block's number is above the height that was committed before (-1 if there was none), and is
  -- the committed height and the recorded last processed height afterwards.
  pub execute_block-Advances :
      (block : BlockEvents) (p : Processor)
      → p.executor.chain_id ≡ chain_id
      → (execute_block env config chain_id max_rows block p).0 ≡ ok tt
      → (committed_height p <ℤ block.block_number)
        × (committed_height (execute_block env config chain_id max_rows block p).1
            ≡ block.block_number)
        × ((execute_block env config chain_id max_rows block p).1.last_processed_height
            ≡ block.block_number)
  unfolding HeightIs height_of
  execute_block-Advances block p c h =
      let (at, last) = (execute_block-Attempted block p).advanced h in
      (opened_above block p c h, ap height_of at, last)

  -- If executeBlock does not return without an error, the committed database is the one from
  -- before.
  pub execute_block-abandoned :
      (block : BlockEvents) (p : Processor)
      → ¬ ((execute_block env config chain_id max_rows block p).0 ≡ ok tt)
      → (execute_block env config chain_id max_rows block p).1.executor.committed
        ≡ p.executor.committed
  execute_block-abandoned block p h = (execute_block-Attempted block p).kept h

  pub execute_block-chain :
      (block : BlockEvents) (p : Processor)
      → (execute_block env config chain_id max_rows block p).1.executor.chain_id
        ≡ p.executor.chain_id
  execute_block-chain block p = (execute_block-Attempted block p).same_chain
