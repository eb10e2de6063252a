-- ===== src/Processor/Token.antt =====
-- About the token and the open transactions of pkg/eventprocessor/impl/executor/impl/executor.go.
use go_tableland.Prelude.{
  ℤ, leb_ℤ, ◌≤ℤ◌, ℕ, suc, ◌-◌, String, ◌≡◌, refl, inl, inr, true, false, none, arith, if◌then◌else◌,
  Bool-cases, Option-cases,
}
use go_tableland.Errors.{GoError, text, flattened, Result, ok, err, panic}
use go_tableland.Database.Statements.{select_height}
use go_tableland.Executor.{Env, World, pure, fail, on_error, ◌>>=◌, call}
use go_tableland.Executor.Scopes.{
  Executor, height_of, get_last_executed, check_height, opened, new_block_scope, commit,
  close_scope,
}
use go_tableland.Processor.{
  Config, BlockEvents, Processor, finish_block, after_hash, hash_then_execute, after_open,
  execute_block,
}

module _ (env : Env) (config : Config) (chain_id max_rows : ℕ) where
  abbrev attempt : BlockEvents → Processor → Result (Unit {0}) × Processor
  attempt block p = execute_block env config chain_id max_rows block p

  -- Whatever the scope's transaction comes to, the token is handed back and the transaction closed.
  finish_block-token :
      (block : BlockEvents) (r : Result (Unit {0})) (w : World) (p : Processor)
      → ((finish_block env config chain_id max_rows block (r, w) p).1.executor.token_free ≡ true)
        × ((finish_block env config chain_id max_rows block (r, w) p).1.executor.open_transactions
            ≡ p.executor.open_transactions - 1)
  unfolding finish_block commit close_scope
  finish_block-token block r w p = ground arith

  late_lem :
      (n last : ℤ) (w : World)
      → n ≤ℤ last
      → (e : GoError) × (((if leb_ℤ n last
              then fail (text "latest executed block isn't smaller than new block")
              else pure tt)
            w).0
          ≡ err e)
  unfolding pure fail
  late_lem n last w h = elim (Bool-cases (leb_ℤ n last)) [
    | inl e ↦ rw e (text "latest executed block isn't smaller than new block", refl)
    | inr e ↦ absurd (ground (arith, e, h))
  ]

  check_height-late :
      (n : ℤ) (chain : ℕ) (w : World)
      → env.fault w.calls ≡ none
      → n ≤ℤ height_of (w.db.system_txn_processor chain)
      → (e : GoError) × ((check_height env chain n w).0 ≡ err e)
  unfolding check_height get_last_executed select_height ◌>>=◌ call on_error pure fail
  check_height-late n chain w f h =
      rw (f, call)
        (late_lem n (height_of (w.db.system_txn_processor chain)) (record w { calls = suc w.calls })
          h)

  opened-late :
      (n : ℤ) (w : World) (ex : Executor) (e : GoError)
      → (check_height env ex.chain_id n w).0 ≡ err e
      → ((opened env n w ex).0 ≡ err e)
        × ((opened env n w ex).1.open_transactions ≡ suc ex.open_transactions)
        × ((opened env n w ex).1.token_free ≡ true)
  unfolding opened
  opened-late n w ex e h = rw (h, opened) (refl, refl, refl)

  new_block_scope-late :
      (n : ℤ) (ex : Executor)
      → ex.token_free ≡ true
      → ex.closed ≡ false
      → env.fault ex.calls ≡ none
      → env.fault (suc ex.calls) ≡ none
      → n ≤ℤ height_of (ex.committed.system_txn_processor ex.chain_id)
      → ((e : GoError) × ((new_block_scope env true n ex).0 ≡ err e))
        × ((new_block_scope env true n ex).1.open_transactions ≡ suc ex.open_transactions)
        × ((new_block_scope env true n ex).1.token_free ≡ true)
  unfolding new_block_scope opened
  new_block_scope-late n ex t c f g h =
      let w : World = record { db = ex.committed; calls = suc ex.calls } in
      let (e, r) = check_height-late n ex.chain_id w g h in
      let (failed, left, free) = opened-late n w ex e r in rw (t, c, f) ((e, failed), left, free)

  -- A scope that does not open ends the attempt.
  failed_open :
      (block : BlockEvents) (r : Result World) (e : GoError) (p : Processor)
      → r ≡ err e
      → (x : GoError) × (after_open env config chain_id max_rows block r p ≡ (err x, p))
  unfolding after_open
  failed_open block r e p h = rw (h, after_open) (flattened "opening block scope" e, refl)

  -- Where the token is free, the executor is not closed and the first two calls of the database
  -- do not fail, an attempt at a block that is not above the committed height fails with an
  -- error, hands the token back, and leaves one more transaction open.
  pub execute_block-late :
      (block : BlockEvents) (p : Processor)
      → p.executor.token_free ≡ true
      → p.executor.closed ≡ false
      → env.fault p.executor.calls ≡ none
      → env.fault (suc p.executor.calls) ≡ none
      → block.block_number
        ≤ℤ height_of (p.executor.committed.system_txn_processor p.executor.chain_id)
      → ((e : GoError) × ((attempt block p).0 ≡ err e))
        × ((attempt block p).1.executor.open_transactions ≡ suc p.executor.open_transactions)
        × ((attempt block p).1.executor.token_free ≡ true)
  unfolding execute_block
  execute_block-late block p t c f g h =
      let ((e, failed), left, free) =
        new_block_scope-late block.block_number p.executor t c f g h in
      let (x, same) =
        failed_open block _ e
          (record p { executor = (new_block_scope env true block.block_number p.executor).1 })
          failed in
      rw same ((x, refl), left, free)

  check_height-no_panic :
      (n : ℤ) (chain : ℕ) (w : World) (s : String) → ¬ ((check_height env chain n w).0 ≡ panic s)
  unfolding check_height get_last_executed select_height ◌>>=◌ call on_error pure fail
  check_height-no_panic n chain w s = elim (Option-cases (env.fault w.calls)) [
    | inl f ↦ rw (f, call) (λ h. ground (arith, h))
    | inr (x, f) ↦ rw (f, call) (λ h. cc)
  ]

  opened-token :
      (n : ℤ) (w : World) (ex : Executor) (r : Result (Unit {0}))
      → (check_height env ex.chain_id n w).0 ≡ r
      → ((v : World) → ¬ ((opened env n w ex).0 ≡ ok v))
      → (opened env n w ex).1.token_free ≡ true
  unfolding opened
  opened-token n w ex (ok u) e = rw (e, opened) (λ h. absurd (h _ refl))
  opened-token n w ex (err x) e = rw (e, opened) (λ h. refl)
  opened-token n w ex (panic s) e = absurd (check_height-no_panic n ex.chain_id w s e)

  new_block_scope-token :
      (n : ℤ) (ex : Executor)
      → ex.token_free ≡ true
      → ((w : World) → ¬ ((new_block_scope env true n ex).0 ≡ ok w))
      → (new_block_scope env true n ex).1.token_free ≡ true
  unfolding new_block_scope
  new_block_scope-token n ex t = elim (Bool-cases ex.closed) [
    | inl c ↦ rw (t, c) (λ h. refl)
    | inr c ↦ elim (Option-cases (env.fault ex.calls)) [
      | inl f ↦
          rw (t, c, f)
            (λ h. opened-token n (record { db = ex.committed; calls = suc ex.calls }) ex _ refl h)
      | inr (x, f) ↦ rw (t, c, f) (λ h. t)
    ]
  ]

  after_hash-token :
      (block : BlockEvents) (r : Result String) (w : World) (p : Processor)
      → (after_hash env config chain_id max_rows block r w p).1.executor.token_free ≡ true
  unfolding after_hash
  after_hash-token block (ok h) w p = (finish_block-token block _ _ _).0
  after_hash-token block (err e) w p =
      (finish_block-token block (err (flattened "calculate hash" e)) w p).0
  after_hash-token block (panic s) w p = (finish_block-token block (panic s) w p).0

  hash_then_execute-token :
      (block : BlockEvents) (w : World) (p : Processor)
      → (hash_then_execute env config chain_id max_rows block w p).1.executor.token_free ≡ true
  unfolding hash_then_execute
  hash_then_execute-token block w p =
      elim (Bool-cases (leb_ℤ p.next_hash_calc_block_number block.block_number)) [
        | inl e ↦ rw e (after_hash-token block _ _ p)
        | inr e ↦ rw e ((finish_block-token block _ _ _).0)
      ]

  after_open-token :
      (block : BlockEvents) (r : Result World) (p : Processor)
      → (((w : World) → ¬ (r ≡ ok w)) → p.executor.token_free ≡ true)
      → (after_open env config chain_id max_rows block r p).1.executor.token_free ≡ true
  unfolding after_open
  after_open-token block (ok w) p h = hash_then_execute-token block w p
  after_open-token block (err e) p h = h (λ w x. cc)
  after_open-token block (panic s) p h = h (λ w x. cc)

  -- If the token of the block scopes is free before an attempt at a block, it is free after it,
  -- however the attempt ends.
  pub execute_block-token :
      (block : BlockEvents) (p : Processor)
      → p.executor.token_free ≡ true
      → (attempt block p).1.executor.token_free ≡ true
  unfolding execute_block
  execute_block-token block p t =
      after_open-token block _ _ (new_block_scope-token block.block_number p.executor t)
