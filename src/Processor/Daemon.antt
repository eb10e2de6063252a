-- ===== src/Processor/Daemon.antt =====
-- About the daemon's loop (startDaemon of pkg/eventprocessor/impl/eventprocessor.go).
use go_tableland.Prelude.{
  some_injective, ℤ, ◌<ℤ◌, ℕ, zero, suc, String, ◌≡◌, refl, sym, ap, ◌∙◌, subst, ◌⊎◌, inl, inr,
  some, List, [], ◌∷◌, Option-cases,
}
use go_tableland.Errors.{GoError, Result, ok, err, panic}
use go_tableland.Database.{Db}
use go_tableland.Executor.{Env}
use go_tableland.Executor.Scopes.{height_of}
use go_tableland.Processor.{Config, BlockEvents, Processor, execute_block, retry_block, run_daemon}
use go_tableland.Processor.Blocks.{
  committed_height, execute_block-Advances, execute_block-abandoned, execute_block-chain,
}

-- The blocks' numbers ascend from a height.
abbrev pub Ascending : ℤ → List BlockEvents → Type 0
Ascending h [] = Unit
Ascending h (b ∷ bs) = (h <ℤ b.block_number) × Ascending b.block_number bs

abbrev pub last_height : ℤ → List BlockEvents → ℤ
last_height h [] = h
last_height h (b ∷ bs) = last_height b.block_number bs

Result-cases :
    {A : Type 0} (r : Result A)
    → ((a : A) × (r ≡ ok a)) ⊎ (((e : GoError) × (r ≡ err e)) ⊎ ((s : String) × (r ≡ panic s)))
Result-cases (ok a) = inl (a, refl)
Result-cases (err e) = inr (inl (e, refl))
Result-cases (panic s) = inr (inr (s, refl))

err-ne-ok : (e : GoError) → ¬ (err e ≡ ok (tt {0}))
err-ne-ok e h = cc

module _ (env : Env) (config : Config) (chain_id max_rows : ℕ) where
  abbrev attempt : BlockEvents → Processor → Result (Unit {0}) × Processor
  attempt block p = execute_block env config chain_id max_rows block p

  succeeded :
      (block : BlockEvents) (p p' : Processor)
      → p.executor.chain_id ≡ chain_id
      → (attempt block p).0 ≡ ok tt
      → some (attempt block p).1 ≡ some p'
      → (committed_height env config chain_id max_rows p <ℤ block.block_number)
        × (committed_height env config chain_id max_rows p' ≡ block.block_number)
        × (p'.executor.chain_id ≡ chain_id)
  succeeded block p p' c e h =
      let (above, at, last) = execute_block-Advances env config chain_id max_rows block p c e in
      let same : (attempt block p).1 ≡ p' = some_injective h in
      (
        above,
        ap (λ (q : Processor). height_of (q.executor.committed.system_txn_processor chain_id))
              (sym same)
            ∙ at,
        ap (λ (q : Processor). q.executor.chain_id) (sym same)
            ∙ execute_block-chain env config chain_id max_rows block p
            ∙ c,
      )

  -- What the retries of one block end in.
  retry_block-Advances :
      (fuel : ℕ) (block : BlockEvents) (p p' : Processor)
      → p.executor.chain_id ≡ chain_id
      → retry_block env config chain_id max_rows fuel block p ≡ some p'
      → (committed_height env config chain_id max_rows p <ℤ block.block_number)
        × (committed_height env config chain_id max_rows p' ≡ block.block_number)
        × (p'.executor.chain_id ≡ chain_id)
  unfolding retry_block
  retry_block-Advances zero block p p' c = λ h. cc
  retry_block-Advances (suc fuel) block p p' c = elim (Result-cases (attempt block p).0) [
    | inl (u, e) ↦ rw (e, retry_block) (λ h. succeeded block p p' c e h)
    | inr (inl (x, e)) ↦
        rw (e, retry_block)
          (λ h.
            let kept : (attempt block p).1.executor.committed ≡ p.executor.committed =
              execute_block-abandoned env config chain_id max_rows block p
                (λ h'. err-ne-ok x (sym e ∙ h')) in
            let (above, at, chain) =
              retry_block-Advances fuel block (attempt block p).1 p'
                (execute_block-chain env config chain_id max_rows block p ∙ c) h in
            (
              subst (λ (d : Db). height_of (d.system_txn_processor chain_id) <ℤ block.block_number)
                  kept above,
              at,
              chain,
            ))
    | inr (inr (s, e)) ↦ rw (e, retry_block) (λ h. cc)
  ]

  -- If the executor is of the processor's chain and the daemon's loop gets through a list of
  -- blocks with the given number of attempts for each, the blocks' numbers ascend strictly from
  -- the height that was committed before, and the height committed at the end is that of the last
  -- block (or the one from before, if there is none).
  pub run_daemon-Ascending :
      (fuel : ℕ) (blocks : List BlockEvents) (p p' : Processor)
      → p.executor.chain_id ≡ chain_id
      → run_daemon env config chain_id max_rows fuel blocks p ≡ some p'
      → Ascending (committed_height env config chain_id max_rows p) blocks
        × (committed_height env config chain_id max_rows p'
            ≡ last_height (committed_height env config chain_id max_rows p) blocks)
  unfolding run_daemon
  run_daemon-Ascending fuel [] p p' c = λ h. (
    tt,
    ap (λ (q : Processor). height_of (q.executor.committed.system_txn_processor chain_id))
        (sym (some_injective h)),
  )
  run_daemon-Ascending fuel (block ∷ blocks) p p' c =
      elim (Option-cases (retry_block env config chain_id max_rows fuel block p)) [
        | inl e ↦ rw (e, run_daemon) (λ h. cc)
        | inr (q, e) ↦
            rw (e, run_daemon)
              (λ h.
                let (above, at, c') = retry_block-Advances fuel block p q c e in
                let (rest, last) = run_daemon-Ascending fuel blocks q p' c' h in
                (
                  (above, subst (λ x. Ascending x blocks) at rest),
                  subst
                      (λ x. committed_height env config chain_id max_rows p' ≡ last_height x blocks)
                      at last,
                ))
      ]
