-- ===== src/Feed/Persisted.antt =====
-- About persistEvents of pkg/eventprocessor/eventfeed/impl/eventfeed.go.
use mathlib.Core.List.{append_assoc, append-nil}
use go_tableland.Prelude.{
  ℕ, suc, String, ◌≡◌, refl, sym, ap, ◌∙◌, subst, Bool, true, false, Option, List, [], ◌∷◌, ◌++◌,
  if◌then◌else◌,
}
use go_tableland.Errors.{GoError, flattened, ok, ok_injective}
use go_tableland.Executor.Events.{Event}
use go_tableland.Feed.{Log}
use go_tableland.Feed.Persist.{
  EvmEvent, Encoder, has_events, cached, known, make_row, collect_rows, save_evm_events,
  persist_events,
}
use go_tableland.Feed.Saved.{Rows, CacheOk, known-ok, make_row-ok, save_evm_events-ok}
use go_tableland.Steps.{
  Calls, Run, pure, on_error, bind-ok, on_error-ok, transaction-ok, transaction-kept,
}

module _ (fault : ℕ → Option GoError) (encoder : Encoder) (chain : ℕ) where
  -- What one log adds to the rows.
  abbrev new_row : Bool → Log → Event → Run (List EvmEvent) (List EvmEvent)
  new_row found l ev = if found then pure [] else make_row fault encoder chain l ev

  new_row-ok :
      (found : Bool) (l : Log) (ev : Event) (w : Calls (List EvmEvent)) (new : List EvmEvent)
      (before : List EvmEvent)
      → found ≡ has_events chain l.tx_hash before
      → (new_row found l ev w).0 ≡ ok new
      → ((rest : List (Log × Event)) (rows : List EvmEvent)
          → Rows encoder chain before rest rows
          → Rows encoder chain before ((l, ev) ∷ rest) (new ++ rows))
        × ((new_row found l ev w).1.state ≡ w.state)
  unfolding pure
  new_row-ok true l ev w new before b e = (
    (λ rest rows r.
        subst (λ x. Rows encoder chain before ((l, ev) ∷ rest) (x ++ rows)) (ok_injective e)
          (Rows.skip l ev rest rows (sym b) r)),
    refl,
  )
  new_row-ok false l ev w new before b e =
      let (json, topics, j, t, at, kept) = make_row-ok fault encoder chain l ev w new e in
      (
        (λ rest rows r.
            subst (λ x. Rows encoder chain before ((l, ev) ∷ rest) (x ++ rows)) (sym at)
              (Rows.add l ev json topics rest rows (sym b) j t r)),
        kept,
      )

  collect_rows-ok :
      (cache : List (String × Bool)) (logs : List (Log × Event)) (rows before : List EvmEvent)
      (w : Calls (List EvmEvent)) (out : List EvmEvent)
      → CacheOk chain before cache
      → w.state ≡ before
      → (collect_rows fault encoder chain cache logs rows w).0 ≡ ok out
      → (new : List EvmEvent) × (out ≡ rows ++ new)
        × Rows encoder chain before logs new
        × ((collect_rows fault encoder chain cache logs rows w).1.state ≡ before)
  unfolding collect_rows pure
  collect_rows-ok cache [] rows before w out inv st e =
      ([], sym (ok_injective e) ∙ sym (append-nil rows), Rows.no_logs, st)
  collect_rows-ok cache ((l, ev) ∷ rest) rows before w out inv st e =
      let (found, k, at) = bind-ok (known fault encoder chain l.tx_hash cache) _ w out e in
      let (b, inv', s) =
        known-ok fault encoder chain l.tx_hash cache w found
          (subst (λ x. CacheOk chain x cache) (sym st) inv) k in
      let w' = (known fault encoder chain l.tx_hash cache w).1 in
      let (new, n, at') =
        bind-ok (new_row found.0 l ev)
          (λ x. collect_rows fault encoder chain found.1 rest (rows ++ x)) w' out
          (ap (λ r. r.0) (sym at) ∙ e) in
      let (row, s') =
        new_row-ok found.0 l ev w' new before (b ∙ ap (has_events chain l.tx_hash) st) n in
      let (more, eq, spec, last) =
        collect_rows-ok found.1 rest (rows ++ new) before (new_row found.0 l ev w').1 out
          (subst (λ x. CacheOk chain x found.1) st inv') (s' ∙ s ∙ st)
          (ap (λ r. r.0) (sym (at ∙ at')) ∙ e) in
      (
        new ++ more,
        eq ∙ append_assoc rows new more,
        row rest more spec,
        ap (λ r. r.1.state) (at ∙ at') ∙ last,
      )

  -- If persistEvents returns without an error, the stored events are those from before, followed
  -- by one row for every log whose transaction had no stored event before, in the order of the
  -- logs and with the texts that the encoder gives.
  pub persist_events-ok :
      (logs : List (Log × Event)) (w : Calls (List EvmEvent))
      → (persist_events fault encoder chain logs w).0 ≡ ok tt
      → (new : List EvmEvent) × Rows encoder chain w.state logs new
        × ((persist_events fault encoder chain logs w).1.state ≡ w.state ++ new)
  unfolding persist_events on_error cached
  persist_events-ok logs w e =
      let (done, kept) = transaction-ok fault _ w tt e in
      let (rows, c, at) = bind-ok (collect_rows fault encoder chain [] logs []) _ _ tt done in
      let (new, eq, spec, same) =
        collect_rows-ok [] logs [] w.state (record w { calls = suc w.calls }) rows (λ h b x. cc)
          refl c in
      let saved = save_evm_events-ok fault encoder chain rows _ (
        on_error-ok (flattened "persisting events") (save_evm_events fault encoder chain rows) _ tt
          (ap (λ r. r.0) (sym at) ∙ done)) in
      (
        new,
        spec,
        kept
            ∙ ap (λ r. r.1.state) at
            ∙ saved
            ∙ ap (λ x. x ++ rows) same
            ∙ ap (λ x. w.state ++ x) eq,
      )

  -- If persistEvents does not return without an error, the stored events are those from before.
  pub persist_events-kept :
      (logs : List (Log × Event)) (w : Calls (List EvmEvent))
      → ¬ ((persist_events fault encoder chain logs w).0 ≡ ok tt)
      → (persist_events fault encoder chain logs w).1.state ≡ w.state
  unfolding persist_events
  persist_events-kept logs w h = transaction-kept fault _ w (λ u e. h e)
