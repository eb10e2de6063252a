-- ===== src/Feed/Again.antt =====
-- About a second persistEvents of the same logs (pkg/eventprocessor/eventfeed/impl/eventfeed.go).
use mathlib.Core.List.{append-nil}
use go_tableland.Prelude.{
  ℕ, String, ◌≡◌, refl, sym, ap, ◌∙◌, subst, ◌≢◌, ◌⊎◌, inl, inr, Bool, true, false, ◌&&◌, ◌||◌,
  Option, List, [], ◌∷◌, ◌++◌, arith, eq_refl, str_eq, ◌==◌, All,
}
use go_tableland.Errors.{GoError, Result, ok, err, panic}
use go_tableland.Executor.Events.{Event}
use go_tableland.Feed.{Log}
use go_tableland.Feed.Persist.{EvmEvent, Encoder, has_events, evm_event, persist_events}
use go_tableland.Feed.Saved.{Rows}
use go_tableland.Feed.Persisted.{persist_events-ok, persist_events-kept}
use go_tableland.Steps.{Calls}

has_events-append :
    (chain : ℕ) (h : String) (xs ys : List EvmEvent)
    → has_events chain h (xs ++ ys) ≡ (has_events chain h xs || has_events chain h ys)
unfolding has_events
has_events-append chain h [] ys = refl
has_events-append chain h (x ∷ xs) ys = rw (has_events-append chain h xs ys) (
    or_assoc ((x.chain_id == chain) && str_eq x.tx_hash h) (has_events chain h xs)
      (has_events chain h ys))
  where
    or_assoc : (a b c : Bool) → (a || (b || c)) ≡ ((a || b) || c)
    or_assoc true b c = refl
    or_assoc false b c = refl

or-true : (a b c : Bool) → (a || b) ≡ true → (a || (c || b)) ≡ true
or-true true b c h = refl
or-true false b true h = refl
or-true false b false h = h

or-right : (a b : Bool) → b ≡ true → (a || b) ≡ true
or-right true b h = refl
or-right false b h = h

and_true : (a b : Bool) → a ≡ true → b ≡ true → (a && b) ≡ true
and_true true true h k = refl
and_true true false h k = k
and_true false b h k = h

or_left : (a b : Bool) → a ≡ true → (a || b) ≡ true
or_left true b h = refl
or_left false b h = absurd (cc)

own : (n : ℕ) → (n == n) ≡ true
own n = ground arith

true-ne-false : true ≢ false
true-ne-false h = cc

ok-or-not : (r : Result (Unit {0})) → (r ≡ ok tt) ⊎ (¬ (r ≡ ok tt))
ok-or-not (ok u) = inl refl
ok-or-not (err e) = inr (λ h. cc)
ok-or-not (panic s) = inr (λ h. cc)

Seen : ℕ → List EvmEvent → Log × Event → Type 0
Seen chain rows (l, ev) = has_events chain l.tx_hash rows ≡ true

module _ (encoder : Encoder) (chain : ℕ) (before : List EvmEvent) where
  Seen-add :
      (x : EvmEvent) (rows : List EvmEvent) (logs : List (Log × Event))
      → All (Seen chain (before ++ rows)) logs
      → All (Seen chain (before ++ (x ∷ rows))) logs
  unfolding Seen has_events
  Seen-add x rows [] a = tt
  Seen-add x rows ((l, e) ∷ rest) (s, a) = (
    has_events-append chain l.tx_hash before (x ∷ rows)
        ∙ or-true (has_events chain l.tx_hash before) (has_events chain l.tx_hash rows) _
            (sym (has_events-append chain l.tx_hash before rows) ∙ s),
    Seen-add x rows rest a,
  )

  Rows-Seen :
      {logs : List (Log × Event)} {rows : List EvmEvent}
      → Rows encoder chain before logs rows
      → All (Seen chain (before ++ rows)) logs
  unfolding Seen has_events evm_event
  Rows-Seen Rows.no_logs = tt
  Rows-Seen (Rows.skip l e rest rows h r) =
      (has_events-append chain l.tx_hash before rows ∙ or_left _ _ h, Rows-Seen r)
  Rows-Seen (Rows.add l e json topics rest rows h j t r) = (
    has_events-append chain l.tx_hash before _
        ∙ or-right (has_events chain l.tx_hash before) _
            (or_left _ _ (and_true _ _ (own chain) (eq_refl l.tx_hash))),
    Seen-add (evm_event encoder chain l e json topics) rows rest (Rows-Seen r),
  )

  Rows-none :
      {logs : List (Log × Event)} {rows : List EvmEvent}
      → Rows encoder chain before logs rows
      → All (Seen chain before) logs
      → rows ≡ []
  unfolding Seen
  Rows-none Rows.no_logs a = refl
  Rows-none (Rows.skip l e rest rows h r) (s, a) = Rows-none r a
  Rows-none (Rows.add l e json topics rest rows h j t r) (s, a) = absurd (true-ne-false (sym s ∙ h))

-- If persistEvents has returned without an error, a second call with the same logs on the rows
-- that it left changes none of them, whatever calls fail in it.
pub persist_events-again :
    (fault fault' : ℕ → Option GoError) (encoder encoder' : Encoder) (chain : ℕ)
    (logs : List (Log × Event)) (w w' : Calls (List EvmEvent))
    → (persist_events fault encoder chain logs w).0 ≡ ok tt
    → w'.state ≡ (persist_events fault encoder chain logs w).1.state
    → (persist_events fault' encoder' chain logs w').1.state ≡ w'.state
persist_events-again fault fault' encoder encoder' chain logs w w' h at =
    let (rows, spec, eq) = persist_events-ok fault encoder chain logs w h in
    let seen =
      subst (λ x. All (Seen chain x) logs) (sym (at ∙ eq)) (Rows-Seen encoder chain w.state spec) in
    elim (ok-or-not (persist_events fault' encoder' chain logs w').0) [
      | inl e ↦
          let (rows', spec', eq') = persist_events-ok fault' encoder' chain logs w' e in
          eq'
          ∙ ap (λ x. w'.state ++ x) (Rows-none encoder' chain w'.state spec' seen)
          ∙ append-nil _
      | inr e ↦ persist_events-kept fault' encoder' chain logs w' e
    ]
