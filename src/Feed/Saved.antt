-- ===== src/Feed/Saved.antt =====
-- About the steps of persistEvents in pkg/eventprocessor/eventfeed/impl/eventfeed.go.
use mathlib.Core.List.{append_assoc, append-nil}
use go_tableland.Prelude.{
  ℕ, String, ◌≡◌, refl, sym, ap, ◌∙◌, subst, inl, inr, Bool, true, false, Option, some, List, [],
  ◌∷◌, ◌++◌, arith, str_eq, Bool-cases, Option-cases, str_eq_sound,
}
use go_tableland.Errors.{GoError, flattened, ok, ok_injective}
use go_tableland.Executor.Events.{Event}
use go_tableland.Feed.{Log}
use go_tableland.Feed.Persist.{
  EvmEvent, Encoder, has_events, has_key, insert_evm_event, cached, evm_event,
  are_evm_events_persisted, look_up, known, make_row, save_evm_events,
}
use go_tableland.Steps.{Calls, pure, lift, on_error, bind-ok, call-ok, on_error-ok}

module _ (encoder : Encoder) (chain : ℕ) where
  -- The rows of the logs whose transaction had none.
  pub data Rows (before : List EvmEvent) : List (Log × Event) → List EvmEvent → Type 0 where
    no_logs : Rows before [] []
    skip :
        (l : Log) (e : Event) (rest : List (Log × Event)) (rows : List EvmEvent)
        → has_events chain l.tx_hash before ≡ true
        → Rows before rest rows
        → Rows before ((l, e) ∷ rest) rows
    add :
        (l : Log) (e : Event) (json topics : String) (rest : List (Log × Event))
        (rows : List EvmEvent)
        → has_events chain l.tx_hash before ≡ false
        → encoder.marshal_event e ≡ ok json
        → encoder.marshal_topics l.topics ≡ ok topics
        → Rows before rest rows
        → Rows before ((l, e) ∷ rest) (evm_event encoder chain l e json topics ∷ rows)

pub insert_evm_event-ok :
    (e : EvmEvent) (rows : List EvmEvent)
    → (insert_evm_event e rows).0 ≡ ok tt
    → (insert_evm_event e rows).1 ≡ rows ++ (e ∷ [])
unfolding insert_evm_event
insert_evm_event-ok e rows = elim (Bool-cases (has_key e rows)) [
  | inl s ↦ rw (s, insert_evm_event) (λ h. cc)
  | inr s ↦ rw (s, insert_evm_event) (λ h. refl)
]

-- What the map says is what the table says.
abbrev pub CacheOk : ℕ → List EvmEvent → List (String × Bool) → Type 0
CacheOk chain rows cache =
    (h : String) (b : Bool) → cached h cache ≡ some b → b ≡ has_events chain h rows

module _ (fault : ℕ → Option GoError) (encoder : Encoder) (chain : ℕ) where
  are_evm_events_persisted-ok :
      (h : String) (w : Calls (List EvmEvent)) (b : Bool)
      → (are_evm_events_persisted fault encoder chain h w).0 ≡ ok b
      → (b ≡ has_events chain h w.state)
        × ((are_evm_events_persisted fault encoder chain h w).1.state ≡ w.state)
  unfolding are_evm_events_persisted
  are_evm_events_persisted-ok h w b e =
      let (r, s) =
        call-ok fault (flattened "evm txn events lookup")
          (λ rows. (ok (has_events chain h rows), rows)) w b e in
      (ground arith, s)

  pub cached-cons :
      (rows : List EvmEvent) (h : String) (b : Bool) (cache : List (String × Bool))
      → b ≡ has_events chain h rows
      → CacheOk chain rows cache
      → CacheOk chain rows ((h, b) ∷ cache)
  unfolding cached
  cached-cons rows h b cache eq inv k c = elim (Bool-cases (str_eq h k)) [
    | inl s ↦ rw (s, cached) (λ e. rw (sym (str_eq_sound h k s)) cc)
    | inr s ↦ rw (s, cached) (λ e. inv k c e)
  ]

  look_up-ok :
      (h : String) (cache : List (String × Bool)) (w : Calls (List EvmEvent))
      (r : Bool × List (String × Bool))
      → CacheOk chain w.state cache
      → (look_up fault encoder chain h cache w).0 ≡ ok r
      → (r.0 ≡ has_events chain h w.state)
        × CacheOk chain w.state r.1
        × ((look_up fault encoder chain h cache w).1.state ≡ w.state)
  unfolding look_up pure on_error
  look_up-ok h cache w r inv e =
      let f = flattened "check if evm txn events are persisted" in
      let m = are_evm_events_persisted fault encoder chain h in
      let (b, got, at) = bind-ok (on_error f m) (λ b. pure (b, (h, b) ∷ cache)) w r e in
      let (eq, kept) = are_evm_events_persisted-ok h w b (on_error-ok f m w b got) in
      let same : (b, (h, b) ∷ cache) ≡ r = ok_injective (ap (λ x. x.0) (sym at) ∙ e) in
      subst
        (λ (x : Bool × List (String × Bool)).
          (x.0 ≡ has_events chain h w.state)
          × CacheOk chain w.state x.1
          × ((look_up fault encoder chain h cache w).1.state ≡ w.state))
        same (eq, cached-cons w.state h b cache eq inv, ap (λ x. x.1.state) at ∙ kept)

  pub known-ok :
      (h : String) (cache : List (String × Bool)) (w : Calls (List EvmEvent))
      (r : Bool × List (String × Bool))
      → CacheOk chain w.state cache
      → (known fault encoder chain h cache w).0 ≡ ok r
      → (r.0 ≡ has_events chain h w.state)
        × CacheOk chain w.state r.1
        × ((known fault encoder chain h cache w).1.state ≡ w.state)
  unfolding known pure
  known-ok h cache w r inv = elim (Option-cases (cached h cache)) [
    | inr (b, f) ↦
        rw (f, known)
          (λ e.
            subst
              (λ (x : Bool × List (String × Bool)).
                (x.0 ≡ has_events chain h w.state)
                × CacheOk chain w.state x.1
                × (w.state ≡ w.state))
              (ok_injective e) (inv h b f, inv, refl))
    | inl f ↦ rw (f, known) (λ e. look_up-ok h cache w r inv e)
  ]

  pub make_row-ok :
      (l : Log) (ev : Event) (w : Calls (List EvmEvent)) (r : List EvmEvent)
      → (make_row fault encoder chain l ev w).0 ≡ ok r
      → (json : String) × (topics : String) × (encoder.marshal_event ev ≡ ok json)
        × (encoder.marshal_topics l.topics ≡ ok topics)
        × (r ≡ evm_event encoder chain l ev json topics ∷ [])
        × ((make_row fault encoder chain l ev w).1.state ≡ w.state)
  unfolding make_row pure on_error lift
  make_row-ok l ev w r e =
      let (json, j, at) = bind-ok _ _ w r e in
      let (topics, t, at2) = bind-ok _ _ w r (ap (λ x. x.0) (sym at) ∙ e) in
      let (u, c, at3) = bind-ok _ _ w r (ap (λ x. x.0) (sym at2) ∙ ap (λ x. x.0) (sym at) ∙ e) in
      (
        json,
        topics,
        on_error-ok (flattened "marshaling event") (lift (encoder.marshal_event ev)) w json j,
        on_error-ok (flattened "marshaling topics array") (lift (encoder.marshal_topics l.topics)) w
            topics t,
        ok_injective (sym e ∙ ap (λ x. x.0) (at ∙ at2 ∙ at3)),
        ap (λ x. x.1.state) (at ∙ at2 ∙ at3)
            ∙ (call-ok fault (flattened "collecting new tableland event metric")
                (λ rows. (ok tt, rows)) w tt c).1,
      )

  pub save_evm_events-ok :
      (es : List EvmEvent) (w : Calls (List EvmEvent))
      → (save_evm_events fault encoder chain es w).0 ≡ ok tt
      → (save_evm_events fault encoder chain es w).1.state ≡ w.state ++ es
  unfolding save_evm_events pure insert_evm_event on_error
  save_evm_events-ok [] w e = sym (append-nil _)
  save_evm_events-ok (x ∷ es) w e =
      let (u, c, at) = bind-ok _ _ w tt e in
      let (inserted, s) =
        call-ok fault (flattened "insert evm event") (insert_evm_event x) w tt c in
      let rest = save_evm_events-ok es _ (ap (λ r. r.0) (sym at) ∙ e) in
      ap (λ r. r.1.state) at
      ∙ rest
      ∙ ap (λ rows. rows ++ es) (s ∙ insert_evm_event-ok x w.state inserted)
      ∙ append_assoc w.state (x ∷ []) es
