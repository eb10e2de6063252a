-- ===== src/Steps.antt =====
-- Computations over a state that calls of outside services change: the error monad of the components
-- beside the executor. A call by its number may fail for a reason of the service's own.
use go_tableland.Prelude.{ℕ, suc, ◌≡◌, refl, inl, inr, Option, none, some, arith, Option-cases}
use go_tableland.Errors.{GoError, flattened, Result, ok, err, panic}

pub record Calls (S : Type 0) : Type 0 where
  pub state : S
  pub calls : ℕ

abbrev pub Run : Type 0 → Type 0 → Type 0
Run S A = Calls S → Result A × Calls S

abbrev pub map_error : {A : Type 0} → (GoError → GoError) → Result A → Result A
map_error f (ok a) = ok a
map_error f (err e) = err (f e)
map_error f (panic s) = panic s

module _ {S : Type 0} where
  unfoldable pub pure : {A : Type 0} → A → Run S A
  pure a w = (ok a, w)

  unfoldable pub fail : {A : Type 0} → GoError → Run S A
  fail e w = (err e, w)

  unfoldable pub lift : {A : Type 0} → Result A → Run S A
  lift r w = (r, w)

  unfoldable pub on_error : {A : Type 0} → (GoError → GoError) → Run S A → Run S A
  on_error f m w = let (r, w') = m w in (map_error f r, w')

  abbrev pub continue : {A B : Type 0} → Result A → (A → Run S B) → Run S B
  continue (ok a) f w = f a w
  continue (err e) f w = (err e, w)
  continue (panic s) f w = (panic s, w)

  infixl 5 ◌>>=◌ ◌>>◌
  unfoldable pub ◌>>=◌ : {A B : Type 0} → Run S A → (A → Run S B) → Run S B
  unfolding pure fail lift on_error
  ◌>>=◌ m f w = let (r, w') = m w in continue r f w'

  abbrev pub ◌>>◌ : {A B : Type 0} → Run S A → Run S B → Run S B
  m >> k = m >>= λ _. k

  -- One call: it fails with no effect, or runs.
  unfoldable pub call : (ℕ → Option GoError) → {A : Type 0} → (S → Result A × S) → Run S A
  call fault statement w = elim (fault w.calls) [
    | some e ↦ (err e, record w { calls = suc w.calls })
    | none ↦ let (r, s) = statement w.state in (r, record { state = s; calls = suc w.calls })
  ]

  -- A database transaction: what does not commit is rolled back.
  unfoldable pub committed : (ℕ → Option GoError) → S → {A : Type 0} → Result A → Run S A
  committed fault saved (ok a) w = elim (fault w.calls) [
    | some e ↦ (err (flattened "commit db tx" e), record { state = saved; calls = suc w.calls })
    | none ↦ (ok a, record w { calls = suc w.calls })
  ]
  committed fault saved (err e) w = (err e, record w { state = saved })
  committed fault saved (panic s) w = (panic s, record w { state = saved })

  unfoldable pub transaction : (ℕ → Option GoError) → {A : Type 0} → Run S A → Run S A
  unfolding committed
  transaction fault m w = elim (fault w.calls) [
    | some e ↦ (err (flattened "opening db tx" e), record w { calls = suc w.calls })
    | none ↦ let (r, w') = m (record w { calls = suc w.calls }) in committed fault w.state r w'
  ]

  -- The state after a computation that returns is the one its last step leaves.
  pub bind-ok :
      {A B : Type 0} (m : Run S A) (f : A → Run S B) (w : Calls S) (b : B)
      → ((m >>= f) w).0 ≡ ok b
      → (a : A) × ((m w).0 ≡ ok a) × ((m >>= f) w ≡ f a (m w).1)
  unfolding ◌>>=◌
  bind-ok m f w b h = go (m w).0 (m w).1 h refl
    where
      go :
          (r : Result _) (w' : Calls S)
          → (continue r f w').0 ≡ ok b
          → (m w).0 ≡ r
          → (a : _) × ((m w).0 ≡ ok a) × (continue r f w' ≡ f a w')
      go (ok a) w' h e = (a, e, refl)
      go (err x) w' h e = cc
      go (panic s) w' h e = cc

  -- A preorder on states that the first computation keeps, and after its result the second.
  pub bind-Kept :
      (R : S → S → Type 0)
      → ((s t u : S) → R s t → R t u → R s u)
      → {A B : Type 0} (m : Run S A) (f : A → Run S B) (w : Calls S) → R w.state (m w).1.state
      → ((a : A) → (m w).0 ≡ ok a → R (m w).1.state (f a (m w).1).1.state)
      → R w.state ((m >>= f) w).1.state
  unfolding ◌>>=◌
  bind-Kept R trans m f w first second = go (m w).0 refl
    where
      go : (r : Result _) → (m w).0 ≡ r → R w.state (continue r f (m w).1).1.state
      go (ok a) e = trans _ _ _ first (second a e)
      go (err x) e = first
      go (panic s) e = first

  pub call-Kept :
      (R : S → S → Type 0) (fault : ℕ → Option GoError) {A : Type 0} (f : GoError → GoError)
      (statement : S → Result A × S) (w : Calls S)
      → R w.state w.state
      → R w.state (statement w.state).1
      → R w.state (on_error f (call fault statement) w).1.state
  unfolding on_error call
  call-Kept R fault f statement w same next = elim (Option-cases (fault w.calls)) [
    | inl e ↦ rw (e, call) next
    | inr (x, e) ↦ rw (e, call) same
  ]

  pub call-ok :
      (fault : ℕ → Option GoError) {A : Type 0} (f : GoError → GoError)
      (statement : S → Result A × S) (w : Calls S) (a : A)
      → (on_error f (call fault statement) w).0 ≡ ok a
      → ((statement w.state).0 ≡ ok a)
        × ((on_error f (call fault statement) w).1.state ≡ (statement w.state).1)
  unfolding on_error call
  call-ok fault f statement w a h = ground arith

  pub on_error-ok :
      {A : Type 0} (f : GoError → GoError) (m : Run S A) (w : Calls S) (a : A)
      → (on_error f m w).0 ≡ ok a
      → (m w).0 ≡ ok a
  unfolding on_error
  on_error-ok f m w a e = ground arith

  pub transaction-ok :
      (fault : ℕ → Option GoError) {A : Type 0} (m : Run S A) (w : Calls S) (a : A)
      → (transaction fault m w).0 ≡ ok a
      → ((m (record w { calls = suc w.calls })).0 ≡ ok a)
        × ((transaction fault m w).1.state ≡ (m (record w { calls = suc w.calls })).1.state)
  unfolding transaction
  transaction-ok fault m w a = elim (Option-cases (fault w.calls)) [
    | inl f ↦
        rw (f, transaction)
          (done (m (record w { calls = suc w.calls })).0 (m (record w { calls = suc w.calls })).1)
    | inr (x, f) ↦ rw (f, transaction) (λ h. cc)
  ]
    where
      done :
          (r : Result _) (w' : Calls S)
          → (committed fault w.state r w').0 ≡ ok a
          → (r ≡ ok a) × ((committed fault w.state r w').1.state ≡ w'.state)
      done r w' h = ground arith

  pub transaction-kept :
      (fault : ℕ → Option GoError) {A : Type 0} (m : Run S A) (w : Calls S)
      → ((a : A) → ¬ ((transaction fault m w).0 ≡ ok a))
      → (transaction fault m w).1.state ≡ w.state
  unfolding transaction
  transaction-kept fault {A} m w = elim (Option-cases (fault w.calls)) [
    | inl f ↦
        rw (f, transaction)
          (kept (m (record w { calls = suc w.calls })).0 (m (record w { calls = suc w.calls })).1)
    | inr (x, f) ↦ rw (f, transaction) (λ h. refl)
  ]
    where
      kept :
          (r : Result A) (w' : Calls S)
          → ((a : A) → ¬ ((committed fault w.state r w').0 ≡ ok a))
          → (committed fault w.state r w').1.state ≡ w.state
      kept (ok a) w' h = elim (Option-cases (fault w'.calls)) [
        | inl f ↦ absurd (h a (rw (f, committed) refl))
        | inr (x, f) ↦ rw (f, committed) refl
      ]
      kept (err x) w' h = refl
      kept (panic s) w' h = refl
