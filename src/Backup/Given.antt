-- ===== src/Backup/Given.antt =====
-- Postconditions of the computations of pkg/backup.
use go_tableland.Steps.{
  Calls, Run, pure, fail, lift, on_error, ◌>>=◌, call, bind-ok, call-ok, on_error-ok,
}
use go_tableland.Prelude.{
  ℕ, ◌≡◌, refl, sym, ap, ◌∙◌, subst, Bool, true, false, Option, if◌then◌else◌, inl, inr,
  Option-cases,
}
use go_tableland.Errors.{GoError, Result, ok, ok_injective}

-- A computation that returns takes a state with one property to a result and a state with another.
abbrev pub Gives : {S A : Type 0} → (S → Type 0) → Run S A → (A → S → Type 0) → Type 0
Gives {S} {A} P m Q = (w : Calls S) (a : A) → P w.state → (m w).0 ≡ ok a → Q a (m w).1.state

pub gives-bind :
    {S A B : Type 0} (P : S → Type 0) (R : A → S → Type 0) (Q : B → S → Type 0) (m : Run S A)
    (f : A → Run S B)
    → Gives P m R
    → ((a : A) → Gives (R a) (f a) Q)
    → Gives P (m >>= f) Q
gives-bind {S = S} P R Q m f first next w b p h =
    let (a, e, at) = bind-ok m f w b h in
    subst (λ (x : Result _ × Calls S). Q b x.1.state) (sym at)
      (next a (m w).1 b (first w a p e) (ap (λ (x : Result _ × Calls S). x.0) (sym at) ∙ h))

pub gives-on_error :
    {S A : Type 0} (P : S → Type 0) (Q : A → S → Type 0) (g : GoError → GoError) (m : Run S A)
    → Gives P m Q
    → Gives P (on_error g m) Q
unfolding on_error
gives-on_error P Q g m h w a p e = h w a p (on_error-ok g m w a e)

pub gives-call :
    {S A : Type 0} (P : S → Type 0) (Q : A → S → Type 0) (fault : ℕ → Option GoError)
    (g : GoError → GoError) (statement : S → Result A × S)
    → ((s : S) (a : A) → P s → (statement s).0 ≡ ok a → Q a (statement s).1)
    → Gives P (on_error g (call fault statement)) Q
gives-call P Q fault g statement h w a p e =
    let (r, at) = call-ok fault g statement w a e in subst (Q a) (sym at) (h w.state a p r)

pub gives-statement :
    {S A : Type 0} (P : S → Type 0) (Q : A → S → Type 0) (fault : ℕ → Option GoError)
    (statement : S → Result A × S)
    → ((s : S) (a : A) → P s → (statement s).0 ≡ ok a → Q a (statement s).1)
    → Gives P (call fault statement) Q
unfolding call
gives-statement P Q fault statement h w a p = elim (Option-cases (fault w.calls)) [
  | inl e ↦ rw (e, call) (λ r. h w.state a p r)
  | inr (x, e) ↦ rw (e, call) (λ r. absurd cc)
]

pub gives-pure :
    {S A : Type 0} (P : S → Type 0) (Q : A → S → Type 0) (a : A)
    → ((s : S) → P s → Q a s)
    → Gives P (pure a) Q
unfolding pure
gives-pure P Q a h w b p e = subst (λ x. Q x w.state) (ok_injective e) (h w.state p)

pub gives-lift : {S A : Type 0} (P : S → Type 0) (r : Result A) → Gives P (lift r) (λ a. P)
unfolding lift
gives-lift P r w a p e = p

pub gives-fail :
    {S A : Type 0} (P : S → Type 0) (Q : A → S → Type 0) (x : GoError) → Gives P (fail x) Q
unfolding fail
gives-fail P Q x w a p e = cc

pub gives-if :
    {S A : Type 0} (P : S → Type 0) (Q : A → S → Type 0) (b : Bool) (m n : Run S A)
    → (b ≡ true → Gives P m Q)
    → (b ≡ false → Gives P n Q)
    → Gives P (if b then m else n) Q
gives-if P Q true m n p q = p refl
gives-if P Q false m n p q = q refl
