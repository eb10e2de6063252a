-- ===== src/Parsing/Returned.antt =====
-- What the fallible calls of pkg/parsing/impl/validator.go give where they return, with one rule for each way to
-- build a call.
use go_tableland.Prelude.{String, ◌≡◌, refl, subst, Bool, true, false, if◌then◌else◌}
use go_tableland.Errors.{GoError, Result, ok, err, panic, ok_injective}
use go_tableland.Parsing.Statements.{bind_result, wrap_error, flatten_error}

-- What a call gives where it returns.
pub record OkAll {A : Type 0} (P : A → Type 0) (r : Result A) : Type 0 where
  pub at : (a : A) → r ≡ ok a → P a

pub OkAll-bind :
    {A B : Type 0} (P : A → Type 0) (Q : B → Type 0) (r : Result A) (f : A → Result B)
    → OkAll P r
    → ((a : A) → P a → OkAll Q (f a))
    → OkAll Q (bind_result r f)
OkAll-bind P Q (ok a) f p h = h a (p.at a refl)
OkAll-bind P Q (err e) f p h = record { at = λ b e. cc }
OkAll-bind P Q (panic s) f p h = record { at = λ b e. cc }

pub OkAll-ok : {A : Type 0} (P : A → Type 0) (a : A) → P a → OkAll P (ok a)
OkAll-ok P a p = record { at = λ b e. subst P (ok_injective e) p }

pub OkAll-err : {A : Type 0} (P : A → Type 0) (e : GoError) → OkAll P (err e)
OkAll-err P x = record { at = λ b e. cc }

pub OkAll-panic : {A : Type 0} (P : A → Type 0) (s : String) → OkAll P (panic s)
OkAll-panic P s = record { at = λ b e. cc }

pub OkAll-const : {A : Type 0} (P : Type 0) (r : Result A) → P → OkAll (λ a. P) r
OkAll-const P r p = record { at = λ a e. p }

pub OkAll-any : {A : Type 0} (r : Result A) → OkAll (λ a. Unit) r
OkAll-any r = record { at = λ a e. tt }

pub OkAll-self : {A : Type 0} (r : Result A) → OkAll (λ a. r ≡ ok a) r
OkAll-self r = record { at = λ a e. e }

pub OkAll-weaken :
    {A : Type 0} (P Q : A → Type 0) (r : Result A) → OkAll P r → ((a : A) → P a → Q a) → OkAll Q r
OkAll-weaken P Q r p f = record { at = λ a e. f a (p.at a e) }

pub OkAll-wrap :
    {A : Type 0} (P : A → Type 0) (context : String) (r : Result A)
    → OkAll P r
    → OkAll P (wrap_error context r)
OkAll-wrap P context (ok a) p = p
OkAll-wrap P context (err e) p = record { at = λ a h. cc }
OkAll-wrap P context (panic s) p = record { at = λ a h. cc }

pub flat :
    {A : Type 0} (context : String) (r : Result A) → OkAll (λ a. r ≡ ok a) (flatten_error context r)
flat context (ok a) = OkAll-ok _ a refl
flat context (err e) = OkAll-err _ _
flat context (panic s) = OkAll-panic _ s

pub OkAll-if :
    {A : Type 0} (P : A → Type 0) (b : Bool) (r s : Result A)
    → OkAll P r
    → OkAll P s
    → OkAll P (if b then r else s)
OkAll-if P true r s p q = p
OkAll-if P false r s p q = q
