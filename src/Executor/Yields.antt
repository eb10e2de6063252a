-- ===== src/Executor/Yields.antt =====
-- What the computations of a transaction scope give where they return.
use go_tableland.Prelude.{◌≡◌, refl, arith, Bool, true, false, if◌then◌else◌}
use go_tableland.Errors.{GoError, Result, ok, err, panic}
use go_tableland.Database.{Db}
use go_tableland.Parsing.Returned.{OkAll, OkAll-ok}
use go_tableland.Executor.{World, M, pure, fail, lift, map_error, on_error, continue, ◌>>=◌}
use go_tableland.Executor.Frames.{IsFrame, Frames}

pub record Yields {A : Type 0} (P : A → Type 0) (m : M A) : Type 0 where
  pub at : (w : World) (a : A) → (m w).0 ≡ ok a → P a

pub Yields-lift : {A : Type 0} (P : A → Type 0) (r : Result A) → OkAll P r → Yields P (lift r)
unfolding lift
Yields-lift P r p = record { at = λ w a e. p.at a e }

pub Yields-fail : {A : Type 0} (P : A → Type 0) (e : GoError) → Yields P (fail e)
unfolding fail
Yields-fail P x = record { at = λ w a e. cc }

pub Yields-pure : {A : Type 0} (P : A → Type 0) (a : A) → P a → Yields P (pure a)
unfolding pure lift
Yields-pure P a p = Yields-lift P (ok a) (OkAll-ok P a p)

pub Yields-if :
    {A : Type 0} (P : A → Type 0) (b : Bool) (m n : M A)
    → Yields P m
    → Yields P n
    → Yields P (if b then m else n)
Yields-if P true m n p q = p
Yields-if P false m n p q = q

pub Yields-on_error :
    {A : Type 0} (P : A → Type 0) (f : GoError → GoError) (m : M A)
    → Yields P m
    → Yields P (on_error f m)
unfolding on_error
Yields-on_error P f m p = record { at = λ w a e. p.at w a (unmapped (m w).0 a e) }
  where
    unmapped : {A : Type 0} (r : Result A) (a : A) → map_error f r ≡ ok a → r ≡ ok a
    unmapped r a e = ground arith

-- The last computation decides.
pub Yields-bind :
    {A B : Type 0} (P : B → Type 0) (m : M A) (f : A → M B)
    → ((a : A) → Yields P (f a))
    → Yields P (m >>= f)
unfolding ◌>>=◌
Yields-bind P m f h = record { at = λ w. after (m w).0 (m w).1 }
  where
    after : (r : Result _) (w' : World) (b : _) → (continue r f w').0 ≡ ok b → P b
    after (ok a) w' b e = (h a).at w' b e
    after (err x) w' b e = cc
    after (panic s) w' b e = cc

-- A computation is framed if what follows is, for what it gives.
pub Frames-after :
    (R : Db → Db → Type 0) (frame : IsFrame R) {A B : Type 0} (P : A → Type 0) (m : M A)
    (f : A → M B)
    → Frames R m
    → Yields P m
    → ((a : A) → P a → Frames R (f a))
    → Frames R (m >>= f)
unfolding ◌>>=◌
Frames-after R frame P m f km y kf = record {
  at = λ w. after w.db (m w).0 (m w).1 (km.at w) (λ a e. y.at w a e);
}
  where
    after :
        (d : Db) (r : Result _) (w' : World)
        → R d w'.db
        → ((a : _) → r ≡ ok a → P a)
        → R d (continue r f w').1.db
    after d (ok a) w' h p = frame.both d w'.db (f a w').1.db h ((kf a (p a refl)).at w')
    after d (err e) w' h p = h
    after d (panic s) w' h p = h
