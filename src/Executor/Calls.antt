-- ===== src/Executor/Calls.antt =====
-- Inversion of a call of the database that returned.
use go_tableland.Prelude.{◌≡◌, refl, arith}
use go_tableland.Errors.{GoError, Result, ok, err, panic}
use go_tableland.Database.{Db}
use go_tableland.Executor.{Env, World, M, on_error, continue, ◌>>=◌, call}

-- The statement ran, and its database is the one that the call leaves.
pub call-ok :
    (env : Env) {A : Type 0} (f : GoError → GoError) (statement : Db → Result A × Db) (w : World)
    (a : A)
    → (on_error f (call env statement) w).0 ≡ ok a
    → ((statement w.db).0 ≡ ok a) × ((on_error f (call env statement) w).1.db ≡ (statement w.db).1)
unfolding on_error call
call-ok env f statement w a h = ground arith

-- The same of a statement that follows.
pub bind-ok :
    {A B : Type 0} (m : M A) (f : A → M B) (w : World) (b : B)
    → ((m >>= f) w).0 ≡ ok b
    → (a : A) × ((m w).0 ≡ ok a) × ((m >>= f) w ≡ f a (m w).1)
unfolding ◌>>=◌
bind-ok m f w b h = go (m w).0 (m w).1 h refl
  where
    go :
        (r : Result _) (w' : World)
        → (continue r f w').0 ≡ ok b
        → (m w).0 ≡ r
        → (a : _) × ((m w).0 ≡ ok a) × (continue r f w' ≡ f a w')
    go (ok a) w' h e = (a, e, refl)
    go (err x) w' h e = cc
    go (panic s) w' h e = cc
