-- ===== src/Executor/Ensures.antt =====
-- What a computation that returns has made of the database.
use go_tableland.Prelude.{◌≡◌, arith}
use go_tableland.Errors.{GoError, Result, ok, err, panic}
use go_tableland.Database.{Db}
use go_tableland.Executor.{World, M, map_error, on_error, continue, ◌>>=◌}

pub record Ensures (Q : Db → Type 0) {A : Type 0} (m : M A) : Type 0 where
  pub at : (w : World) (a : A) → (m w).0 ≡ ok a → Q (m w).1.db

module _ (Q : Db → Type 0) where
  pub Ensures-on_error :
      {A : Type 0} (f : GoError → GoError) (m : M A) → Ensures Q m → Ensures Q (on_error f m)
  unfolding on_error
  Ensures-on_error f m h = record { at = λ w a e. h.at w a (unmapped (m w).0 a e) }
    where
      unmapped : {A : Type 0} (r : Result A) (a : A) → map_error f r ≡ ok a → r ≡ ok a
      unmapped r a e = ground arith

  -- The last computation decides.
  pub Ensures-bind :
      {A B : Type 0} (m : M A) (f : A → M B) → ((a : A) → Ensures Q (f a)) → Ensures Q (m >>= f)
  unfolding ◌>>=◌
  Ensures-bind m f h = record { at = λ w. after (m w).0 (m w).1 }
    where
      after :
          (r : Result _) (w' : World) (b : _)
          → (continue r f w').0 ≡ ok b
          → Q (continue r f w').1.db
      after (ok a) w' b e = (h a).at w' b e
      after (err x) w' b e = cc
      after (panic s) w' b e = cc
