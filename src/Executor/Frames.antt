-- ===== src/Executor/Frames.antt =====
-- What a computation does to the database, as a relation of the databases before and after, with
-- one rule for each way to build a computation.
use go_tableland.Prelude.{inl, inr, Bool, true, false, if◌then◌else◌, Option-cases}
use go_tableland.Errors.{GoError, Result, ok, err, panic}
use go_tableland.Database.{Db}
use go_tableland.Executor.{Env, World, M, pure, fail, lift, on_error, continue, ◌>>=◌, call}

-- A relation that a sequence of steps may be composed along.
pub record IsFrame (R : Db → Db → Type 0) : Type 0 where
  pub same : (d : Db) → R d d
  pub both : (a b c : Db) → R a b → R b c → R a c

-- Whatever `m` returns, and wherever it stops, the databases are related.
pub record Frames (R : Db → Db → Type 0) {A : Type 0} (m : M A) : Type 0 where
  pub at : (w : World) → R w.db (m w).1.db

module _ (R : Db → Db → Type 0) (frame : IsFrame R) where
  pub Frames-lift : {A : Type 0} (r : Result A) → Frames R (lift r)
  unfolding lift
  Frames-lift r = record { at = λ w. frame.same w.db }

  pub Frames-pure : {A : Type 0} (a : A) → Frames R (pure a)
  unfolding pure
  Frames-pure a = record { at = λ w. frame.same w.db }

  pub Frames-fail : {A : Type 0} (e : GoError) → Frames R (fail {A = A} e)
  unfolding fail
  Frames-fail e = record { at = λ w. frame.same w.db }

  pub Frames-on_error :
      {A : Type 0} (f : GoError → GoError) (m : M A) → Frames R m → Frames R (on_error f m)
  unfolding on_error
  Frames-on_error f m h = record { at = λ w. h.at w }

  after_result :
      {A B : Type 0} (r : Result A) (f : A → M B) (d : Db) (w : World)
      → ((a : A) → Frames R (f a))
      → R d w.db
      → R d (continue r f w).1.db
  after_result (ok a) f d w kf h = frame.both d w.db (f a w).1.db h ((kf a).at w)
  after_result (err e) f d w kf h = h
  after_result (panic s) f d w kf h = h

  pub Frames-bind :
      {A B : Type 0} (m : M A) (f : A → M B)
      → Frames R m
      → ((a : A) → Frames R (f a))
      → Frames R (m >>= f)
  unfolding ◌>>=◌
  Frames-bind m f km kf = record {
    at = λ w. let (r, w') = m w in after_result r f w.db w' kf (km.at w);
  }

  -- A statement of the database relates what it is run on to what it leaves.
  pub Frames-call :
      (env : Env) {A : Type 0} (statement : Db → Result A × Db)
      → ((d : Db) → R d (statement d).1)
      → Frames R (call env statement)
  unfolding call
  Frames-call env statement h = record {
    at = λ w. elim (Option-cases (env.fault w.calls)) [
      | inl e ↦ rw (e, call) (h w.db)
      | inr (x, e) ↦ rw (e, call) (frame.same w.db)
    ];
  }

  pub Frames-if :
      {A : Type 0} (b : Bool) (m n : M A) → Frames R m → Frames R n → Frames R (if b then m else n)
  Frames-if true m n km kn = km
  Frames-if false m n km kn = kn

pub ruleset frame_rules =
    (Frames-lift, Frames-pure, Frames-fail, Frames-on_error, Frames-bind, Frames-call, Frames-if)
