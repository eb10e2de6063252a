-- ===== src/Executor/Registered.antt =====
-- About the tables of the registry: what keeps them registered, and the entries of system_acl and system_controller in order.
use go_tableland.Prelude.{ℤ, ℕ, ◌<◌, ◌≡◌, refl, ◌∙◌, ◌≢◌, Option, none, some, arith}
use go_tableland.Database.{RegistryRow, Db, put₂, put₃, put₃_elim, put₂_elim}
use go_tableland.Executor.Frames.{IsFrame}

-- The row of a table, of which only the owner may have changed.
abbrev pub SameTable : RegistryRow → Option RegistryRow → Type 0
SameTable row none = ⊥
SameTable row (some row') = (row'.prefix ≡ row.prefix) × (row'.structure ≡ row.structure)

abbrev pub Registered : Option RegistryRow → Type 0
Registered none = ⊥
Registered (some row) = Unit

-- An entry of system_acl has a table and a mask of three bits.
abbrev pub GoodEntry : Option RegistryRow → Option ℕ → Type 0
GoodEntry row none = Unit
GoodEntry row (some m) = Registered row × (m < 8)

-- An entry of system_controller has a table and is not the zero address.
abbrev pub GoodController : Option RegistryRow → Option ℕ → Type 0
GoodController row none = Unit
GoodController row (some a) = Registered row × (a ≢ 0)

pub record IsIntact (d : Db) : Type 0 where
  pub entries : (c : ℕ) (t : ℤ) (a : ℕ) → GoodEntry (d.registry c t) (d.system_acl c t a)
  pub controllers : (c : ℕ) (t : ℤ) → GoodController (d.registry c t) (d.system_controller c t)

-- Tables stay, and integrity is kept.
pub record Keeps (a b : Db) : Type 0 where
  pub tables_stay :
      (c : ℕ) (t : ℤ) (row : RegistryRow)
      → a.registry c t ≡ some row
      → SameTable row (b.registry c t)
  pub intact : IsIntact a → IsIntact b

stays_trans :
    (row : RegistryRow) (o p : Option RegistryRow)
    → SameTable row o
    → ((r : RegistryRow) → o ≡ some r → SameTable r p)
    → SameTable row p
stays_trans row none p h k = absurd h
stays_trans row (some r) none h k = k r refl
stays_trans row (some r) (some q) h k =
    (let e = k r refl in e.0 ∙ h.0, let e = k r refl in e.1 ∙ h.1)

pub stays_refl : (row : RegistryRow) (o : Option RegistryRow) → o ≡ some row → SameTable row o
stays_refl row none e = cc
stays_refl row (some r) e = ground arith

pub Keeps-frame : IsFrame Keeps
Keeps-frame = record {
  same =
      λ d. record { tables_stay = λ c t row e. stays_refl row (d.registry c t) e; intact = λ h. h };
  both = λ a b c h k. record {
    tables_stay = λ n t row e.
        stays_trans row (b.registry n t) (c.registry n t) (h.tables_stay n t row e)
          (λ r e'. k.tables_stay n t r e');
    intact = λ v. k.intact (h.intact v);
  };
}

-- A write of system_acl that leaves the registry alone.
pub acl-Keeps :
    (d : Db) (c : ℕ) (t : ℤ) (a m : ℕ)
    → (IsIntact d → GoodEntry (d.registry c t) (some m))
    → Keeps d (record d { system_acl = put₃ d.system_acl c t a (some m) })
acl-Keeps d c t a m h = record {
  tables_stay = λ n u row e. stays_refl row (d.registry n u) e;
  intact = λ v. record {
    entries = λ n u b.
        put₃_elim (λ x y z. GoodEntry (d.registry x y)) d.system_acl c t a (some m) (h v) n u b
          (v.entries n u b);
    controllers = v.controllers;
  };
}

-- A write of system_controller that leaves the registry alone.
pub controller-Keeps :
    (d : Db) (c : ℕ) (t : ℤ) (o : Option ℕ)
    → GoodController (d.registry c t) o
    → Keeps d (record d { system_controller = put₂ d.system_controller c t o })
controller-Keeps d c t o h = record {
  tables_stay = λ n u row e. stays_refl row (d.registry n u) e;
  intact = λ v. record {
    entries = v.entries;
    controllers = λ n u.
        put₂_elim (λ x y. GoodController (d.registry x y)) d.system_controller c t o h n u
          (v.controllers n u);
  };
}

entry_registered :
    (o : Option RegistryRow) (row : RegistryRow) (e : Option ℕ)
    → GoodEntry o e
    → GoodEntry (some row) e
entry_registered o row none h = tt
entry_registered o row (some m) h = (tt, h.1)

controller_registered :
    (o : Option RegistryRow) (row : RegistryRow) (e : Option ℕ)
    → GoodController o e
    → GoodController (some row) e
controller_registered o row none h = tt
controller_registered o row (some a) h = (tt, h.1)

-- A write of the registry that keeps the table, or adds one.
pub registry-Keeps :
    (d : Db) (c : ℕ) (t : ℤ) (row : RegistryRow)
    → ((old : RegistryRow) → d.registry c t ≡ some old → SameTable old (some row))
    → Keeps d (record d { registry = put₂ d.registry c t (some row) })
registry-Keeps d c t row h = record {
  tables_stay = λ n u.
      put₂_elim (λ n u o. (old : RegistryRow) → d.registry n u ≡ some old → SameTable old o)
        d.registry c t (some row) h n u (λ old e. stays_refl old (d.registry n u) e);
  intact = λ v. record {
    entries = λ n u b.
        put₂_elim (λ n u o. GoodEntry o (d.system_acl n u b)) d.registry c t (some row)
          (entry_registered _ row _ (v.entries c t b)) n u (v.entries n u b);
    controllers = λ n u.
        put₂_elim (λ n u o. GoodController o (d.system_controller n u)) d.registry c t (some row)
          (controller_registered _ row _ (v.controllers c t)) n u (v.controllers n u);
  };
}
