-- ===== src/Executor/Integrity.antt =====
-- About the integrity of registry, system_acl and system_controller under the events of a
-- transaction (executeTxnEvents).
use Prim.Native.Nat.{bit_and, bit_or}
use go_tableland.Prelude.{
  ℤ, ℕ, ◌<◌, ◌≡◌, ◌≢◌, inl, inr, none, some, List, arith, ◌==◌, Bool-cases, Option-cases,
}
use go_tableland.Acl.{Privilege, priv_insert, priv_zero, all_privileges, grant_mask, revoke_mask}
use go_tableland.Acl.Masks.{bit_or-lt, bit_and-lt}
use go_tableland.Acl.Loops.{grant_mask_lem, revoke_mask_lem}
use go_tableland.Database.{RegistryRow, Db}
use go_tableland.Database.Statements.{
  insert_registry, update_registry_controller, insert_acl, upsert_acl, revoke_acl,
  upsert_controller, delete_controller,
}
use go_tableland.Executor.{Env, World, TxnScope}
use go_tableland.Executor.Events.{TxnEvents, execute_txn_events}
use go_tableland.Executor.Confined.{Confined}
use go_tableland.Executor.Framed.{UserFramed, StatementsFramed}
use go_tableland.Executor.Framed.Events.{txn_events-Frames}
use go_tableland.Executor.Registered.{
  IsIntact, Keeps, SameTable, GoodEntry, stays_refl, Keeps-frame, acl-Keeps, controller-Keeps,
  registry-Keeps,
}

real : priv_insert ≢ priv_zero
real e = cc

grant_mask-lt : (ps : List Privilege) (m : ℕ) → grant_mask ps ≡ some m → m < 8
grant_mask-lt ps m e = (grant_mask_lem priv_insert real ps m e).0

revoke_mask-lt : (ps : List Privilege) (m : ℕ) → revoke_mask ps ≡ some m → m < 8
revoke_mask-lt ps m e = (revoke_mask_lem priv_insert real ps m e).0

module _ (d : Db) (c : ℕ) (t : ℤ) where
  -- An entry with a mask has a table.
  entry_at :
      (a k : ℕ) → d.system_acl c t a ≡ some k → IsIntact d → GoodEntry (d.registry c t) (some k)
  entry_at a k e v = rw e at (v.entries c t a)

  upsert-Keeps : (a m : ℕ) → m < 8 → Keeps d (upsert_acl c t a m d).1
  unfolding upsert_acl
  upsert-Keeps a m h = elim (Option-cases (d.system_acl c t a)) [
    | inr (k, e) ↦
        rw (e, upsert_acl)
          (acl-Keeps d c t a (bit_or k m)
            (λ v. let g = entry_at a k e v in (g.0, bit_or-lt k m g.1 h)))
    | inl e ↦ elim (Option-cases (d.registry c t)) [
      | inl f ↦ rw (e, f, upsert_acl) (Keeps-frame.same d)
      | inr (row, f) ↦ rw (e, f, upsert_acl) (acl-Keeps d c t a m (λ v. rw f (tt, h)))
    ]
  ]

  revoke-Keeps : (a m : ℕ) → m < 8 → Keeps d (revoke_acl c t a m d).1
  unfolding revoke_acl
  revoke-Keeps a m h = elim (Option-cases (d.system_acl c t a)) [
    | inl e ↦ rw (e, revoke_acl) (Keeps-frame.same d)
    | inr (k, e) ↦
        rw (e, revoke_acl)
          (acl-Keeps d c t a (bit_and k m)
            (λ v. let g = entry_at a k e v in (g.0, bit_and-lt k m g.1 h)))
  ]

  register-Keeps : (row : RegistryRow) → Keeps d (insert_registry c t row d).1
  unfolding insert_registry
  register-Keeps row = elim (Option-cases (d.registry c t)) [
    | inr (old, e) ↦ rw (e, insert_registry) (Keeps-frame.same d)
    | inl e ↦ rw (e, insert_registry) (registry-Keeps d c t row (λ old f. cc))
  ]

  entry-Keeps : (a : ℕ) → Keeps d (insert_acl c t a all_privileges d).1
  unfolding insert_acl
  entry-Keeps a = elim (Option-cases (d.system_acl c t a)) [
    | inr (k, e) ↦ rw (e, insert_acl) (Keeps-frame.same d)
    | inl e ↦ elim (Option-cases (d.registry c t)) [
      | inl f ↦ rw (e, f, insert_acl) (Keeps-frame.same d)
      | inr (row, f) ↦
          rw (e, f, insert_acl) (acl-Keeps d c t a all_privileges (λ v. rw f (tt, omega arith)))
    ]
  ]

  owner-Keeps : (a : ℕ) → Keeps d (update_registry_controller c t a d).1
  unfolding update_registry_controller
  owner-Keeps a = elim (Option-cases (d.registry c t)) [
    | inl e ↦ rw (e, update_registry_controller) (Keeps-frame.same d)
    | inr (row, e) ↦
        rw (e, update_registry_controller)
          (registry-Keeps d c t (record row { controller = a }) (λ old f. ground arith))
  ]

  control-Keeps : (a : ℕ) → Keeps d (upsert_controller c t a d).1
  unfolding upsert_controller
  control-Keeps a = elim (Bool-cases (a == 0)) [
    | inl e ↦ rw (e, upsert_controller) (Keeps-frame.same d)
    | inr e ↦ elim (Option-cases (d.registry c t)) [
      | inl f ↦ rw (e, f, upsert_controller) (Keeps-frame.same d)
      | inr (row, f) ↦
          rw (e, f, upsert_controller) (controller-Keeps d c t (some a) (rw f (tt, ground arith)))
    ]
  ]

  uncontrol-Keeps : Keeps d (delete_controller c t d).1
  unfolding delete_controller
  uncontrol-Keeps = controller-Keeps d c t none tt

Keeps-users : UserFramed Keeps
Keeps-users = record {
  frame = Keeps-frame;
  user = λ d ts. record {
    tables_stay = λ c t row e. stays_refl row (d.registry c t) e;
    intact = λ v. record { entries = v.entries; controllers = v.controllers };
  };
}

Keeps-framed : StatementsFramed Keeps
Keeps-framed = record {
  users = Keeps-users;
  upsert = λ c t a m ps e d. upsert-Keeps d c t a m (grant_mask-lt ps m e);
  revoke = λ c t a m ps e d. revoke-Keeps d c t a m (revoke_mask-lt ps m e);
  register = λ c t row d. register-Keeps d c t row;
  entry = λ c t a d. entry-Keeps d c t a;
  owner = λ c t a d. owner-Keeps d c t a;
  set_control = λ c t a d. control-Keeps d c t a;
  unset_control = λ c t d. uncontrol-Keeps d c t;
}

pub txn_events-Keeps :
    (env : Env) (ts : TxnScope) (txn : TxnEvents) (w : World)
    → Confined env
    → Keeps w.db (execute_txn_events env ts txn w).1.db
txn_events-Keeps env ts txn w confined =
    (txn_events-Frames env Keeps Keeps-framed confined ts txn).at w

-- A registered table stays registered under the events of a transaction, with its prefix and its
-- structure hash, however they end.
pub txn_events-SameTable :
    (env : Env) (ts : TxnScope) (txn : TxnEvents) (w : World) (chain : ℕ) (id : ℤ)
    (row : RegistryRow)
    → Confined env
    → w.db.registry chain id ≡ some row
    → SameTable row ((execute_txn_events env ts txn w).1.db.registry chain id)
txn_events-SameTable env ts txn w chain id row confined =
    (txn_events-Keeps env ts txn w confined).tables_stay chain id row
