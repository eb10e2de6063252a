-- ===== src/Executor/Framed.antt =====
-- About the operations of a transaction scope: each is framed once the statements that it issues
-- are.
pub mod Grants
pub mod Writes
pub mod Events
pub mod Loop
use go_tableland.Prelude.{
  ℤ, ℕ, ◌*◌, ◌%◌, ◌^◌, String, ◌≡◌, refl, sym, subst, inl, inr, Option, some, List, arith, ltb,
  Bool-cases,
}
use go_tableland.Acl.{Privilege, all_privileges, grant_mask, revoke_mask}
use go_tableland.Database.{RegistryRow, Row, Db}
use go_tableland.Database.Statements.{
  insert_registry, update_registry_controller, insert_acl, upsert_acl, revoke_acl,
  select_controller, upsert_controller, delete_controller, select_acl, select_prefix_and_count,
}
use go_tableland.Executor.{Env, World, M}
use go_tableland.Executor.Confined.{OnlyTables}
use go_tableland.Executor.RunSql.{controlled}
use go_tableland.Executor.Frames.{IsFrame, Frames}

-- A change of the users' tables is in the relation.
pub record UserFramed (R : Db → Db → Type 0) : Type 0 where
  pub frame : IsFrame R
  pub user : (d : Db) (ts : String → Option (List Row)) → R d (record d { tables = ts })

-- The statements that change the system tables.
pub record StatementsFramed (R : Db → Db → Type 0) : Type 0 where
  pub users : UserFramed R
  pub open users use *
  pub upsert :
      (c : ℕ) (t : ℤ) (a m : ℕ) (ps : List Privilege)
      → grant_mask ps ≡ some m
      → (d : Db) → R d (upsert_acl c t a m d).1
  pub revoke :
      (c : ℕ) (t : ℤ) (a m : ℕ) (ps : List Privilege)
      → revoke_mask ps ≡ some m
      → (d : Db) → R d (revoke_acl c t a m d).1
  pub register : (c : ℕ) (t : ℤ) (row : RegistryRow) (d : Db) → R d (insert_registry c t row d).1
  pub entry : (c : ℕ) (t : ℤ) (a : ℕ) (d : Db) → R d (insert_acl c t a all_privileges d).1
  pub owner : (c : ℕ) (t : ℤ) (a : ℕ) (d : Db) → R d (update_registry_controller c t a d).1
  pub set_control : (c : ℕ) (t : ℤ) (a : ℕ) (d : Db) → R d (upsert_controller c t a d).1
  pub unset_control : (c : ℕ) (t : ℤ) (d : Db) → R d (delete_controller c t d).1

world-controlled :
    (message context : String) (id : ℕ) (m : M (Unit {0})) (w : World)
    → (controlled message context id m w).1 ≡ (m w).1
unfolding controlled
world-controlled message context id m w = refl

world-select_prefix_and_count :
    (c : ℕ) (t : ℤ) (name : String) (d : Db) → (select_prefix_and_count c t name d).1 ≡ d
unfolding select_prefix_and_count
world-select_prefix_and_count c t name d = ground arith

module _ (env : Env) (R : Db → Db → Type 0) (sf : UserFramed R) where
  pub framed-controlled :
      (message context : String) (id : ℕ) (m : M (Unit {0}))
      → Frames R m
      → Frames R (controlled message context id m)
  framed-controlled message context id m h = record {
    at = λ w. rw (world-controlled message context id m w) (h.at w);
  }

  pub framed-only : (d d' : Db) → OnlyTables d d' → R d d'
  framed-only d d' (ts, e) = subst (R d) (sym e) (sf.user d ts)

  -- Reading statements leave the database alone.
  pub framed-select_controller : (c id : ℕ) (d : Db) → R d (select_controller c id d).1
  unfolding select_controller
  framed-select_controller c id d = elim (Bool-cases (ltb (id % 2 ^ 64) (2 ^ 63))) [
    | inl e ↦ rw (e, select_controller) (sf.frame.same d)
    | inr e ↦ rw (e, select_controller) (sf.frame.same d)
  ]

  pub framed-select_acl : (c : ℕ) (t : ℤ) (a : ℕ) (d : Db) → R d (select_acl c t a d).1
  unfolding select_acl
  framed-select_acl c t a d = sf.frame.same d

  pub framed-select_prefix_and_count :
      (c : ℕ) (t : ℤ) (name : String) (d : Db) → R d (select_prefix_and_count c t name d).1
  framed-select_prefix_and_count c t name d =
      rw (world-select_prefix_and_count c t name d) (sf.frame.same d)

pub ruleset statement_rules =
    (framed-select_controller, framed-select_acl, framed-select_prefix_and_count)
