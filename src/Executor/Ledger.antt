-- ===== src/Executor/Ledger.antt =====
-- About the validator's own tables under the events of a transaction (executeTxnEvents).
use go_tableland.Prelude.{ℤ, ℕ, ◌≡◌, refl, ◌∙◌, arith}
use go_tableland.Acl.{all_privileges}
use go_tableland.Database.{RegistryRow, Db}
use go_tableland.Database.Statements.{
  insert_registry, update_registry_controller, insert_acl, upsert_acl, revoke_acl,
  upsert_controller, delete_controller,
}
use go_tableland.Executor.{Env, World, TxnScope}
use go_tableland.Executor.Events.{TxnEvents, execute_txn_events}
use go_tableland.Executor.Confined.{Confined}
use go_tableland.Executor.Frames.{IsFrame}
use go_tableland.Executor.Framed.{UserFramed, StatementsFramed}
use go_tableland.Executor.Framed.Events.{txn_events-Frames}

-- The receipts and the heights are the same.
pub record SameLedger (a b : Db) : Type 0 where
  pub receipts : b.system_txn_receipts ≡ a.system_txn_receipts
  pub heights : b.system_txn_processor ≡ a.system_txn_processor

SameLedger-frame : IsFrame SameLedger
SameLedger-frame = record {
  same = λ d. record { receipts = refl; heights = refl };
  both =
      λ a b c h k. record { receipts = k.receipts ∙ h.receipts; heights = k.heights ∙ h.heights };
}

same_ledger : (d : Db) → SameLedger d d
same_ledger d = record { receipts = refl; heights = refl }

upsert-SameLedger : (c : ℕ) (t : ℤ) (a m : ℕ) (d : Db) → SameLedger d (upsert_acl c t a m d).1
unfolding upsert_acl
upsert-SameLedger c t a m d = ground arith

revoke-SameLedger : (c : ℕ) (t : ℤ) (a m : ℕ) (d : Db) → SameLedger d (revoke_acl c t a m d).1
unfolding revoke_acl
revoke-SameLedger c t a m d = ground arith

register-SameLedger :
    (c : ℕ) (t : ℤ) (row : RegistryRow) (d : Db) → SameLedger d (insert_registry c t row d).1
unfolding insert_registry
register-SameLedger c t row d = ground arith

entry-SameLedger : (c : ℕ) (t : ℤ) (a m : ℕ) (d : Db) → SameLedger d (insert_acl c t a m d).1
unfolding insert_acl
entry-SameLedger c t a m d = ground arith

owner-SameLedger :
    (c : ℕ) (t : ℤ) (a : ℕ) (d : Db) → SameLedger d (update_registry_controller c t a d).1
unfolding update_registry_controller
owner-SameLedger c t a d = ground arith

control-SameLedger : (c : ℕ) (t : ℤ) (a : ℕ) (d : Db) → SameLedger d (upsert_controller c t a d).1
unfolding upsert_controller
control-SameLedger c t a d = ground arith

uncontrol-SameLedger : (c : ℕ) (t : ℤ) (d : Db) → SameLedger d (delete_controller c t d).1
unfolding delete_controller
uncontrol-SameLedger c t d = ground arith

pub SameLedger-users : UserFramed SameLedger
SameLedger-users = record {
  frame = SameLedger-frame;
  user = λ d ts. record { receipts = refl; heights = refl };
}

SameLedger-framed : StatementsFramed SameLedger
SameLedger-framed = record {
  users = SameLedger-users;
  upsert = λ c t a m ps e d. upsert-SameLedger c t a m d;
  revoke = λ c t a m ps e d. revoke-SameLedger c t a m d;
  register = register-SameLedger;
  entry = λ c t a d. entry-SameLedger c t a all_privileges d;
  owner = owner-SameLedger;
  set_control = control-SameLedger;
  unset_control = uncontrol-SameLedger;
}

-- If the engine is confined, then whatever the events of a transaction are and however they end, the
-- receipts and the processed heights are those from before.
pub txn_events-SameLedger :
    (env : Env) (ts : TxnScope) (txn : TxnEvents) (w : World)
    → Confined env
    → SameLedger w.db (execute_txn_events env ts txn w).1.db
txn_events-SameLedger env ts txn w confined =
    (txn_events-Frames env SameLedger SameLedger-framed confined ts txn).at w
