-- ===== src/Executor/NonOwner.antt =====
-- About the events of pkg/eventprocessor/impl/executor/impl/txnscope_runsql.go whose caller does
-- not own the table.
use go_tableland.Prelude.{◌≡◌, refl, ◌∙◌}
use go_tableland.Database.{Db}
use go_tableland.Executor.Confined.{Confined}
use go_tableland.Executor.Frames.{Frames}
use go_tableland.Executor.Framed.{UserFramed}

-- Everything but the users' tables is the same.
pub record SameSystem (a b : Db) : Type 0 where
  pub registry_same : b.registry ≡ a.registry
  pub acl_same : b.system_acl ≡ a.system_acl
  pub controller_same : b.system_controller ≡ a.system_controller
  pub receipts_same : b.system_txn_receipts ≡ a.system_txn_receipts
  pub heights_same : b.system_txn_processor ≡ a.system_txn_processor

pub SameSystem-users : UserFramed SameSystem
SameSystem-users = record {
  frame = record {
    same = λ d. record {
      registry_same = refl;
      acl_same = refl;
      controller_same = refl;
      receipts_same = refl;
      heights_same = refl;
    };
    both = λ a b c h k. record {
      registry_same = k.registry_same ∙ h.registry_same;
      acl_same = k.acl_same ∙ h.acl_same;
      controller_same = k.controller_same ∙ h.controller_same;
      receipts_same = k.receipts_same ∙ h.receipts_same;
      heights_same = k.heights_same ∙ h.heights_same;
    };
  };
  user = λ d ts. record {
    registry_same = refl;
    acl_same = refl;
    controller_same = refl;
    receipts_same = refl;
    heights_same = refl;
  };
}
