-- ===== src/Executor/MaskBits.antt =====
-- About the privileges that a mask of system_acl stands for, as a grant and a revoke change it.
use Prim.Native.Nat.{bit_and, bit_or}
use go_tableland.Prelude.{
  ℤ, ℕ, suc, ◌<◌, ◌≡◌, refl, ◌≢◌, inl, inr, Bool, false, ◌&&◌, ◌||◌, Option, none, some, arith,
  Option-cases,
}
use go_tableland.Errors.{ok}
use go_tableland.Acl.{
  Privilege, priv_insert, priv_update, priv_delete, priv_zero, Operation, op_insert, op_update,
  op_delete, operation_privilege, has_privilege, can_execute, privileges_of_mask,
}
use go_tableland.Acl.Masks.{holds, holds-bit_or, holds-bit_and}
use go_tableland.Database.{Db, int64_key, put₃, put₃-self}
use go_tableland.Database.Statements.{upsert_acl, revoke_acl, select_acl}
use go_tableland.Executor.{Env, World, ◌>>=◌, call, TxnScope}
use go_tableland.Executor.Writes.{
  privileges_of_row, get_acl_on_table_by_controller, check_privileges,
}

-- The operations of writes, and the privilege that each needs.
pub data WriteOperation : Operation → Privilege → Type 0 where
  insert_needs : WriteOperation op_insert priv_insert
  update_needs : WriteOperation op_update priv_update
  delete_needs : WriteOperation op_delete priv_delete

pub needs-ne-zero : {op : Operation} {p : Privilege} → WriteOperation op p → p ≢ priv_zero
needs-ne-zero insert_needs e = cc
needs-ne-zero update_needs e = cc
needs-ne-zero delete_needs e = cc

-- A mask allows an operation exactly when the operation's bit is set.
pub can_execute-holds :
    {op : Operation} {p : Privilege} (m : ℕ)
    → WriteOperation op p
    → (can_execute (privileges_of_mask m) op).0 ≡ holds p m
unfolding can_execute holds
can_execute-holds m insert_needs = ground arith
can_execute-holds m update_needs = ground arith
can_execute-holds m delete_needs = ground arith

-- The entry that a write's check reads.
abbrev pub entry : TxnScope → ℕ → ℕ → Db → Option ℕ
entry ts id addr db = db.system_acl ts.vars.chain_id (int64_key id) addr

-- The check of a write, as the stored entry answers it.
abbrev pub may_write : TxnScope → ℕ → ℕ → Operation → Db → Bool
may_write ts id addr op db = (can_execute (privileges_of_row (entry ts id addr db)) op).0

-- Without a fault of the database, CheckPrivileges answers by the stored entry.
check_privileges-eq :
    (env : Env) (ts : TxnScope) (addr id : ℕ) (op : Operation) (w : World)
    → env.fault w.calls ≡ none
    → check_privileges env ts addr id op w
      ≡ (ok (may_write ts id addr op w.db), record w { calls = suc w.calls })
unfolding check_privileges get_acl_on_table_by_controller select_acl ◌>>=◌ call
check_privileges-eq env ts addr id op w e = rw (e, call)

-- The mask that is stored after an upsert, from the one before.
abbrev pub or_mask : Option ℕ → ℕ → ℕ
or_mask none m = m
or_mask (some k) m = bit_or k m

pub entry-upsert :
    (c : ℕ) (t : ℤ) (a m : ℕ) (d : Db)
    → (upsert_acl c t a m d).0 ≡ ok tt
    → (upsert_acl c t a m d).1.system_acl
      ≡ put₃ d.system_acl c t a (some (or_mask (d.system_acl c t a) m))
unfolding upsert_acl
entry-upsert c t a m d h = ground arith

-- The same of a revoke, which finds no entry to change or changes it.
abbrev pub and_mask : Option ℕ → ℕ → Option ℕ
and_mask none m = none
and_mask (some k) m = some (bit_and k m)

pub entry-revoke :
    (c : ℕ) (t : ℤ) (a m : ℕ) (d : Db)
    → (revoke_acl c t a m d).1.system_acl c t a ≡ and_mask (d.system_acl c t a) m
unfolding revoke_acl
entry-revoke c t a m d = elim (Option-cases (d.system_acl c t a)) [
  | inl e ↦ rw (e, revoke_acl) e
  | inr (k, e) ↦ rw (e, revoke_acl) (put₃-self d.system_acl c t a (some (bit_and k m)))
]

-- A privilege of a stored entry.
abbrev holds_row : Privilege → Option ℕ → Bool
holds_row p none = false
holds_row p (some m) = holds p m

-- A stored mask has three bits.
abbrev pub MaskBelow8 : Option ℕ → Type 0
MaskBelow8 none = Unit
MaskBelow8 (some m) = m < 8

pub can_execute_row :
    {op : Operation} {p : Privilege} (o : Option ℕ)
    → WriteOperation op p
    → (can_execute (privileges_of_row o) op).0 ≡ holds_row p o
unfolding privileges_of_row can_execute has_privilege operation_privilege
can_execute_row none insert_needs = refl
can_execute_row none update_needs = refl
can_execute_row none delete_needs = refl
can_execute_row (some m) n = can_execute-holds m n

pub holds-or_mask :
    (p : Privilege) (o : Option ℕ) (m : ℕ)
    → MaskBelow8 o
    → m < 8
    → holds p (or_mask o m) ≡ (holds_row p o || holds p m)
holds-or_mask p none m h k = refl
holds-or_mask p (some n) m h k = holds-bit_or p n m h k

pub holds-and_mask :
    (p : Privilege) (o : Option ℕ) (m : ℕ)
    → MaskBelow8 o
    → m < 8
    → holds_row p (and_mask o m) ≡ (holds_row p o && holds p m)
holds-and_mask p none m h k = refl
holds-and_mask p (some n) m h k = holds-bit_and p n m h k
