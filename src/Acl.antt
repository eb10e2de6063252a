-- ===== src/Acl.antt =====
-- internal/tableland/acl.go: operations, privileges and CanExecute; and the conversion of a
-- system_acl row's bit mask in pkg/sqlstore/impl/system/store.go.
pub mod Masks
pub mod Loops
use Prim.Native.Nat.{bit_and, bit_or, bit_xor}
use go_tableland.Prelude.{
  ℕ, String, Bool, true, false, ◌||◌, ◌++◌, Option, none, some, List, [], ◌∷◌, str_eq, ltb,
  if◌then◌else◌,
}

-- The Privilege values of the program: the three variables, and the zero value Privilege{}.
pub data Privilege : Type 0 where
  priv_insert priv_update priv_delete priv_zero : Privilege

unfoldable pub bitfield : Privilege → ℕ
bitfield priv_insert = 1
bitfield priv_update = 2
bitfield priv_delete = 4
bitfield priv_zero = 0

unfoldable pub abbreviation : Privilege → String
abbreviation priv_insert = "a"
abbreviation priv_update = "w"
abbreviation priv_delete = "d"
abbreviation priv_zero = ""

-- Go's == on the structs.
unfoldable pub eq_privilege : Privilege → Privilege → Bool
eq_privilege priv_insert priv_insert = true
eq_privilege priv_update priv_update = true
eq_privilege priv_delete priv_delete = true
eq_privilege priv_zero priv_zero = true
eq_privilege _ _ = false

-- NewPrivilegeFromSQLString; `none` is its error.
unfoldable pub new_privilege_from_sql_string : String → Option Privilege
new_privilege_from_sql_string s =
    if str_eq s "insert"
    then some priv_insert
    else if str_eq s "update"
    then some priv_update
    else if str_eq s "delete"
    then some priv_delete
    else none

unfoldable pub to_sql_string : Privilege → String
to_sql_string priv_insert = "insert"
to_sql_string priv_update = "update"
to_sql_string priv_delete = "delete"
to_sql_string priv_zero = "nil"

pub data Operation : Type 0 where
  op_select op_insert op_update op_delete op_grant op_revoke op_create : Operation

-- operationPrivilegeMap; `none` is a missing key.
unfoldable pub operation_privilege : Operation → Option Privilege
operation_privilege op_insert = some priv_insert
operation_privilege op_delete = some priv_delete
operation_privilege op_update = some priv_update
operation_privilege _ = none

unfoldable pub has_privilege : Privilege → List Privilege → Bool
unfolding eq_privilege
has_privilege needed [] = false
has_privilege needed (p ∷ ps) = eq_privilege p needed || has_privilege needed ps

-- Privileges.CanExecute: whether the operation is allowed, and the missing privilege.
unfoldable pub can_execute : List Privilege → Operation → Bool × Privilege
unfolding operation_privilege has_privilege
can_execute ps op = elim (operation_privilege op) [
  | none ↦ (true, priv_zero)
  | some needed ↦ if has_privilege needed ps then (true, priv_zero) else (false, needed)
]

-- Go's a &^ b.
unfoldable pub and_not : ℕ → ℕ → ℕ
and_not a b = bit_xor a (bit_and a b)

abbrev pub all_privileges : ℕ
all_privileges = bit_or (bit_or 1 2) 4

-- aclFromSQLtoDTO: the privileges that a row's mask stands for.
unfoldable pub privileges_of_mask : ℕ → List Privilege
unfolding bitfield
privileges_of_mask m =
    (if ltb 0 (bit_and m (bitfield priv_insert)) then priv_insert ∷ [] else [])
    ++ ((if ltb 0 (bit_and m (bitfield priv_update)) then priv_update ∷ [] else [])
        ++ (if ltb 0 (bit_and m (bitfield priv_delete)) then priv_delete ∷ [] else []))

-- The loop of executeGrantPrivilegesTx; `none` is its "unknown privilege" error.
unfoldable pub grant_mask_from : ℕ → List Privilege → Option ℕ
unfolding bitfield
grant_mask_from m [] = some m
grant_mask_from m (priv_zero ∷ ps) = none
grant_mask_from m (p ∷ ps) = grant_mask_from (bit_or m (bitfield p)) ps

unfoldable pub grant_mask : List Privilege → Option ℕ
unfolding grant_mask_from
grant_mask ps = grant_mask_from 0 ps

-- The loop of executeRevokePrivilegesTx.
unfoldable pub revoke_mask_from : ℕ → List Privilege → Option ℕ
unfolding bitfield and_not
revoke_mask_from m [] = some m
revoke_mask_from m (priv_zero ∷ ps) = none
revoke_mask_from m (p ∷ ps) = revoke_mask_from (and_not m (bitfield p)) ps

unfoldable pub revoke_mask : List Privilege → Option ℕ
unfolding revoke_mask_from
revoke_mask ps = revoke_mask_from all_privileges ps
