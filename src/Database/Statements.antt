-- ===== src/Database/Statements.antt =====
-- The SQL statements that the executor's Go code contains, each as a function on the database
-- (pkg/eventprocessor/impl/executor/impl/txnscope_*.go and blockscope.go), with the constraints of
-- the schema: primary keys, the foreign keys into `registry` (the connection has _foreign_keys=on),
-- and the check that a controller is not the zero address.
use Prim.Native.Nat.{bit_and, bit_or}
use go_tableland.Prelude.{
  ℤ, pos, eq_ℤ, ℕ, ◌%◌, ◌^◌, String, Bool, false, ◌&&◌, ◌||◌, Option, none, some, List, [], ◌∷◌,
  ◌++◌, str_eq, ltb, ◌==◌, if◌then◌else◌, length,
}
use go_tableland.Errors.{err_error, GoError, text, sqlite, Result, ok, err}
use go_tableland.Database.{RegistryRow, ReceiptRow, Db, put₂, put₃, put₁, constraint}

abbrev pub Statement : Type 0 → Type 0
Statement A = Db → Result A × Db

-- INSERT INTO registry
unfoldable pub insert_registry : ℕ → ℤ → RegistryRow → Statement (Unit {0})
insert_registry chain id row db = elim (db.registry chain id) [
  | some old ↦ (err (constraint "UNIQUE constraint failed: registry.chain_id, registry.id"), db)
  | none ↦ (ok tt, record db { registry = put₂ db.registry chain id (some row) })
]

-- UPDATE registry SET controller; no row matches if the id is unknown
unfoldable pub update_registry_controller : ℕ → ℤ → ℕ → Statement (Unit {0})
update_registry_controller chain id owner db = elim (db.registry chain id) [
  | none ↦ (ok tt, db)
  | some row ↦ (
    ok tt,
    record db { registry = put₂ db.registry chain id (some (record row { controller = owner })) },
  )
]

abbrev foreign_key : GoError
foreign_key = constraint "FOREIGN KEY constraint failed"

-- INSERT INTO system_acl
unfoldable pub insert_acl : ℕ → ℤ → ℕ → ℕ → Statement (Unit {0})
insert_acl chain id address privileges db = elim (db.system_acl chain id address) [
  | some old ↦ (err (constraint "UNIQUE constraint failed: system_acl"), db)
  | none ↦ elim (db.registry chain id) [
    | none ↦ (err foreign_key, db)
    | some row ↦
        (ok tt, record db { system_acl = put₃ db.system_acl chain id address (some privileges) })
  ]
]

-- INSERT INTO system_acl ... ON CONFLICT DO UPDATE SET privileges = privileges | ?4
unfoldable pub upsert_acl : ℕ → ℤ → ℕ → ℕ → Statement (Unit {0})
upsert_acl chain id address mask db = elim (db.system_acl chain id address) [
  | some old ↦ (
    ok tt,
    record db { system_acl = put₃ db.system_acl chain id address (some (bit_or old mask)) },
  )
  | none ↦ elim (db.registry chain id) [
    | none ↦ (err foreign_key, db)
    | some row ↦ (ok tt, record db { system_acl = put₃ db.system_acl chain id address (some mask) })
  ]
]

-- UPDATE system_acl SET privileges = privileges & ?4
unfoldable pub revoke_acl : ℕ → ℤ → ℕ → ℕ → Statement (Unit {0})
revoke_acl chain id address mask db = elim (db.system_acl chain id address) [
  | none ↦ (ok tt, db)
  | some old ↦ (
    ok tt,
    record db { system_acl = put₃ db.system_acl chain id address (some (bit_and old mask)) },
  )
]

-- SELECT controller FROM system_controller; `none` is sql.ErrNoRows. The id is passed as a uint64,
-- which the driver refuses if its high bit is set.
unfoldable pub select_controller : ℕ → ℕ → Statement (Option ℕ)
select_controller chain id db =
    let low : ℕ = id % 2 ^ 64 in
    if ltb low (2 ^ 63)
    then (ok (db.system_controller chain (pos low)), db)
    else (err (text "uint64 values with high bit set are not supported"), db)

-- INSERT INTO system_controller ... ON CONFLICT DO UPDATE set controller
unfoldable pub upsert_controller : ℕ → ℤ → ℕ → Statement (Unit {0})
upsert_controller chain id controller db =
    if controller == 0
    then (err (constraint "CHECK constraint failed: system_controller"), db)
    else elim (db.registry chain id) [
      | none ↦ (err foreign_key, db)
      | some row ↦ (
        ok tt,
        record db { system_controller = put₂ db.system_controller chain id (some controller) },
      )
    ]

-- DELETE FROM system_controller
unfoldable pub delete_controller : ℕ → ℤ → Statement (Unit {0})
delete_controller chain id db =
    (ok tt, record db { system_controller = put₂ db.system_controller chain id none })

-- SELECT privileges FROM system_acl; `none` is sql.ErrNoRows
unfoldable pub select_acl : ℕ → ℤ → ℕ → Statement (Option ℕ)
select_acl chain id address db = (ok (db.system_acl chain id address), db)

-- SELECT (SELECT prefix FROM registry ...), (SELECT count(*) FROM table). An unknown table is an
-- SQL error; an unknown id gives NULL, which Scan refuses for a string.
unfoldable pub select_prefix_and_count : ℕ → ℤ → String → Statement (String × ℕ)
select_prefix_and_count chain id name db = elim (db.tables name) [
  | none ↦ (err (sqlite err_error "no such table"), db)
  | some rows ↦ elim (db.registry chain id) [
    | none ↦ (err (text "converting NULL to string is unsupported"), db)
    | some row ↦ (ok (row.prefix, length rows), db)
  ]
]

-- SELECT block_number FROM system_txn_processor; `none` is sql.ErrNoRows
unfoldable pub select_height : ℕ → Statement (Option ℤ)
select_height chain db = (ok (db.system_txn_processor chain), db)

-- UPDATE system_txn_processor, and its count of rows
unfoldable pub update_height : ℕ → ℤ → Statement ℕ
update_height chain height db = elim (db.system_txn_processor chain) [
  | none ↦ (ok 0, db)
  | some old ↦
      (ok 1, record db { system_txn_processor = put₁ db.system_txn_processor chain (some height) })
]

-- INSERT INTO system_txn_processor
unfoldable pub insert_height : ℕ → ℤ → Statement (Unit {0})
insert_height chain height db = elim (db.system_txn_processor chain) [
  | some old ↦ (err (constraint "UNIQUE constraint failed: system_txn_processor"), db)
  | none ↦
      (ok tt, record db { system_txn_processor = put₁ db.system_txn_processor chain (some height) })
]

unfoldable pub has_hash : ℕ → String → List ReceiptRow → Bool
has_hash chain hash [] = false
has_hash chain hash (r ∷ rs) =
    ((r.chain_id == chain) && str_eq r.txn_hash hash) || has_hash chain hash rs

unfoldable pub has_position : ℕ → ℤ → ℕ → List ReceiptRow → Bool
has_position chain block idx [] = false
has_position chain block idx (r ∷ rs) =
    ((r.chain_id == chain) && (eq_ℤ r.block_number block && (r.index_in_block == idx)))
    || has_position chain block idx rs

-- SELECT 1 from system_txn_receipts
unfoldable pub exists_receipt : ℕ → String → Statement Bool
unfolding has_hash
exists_receipt chain hash db = (ok (has_hash chain hash db.system_txn_receipts), db)

-- INSERT INTO system_txn_receipts, under its primary key and its unique index
unfoldable pub insert_receipt : ReceiptRow → Statement (Unit {0})
unfolding has_hash has_position
insert_receipt r db =
    if has_position r.chain_id r.block_number r.index_in_block db.system_txn_receipts
      || has_hash r.chain_id r.txn_hash db.system_txn_receipts
    then (err (constraint "UNIQUE constraint failed: system_txn_receipts"), db)
    else (ok tt, record db { system_txn_receipts = db.system_txn_receipts ++ (r ∷ []) })
