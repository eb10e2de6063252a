-- ===== src/Tests/Names.antt =====
-- The properties of the names of tables at a small table.
use go_tableland.Prelude.{pos, ◌≡◌, refl, arith}
use go_tableland.Errors.{ok}
use go_tableland.Names.{new_table_from_name}
use go_tableland.Names.Printed.{new_table_from_name-full_table_name}
use go_tableland.System.{Table, full_table_name}

abbrev my_table : Table
my_table = record {
  id = pos 12;
  chain_id = 1337;
  controller = "0xab";
  prefix = "my_table";
  structure = "";
  created_at = pos 0;
}

new_table_from_name-full_table_name_example :
    new_table_from_name (full_table_name my_table)
    ≡ ok (record { prefix = "my_table"; chain_id = pos 1337; id = 12 })
new_table_from_name-full_table_name_example =
    new_table_from_name-full_table_name my_table 12 refl (omega arith)
