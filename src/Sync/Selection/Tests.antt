-- ===== src/Sync/Selection/Tests.antt =====
-- A selection with its parents, and the theorem at it.
use mariadb_mysql_cdc.Prelude.{
  Name, true, List, [], ◌∷◌, ◌≡◌, ◌≢◌, ◌↔◌, refl, codes, name_ord, contains, insert_set, ◌=?◌, All,
}
use mariadb_mysql_cdc.Sync.Exec.{ok, err, unselected_parent}
use mariadb_mysql_cdc.Sync.DependencyOrder.Edges.{distinct}
use mariadb_mysql_cdc.Sync.Selection.{
  SchemaInventory, select_names, require_parents, validate_selected_tables,
}
use mariadb_mysql_cdc.Sync.Selection.Closed.{IsKnown, IsClosed, validate_selected_tables-accepts}

abbrev inventory : SchemaInventory
inventory = record {
  schema = codes "shop";
  tables = codes "orders" ∷ codes "users" ∷ [];
  foreign_keys =
      record {
        table = codes "orders";
        name = codes "fk";
        columns = codes "user" ∷ [];
        referenced_schema = codes "shop";
        referenced_table = codes "users";
        referenced_columns = codes "id" ∷ [];
      }
      ∷ [];
}

abbrev both : List Name
both = codes "users" ∷ codes "orders" ∷ []

valid : validate_selected_tables inventory both ≡ ok tt
unfolding validate_selected_tables select_names require_parents contains insert_set ◌=?◌
valid = refl

without_parent :
    validate_selected_tables inventory (codes "orders" ∷ [])
    ≡ err (unselected_parent (codes "orders") (codes "users"))
unfolding validate_selected_tables select_names require_parents contains insert_set ◌=?◌
without_parent = refl

validate_selected_tables-accepts_example : (validate_selected_tables inventory both ≡ ok tt) ↔ (
    (both ≢ [])
    × (distinct both ≡ true)
    × All (IsKnown inventory) both
    × All (IsClosed inventory both) inventory.foreign_keys)
validate_selected_tables-accepts_example = validate_selected_tables-accepts inventory both
