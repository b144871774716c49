-- ===== src/Sync/Selection.antt =====
-- The tables that a synchronisation selects (validate_selected_tables of src/sync/orchestrate.rs).
pub mod Closed
mod Tests
use mariadb_mysql_cdc.Prelude.{
  Name, Bool, true, false, ◌&&◌, not, List, [], ◌∷◌, name_ord, ◌=?◌, if◌then◌else◌, contains,
  insert_set,
}
use mariadb_mysql_cdc.Sync.Exec.{
  no_selected_table, selected_duplicated, selected_missing, unselected_parent, Outcome, ok, err,
}
use mariadb_mysql_cdc.Sync.DependencyOrder.{ForeignKeyInventory}

-- The tables by their names.
pub record SchemaInventory : Type 0 where
  pub schema : Name
  pub tables : List Name
  pub foreign_keys : List ForeignKeyInventory

-- The set of the names, or the first one that is duplicated or missing.
unfoldable pub select_names : SchemaInventory → List Name → List Name → Outcome (List Name)
select_names inventory names [] = ok names
select_names inventory names (name ∷ selected) =
    let rest = select_names inventory (insert_set name names) selected in
    if contains name names
    then err (selected_duplicated name)
    else if not (contains name inventory.tables)
    then err (selected_missing name)
    else rest

abbrev pub needs_parent : SchemaInventory → List Name → ForeignKeyInventory → Bool
needs_parent inventory selected key =
    contains key.table selected
    && (key.referenced_schema =? inventory.schema)
    && not (contains key.referenced_table selected)

unfoldable pub require_parents :
    SchemaInventory → List Name → List ForeignKeyInventory → Outcome (Unit {0})
require_parents inventory selected [] = ok tt
require_parents inventory selected (key ∷ keys) =
    let rest = require_parents inventory selected keys in
    if needs_parent inventory selected key
    then err (unselected_parent key.table key.referenced_table)
    else rest

abbrev pub require_selected_same_schema_parents : SchemaInventory → List Name → Outcome (Unit {0})
require_selected_same_schema_parents inventory selected =
    require_parents inventory selected inventory.foreign_keys

abbrev require_for : SchemaInventory → Outcome (List Name) → Outcome (Unit {0})
require_for inventory (err e) = err e
require_for inventory (ok names) = require_selected_same_schema_parents inventory names

unfoldable pub validate_selected_tables : SchemaInventory → List Name → Outcome (Unit {0})
unfolding select_names require_parents
validate_selected_tables inventory [] = err no_selected_table
validate_selected_tables inventory (name ∷ selected) =
    require_for inventory (select_names inventory [] (name ∷ selected))
