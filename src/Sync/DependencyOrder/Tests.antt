-- ===== src/Sync/DependencyOrder/Tests.antt =====
-- Plans at examples: src/sync/dependency_order.rs.
use mariadb_mysql_cdc.Prelude.{
  Name, codes, true, false, ◌&&◌, List, [], ◌∷◌, length, All, ◌≡◌, refl, some, lookup, insert,
  insert_set, remove_set, ◌=?◌, name_ord, ◌⊎◌, contains,
}
use mariadb_mysql_cdc.Sync.DependencyOrder.{
  parent_first, child_first, ForeignKeyInventory, planned, refused, cycle, is_internal, Successors,
  adjust, register_tables, add_dependencies, count_dependencies, release, release_batch, remove_all,
  run_batch, run_batches, schedule_batches, plan_dependency_batches, DependencyOrderError,
}
use mariadb_mysql_cdc.Sync.DependencyOrder.Plans.{
  tables_in, IsBatch, plan_dependency_batches-bounds,
}
use mariadb_mysql_cdc.Sync.DependencyOrder.Respects.{respects_key, plan_dependency_batches-respects}
use mariadb_mysql_cdc.Sync.DependencyOrder.Outcomes.{plan_dependency_batches-total}
use mariadb_mysql_cdc.Sync.DependencyOrder.Order.{all_done}
use mariadb_mysql_cdc.Sync.DependencyOrder.Covers.{plan_dependency_batches-covers}
use mariadb_mysql_cdc.Sync.DependencyOrder.Edges.{
  distinct, has_edge, plan_dependency_batches-distinct, add_dependencies-has_edge,
}

abbrev key_of : Name → Name → ForeignKeyInventory
key_of child parent = record {
  table = child;
  name = codes "fk";
  columns = codes "parent_id" ∷ [];
  referenced_schema = codes "catalog";
  referenced_table = parent;
  referenced_columns = codes "id" ∷ [];
}

abbrev comics : Name
comics = codes "c"

abbrev releases : Name
releases = codes "r"

abbrev pages : Name
pages = codes "p"

abbrev keys : List ForeignKeyInventory
keys = key_of releases comics ∷ key_of pages releases ∷ []

abbrev selected : List Name
selected = pages ∷ releases ∷ comics ∷ []

abbrev expected : List (List Name)
expected = (comics ∷ []) ∷ (releases ∷ []) ∷ (pages ∷ []) ∷ []

parents_first :
    plan_dependency_batches selected keys (codes "catalog") parent_first 8 ≡ some (planned expected)
unfolding plan_dependency_batches register_tables lookup insert add_dependencies adjust insert_set
    remove_set schedule_batches count_dependencies run_batches run_batch remove_all release_batch
    release ◌=?◌
parents_first = refl

children_first :
    plan_dependency_batches selected keys (codes "catalog") child_first 8
    ≡ some (planned ((pages ∷ []) ∷ (releases ∷ []) ∷ (comics ∷ []) ∷ []))
unfolding plan_dependency_batches register_tables lookup insert add_dependencies adjust insert_set
    remove_set schedule_batches count_dependencies run_batches run_batch remove_all release_batch
    release ◌=?◌
children_first = refl

cycle_refused :
    plan_dependency_batches selected (key_of comics pages ∷ keys) (codes "catalog") parent_first 1
    ≡ some (refused cycle)
unfolding plan_dependency_batches register_tables lookup insert add_dependencies adjust insert_set
    remove_set schedule_batches count_dependencies run_batches run_batch remove_all release_batch
    release ◌=?◌
cycle_refused = refl

plan_dependency_batches-total_example :
    let result = plan_dependency_batches selected keys (codes "catalog") parent_first 2 in
    ((batches : List (List Name)) × (result ≡ some (planned batches)))
    ⊎ ((error : DependencyOrderError) × (result ≡ some (refused error)))
plan_dependency_batches-total_example =
    plan_dependency_batches-total selected keys (codes "catalog") parent_first 2

plan_dependency_batches-bounds_example :
    (tables_in expected ≡ length selected) × All (IsBatch 8) expected
plan_dependency_batches-bounds_example =
    plan_dependency_batches-bounds selected keys (codes "catalog") parent_first 8 expected
      parents_first

plan_dependency_batches-distinct_example : distinct selected ≡ true
plan_dependency_batches-distinct_example =
    plan_dependency_batches-distinct selected keys (codes "catalog") parent_first 8 expected
      parents_first

abbrev no_edges : Successors
no_edges = (comics, []) ∷ (pages, []) ∷ (releases, []) ∷ []

abbrev edges : Successors
edges = (comics, releases ∷ []) ∷ (pages, []) ∷ (releases, pages ∷ []) ∷ []

edges_added : add_dependencies keys (codes "catalog") parent_first no_edges ≡ planned edges
unfolding add_dependencies adjust lookup insert_set ◌=?◌
edges_added = refl

add_dependencies-has_edge_example :
    All
      (λ key.
        (has_edge (codes "catalog") parent_first edges key ≡ true)
        × (is_internal (codes "catalog") key edges && (key.table =? key.referenced_table) ≡ false))
      keys
add_dependencies-has_edge_example =
    add_dependencies-has_edge keys (codes "catalog") parent_first no_edges edges edges_added

plan_dependency_batches-respects_example :
    All (λ key. respects_key selected (codes "catalog") parent_first expected key ≡ true) keys
plan_dependency_batches-respects_example =
    plan_dependency_batches-respects selected keys (codes "catalog") parent_first 8 expected
      parents_first

plan_dependency_batches-covers_example :
    (contains pages (all_done expected []) ≡ contains pages selected)
    × (distinct (all_done expected []) ≡ true)
plan_dependency_batches-covers_example =
    plan_dependency_batches-covers selected keys (codes "catalog") parent_first 8 expected pages
      parents_first
