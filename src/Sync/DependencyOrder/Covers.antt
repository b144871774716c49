-- ===== src/Sync/DependencyOrder/Covers.antt =====
-- Every selected table is in one batch: src/sync/dependency_order.rs.
use mariadb_mysql_cdc.Prelude.{
  ℕ, Name, true, ◌≡◌, ◌∙◌, refl, subst, inl, inr, Option-cases, some, List, [], length, arith,
  name_ord, lookup, contains, Bool-cases,
}
use mariadb_mysql_cdc.Sync.DependencyOrder.{
  planned, refused, panicked, Planned-cases, Successors, run_batches, remaining, start,
  all_successors, zero_counts, count_dependencies, schedule_batches, register_tables,
  add_dependencies, plan_dependency_batches, Direction, ForeignKeyInventory,
}
use mariadb_mysql_cdc.Sync.DependencyOrder.Edges.{distinct}
use mariadb_mysql_cdc.Sync.DependencyOrder.Pending.{keys_of}
use mariadb_mysql_cdc.Sync.DependencyOrder.Plans.{plan_dependency_batches-bounds}
use mariadb_mysql_cdc.Sync.DependencyOrder.Order.{all_done}
use mariadb_mysql_cdc.Sync.DependencyOrder.Batches.{run_batches-Ordered}
use mariadb_mysql_cdc.Sync.DependencyOrder.Panics.{has_key}
use mariadb_mysql_cdc.Sync.DependencyOrder.Respects.{register_tables-has}
use mariadb_mysql_cdc.Sync.DependencyOrder.Once.{
  AllWithin, within_all, length-all_done, run_batches-Covered,
}
use mariadb_mysql_cdc.Sync.DependencyOrder.Starts.{
  start-Releasing, register_tables-distinct, keys_of-add_dependencies, keys_of-count_all,
  keys_of-zero_counts, ready_in,
}

-- The tables of a plan are distinct and selected.
record IsSelection (selected : List Name) (batches : List (List Name)) : Type 0 where
  once : distinct (all_done batches []) ≡ true
  within : AllWithin (all_done batches []) selected

schedule_batches-IsSelection :
    (m : Successors) (max : ℕ) (batches : List (List Name))
    → distinct (keys_of m) ≡ true
    → schedule_batches m max ≡ some (planned batches)
    → IsSelection (keys_of m) batches
unfolding schedule_batches count_dependencies contains
schedule_batches-IsSelection m max batches d h = elim (Planned-cases (count_dependencies m)) [
  | inl (counts, e) ↦
      let same =
        keys_of-count_all (all_successors m) (zero_counts m) counts e ∙ keys_of-zero_counts m in
      elim (Option-cases (run_batches (remaining (start counts)) m max (start counts))) [
        | inl n ↦ absurd (ground arith)
        | inr (planned s, r) ↦
            let o =
              run_batches-Ordered m d (remaining (start counts)) max (start counts) s
                (record { between = start-Releasing m counts d e; ordered = refl }) r in
            let c =
              run_batches-Covered m d (remaining (start counts)) max (start counts) s
                (record {
                  within = record {
                    keys = same;
                    ready_keys =
                        λ v q. subst (λ ks. contains v ks ≡ true) same (ready_in v counts q);
                  };
                  done_keys = λ v q. absurd (ground arith);
                })
                r in
            let b : s.batches ≡ batches = ground arith in
            subst (λ x. IsSelection (keys_of m) x) b
              (record { once = o.between.done_distinct; within = c.done_keys })
        | inr (refused x, r) ↦ absurd (ground arith)
        | inr (panicked, r) ↦ absurd (ground arith)
      ]
  | inr (inl (x, e)) ↦ absurd (ground arith)
  | inr (inr e) ↦ absurd (ground arith)
]

selected_keys :
    (selected : List Name) (m : Successors) (v : Name)
    → register_tables selected [] ≡ planned m
    → contains v (keys_of m) ≡ contains v selected
unfolding lookup
selected_keys selected m v h = ground (arith, has_key v m, register_tables-has v selected [] m h)

plan_dependency_batches-IsSelection :
    (selected : List Name) (keys : List ForeignKeyInventory) (schema : Name) (direction : Direction)
    (max : ℕ) (batches : List (List Name))
    → plan_dependency_batches selected keys schema direction max ≡ some (planned batches)
    → IsSelection selected batches
unfolding plan_dependency_batches
plan_dependency_batches-IsSelection selected keys schema direction max batches h =
    elim (Planned-cases (register_tables selected [])) [
      | inl (m0, e0) ↦ elim (Planned-cases (add_dependencies keys schema direction m0)) [
        | inl (m, e) ↦
            let same = keys_of-add_dependencies keys schema direction m0 m e in
            let d : distinct (keys_of m) ≡ true =
              rw same (register_tables-distinct selected [] m0 refl e0) in
            let i = schedule_batches-IsSelection m max batches d (ground arith) in
            record {
              once = i.once;
              within = λ v c.
                  subst (λ x. x ≡ true) (selected_keys selected m0 v e0)
                    (subst (λ ks. contains v ks ≡ true) same (i.within v c));
            }
        | inr (inl (x, e)) ↦ absurd (ground arith)
        | inr (inr e) ↦ absurd (ground arith)
      ]
      | inr (inl (x, e)) ↦ absurd (ground arith)
      | inr (inr e) ↦ absurd (ground arith)
    ]

-- The tables of the batches of a plan are exactly the selected ones, and none is there twice.
pub plan_dependency_batches-covers :
    (selected : List Name) (keys : List ForeignKeyInventory) (schema : Name) (direction : Direction)
    (max_parallelism : ℕ) (batches : List (List Name)) (table : Name)
    → plan_dependency_batches selected keys schema direction max_parallelism
      ≡ some (planned batches)
    → (contains table (all_done batches []) ≡ contains table selected)
      × (distinct (all_done batches []) ≡ true)
plan_dependency_batches-covers selected keys schema direction max batches table h =
    let i = plan_dependency_batches-IsSelection selected keys schema direction max batches h in
    let bounds = plan_dependency_batches-bounds selected keys schema direction max batches h in
    let sizes : length (all_done batches []) ≡ length selected =
      ground (arith, length-all_done batches [], bounds.0) in
    let back = within_all (all_done batches []) selected i.once i.within sizes in
    (
      ground (
        arith,
        i.within table,
        back table,
        Bool-cases (contains table selected),
        Bool-cases (contains table (all_done batches [])),
      ),
      i.once,
    )
