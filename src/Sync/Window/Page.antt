-- ===== src/Sync/Window/Page.antt =====
-- The changes of one page of target rows (reconcile_target_page of src/sync/chunk.rs), read one key
-- at a time.
use mariadb_mysql_cdc.Prelude.{
  Key, Map, ◌&&◌, not, Option, none, some, is_some, List, [], ◌∷◌, ◌≡◌, refl, arith, key_ord,
  =?_iff, if◌then◌else◌, contains, lookup, remove, lookup-remove, Option-cases, inl, inr,
}
use mariadb_mysql_cdc.Sync.Model.{DatabaseRow, SyncTable}
use mariadb_mysql_cdc.Sync.Window.{rows_diverge, reconcile_target_page}
use mariadb_mysql_cdc.Sync.Spec.{
  find, IsDistinct, IsKeyed, remove-IsKeyed, lookup-keyed, IsUnique, remove-IsUnique, IsOnce,
}

-- The source row of a key that the target has with other values.
abbrev pub divergent : SyncTable → Option DatabaseRow → Option DatabaseRow → Option DatabaseRow
divergent table (some s) (some t) = if rows_diverge table s t then some s else none
divergent table _ _ = none

module _ (table : SyncTable) (k : Key) where
  pub page-left :
      (m : Map Key DatabaseRow) (rows : List DatabaseRow)
      → lookup k (reconcile_target_page table m rows).1
        ≡ (if is_some (find k rows) then none else lookup k m)
  unfolding reconcile_target_page
  page-left m [] = refl
  page-left m (row ∷ rows) = ground (
    arith,
    page-left (remove row.primary_key m) rows,
    lookup-remove row.primary_key k m,
    =?_iff row.primary_key k,
  )

  pub page-deletes :
      (m : Map Key DatabaseRow) (rows : List DatabaseRow)
      → IsDistinct rows
      → contains k (reconcile_target_page table m rows).0.deletes
        ≡ (is_some (find k rows) && not (is_some (lookup k m)))
  unfolding reconcile_target_page contains
  page-deletes m [] d = refl
  page-deletes m (row ∷ rows) d = ground (
    arith,
    page-deletes (remove row.primary_key m) rows d.1,
    lookup-remove row.primary_key k m,
    =?_iff row.primary_key k,
    d.0,
  )

  pub page-updates :
      (m : Map Key DatabaseRow) (rows : List DatabaseRow)
      → IsDistinct rows
      → IsKeyed m
      → find k (reconcile_target_page table m rows).0.updates
        ≡ divergent table (lookup k m) (find k rows)
  unfolding reconcile_target_page
  page-updates m [] d h = ground arith
  page-updates m (row ∷ rows) d h = elim (Option-cases (lookup row.primary_key m)) [
    | inl e ↦ ground (
      arith,
      page-updates (remove row.primary_key m) rows d.1 (remove-IsKeyed row.primary_key m h),
      lookup-remove row.primary_key k m,
      =?_iff row.primary_key k,
      d.0,
    )
    | inr (s, e) ↦ ground (
      arith,
      page-updates (remove row.primary_key m) rows d.1 (remove-IsKeyed row.primary_key m h),
      lookup-remove row.primary_key k m,
      =?_iff row.primary_key k,
      lookup-keyed row.primary_key m s h e,
      d.0,
    )
  ]

pub page-IsKeyed :
    (table : SyncTable) (m : Map Key DatabaseRow) (rows : List DatabaseRow)
    → IsKeyed m
    → IsKeyed (reconcile_target_page table m rows).1
unfolding reconcile_target_page
page-IsKeyed table m [] h = h
page-IsKeyed table m (row ∷ rows) h =
    ground (
      arith,
      page-IsKeyed table (remove row.primary_key m) rows (remove-IsKeyed row.primary_key m h),
    )

-- The updates of a page are of different keys.
pub page-IsDistinct :
    (table : SyncTable) (m : Map Key DatabaseRow) (rows : List DatabaseRow)
    → IsDistinct rows
    → IsKeyed m
    → IsDistinct (reconcile_target_page table m rows).0.updates
unfolding reconcile_target_page
page-IsDistinct table m [] d h = tt
page-IsDistinct table m (row ∷ rows) d h = elim (Option-cases (lookup row.primary_key m)) [
  | inl e ↦ ground (
    arith,
    page-IsDistinct table (remove row.primary_key m) rows d.1 (remove-IsKeyed row.primary_key m h),
  )
  | inr (s, e) ↦ ground (
    arith,
    page-IsDistinct table (remove row.primary_key m) rows d.1 (remove-IsKeyed row.primary_key m h),
    page-updates table s.primary_key (remove row.primary_key m) rows d.1
        (remove-IsKeyed row.primary_key m h),
    lookup-remove row.primary_key s.primary_key m,
    =?_iff row.primary_key s.primary_key,
    lookup-keyed row.primary_key m s h e,
    d.0,
  )
]

pub page-IsUnique :
    (table : SyncTable) (m : Map Key DatabaseRow) (rows : List DatabaseRow)
    → IsUnique m
    → IsUnique (reconcile_target_page table m rows).1
unfolding reconcile_target_page
page-IsUnique table m [] u = u
page-IsUnique table m (row ∷ rows) u = ground (
  arith,
  page-IsUnique table (remove row.primary_key m) rows (remove-IsUnique row.primary_key m u),
)

-- A page deletes different keys.
pub page-IsOnce :
    (table : SyncTable) (m : Map Key DatabaseRow) (rows : List DatabaseRow)
    → IsDistinct rows
    → IsOnce (reconcile_target_page table m rows).0.deletes
unfolding reconcile_target_page
page-IsOnce table m [] d = tt
page-IsOnce table m (row ∷ rows) d = ground (
  arith,
  page-IsOnce table (remove row.primary_key m) rows d.1,
  page-deletes table row.primary_key (remove row.primary_key m) rows d.1,
  d.0,
)
