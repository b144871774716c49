-- ===== src/Sync/DependencyOrder/Outcomes.antt =====
-- The outcomes of a plan: src/sync/dependency_order.rs.
use mariadb_mysql_cdc.Prelude.{
  ℕ, Name, true, ◌||◌, ◌≡◌, ◌≢◌, refl, subst, inl, inr, Option-cases, some, List, [], ◌∷◌, ◌++◌,
  arith, ◌=?◌, name_ord, =?_iff, lookup, contains, insert, insert_set, contains-insert_set,
  Bool-cases, ◌⊎◌,
}
use mariadb_mysql_cdc.Sync.DependencyOrder.{
  planned, refused, panicked, Planned-cases, Successors, adjust, all_successors, register_tables,
  add_dependencies, plan_dependency_batches, Direction, ForeignKeyInventory, before_of, after_of,
  parent_first, child_first, is_internal, DependencyOrderError,
}
use mariadb_mysql_cdc.Sync.DependencyOrder.Edges.{distinct}
use mariadb_mysql_cdc.Sync.DependencyOrder.Pending.{keys_of}
use mariadb_mysql_cdc.Sync.DependencyOrder.Plans.{plan_dependency_batches-finishes}
use mariadb_mysql_cdc.Sync.DependencyOrder.Panics.{has_key}
use mariadb_mysql_cdc.Sync.DependencyOrder.Total.{Closed, schedule_batches_no_panic}
use mariadb_mysql_cdc.Sync.DependencyOrder.Starts.{
  register_tables-distinct, keys_of-add_dependencies, keys_of-adjust,
}

contains-append :
    (v : Name) (xs ys : List Name) → contains v (xs ++ ys) ≡ (contains v xs || contains v ys)
unfolding contains
contains-append v [] ys = refl
contains-append v (x ∷ xs) ys = ground (arith, contains-append v xs ys)

insert_no_successors :
    (k : Name) (m : Successors) → all_successors m ≡ [] → all_successors (insert k [] m) ≡ []
unfolding insert
insert_no_successors k [] e = refl
insert_no_successors k ((j, []) ∷ m) e = ground (arith, insert_no_successors k m)
insert_no_successors k ((j, x ∷ xs) ∷ m) e = absurd (ground arith)

register_no_successors :
    (selected : List Name) (m m' : Successors)
    → all_successors m ≡ []
    → register_tables selected m ≡ planned m'
    → all_successors m' ≡ []
unfolding register_tables
register_no_successors [] m m' n h = ground arith
register_no_successors (table ∷ rest) m m' n h = elim (Option-cases (lookup table m)) [
  | inl e ↦
      register_no_successors rest (insert table [] m) m' (insert_no_successors table m n)
        (ground arith)
  | inr (afters, e) ↦ absurd (ground arith)
]

successors-adjust :
    (v k after : Name) (m : Successors)
    → contains v (all_successors (adjust k (insert_set after) m)) ≡ true
    → ((after =? v) || contains v (all_successors m)) ≡ true
unfolding adjust contains
successors-adjust v k after [] h = absurd (ground arith)
successors-adjust v k after ((j, afters) ∷ m) h = ground (
  arith,
  contains-append v (insert_set after afters) (all_successors m),
  contains-append v afters (all_successors m),
  contains-append v afters (all_successors (adjust k (insert_set after) m)),
  contains-insert_set after v afters,
  successors-adjust v k after m,
)

after_key :
    (schema : Name) (direction : Direction) (key : ForeignKeyInventory) (m : Successors)
    → is_internal schema key m ≡ true
    → contains (after_of direction key) (keys_of m) ≡ true
after_key schema parent_first key m h = ground (arith, has_key key.table m)
after_key schema child_first key m h = ground (arith, has_key key.referenced_table m)

adjust-Closed :
    (k after : Name) (m : Successors)
    → contains after (keys_of m) ≡ true
    → Closed m
    → Closed (adjust k (insert_set after) m)
adjust-Closed k after m a c v h =
    let same = keys_of-adjust k (insert_set after) m in
    rw same (ground (arith, =?_iff after v, successors-adjust v k after m, c v))

add_dependencies-Closed :
    (keys : List ForeignKeyInventory) (schema : Name) (direction : Direction) (m m' : Successors)
    → Closed m
    → add_dependencies keys schema direction m ≡ planned m'
    → Closed m'
unfolding add_dependencies
add_dependencies-Closed [] schema direction m m' c h =
    let e : m ≡ m' = ground arith in subst (λ x. Closed x) e c
add_dependencies-Closed (key ∷ rest) schema direction m m' c h =
    let before = before_of direction key in
    let after = after_of direction key in
    elim (Bool-cases (is_internal schema key m)) [
      | inr n ↦ add_dependencies-Closed rest schema direction m m' c (ground arith)
      | inl i ↦ elim (Bool-cases (key.table =? key.referenced_table)) [
        | inl s ↦ absurd (ground arith)
        | inr s ↦
            add_dependencies-Closed rest schema direction (adjust before (insert_set after) m) m'
              (adjust-Closed before after m (after_key schema direction key m i) c) (ground arith)
      ]
    ]

register_no_panic : (selected : List Name) (m : Successors) → register_tables selected m ≢ panicked
unfolding register_tables
register_no_panic [] m h = ground arith
register_no_panic (table ∷ rest) m h = ground (arith, register_no_panic rest (insert table [] m))

add_no_panic :
    (keys : List ForeignKeyInventory) (schema : Name) (direction : Direction) (m : Successors)
    → add_dependencies keys schema direction m ≢ panicked
unfolding add_dependencies
add_no_panic [] schema direction m h = ground arith
add_no_panic (key ∷ rest) schema direction m h =
    let added = adjust (before_of direction key) (insert_set (after_of direction key)) m in
    ground (arith, add_no_panic rest schema direction m, add_no_panic rest schema direction added)

empty-Closed : (m : Successors) → all_successors m ≡ [] → Closed m
unfolding contains
empty-Closed m e v c = absurd (ground arith)

no_panic :
    (selected : List Name) (keys : List ForeignKeyInventory) (schema : Name) (direction : Direction)
    (max : ℕ)
    → plan_dependency_batches selected keys schema direction max ≢ some panicked
unfolding plan_dependency_batches
no_panic selected keys schema direction max h = elim (Planned-cases (register_tables selected [])) [
  | inl (m0, e0) ↦ elim (Planned-cases (add_dependencies keys schema direction m0)) [
    | inl (m, e) ↦
        let d = register_tables-distinct selected [] m0 refl e0 in
        let distinct_keys : distinct (keys_of m) ≡ true =
          rw (keys_of-add_dependencies keys schema direction m0 m e) d in
        let empty = register_no_successors selected [] m0 refl e0 in
        let closed = add_dependencies-Closed keys schema direction m0 m (empty-Closed m0 empty) e in
        ground (arith, schedule_batches_no_panic m max distinct_keys closed)
    | inr (inl (x, e)) ↦ ground arith
    | inr (inr e) ↦ add_no_panic keys schema direction m0 e
  ]
  | inr (inl (x, e)) ↦ ground arith
  | inr (inr e) ↦ register_no_panic selected [] e
]

-- For all inputs there is a plan or an error: the loop over batches ends, every lookup of the
-- scheduling finds its table, and no count is lowered below zero.
pub plan_dependency_batches-total :
    (selected : List Name) (keys : List ForeignKeyInventory) (schema : Name) (direction : Direction)
    (max_parallelism : ℕ)
    → let result = plan_dependency_batches selected keys schema direction max_parallelism in
      ((batches : List (List Name)) × (result ≡ some (planned batches)))
      ⊎ ((error : DependencyOrderError) × (result ≡ some (refused error)))
plan_dependency_batches-total selected keys schema direction max =
    elim (Option-cases (plan_dependency_batches selected keys schema direction max)) [
      | inl e ↦ absurd (plan_dependency_batches-finishes selected keys schema direction max e)
      | inr (planned batches, e) ↦ inl (batches, e)
      | inr (refused x, e) ↦ inr (x, e)
      | inr (panicked, e) ↦ absurd (no_panic selected keys schema direction max e)
    ]
