-- ===== src/Sync/DependencyOrder/Edges.antt =====
-- The tables and the edges of a plan: src/sync/dependency_order.rs.
use mariadb_mysql_cdc.Prelude.{
  ℕ, Name, Bool, true, false, ◌&&◌, ◌||◌, not, ◌≡◌, refl, inl, inr, Option-cases, none, some,
  is_some, List, [], ◌∷◌, All, arith, ◌=?◌, name_ord, =?_iff, lookup, insert, lookup-insert,
  contains, insert_set, contains-insert_set, Bool-cases,
}
use mariadb_mysql_cdc.Sync.DependencyOrder.{
  Direction, ForeignKeyInventory, planned, Planned-cases, Successors, before_of, after_of,
  is_internal, add_dependencies, register_tables, plan_dependency_batches, adjust,
}

abbrev pub distinct : List Name → Bool
distinct [] = true
distinct (x ∷ xs) = not (contains x xs) && distinct xs

register_fresh :
    (table : Name) (selected : List Name) (m m' : Successors)
    → register_tables selected m ≡ planned m'
    → is_some (lookup table m) ≡ true
    → contains table selected ≡ false
unfolding register_tables contains
register_fresh table [] m m' h s = ground arith
register_fresh table (x ∷ rest) m m' h s = elim (Option-cases (lookup x m)) [
  | inl e ↦ ground (
    arith,
    =?_iff x table,
    lookup-insert x table [] m,
    register_fresh table rest (insert x [] m) m',
  )
  | inr (afters, e) ↦ absurd (ground arith)
]

register_distinct :
    (selected : List Name) (m m' : Successors)
    → register_tables selected m ≡ planned m'
    → distinct selected ≡ true
unfolding register_tables
register_distinct [] m m' h = refl
register_distinct (x ∷ rest) m m' h = elim (Option-cases (lookup x m)) [
  | inl e ↦ ground (
    arith,
    =?_iff x x,
    lookup-insert x x [] m,
    register_fresh x rest (insert x [] m) m',
    register_distinct rest (insert x [] m) m',
  )
  | inr (afters, e) ↦ absurd (ground arith)
]

-- A table selected twice has no plan.
pub plan_dependency_batches-distinct :
    (selected : List Name) (keys : List ForeignKeyInventory) (schema : Name) (direction : Direction)
    (max_parallelism : ℕ) (batches : List (List Name))
    → plan_dependency_batches selected keys schema direction max_parallelism
      ≡ some (planned batches)
    → distinct selected ≡ true
unfolding plan_dependency_batches
plan_dependency_batches-distinct selected keys schema direction max batches h =
    elim (Planned-cases (register_tables selected [])) [
      | inl (m, e) ↦ register_distinct selected [] m e
      | inr (inl (x, e)) ↦ absurd (ground arith)
      | inr (inr e) ↦ absurd (ground arith)
    ]

-- `after` is among the successors of `before`.
abbrev pub waits : Name → Name → Successors → Bool
waits before after m = elim (lookup before m) [ none ↦ false | some afters ↦ contains after afters ]

lookup-adjust :
    (k j : Name) (f : List Name → List Name) (m : Successors)
    → lookup j (adjust k f m) ≡ (elim (lookup j m) [
      | none ↦ none
      | some v ↦ some (elim (k =? j) [ true ↦ f v | false ↦ v ])
    ])
unfolding lookup adjust
lookup-adjust k j f [] = refl
lookup-adjust k j f ((i, v) ∷ m) =
    ground (arith, =?_iff k j, =?_iff i k, =?_iff i j, lookup-adjust k j f m)

waits-adjust :
    (k new before after : Name) (m : Successors)
    → waits before after m ≡ true
    → waits before after (adjust k (insert_set new) m) ≡ true
waits-adjust k new before after m h = elim (Option-cases (lookup before m)) [
  | inl e ↦ absurd (ground arith)
  | inr (afters, e) ↦
      ground
        (arith, lookup-adjust k before (insert_set new) m, contains-insert_set new after afters)
]

adjust_waits :
    (before after : Name) (m : Successors)
    → is_some (lookup before m) ≡ true
    → waits before after (adjust before (insert_set after) m) ≡ true
adjust_waits before after m h = elim (Option-cases (lookup before m)) [
  | inl e ↦ absurd (ground arith)
  | inr (afters, e) ↦ ground (
    arith,
    =?_iff before before,
    =?_iff after after,
    lookup-adjust before before (insert_set after) m,
    contains-insert_set after after afters,
  )
]

has_table-adjust :
    (k j : Name) (f : List Name → List Name) (m : Successors)
    → is_some (lookup j (adjust k f m)) ≡ is_some (lookup j m)
has_table-adjust k j f m = elim (Option-cases (lookup j m)) [
  | inl e ↦ ground (arith, lookup-adjust k j f m)
  | inr (v, e) ↦ ground (arith, lookup-adjust k j f m)
]

add_dependencies-keeps :
    (keys : List ForeignKeyInventory) (schema : Name) (direction : Direction) (before after : Name)
    (m m' : Successors)
    → add_dependencies keys schema direction m ≡ planned m'
    → waits before after m ≡ true
    → waits before after m' ≡ true
unfolding add_dependencies
add_dependencies-keeps [] schema direction before after m m' h w = ground arith
add_dependencies-keeps (key ∷ rest) schema direction before after m m' h w =
    let added = adjust (before_of direction key) (insert_set (after_of direction key)) m in
    ground (
      arith,
      waits-adjust (before_of direction key) (after_of direction key) before after m,
      add_dependencies-keeps rest schema direction before after m m',
      add_dependencies-keeps rest schema direction before after added m',
    )

-- The edge of a foreign key is there, or the key is not between two selected tables.
abbrev pub has_edge : Name → Direction → Successors → ForeignKeyInventory → Bool
has_edge schema direction m key =
    not (is_internal schema key m) || waits (before_of direction key) (after_of direction key) m

is_internal-adjust :
    (schema k : Name) (f : List Name → List Name) (key : ForeignKeyInventory) (m : Successors)
    → is_internal schema key (adjust k f m) ≡ is_internal schema key m
is_internal-adjust schema k f key m =
    ground (arith, has_table-adjust k key.table f m, has_table-adjust k key.referenced_table f m)

pub add_dependencies-is_internal :
    (keys : List ForeignKeyInventory) (schema : Name) (direction : Direction)
    (key : ForeignKeyInventory) (m m' : Successors)
    → add_dependencies keys schema direction m ≡ planned m'
    → is_internal schema key m' ≡ is_internal schema key m
unfolding add_dependencies
add_dependencies-is_internal [] schema direction key m m' h = ground arith
add_dependencies-is_internal (k ∷ rest) schema direction key m m' h =
    let added = adjust (before_of direction k) (insert_set (after_of direction k)) m in
    ground (
      arith,
      is_internal-adjust schema (before_of direction k) (insert_set (after_of direction k)) key m,
      add_dependencies-is_internal rest schema direction key m m',
      add_dependencies-is_internal rest schema direction key added m',
    )

-- Every foreign key between two selected tables of the schema puts its edge in the map, from the
-- table that is synchronised first, and no such key refers to its own table.
pub add_dependencies-has_edge :
    (keys : List ForeignKeyInventory) (schema : Name) (direction : Direction) (m m' : Successors)
    → add_dependencies keys schema direction m ≡ planned m'
    → All
        (λ key.
          (has_edge schema direction m' key ≡ true)
          × (is_internal schema key m' && (key.table =? key.referenced_table) ≡ false))
        keys
unfolding add_dependencies
add_dependencies-has_edge [] schema direction m m' h = tt
add_dependencies-has_edge (key ∷ rest) schema direction m m' h =
    let before = before_of direction key in
    let after = after_of direction key in
    let added = adjust before (insert_set after) m in
    let same = add_dependencies-is_internal (key ∷ rest) schema direction key m m' h in
    elim (Bool-cases (is_internal schema key m)) [
      | inr e ↦ (
        (ground (arith, same), ground (arith, same)),
        add_dependencies-has_edge rest schema direction m m' (ground arith),
      )
      | inl e ↦ elim (Bool-cases (key.table =? key.referenced_table)) [
        | inl s ↦ absurd (ground arith)
        | inr s ↦ (
          (
            ground (
              arith,
              adjust_waits before after m,
              add_dependencies-keeps rest schema direction before after added m',
            ),
            ground arith,
          ),
          add_dependencies-has_edge rest schema direction added m' (ground arith),
        )
      ]
    ]
