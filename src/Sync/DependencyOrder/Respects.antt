-- ===== src/Sync/DependencyOrder/Respects.antt =====
-- A plan respects every foreign key between selected tables: src/sync/dependency_order.rs.
use mariadb_mysql_cdc.Prelude.{
  ℕ, Name, Bool, true, false, ◌&&◌, ◌||◌, not, ◌≡◌, ◌∙◌, refl, subst, inl, inr, Option-cases, some,
  is_some, List, [], ◌∷◌, All, arith, ◌=?◌, name_ord, =?_iff, lookup, contains, insert, Bool-cases,
  lookup-insert,
}
use mariadb_mysql_cdc.Sync.DependencyOrder.{
  planned, refused, panicked, Planned-cases, Successors, run_batches, remaining, start,
  count_dependencies, schedule_batches, register_tables, is_internal, add_dependencies,
  plan_dependency_batches, Direction, ForeignKeyInventory, before_of, after_of,
}
use mariadb_mysql_cdc.Sync.DependencyOrder.Edges.{
  distinct, waits, has_edge, add_dependencies-has_edge, add_dependencies-is_internal,
}
use mariadb_mysql_cdc.Sync.DependencyOrder.Pending.{keys_of}
use mariadb_mysql_cdc.Sync.DependencyOrder.Released.{done_after}
use mariadb_mysql_cdc.Sync.DependencyOrder.Order.{is_free, all_free, is_ordered}
use mariadb_mysql_cdc.Sync.DependencyOrder.Batches.{run_batches-Ordered}
use mariadb_mysql_cdc.Sync.DependencyOrder.Starts.{
  start-Releasing, register_tables-distinct, keys_of-add_dependencies,
}

schedule_batches-ordered :
    (m : Successors) (max : ℕ) (batches : List (List Name))
    → distinct (keys_of m) ≡ true
    → schedule_batches m max ≡ some (planned batches)
    → is_ordered m [] batches ≡ true
unfolding schedule_batches count_dependencies
schedule_batches-ordered m max batches d h = elim (Planned-cases (count_dependencies m)) [
  | inl (counts, e) ↦
      elim (Option-cases (run_batches (remaining (start counts)) m max (start counts))) [
        | inl n ↦ absurd (ground arith)
        | inr (planned s, r) ↦
            let i =
              run_batches-Ordered m d (remaining (start counts)) max (start counts) s
                (record { between = start-Releasing m counts d e; ordered = refl }) r in
            let b : s.batches ≡ batches = ground arith in
            subst (λ x. is_ordered m [] x ≡ true) b i.ordered
        | inr (refused x, r) ↦ absurd (ground arith)
        | inr (panicked, r) ↦ absurd (ground arith)
      ]
  | inr (inl (x, e)) ↦ absurd (ground arith)
  | inr (inr e) ↦ absurd (ground arith)
]

-- Where `after` is in a batch, `before` is in a batch before it; `done` are the tables before.
abbrev pub respects : Name → Name → List Name → List (List Name) → Bool
respects before after done [] = true
respects before after done (batch ∷ batches) =
    (not (contains after batch) || contains before done)
    && respects before after (done_after batch done) batches

is_free-waits :
    (before after : Name) (done : List Name) (m : Successors)
    → is_free after done m ≡ true
    → waits before after m ≡ true
    → contains before done ≡ true
unfolding lookup
is_free-waits before after done [] f w = absurd (ground arith)
is_free-waits before after done ((u, afters) ∷ m) f w =
    ground (arith, =?_iff u before, is_free-waits before after done m)

all_free-in :
    (v : Name) (batch done : List Name) (m : Successors)
    → all_free batch done m ≡ true
    → contains v batch ≡ true
    → is_free v done m ≡ true
unfolding contains
all_free-in v [] done m f c = absurd (ground arith)
all_free-in v (x ∷ xs) done m f c = ground (arith, =?_iff x v, all_free-in v xs done m)

ordered_respects :
    (m : Successors) (before after : Name) (done : List Name) (batches : List (List Name))
    → is_ordered m done batches ≡ true
    → waits before after m ≡ true
    → respects before after done batches ≡ true
ordered_respects m before after done [] o w = refl
ordered_respects m before after done (batch ∷ batches) o w = ground (
  arith,
  all_free-in after batch done m,
  is_free-waits before after done m,
  ordered_respects m before after (done_after batch done) batches,
  Bool-cases (contains after batch),
)

pub register_tables-has :
    (table : Name) (selected : List Name) (m m' : Successors)
    → register_tables selected m ≡ planned m'
    → is_some (lookup table m') ≡ (contains table selected || is_some (lookup table m))
unfolding register_tables contains
register_tables-has table [] m m' h = ground arith
register_tables-has table (x ∷ rest) m m' h = elim (Option-cases (lookup x m)) [
  | inl e ↦ ground (
    arith,
    =?_iff x table,
    lookup-insert x table [] m,
    register_tables-has table rest (insert x [] m) m',
  )
  | inr (afters, e) ↦ absurd (ground arith)
]

-- A foreign key between two selected tables of the schema.
abbrev pub is_selected : List Name → Name → ForeignKeyInventory → Bool
is_selected selected schema key =
    (key.referenced_schema =? schema)
    && (contains key.table selected && contains key.referenced_table selected)

abbrev pub respects_key :
    List Name → Name → Direction → List (List Name) → ForeignKeyInventory → Bool
respects_key selected schema direction batches key =
    not (is_selected selected schema key)
    || respects (before_of direction key) (after_of direction key) [] batches

is_internal-selected :
    (selected : List Name) (schema : Name) (key : ForeignKeyInventory) (m : Successors)
    → register_tables selected [] ≡ planned m
    → is_internal schema key m ≡ is_selected selected schema key
unfolding lookup
is_internal-selected selected schema key m h = ground (
  arith,
  register_tables-has key.table selected [] m h,
  register_tables-has key.referenced_table selected [] m h,
)

respects-All :
    (selected : List Name) (schema : Name) (direction : Direction) (m : Successors)
    (batches : List (List Name)) (keys : List ForeignKeyInventory)
    → is_ordered m [] batches ≡ true
    → ((key : ForeignKeyInventory) → is_internal schema key m ≡ is_selected selected schema key)
    → All
        (λ key.
          (has_edge schema direction m key ≡ true)
          × (is_internal schema key m && (key.table =? key.referenced_table) ≡ false))
        keys
    → All (λ key. respects_key selected schema direction batches key ≡ true) keys
respects-All selected schema direction m batches [] o same e = tt
respects-All selected schema direction m batches (key ∷ rest) o same ((edge, apart), e) = (
  ground (
    arith,
    same key,
    ordered_respects m (before_of direction key) (after_of direction key) [] batches o,
    Bool-cases (is_internal schema key m),
  ),
  respects-All selected schema direction m batches rest o same e,
)

planned_respects :
    (selected : List Name) (keys : List ForeignKeyInventory) (schema : Name) (direction : Direction)
    (max : ℕ) (m0 m : Successors) (batches : List (List Name))
    → register_tables selected [] ≡ planned m0
    → add_dependencies keys schema direction m0 ≡ planned m
    → schedule_batches m max ≡ some (planned batches)
    → All (λ key. respects_key selected schema direction batches key ≡ true) keys
planned_respects selected keys schema direction max m0 m batches e0 e h =
    let same_keys = keys_of-add_dependencies keys schema direction m0 m e in
    let all_distinct : distinct (keys_of m) ≡ true =
      rw same_keys (register_tables-distinct selected [] m0 refl e0) in
    respects-All selected schema direction m batches keys
      (schedule_batches-ordered m max batches all_distinct h)
      (λ key.
        add_dependencies-is_internal keys schema direction key m0 m e
        ∙ is_internal-selected selected schema key m0 e0)
      (add_dependencies-has_edge keys schema direction m0 m e)

-- In a plan, for every foreign key between two selected tables of the schema, the table that the
-- direction puts first is in a batch before each batch with the other table.
pub plan_dependency_batches-respects :
    (selected : List Name) (keys : List ForeignKeyInventory) (schema : Name) (direction : Direction)
    (max_parallelism : ℕ) (batches : List (List Name))
    → plan_dependency_batches selected keys schema direction max_parallelism
      ≡ some (planned batches)
    → All (λ key. respects_key selected schema direction batches key ≡ true) keys
unfolding plan_dependency_batches
plan_dependency_batches-respects selected keys schema direction max batches h =
    elim (Planned-cases (register_tables selected [])) [
      | inl (m0, e0) ↦ elim (Planned-cases (add_dependencies keys schema direction m0)) [
        | inl (m, e) ↦
            planned_respects selected keys schema direction max m0 m batches e0 e (ground arith)
        | inr (inl (x, e)) ↦ absurd (ground arith)
        | inr (inr e) ↦ absurd (ground arith)
      ]
      | inr (inl (x, e)) ↦ absurd (ground arith)
      | inr (inr e) ↦ absurd (ground arith)
    ]
