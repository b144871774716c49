-- ===== src/Sync/DependencyOrder.antt =====
-- The batches of a sync in foreign-key order (src/sync/dependency_order.rs). The maps and the sets of
-- the source are association lists and lists in the order of their names.
pub mod Bounds
pub mod Plans
pub mod Edges
pub mod Pending
pub mod Released
pub mod Order
pub mod Batches
pub mod Starts
pub mod Respects
pub mod Panics
pub mod Total
pub mod Outcomes
pub mod Once
pub mod Covers
mod Tests
use mariadb_mysql_cdc.Prelude.{
  ℕ, zero, suc, ◌+◌, Name, Bool, true, false, ◌&&◌, not, Option, none, some, is_some, List, [], ◌∷◌,
  ◌++◌, length, take, ◌==◌, if◌then◌else◌, ◌=?◌, name_ord, ◌≡◌, refl, ◌⊎◌, inl, inr, Map, lookup,
  insert, insert_set, remove_set,
}

pub data Direction : Type 0 where
  parent_first child_first : Direction

pub data DependencyOrderError : Type 0 where
  zero_parallelism : DependencyOrderError
  duplicate_table self_dependency : Name → DependencyOrderError
  cycle : DependencyOrderError

pub record ForeignKeyInventory : Type 0 where
  pub table : Name
  pub name : Name
  pub columns : List Name
  pub referenced_schema : Name
  pub referenced_table : Name
  pub referenced_columns : List Name

-- A value, an error, or a panic: an `expect` or an index that finds nothing, or a subtraction below
-- zero.
pub data Planned (A : Type 0) : Type 0 where
  planned : A → Planned A
  refused : DependencyOrderError → Planned A
  panicked : Planned A

pub Planned-cases :
    {A : Type 0} (r : Planned A)
    → ((a : A) × (r ≡ planned a)) ⊎ ((e : DependencyOrderError) × (r ≡ refused e)) ⊎ (r ≡ panicked)
Planned-cases (planned a) = inl (a, refl)
Planned-cases (refused e) = inr (inl (e, refl))
Planned-cases panicked = inr (inr refl)

abbrev pub and_then : {A B : Type 0} → Planned A → (A → Planned B) → Planned B
and_then (planned a) f = f a
and_then (refused e) f = refused e
and_then panicked f = panicked

abbrev pub Successors : Type 0
Successors = Map Name (List Name)

abbrev pub Counts : Type 0
Counts = Map Name ℕ

-- `get_mut` of a key that is there.
unfoldable pub adjust : {V : Type 0} → Name → (V → V) → Map Name V → Map Name V
adjust k f [] = []
adjust k f ((j, v) ∷ m) = let rest = adjust k f m in if j =? k then (j, f v) ∷ m else (j, v) ∷ rest

unfoldable pub register_tables : List Name → Successors → Planned Successors
register_tables [] m = planned m
register_tables (table ∷ rest) m =
    let next = register_tables rest (insert table [] m) in
    if is_some (lookup table m) then refused (duplicate_table table) else next

abbrev pub before_of : Direction → ForeignKeyInventory → Name
before_of parent_first key = key.referenced_table
before_of child_first key = key.table

abbrev pub after_of : Direction → ForeignKeyInventory → Name
after_of parent_first key = key.table
after_of child_first key = key.referenced_table

abbrev pub is_internal : Name → ForeignKeyInventory → Successors → Bool
is_internal schema key m =
    (key.referenced_schema =? schema)
    && (is_some (lookup key.table m) && is_some (lookup key.referenced_table m))

unfoldable pub add_dependencies :
    List ForeignKeyInventory → Name → Direction → Successors → Planned Successors
add_dependencies [] schema direction m = planned m
add_dependencies (key ∷ rest) schema direction m =
    let skipped = add_dependencies rest schema direction m in
    let edge = insert_set (after_of direction key) in
    let added = add_dependencies rest schema direction (adjust (before_of direction key) edge m) in
    if not (is_internal schema key m)
    then skipped
    else if key.table =? key.referenced_table
    then refused (self_dependency key.table)
    else added

abbrev zero_counts : Successors → Counts
zero_counts [] = []
zero_counts ((table, _) ∷ m) = (table, 0) ∷ zero_counts m

abbrev all_successors : Successors → List Name
all_successors [] = []
all_successors ((_, afters) ∷ m) = afters ++ all_successors m

abbrev count_all : List Name → Counts → Planned Counts
count_all [] counts = planned counts
count_all (after ∷ rest) counts =
    let next = count_all rest (adjust after (λ n. n + 1) counts) in
    if is_some (lookup after counts) then next else panicked

unfoldable pub count_dependencies : Successors → Planned Counts
count_dependencies m = count_all (all_successors m) (zero_counts m)

abbrev pub ready_of : Counts → List Name
ready_of [] = []
ready_of ((table, count) ∷ rest) =
    if count == 0 then insert_set table (ready_of rest) else ready_of rest

pub record Schedule : Type 0 where
  pub counts : Counts
  pub ready : List Name
  pub batches : List (List Name)
  pub scheduled : ℕ

abbrev pub release_one : Name → ℕ → Schedule → Schedule
release_one after left s = record s {
  counts = adjust after (λ _. left) s.counts;
  ready = if left == 0 then insert_set after s.ready else s.ready;
}

-- The tables after a scheduled one wait for one table less.
unfoldable pub release : List Name → Schedule → Planned Schedule
release [] s = planned s
release (after ∷ rest) s = elim (lookup after s.counts) [
  | none ↦ panicked
  | some zero ↦ panicked
  | some (suc left) ↦ release rest (release_one after left s)
]

unfoldable pub release_batch : Successors → List Name → Schedule → Planned Schedule
release_batch m [] s = planned s
release_batch m (table ∷ rest) s = elim (lookup table m) [
  | none ↦ panicked
  | some afters ↦ and_then (release afters s) (release_batch m rest)
]

unfoldable pub remove_all : List Name → List Name → List Name
remove_all [] ready = ready
remove_all (table ∷ rest) ready = remove_all rest (remove_set table ready)

abbrev pub finish_batch : List Name → Schedule → Schedule
finish_batch batch s = record s {
  batches = s.batches ++ batch ∷ [];
  scheduled = s.scheduled + length batch;
}

unfoldable pub run_batch : Successors → ℕ → Schedule → Planned Schedule
run_batch m max_parallelism s =
    let batch = take max_parallelism s.ready in
    and_then (release_batch m batch (record s { ready = remove_all batch s.ready }))
      (λ s'. planned (finish_batch batch s'))

abbrev pub total : Counts → ℕ
total [] = 0
total ((_, n) ∷ counts) = n + total counts

-- The batches still to come at most: a batch takes a table from the ready ones, and a table gets
-- ready only where it waits for one table less.
abbrev pub remaining : Schedule → ℕ
remaining s = total s.counts + length s.ready

-- `none` where the fuel, a bound on the batches, ran out.
unfoldable pub run_batches : ℕ → Successors → ℕ → Schedule → Option (Planned Schedule)
run_batches zero m max_parallelism s = elim s.ready [ [] ↦ some (planned s) | _ ∷ _ ↦ none ]
run_batches (suc fuel) m max_parallelism s = elim s.ready [
  | [] ↦ some (planned s)
  | _ ∷ _ ↦ elim (run_batch m max_parallelism s) [
    | planned s' ↦ run_batches fuel m max_parallelism s'
    | refused e ↦ some (refused e)
    | panicked ↦ some panicked
  ]
]

abbrev pub conclude : Successors → Schedule → Planned (List (List Name))
conclude m s = if s.scheduled == length m then planned s.batches else refused cycle

abbrev pub start : Counts → Schedule
start counts = record { counts = counts; ready = ready_of counts; batches = []; scheduled = 0 }

unfoldable pub schedule_batches : Successors → ℕ → Option (Planned (List (List Name)))
schedule_batches m max_parallelism = elim (count_dependencies m) [
  | planned counts ↦
      elim (run_batches (remaining (start counts)) m max_parallelism (start counts)) [
        | none ↦ none
        | some result ↦ some (and_then result (conclude m))
      ]
  | refused e ↦ some (refused e)
  | panicked ↦ some panicked
]

unfoldable pub plan_dependency_batches :
    List Name
    → List ForeignKeyInventory
    → Name
    → Direction
    → ℕ
    → Option (Planned (List (List Name)))
plan_dependency_batches selected keys schema direction max_parallelism =
    let successors =
      and_then (register_tables selected []) (add_dependencies keys schema direction) in
    if max_parallelism == 0 then some (refused zero_parallelism) else elim successors [
      | planned m ↦ schedule_batches m max_parallelism
      | refused e ↦ some (refused e)
      | panicked ↦ some panicked
    ]
