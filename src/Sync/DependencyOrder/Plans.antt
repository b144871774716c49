-- ===== src/Sync/DependencyOrder/Plans.antt =====
-- What a plan of batches is: src/sync/dependency_order.rs.
use mariadb_mysql_cdc.Prelude.{
  ℕ, zero, suc, ◌+◌, ◌≤◌, Name, ◌≡◌, ◌≢◌, refl, subst, inl, inr, Option-cases, none, some, List,
  List-cases, [], ◌∷◌, ◌++◌, length, All, All-append, arith, name_ord, eq_of_cmp_name, =?_iff,
  lookup, insert, insert_set,
}
use mariadb_mysql_cdc.Sync.DependencyOrder.{
  Direction, ForeignKeyInventory, planned, refused, panicked, Planned-cases, and_then, Successors,
  Schedule, run_batch, run_batches, remaining, start, count_dependencies, schedule_batches,
  before_of, after_of, add_dependencies, register_tables, plan_dependency_batches, adjust,
}
use mariadb_mysql_cdc.Sync.DependencyOrder.Bounds.{IsRun, run_batch-IsRun}

run_batches_finish :
    (fuel : ℕ) (m : Successors) (max : ℕ) (s : Schedule)
    → remaining s ≤ fuel
    → run_batches fuel m (suc max) s ≢ none
unfolding run_batches
run_batches_finish zero m max s l h = elim (List-cases s.ready) [
  | inl e ↦ ground arith
  | inr (table, rest, e) ↦ ground arith
]
run_batches_finish (suc fuel) m max s l h = elim (List-cases s.ready) [
  | inl e ↦ ground arith
  | inr (table, rest, e) ↦ elim (Planned-cases (run_batch m (suc max) s)) [
    | inl (s', p) ↦
        let i = run_batch-IsRun m max s s' table rest e p in
        run_batches_finish fuel m max s' (ground arith) (ground arith)
    | inr (inl (x, p)) ↦ ground arith
    | inr (inr p) ↦ ground arith
  ]
]

schedule_batches_finish : (m : Successors) (max : ℕ) → schedule_batches m (suc max) ≢ none
unfolding schedule_batches
schedule_batches_finish m max h = elim (Planned-cases (count_dependencies m)) [
  | inl (counts, e) ↦
      ground (arith, run_batches_finish (remaining (start counts)) m max (start counts))
  | inr (inl (x, e)) ↦ ground arith
  | inr (inr e) ↦ ground arith
]

pub plan_dependency_batches-finishes :
    (selected : List Name) (keys : List ForeignKeyInventory) (schema : Name) (direction : Direction)
    (max_parallelism : ℕ)
    → plan_dependency_batches selected keys schema direction max_parallelism ≢ none
unfolding plan_dependency_batches
plan_dependency_batches-finishes selected keys schema direction zero h = ground arith
plan_dependency_batches-finishes selected keys schema direction (suc max) h =
    elim (Planned-cases
      (and_then (register_tables selected []) (add_dependencies keys schema direction))) [
        | inl (m, e) ↦ ground (arith, schedule_batches_finish m max)
        | inr (inl (x, e)) ↦ ground arith
        | inr (inr e) ↦ ground arith
      ]

abbrev pub tables_in : List (List Name) → ℕ
tables_in [] = 0
tables_in (batch ∷ batches) = length batch + tables_in batches

abbrev pub IsBatch : ℕ → List Name → Type 0
IsBatch max batch = (1 ≤ length batch) × (length batch ≤ max)

tables_in-append : (a b : List (List Name)) → tables_in (a ++ b) ≡ tables_in a + tables_in b
tables_in-append [] b = ground arith
tables_in-append (x ∷ a) b = ground (arith, tables_in-append a b)

record IsScheduled (max : ℕ) (s : Schedule) : Type 0 where
  counted : tables_in s.batches ≡ s.scheduled
  bounded : All (IsBatch max) s.batches

run-IsScheduled :
    (max : ℕ) (s s' : Schedule) → IsRun max s s' → IsScheduled max s → IsScheduled max s'
run-IsScheduled max s s' r i = record {
  counted = ground (arith, tables_in-append s.batches (r.batch ∷ []));
  bounded =
      rw r.batches (
        All-append (IsBatch max) s.batches (r.batch ∷ []) i.bounded
          ((r.some_table, r.bounded), tt));
}

run_batches-IsScheduled :
    (fuel : ℕ) (m : Successors) (max : ℕ) (s s' : Schedule)
    → IsScheduled (suc max) s
    → run_batches fuel m (suc max) s ≡ some (planned s')
    → IsScheduled (suc max) s'
unfolding run_batches
run_batches-IsScheduled zero m max s s' i h = elim (List-cases s.ready) [
  | inl e ↦ let q : s ≡ s' = ground arith in subst (λ x. IsScheduled (suc max) x) q i
  | inr (table, rest, e) ↦ absurd (ground arith)
]
run_batches-IsScheduled (suc fuel) m max s s' i h = elim (List-cases s.ready) [
  | inl e ↦ let q : s ≡ s' = ground arith in subst (λ x. IsScheduled (suc max) x) q i
  | inr (table, rest, e) ↦ elim (Planned-cases (run_batch m (suc max) s)) [
    | inl (s1, p) ↦
        let r = run_batch-IsRun m max s s1 table rest e p in
        run_batches-IsScheduled fuel m max s1 s' (run-IsScheduled (suc max) s s1 r i) (ground arith)
    | inr (inl (x, p)) ↦ absurd (ground arith)
    | inr (inr p) ↦ absurd (ground arith)
  ]
]

length-insert :
    (table : Name) (m : Successors)
    → lookup table m ≡ none
    → length (insert table [] m) ≡ length m + 1
unfolding lookup insert
length-insert table [] h = ground arith
length-insert table ((j, afters) ∷ m) h =
    ground (arith, length-insert table m, eq_of_cmp_name table j, =?_iff j table)

length-register_tables :
    (selected : List Name) (m m' : Successors)
    → register_tables selected m ≡ planned m'
    → length m' ≡ length m + length selected
unfolding register_tables
length-register_tables [] m m' h = ground arith
length-register_tables (table ∷ rest) m m' h = elim (Option-cases (lookup table m)) [
  | inl e ↦
      ground (arith, length-insert table m e, length-register_tables rest (insert table [] m) m')
  | inr (afters, e) ↦ absurd (ground arith)
]

length-adjust :
    (k : Name) (f : List Name → List Name) (m : Successors) → length (adjust k f m) ≡ length m
unfolding adjust
length-adjust k f [] = refl
length-adjust k f ((j, v) ∷ m) = ground (arith, length-adjust k f m)

length-add_dependencies :
    (keys : List ForeignKeyInventory) (schema : Name) (direction : Direction) (m m' : Successors)
    → add_dependencies keys schema direction m ≡ planned m'
    → length m' ≡ length m
unfolding add_dependencies
length-add_dependencies [] schema direction m m' h = ground arith
length-add_dependencies (key ∷ rest) schema direction m m' h =
    let added = adjust (before_of direction key) (insert_set (after_of direction key)) m in
    ground (
      arith,
      length-adjust (before_of direction key) (insert_set (after_of direction key)) m,
      length-add_dependencies rest schema direction m m',
      length-add_dependencies rest schema direction added m',
    )

record IsPlan (max tables : ℕ) (batches : List (List Name)) : Type 0 where
  counted : tables_in batches ≡ tables
  bounded : All (IsBatch max) batches

schedule_batches-IsPlan :
    (m : Successors) (max : ℕ) (batches : List (List Name))
    → schedule_batches m (suc max) ≡ some (planned batches)
    → IsPlan (suc max) (length m) batches
unfolding schedule_batches
schedule_batches-IsPlan m max batches h = elim (Planned-cases (count_dependencies m)) [
  | inl (counts, e) ↦
      elim (Option-cases (run_batches (remaining (start counts)) m (suc max) (start counts))) [
        | inl n ↦ absurd (ground arith)
        | inr (planned s, r) ↦
            let i =
              run_batches-IsScheduled (remaining (start counts)) m max (start counts) s
                (record { counted = refl; bounded = tt }) r in
            let b : s.batches ≡ batches = ground arith in
            record {
              counted = ground arith;
              bounded = subst (λ x. All (IsBatch (suc max)) x) b i.bounded;
            }
        | inr (refused x, r) ↦ absurd (ground arith)
        | inr (panicked, r) ↦ absurd (ground arith)
      ]
  | inr (inl (x, e)) ↦ absurd (ground arith)
  | inr (inr e) ↦ absurd (ground arith)
]

-- A plan has as many places as tables are selected, in batches that are not empty and of at most
-- `max_parallelism` tables.
pub plan_dependency_batches-bounds :
    (selected : List Name) (keys : List ForeignKeyInventory) (schema : Name) (direction : Direction)
    (max_parallelism : ℕ) (batches : List (List Name))
    → plan_dependency_batches selected keys schema direction max_parallelism
      ≡ some (planned batches)
    → (tables_in batches ≡ length selected) × All (IsBatch max_parallelism) batches
unfolding plan_dependency_batches
plan_dependency_batches-bounds selected keys schema direction zero batches h = absurd (ground arith)
plan_dependency_batches-bounds selected keys schema direction (suc max) batches h =
    elim (Planned-cases (register_tables selected [])) [
      | inl (m0, e0) ↦ elim (Planned-cases (add_dependencies keys schema direction m0)) [
        | inl (m, e) ↦
            let i = schedule_batches-IsPlan m max batches (ground arith) in
            (
              ground (
                arith,
                i.counted,
                length-register_tables selected [] m0 e0,
                length-add_dependencies keys schema direction m0 m e,
              ),
              i.bounded,
            )
        | inr (inl (x, e)) ↦ absurd (ground arith)
        | inr (inr e) ↦ absurd (ground arith)
      ]
      | inr (inl (x, e)) ↦ absurd (ground arith)
      | inr (inr e) ↦ absurd (ground arith)
    ]
