-- ===== src/Sync/DependencyOrder/Starts.antt =====
-- The maps and the ready tables with which the batches start: src/sync/dependency_order.rs.
use mariadb_mysql_cdc.Prelude.{
  ◌+◌, Name, true, false, ◌||◌, ◌≡◌, ◌∙◌, refl, ap, inl, inr, Option-cases, none, List, [], ◌∷◌,
  arith, ◌=?◌, name_ord, =?_iff, lookup, contains, insert, insert_set, contains-insert_set,
  eq_of_cmp_name, cmp_of_eq, Bool-cases, Map,
}
use mariadb_mysql_cdc.Sync.DependencyOrder.{
  planned, Successors, Counts, adjust, start, ready_of, count_all, all_successors, zero_counts,
  register_tables, add_dependencies, Direction, ForeignKeyInventory, before_of, after_of,
}
use mariadb_mysql_cdc.Sync.DependencyOrder.Edges.{distinct}
use mariadb_mysql_cdc.Sync.DependencyOrder.Pending.{keys_of, count_of, count_dependencies-pending}
use mariadb_mysql_cdc.Sync.DependencyOrder.Released.{Releasing, distinct-insert_set}

pub keys_of-adjust :
    {V : Type 0} (k : Name) (f : V → V) (m : Map Name V) → keys_of (adjust k f m) ≡ keys_of m
unfolding adjust
keys_of-adjust k f [] = refl
keys_of-adjust k f ((j, v) ∷ m) = ground (arith, keys_of-adjust k f m)

pub keys_of-zero_counts : (m : Successors) → keys_of (zero_counts m) ≡ keys_of m
keys_of-zero_counts [] = refl
keys_of-zero_counts ((u, afters) ∷ m) = ap (λ ks. u ∷ ks) (keys_of-zero_counts m)

pub keys_of-count_all :
    (afters : List Name) (counts counts' : Counts)
    → count_all afters counts ≡ planned counts'
    → keys_of counts' ≡ keys_of counts
keys_of-count_all [] counts counts' h = ground arith
keys_of-count_all (after ∷ rest) counts counts' h = elim (Option-cases (lookup after counts)) [
  | inl e ↦ absurd (ground arith)
  | inr (n, e) ↦
      keys_of-count_all rest (adjust after (λ c. c + 1) counts) counts' (ground arith)
      ∙ keys_of-adjust after (λ c. c + 1) counts
]

pub ready_in :
    (v : Name) (counts : Counts)
    → contains v (ready_of counts) ≡ true
    → contains v (keys_of counts) ≡ true
unfolding contains
ready_in v [] h = absurd (ground arith)
ready_in v ((u, n) ∷ counts) h =
    ground (arith, contains-insert_set u v (ready_of counts), ready_in v counts, =?_iff u v)

ready_zero_of :
    (v : Name) (counts : Counts)
    → distinct (keys_of counts) ≡ true
    → contains v (ready_of counts) ≡ true
    → count_of v counts ≡ 0
unfolding contains lookup
ready_zero_of v [] d h = absurd (ground arith)
ready_zero_of v ((u, n) ∷ counts) d h = ground (
  arith,
  contains-insert_set u v (ready_of counts),
  ready_zero_of v counts,
  ready_in v counts,
  =?_iff u v,
)

distinct-ready_of :
    (counts : Counts) → distinct (keys_of counts) ≡ true → distinct (ready_of counts) ≡ true
distinct-ready_of [] d = refl
distinct-ready_of ((u, n) ∷ counts) d = ground (
  arith,
  Bool-cases (contains u (ready_of counts)),
  ready_in u counts,
  distinct-ready_of counts,
  distinct-insert_set u (ready_of counts),
)

pub start-Releasing :
    (m : Successors) (counts : Counts)
    → distinct (keys_of m) ≡ true
    → count_all (all_successors m) (zero_counts m) ≡ planned counts
    → Releasing m [] [] [] (start counts)
unfolding contains
start-Releasing m counts d h =
    let same : keys_of counts ≡ keys_of m =
      keys_of-count_all (all_successors m) (zero_counts m) counts h ∙ keys_of-zero_counts m in
    let keys : distinct (keys_of counts) ≡ true = rw same d in
    record {
      counted = λ v. ground (arith, count_dependencies-pending v m counts h);
      ready_zero = λ v c. ready_zero_of v counts keys c;
      batch_zero = λ v c. absurd (ground arith);
      done_zero = λ v c. absurd (ground arith);
      ready_new = λ v c. refl;
      ready_apart = λ v c. refl;
      batch_new = λ v c. refl;
      ready_distinct = distinct-ready_of counts keys;
      batch_distinct = refl;
      done_distinct = refl;
    }

contains-insert :
    (k j : Name) (m : Successors)
    → contains j (keys_of (insert k [] m)) ≡ ((k =? j) || contains j (keys_of m))
unfolding insert contains
contains-insert k j [] = refl
contains-insert k j ((i, v) ∷ m) =
    ground (arith, =?_iff k j, =?_iff i j, cmp_of_eq k i, eq_of_cmp_name k i, contains-insert k j m)

lookup_key : (k : Name) (m : Successors) → lookup k m ≡ none → contains k (keys_of m) ≡ false
unfolding lookup contains
lookup_key k [] h = refl
lookup_key k ((i, v) ∷ m) h = ground (arith, lookup_key k m)

distinct-insert :
    (k : Name) (m : Successors)
    → contains k (keys_of m) ≡ false
    → distinct (keys_of m) ≡ true
    → distinct (keys_of (insert k [] m)) ≡ true
unfolding insert contains
distinct-insert k [] n d = refl
distinct-insert k ((i, v) ∷ m) n d =
    ground (
      arith,
      =?_iff i k,
      =?_iff k i,
      eq_of_cmp_name k i,
      contains-insert k i m,
      distinct-insert k m,
    )

pub register_tables-distinct :
    (selected : List Name) (m m' : Successors)
    → distinct (keys_of m) ≡ true
    → register_tables selected m ≡ planned m'
    → distinct (keys_of m') ≡ true
unfolding register_tables
register_tables-distinct [] m m' d h = ground arith
register_tables-distinct (table ∷ rest) m m' d h = elim (Option-cases (lookup table m)) [
  | inl e ↦
      register_tables-distinct rest (insert table [] m) m'
        (distinct-insert table m (lookup_key table m e) d) (ground arith)
  | inr (afters, e) ↦ absurd (ground arith)
]

pub keys_of-add_dependencies :
    (keys : List ForeignKeyInventory) (schema : Name) (direction : Direction) (m m' : Successors)
    → add_dependencies keys schema direction m ≡ planned m'
    → keys_of m' ≡ keys_of m
unfolding add_dependencies
keys_of-add_dependencies [] schema direction m m' h = ground arith
keys_of-add_dependencies (key ∷ rest) schema direction m m' h =
    let edge = insert_set (after_of direction key) in
    ground (
      arith,
      keys_of-adjust (before_of direction key) edge m,
      keys_of-add_dependencies rest schema direction m m',
      keys_of-add_dependencies rest schema direction (adjust (before_of direction key) edge m) m',
    )
