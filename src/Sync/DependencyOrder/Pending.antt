-- ===== src/Sync/DependencyOrder/Pending.antt =====
-- What a table still waits for: src/sync/dependency_order.rs.
use mariadb_mysql_cdc.Prelude.{
  ℕ, ◌+◌, Name, true, false, ◌≡◌, refl, inl, inr, Option-cases, none, some, is_some, List, [], ◌∷◌,
  ◌++◌, arith, ◌=?◌, name_ord, =?_iff, lookup, contains, if◌then◌else◌, Map,
}
use mariadb_mysql_cdc.Sync.DependencyOrder.{
  planned, Successors, Counts, adjust, count_all, zero_counts, all_successors,
}
use mariadb_mysql_cdc.Sync.DependencyOrder.Edges.{distinct}

-- How often a table is in a list.
abbrev pub occurrences : Name → List Name → ℕ
occurrences v [] = 0
occurrences v (x ∷ xs) = (if x =? v then 1 else 0) + occurrences v xs

-- How many tables that are not done a table waits for.
abbrev pub pending : Name → List Name → Successors → ℕ
pending v done [] = 0
pending v done ((u, afters) ∷ m) =
    (if contains u done then 0 else occurrences v afters) + pending v done m

abbrev pub keys_of : {V : Type 0} → Map Name V → List Name
keys_of [] = []
keys_of ((k, _) ∷ m) = k ∷ keys_of m

abbrev pub count_of : Name → Counts → ℕ
count_of v counts = elim (lookup v counts) [ none ↦ 0 | some n ↦ n ]

pub count_of-adjust :
    (k v : Name) (n left : ℕ) (counts : Counts)
    → lookup k counts ≡ some n
    → count_of v (adjust k (λ _. left) counts) ≡ (if k =? v then left else count_of v counts)
unfolding adjust lookup
count_of-adjust k v n left [] h = absurd (ground arith)
count_of-adjust k v n left ((j, c) ∷ counts) h =
    ground (arith, =?_iff k v, =?_iff j k, =?_iff j v, count_of-adjust k v n left counts)

count_of-add :
    (k v : Name) (counts : Counts)
    → is_some (lookup k counts) ≡ true
    → count_of v (adjust k (λ n. n + 1) counts) ≡ (if k =? v then 1 else 0) + count_of v counts
unfolding adjust lookup
count_of-add k v [] h = absurd (ground arith)
count_of-add k v ((j, c) ∷ counts) h =
    ground (arith, =?_iff k v, =?_iff j k, =?_iff j v, count_of-add k v counts)

count_all-counts :
    (afters : List Name) (v : Name) (counts counts' : Counts)
    → count_all afters counts ≡ planned counts'
    → count_of v counts' ≡ occurrences v afters + count_of v counts
count_all-counts [] v counts counts' h = ground arith
count_all-counts (after ∷ rest) v counts counts' h = elim (Option-cases (lookup after counts)) [
  | inl e ↦ absurd (ground arith)
  | inr (n, e) ↦ ground (
    arith,
    count_of-add after v counts,
    count_all-counts rest v (adjust after (λ c. c + 1) counts) counts',
  )
]

occurrences-append :
    (v : Name) (xs ys : List Name) → occurrences v (xs ++ ys) ≡ occurrences v xs + occurrences v ys
occurrences-append v [] ys = ground arith
occurrences-append v (x ∷ xs) ys = ground (arith, occurrences-append v xs ys)

pub pending_start : (v : Name) (m : Successors) → pending v [] m ≡ occurrences v (all_successors m)
unfolding contains
pending_start v [] = refl
pending_start v ((u, afters) ∷ m) =
    ground (arith, occurrences-append v afters (all_successors m), pending_start v m)

zero_counts-zero : (v : Name) (m : Successors) → count_of v (zero_counts m) ≡ 0
unfolding lookup
zero_counts-zero v [] = refl
zero_counts-zero v ((u, afters) ∷ m) = ground (arith, zero_counts-zero v m)

pub count_dependencies-pending :
    (v : Name) (m : Successors) (counts : Counts)
    → count_all (all_successors m) (zero_counts m) ≡ planned counts
    → count_of v counts ≡ pending v [] m
count_dependencies-pending v m counts h = ground (
  arith,
  count_all-counts (all_successors m) v (zero_counts m) counts,
  zero_counts-zero v m,
  pending_start v m,
)

pending-fresh :
    (v table : Name) (done : List Name) (m : Successors)
    → contains table (keys_of m) ≡ false
    → pending v (table ∷ done) m ≡ pending v done m
unfolding contains
pending-fresh v table done [] h = refl
pending-fresh v table done ((u, afters) ∷ m) h =
    ground (arith, =?_iff u table, =?_iff table u, pending-fresh v table done m)

-- A table that gets done releases what waits for it.
pub pending-done :
    (v table : Name) (afters done : List Name) (m : Successors)
    → distinct (keys_of m) ≡ true
    → lookup table m ≡ some afters
    → contains table done ≡ false
    → pending v done m ≡ pending v (table ∷ done) m + occurrences v afters
unfolding lookup contains
pending-done v table afters done [] d h n = absurd (ground arith)
pending-done v table afters done ((u, us) ∷ m) d h n = ground (
  arith,
  =?_iff u table,
  =?_iff table u,
  pending-fresh v table done m,
  pending-done v table afters done m,
)
