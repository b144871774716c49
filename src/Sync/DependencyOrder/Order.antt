-- ===== src/Sync/DependencyOrder/Order.antt =====
-- The order of batches, and the lists of tables: src/sync/dependency_order.rs.
use mariadb_mysql_cdc.Prelude.{
  ℕ, zero, suc, ◌≤◌, Name, Bool, true, ◌&&◌, ◌||◌, not, ◌≡◌, refl, List, [], ◌∷◌, ◌++◌, take, arith,
  name_ord, =?_iff, contains, remove_set, contains-remove_set, Bool-cases,
}
use mariadb_mysql_cdc.Sync.DependencyOrder.{Successors, remove_all}
use mariadb_mysql_cdc.Sync.DependencyOrder.Edges.{distinct}
use mariadb_mysql_cdc.Sync.DependencyOrder.Pending.{occurrences, pending}
use mariadb_mysql_cdc.Sync.DependencyOrder.Released.{done_after}

pub contains-take :
    (v : Name) (n : ℕ) (s : List Name) → contains v (take n s) ≡ true → contains v s ≡ true
unfolding contains
contains-take v zero s h = absurd (ground arith)
contains-take v (suc n) [] h = absurd (ground arith)
contains-take v (suc n) (x ∷ s) h = ground (arith, contains-take v n s)

pub distinct-take : (n : ℕ) (s : List Name) → distinct s ≡ true → distinct (take n s) ≡ true
distinct-take zero s d = refl
distinct-take (suc n) [] d = refl
distinct-take (suc n) (x ∷ s) d =
    ground (arith, contains-take x n s, distinct-take n s, Bool-cases (contains x (take n s)))

distinct-remove_set :
    (k : Name) (s : List Name) → distinct s ≡ true → distinct (remove_set k s) ≡ true
unfolding remove_set
distinct-remove_set k [] d = refl
distinct-remove_set k (x ∷ s) d = ground (arith, contains-remove_set k x s, distinct-remove_set k s)

pub distinct-remove_all : (ks s : List Name) → distinct s ≡ true → distinct (remove_all ks s) ≡ true
unfolding remove_all
distinct-remove_all [] s d = d
distinct-remove_all (k ∷ ks) s d =
    distinct-remove_all ks (remove_set k s) (distinct-remove_set k s d)

pub contains-remove_all :
    (v : Name) (ks s : List Name)
    → contains v (remove_all ks s) ≡ (contains v s && not (contains v ks))
unfolding remove_all contains
contains-remove_all v [] s = ground arith
contains-remove_all v (k ∷ ks) s =
    ground (arith, contains-remove_set k v s, contains-remove_all v ks (remove_set k s))

-- Every table that `v` waits for is done.
abbrev pub is_free : Name → List Name → Successors → Bool
is_free v done [] = true
is_free v done ((u, afters) ∷ m) = (contains u done || not (contains v afters)) && is_free v done m

occurrences_of : (v : Name) (xs : List Name) → contains v xs ≡ true → 1 ≤ occurrences v xs
unfolding contains
occurrences_of v [] h = absurd (ground arith)
occurrences_of v (x ∷ xs) h = ground (arith, occurrences_of v xs)

pub is_free-pending :
    (v : Name) (done : List Name) (m : Successors) → pending v done m ≡ 0 → is_free v done m ≡ true
is_free-pending v done [] h = refl
is_free-pending v done ((u, afters) ∷ m) h =
    ground
      (arith, occurrences_of v afters, is_free-pending v done m, Bool-cases (contains v afters))

abbrev pub all_free : List Name → List Name → Successors → Bool
all_free [] done m = true
all_free (v ∷ vs) done m = is_free v done m && all_free vs done m

-- Every table of every batch waits only for tables of batches before its own.
abbrev pub is_ordered : Successors → List Name → List (List Name) → Bool
is_ordered m done [] = true
is_ordered m done (batch ∷ batches) =
    all_free batch done m && is_ordered m (done_after batch done) batches

abbrev pub all_done : List (List Name) → List Name → List Name
all_done [] done = done
all_done (batch ∷ batches) done = all_done batches (done_after batch done)

pub is_ordered-append :
    (m : Successors) (done : List Name) (batches : List (List Name)) (batch : List Name)
    → is_ordered m done batches ≡ true
    → all_free batch (all_done batches done) m ≡ true
    → is_ordered m done (batches ++ batch ∷ []) ≡ true
is_ordered-append m done [] batch o f = ground arith
is_ordered-append m done (b ∷ batches) batch o f =
    ground (arith, is_ordered-append m (done_after b done) batches batch)

pub all_done-append :
    (batches : List (List Name)) (batch done : List Name)
    → all_done (batches ++ batch ∷ []) done ≡ done_after batch (all_done batches done)
all_done-append [] batch done = refl
all_done-append (b ∷ batches) batch done = all_done-append batches batch (done_after b done)

pub all_free_of :
    (batch done : List Name) (m : Successors)
    → ((v : Name) → contains v batch ≡ true → is_free v done m ≡ true)
    → all_free batch done m ≡ true
unfolding contains
all_free_of [] done m f = refl
all_free_of (v ∷ vs) done m f =
    let rest = all_free_of vs done m (λ u c. f u (ground arith)) in
    ground (arith, f v, =?_iff v v, rest)
