-- ===== src/Sync/DependencyOrder/Bounds.antt =====
-- The batches of a sync end, and are bounded: src/sync/dependency_order.rs.
use mariadb_mysql_cdc.Prelude.{
  ℕ, zero, suc, ◌+◌, ◌<◌, ◌≤◌, Name, ◌≡◌, refl, subst, ◌∙◌, inl, inr, Option-cases, some, List, [],
  ◌∷◌, ◌++◌, length, take, length-take, arith, name_ord, =?_iff, lookup, insert_set, remove_set,
}
use mariadb_mysql_cdc.Sync.DependencyOrder.{
  planned, Planned-cases, Counts, Successors, adjust, Schedule, release_one, release, release_batch,
  remove_all, run_batch, total, remaining,
}

total-adjust :
    (k : Name) (counts : Counts) (left : ℕ)
    → lookup k counts ≡ some (suc left)
    → total (adjust k (λ _. left) counts) + 1 ≡ total counts
unfolding adjust lookup
total-adjust k [] left h = absurd (ground arith)
total-adjust k ((j, n) ∷ counts) left h = ground (arith, total-adjust k counts left)

length-insert_set : (k : Name) (s : List Name) → length (insert_set k s) ≤ length s + 1
unfolding insert_set
length-insert_set k [] = ground arith
length-insert_set k (j ∷ s) = ground (arith, length-insert_set k s)

pub length-remove_set : (k : Name) (s : List Name) → length (remove_set k s) ≤ length s
unfolding remove_set
length-remove_set k [] = ground arith
length-remove_set k (j ∷ s) = ground (arith, length-remove_set k s)

length-remove_all : (ks s : List Name) → length (remove_all ks s) ≤ length s
unfolding remove_all
length-remove_all [] s = ground arith
length-remove_all (k ∷ ks) s =
    ground (arith, length-remove_set k s, length-remove_all ks (remove_set k s))

-- From one schedule to another, with no more batches to come and none made.
pub record IsReleased (s s' : Schedule) : Type 0 where
  pub fewer : remaining s' ≤ remaining s
  pub batches : s'.batches ≡ s.batches
  pub scheduled : s'.scheduled ≡ s.scheduled

release_one-IsReleased :
    (after : Name) (left : ℕ) (s : Schedule)
    → lookup after s.counts ≡ some (suc left)
    → IsReleased s (release_one after left s)
release_one-IsReleased after left s h =
    ground (arith, total-adjust after s.counts left h, length-insert_set after s.ready)

IsReleased-trans : (a b c : Schedule) → IsReleased a b → IsReleased b c → IsReleased a c
IsReleased-trans a b c h i = record {
  fewer = ground arith;
  batches = i.batches ∙ h.batches;
  scheduled = i.scheduled ∙ h.scheduled;
}

IsReleased-refl : (a : Schedule) → IsReleased a a
IsReleased-refl a = record { fewer = ground arith; batches = refl; scheduled = refl }

release-IsReleased :
    (afters : List Name) (s s' : Schedule) → release afters s ≡ planned s' → IsReleased s s'
unfolding release
release-IsReleased [] s s' h =
    let e : s ≡ s' = cc in subst (λ x. IsReleased s x) e (IsReleased-refl s)
release-IsReleased (after ∷ rest) s s' h = elim (Option-cases (lookup after s.counts)) [
  | inl e ↦ absurd (ground arith)
  | inr (zero, e) ↦ absurd (ground arith)
  | inr (suc left, e) ↦
      let s1 = release_one after left s in
      IsReleased-trans s s1 s' (release_one-IsReleased after left s e)
        (release-IsReleased rest s1 s' (ground arith))
]

pub release_batch-IsReleased :
    (m : Successors) (batch : List Name) (s s' : Schedule)
    → release_batch m batch s ≡ planned s'
    → IsReleased s s'
unfolding release_batch
release_batch-IsReleased m [] s s' h =
    let e : s ≡ s' = cc in subst (λ x. IsReleased s x) e (IsReleased-refl s)
release_batch-IsReleased m (table ∷ rest) s s' h = elim (Option-cases (lookup table m)) [
  | inl e ↦ absurd (ground arith)
  | inr (afters, e) ↦ elim (Planned-cases (release afters s)) [
    | inl (s1, r) ↦
        IsReleased-trans s s1 s' (release-IsReleased afters s s1 r)
          (release_batch-IsReleased m rest s1 s' (ground arith))
    | inr (inl (x, r)) ↦ absurd (ground arith)
    | inr (inr r) ↦ absurd (ground arith)
  ]
]

remove_all-cons :
    (table : Name) (ks s : List Name)
    → length (remove_all (table ∷ ks) (table ∷ s)) < length (table ∷ s)
unfolding remove_all remove_set
remove_all-cons table ks s = ground (
  arith,
  =?_iff table table,
  length-remove_set table s,
  length-remove_all ks (remove_set table s),
)

-- A batch takes from the ready tables and is counted.
pub record IsRun (max_parallelism : ℕ) (s s' : Schedule) : Type 0 where
  pub fewer : remaining s' < remaining s
  pub batch : List Name
  pub batches : s'.batches ≡ s.batches ++ batch ∷ []
  pub scheduled : s'.scheduled ≡ s.scheduled + length batch
  pub some_table : 1 ≤ length batch
  pub bounded : length batch ≤ max_parallelism

pub run_batch-IsRun :
    (m : Successors) (max : ℕ) (s s' : Schedule) (table : Name) (rest : List Name)
    → s.ready ≡ table ∷ rest
    → run_batch m (suc max) s ≡ planned s'
    → IsRun (suc max) s s'
unfolding run_batch
run_batch-IsRun m max s s' table rest r h =
    let batch = take (suc max) s.ready in
    let s0 = record s { ready = remove_all batch s.ready } in
    elim (Planned-cases (release_batch m batch s0)) [
      | inl (s1, e) ↦
          let i = release_batch-IsReleased m batch s0 s1 e in
          record {
            fewer = ground (arith, remove_all-cons table (take max rest) rest);
            batch = batch;
            batches = ground arith;
            scheduled = ground arith;
            some_table = ground arith;
            bounded = ground (arith, length-take (suc max) s.ready);
          }
      | inr (inl (x, e)) ↦ absurd (ground arith)
      | inr (inr e) ↦ absurd (ground arith)
    ]
