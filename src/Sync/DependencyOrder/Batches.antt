-- ===== src/Sync/DependencyOrder/Batches.antt =====
-- No table is in a batch before or with a table that it waits for: src/sync/dependency_order.rs.
use mariadb_mysql_cdc.Prelude.{
  ℕ, zero, suc, Name, true, ◌≡◌, refl, subst, inl, inr, some, List, [], ◌∷◌, ◌++◌, take, arith,
  name_ord, List-cases,
}
use mariadb_mysql_cdc.Sync.DependencyOrder.{
  planned, Planned-cases, Successors, Schedule, release_batch, remove_all, run_batch, run_batches,
}
use mariadb_mysql_cdc.Sync.DependencyOrder.Edges.{distinct}
use mariadb_mysql_cdc.Sync.DependencyOrder.Bounds.{release_batch-IsReleased}
use mariadb_mysql_cdc.Sync.DependencyOrder.Pending.{keys_of}
use mariadb_mysql_cdc.Sync.DependencyOrder.Released.{Releasing, release_batch-Releasing, done_after}
use mariadb_mysql_cdc.Sync.DependencyOrder.Order.{
  contains-take, distinct-take, distinct-remove_all, contains-remove_all, is_free-pending, all_free,
  is_ordered, all_done, is_ordered-append, all_done-append, all_free_of,
}

pub record Ordered (m : Successors) (s : Schedule) : Type 0 where
  pub between : Releasing m (all_done s.batches []) [] [] s
  pub ordered : is_ordered m [] s.batches ≡ true

module _ (m : Successors) (keys : distinct (keys_of m) ≡ true) where
  pub taken-Releasing :
      (n : ℕ) (done : List Name) (s : Schedule)
      → Releasing m done [] [] s
      → let batch = take n s.ready in
        Releasing m done batch [] (record s { ready = remove_all batch s.ready })
  taken-Releasing n done s i =
      let batch = take n s.ready in
      let removed = λ (v : Name). contains-remove_all v batch s.ready in
      let taken = λ (v : Name). contains-take v n s.ready in
      record {
        counted = i.counted;
        ready_zero = λ v c. ground (arith, removed v, i.ready_zero v);
        batch_zero = λ v c. i.ready_zero v (taken v c);
        done_zero = i.done_zero;
        ready_new = λ v c. ground (arith, removed v, i.ready_new v);
        ready_apart = λ v c. ground (arith, removed v);
        batch_new = λ v c. i.ready_new v (taken v c);
        ready_distinct = distinct-remove_all batch s.ready i.ready_distinct;
        batch_distinct = distinct-take n s.ready i.ready_distinct;
        done_distinct = i.done_distinct;
      }

  taken_free :
      (n : ℕ) (done : List Name) (s : Schedule)
      → Releasing m done [] [] s
      → all_free (take n s.ready) done m ≡ true
  taken_free n done s i = all_free_of (take n s.ready) done m (λ v c.
      is_free-pending v done m
        (ground (arith, i.counted v, i.ready_zero v (contains-take v n s.ready c))))

  pub run_batch-Ordered :
      (max : ℕ) (s s' : Schedule) → Ordered m s → run_batch m max s ≡ planned s' → Ordered m s'
  unfolding run_batch
  run_batch-Ordered max s s' i h =
      let done = all_done s.batches [] in
      let batch = take max s.ready in
      let s0 = record s { ready = remove_all batch s.ready } in
      elim (Planned-cases (release_batch m batch s0)) [
        | inl (s1, e) ↦
            let released = release_batch-IsReleased m batch s0 s1 e in
            let after =
              release_batch-Releasing m keys done batch s0 s1 (taken-Releasing max done s i.between)
                e in
            let made : s'.batches ≡ s.batches ++ batch ∷ [] = ground (arith, released.batches) in
            let now : done_after batch done ≡ all_done s'.batches [] =
              ground (arith, all_done-append s.batches batch []) in
            let moved = subst (λ x. Releasing m x [] [] s1) now after in
            record {
              between = record {
                counted = λ v. ground (arith, moved.counted v);
                ready_zero = λ v c. ground (arith, moved.ready_zero v);
                batch_zero = λ v c. ground (arith, moved.batch_zero v);
                done_zero = λ v c. ground (arith, moved.done_zero v);
                ready_new = λ v c. ground (arith, moved.ready_new v);
                ready_apart = λ v c. ground (arith, moved.ready_apart v);
                batch_new = λ v c. ground (arith, moved.batch_new v);
                ready_distinct = ground (arith, moved.ready_distinct);
                batch_distinct = refl;
                done_distinct = moved.done_distinct;
              };
              ordered = rw made (
                  is_ordered-append m [] s.batches batch i.ordered
                    (taken_free max done s i.between));
            }
        | inr (inl (x, e)) ↦ absurd (ground arith)
        | inr (inr e) ↦ absurd (ground arith)
      ]

  pub run_batches-Ordered :
      (fuel max : ℕ) (s s' : Schedule)
      → Ordered m s
      → run_batches fuel m max s ≡ some (planned s')
      → Ordered m s'
  unfolding run_batches
  run_batches-Ordered zero max s s' i h = elim (List-cases s.ready) [
    | inl e ↦ let q : s ≡ s' = ground arith in subst (λ x. Ordered m x) q i
    | inr (table, rest, e) ↦ absurd (ground arith)
  ]
  run_batches-Ordered (suc fuel) max s s' i h = elim (List-cases s.ready) [
    | inl e ↦ let q : s ≡ s' = ground arith in subst (λ x. Ordered m x) q i
    | inr (table, rest, e) ↦ elim (Planned-cases (run_batch m max s)) [
      | inl (s1, p) ↦
          run_batches-Ordered fuel max s1 s' (run_batch-Ordered max s s1 i p) (ground arith)
      | inr (inl (x, p)) ↦ absurd (ground arith)
      | inr (inr p) ↦ absurd (ground arith)
    ]
  ]
