-- ===== src/Sync/DependencyOrder/Released.antt =====
-- The ready, the current and the done tables while a batch is released:
-- src/sync/dependency_order.rs.
use mariadb_mysql_cdc.Prelude.{
  ℕ, zero, suc, ◌+◌, Name, true, false, ◌≡◌, refl, subst, inl, inr, Option-cases, some, List, [],
  ◌∷◌, arith, name_ord, =?_iff, lookup, contains, insert_set, contains-insert_set,
}
use mariadb_mysql_cdc.Sync.DependencyOrder.{
  planned, Planned-cases, Successors, Schedule, release_one, release, release_batch,
}
use mariadb_mysql_cdc.Sync.DependencyOrder.Edges.{distinct}
use mariadb_mysql_cdc.Sync.DependencyOrder.Pending.{
  occurrences, pending, keys_of, count_of, count_of-adjust, pending-done,
}

pub distinct-insert_set :
    (k : Name) (s : List Name)
    → contains k s ≡ false
    → distinct s ≡ true
    → distinct (insert_set k s) ≡ true
unfolding insert_set contains
distinct-insert_set k [] n d = refl
distinct-insert_set k (j ∷ s) n d =
    ground (arith, =?_iff j k, =?_iff k j, contains-insert_set k j s, distinct-insert_set k s)

-- While `table` is released: `afters` are still to come, `batch` are the tables after it.
pub record Releasing (m : Successors) (done batch afters : List Name) (s : Schedule) : Type 0 where
  pub counted : (v : Name) → count_of v s.counts ≡ pending v done m + occurrences v afters
  pub ready_zero : (v : Name) → contains v s.ready ≡ true → count_of v s.counts ≡ 0
  pub batch_zero : (v : Name) → contains v batch ≡ true → count_of v s.counts ≡ 0
  pub done_zero : (v : Name) → contains v done ≡ true → count_of v s.counts ≡ 0
  pub ready_new : (v : Name) → contains v s.ready ≡ true → contains v done ≡ false
  pub ready_apart : (v : Name) → contains v s.ready ≡ true → contains v batch ≡ false
  pub batch_new : (v : Name) → contains v batch ≡ true → contains v done ≡ false
  pub ready_distinct : distinct s.ready ≡ true
  pub batch_distinct : distinct batch ≡ true
  pub done_distinct : distinct done ≡ true

module _ (m : Successors) (done batch : List Name) where
  pub release_one-Releasing :
      (after : Name) (rest : List Name) (left : ℕ) (s : Schedule)
      → Releasing m done batch (after ∷ rest) s
      → lookup after s.counts ≡ some (suc left)
      → Releasing m done batch rest (release_one after left s)
  release_one-Releasing after rest left s i e =
      let counts = λ (v : Name). count_of-adjust after v (suc left) left s.counts e in
      let inserted = λ (v : Name). contains-insert_set after v s.ready in
      let positive : count_of after s.counts ≡ suc left = ground arith in
      let not_ready : contains after s.ready ≡ false = ground (arith, i.ready_zero after) in
      let not_batch : contains after batch ≡ false = ground (arith, i.batch_zero after) in
      let not_done : contains after done ≡ false = ground (arith, i.done_zero after) in
      record {
        counted = λ v. ground (arith, =?_iff after v, counts v, i.counted v);
        ready_zero = λ v c. ground (arith, =?_iff after v, counts v, inserted v, i.ready_zero v);
        batch_zero = λ v c. ground (arith, =?_iff after v, counts v, i.batch_zero v);
        done_zero = λ v c. ground (arith, =?_iff after v, counts v, i.done_zero v);
        ready_new = λ v c. ground (arith, =?_iff after v, inserted v, i.ready_new v);
        ready_apart = λ v c. ground (arith, =?_iff after v, inserted v, i.ready_apart v);
        batch_new = i.batch_new;
        ready_distinct = ground (arith, distinct-insert_set after s.ready, i.ready_distinct);
        batch_distinct = i.batch_distinct;
        done_distinct = i.done_distinct;
      }

  pub release-Releasing :
      (afters : List Name) (s s' : Schedule)
      → Releasing m done batch afters s
      → release afters s ≡ planned s'
      → Releasing m done batch [] s'
  unfolding release
  release-Releasing [] s s' i h =
      let e : s ≡ s' = cc in subst (λ x. Releasing m done batch [] x) e i
  release-Releasing (after ∷ rest) s s' i h = elim (Option-cases (lookup after s.counts)) [
    | inl e ↦ absurd (ground arith)
    | inr (zero, e) ↦ absurd (ground arith)
    | inr (suc left, e) ↦
        release-Releasing rest (release_one after left s) s'
          (release_one-Releasing after rest left s i e) (ground arith)
  ]

module _ (m : Successors) (keys : distinct (keys_of m) ≡ true) where
  -- The next table of the batch gets done, and its successors are to be released.
  pub next-Releasing :
      (done : List Name) (table : Name) (batch afters : List Name) (s : Schedule)
      → Releasing m done (table ∷ batch) [] s
      → lookup table m ≡ some afters
      → Releasing m (table ∷ done) batch afters s
  unfolding contains
  next-Releasing done table batch afters s i e = record {
    counted = λ v. ground (
      arith,
      i.counted v,
      i.batch_new table,
      =?_iff table table,
      pending-done v table afters done m keys e,
    );
    ready_zero = i.ready_zero;
    batch_zero = λ v c. ground (arith, i.batch_zero v);
    done_zero = λ v c. ground (arith, i.batch_zero v, i.done_zero v);
    ready_new = λ v c. ground (arith, i.ready_new v, i.ready_apart v);
    ready_apart = λ v c. ground (arith, i.ready_apart v);
    batch_new = λ v c. ground (arith, i.batch_new v, i.batch_distinct, =?_iff table v);
    ready_distinct = i.ready_distinct;
    batch_distinct = ground (arith, i.batch_distinct);
    done_distinct = ground (arith, i.batch_new table, i.done_distinct, =?_iff table table);
  }

-- The done tables after a batch, the last one first.
abbrev pub done_after : List Name → List Name → List Name
done_after [] done = done
done_after (table ∷ batch) done = done_after batch (table ∷ done)

pub release_batch-Releasing :
    (m : Successors) (keys : distinct (keys_of m) ≡ true) (done batch : List Name) (s s' : Schedule)
    → Releasing m done batch [] s
    → release_batch m batch s ≡ planned s'
    → Releasing m (done_after batch done) [] [] s'
unfolding release_batch
release_batch-Releasing m keys done [] s s' i h =
    let e : s ≡ s' = cc in subst (λ x. Releasing m done [] [] x) e i
release_batch-Releasing m keys done (table ∷ batch) s s' i h =
    elim (Option-cases (lookup table m)) [
      | inl e ↦ absurd (ground arith)
      | inr (afters, e) ↦ elim (Planned-cases (release afters s)) [
        | inl (s1, r) ↦
            let next = next-Releasing m keys done table batch afters s i e in
            release_batch-Releasing m keys (table ∷ done) batch s1 s'
              (release-Releasing m (table ∷ done) batch afters s s1 next r) (ground arith)
        | inr (inl (x, r)) ↦ absurd (ground arith)
        | inr (inr r) ↦ absurd (ground arith)
      ]
    ]
