-- ===== src/Sync/DependencyOrder/Total.antt =====
-- No batch panics: src/sync/dependency_order.rs.
use mariadb_mysql_cdc.Prelude.{
  ℕ, zero, suc, ◌+◌, Name, true, ◌≡◌, ◌≢◌, ◌∙◌, refl, subst, inl, inr, Option-cases, some, List, [],
  ◌∷◌, take, arith, name_ord, =?_iff, contains, List-cases,
}
use mariadb_mysql_cdc.Sync.DependencyOrder.{
  planned, refused, panicked, Planned-cases, Successors, Counts, Schedule, adjust, release_batch,
  remove_all, run_batch, run_batches, remaining, start, count_all, all_successors, zero_counts,
  count_dependencies, schedule_batches,
}
use mariadb_mysql_cdc.Sync.DependencyOrder.Edges.{distinct}
use mariadb_mysql_cdc.Sync.DependencyOrder.Pending.{keys_of}
use mariadb_mysql_cdc.Sync.DependencyOrder.Order.{contains-take, contains-remove_all, all_done}
use mariadb_mysql_cdc.Sync.DependencyOrder.Batches.{Ordered, taken-Releasing, run_batch-Ordered}
use mariadb_mysql_cdc.Sync.DependencyOrder.Panics.{
  Within, has_key, release_batch_no_panic, release_batch-Within,
}
use mariadb_mysql_cdc.Sync.DependencyOrder.Starts.{
  start-Releasing, keys_of-adjust, keys_of-count_all, keys_of-zero_counts, ready_in,
}

module _ (m : Successors) (distinct_keys : distinct (keys_of m) ≡ true) where
  pub taken-Within :
      (n : ℕ) (s : Schedule)
      → Within m s
      → Within m (record s { ready = remove_all (take n s.ready) s.ready })
  taken-Within n s i = record {
    keys = i.keys;
    ready_keys =
        λ v c. ground (arith, contains-remove_all v (take n s.ready) s.ready, i.ready_keys v);
  }

  run_batch_no_panic :
      (max : ℕ) (s : Schedule) → Ordered m s → Within m s → run_batch m max s ≢ panicked
  unfolding run_batch
  run_batch_no_panic max s o i h =
      let batch = take max s.ready in
      let s0 = record s { ready = remove_all batch s.ready } in
      let done = all_done s.batches [] in
      let quiet =
        release_batch_no_panic m distinct_keys done batch s0
          (taken-Releasing m distinct_keys max done s o.between)
          (λ v c. i.ready_keys v (contains-take v max s.ready c)) in
      elim (Planned-cases (release_batch m batch s0)) [
        | inl (s1, e) ↦ ground arith
        | inr (inl (x, e)) ↦ ground arith
        | inr (inr e) ↦ quiet e
      ]

  pub run_batch-Within :
      (max : ℕ) (s s' : Schedule) → Within m s → run_batch m max s ≡ planned s' → Within m s'
  unfolding run_batch
  run_batch-Within max s s' i h =
      let batch = take max s.ready in
      let s0 = record s { ready = remove_all batch s.ready } in
      elim (Planned-cases (release_batch m batch s0)) [
        | inl (s1, e) ↦
            let w = release_batch-Within m distinct_keys batch s0 s1 (taken-Within max s i) e in
            record {
              keys = ground (arith, w.keys);
              ready_keys = λ v c. ground (arith, w.ready_keys v);
            }
        | inr (inl (x, e)) ↦ absurd (ground arith)
        | inr (inr e) ↦ absurd (ground arith)
      ]

  run_batches_no_panic :
      (fuel max : ℕ) (s : Schedule)
      → Ordered m s
      → Within m s
      → run_batches fuel m max s ≢ some panicked
  unfolding run_batches
  run_batches_no_panic zero max s o i h = elim (List-cases s.ready) [
    | inl e ↦ ground arith
    | inr (table, rest, e) ↦ ground arith
  ]
  run_batches_no_panic (suc fuel) max s o i h = elim (List-cases s.ready) [
    | inl e ↦ ground arith
    | inr (table, rest, e) ↦ elim (Planned-cases (run_batch m max s)) [
      | inl (s1, p) ↦
          run_batches_no_panic fuel max s1 (run_batch-Ordered m distinct_keys max s s1 o p)
            (run_batch-Within max s s1 i p) (ground arith)
      | inr (inl (x, p)) ↦ ground arith
      | inr (inr p) ↦ run_batch_no_panic max s o i p
    ]
  ]

-- Every successor is a table of the map.
abbrev pub Closed : Successors → Type 0
Closed m = (v : Name) → contains v (all_successors m) ≡ true → contains v (keys_of m) ≡ true

count_all_no_panic :
    (afters : List Name) (counts : Counts)
    → ((v : Name) → contains v afters ≡ true → contains v (keys_of counts) ≡ true)
    → count_all afters counts ≢ panicked
unfolding contains
count_all_no_panic [] counts c h = ground arith
count_all_no_panic (after ∷ rest) counts c h =
    let next = adjust after (λ n. n + 1) counts in
    let same = keys_of-adjust after (λ n. n + 1) counts in
    let rest_keys : (v : Name) → contains v rest ≡ true → contains v (keys_of next) ≡ true =
      λ v q. rw same (c v (ground arith)) in
    ground (
      arith,
      has_key after counts,
      c after,
      =?_iff after after,
      count_all_no_panic rest next rest_keys,
    )

pub schedule_batches_no_panic :
    (m : Successors) (max : ℕ)
    → distinct (keys_of m) ≡ true
    → Closed m
    → schedule_batches m max ≢ some panicked
unfolding schedule_batches count_dependencies
schedule_batches_no_panic m max d c h = elim (Planned-cases (count_dependencies m)) [
  | inl (counts, e) ↦
      let same =
        keys_of-count_all (all_successors m) (zero_counts m) counts e ∙ keys_of-zero_counts m in
      let within : Within m (start counts) = record {
        keys = same;
        ready_keys = λ v q. subst (λ ks. contains v ks ≡ true) same (ready_in v counts q);
      } in
      let quiet =
        run_batches_no_panic m d (remaining (start counts)) max (start counts)
          (record { between = start-Releasing m counts d e; ordered = refl }) within in
      elim (Option-cases (run_batches (remaining (start counts)) m max (start counts))) [
        | inl n ↦ ground arith
        | inr (planned s, r) ↦ ground arith
        | inr (refused x, r) ↦ ground arith
        | inr (panicked, r) ↦ quiet r
      ]
  | inr (inl (x, e)) ↦ ground arith
  | inr (inr e) ↦
      count_all_no_panic (all_successors m) (zero_counts m)
        (λ v q. rw (keys_of-zero_counts m) (c v q)) e
]
