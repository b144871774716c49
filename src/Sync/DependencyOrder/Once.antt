-- ===== src/Sync/DependencyOrder/Once.antt =====
-- The tables of the batches: src/sync/dependency_order.rs.
use mariadb_mysql_cdc.Prelude.{
  ℕ, zero, suc, ◌+◌, ◌<◌, ◌≤◌, Name, true, ◌||◌, ◌≡◌, refl, subst, inl, inr, some, List, [], ◌∷◌,
  length, take, arith, name_ord, =?_iff, contains, remove_set, List-cases, contains-remove_set,
  Bool-cases,
}
use mariadb_mysql_cdc.Sync.DependencyOrder.{
  planned, Planned-cases, Successors, Schedule, release_batch, remove_all, run_batch, run_batches,
}
use mariadb_mysql_cdc.Sync.DependencyOrder.Bounds.{release_batch-IsReleased, length-remove_set}
use mariadb_mysql_cdc.Sync.DependencyOrder.Edges.{distinct}
use mariadb_mysql_cdc.Sync.DependencyOrder.Pending.{keys_of}
use mariadb_mysql_cdc.Sync.DependencyOrder.Plans.{tables_in}
use mariadb_mysql_cdc.Sync.DependencyOrder.Released.{done_after}
use mariadb_mysql_cdc.Sync.DependencyOrder.Order.{contains-take, all_done, all_done-append}
use mariadb_mysql_cdc.Sync.DependencyOrder.Panics.{Within}
use mariadb_mysql_cdc.Sync.DependencyOrder.Total.{run_batch-Within}

length-remove_in :
    (k : Name) (s : List Name) → contains k s ≡ true → length (remove_set k s) < length s
unfolding remove_set contains
length-remove_in k [] h = absurd (ground arith)
length-remove_in k (x ∷ s) h = ground (arith, length-remove_set k s, length-remove_in k s)

abbrev pub AllWithin : List Name → List Name → Type 0
AllWithin xs ys = (v : Name) → contains v xs ≡ true → contains v ys ≡ true

length_within : (xs ys : List Name) → distinct xs ≡ true → AllWithin xs ys → length xs ≤ length ys
unfolding contains
length_within [] ys d w = ground arith
length_within (x ∷ xs) ys d w =
    let rest : AllWithin xs (remove_set x ys) =
      λ v c. ground (arith, contains-remove_set x v ys, w v, =?_iff x v) in
    ground (
      arith,
      =?_iff x x,
      w x,
      length-remove_in x ys,
      length_within xs (remove_set x ys) (ground arith) rest,
    )

-- A list of distinct tables within another that is not longer has all tables of it.
pub within_all :
    (xs ys : List Name)
    → distinct xs ≡ true
    → AllWithin xs ys
    → length xs ≡ length ys
    → AllWithin ys xs
within_all xs ys d w l v c = elim (Bool-cases (contains v xs)) [
  | inl e ↦ e
  | inr e ↦
      let less : AllWithin xs (remove_set v ys) =
        λ u q. ground (arith, contains-remove_set v u ys, w u q, =?_iff v u) in
      absurd (ground (arith, length-remove_in v ys c, length_within xs (remove_set v ys) d less))
]

contains-done_after :
    (v : Name) (batch done : List Name)
    → contains v (done_after batch done) ≡ (contains v batch || contains v done)
unfolding contains
contains-done_after v [] done = refl
contains-done_after v (table ∷ batch) done =
    ground (arith, contains-done_after v batch (table ∷ done))

length-done_after :
    (batch done : List Name) → length (done_after batch done) ≡ length batch + length done
length-done_after [] done = ground arith
length-done_after (table ∷ batch) done = ground (arith, length-done_after batch (table ∷ done))

pub length-all_done :
    (batches : List (List Name)) (done : List Name)
    → length (all_done batches done) ≡ tables_in batches + length done
length-all_done [] done = ground arith
length-all_done (batch ∷ batches) done =
    ground (arith, length-done_after batch done, length-all_done batches (done_after batch done))

pub record Covered (m : Successors) (s : Schedule) : Type 0 where
  pub within : Within m s
  pub done_keys : AllWithin (all_done s.batches []) (keys_of m)

module _ (m : Successors) (distinct_keys : distinct (keys_of m) ≡ true) where
  run_batch-Covered :
      (max : ℕ) (s s' : Schedule) → Covered m s → run_batch m max s ≡ planned s' → Covered m s'
  unfolding run_batch
  run_batch-Covered max s s' i h =
      let batch = take max s.ready in
      let s0 = record s { ready = remove_all batch s.ready } in
      let within' = run_batch-Within m distinct_keys max s s' i.within h in
      elim (Planned-cases (release_batch m batch s0)) [
        | inl (s1, e) ↦
            let released = release_batch-IsReleased m batch s0 s1 e in
            let now : all_done s'.batches [] ≡ done_after batch (all_done s.batches []) =
              ground (arith, released.batches, all_done-append s.batches batch []) in
            record {
              within = within';
              done_keys = λ v c. ground (
                arith,
                now,
                contains-done_after v batch (all_done s.batches []),
                contains-take v max s.ready,
                i.within.ready_keys v,
                i.done_keys v,
              );
            }
        | inr (inl (x, e)) ↦ absurd (ground arith)
        | inr (inr e) ↦ absurd (ground arith)
      ]

  pub run_batches-Covered :
      (fuel max : ℕ) (s s' : Schedule)
      → Covered m s
      → run_batches fuel m max s ≡ some (planned s')
      → Covered m s'
  unfolding run_batches
  run_batches-Covered zero max s s' i h = elim (List-cases s.ready) [
    | inl e ↦ let q : s ≡ s' = ground arith in subst (λ x. Covered m x) q i
    | inr (table, rest, e) ↦ absurd (ground arith)
  ]
  run_batches-Covered (suc fuel) max s s' i h = elim (List-cases s.ready) [
    | inl e ↦ let q : s ≡ s' = ground arith in subst (λ x. Covered m x) q i
    | inr (table, rest, e) ↦ elim (Planned-cases (run_batch m max s)) [
      | inl (s1, p) ↦
          run_batches-Covered fuel max s1 s' (run_batch-Covered max s s1 i p) (ground arith)
      | inr (inl (x, p)) ↦ absurd (ground arith)
      | inr (inr p) ↦ absurd (ground arith)
    ]
  ]
