-- ===== src/Sync/DependencyOrder/Panics.antt =====
-- The lookups and the counts while a batch is released: src/sync/dependency_order.rs.
use mariadb_mysql_cdc.Prelude.{
  ℕ, zero, suc, Name, true, ◌≡◌, ◌≢◌, ◌∙◌, refl, subst, inl, inr, Option-cases, some, is_some, List,
  [], ◌∷◌, arith, name_ord, =?_iff, lookup, contains, Map, contains-insert_set,
}
use mariadb_mysql_cdc.Sync.DependencyOrder.{
  planned, panicked, Planned-cases, Successors, Schedule, release_one, release, release_batch,
}
use mariadb_mysql_cdc.Sync.DependencyOrder.Edges.{distinct}
use mariadb_mysql_cdc.Sync.DependencyOrder.Pending.{keys_of}
use mariadb_mysql_cdc.Sync.DependencyOrder.Released.{
  Releasing, release_one-Releasing, release-Releasing, next-Releasing,
}
use mariadb_mysql_cdc.Sync.DependencyOrder.Starts.{keys_of-adjust}

pub has_key :
    {V : Type 0} (k : Name) (m : Map Name V) → is_some (lookup k m) ≡ contains k (keys_of m)
unfolding lookup contains
has_key k [] = refl
has_key k ((j, v) ∷ m) = ground (arith, has_key k m)

pub record Within (m : Successors) (s : Schedule) : Type 0 where
  pub keys : keys_of s.counts ≡ keys_of m
  pub ready_keys : (v : Name) → contains v s.ready ≡ true → contains v (keys_of m) ≡ true

release_one-Within :
    (m : Successors) (after : Name) (n left : ℕ) (s : Schedule)
    → Within m s
    → lookup after s.counts ≡ some n
    → Within m (release_one after left s)
release_one-Within m after n left s i e =
    let kept = keys_of-adjust after (λ _. left) s.counts in
    let found : contains after (keys_of m) ≡ true =
      subst (λ ks. contains after ks ≡ true) i.keys (ground (arith, has_key after s.counts)) in
    record {
      keys = kept ∙ i.keys;
      ready_keys = λ v c.
          ground
            (arith, found, =?_iff after v, contains-insert_set after v s.ready, i.ready_keys v);
    }

pub release-Within :
    (m : Successors) (afters : List Name) (s s' : Schedule)
    → Within m s
    → release afters s ≡ planned s'
    → Within m s'
unfolding release
release-Within m [] s s' i h = let e : s ≡ s' = cc in subst (λ x. Within m x) e i
release-Within m (after ∷ rest) s s' i h = elim (Option-cases (lookup after s.counts)) [
  | inl e ↦ absurd (ground arith)
  | inr (zero, e) ↦ absurd (ground arith)
  | inr (suc left, e) ↦
      release-Within m rest (release_one after left s) s'
        (release_one-Within m after (suc left) left s i e) (ground arith)
]

release_no_panic :
    (m : Successors) (done batch afters : List Name) (s : Schedule)
    → Releasing m done batch afters s
    → release afters s ≢ panicked
unfolding release
release_no_panic m done batch [] s i h = ground arith
release_no_panic m done batch (after ∷ rest) s i h = elim (Option-cases (lookup after s.counts)) [
  | inl e ↦ ground (arith, i.counted after, =?_iff after after)
  | inr (zero, e) ↦ ground (arith, i.counted after, =?_iff after after)
  | inr (suc left, e) ↦
      release_no_panic m done batch rest (release_one after left s)
        (release_one-Releasing m done batch after rest left s i e) (ground arith)
]

module _ (m : Successors) (distinct_keys : distinct (keys_of m) ≡ true) where
  pub release_batch_no_panic :
      (done batch : List Name) (s : Schedule)
      → Releasing m done batch [] s
      → ((v : Name) → contains v batch ≡ true → contains v (keys_of m) ≡ true)
      → release_batch m batch s ≢ panicked
  unfolding release_batch contains
  release_batch_no_panic done [] s i b h = ground arith
  release_batch_no_panic done (table ∷ batch) s i b h = elim (Option-cases (lookup table m)) [
    | inl e ↦ ground (arith, has_key table m, b table, =?_iff table table)
    | inr (afters, e) ↦
        let next = next-Releasing m distinct_keys done table batch afters s i e in
        elim (Planned-cases (release afters s)) [
          | inl (s1, r) ↦
              release_batch_no_panic (table ∷ done) batch s1
                (release-Releasing m (table ∷ done) batch afters s s1 next r)
                (λ v c. b v (ground arith)) (ground arith)
          | inr (inl (x, r)) ↦ ground arith
          | inr (inr r) ↦ release_no_panic m (table ∷ done) batch afters s next r
        ]
  ]

  pub release_batch-Within :
      (batch : List Name) (s s' : Schedule)
      → Within m s
      → release_batch m batch s ≡ planned s'
      → Within m s'
  unfolding release_batch
  release_batch-Within [] s s' i h = let e : s ≡ s' = cc in subst (λ x. Within m x) e i
  release_batch-Within (table ∷ batch) s s' i h = elim (Option-cases (lookup table m)) [
    | inl e ↦ absurd (ground arith)
    | inr (afters, e) ↦ elim (Planned-cases (release afters s)) [
      | inl (s1, r) ↦
          release_batch-Within batch s1 s' (release-Within m afters s s1 i r) (ground arith)
      | inr (inl (x, r)) ↦ absurd (ground arith)
      | inr (inr r) ↦ absurd (ground arith)
    ]
  ]
