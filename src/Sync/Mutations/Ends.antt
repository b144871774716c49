-- ===== src/Sync/Mutations/Ends.antt =====
-- The loop over refused batches ends (apply_strict_mutations of src/sync/chunk.rs): a conflict that
-- comes back is an error, and each round has a new one.
use mariadb_mysql_cdc.Prelude.{
  ℕ, zero, suc, ◌+◌, ◌<◌, ◌≤◌, Name, true, false, List, [], ◌∷◌, length, ◌≡◌, ◌≢◌, inl, inr, arith,
  name_ord, key_ord, pair_ord, =?_iff, contains, insert_set, contains-insert_set, All, Bool-cases,
  Option-cases, List-cases, if◌then◌else◌,
}
use mariadb_mysql_cdc.Sync.Exec.{MutationKind, unfinished, ok, err, Outcome-cases}
use mariadb_mysql_cdc.Sync.Model.{
  DatabaseRow, SyncMutationFailure, retry_rows, SyncUniqueOwnerConflict, SyncChunkSource,
  SyncChunkTargetSession,
}
use mariadb_mysql_cdc.Sync.Owners.Plan.{plan-ends}
use mariadb_mysql_cdc.Sync.Mutations.{
  RepairKey, repair_key, Repairs, no_repairs, try_strict_mutation, record_unique_owner_repair_key,
  reconcile_unique_owner_conflict, reconcile_conflicts, inspect_and_reconcile_mutation_failure,
  strict_rounds, apply_strict_mutations,
}

-- How many of the keys are not recorded yet.
abbrev left_of : List RepairKey → List RepairKey → ℕ
left_of [] recorded = 0
left_of (key ∷ keys) recorded = (if contains key recorded then 0 else 1) + left_of keys recorded

left_of-le : (keys recorded : List RepairKey) → left_of keys recorded ≤ length keys
left_of-le [] recorded = ground arith
left_of-le (key ∷ keys) recorded = ground (arith, left_of-le keys recorded)

left_of-insert_set :
    (k : RepairKey) (keys recorded : List RepairKey)
    → (left_of keys (insert_set k recorded) ≤ left_of keys recorded)
      × (contains k keys ≡ true
          → contains k recorded ≡ false
          → left_of keys (insert_set k recorded) < left_of keys recorded)
unfolding contains
left_of-insert_set k [] recorded = ground arith
left_of-insert_set k (key ∷ keys) recorded = ground (
  arith,
  contains-insert_set k key recorded,
  =?_iff k key,
  =?_iff key k,
  left_of-insert_set k keys recorded,
)

abbrev pub AllKnown : List RepairKey → List SyncUniqueOwnerConflict → Type 0
AllKnown keys conflicts = All (λ conflict. contains (repair_key conflict) keys ≡ true) conflicts

module _ {W : Type 0} (source : SyncChunkSource W) (target : SyncChunkTargetSession W)
    (table : Name) (keys : List RepairKey) where
  -- The owners that an inspection finds are rows of the locked target, which are finitely many, and
  -- an inspection that finds none is an error.
  pub record IsInspection : Type 0 where
    pub finds :
        (failure : SyncMutationFailure) (w : W) (conflicts : List SyncUniqueOwnerConflict)
        → (target.inspect_unique_owner_conflicts failure w).0 ≡ ok conflicts
        → (conflicts ≢ []) × AllKnown keys conflicts

  conflict-advances :
      (conflict : SyncUniqueOwnerConflict) (r : Repairs) (w : W)
      → contains (repair_key conflict) keys ≡ true
      → let (result, w') = reconcile_unique_owner_conflict source target table conflict r w in
        (result ≢ err unfinished)
        × ((r' : Repairs) → result ≡ ok r' → left_of keys r'.conflicts < left_of keys r.conflicts)
  unfolding reconcile_unique_owner_conflict record_unique_owner_repair_key
  conflict-advances conflict r w known =
      let k = repair_key conflict in
      let read = source.read_row_by_primary_key conflict.owner.primary_key w in
      let step = left_of-insert_set k keys r.conflicts in
      elim (Bool-cases (contains k r.conflicts)) [
        | inl again ↦ (λ e. ground arith, λ r' e. ground arith)
        | inr new ↦ elim (Outcome-cases read.0) [
          | inr (x, a) ↦ (λ e. ground arith, λ r' e. ground arith)
          | inl (owner, a) ↦
              let ends = plan-ends table conflict owner in
              (λ e. ground (arith, ends), λ r' e. ground (arith, step))
        ]
      ]

  conflicts-advance :
      (conflicts : List SyncUniqueOwnerConflict) (r : Repairs) (w : W)
      → AllKnown keys conflicts
      → let (result, w') = reconcile_conflicts source target table conflicts r w in
        (result ≢ err unfinished)
        × ((r' : Repairs)
            → result ≡ ok r'
            → left_of keys r'.conflicts + length conflicts ≤ left_of keys r.conflicts)
  unfolding reconcile_conflicts
  conflicts-advance [] r w known = (λ e. ground arith, λ r' e. ground arith)
  conflicts-advance (conflict ∷ conflicts) r w known =
      let call = reconcile_unique_owner_conflict source target table conflict r w in
      let first = conflict-advances conflict r w known.0 in
      elim (Outcome-cases call.0) [
        | inr (x, a) ↦ (λ e. ground (arith, first.0), λ r' e. ground arith)
        | inl (r1, a) ↦
            let rest = conflicts-advance conflicts r1 call.1 known.1 in
            (λ e. ground (arith, rest.0), λ r' e. ground (arith, first.1 r1, rest.1 r'))
      ]

  inspection-advances :
      IsInspection
      → (failure : SyncMutationFailure) (r : Repairs) (w : W)
      → let (result, w') = inspect_and_reconcile_mutation_failure source target table failure r w in
        (result ≢ err unfinished)
        × ((r' : Repairs) → result ≡ ok r' → left_of keys r'.conflicts < left_of keys r.conflicts)
  unfolding inspect_and_reconcile_mutation_failure
  inspection-advances i failure r w =
      let call = target.inspect_unique_owner_conflicts failure w in
      elim (Outcome-cases call.0) [
        | inr (x, a) ↦ (λ e. ground arith, λ r' e. ground arith)
        | inl (conflicts, a) ↦
            let found = i.finds failure w conflicts a in
            let all = conflicts-advance conflicts r call.1 found.1 in
            elim (List-cases conflicts) [
              | inl empty ↦ absurd (found.0 empty)
              | inr (conflict, rest, some_found) ↦
                  (λ e. ground (arith, all.0), λ r' e. ground (arith, all.1 r'))
            ]
      ]

  rounds-end :
      IsInspection
      → (fuel : ℕ) (kind : MutationKind) (rows : List DatabaseRow) (r : Repairs) (w : W)
      → left_of keys r.conflicts < fuel
      → (strict_rounds source target table fuel kind rows r w).0 ≢ err unfinished
  unfolding strict_rounds try_strict_mutation
  rounds-end i zero kind rows r w enough e = ground arith
  rounds-end i (suc fuel) kind rows r w enough e =
      let call = try_strict_mutation source target table kind rows w in
      elim (Outcome-cases call.0) [
        | inr (x, a) ↦ ground arith
        | inl (failed, a) ↦ elim (Option-cases failed) [
          | inl done ↦ ground arith
          | inr (failure, again) ↦
              let round =
                inspect_and_reconcile_mutation_failure source target table failure r call.1 in
              let h = inspection-advances i failure r call.1 in
              elim (Outcome-cases round.0) [
                | inr (x, b) ↦ ground (arith, h.0)
                | inl (r', b) ↦
                    ground (arith, h.1 r' b, rounds-end i fuel kind (retry_rows failure) r' round.1)
              ]
        ]
      ]

  -- The loop over refused batches ends within one round for each conflict that the target can show,
  -- and one more: fuel above their number is enough for any rows.
  pub apply_strict_mutations-ends :
      IsInspection
      → (fuel : ℕ) (rows : List DatabaseRow) (kind : MutationKind) (w : W) → length keys < fuel
      → (apply_strict_mutations source target table fuel rows kind w).0 ≢ err unfinished
  unfolding apply_strict_mutations
  apply_strict_mutations-ends i fuel [] kind w enough e = ground arith
  apply_strict_mutations-ends i fuel (row ∷ rows) kind w enough e =
      let ends =
        rounds-end i fuel kind (row ∷ rows) no_repairs w
          (ground (arith, left_of-le keys no_repairs.conflicts)) in
      ground (arith, ends)
