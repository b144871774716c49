-- ===== src/Sync/Mutations.antt =====
-- Strict mutations: a batch that a unique key refuses is tried again after the row that owns the
-- key is reconciled (apply_strict_mutations of src/sync/chunk.rs).
pub mod Ends
mod Tests
use mariadb_mysql_cdc.Prelude.{
  ℕ, zero, suc, Name, Key, Map, Bool, true, false, Option, none, some, List, [], ◌∷◌, map, name_ord,
  key_ord, pair_ord, nat_ord, ◌=?◌, if◌then◌else◌, contains, insert, insert_set, ◌==◌,
}
use mariadb_mysql_cdc.Sync.Exec.{
  MutationKind, insertion, modification, mutation_failed, verify_reconciled, inspect_conflict,
  read_source_owner, reconcile_owner, conflict_repeated, unfinished, Outcome, ok, err, Exec,
  from_outcome, pure, raise, map_err, ◌>>=◌, ◌>>◌,
}
use mariadb_mysql_cdc.Sync.Model.{
  DatabaseRow, SyncMutationFailure, retry_rows, SyncUniqueOwnerConflict, SyncChunkSource,
  SyncChunkTargetSession, MutationResult, applied, refused,
}
use mariadb_mysql_cdc.Sync.Owners.{plan_unique_owner_action}

-- The index, the key of the intended row and the key of the owner.
abbrev pub RepairKey : Type 0
RepairKey = Name × (Key × Key)

abbrev pub repair_key : SyncUniqueOwnerConflict → RepairKey
repair_key conflict =
    (conflict.index.name, (conflict.intended.primary_key, conflict.owner.primary_key))

pub record Repairs : Type 0 where
  pub conflicts : List RepairKey
  pub intended_rows : Map Key DatabaseRow

abbrev pub no_repairs : Repairs
no_repairs = record { conflicts = []; intended_rows = [] }

unfoldable pub record_unique_owner_repair_key :
    Name → SyncUniqueOwnerConflict → Repairs → Outcome Repairs
record_unique_owner_repair_key table conflict repairs =
    if contains (repair_key conflict) repairs.conflicts
    then err (conflict_repeated table conflict.index.name conflict.intended.primary_key)
    else ok (record repairs { conflicts = insert_set (repair_key conflict) repairs.conflicts })

abbrev pub is_duplicate : Option ℕ → Bool
is_duplicate none = false
is_duplicate (some code) = code == 1062

abbrev mutation_outcome :
    Name → MutationKind → MutationResult → Outcome (Option SyncMutationFailure)
mutation_outcome table kind applied = ok none
mutation_outcome table kind (refused failure) =
    if is_duplicate failure.mysql_code
    then ok (some failure)
    else err (mutation_failed kind table failure.message)

module _ {W : Type 0} (source : SyncChunkSource W) (target : SyncChunkTargetSession W)
    (table : Name) where
  abbrev pub mutate : MutationKind → List DatabaseRow → W → MutationResult × W
  mutate insertion rows = target.insert_rows rows
  mutate modification rows = target.update_rows rows

  unfoldable pub try_strict_mutation :
      MutationKind → List DatabaseRow → Exec W (Option SyncMutationFailure)
  try_strict_mutation kind rows w =
      (mutation_outcome table kind (mutate kind rows w).0, (mutate kind rows w).1)

  unfoldable pub reconcile_unique_owner_conflict :
      SyncUniqueOwnerConflict → Repairs → Exec W Repairs
  unfolding record_unique_owner_repair_key
  reconcile_unique_owner_conflict conflict repairs = do
    recorded ← from_outcome (record_unique_owner_repair_key table conflict repairs)
    source_owner ←
        map_err (read_source_owner table conflict.index.name)
          (source.read_row_by_primary_key conflict.owner.primary_key)
    action ← from_outcome (plan_unique_owner_action table conflict source_owner)
    map_err (reconcile_owner table conflict.index.name)
        (target.reconcile_unique_owner conflict action)
    pure (record recorded {
      intended_rows = insert conflict.intended.primary_key conflict.intended recorded.intended_rows;
    })

  unfoldable pub reconcile_conflicts : List SyncUniqueOwnerConflict → Repairs → Exec W Repairs
  reconcile_conflicts [] repairs = pure repairs
  reconcile_conflicts (conflict ∷ conflicts) repairs =
      reconcile_unique_owner_conflict conflict repairs >>= reconcile_conflicts conflicts

  unfoldable pub inspect_and_reconcile_mutation_failure :
      SyncMutationFailure → Repairs → Exec W Repairs
  unfolding reconcile_conflicts
  inspect_and_reconcile_mutation_failure failure repairs =
      map_err (inspect_conflict table) (target.inspect_unique_owner_conflicts failure)
      >>= λ conflicts. reconcile_conflicts conflicts repairs

  -- The loop, on fuel.
  unfoldable pub strict_rounds : ℕ → MutationKind → List DatabaseRow → Repairs → Exec W Repairs
  unfolding try_strict_mutation inspect_and_reconcile_mutation_failure
  strict_rounds zero kind rows repairs = raise unfinished
  strict_rounds (suc fuel) kind rows repairs = try_strict_mutation kind rows >>= λ result.
      elim result [
        | none ↦ pure repairs
        | some failure ↦
            inspect_and_reconcile_mutation_failure failure repairs
            >>= strict_rounds fuel kind (retry_rows failure)
      ]

  abbrev verify_intended : Repairs → Exec W (Unit {0})
  verify_intended repairs = elim repairs.intended_rows [
    | [] ↦ pure tt
    | entry ∷ rest ↦
        map_err (verify_reconciled table) (target.verify_rows (map (λ e. e.1) (entry ∷ rest)))
  ]

  unfoldable pub apply_strict_mutations : ℕ → List DatabaseRow → MutationKind → Exec W (Unit {0})
  unfolding strict_rounds
  apply_strict_mutations fuel [] kind = pure tt
  apply_strict_mutations fuel (row ∷ rows) kind =
      strict_rounds fuel kind (row ∷ rows) no_repairs >>= verify_intended
