-- ===== src/Sync/Mutations/Tests.antt =====
-- Refused batches, and the theorems at them.
use mariadb_mysql_cdc.Prelude.{
  ℕ, ◌-◌, Name, String, false, none, some, List, [], ◌∷◌, ◌≡◌, ◌≢◌, ◌⊎◌, refl, codes, contains,
  lookup, insert, insert_set, ◌=?◌, name_ord, key_ord, pair_ord, nat_ord, arith, if◌then◌else◌, leb,
}
use mariadb_mysql_cdc.Sync.Exec.{insertion, unfinished, ok, err, pure, conflict_repeated}
use mariadb_mysql_cdc.Sync.Model.{
  DatabaseRow, SyncMutationFailure, SyncUniqueOwnerConflict, update, delete, applied, refused,
  SyncChunkSource, SyncChunkTargetSession, collect_values, values_of, unique_value,
}
use mariadb_mysql_cdc.Sync.Owners.{
  validate_unique_owner_conflict, validate_current_source_owner, plan_unique_owner_action,
}
use mariadb_mysql_cdc.Sync.Owners.Plan.{HasMoved, plan_unique_owner_action-safe}
use mariadb_mysql_cdc.Sync.Mutations.{
  repair_key, try_strict_mutation, record_unique_owner_repair_key, reconcile_unique_owner_conflict,
  reconcile_conflicts, inspect_and_reconcile_mutation_failure, strict_rounds,
  apply_strict_mutations,
}
use mariadb_mysql_cdc.Sync.Mutations.Ends.{IsInspection, apply_strict_mutations-ends}

abbrev user : String → String → DatabaseRow
user id email = record {
  primary_key = codes id ∷ [];
  values = (codes "email", some (codes email)) ∷ [];
}

-- User 2 is to take the address that user 1 holds in the target.
abbrev conflict : SyncUniqueOwnerConflict
conflict = record {
  index = record { name = codes "by_email"; columns = codes "email" ∷ [] };
  intended = user "2" "a";
  owner = user "1" "a";
}

abbrev failure : SyncMutationFailure
failure = record {
  mysql_code = some 1062;
  message = codes "Duplicate entry";
  failed_batch = user "2" "a" ∷ [];
  remaining_rows = [];
}

abbrev source : SyncChunkSource ℕ
source = record {
  read_rows = λ request. pure (record { rows = []; has_more = false });
  read_row_by_primary_key = λ k. pure (some (user "1" "b"));
}

-- The world counts the repairs that the target still needs.
abbrev target : SyncChunkTargetSession ℕ
target = record {
  set_autocommit = λ enabled. pure tt;
  lock_table_write = λ database table. pure tt;
  read_rows = λ request. pure (record { rows = []; has_more = false });
  delete_rows = λ keys. pure tt;
  update_rows = λ rows w. (applied, w);
  insert_rows = λ rows w. (if leb w 0 then applied else refused failure, w);
  inspect_unique_owner_conflicts = λ f. pure (conflict ∷ []);
  reconcile_unique_owner = λ c action w. (ok tt, w - 1);
  verify_rows = λ rows. pure tt;
  commit = pure tt;
  rollback = pure tt;
  unlock_tables = pure tt;
}

plan_test :
    plan_unique_owner_action (codes "users") conflict (some (user "1" "b"))
    ≡ ok (update (user "1" "b"))
unfolding plan_unique_owner_action validate_unique_owner_conflict validate_current_source_owner
    values_of collect_values unique_value lookup ◌=?◌
plan_test = refl

repaired_once :
    (apply_strict_mutations source target (codes "users") 3 (user "2" "a" ∷ []) insertion 1).0
    ≡ ok tt
unfolding apply_strict_mutations strict_rounds try_strict_mutation
    inspect_and_reconcile_mutation_failure reconcile_conflicts reconcile_unique_owner_conflict
    record_unique_owner_repair_key plan_unique_owner_action validate_unique_owner_conflict
    validate_current_source_owner values_of collect_values unique_value contains lookup insert
    insert_set ◌=?◌
repaired_once = refl

-- The same conflict again is an error.
repeated :
    (apply_strict_mutations source target (codes "users") 3 (user "2" "a" ∷ []) insertion 2).0
    ≡ err (conflict_repeated (codes "users") (codes "by_email") (codes "2" ∷ []))
unfolding apply_strict_mutations strict_rounds try_strict_mutation
    inspect_and_reconcile_mutation_failure reconcile_conflicts reconcile_unique_owner_conflict
    record_unique_owner_repair_key plan_unique_owner_action validate_unique_owner_conflict
    validate_current_source_owner values_of collect_values unique_value contains lookup insert
    insert_set ◌=?◌
repeated = refl

inspected : IsInspection source target (codes "users") (repair_key conflict ∷ [])
unfolding contains ◌=?◌
inspected = record { finds = λ f w conflicts e. ground arith }

apply_strict_mutations-ends_example :
    (apply_strict_mutations source target (codes "users") 2 (user "2" "a" ∷ []) insertion 2).0
    ≢ err unfinished
apply_strict_mutations-ends_example =
    apply_strict_mutations-ends source target (codes "users") (repair_key conflict ∷ []) inspected 2
      (user "2" "a" ∷ []) insertion 2 (omega arith)

plan_unique_owner_action-safe_example :
    (conflict.owner.primary_key ≢ conflict.intended.primary_key)
    × ((identity : List Name) × (values_of conflict.index conflict.intended (codes "intended")
          ≡ ok identity)
        × (values_of conflict.index conflict.owner (codes "target owner") ≡ ok identity)
        × (((some (user "1" "b") ≡ none) × (update (user "1" "b") ≡ delete))
            ⊎ ((row : DatabaseRow) × (some (user "1" "b") ≡ some row)
                × (update (user "1" "b") ≡ update row)
                × HasMoved conflict identity row)))
plan_unique_owner_action-safe_example =
    plan_unique_owner_action-safe (codes "users") conflict (some (user "1" "b"))
      (update (user "1" "b")) plan_test
