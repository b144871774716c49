-- ===== src/Sync/Owners.antt =====
-- The owner of a unique value that another row is to take: its check and the action on it
-- (plan_unique_owner_action and the validation of src/sync/chunk.rs).
pub mod Plan
use mariadb_mysql_cdc.Prelude.{
  Name, Key, Map, codes, Bool, true, false, not, Option, none, some, List, map, name_ord, key_ord,
  ◌=?◌, if◌then◌else◌,
}
use mariadb_mysql_cdc.Sync.Exec.{
  same_primary_key, ambiguous_identity, owner_disagrees, owner_incomplete, legitimate_owner,
  Outcome, ok, err,
}
use mariadb_mysql_cdc.Sync.Model.{
  DatabaseRow, SyncUniqueOwnerConflict, SyncUniqueOwnerAction, update, delete, values_of,
}

abbrev pub columns_of : DatabaseRow → List Name
columns_of row = map (λ entry. entry.0) row.values

abbrev same_identity : Name → Name → List Name → Outcome (List Name) → Outcome (List Name)
same_identity table index intended (err e) = err e
same_identity table index intended (ok target) =
    if target =? intended then ok intended else err (ambiguous_identity table index)

unfoldable pub validate_unique_owner_conflict : Name → SyncUniqueOwnerConflict → Outcome (List Name)
unfolding values_of
validate_unique_owner_conflict table conflict =
    if conflict.owner.primary_key =? conflict.intended.primary_key
    then err (same_primary_key table conflict.index.name)
    else elim (values_of conflict.index conflict.intended (codes "intended")) [
      | err e ↦ err e
      | ok intended ↦
          same_identity table conflict.index.name intended
            (values_of conflict.index conflict.owner (codes "target owner"))
    ]

unfoldable pub validate_current_source_owner :
    Name → SyncUniqueOwnerConflict → DatabaseRow → List Name → Outcome (Unit {0})
validate_current_source_owner table conflict source_owner intended_identity =
    if not (source_owner.primary_key =? conflict.owner.primary_key)
    then err (owner_disagrees table conflict.index.name)
    else if not (columns_of source_owner =? columns_of conflict.intended)
    then err (owner_incomplete table conflict.index.name)
    else elim (values_of conflict.index source_owner (codes "current source owner")) [
      | err e ↦ err e
      | ok source_identity ↦
          if source_identity =? intended_identity
          then err (legitimate_owner table conflict.index.name)
          else ok tt
    ]

abbrev plan_for :
    Name → SyncUniqueOwnerConflict → List Name → Option DatabaseRow → Outcome SyncUniqueOwnerAction
plan_for table conflict intended_identity none = ok delete
plan_for table conflict intended_identity (some source_owner) =
    elim (validate_current_source_owner table conflict source_owner intended_identity) [
      | err e ↦ err e
      | ok _ ↦ ok (update source_owner)
    ]

unfoldable pub plan_unique_owner_action :
    Name → SyncUniqueOwnerConflict → Option DatabaseRow → Outcome SyncUniqueOwnerAction
unfolding validate_unique_owner_conflict validate_current_source_owner
plan_unique_owner_action table conflict source_owner =
    elim (validate_unique_owner_conflict table conflict) [
      | err e ↦ err e
      | ok intended_identity ↦ plan_for table conflict intended_identity source_owner
    ]
