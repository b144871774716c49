-- ===== src/Sync/Model.antt =====
-- The data of a table synchronisation (src/sync/model.rs, src/database_row.rs) and the three
-- traits through which a chunk reaches the source, the target session and the progress store.
use mariadb_mysql_cdc.Prelude.{
  ℕ, ◌+◌, ◌%◌, ◌^◌, Name, Key, Map, Bool, true, false, ◌||◌, Option, none, some, List, [], ◌∷◌,
  ◌++◌, lookup, name_ord,
}
use mariadb_mysql_cdc.Sync.Exec.{column_absent, column_null, Outcome, ok, err, Exec, map_ok}

pub record DatabaseRow : Type 0 where
  pub primary_key : Key
  pub values : Map Name (Option Name)

-- The columns' orderings and types, which only the SQL builders read, are left out.
pub record SyncTable : Type 0 where
  pub name : Name
  pub primary_key : List Name
  pub columns : List Name

pub data SyncMutationPhase : Type 0 where
  all insert_missing update_divergent delete_extras : SyncMutationPhase

abbrev same_phase : SyncMutationPhase → SyncMutationPhase → Bool
same_phase all all = true
same_phase insert_missing insert_missing = true
same_phase update_divergent update_divergent = true
same_phase delete_extras delete_extras = true
same_phase _ _ = false

abbrev pub includes : SyncMutationPhase → SyncMutationPhase → Bool
includes phase operation = same_phase phase all || same_phase phase operation

pub record SyncChunkConfig : Type 0 where
  pub run_id : Name
  pub target_database : Name
  pub table : SyncTable
  pub chunk_size : ℕ

pub record SyncChunkReadRequest : Type 0 where
  pub start_after : Option Key
  pub end_at : Option Key
  pub limit : ℕ

pub record SyncMutationFailure : Type 0 where
  pub mysql_code : Option ℕ
  pub message : Name
  pub failed_batch : List DatabaseRow
  pub remaining_rows : List DatabaseRow

abbrev pub retry_rows : SyncMutationFailure → List DatabaseRow
retry_rows failure = failure.failed_batch ++ failure.remaining_rows

pub record SyncUniqueIndex : Type 0 where
  pub name : Name
  pub columns : List Name

unfoldable pub unique_value : Name → Name → Option (Option Name) → Outcome Name
unique_value label column none = err (column_absent label column)
unique_value label column (some none) = err (column_null label column)
unique_value label column (some (some value)) = ok value

-- `collect` of results stops at the first error.
unfoldable pub collect_values : List Name → DatabaseRow → Name → Outcome (List Name)
collect_values [] row label = ok []
collect_values (column ∷ columns) row label =
    let rest = collect_values columns row label in
    elim (unique_value label column (lookup column row.values)) [
      | err e ↦ err e
      | ok value ↦ map_ok (λ values. value ∷ values) rest
    ]

unfoldable pub values_of : SyncUniqueIndex → DatabaseRow → Name → Outcome (List Name)
unfolding collect_values
values_of index row label = collect_values index.columns row label

pub record SyncUniqueOwnerConflict : Type 0 where
  pub index : SyncUniqueIndex
  pub intended : DatabaseRow
  pub owner : DatabaseRow

pub data SyncUniqueOwnerAction : Type 0 where
  update : DatabaseRow → SyncUniqueOwnerAction
  delete : SyncUniqueOwnerAction

pub record SyncChunkProgress : Type 0 where
  pub run_id : Name
  pub table : Name
  pub last_primary_key : Option Key
  pub complete : Bool
  pub chunks : ℕ
  pub rows_scanned : ℕ
  pub inserts : ℕ
  pub updates : ℕ
  pub deletes : ℕ

-- The counters are of type u64.
abbrev pub add_u64 : ℕ → ℕ → ℕ
add_u64 a b = (a + b) % 2 ^ 64

pub record SyncChunkPage : Type 0 where
  pub rows : List DatabaseRow
  pub has_more : Bool

pub data MutationResult : Type 0 where
  applied : MutationResult
  refused : SyncMutationFailure → MutationResult

pub record SyncChunkSource (W : Type 0) : Type 0 where
  pub read_rows : SyncChunkReadRequest → Exec W SyncChunkPage
  pub read_row_by_primary_key : Key → Exec W (Option DatabaseRow)

pub record SyncChunkTargetSession (W : Type 0) : Type 0 where
  pub set_autocommit : Bool → Exec W (Unit {0})
  pub lock_table_write : Name → Name → Exec W (Unit {0})
  pub read_rows : SyncChunkReadRequest → Exec W SyncChunkPage
  pub delete_rows : List Key → Exec W (Unit {0})
  pub update_rows : List DatabaseRow → W → MutationResult × W
  pub insert_rows : List DatabaseRow → W → MutationResult × W
  pub inspect_unique_owner_conflicts : SyncMutationFailure → Exec W (List SyncUniqueOwnerConflict)
  pub reconcile_unique_owner : SyncUniqueOwnerConflict → SyncUniqueOwnerAction → Exec W (Unit {0})
  pub verify_rows : List DatabaseRow → Exec W (Unit {0})
  pub commit : Exec W (Unit {0})
  pub rollback : Exec W (Unit {0})
  pub unlock_tables : Exec W (Unit {0})

pub record SyncChunkProgressStore (W : Type 0) : Type 0 where
  pub load : Name → Name → Exec W (Option SyncChunkProgress)
  pub save : SyncChunkProgress → Exec W (Unit {0})
