-- ===== src/Sync/Stages.antt =====
-- The stages of a synchronisation around its rows, with a stored status for each table
-- (src/sync/orchestrate.rs; the rows of progress of src/sync/model.rs). The configuration, the
-- evidence of the source and the plan of the rows are in the executor's calls.
pub mod Contract
pub mod Statuses
pub mod Order
mod Tests
use mariadb_mysql_cdc.Prelude.{
  ℕ, Name, Key, Bool, true, false, not, codes, Option, none, some, List, [], ◌∷◌, name_ord, ◌=?◌,
  if◌then◌else◌,
}
use mariadb_mysql_cdc.Sync.Exec.{
  SyncStage, prerequisite_schema, rows, final_constraints, SyncError, load_stage_failed,
  save_stage_failed, save_stage_error_failed, stage_run_mismatch, stage_mismatch,
  stage_table_mismatch, additionally, Outcome, ok, err, Exec, from_outcome, pure, raise, map_err,
  ◌>>=◌, ◌>>◌,
}
use mariadb_mysql_cdc.Sync.Model.{SyncChunkProgress}

pub data SyncProgressStatus : Type 0 where
  running complete error : SyncProgressStatus

-- The times, which the store sets, are left out.
pub record SyncProgressRow : Type 0 where
  pub run_id : Name
  pub stage : SyncStage
  pub table_name : Name
  pub last_primary_key : Option Key
  pub chunks : ℕ
  pub rows_scanned : ℕ
  pub inserts : ℕ
  pub updates : ℕ
  pub deletes : ℕ
  pub status : SyncProgressStatus
  pub last_error : Option SyncError

abbrev pub same_stage : SyncStage → SyncStage → Bool
same_stage prerequisite_schema prerequisite_schema = true
same_stage rows rows = true
same_stage final_constraints final_constraints = true
same_stage _ _ = false

abbrev pub stage_progress_row :
    Name → SyncStage → Name → SyncProgressStatus → Option SyncError → SyncProgressRow
stage_progress_row run_id stage table status last_error = record {
  run_id = run_id;
  stage = stage;
  table_name = table;
  last_primary_key = none;
  chunks = 0;
  rows_scanned = 0;
  inserts = 0;
  updates = 0;
  deletes = 0;
  status = status;
  last_error = last_error;
}

unfoldable pub validate_stage_progress :
    Name → SyncStage → Name → SyncProgressRow → Outcome (Unit {0})
validate_stage_progress run_id stage table progress =
    if not (progress.run_id =? run_id)
    then err (stage_run_mismatch stage table run_id progress.run_id)
    else if not (same_stage progress.stage stage)
    then err (stage_mismatch stage table progress.stage)
    else if not (progress.table_name =? table)
    then err (stage_table_mismatch stage table progress.table_name)
    else ok tt

abbrev pub validated :
    Name → SyncStage → Name → Option SyncProgressRow → Outcome (Option SyncProgressRow)
validated run_id stage table none = ok none
validated run_id stage table (some row) = elim (validate_stage_progress run_id stage table row) [
  | err e ↦ err e
  | ok _ ↦ ok (some row)
]

abbrev pub is_complete : Option SyncProgressRow → Bool
is_complete none = false
is_complete (some row) = elim row.status [ complete ↦ true | _ ↦ false ]

unfoldable pub incomplete_stage_tables : List Name → List (Option SyncProgressRow) → List Name
incomplete_stage_tables [] existing = []
incomplete_stage_tables (table ∷ tables) [] = []
incomplete_stage_tables (table ∷ tables) (row ∷ existing) =
    let rest = incomplete_stage_tables tables existing in
    if is_complete row then rest else table ∷ rest

pub record SyncRunProgressStore (W : Type 0) : Type 0 where
  pub load_stage : Name → SyncStage → Name → Exec W (Option SyncProgressRow)
  pub save_stage : SyncProgressRow → Exec W (Unit {0})

pub record SyncRunExecutor (W : Type 0) : Type 0 where
  pub run_schema_stage : SyncStage → Exec W (Unit {0})
  pub run_rows : Exec W (List SyncChunkProgress)

module _ {W : Type 0} (executor : SyncRunExecutor W) (progress : SyncRunProgressStore W)
    (run_id : Name) where
  unfoldable pub load_stage_progress :
      SyncStage → List Name → Exec W (List (Option SyncProgressRow))
  unfolding validate_stage_progress
  load_stage_progress stage [] = pure []
  load_stage_progress stage (table ∷ tables) = do
    loaded ← map_err (load_stage_failed stage table) (progress.load_stage run_id stage table)
    row ← from_outcome (validated run_id stage table loaded)
    others ← load_stage_progress stage tables
    pure (row ∷ others)

  abbrev pub save_stage_progress :
      SyncStage → Name → SyncProgressStatus → Option SyncError → Exec W (Unit {0})
  save_stage_progress stage table status last_error =
      map_err (save_stage_failed stage table)
        (progress.save_stage (stage_progress_row run_id stage table status last_error))

  unfoldable pub save_stage_statuses :
      SyncStage → List Name → SyncProgressStatus → Exec W (Unit {0})
  save_stage_statuses stage [] status = pure tt
  save_stage_statuses stage (table ∷ tables) status =
      save_stage_progress stage table status none >> save_stage_statuses stage tables status

  abbrev pub with_failure : SyncStage → Name → Outcome (Unit {0}) → SyncError → SyncError
  with_failure stage table (ok _) e = e
  with_failure stage table (err x) e = additionally e (save_stage_error_failed stage table x)

  -- All tables get the error; the failures to store it are added to it.
  unfoldable pub save_stage_errors :
      SyncStage → List Name → SyncError → SyncError → W → SyncError × W
  save_stage_errors stage [] primary_error told w = (told, w)
  save_stage_errors stage (table ∷ tables) primary_error told w =
      let (saved, w1) =
        progress.save_stage (stage_progress_row run_id stage table error (some primary_error)) w in
      save_stage_errors stage tables primary_error (with_failure stage table saved told) w1

  abbrev pub persist_schema_stage_result :
      SyncStage → List Name → Outcome (Unit {0}) → Exec W (Unit {0})
  persist_schema_stage_result stage incomplete (ok _) w =
      save_stage_statuses stage incomplete complete w
  persist_schema_stage_result stage incomplete (err e) w =
      let (told, w1) = save_stage_errors stage incomplete e e w in (err told, w1)

  abbrev pub run_incomplete : SyncStage → List Name → Exec W (Unit {0})
  run_incomplete stage [] = pure tt
  run_incomplete stage (table ∷ tables) = do
    save_stage_statuses stage (table ∷ tables) running
    λ w.
        let (result, w1) = executor.run_schema_stage stage w in
        persist_schema_stage_result stage (table ∷ tables) result w1

  unfoldable pub run_durable_schema_stage : SyncStage → List Name → Exec W (Unit {0})
  unfolding load_stage_progress incomplete_stage_tables save_stage_statuses save_stage_errors
  run_durable_schema_stage stage tables = load_stage_progress stage tables >>= λ existing.
      run_incomplete stage (incomplete_stage_tables tables existing)

  unfoldable pub run_sync_orchestration : List Name → Exec W (List SyncChunkProgress)
  unfolding run_durable_schema_stage
  run_sync_orchestration table_names = do
    run_durable_schema_stage prerequisite_schema table_names
    reports ← executor.run_rows
    run_durable_schema_stage final_constraints table_names
    pure reports
