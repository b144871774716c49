-- ===== src/Sync/Stages/Contract.antt =====
-- What the stages rely on: the rows of progress by stage and table, and the order in which the stages
-- were run (the traits of src/sync/orchestrate.rs and src/sync/model.rs).
use mariadb_mysql_cdc.Prelude.{
  Name, false, ◌&&◌, Option, some, List, ◌∷◌, ◌≡◌, name_ord, ◌=?◌, if◌then◌else◌,
}
use mariadb_mysql_cdc.Sync.Exec.{SyncStage, rows, SyncError, ok, err}
use mariadb_mysql_cdc.Sync.Model.{SyncChunkProgress}
use mariadb_mysql_cdc.Sync.Stages.{
  SyncProgressRow, same_stage, SyncRunProgressStore, SyncRunExecutor,
}

pub record StageContract {W : Type 0} (x : SyncRunExecutor W) (p : SyncRunProgressStore W)
    (run_id : Name) : Type 0 where
  pub stored : W → SyncStage → Name → Option SyncProgressRow
  -- The schema stages that were started and the row stages that were finished, the last one first.
  pub history : W → List SyncStage
  pub load_reads :
      (stage : SyncStage) (table : Name) (w : W) (row : Option SyncProgressRow)
      → (p.load_stage run_id stage table w).0 ≡ ok row
      → row ≡ stored w stage table
  pub load_keeps :
      (stage at : SyncStage) (table name : Name) (w : W)
      → stored (p.load_stage run_id stage table w).1 at name ≡ stored w at name
  pub load_history :
      (stage : SyncStage) (table : Name) (w : W)
      → history (p.load_stage run_id stage table w).1 ≡ history w
  pub save_writes :
      (row : SyncProgressRow) (at : SyncStage) (name : Name) (w : W)
      → (p.save_stage row w).0 ≡ ok tt
      → stored (p.save_stage row w).1 at name ≡ (
          if same_stage row.stage at && (row.table_name =? name)
          then some row
          else stored w at name)
  pub save_history : (row : SyncProgressRow) (w : W) → history (p.save_stage row w).1 ≡ history w
  pub schema_keeps :
      (stage at : SyncStage) (name : Name) (w : W)
      → stored (x.run_schema_stage stage w).1 at name ≡ stored w at name
  pub schema_history :
      (stage : SyncStage) (w : W) → history (x.run_schema_stage stage w).1 ≡ stage ∷ history w
  -- The rows have progress of their own stage.
  pub rows_keep :
      (at : SyncStage) (name : Name) (w : W)
      → same_stage at rows ≡ false
      → stored (x.run_rows w).1 at name ≡ stored w at name
  pub rows_done :
      (w : W) (reports : List SyncChunkProgress)
      → (x.run_rows w).0 ≡ ok reports
      → history (x.run_rows w).1 ≡ rows ∷ history w
  pub rows_failed :
      (w : W) (e : SyncError) → (x.run_rows w).0 ≡ err e → history (x.run_rows w).1 ≡ history w
