-- ===== src/Sync/Stages/Tests.antt =====
-- A run over stages in memory, and the theorem at it.
use mariadb_mysql_cdc.Prelude.{
  Name, ◌&&◌, Option, none, some, List, [], ◌∷◌, ◌≡◌, refl, ◌⊎◌, codes, name_ord, ◌=?◌, arith,
  if◌then◌else◌,
}
use mariadb_mysql_cdc.Sync.Exec.{
  SyncStage, prerequisite_schema, rows, final_constraints, SyncError, ok, err,
}
use mariadb_mysql_cdc.Sync.Model.{SyncChunkProgress}
use mariadb_mysql_cdc.Sync.Stages.{
  complete, SyncProgressRow, same_stage, stage_progress_row, validate_stage_progress,
  incomplete_stage_tables, SyncRunProgressStore, SyncRunExecutor, load_stage_progress,
  save_stage_statuses, save_stage_errors, run_durable_schema_stage, run_sync_orchestration,
}
use mariadb_mysql_cdc.Sync.Stages.Contract.{StageContract}
use mariadb_mysql_cdc.Sync.Stages.Order.{
  IsBeforeRows, IsAfterRows, AllComplete, run_sync_orchestration-stages,
}

record Memory : Type 0 where
  saved : List SyncProgressRow
  finished : List SyncStage

abbrev stored_row : List SyncProgressRow → SyncStage → Name → Option SyncProgressRow
stored_row [] stage table = none
stored_row (row ∷ others) stage table =
    let rest = stored_row others stage table in
    if same_stage row.stage stage && (row.table_name =? table) then some row else rest

abbrev store : SyncRunProgressStore Memory
store = record {
  load_stage = λ run_id stage table w. (ok (stored_row w.saved stage table), w);
  save_stage = λ row w. (ok tt, record w { saved = row ∷ w.saved });
}

abbrev executor : SyncRunExecutor Memory
executor = record {
  run_schema_stage = λ stage w. (ok tt, record w { finished = stage ∷ w.finished });
  run_rows = λ w. (ok [], record w { finished = rows ∷ w.finished });
}

no_failure :
    (w : Memory) (e : SyncError)
    → (executor.run_rows w).0 ≡ err e
    → (executor.run_rows w).1.finished ≡ w.finished
no_failure w e f = ground arith

read_back :
    (w : Memory) (stage : SyncStage) (table : Name) (row : Option SyncProgressRow)
    → (store.load_stage (codes "run") stage table w).0 ≡ ok row
    → row ≡ stored_row w.saved stage table
read_back w stage table row e = ground arith

abbrev contract : StageContract executor store (codes "run")
contract = record {
  stored = λ w. stored_row w.saved;
  history = λ w. w.finished;
  load_reads = λ stage table w row e. read_back w stage table row e;
  load_keeps = λ stage at table name w. refl;
  load_history = λ stage table w. refl;
  save_writes = λ row at name w e. refl;
  save_history = λ row w. refl;
  schema_keeps = λ stage at name w. refl;
  schema_history = λ stage w. refl;
  rows_keep = λ at name w other. refl;
  rows_done = λ w reports e. refl;
  rows_failed = λ w e f. no_failure w e f;
}

abbrev tables : List Name
tables = codes "a" ∷ codes "b" ∷ []

abbrev before : Memory
before = record {
  saved = stage_progress_row (codes "run") prerequisite_schema (codes "a") complete none ∷ [];
  finished = [];
}

all_stages :
    (run_sync_orchestration executor store (codes "run") tables before).1.finished
    ≡ final_constraints ∷ rows ∷ prerequisite_schema ∷ []
unfolding run_sync_orchestration run_durable_schema_stage load_stage_progress
    validate_stage_progress incomplete_stage_tables save_stage_statuses save_stage_errors ◌=?◌
all_stages = refl

-- The second run finds both stages complete.
only_rows :
    (run_sync_orchestration executor store
      (codes "run")
      tables
      (run_sync_orchestration executor store (codes "run") tables before).1).1.finished
    ≡ rows ∷ final_constraints ∷ rows ∷ prerequisite_schema ∷ []
unfolding run_sync_orchestration run_durable_schema_stage load_stage_progress
    validate_stage_progress incomplete_stage_tables save_stage_statuses save_stage_errors ◌=?◌
only_rows = refl

abbrev run : Memory
run = (run_sync_orchestration executor store (codes "run") tables before).1

run_sync_orchestration-stages_example :
    (IsBeforeRows [] run.finished ⊎ IsAfterRows [] run.finished)
    × (AllComplete contract prerequisite_schema tables before
        → (run.finished ≡ [])
          ⊎ (run.finished ≡ rows ∷ [])
          ⊎ (run.finished ≡ final_constraints ∷ rows ∷ []))
    × ((reports : List SyncChunkProgress)
        → (run_sync_orchestration executor store (codes "run") tables before).0 ≡ ok reports
        → IsAfterRows [] run.finished
          × AllComplete contract prerequisite_schema tables run
          × AllComplete contract final_constraints tables run)
run_sync_orchestration-stages_example = run_sync_orchestration-stages contract tables before
