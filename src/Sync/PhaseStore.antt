-- ===== src/Sync/PhaseStore.antt =====
-- The progress of a phase behind the rows of progress of earlier runs, where a complete one is final
-- (PhaseChunkProgressStore of src/sync/phase_progress.rs, sync_chunk_progress_from_row of
-- src/sync/mysql.rs).
pub mod Complete
mod Tests
use mariadb_mysql_cdc.Prelude.{
  ℕ, Name, Bool, true, false, not, codes, Option, none, some, if◌then◌else◌,
}
use mariadb_mysql_cdc.Sync.Exec.{
  SyncStage, rows, SyncError, phase_not_explicit, legacy_complete, not_a_row_stage, run_in_error,
  unspecified_progress_error, Outcome, ok, err, Exec, from_outcome, pure, raise, ◌>>=◌, ◌>>◌,
}
use mariadb_mysql_cdc.Sync.Model.{
  SyncMutationPhase, all, insert_missing, update_divergent, delete_extras, SyncChunkProgress,
  SyncChunkProgressStore,
}
use mariadb_mysql_cdc.Sync.Stages.{
  running, complete, error, SyncProgressRow, same_stage, is_complete, SyncRunProgressStore,
}

abbrev pub phase_name : SyncMutationPhase → Outcome Name
phase_name insert_missing = ok (codes "insert_missing")
phase_name update_divergent = ok (codes "update_divergent")
phase_name delete_extras = ok (codes "delete_extras")
phase_name all = err phase_not_explicit

abbrev pub progress_with : SyncProgressRow → Bool → SyncChunkProgress
progress_with row is_done = record {
  run_id = row.run_id;
  table = row.table_name;
  last_primary_key = row.last_primary_key;
  complete = is_done;
  chunks = row.chunks;
  rows_scanned = row.rows_scanned;
  inserts = row.inserts;
  updates = row.updates;
  deletes = row.deletes;
}

abbrev error_of : Option SyncError → SyncError
error_of none = unspecified_progress_error
error_of (some e) = e

unfoldable pub sync_chunk_progress_from_row : SyncProgressRow → Outcome SyncChunkProgress
sync_chunk_progress_from_row row =
    if not (same_stage row.stage rows) then err (not_a_row_stage row.stage) else elim row.status [
      | running ↦ ok (progress_with row false)
      | complete ↦ ok (progress_with row true)
      | error ↦ err (run_in_error row.run_id row.table_name (error_of row.last_error))
    ]

pub record SyncPhaseProgressStore (W : Type 0) : Type 0 where
  pub load_phase : Name → Name → SyncMutationPhase → Exec W (Option SyncChunkProgress)
  pub save_phase : SyncMutationPhase → SyncChunkProgress → Exec W (Unit {0})

abbrev as_some : Outcome SyncChunkProgress → Outcome (Option SyncChunkProgress)
as_some (err e) = err e
as_some (ok progress) = ok (some progress)

abbrev pub complete_progress : Option SyncProgressRow → Outcome (Option SyncChunkProgress)
complete_progress none = ok none
complete_progress (some row) =
    if is_complete (some row) then as_some (sync_chunk_progress_from_row row) else ok none

module _ {W : Type 0} (phases : SyncPhaseProgressStore W) (legacy : SyncRunProgressStore W)
    (phase : SyncMutationPhase) where
  unfoldable pub load_legacy_complete : Name → Name → Exec W (Option SyncChunkProgress)
  unfolding sync_chunk_progress_from_row
  load_legacy_complete run_id table =
      legacy.load_stage run_id rows table >>= λ row. from_outcome (complete_progress row)

  unfoldable pub load_phase_progress : Name → Name → Exec W (Option SyncChunkProgress)
  unfolding load_legacy_complete
  load_phase_progress run_id table = load_legacy_complete run_id table >>= λ found. elim found [
    | some progress ↦ pure (some progress)
    | none ↦ phases.load_phase run_id table phase
  ]

  unfoldable pub save_phase_progress : SyncChunkProgress → Exec W (Unit {0})
  unfolding load_legacy_complete
  save_phase_progress progress = load_legacy_complete progress.run_id progress.table >>= λ found.
      elim found [
        | some _ ↦ raise (legacy_complete progress.run_id progress.table)
        | none ↦ phases.save_phase phase progress
      ]

  -- The store of a phase; there is none for all phases at once.
  unfoldable pub phase_store : Outcome (SyncChunkProgressStore W)
  unfolding load_phase_progress save_phase_progress
  phase_store = elim (phase_name phase) [
    | err e ↦ err e
    | ok _ ↦ ok (record { load = load_phase_progress; save = save_phase_progress })
  ]
