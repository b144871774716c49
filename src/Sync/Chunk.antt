-- ===== src/Sync/Chunk.antt =====
-- One chunk of a table's synchronisation, under the lock of the target table: the changes, their
-- commit, and the progress that a later run resumes from (src/sync/chunk.rs).
pub mod Changes
pub mod Window
pub mod Invariant
pub mod Steps
pub mod Phases
pub mod Answered
pub mod Finishes
pub mod Completes
pub mod Ends
pub mod Memory
mod Tests
use mariadb_mysql_cdc.Prelude.{
  ℕ, zero, suc, Name, Key, Bool, true, false, ◌&&◌, not, Option, none, some, List, [], ◌∷◌, length,
  name_ord, ◌=?◌, if◌then◌else◌,
}
use mariadb_mysql_cdc.Sync.Exec.{
  insertion, modification, SyncError, disable_autocommit, lock_target, unlock_target,
  save_progress_failed, load_progress_failed, run_id_mismatch, table_mismatch, read_source_chunk,
  read_target_tail, commit_chunk, delete_target_only, rollback_failed, unlock_failed, joined,
  unfinished, Outcome, ok, err, Exec, from_outcome, pure, raise, map_err, ◌>>=◌, ◌>>◌,
}
use mariadb_mysql_cdc.Sync.Model.{
  DatabaseRow, SyncMutationPhase, delete_extras, includes, SyncChunkConfig, SyncChunkProgress,
  add_u64, SyncChunkPage, SyncChunkSource, SyncChunkTargetSession, SyncChunkProgressStore,
}
use mariadb_mysql_cdc.Sync.Mutations.{apply_strict_mutations}
use mariadb_mysql_cdc.Sync.Window.{ChunkChanges, keys_of_rows, last_key, reconcile_target_pages}

abbrev pub fresh_progress : SyncChunkConfig → SyncChunkProgress
fresh_progress config = record {
  run_id = config.run_id;
  table = config.table.name;
  last_primary_key = none;
  complete = false;
  chunks = 0;
  rows_scanned = 0;
  inserts = 0;
  updates = 0;
  deletes = 0;
}

unfoldable pub validate_progress_identity : SyncChunkConfig → SyncChunkProgress → Outcome (Unit {0})
validate_progress_identity config progress =
    if not (progress.run_id =? config.run_id)
    then err (run_id_mismatch config.table.name config.run_id progress.run_id)
    else if not (progress.table =? config.table.name)
    then err (table_mismatch config.run_id config.table.name progress.table)
    else ok tt

abbrev loaded_progress : SyncChunkConfig → Option SyncChunkProgress → Outcome SyncChunkProgress
loaded_progress config none = ok (fresh_progress config)
loaded_progress config (some progress) = elim (validate_progress_identity config progress) [
  | err e ↦ err e
  | ok _ ↦ ok progress
]

unfoldable pub record_progress : SyncChunkProgress → ℕ → ChunkChanges → SyncChunkProgress
record_progress progress source_rows changes = record progress {
  chunks = add_u64 progress.chunks 1;
  rows_scanned = add_u64 progress.rows_scanned source_rows;
  inserts = add_u64 progress.inserts (length changes.inserts);
  updates = add_u64 progress.updates (length changes.updates);
  deletes = add_u64 progress.deletes changes.deletes;
}

abbrev pub window_progress :
    SyncChunkProgress → Option Key → List DatabaseRow → ChunkChanges → SyncChunkProgress
window_progress progress end_at source_rows changes =
    record_progress (record progress { last_primary_key = end_at; complete = false })
      (length source_rows) changes

abbrev advance_past : Bool → Option Key → SyncChunkPage → SyncChunkProgress → SyncChunkProgress
advance_past true last page progress = record progress {
  deletes = add_u64 progress.deletes (length page.rows);
}
advance_past false none page progress = progress
advance_past false (some last) page progress = record progress { last_primary_key = some last }

unfoldable pub tail_progress :
    SyncMutationPhase → SyncChunkPage → SyncChunkProgress → SyncChunkProgress
tail_progress phase page progress =
    advance_past (includes phase delete_extras) (last_key page.rows) page
      (record progress { complete = not page.has_more; chunks = add_u64 progress.chunks 1 })

-- A later failure is added to the first one.
abbrev also : (SyncError → SyncError) → Outcome (Unit {0}) → SyncError → SyncError
also format (ok _) primary_error = primary_error
also format (err e) primary_error = joined primary_error (format e)

module _ {W : Type 0} (source : SyncChunkSource W) (target : SyncChunkTargetSession W)
    (store : SyncChunkProgressStore W) (config : SyncChunkConfig) where
  abbrev failed_at : (Name → Name → SyncError → SyncError) → SyncError → SyncError
  failed_at format e = format config.target_database config.table.name e

  unfoldable pub prepare_target_chunk : Exec W (Unit {0})
  prepare_target_chunk = do
    map_err (failed_at disable_autocommit) (target.set_autocommit false)
    map_err (failed_at lock_target)
        (target.lock_table_write config.target_database config.table.name)

  unfoldable pub load_progress : Exec W SyncChunkProgress
  unfolding validate_progress_identity
  load_progress =
      map_err (load_progress_failed config.run_id config.table.name)
        (store.load config.run_id config.table.name)
      >>= λ loaded. from_outcome (loaded_progress config loaded)

  unfoldable pub rollback_and_unlock : SyncError → W → SyncError × W
  rollback_and_unlock primary_error w =
      let (rolled_back, w1) = target.rollback w in
      let (unlocked, w2) = target.unlock_tables w1 in
      (also unlock_failed unlocked (also rollback_failed rolled_back primary_error), w2)

  unfoldable pub unlock_after_error : SyncError → W → SyncError × W
  unlock_after_error primary_error w =
      let (unlocked, w1) = target.unlock_tables w in (also unlock_failed unlocked primary_error, w1)

  unfoldable pub save_progress_and_unlock : SyncChunkProgress → Exec W SyncChunkProgress
  unfolding unlock_after_error
  save_progress_and_unlock progress w =
      let (saved, w1) = store.save progress w in
      elim saved [
        | err e ↦
            let failed =
              unlock_after_error (save_progress_failed config.run_id config.table.name e) w1 in
            (err failed.0, failed.1)
        | ok _ ↦ (map_err (failed_at unlock_target) target.unlock_tables >> pure progress) w1
      ]

  -- `fuel` bounds the loops over pages and over refused batches.
  module _ (fuel : ℕ) (phase : SyncMutationPhase) where
    unfoldable pub apply_source_changes : ChunkChanges → Exec W (Unit {0})
    apply_source_changes changes = do
      apply_strict_mutations source target config.table.name fuel changes.updates modification
      apply_strict_mutations source target config.table.name fuel changes.inserts insertion

    -- `end_at` is the key of the last source row.
    unfoldable pub apply_source_window :
        SyncChunkProgress → Key → List DatabaseRow → Exec W SyncChunkProgress
    unfolding apply_source_changes
    apply_source_window progress end_at source_rows = do
      changes ←
          reconcile_target_pages target config phase fuel progress.last_primary_key end_at
            source_rows
      apply_source_changes changes
      pure (window_progress progress (some end_at) source_rows changes)

    abbrev delete_tail : List Key → Exec W (Unit {0})
    delete_tail [] = pure tt
    delete_tail (k ∷ keys) =
        if includes phase delete_extras
        then map_err (delete_target_only config.table.name) (target.delete_rows (k ∷ keys))
        else pure tt

    unfoldable pub apply_target_tail : SyncChunkProgress → Exec W SyncChunkProgress
    unfolding tail_progress
    apply_target_tail progress = do
      page ← map_err (read_target_tail config.table.name) (
          target.read_rows (record {
            start_after = progress.last_primary_key;
            end_at = none;
            limit = config.chunk_size;
          }))
      delete_tail (keys_of_rows page.rows)
      pure (tail_progress phase page progress)

    -- Where the chunk has source rows, they are the window; else the rest of the target is.
    abbrev pub apply_rows :
        SyncChunkProgress → List DatabaseRow → Option Key → Exec W SyncChunkProgress
    apply_rows progress rows none = apply_target_tail progress
    apply_rows progress rows (some end_at) = apply_source_window progress end_at rows

    unfoldable pub apply_locked_chunk : SyncChunkProgress → Exec W SyncChunkProgress
    unfolding apply_source_window apply_target_tail
    apply_locked_chunk progress = do
      page ← map_err (read_source_chunk config.table.name) (
          source.read_rows (record {
            start_after = progress.last_primary_key;
            end_at = none;
            limit = config.chunk_size;
          }))
      next ← apply_rows progress page.rows (last_key page.rows)
      map_err (commit_chunk config.table.name) target.commit
      pure next

    unfoldable pub apply_or_roll_back : SyncChunkProgress → Exec W SyncChunkProgress
    unfolding apply_locked_chunk rollback_and_unlock save_progress_and_unlock
    apply_or_roll_back progress w =
        let (applied, w1) = apply_locked_chunk progress w in
        elim applied [
          | err e ↦ let failed = rollback_and_unlock e w1 in (err failed.0, failed.1)
          | ok next ↦ save_progress_and_unlock next w1
        ]

    unfoldable pub sync_next_chunk_with_phase : Exec W SyncChunkProgress
    unfolding load_progress prepare_target_chunk apply_or_roll_back
    sync_next_chunk_with_phase = load_progress >>= λ progress. elim progress.complete [
      | true ↦ pure progress
      | false ↦ prepare_target_chunk >> apply_or_roll_back progress
    ]

    -- The loop of run_table_phase, on a count of chunks.
    unfoldable pub run_table_phase : ℕ → Exec W SyncChunkProgress
    unfolding sync_next_chunk_with_phase
    run_table_phase zero = raise unfinished
    run_table_phase (suc chunks) = sync_next_chunk_with_phase >>= λ report. elim report.complete [
      | true ↦ pure report
      | false ↦ run_table_phase chunks
    ]
