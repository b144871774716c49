-- ===== src/Sync/PhaseStore/Complete.antt =====
-- A table whose rows an earlier run completed is left alone (PhaseChunkProgressStore of
-- src/sync/phase_progress.rs under sync_next_chunk_with_phase of src/sync/chunk.rs).
use mariadb_mysql_cdc.Prelude.{ℕ, true, some, ◌≡◌, refl, subst, arith, name_ord, =?_iff}
use mariadb_mysql_cdc.Sync.Exec.{rows, legacy_complete, Outcome, ok, err}
use mariadb_mysql_cdc.Sync.Model.{
  SyncMutationPhase, all, insert_missing, update_divergent, delete_extras, SyncChunkConfig,
  SyncChunkProgress, SyncChunkSource, SyncChunkTargetSession, SyncChunkProgressStore,
}
use mariadb_mysql_cdc.Sync.Stages.{complete, SyncProgressRow, SyncRunProgressStore}
use mariadb_mysql_cdc.Sync.Chunk.{load_progress, sync_next_chunk_with_phase}
use mariadb_mysql_cdc.Sync.PhaseStore.{
  SyncPhaseProgressStore, progress_with, sync_chunk_progress_from_row, load_legacy_complete,
  load_phase_progress, save_phase_progress, phase_store,
}

ok-injective : {A : Type 0} {a b : A} → ◌≡◌ {A = Outcome A} (ok a) (ok b) → a ≡ b
ok-injective e = ground arith

module _ {W : Type 0} (phases : SyncPhaseProgressStore W) (legacy : SyncRunProgressStore W) where
  opened_is :
      (phase : SyncMutationPhase) (store : SyncChunkProgressStore W)
      → phase_store phases legacy phase ≡ ok store
      → record {
        load = load_phase_progress phases legacy phase;
        save = save_phase_progress phases legacy phase;
      }
        ≡ store
  unfolding phase_store
  opened_is insert_missing store e = ok-injective e
  opened_is update_divergent store e = ok-injective e
  opened_is delete_extras store e = ok-injective e
  opened_is all store e = absurd (ground arith)

module _ {W : Type 0} (source : SyncChunkSource W) (target : SyncChunkTargetSession W)
    (phases : SyncPhaseProgressStore W) (legacy : SyncRunProgressStore W)
    (phase : SyncMutationPhase) (config : SyncChunkConfig) (row : SyncProgressRow) (w : W)
    (found : (legacy.load_stage config.run_id rows config.table.name w).0 ≡ ok (some row))
    (is_rows : row.stage ≡ rows) (done : row.status ≡ complete)
    (same_run : row.run_id ≡ config.run_id) (same_table : row.table_name ≡ config.table.name) where
  legacy-found : load_legacy_complete phases legacy phase config.run_id config.table.name w ≡ (
    ok (some (progress_with row true)),
    (legacy.load_stage config.run_id rows config.table.name w).1,
  )
  unfolding load_legacy_complete sync_chunk_progress_from_row
  legacy-found = rw (load_legacy_complete, found, done, sync_chunk_progress_from_row, is_rows) refl

  abbrev opened : SyncChunkProgressStore W
  opened = record {
    load = load_phase_progress phases legacy phase;
    save = save_phase_progress phases legacy phase;
  }

  abbrev after : W
  after = (legacy.load_stage config.run_id rows config.table.name w).1

  load-opened : load_progress source target opened config w ≡ (ok (progress_with row true), after)
  unfolding load_progress load_phase_progress
  load-opened =
      rw (load_progress, load_phase_progress, legacy-found)
        (ground (arith, =?_iff row.run_id config.run_id, =?_iff row.table_name config.table.name))

  chunk-opened :
      (fuel : ℕ)
      → sync_next_chunk_with_phase source target opened config fuel phase w
        ≡ (ok (progress_with row true), after)
  unfolding sync_next_chunk_with_phase
  chunk-opened fuel = rw (sync_next_chunk_with_phase, load-opened) refl

  save-opened :
      (progress : SyncChunkProgress)
      → progress.run_id ≡ config.run_id
      → progress.table ≡ config.table.name
      → save_phase_progress phases legacy phase progress w
        ≡ (err (legacy_complete config.run_id config.table.name), after)
  unfolding save_phase_progress
  save-opened progress run table =
      rw (save_phase_progress, run, table, legacy-found) (ground (arith, run, table))

  -- Where the rows of a table are complete in an earlier run's progress, a chunk of any phase is that
  -- progress, and no call but the reading of it is made; and progress of the table is not stored.
  pub completed_rows-untouched :
      (store : SyncChunkProgressStore W) (fuel : ℕ) (progress : SyncChunkProgress)
      → phase_store phases legacy phase ≡ ok store
      → progress.run_id ≡ config.run_id
      → progress.table ≡ config.table.name
      → let read = (legacy.load_stage config.run_id rows config.table.name w).1 in
        (sync_next_chunk_with_phase source target store config fuel phase w
          ≡ (ok (progress_with row true), read))
        × (store.save progress w ≡ (err (legacy_complete config.run_id config.table.name), read))
  completed_rows-untouched store fuel progress e run table =
      subst
        (λ (s : SyncChunkProgressStore W).
          (sync_next_chunk_with_phase source target s config fuel phase w
            ≡ (ok (progress_with row true), after))
          × (s.save progress w ≡ (err (legacy_complete config.run_id config.table.name), after)))
        (opened_is phases legacy phase store e) (chunk-opened fuel, save-opened progress run table)
