-- ===== src/Sync/PhaseStore/Tests.antt =====
-- A table that an earlier run completed, and the theorem at it.
use mariadb_mysql_cdc.Prelude.{true, none, some, [], ◌∷◌, ◌≡◌, refl, codes, name_ord}
use mariadb_mysql_cdc.Sync.Exec.{rows, legacy_complete, ok, err, pure}
use mariadb_mysql_cdc.Sync.Model.{delete_extras, SyncChunkConfig, SyncChunkProgressStore}
use mariadb_mysql_cdc.Sync.Stages.{
  complete, SyncProgressRow, stage_progress_row, SyncRunProgressStore,
}
use mariadb_mysql_cdc.Sync.Chunk.{fresh_progress, sync_next_chunk_with_phase}
use mariadb_mysql_cdc.Sync.Chunk.Memory.{Memory, session, source_of}
use mariadb_mysql_cdc.Sync.PhaseStore.{
  SyncPhaseProgressStore, progress_with, load_phase_progress, save_phase_progress, phase_store,
}
use mariadb_mysql_cdc.Sync.PhaseStore.Complete.{completed_rows-untouched}

abbrev config : SyncChunkConfig
config = record {
  run_id = codes "run";
  target_database = codes "shop";
  table = record { name = codes "users"; primary_key = codes "id" ∷ []; columns = codes "id" ∷ [] };
  chunk_size = 10;
}

abbrev completed : SyncProgressRow
completed = stage_progress_row (codes "run") rows (codes "users") complete none

abbrev legacy : SyncRunProgressStore Memory
legacy = record {
  load_stage = λ run_id stage table. pure (some completed);
  save_stage = λ row. pure tt;
}

abbrev phases : SyncPhaseProgressStore Memory
phases = record {
  load_phase = λ run_id table phase. pure none;
  save_phase = λ phase progress. pure tt;
}

abbrev store : SyncChunkProgressStore Memory
store = record {
  load = load_phase_progress phases legacy delete_extras;
  save = save_phase_progress phases legacy delete_extras;
}

store_opened : phase_store phases legacy delete_extras ≡ ok store
unfolding phase_store
store_opened = refl

abbrev empty : Memory
empty = record { seen = none; kept = none; runs = [] }

completed_rows-untouched_example :
    (sync_next_chunk_with_phase (source_of [] none) (session []) store config 4 delete_extras empty
      ≡ (ok (progress_with completed true), empty))
    × (store.save (fresh_progress config) empty
        ≡ (err (legacy_complete (codes "run") (codes "users")), empty))
completed_rows-untouched_example =
    completed_rows-untouched (source_of [] none) (session []) phases legacy delete_extras config
      completed empty refl refl refl refl refl store 4 (fresh_progress config) store_opened refl
      refl
