-- ===== src/Sync/Chunk/Tests.antt =====
-- Runs of the chunks of a table, and the theorems at them.
use mariadb_mysql_cdc.Prelude.{
  ℕ, Key, String, true, Option, none, some, [], ◌∷◌, ◌≡◌, refl, codes, contains, lookup, insert,
  remove, ◌=?◌, name_ord, key_ord, nat_ord,
}
use mariadb_mysql_cdc.Sync.Exec.{ok, Outcome}
use mariadb_mysql_cdc.Sync.Model.{
  SyncMutationPhase, insert_missing, update_divergent, delete_extras, SyncChunkConfig,
  SyncChunkProgress,
}
use mariadb_mysql_cdc.Sync.Spec.{synced, agree}
use mariadb_mysql_cdc.Sync.Chunk.{
  load_progress, validate_progress_identity, prepare_target_chunk, record_progress, tail_progress,
  save_progress_and_unlock, apply_source_changes, apply_source_window, apply_target_tail,
  apply_locked_chunk, apply_or_roll_back, sync_next_chunk_with_phase, run_table_phase,
}
use mariadb_mysql_cdc.Sync.Window.{
  any_diverges, reconcile_target_page, delete_target_only_rows, page_rounds, reconcile_target_pages,
}
use mariadb_mysql_cdc.Sync.Mutations.{try_strict_mutation, strict_rounds, apply_strict_mutations}
use mariadb_mysql_cdc.Sync.Chunk.Phases.{
  Holds, started-Holds, sync_next_chunk_with_phase-Holds, run_table_phase-synced, SeesSame,
  three_phases-agree,
}
use mariadb_mysql_cdc.Sync.Chunk.Memory.Fulfils.{memory_contract, memory_laws, memory_unique}
use mariadb_mysql_cdc.Sync.Chunk.Memory.{Cells, Memory, rows_at, session, source_of, run_store}

abbrev only : Key
only = codes "7" ∷ []

abbrev cells : String → Cells
cells name = (codes "name", some (codes name)) ∷ []

abbrev config : SyncChunkConfig
config = record {
  run_id = codes "run";
  target_database = codes "shop";
  table = record {
    name = codes "users";
    primary_key = codes "id" ∷ [];
    columns = codes "id" ∷ codes "name" ∷ [];
  };
  chunk_size = 100;
}

-- The target has another name for the row.
abbrev before : Memory
before = record { seen = some (cells "bob"); kept = some (cells "bob"); runs = [] }

abbrev source : Option Cells
source = some (cells "alice")

abbrev chunks : ℕ → SyncMutationPhase → Memory → Outcome SyncChunkProgress × Memory
chunks run phase =
    run_table_phase (source_of only source) (session only) (run_store only run) config 4 phase 4

abbrev report_of : Outcome SyncChunkProgress × Memory → Option SyncChunkProgress
report_of (ok report, w) = some report
report_of _ = none

abbrev report : ℕ → SyncChunkProgress
report updates = record {
  run_id = codes "run";
  table = codes "users";
  last_primary_key = some only;
  complete = true;
  chunks = 2;
  rows_scanned = 1;
  inserts = 0;
  updates = updates;
  deletes = 0;
}

-- The three phases, one after the other, and the run ids that are still free before each.
phase_runs :
    ((chunks 1 insert_missing before).0 ≡ ok (report 0))
    × ((chunks 2 update_divergent (chunks 1 insert_missing before).1).0 ≡ ok (report 1))
    × ((chunks 3 delete_extras (chunks 2 update_divergent (chunks 1 insert_missing before).1).1).0
        ≡ ok (report 0))
    × (lookup 2 (chunks 1 insert_missing before).1.runs ≡ none)
    × (lookup 3 (chunks 2 update_divergent (chunks 1 insert_missing before).1).1.runs ≡ none)
unfolding run_table_phase sync_next_chunk_with_phase load_progress validate_progress_identity
    prepare_target_chunk apply_or_roll_back apply_locked_chunk apply_source_window apply_target_tail
    save_progress_and_unlock record_progress tail_progress apply_source_changes
    reconcile_target_pages page_rounds reconcile_target_page delete_target_only_rows any_diverges
    apply_strict_mutations strict_rounds try_strict_mutation contains lookup insert remove ◌=?◌
phase_runs = (refl, refl, refl, refl, refl)

abbrev target : Option Cells
target = some (cells "bob")

phase_start :
    (run : ℕ) (phase : SyncMutationPhase)
    → Holds
        (memory_contract only source run config)
        (memory_laws only source run config)
        (memory_unique only source run config)
        4
        phase
        (rows_at only target)
        before
unfolding lookup
phase_start run phase =
    started-Holds (memory_contract only source run config) (memory_laws only source run config)
      (memory_unique only source run config) 4 phase (rows_at only target) before refl (λ k. refl)
      (λ k. refl)

sync_next_chunk_with_phase-Holds_example :
    Holds
      (memory_contract only source 2 config)
      (memory_laws only source 2 config)
      (memory_unique only source 2 config)
      4
      update_divergent
      (rows_at only target)
      (sync_next_chunk_with_phase
        (source_of only source)
        (session only)
        (run_store only 2)
        config
        4
        update_divergent
        before).1
sync_next_chunk_with_phase-Holds_example =
    sync_next_chunk_with_phase-Holds (memory_contract only source 2 config)
      (memory_laws only source 2 config) (memory_unique only source 2 config) 4 update_divergent
      (rows_at only target) before (phase_start 2 update_divergent)

run_table_phase-synced_example :
    ((report 0).complete ≡ true)
    × ((k : Key)
        → (rows_at only (chunks 1 insert_missing before).1.kept k
            ≡ synced insert_missing config.table (rows_at only source k) (rows_at only target k))
          × (rows_at only (chunks 1 insert_missing before).1.seen k
              ≡ synced insert_missing config.table (rows_at only source k) (rows_at only target k)))
run_table_phase-synced_example =
    run_table_phase-synced (memory_contract only source 1 config) (memory_laws only source 1 config)
      (memory_unique only source 1 config) 4 insert_missing (rows_at only target) 4 before
      (report 0) (phase_start 1 insert_missing) phase_runs.0

sees_same :
    (run : ℕ)
    → SeesSame (memory_contract only source 1 config) (memory_contract only source run config)
sees_same run = record {
  same_source = λ k. refl;
  same_working = λ w k. refl;
  same_durable = λ w k. refl;
}

no_insertion_run : lookup 1 before.runs ≡ none
unfolding lookup
no_insertion_run = refl

three_phases-agree_example :
    agree config.table (rows_at only source only) (
      rows_at only
        (chunks 3 delete_extras
          (chunks 2 update_divergent (chunks 1 insert_missing before).1).1).1.kept
        only)
    ≡ true
three_phases-agree_example =
    three_phases-agree (memory_contract only source 1 config) (memory_contract only source 2 config)
      (memory_contract only source 3 config) (memory_laws only source 1 config)
      (memory_laws only source 2 config) (memory_laws only source 3 config)
      (memory_unique only source 1 config) (memory_unique only source 2 config)
      (memory_unique only source 3 config) (sees_same 2) (sees_same 3) 4 4 before (report 0)
      (report 1) (report 0) (λ k. refl) no_insertion_run phase_runs.3 phase_runs.4 phase_runs.0
      phase_runs.1 phase_runs.2 only
