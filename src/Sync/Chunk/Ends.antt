-- ===== src/Sync/Chunk/Ends.antt =====
-- The loop of a phase ends with a complete progress (run_table_phase of src/sync/phased_run.rs).
use mariadb_mysql_cdc.Sync.Contract.{Contract}
