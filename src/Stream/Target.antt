-- ===== src/Stream/Target.antt =====
-- What the stream calls: the target session, the checkpoint store, the row applier and the
-- statement policies (src/target.rs, src/live/reconnect.rs, src/row, src/statement.rs), as
-- functions on a world `W`. A failed call leaves a world too.
use mariadb_mysql_cdc.Prelude.{ℕ, Name, Bool, Option, ◌≡◌, refl, ◌⊎◌, inl, inr}
use mariadb_mysql_cdc.Stream.Types.{BinlogCoordinate, Checkpoint, BinlogEvent, QueryEvent}
use mariadb_mysql_cdc.Stream.Exec.{Exec}

-- `Result<A, TargetExecuteError>`.
pub data Reply (A : Type 0) : Type 0 where
  done : A → Reply A
  failed : Name → Reply A

pub Reply-cases :
    {A : Type 0} (r : Reply A) → ((a : A) × (r ≡ done a)) ⊎ ((e : Name) × (r ≡ failed e))
Reply-cases (done a) = inl (a, refl)
Reply-cases (failed e) = inr (e, refl)

abbrev pub Call : Type 0 → Type 0 → Type 0
Call W A = W → Reply A × W

pub record Target (W : Type 0) : Type 0 where
  -- TransactionalTargetExecutor
  pub begin_transaction : Call W (Unit {0})
  pub load_transaction_checkpoint_for_update : Name → Name → Call W (Option Checkpoint)
  pub save_transaction_checkpoint : Name → Name → Checkpoint → Call W (Unit {0})
  pub commit_transaction : Call W (Unit {0})
  pub rollback_transaction : Call W (Unit {0})
  -- TargetExecutor.execute of `SET INSERT_ID = ?`
  pub set_insert_id : ℕ → Call W (Unit {0})
  -- StreamCheckpointStore
  pub load_checkpoint : Exec W (Option Checkpoint)
  pub checkpoint_for_skip : Exec W (Option Checkpoint)
  pub save_checkpoint : Checkpoint → Exec W (Unit {0})
  -- Instant::now
  pub now : W → ℕ
  -- map_table_map_event, and RowApplier.apply_table_map where the shape can be mapped
  pub map_table : BinlogCoordinate → ℕ → Name → Name → Exec W Bool
  -- the table map of a row event, its row image, the mapping of its cells, and
  -- RowApplier.apply_write_rows, apply_update_rows and apply_delete_rows
  pub apply_rows : BinlogCoordinate → BinlogEvent → Exec W (Unit {0})
  -- StatementApplier.apply, a quarantined statement as an error
  pub apply_statement : BinlogCoordinate → QueryEvent → Exec W (Unit {0})
  -- TableSchemaResolver.invalidate_schema
  pub invalidate_schema : Name → W → W

-- The tests on the text of a statement.
pub record Policies : Type 0 where
  pub is_data_changing_statement : Name → Bool
  pub is_schema_changing_statement : Name → Bool
  pub is_transaction_control_query : Name → Bool
  pub query_references_schema : Name → Name → Bool
  pub query_contains_qualified_identifier : Name → Bool
