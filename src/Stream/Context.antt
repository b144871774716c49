-- ===== src/Stream/Context.antt =====
-- `StreamEventContext` and the fields of `TargetTransaction`
-- (src/live/structured_stream.rs, src/live/structured_stream/transaction.rs).
use mariadb_mysql_cdc.Prelude.{ℕ, Name, Bool, false, Option, none}
use mariadb_mysql_cdc.Stream.Types.{Checkpoint, target, raw}
use mariadb_mysql_cdc.Stream.Exec.{Result, ok, err, Exec}
use mariadb_mysql_cdc.Stream.Event.{StructuredEventState}
use mariadb_mysql_cdc.Stream.Target.{Reply, done, failed, Call}

pub record TargetTransaction : Type 0 where
  pub is_open : Bool
  pub source_transactions : ℕ
  pub opened_at : Option ℕ
  pub pending_file_checkpoint : Option Checkpoint
  pub pending_transaction_checkpoint : Option Checkpoint

unfoldable pub new_transaction : TargetTransaction
new_transaction = record {
  is_open = false;
  source_transactions = 0;
  opened_at = none;
  pending_file_checkpoint = none;
  pending_transaction_checkpoint = none;
}

pub record TargetTransactionGroupConfig : Type 0 where
  pub size : ℕ
  pub timeout : ℕ

-- What a context keeps and does not change.
pub record Settings : Type 0 where
  pub has_checkpoint_store : Bool
  pub transaction_checkpoint_table : Option Name
  pub transaction_checkpoint_name : Option Name
  pub group_config : TargetTransactionGroupConfig

-- What it changes: the world, the target transaction, the event state and the current file.
pub record Context (W : Type 0) : Type 0 where
  pub world : W
  pub transaction : TargetTransaction
  pub state : StructuredEventState
  pub current_file : Name

-- `map_err(|error| ApplyBinlogError::Target(error.to_string()))`
abbrev pub map_target_error : {A : Type 0} → Reply A → Result A
map_target_error (done a) = ok a
map_target_error (failed e) = err (target (raw e))

module _ {W A : Type 0} where
  abbrev pub in_world : Exec W A → Exec (Context W) A
  in_world m c = ((m c.world).0, record c { world = (m c.world).1 })

  abbrev pub call : Call W A → Exec (Context W) A
  call m = in_world (λ w. (map_target_error (m w).0, (m w).1))
