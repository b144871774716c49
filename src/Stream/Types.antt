-- ===== src/Stream/Types.antt =====
-- The data of the stream: coordinates (src/probe.rs), checkpoints (src/checkpoint.rs), the errors
-- of src/live.rs and the binlog events that the stream reads. A message that the code formats is
-- kept as the constructor of its format with the values put in.
use mariadb_mysql_cdc.Prelude.{ℕ, Name, Option}

pub record BinlogCoordinate : Type 0 where
  pub file : Name
  pub position : ℕ

pub data Description : Type 0 where
  structured_event : BinlogCoordinate → Description
  text : Name → Description

pub record LastEvent : Type 0 where
  pub event_type : Name
  pub description : Description

pub record Checkpoint : Type 0 where
  pub source_file : Name
  pub source_position : ℕ
  pub gtid : Option Name
  pub event_timestamp : ℕ
  pub last_event : LastEvent

abbrev pub coordinate_of : Checkpoint → BinlogCoordinate
coordinate_of c = record { file = c.source_file; position = c.source_position }

pub data Message : Type 0 where
  raw : Name → Message
  checkpoint_missing : Message
  checkpoint_disappeared : Name → Message
  checkpoint_regression : BinlogCoordinate → BinlogCoordinate → Message
  stale_binlog : Name → Message
  stop_in_open_transaction : ℕ → ℕ → Message
  stop_in_event : ℕ → ℕ → ℕ → Message
  stop_unreachable : ℕ → ℕ → Message
  stop_in_partial_transaction : Message
  bounded_stop_not_reached : ℕ → Message
  stream_ended : Message
  statement_dml : Name → Message
  qualified_identifier : Name → Message
  user_variables : Message
  unsupported_intvar : ℕ → Message
  enum_ordinal_exceeds : ℕ → ℕ → Message
  ddl_barrier : BinlogCoordinate → Name → BinlogCoordinate → Message

pub data ApplyBinlogError : Type 0 where
  config source_command target ddl_blocked statement checkpoint : Message → ApplyBinlogError
  quarantined : ApplyBinlogError

pub record EventHeader : Type 0 where
  pub event_length : ℕ
  pub next_event_position : ℕ

-- What the stream reads of the events of vendor/mysql_cdc. The cells of a row event stay bytes.
pub record RowsEvent : Type 0 where
  pub table_id : ℕ
  pub rows : Name

pub record QueryEvent : Type 0 where
  pub database_name : Name
  pub sql_statement : Name

pub data BinlogEvent : Type 0 where
  delete_rows update_rows write_rows : RowsEvent → BinlogEvent
  xid : BinlogEvent
  int_var : ℕ → ℕ → BinlogEvent
  user_var : Name → BinlogEvent
  query : QueryEvent → BinlogEvent
  table_map : ℕ → Name → Name → BinlogEvent
  rotate : Name → ℕ → BinlogEvent
  rows_query : BinlogEvent
  -- heartbeats, format descriptions, GTID events and unknown events, which the stream passes over
  other : Name → BinlogEvent

pub data EventPolicy : Type 0 where
  ignore ignore_annotation apply_table_map apply_rows commit_transaction : EventPolicy

pub record StructuredEventOutcome : Type 0 where
  pub policy : EventPolicy
  pub resume_coordinate : Option BinlogCoordinate
