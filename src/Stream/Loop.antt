-- ===== src/Stream/Loop.antt =====
-- The event loop of one stream attempt (src/live/structured_stream/init.rs and
-- src/live/structured_stream/init/completion.rs). The progress log and the DDL path are left out:
-- no event of this loop is a schema change.
pub mod Source
pub mod Atomic
pub mod Points
pub mod Ends
pub mod Positions
use mariadb_mysql_cdc.Prelude.{
  ℕ, Name, Bool, true, false, Option, none, some, List, [], ◌∷◌, if◌then◌else◌,
}
use mariadb_mysql_cdc.Stream.Types.{
  EventHeader, BinlogEvent, StructuredEventOutcome, ApplyBinlogError, source_command,
  bounded_stop_not_reached, stream_ended, Message,
}
use mariadb_mysql_cdc.Stream.Exec.{Result, ok, err, Exec, pure, raise, ◌>>=◌, ◌>>◌}
use mariadb_mysql_cdc.Stream.Event.{
  StopPositionDecision, dispatch, dispatch_and_stop, new_event_state, record_event_position,
  stop_position_decision, bounded_stop_completion_error, update_source_row_transaction_state,
  next_source_position,
}
use mariadb_mysql_cdc.Stream.Target.{Target, Policies}
use mariadb_mysql_cdc.Stream.Context.{new_transaction, Settings, Context}
use mariadb_mysql_cdc.Stream.Transaction.{
  rollback_if_open, flush_grouped_transaction, apply_stream_event_transactionally,
}

pub record Runtime (W : Type 0) : Type 0 where
  pub context : Context W
  pub source_row_transaction_open : Bool

-- The state in which an attempt starts.
unfoldable pub initialize : {W : Type 0} → Option Name → Name → W → Runtime W
unfolding new_transaction new_event_state
initialize source_database file w = record {
  context = record {
    world = w;
    transaction = new_transaction;
    state = new_event_state source_database;
    current_file = file;
  };
  source_row_transaction_open = false;
}

-- What the read-ahead thread sends: an event with the position where it starts, or an error, after
-- which it stops.
pub data Received : Type 0 where
  event : EventHeader → BinlogEvent → ℕ → Received
  failure : Message → Received

-- What the reader of the source's log yields.
pub data Fetched : Type 0 where
  fetched : EventHeader → BinlogEvent → Fetched
  broken : Message → Fetched

-- The thread keeps the position where the next event starts; `client.commit` is the client's own
-- position.
unfoldable pub read_ahead : ℕ → List Fetched → List Received
read_ahead position [] = []
read_ahead position (broken x ∷ _) = failure x ∷ []
read_ahead position (fetched header e ∷ rest) =
    event header e position ∷ read_ahead (next_source_position position header e) rest

module _ {W A : Type 0} where
  abbrev pub in_context : Exec (Context W) A → Exec (Runtime W) A
  in_context m r = ((m r.context).0, record r { context = (m r.context).1 })

module _ {W : Type 0} (t : Target W) (cfg : Settings) where
  unfoldable pub rollback_stream_transaction : Exec (Runtime W) (Unit {0})
  rollback_stream_transaction = in_context (rollback_if_open t cfg)

  unfoldable pub complete_bounded_stop : Exec (Runtime W) (Unit {0})
  complete_bounded_stop r = elim (bounded_stop_completion_error r.source_row_transaction_open) [
    | ok _ ↦ in_context (flush_grouped_transaction t cfg) r
    | err e ↦ (rollback_stream_transaction >> raise e) r
  ]

  unfoldable pub finish_stream : Option ℕ → Exec (Runtime W) (Unit {0})
  finish_stream (some stop) =
      rollback_stream_transaction >> raise (source_command (bounded_stop_not_reached stop))
  finish_stream none =
      in_context (flush_grouped_transaction t cfg) >> raise (source_command stream_ended)

  module _ (p : Policies) (stop : Option ℕ) where
    abbrev with_position : ℕ → Context W → Context W
    with_position position c = record c { state = record_event_position position c.state }

    abbrev feed : EventHeader → BinlogEvent → ℕ → Exec (Runtime W) StructuredEventOutcome
    feed header e position r =
        in_context (apply_stream_event_transactionally t cfg p header e)
          (record r { context = with_position position r.context })

    abbrev note_rows : BinlogEvent → Runtime W → Runtime W
    note_rows e r = record r {
      source_row_transaction_open =
          update_source_row_transaction_state r.source_row_transaction_open e;
    }

    unfoldable pub process_stream_event :
        EventHeader → BinlogEvent → ℕ → Exec (Runtime W) StopPositionDecision
    process_stream_event header e position r =
        elim (stop_position_decision stop header r.source_row_transaction_open) [
          | err x ↦ (rollback_stream_transaction >> raise x) r
          | ok decision ↦ (feed header e position >>= λ _ r'. (ok decision, note_rows e r')) r
        ]

    unfoldable pub stream_events : List Received → Exec (Runtime W) (Unit {0})
    stream_events [] = finish_stream stop
    stream_events (failure x ∷ _) = rollback_stream_transaction >> raise (source_command x)
    stream_events (event header e position ∷ rest) =
        process_stream_event header e position >>= λ decision. elim decision [
          | dispatch ↦ stream_events rest
          | dispatch_and_stop ↦ complete_bounded_stop
        ]
