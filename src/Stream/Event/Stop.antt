-- ===== src/Stream/Event/Stop.antt =====
-- The bounded stop (src/live/structured_stream.rs,
-- src/live/structured_stream/event.rs, src/live/structured_stream/init.rs).
use mariadb_mysql_cdc.Prelude.{ℕ, ◌<◌, Bool, some, ◌≡◌, inl, inr, ◌↔◌, arith}
use mariadb_mysql_cdc.Stream.Types.{EventHeader, ApplyBinlogError}
use mariadb_mysql_cdc.Stream.Exec.{ok, err, Result-cases}
use mariadb_mysql_cdc.Stream.Event.{dispatch_and_stop, stop_position_decision}

-- The stream stops after an event exactly where the event ends at the stop position, which is not
-- zero.
pub stop_position-stops :
    (stop : ℕ) (header : EventHeader) (open_rows : Bool)
    → (stop_position_decision (some stop) header open_rows ≡ ok dispatch_and_stop)
      ↔ ((header.next_event_position ≡ stop) × (0 < stop))
unfolding stop_position_decision
stop_position-stops stop header open_rows =
    (λ e. (ground arith, ground arith), λ (e, n). ground arith)

-- An error is reported exactly where the event ends past the stop position.
pub stop_position-refuses :
    (stop : ℕ) (header : EventHeader) (open_rows : Bool)
    → ((x : ApplyBinlogError) × (stop_position_decision (some stop) header open_rows ≡ err x))
      ↔ (stop < header.next_event_position)
unfolding stop_position_decision
stop_position-refuses stop header open_rows = (
  λ (x, e). ground arith,
  λ n. elim (Result-cases (stop_position_decision (some stop) header open_rows)) [
    | inl (d, e) ↦ absurd (ground arith)
    | inr x ↦ x
  ],
)
