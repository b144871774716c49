-- ===== src/Stream/Loop/Ends.antt =====
-- How an attempt ends (src/live/structured_stream/init.rs,
-- src/live/structured_stream/init/completion.rs).
use mariadb_mysql_cdc.Prelude.{
  ℕ, Bool, ◌≡◌, ◌≢◌, ◌⊎◌, refl, inl, inr, Option, none, some, List, [], ◌∷◌, arith,
}
use mariadb_mysql_cdc.Stream.Types.{EventHeader, BinlogEvent}
use mariadb_mysql_cdc.Stream.Exec.{ok, Result-cases}
use mariadb_mysql_cdc.Stream.Event.{
  StopPositionDecision, dispatch, dispatch_and_stop, stop_position_decision,
}
use mariadb_mysql_cdc.Stream.Event.Stop.{stop_position-stops}
use mariadb_mysql_cdc.Stream.Target.{Target, Policies}
use mariadb_mysql_cdc.Stream.Context.{Settings}
use mariadb_mysql_cdc.Stream.Loop.{
  Runtime, Received, event, failure, rollback_stream_transaction, finish_stream,
  process_stream_event, stream_events,
}

-- An event that ends at a position is among those received.
abbrev pub Ends : ℕ → List Received → Type 0
Ends stop [] = ⊥
Ends stop (failure _ ∷ rest) = ⊥
Ends stop (event header e _ ∷ rest) = (header.next_event_position ≡ stop) ⊎ Ends stop rest

module _ {W : Type 0} (t : Target W) (cfg : Settings) (p : Policies) where
  finish_stream_fails : (stop : Option ℕ) (r : Runtime W) → (finish_stream t cfg stop r).0 ≢ ok tt
  unfolding finish_stream rollback_stream_transaction
  finish_stream_fails none r e = ground arith
  finish_stream_fails (some stop) r e = ground arith

  process_decides :
      (stop : Option ℕ) (header : EventHeader) (ev : BinlogEvent) (position : ℕ) (r : Runtime W)
      (decision : StopPositionDecision)
      → (process_stream_event t cfg p stop header ev position r).0 ≡ ok decision
      → stop_position_decision stop header r.source_row_transaction_open ≡ ok decision
  unfolding process_stream_event rollback_stream_transaction
  process_decides stop header ev position r decision e =
      elim (Result-cases (stop_position_decision stop header r.source_row_transaction_open)) [
        | inl (d, ed) ↦ ground arith
        | inr (x, ex) ↦ absurd (ground arith)
      ]

  stops_at :
      (stop : Option ℕ) (header : EventHeader) (open_rows : Bool)
      → stop_position_decision stop header open_rows ≡ ok dispatch_and_stop
      → (position : ℕ) × (stop ≡ some position) × (header.next_event_position ≡ position)
  unfolding stop_position_decision
  stops_at none header open_rows e = absurd (ground arith)
  stops_at (some stop) header open_rows e =
      (stop, refl, ((stop_position-stops stop header open_rows).0 e).0)

  -- An attempt succeeds only at a bounded stop: its stop position is given, and an event that ends
  -- exactly there was received before any error of the source.
  pub stream_events-ok_at_stop :
      (stop : Option ℕ) (items : List Received) (r : Runtime W)
      → (stream_events t cfg p stop items r).0 ≡ ok tt
      → (position : ℕ) × (stop ≡ some position) × Ends position items
  unfolding stream_events
  stream_events-ok_at_stop stop [] r e = absurd (finish_stream_fails stop r e)
  stream_events-ok_at_stop stop (failure x ∷ rest) r e = absurd (ground arith)
  stream_events-ok_at_stop stop (event header ev position ∷ rest) r e =
      let processed = process_stream_event t cfg p stop header ev position r in
      elim (Result-cases processed.0) [
        | inl (dispatch, ep) ↦
            let (at, es, ends) = stream_events-ok_at_stop stop rest processed.1 (ground arith) in
            (at, es, inr ends)
        | inl (dispatch_and_stop, ep) ↦
            let decided = process_decides stop header ev position r dispatch_and_stop ep in
            let (at, es, ends) = stops_at stop header r.source_row_transaction_open decided in
            (at, es, inl ends)
        | inr (x, ep) ↦ absurd (ground arith)
      ]
