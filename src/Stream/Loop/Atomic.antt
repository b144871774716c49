-- ===== src/Stream/Loop/Atomic.antt =====
-- Every action of an attempt leaves a point of its history (src/live/structured_stream/init.rs and
-- src/live/structured_stream/init/completion.rs).
use mariadb_mysql_cdc.Prelude.{
  ℕ, ◌<◌, true, false, ◌≡◌, ◌≢◌, refl, inl, inr, Option, List, [], ◌∷◌, arith, Option-cases,
}
use mariadb_mysql_cdc.Stream.Types.{
  EventHeader, BinlogEvent, xid, ApplyBinlogError, source_command, stop_in_partial_transaction,
  bounded_stop_not_reached, stream_ended,
}
use mariadb_mysql_cdc.Stream.Exec.{Result, ok, err, Exec, raise, ◌>>=◌, ◌>>◌, Result-cases}
use mariadb_mysql_cdc.Stream.Event.{
  StopPositionDecision, dispatch, dispatch_and_stop, stop_position_decision,
  bounded_stop_completion_error, update_source_row_transaction_state,
}
use mariadb_mysql_cdc.Stream.Target.{Target, Policies}
use mariadb_mysql_cdc.Stream.Context.{Settings, Context}
use mariadb_mysql_cdc.Stream.Transaction.{
  is_rotate, flush_grouped_transaction, apply_stream_event_transactionally,
}
use mariadb_mysql_cdc.Stream.Contract.{Content, Contract}
use mariadb_mysql_cdc.Stream.Transaction.Trace.{Trace, settled, IsPoint}
use mariadb_mysql_cdc.Stream.Transaction.Handled.{IsPlain, ends_transaction}
use mariadb_mysql_cdc.Stream.Transaction.Commit.{AtomicMode, Inv}
use mariadb_mysql_cdc.Stream.Transaction.Step.{flush_completed}
use mariadb_mysql_cdc.Stream.Transaction.Event.{
  rollback_durable, IsStepped, outcome_at, step-IsStepped,
}
use mariadb_mysql_cdc.Stream.Loop.{
  Runtime, Received, event, failure, in_context, rollback_stream_transaction, complete_bounded_stop,
  finish_stream, with_position, process_stream_event, stream_events,
}
use mariadb_mysql_cdc.Stream.Loop.Source.{IsSourceStream, outcome_settles}

module _ {W : Type 0} {t : Target W} {p : Policies} (k : Contract t p) (cfg : Settings)
    (start : Content) (mode : AtomicMode cfg) (stop : Option ℕ) where
  -- The history of the events that the loop reads, with what the handler reports of each.
  unfoldable pub history : List Received → Trace → Runtime W → Trace
  history [] h r = h
  history (failure _ ∷ _) h r = h
  history (event header e position ∷ rest) h r =
      let c = with_position t cfg p stop position r.context in
      let h' = (e, outcome_at t p cfg header e c) ∷ h in
      let (result, r') = process_stream_event t cfg p stop header e position r in
      let later = history rest h' r' in
      elim (stop_position_decision stop header r.source_row_transaction_open) [
        | err _ ↦ h
        | ok _ ↦ elim result [ ok dispatch ↦ later | ok dispatch_and_stop ↦ h' | err _ ↦ h' ]
      ]

  pub record Ready (h : Trace) (r : Runtime W) : Type 0 where
    pub inv : Inv k cfg start h r.context
    pub between : r.source_row_transaction_open ≡ false → settled h ≡ true

  abbrev Point : Trace → Runtime W → Type 0
  Point h r = IsPoint start (k.durable r.context.world) h

  -- An action that leaves a point of the history wherever it ends.
  abbrev Leaves : {A : Type 0} → Trace → Exec (Runtime W) A → Runtime W → Type 0
  Leaves h m r = Point h (m r).1

  rollback-Leaves :
      (h : Trace) (r : Runtime W) → Point h r → Leaves h (rollback_stream_transaction t cfg) r
  unfolding rollback_stream_transaction
  rollback-Leaves h r i = rw (rollback_durable k cfg start mode r.context) i

  raise-Leaves :
      {A B : Type 0} (h : Trace) (m : Exec (Runtime W) A) (n : A → Result B) (r : Runtime W)
      → Leaves h m r
      → Leaves h (m >>= λ a r'. (n a, r')) r
  raise-Leaves h m n r i = elim (Result-cases (m r).0) [ inl (a, e) ↦ rw e i | inr (x, e) ↦ rw e i ]

  abort-Leaves :
      (B : Type 0) (h : Trace) (x : ApplyBinlogError) (r : Runtime W)
      → Point h r
      → Leaves h (rollback_stream_transaction t cfg >> raise {A = B} x) r
  abort-Leaves B h x r i =
      raise-Leaves h (rollback_stream_transaction t cfg) (λ _. err x) r (rollback-Leaves h r i)

  flush-Leaves :
      (h : Trace) (r : Runtime W)
      → Ready h r
      → settled h ≡ true
      → Leaves h (in_context (flush_grouped_transaction t cfg)) r
  flush-Leaves h r i s = (flush_completed k cfg start mode h xid r.context i.inv s).point

  complete_bounded_stop-Leaves :
      (h : Trace) (r : Runtime W) → Ready h r → Leaves h (complete_bounded_stop t cfg) r
  unfolding complete_bounded_stop bounded_stop_completion_error
  complete_bounded_stop-Leaves h r i = ground (
    arith,
    abort-Leaves Unit h (source_command stop_in_partial_transaction) r i.inv.point,
    flush-Leaves h r i,
  )

  finish_stream-Leaves :
      (h : Trace) (r : Runtime W)
      → Ready h r
      → r.source_row_transaction_open ≡ false
      → Leaves h (finish_stream t cfg stop) r
  unfolding finish_stream
  finish_stream-Leaves h r i e = elim (Option-cases stop) [
    | inl es ↦ rw es (
        raise-Leaves h (in_context (flush_grouped_transaction t cfg))
          (λ _. err (source_command stream_ended)) r (flush-Leaves h r i (i.between e)))
    | inr (s, es) ↦
        rw es (abort-Leaves Unit h (source_command (bounded_stop_not_reached s)) r i.inv.point)
  ]

  advance-Inv :
      (h : Trace) (c : Context W) (position : ℕ)
      → Inv k cfg start h c
      → Inv k cfg start h (with_position t cfg p stop position c)
  advance-Inv h c position i = record {
    point = i.point;
    closed_count = i.closed_count;
    closed_rows = i.closed_rows;
    closed_settled = i.closed_settled;
    open_active = i.open_active;
    open_rows = i.open_rows;
    room = i.room;
    remembered = i.remembered;
    resumes = i.resumes;
    no_file = i.no_file;
  }

  module _ (h : Trace) (header : EventHeader) (e : BinlogEvent) (position : ℕ) (r : Runtime W) where
    abbrev extended : Trace
    extended = (e, outcome_at t p cfg header e (with_position t cfg p stop position r.context)) ∷ h

    feed-IsStepped :
        Ready h r
        → IsPlain p e
        → (ends_transaction e ≡ true → 0 < header.next_event_position)
        → (is_rotate e ≡ true → r.source_row_transaction_open ≡ false)
        → let c = with_position t cfg p stop position r.context in
          let (result, d) = apply_stream_event_transactionally t cfg p header e c in
          IsStepped k cfg start mode h header e (outcome_at t p cfg header e c) d result
    feed-IsStepped i n pos s =
        step-IsStepped k cfg start mode h header e (with_position t cfg p stop position r.context)
          (advance-Inv h r.context position i.inv) n pos (λ x. i.between (s x))

    -- A handled event leaves the loop ready for the next one, a failed one a point of the history.
    record IsProcessed (result : Result StopPositionDecision) (d : Runtime W) : Type 0 where
      point : Point extended d
      ready : (decision : StopPositionDecision) → result ≡ ok decision → Ready extended d
      open_rows :
          (decision : StopPositionDecision)
          → result ≡ ok decision
          → d.source_row_transaction_open
            ≡ update_source_row_transaction_state r.source_row_transaction_open e

    process-IsProcessed :
        (decision : StopPositionDecision)
        → stop_position_decision stop header r.source_row_transaction_open ≡ ok decision
        → Ready h r
        → IsPlain p e
        → (ends_transaction e ≡ true → 0 < header.next_event_position)
        → (is_rotate e ≡ true → r.source_row_transaction_open ≡ false)
        → let (result, d) = process_stream_event t cfg p stop header e position r in
          IsProcessed result d
    unfolding process_stream_event
    process-IsProcessed decision ed i n pos s =
        let c = with_position t cfg p stop position r.context in
        let f = feed-IsStepped i n pos s in
        elim (Result-cases (apply_stream_event_transactionally t cfg p header e c).0) [
          | inl (o, eo) ↦
              rw (process_stream_event, ed, eo)
                (record {
                  point = f.point;
                  ready = λ d ok_d. record {
                    inv = f.kept eo;
                    between =
                        outcome_settles k cfg h r.source_row_transaction_open header e c i.between;
                  };
                  open_rows = λ d ok_d. refl;
                })
          | inr (x, ex) ↦
              rw (process_stream_event, ed, ex)
                (record { point = f.point; ready = λ d ok_d. cc; open_rows = λ d ok_d. cc })
        ]

  abbrev Stream : List Received → Exec (Runtime W) (Unit {0})
  Stream items = stream_events t cfg p stop items

  record IsStopped (h : Trace) (result : Result StopPositionDecision) (d : Runtime W) : Type 0 where
    point : Point h d
    failed : (decision : StopPositionDecision) → result ≢ ok decision

  stop-IsStopped :
      (header : EventHeader) (e : BinlogEvent) (position : ℕ) (h : Trace) (r : Runtime W)
      (x : ApplyBinlogError)
      → stop_position_decision stop header r.source_row_transaction_open ≡ err x
      → Point h r
      → let (result, d) = process_stream_event t cfg p stop header e position r in
        IsStopped h result d
  unfolding process_stream_event
  stop-IsStopped header e position h r x ex i =
      rw (process_stream_event, ex)
        (record {
          point = abort-Leaves StopPositionDecision h x r i;
          failed = elim (Result-cases (rollback_stream_transaction t cfg r).0) [
            | inl (u, eu) ↦ λ d bad. ground arith
            | inr (y, ey) ↦ λ d bad. ground arith
          ];
        })

  pub stream-Leaves :
      (items : List Received) (h : Trace) (r : Runtime W)
      → Ready h r
      → IsSourceStream p r.source_row_transaction_open items
      → Point (history items h r) (Stream items r).1
  unfolding stream_events history
  stream-Leaves [] h r i s = finish_stream-Leaves h r i s
  stream-Leaves (failure x ∷ rest) h r i s = abort-Leaves Unit h (source_command x) r i.inv.point
  stream-Leaves (event header e position ∷ rest) h r i (n, pos, rot, s) =
      let process = process_stream_event t cfg p stop header e position r in
      let h' = extended h header e position r in
      elim (Result-cases (stop_position_decision stop header r.source_row_transaction_open)) [
        | inr (x, ex) ↦
            let d = stop-IsStopped header e position h r x ex i.inv.point in
            elim (Result-cases process.0) [
              | inl (a, ea) ↦ absurd (d.failed a ea)
              | inr (y, ey) ↦ rw (history, ex, ey) d.point
            ]
        | inl (decision, ed) ↦
            let d = process-IsProcessed h header e position r decision ed i n pos rot in
            elim (Result-cases process.0) [
              | inl (dispatch, ea) ↦
                  rw (history, ed, ea)
                    (stream-Leaves rest h' process.1 (d.ready dispatch ea)
                      (rw (d.open_rows dispatch ea) s))
              | inl (dispatch_and_stop, ea) ↦
                  rw (history, ed, ea)
                    (complete_bounded_stop-Leaves h' process.1 (d.ready dispatch_and_stop ea))
              | inr (y, ey) ↦ rw (history, ed, ey) d.point
            ]
      ]
