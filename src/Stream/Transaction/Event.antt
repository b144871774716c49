-- ===== src/Stream/Transaction/Event.antt =====
-- One event of the stream, from the flush before it to the recording of its outcome.
use mariadb_mysql_cdc.Prelude.{
  ◌<◌, Bool, true, false, ◌≡◌, refl, ap, ◌∙◌, inl, inr, none, ◌∷◌, arith, if◌then◌else◌,
}
use mariadb_mysql_cdc.Stream.Types.{
  EventHeader, BinlogEvent, ignore, commit_transaction, StructuredEventOutcome, ApplyBinlogError,
}
use mariadb_mysql_cdc.Stream.Exec.{Result, ok, err, Exec, ◌>>=◌, ◌>>◌, Result-cases}
use mariadb_mysql_cdc.Stream.Target.{Target, Policies}
use mariadb_mysql_cdc.Stream.Context.{Settings, Context}
use mariadb_mysql_cdc.Stream.Handler.{handle_structured_event}
use mariadb_mysql_cdc.Stream.Transaction.{
  event_can_write_target, is_rotate, is_commit, is_query, rollback_if_open, flush_first, begin_for,
  save_outcome_checkpoint, finish_source_transaction, handle_or_rollback, record_outcome,
  apply_stream_event_transactionally,
}
use mariadb_mysql_cdc.Stream.Contract.{Content, Contract}
use mariadb_mysql_cdc.Stream.Transaction.Trace.{Trace, settled, IsPoint, IsPoint-later}
use mariadb_mysql_cdc.Stream.Transaction.Handled.{IsPlain, ends_transaction, IsHandled}
use mariadb_mysql_cdc.Stream.Transaction.Handled.Reported.{
  handle-IsHandled, handle-IsRefused, handle_needs_write, handle_commit_resumes,
}
use mariadb_mysql_cdc.Stream.Transaction.Commit.{AtomicMode, Inv}
use mariadb_mysql_cdc.Stream.Transaction.Step.{
  IsFlushed, IsMid, flush_first-IsFlushed, begin-IsBegun, begin_open, handled-IsMid,
}
use mariadb_mysql_cdc.Stream.Transaction.Record.{kept-IsFlushed, commit-IsFlushed}

module _ {W : Type 0} (t : Target W) (p : Policies) (cfg : Settings) where
  -- What the handler reports of an event, or that it ignored one that it refuses.
  unfoldable pub outcome_at : EventHeader → BinlogEvent → Context W → StructuredEventOutcome
  outcome_at header event c =
      elim (handle_structured_event t p header event
        (begin_for t cfg p event (flush_first t cfg p event c).1).1).0 [
          | ok outcome ↦ outcome
          | err _ ↦ record { policy = ignore; resume_coordinate = none }
        ]

module _ {W : Type 0} {t : Target W} {p : Policies} (k : Contract t p) (cfg : Settings)
    (start : Content) (mode : AtomicMode cfg) where
  pub rollback_durable :
      (c : Context W) → k.durable (rollback_if_open t cfg c).1.world ≡ k.durable c.world
  unfolding rollback_if_open
  rollback_durable c = ground (arith, k.rollback_durable c.world)

  module _ (h : Trace) (header : EventHeader) (event : BinlogEvent)
      (last : StructuredEventOutcome) where
    -- After an event, whatever its result, what is durable is a point of the history with it.
    pub record IsStepped (c : Context W) (r : Result StructuredEventOutcome) : Type 0 where
      pub point : IsPoint start (k.durable c.world) ((event, last) ∷ h)
      pub kept : {o : StructuredEventOutcome} → r ≡ ok o → Inv k cfg start ((event, last) ∷ h) c

    failed-IsStepped :
        (c : Context W) (r : Result StructuredEventOutcome) (x : ApplyBinlogError)
        → IsPoint start (k.durable c.world) h
        → r ≡ err x
        → IsStepped c r
    failed-IsStepped c r x i e = record {
      point = IsPoint-later (event, last) i;
      kept = λ {o} bad. cc;
    }

    flushed-IsStepped :
        (m : Exec (Context W) (Unit {0})) (c : Context W)
        → (let (r, d) = m c in IsFlushed k cfg start mode ((event, last) ∷ h) event d r)
        → let (r, d) = (m >>= λ _ s. (ok last, s)) c in IsStepped d r
    flushed-IsStepped m c f = elim (Result-cases (m c).0) [
      | inl (a, e) ↦ rw e (record { point = f.point; kept = λ {o} eo. f.kept e })
      | inr (x, e) ↦ rw e (record { point = f.point; kept = λ {o} eo. cc })
    ]

    module _ (c : Context W) (i : Inv k cfg start h c) (n : IsPlain p event)
        (e : (handle_structured_event t p header event c).0 ≡ ok last)
        (w : event_can_write_target p c.state event ≡ true → c.transaction.is_open ≡ true) where
      abbrev after : Context W
      after = (handle_structured_event t p header event c).1

      handled : IsHandled k event c after last.policy
      handled = handle-IsHandled k header event c n (λ x. i.open_active (w x)) last e

      mid : IsMid k cfg start mode ((event, last) ∷ h) after
      mid =
          handled-IsMid k cfg start mode event last h c after i handled
            (λ x. w (handle_needs_write k header event c last e x))

      abbrev record_by : Bool → Exec (Context W) (Unit {0})
      record_by commits =
          if commits
          then finish_source_transaction t cfg event last.resume_coordinate (is_query event)
          else save_outcome_checkpoint t cfg event last.resume_coordinate

      record_by-IsFlushed :
          (commits : Bool)
          → is_commit last.policy ≡ commits
          → (ends_transaction event ≡ true → 0 < header.next_event_position)
          → let (r, d) = record_by commits after in
            IsFlushed k cfg start mode ((event, last) ∷ h) event d r
      record_by-IsFlushed true b pos =
          let commits : last.policy ≡ commit_transaction = ground arith in
          commit-IsFlushed k cfg start mode event last h (is_query event) c after i
            handled.transaction mid (ground arith)
            (handle_commit_resumes k header event c last e commits pos)
      record_by-IsFlushed false b pos =
          kept-IsFlushed k cfg start mode event last h c after i handled.transaction mid

      recorded-IsStepped :
          (ends_transaction event ≡ true → 0 < header.next_event_position)
          → let (r, d) = record_outcome t cfg p event last after in IsStepped d r
      recorded-IsStepped pos =
          flushed-IsStepped (record_by (is_commit last.policy)) after
            (record_by-IsFlushed (is_commit last.policy) refl pos)

    accepted :
        (c : Context W) (outcome : StructuredEventOutcome)
        → (handle_structured_event t p header event c).0 ≡ ok outcome
        → handle_or_rollback t cfg p header event c
          ≡ (ok outcome, (handle_structured_event t p header event c).1)
    unfolding handle_or_rollback
    accepted c outcome e = ground arith

    -- Nothing of a refused event is durable.
    refused :
        (c : Context W) (x : ApplyBinlogError)
        → IsPlain p event
        → (event_can_write_target p c.state event ≡ true → k.active c.world ≡ true)
        → (handle_structured_event t p header event c).0 ≡ err x
        → (y : ApplyBinlogError) × ((handle_or_rollback t cfg p header event c).0 ≡ err y)
          × (k.durable (handle_or_rollback t cfg p header event c).1.world ≡ k.durable c.world)
    unfolding handle_or_rollback
    refused c x n a e =
        let c' = (handle_structured_event t p header event c).1 in
        let d = (handle-IsRefused k header event c n a).durable in
        elim (Result-cases (rollback_if_open t cfg c').0) [
          | inl (u, eu) ↦ (x, ground arith, ground (arith, rollback_durable c'))
          | inr (y, ey) ↦ (y, ground arith, ground (arith, rollback_durable c'))
        ]

    -- `last` is what the handler reports where it accepts the event.
    abbrev Told : Context W → Type 0
    Told c =
        (outcome : StructuredEventOutcome)
        → (handle_structured_event t p header event c).0 ≡ ok outcome
        → outcome ≡ last

    -- Handling, and a rollback where it fails.
    handled-IsStepped :
        (c : Context W)
        → Inv k cfg start h c
        → IsPlain p event
        → (event_can_write_target p c.state event ≡ true → c.transaction.is_open ≡ true)
        → (ends_transaction event ≡ true → 0 < header.next_event_position)
        → Told c
        → let (r, d) =
            (handle_or_rollback t cfg p header event
                >>= (λ outcome. record_outcome t cfg p event outcome))
              c in
          IsStepped d r
    handled-IsStepped c i n w pos told =
        elim (Result-cases (handle_structured_event t p header event c).0) [
          | inl (outcome, e) ↦
              let el = e ∙ ap ok (told outcome e) in
              rw (accepted c last el) (recorded-IsStepped c i n el w pos)
          | inr (x, e) ↦
              let (y, ey, d) = refused c x n (λ a. i.open_active (w a)) e in
              rw ey (failed-IsStepped _ _ y (rw d i.point) refl)
        ]

    then-IsStepped :
        (m : Exec (Context W) (Unit {0})) (n : Exec (Context W) StructuredEventOutcome)
        (c : Context W)
        → (let (r, d) = m c in IsFlushed k cfg start mode h event d r)
        → ((m c).0 ≡ ok tt → let (r, d) = n (m c).1 in IsStepped d r)
        → let (r, d) = (m >> n) c in IsStepped d r
    then-IsStepped m n c f g = elim (Result-cases (m c).0) [
      | inl (a, e) ↦ rw e (g e)
      | inr (x, e) ↦ rw e (failed-IsStepped _ _ x f.point refl)
    ]

    begun-IsStepped :
        (c : Context W)
        → Inv k cfg start h c
        → IsPlain p event
        → (ends_transaction event ≡ true → 0 < header.next_event_position)
        → Told (begin_for t cfg p event c).1
        → let (r, d) =
            (begin_for t cfg p event
                >> (handle_or_rollback t cfg p header event
                    >>= (λ outcome. record_outcome t cfg p event outcome)))
              c in
          IsStepped d r
    begun-IsStepped c i n pos told =
        let b = begin-IsBegun k cfg start mode h event c i in
        then-IsStepped (begin_for t cfg p event) _ c b (λ e.
          handled-IsStepped (begin_for t cfg p event c).1 (b.kept e) n
            (λ w. begin_open k cfg start mode event c e w) pos told)

    stepped :
        (c : Context W)
        → Inv k cfg start h c
        → IsPlain p event
        → (ends_transaction event ≡ true → 0 < header.next_event_position)
        → (is_rotate event ≡ true → settled h ≡ true)
        → Told (begin_for t cfg p event (flush_first t cfg p event c).1).1
        → let (r, d) = apply_stream_event_transactionally t cfg p header event c in IsStepped d r
    unfolding apply_stream_event_transactionally
    stepped c i n pos s told =
        let f = flush_first-IsFlushed k cfg start mode h event c i s in
        then-IsStepped (flush_first t cfg p event) _ c f
          (λ e. begun-IsStepped (flush_first t cfg p event c).1 (f.kept e) n pos told)

  -- One event keeps the invariant, and whatever fails, what is durable afterwards is a point of
  -- the history, so that the stream can resume from its checkpoint.
  pub step-IsStepped :
      (h : Trace) (header : EventHeader) (event : BinlogEvent) (c : Context W)
      → Inv k cfg start h c
      → IsPlain p event
      → (ends_transaction event ≡ true → 0 < header.next_event_position)
      → (is_rotate event ≡ true → settled h ≡ true)
      → let (r, d) = apply_stream_event_transactionally t cfg p header event c in
        IsStepped h header event (outcome_at t p cfg header event c) d r
  unfolding outcome_at
  step-IsStepped h header event c i n pos s =
      stepped h header event (outcome_at t p cfg header event c) c i n pos s
        (λ outcome e. rw (e, outcome_at))
