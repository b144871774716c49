-- ===== src/Stream/Transaction/Step.antt =====
-- One event keeps the invariant, and whatever fails, what is durable is a point of the history.
use mariadb_mysql_cdc.Prelude.{
  ℕ, Name, Bool, true, false, ◌≡◌, ◌≢◌, ◌⊎◌, inl, inr, some, List, ◌∷◌, ◌++◌, arith, dec_lt,
}
use mathlib.Core.List.{append-nil, append_assoc}
use mariadb_mysql_cdc.Stream.Types.{
  BinlogCoordinate, BinlogEvent, apply_rows, StructuredEventOutcome,
}
use mariadb_mysql_cdc.Stream.Exec.{Result, ok, Exec, ◌>>=◌, Result-cases}
use mariadb_mysql_cdc.Stream.Target.{Target, Policies}
use mariadb_mysql_cdc.Stream.Context.{Settings, Context}
use mariadb_mysql_cdc.Stream.Checkpoints.{
  coordinate_checkpoint, should_skip_checkpoint, save_checkpoint_if_advanced,
  save_coordinate_checkpoint,
}
use mariadb_mysql_cdc.Stream.Transaction.{
  should_flush, event_name, event_can_write_target, is_rotate, begin_if_needed, flush_first,
  begin_for, flush_grouped_transaction,
}
use mariadb_mysql_cdc.Stream.Contract.{Content, store, Contract}
use mariadb_mysql_cdc.Stream.Transaction.Trace.{
  Trace, rows, rows_of, settled, now, IsPoint, IsPoint-later,
}
use mariadb_mysql_cdc.Stream.Transaction.Handled.{IsHandled}
use mariadb_mysql_cdc.Stream.Transaction.Commit.{AtomicMode, Inv, flush-IsClosed}

module _ {W : Type 0} {t : Target W} {p : Policies} (k : Contract t p) (cfg : Settings)
    (start : Content) (mode : AtomicMode cfg) where
  -- The flush before an event is made for a rotation alone.
  pub record IsFlushed (h : Trace) (event : BinlogEvent) (c : Context W) (r : Result (Unit {0}))
      : Type 0 where
    pub point : IsPoint start (k.durable c.world) h
    pub kept : r ≡ ok tt → Inv k cfg start h c

  -- A failure ends a sequence at a point of the history.
  pub after-IsFlushed :
      {A : Type 0} (h : Trace) (event : BinlogEvent) (m : Exec (Context W) A)
      (n : A → Exec (Context W) (Unit {0})) (c : Context W)
      → IsPoint start (k.durable (m c).1.world) h
      → ((a : A) → (m c).0 ≡ ok a → let (r, d) = n a (m c).1 in IsFlushed h event d r)
      → let (r, d) = (m >>= n) c in IsFlushed h event d r
  after-IsFlushed h event m n c i f = elim (Result-cases (m c).0) [
    | inl (a, e) ↦ rw e (f a e)
    | inr (x, e) ↦ rw e (record { point = i; kept = λ bad. cc })
  ]

  -- Without a timeout a group that is to be flushed was flushed by the event that filled it.
  no_early_flush :
      (h : Trace) (c : Context W) (clock : ℕ)
      → Inv k cfg start h c
      → should_flush cfg.group_config false clock c.transaction ≡ false
  unfolding should_flush
  no_early_flush h c clock i = ground arith

  pub flush_completed :
      (h : Trace) (event : BinlogEvent) (c : Context W)
      → Inv k cfg start h c
      → settled h ≡ true
      → let (r, c') = flush_grouped_transaction t cfg c in IsFlushed h event c' r
  flush_completed h event c i s = elim (dec_lt 0 c.transaction.source_transactions) [
    | yes n ↦ ground (arith, flush-IsClosed k cfg start mode h c i s n)
    | no n ↦ unfold flush_grouped_transaction in ground arith
  ]

  pub flush_first-IsFlushed :
      (h : Trace) (event : BinlogEvent) (c : Context W)
      → Inv k cfg start h c
      → (is_rotate event ≡ true → settled h ≡ true)
      → let (r, c') = flush_first t cfg p event c in IsFlushed h event c' r
  flush_first-IsFlushed h event c i s =
      ground (arith, no_early_flush h c (t.now c.world) i, flush_completed h event c i)

  pub begin-IsBegun :
      (h : Trace) (event : BinlogEvent) (c : Context W)
      → Inv k cfg start h c
      → let (r, c') = begin_for t cfg p event c in IsFlushed h event c' r
  unfolding begin_if_needed
  begin-IsBegun h event c i =
      ground (arith, k.begin_durable c.world, k.begin_working c.world, k.begin_active c.world)

  pub begin_open :
      (event : BinlogEvent) (c : Context W)
      → (begin_for t cfg p event c).0 ≡ ok tt
      → event_can_write_target p (begin_for t cfg p event c).1.state event ≡ true
      → (begin_for t cfg p event c).1.transaction.is_open ≡ true
  unfolding begin_if_needed
  begin_open event c o w = ground arith

  -- What the store makes of a coordinate saved while no transaction is open.
  pub save-stores :
      (has_store : Bool) (at : BinlogCoordinate) (event_type : Name) (w : W)
      → let w' = (save_coordinate_checkpoint t has_store at event_type w).1 in
        (k.durable w' ≡ k.durable w)
        ⊎ (k.durable w' ≡ store (coordinate_checkpoint at event_type) (k.durable w))
  unfolding save_coordinate_checkpoint save_checkpoint_if_advanced should_skip_checkpoint
  save-stores has_store at event_type w =
      let candidate = coordinate_checkpoint at event_type in
      let w1 = (t.checkpoint_for_skip w).1 in
      ground (arith, k.skip_durable w, k.stored_failed candidate w, k.stored_failed candidate w1)

  -- The context of an event that is handled and not yet recorded, on the new history.
  pub record IsMid (h : Trace) (c : Context W) : Type 0 where
    pub point : IsPoint start (k.durable c.world) h
    pub closed_rows :
        c.transaction.is_open ≡ false → (k.durable c.world).applied ≡ start.applied ++ rows h
    pub closed_settled : c.transaction.is_open ≡ false → settled h ≡ true
    pub open_active : c.transaction.is_open ≡ true → k.active c.world ≡ true
    pub open_rows :
        c.transaction.is_open ≡ true → (k.working c.world).applied ≡ start.applied ++ rows h

  module _ (event : BinlogEvent) (outcome : StructuredEventOutcome) where
    rows-cons :
        (h : Trace) (xs : List BinlogEvent)
        → xs ≡ start.applied ++ rows h
        → xs ++ rows_of event outcome.policy ≡ start.applied ++ rows ((event, outcome) ∷ h)
    rows-cons h xs e = rw (e, append_assoc)

    rows-cons_quiet :
        (h : Trace) (xs : List BinlogEvent)
        → outcome.policy ≢ apply_rows
        → xs ≡ start.applied ++ rows h
        → xs ≡ start.applied ++ rows ((event, outcome) ∷ h)
    rows-cons_quiet h xs n e = ground (arith, rows-cons h xs e, append-nil (rows h))

    pub handled-IsMid :
        (h : Trace) (c c' : Context W)
        → Inv k cfg start h c
        → IsHandled k event c c' outcome.policy
        → (outcome.policy ≡ apply_rows → c.transaction.is_open ≡ true)
        → IsMid ((event, outcome) ∷ h) c'
    handled-IsMid h c c' i d w =
        let quiet : c'.transaction.is_open ≡ false → outcome.policy ≢ apply_rows =
          λ o e. ground arith in
        record {
          point = rw d.durable (IsPoint-later (event, outcome) i.point);
          closed_rows =
              λ o. rows-cons_quiet h (k.durable c'.world).applied (quiet o) (ground arith);
          closed_settled = λ o. ground (arith, quiet o);
          open_active = ground arith;
          open_rows = ground (arith, rows-cons h (k.working c.world).applied);
        }

    -- A coordinate saved outside a transaction is a point of the history.
    pub stored-IsPoint :
        (h : Trace) (c : Context W) (at : BinlogCoordinate)
        → IsMid ((event, outcome) ∷ h) c
        → c.transaction.is_open ≡ false
        → outcome.resume_coordinate ≡ some at
        → IsPoint start
            (store (coordinate_checkpoint at (event_name event)) (k.durable c.world))
            ((event, outcome) ∷ h)
    unfolding coordinate_checkpoint
    stored-IsPoint h c at m o e = record {
      point = (event, outcome) ∷ h;
      earlier = now;
      complete = m.closed_settled o;
      applied = m.closed_rows o;
      resumes = rw e;
    }
