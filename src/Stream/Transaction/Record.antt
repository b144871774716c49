-- ===== src/Stream/Transaction/Record.antt =====
-- Recording the outcome of an event keeps the invariant on the history with that event.
use mariadb_mysql_cdc.Prelude.{
  Bool, true, false, ◌≡◌, refl, inl, inr, sym, ap, ◌∙◌, if_true, Option, none, some, is_some, ◌∷◌,
  arith, Option-cases, Bool-cases,
}
use mariadb_mysql_cdc.Stream.Types.{BinlogCoordinate, BinlogEvent, StructuredEventOutcome}
use mariadb_mysql_cdc.Stream.Exec.{Result, ok, Exec, ◌>>=◌}
use mariadb_mysql_cdc.Stream.Target.{Target, Policies}
use mariadb_mysql_cdc.Stream.Context.{TargetTransaction, Settings, Context}
use mariadb_mysql_cdc.Stream.Checkpoints.{coordinate_checkpoint}
use mariadb_mysql_cdc.Stream.Transaction.{
  record_source_transaction, should_flush, event_name, save_outcome_checkpoint, flush_when,
  finish_source_transaction, commit_target_group,
}
use mariadb_mysql_cdc.Stream.Contract.{Content, Contract}
use mariadb_mysql_cdc.Stream.Transaction.Trace.{Trace, settled, reached, stored_coordinate, IsPoint}
use mariadb_mysql_cdc.Stream.Transaction.Commit.{
  AtomicMode, pending_coordinate, Inv, IsClosed, commit-IsClosed,
}
use mariadb_mysql_cdc.Stream.Transaction.Step.{
  IsFlushed, IsMid, stored-IsPoint, save-stores, after-IsFlushed,
}

module _ {W : Type 0} {t : Target W} {p : Policies} (k : Contract t p) (cfg : Settings)
    (start : Content) (mode : AtomicMode cfg) where
  -- The checkpoint that waits in the transaction is the last coordinate of the history.
  abbrev Waits : Trace → TargetTransaction → Type 0
  Waits h tx =
      (is_some tx.pending_transaction_checkpoint ≡ true)
      × (pending_coordinate tx.pending_transaction_checkpoint ≡ reached (stored_coordinate start) h)

  abbrev Mid : Trace → Context W → Type 0
  Mid h c = IsMid k cfg start mode h c

  module _ (event : BinlogEvent) (outcome : StructuredEventOutcome) (h : Trace) where
    abbrev h' : Trace
    h' = (event, outcome) ∷ h

    record IsSaved (c c' : Context W) (r : Result (Unit {0})) : Type 0 where
      point : IsPoint start (k.durable c'.world) h'
      mid : r ≡ ok tt → Mid h' c'
      same_open : c'.transaction.is_open ≡ c.transaction.is_open
      same_count : c'.transaction.source_transactions ≡ c.transaction.source_transactions
      same_file : c'.transaction.pending_file_checkpoint ≡ c.transaction.pending_file_checkpoint
      waits_still :
          r ≡ ok tt
          → c'.transaction.is_open ≡ true
          → Waits h c.transaction
          → Waits h' c'.transaction
      waits_new :
          r ≡ ok tt
          → c'.transaction.is_open ≡ true
          → is_some outcome.resume_coordinate ≡ true
          → Waits h' c'.transaction

    save_open :
        (c : Context W) (at : BinlogCoordinate)
        → Mid h' c
        → outcome.resume_coordinate ≡ some at
        → c.transaction.is_open ≡ true
        → let (r, c') = save_outcome_checkpoint t cfg event (some at) c in IsSaved c c' r
    unfolding save_outcome_checkpoint coordinate_checkpoint
    save_open c at m e o = ground arith

    save_closed :
        (c : Context W) (at : BinlogCoordinate)
        → Mid h' c
        → outcome.resume_coordinate ≡ some at
        → c.transaction.is_open ≡ false
        → let (r, c') = save_outcome_checkpoint t cfg event (some at) c in IsSaved c c' r
    unfolding save_outcome_checkpoint
    save_closed c at m e o = ground (
      arith,
      save-stores k cfg start mode cfg.has_checkpoint_store at (event_name event) c.world,
      stored-IsPoint k cfg start mode event outcome h c at m o e,
    )

    save_outcome-IsSaved :
        (c : Context W) (o : Option BinlogCoordinate)
        → Mid h' c
        → outcome.resume_coordinate ≡ o
        → let (r, c') = save_outcome_checkpoint t cfg event o c in IsSaved c c' r
    save_outcome-IsSaved c none m e = unfold save_outcome_checkpoint in ground arith
    save_outcome-IsSaved c (some at) m e = elim (Bool-cases c.transaction.is_open) [
      | inl o ↦ save_open c at m e o
      | inr o ↦ save_closed c at m e o
    ]

    save-IsSaved :
        (c : Context W)
        → Mid h' c
        → let (r, c') = save_outcome_checkpoint t cfg event outcome.resume_coordinate c in
          IsSaved c c' r
    save-IsSaved c m = save_outcome-IsSaved c outcome.resume_coordinate m refl

    -- An event that ends no source transaction.
    pub kept-IsFlushed :
        (c c' : Context W)
        → Inv k cfg start h c
        → c'.transaction ≡ c.transaction
        → Mid h' c'
        → let (r, d) = save_outcome_checkpoint t cfg event outcome.resume_coordinate c' in
          IsFlushed k cfg start mode h' event d r
    kept-IsFlushed c c' i e m = ground (arith, save-IsSaved c' m)

    -- A context whose transaction holds complete source transactions only.
    record IsWhole (c : Context W) : Type 0 where
      mid : Mid h' c
      whole : settled h' ≡ true
      idle : c.transaction.is_open ≡ false → c.transaction.source_transactions ≡ 0
      waits : c.transaction.is_open ≡ true → Waits h' c.transaction
      no_file : c.transaction.pending_file_checkpoint ≡ none

    whole-IsClosed :
        (c : Context W)
        → IsWhole c
        → c.transaction.is_open ≡ true
        → let (r, d) = commit_target_group t cfg c in IsClosed k cfg start mode h' d r
    whole-IsClosed c w o = elim (Option-cases c.transaction.pending_transaction_checkpoint) [
      | inl e ↦ absurd (ground (arith, w.waits o))
      | inr (candidate, e) ↦
          commit-IsClosed k cfg start mode h' c candidate o e w.no_file w.mid.point
            (w.mid.open_rows o) w.whole (ground (arith, w.waits o))
    ]

    flush_when-IsFlushed :
        (force : Bool) (c : Context W)
        → IsWhole c
        → let (r, d) = flush_when t cfg force (commit_target_group t cfg) c in
          IsFlushed k cfg start mode h' event d r
    unfolding should_flush
    flush_when-IsFlushed force c w = ground (arith, whole-IsClosed c w)

    counted : Context W → Context W
    counted c = record c { transaction = record_source_transaction c.transaction }

    counted-Mid : (c : Context W) → Mid h' c → Mid h' (counted c)
    unfolding counted record_source_transaction
    counted-Mid c m = ground arith

    counted_idle :
        (c c' : Context W)
        → Inv k cfg start h c
        → c'.transaction ≡ c.transaction
        → (counted c').transaction.is_open ≡ false
        → (counted c').transaction.source_transactions ≡ 0
    unfolding counted record_source_transaction
    counted_idle c c' i e o = ground arith

    counted_file :
        (c c' : Context W)
        → Inv k cfg start h c
        → c'.transaction ≡ c.transaction
        → (counted c').transaction.pending_file_checkpoint ≡ none
    unfolding counted record_source_transaction
    counted_file c c' i e = ground arith

    saved-IsWhole :
        (c c' : Context W) (r : Result (Unit {0}))
        → IsSaved c c' r
        → settled h' ≡ true
        → is_some outcome.resume_coordinate ≡ true
        → (c.transaction.is_open ≡ false → c.transaction.source_transactions ≡ 0)
        → c.transaction.pending_file_checkpoint ≡ none
        → r ≡ ok tt
        → IsWhole c'
    saved-IsWhole c c' r v s some_at idle nf e = record {
      mid = v.mid e;
      whole = s;
      idle = λ o. v.same_count ∙ idle (sym v.same_open ∙ o);
      waits = λ o. v.waits_new e o some_at;
      no_file = v.same_file ∙ nf;
    }

    finish-eq-save :
        (force : Bool) (c : Context W)
        → finish_source_transaction t cfg event outcome.resume_coordinate force c
          ≡ (save_outcome_checkpoint t cfg event outcome.resume_coordinate
                >>= (λ _. flush_when t cfg force (commit_target_group t cfg)))
              (counted c)
    unfolding finish_source_transaction counted
    finish-eq-save force c =
        let e : is_some cfg.transaction_checkpoint_table ≡ true = rw mode.has_table in
        ap (λ (m : Exec (Context W) (Unit {0})). m (counted c)) (if_true _ _ e)

    pub commit-IsFlushed :
        (force : Bool) (c c' : Context W)
        → Inv k cfg start h c
        → c'.transaction ≡ c.transaction
        → Mid h' c'
        → settled h' ≡ true
        → is_some outcome.resume_coordinate ≡ true
        → let (r, d) = finish_source_transaction t cfg event outcome.resume_coordinate force c' in
          IsFlushed k cfg start mode h' event d r
    commit-IsFlushed force c c' i e m s some_at =
        let m0 = save_outcome_checkpoint t cfg event outcome.resume_coordinate in
        let v = save-IsSaved (counted c') (counted-Mid c' m) in
        let body =
          after-IsFlushed k cfg start mode h' event m0
            (λ _. flush_when t cfg force (commit_target_group t cfg)) (counted c') v.point
            (λ _ o. flush_when-IsFlushed force (m0 (counted c')).1 (
              saved-IsWhole (counted c') (m0 (counted c')).1 _ v s some_at (counted_idle c c' i e)
                (counted_file c c' i e) o)) in
        rw (finish-eq-save force c') body
