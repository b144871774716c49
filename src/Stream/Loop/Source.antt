-- ===== src/Stream/Loop/Source.antt =====
-- What a source sends, and that the flag of the loop (src/live/structured_stream.rs) tells where
-- its transactions are complete.
use mariadb_mysql_cdc.Prelude.{◌<◌, Bool, true, false, ◌≡◌, refl, inl, inr, List, [], ◌∷◌, arith}
use mariadb_mysql_cdc.Stream.Types.{
  EventHeader, BinlogEvent, write_rows, update_rows, delete_rows, xid,
}
use mariadb_mysql_cdc.Stream.Exec.{Result-cases}
use mariadb_mysql_cdc.Stream.Event.{update_source_row_transaction_state}
use mariadb_mysql_cdc.Stream.Target.{Target, Policies}
use mariadb_mysql_cdc.Stream.Context.{Settings, Context}
use mariadb_mysql_cdc.Stream.Transaction.{is_rotate, begin_for, flush_first}
use mariadb_mysql_cdc.Stream.Handler.{apply_structured_event, handle_structured_event}
use mariadb_mysql_cdc.Stream.Contract.{Contract}
use mariadb_mysql_cdc.Stream.Transaction.Trace.{Trace, settled}
use mariadb_mysql_cdc.Stream.Transaction.Handled.{IsPlain, ends_transaction}
use mariadb_mysql_cdc.Stream.Transaction.Handled.Reported.{handle_row_event}
use mariadb_mysql_cdc.Stream.Transaction.Event.{outcome_at}
use mariadb_mysql_cdc.Stream.Loop.{Received, event, failure}

-- What a source sends: a commit has a position, the log is rotated between transactions, and the
-- stream ends between transactions where it ends without an error.
abbrev pub IsSourceStream : Policies → Bool → List Received → Type 0
IsSourceStream p open_rows [] = open_rows ≡ false
IsSourceStream p open_rows (failure _ ∷ _) = Unit
IsSourceStream p open_rows (event header e _ ∷ rest) =
    IsPlain p e
    × (ends_transaction e ≡ true → 0 < header.next_event_position)
    × (is_rotate e ≡ true → open_rows ≡ false)
    × IsSourceStream p (update_source_row_transaction_state open_rows e) rest

module _ {W : Type 0} {t : Target W} {p : Policies} (k : Contract t p) (cfg : Settings) where
  -- Where the flag of the loop is down, no row event waits for its commit.
  pub outcome_settles :
      (h : Trace) (open_rows : Bool) (header : EventHeader) (e : BinlogEvent) (c : Context W)
      → (open_rows ≡ false → settled h ≡ true)
      → update_source_row_transaction_state open_rows e ≡ false
      → settled ((e, outcome_at t p cfg header e c) ∷ h) ≡ true
  unfolding outcome_at update_source_row_transaction_state
  outcome_settles h open_rows header (write_rows _) c s u = cc
  outcome_settles h open_rows header (update_rows _) c s u = cc
  outcome_settles h open_rows header (delete_rows _) c s u = cc
  outcome_settles h open_rows header xid c s u =
      unfold handle_structured_event apply_structured_event in refl
  outcome_settles h open_rows header e c s u =
      let d = (begin_for t cfg p e (flush_first t cfg p e c).1).1 in
      elim (Result-cases (handle_structured_event t p header e d).0) [
        | inl (o, eo) ↦ ground (arith, handle_row_event k header e d o eo)
        | inr (x, ex) ↦ ground arith
      ]
