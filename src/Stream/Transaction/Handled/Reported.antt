-- ===== src/Stream/Transaction/Handled/Reported.antt =====
-- What handle_structured_event leaves, and what it reports, by the policy of its outcome.
use mariadb_mysql_cdc.Prelude.{◌<◌, true, ◌≡◌, is_some, arith}
use mariadb_mysql_cdc.Stream.Types.{
  EventHeader, BinlogEvent, apply_rows, commit_transaction, StructuredEventOutcome,
}
use mariadb_mysql_cdc.Stream.Exec.{ok}
use mariadb_mysql_cdc.Stream.Event.{is_row_event, event_coordinate, resume_coordinate}
use mariadb_mysql_cdc.Stream.Target.{Target, Policies}
use mariadb_mysql_cdc.Stream.Context.{Context}
use mariadb_mysql_cdc.Stream.Handler.{handle_structured_event}
use mariadb_mysql_cdc.Stream.Transaction.{event_can_write_target}
use mariadb_mysql_cdc.Stream.Contract.{Contract}
use mariadb_mysql_cdc.Stream.Transaction.Handled.{
  IsPlain, ends_transaction, IsHandled, IsRefused, structured-IsHandled, structured-IsRefused,
  applied_needs_write, row_event, commit_event,
}

module _ {W : Type 0} {t : Target W} {p : Policies} (k : Contract t p) where
  module _ (header : EventHeader) (event : BinlogEvent) (c : Context W) where
    -- An accepted event leaves the session's content with the row event that it reports.
    pub handle-IsHandled :
        IsPlain p event
        → (event_can_write_target p c.state event ≡ true → k.active c.world ≡ true)
        → (outcome : StructuredEventOutcome)
        → (handle_structured_event t p header event c).0 ≡ ok outcome
        → IsHandled k event c (handle_structured_event t p header event c).1 outcome.policy
    unfolding handle_structured_event
    handle-IsHandled n m outcome h =
        let at = event_coordinate c.current_file header event c.state.current_event_position in
        ground (arith, structured-IsHandled k at c event n m outcome.policy)

    pub handle-IsRefused :
        IsPlain p event
        → (event_can_write_target p c.state event ≡ true → k.active c.world ≡ true)
        → IsRefused k c (handle_structured_event t p header event c).1
    unfolding handle_structured_event
    handle-IsRefused n m =
        let at = event_coordinate c.current_file header event c.state.current_event_position in
        ground (arith, structured-IsRefused k at c event n m)

    -- A row event is reported as applied only where the transaction was begun for it.
    pub handle_needs_write :
        (outcome : StructuredEventOutcome)
        → (handle_structured_event t p header event c).0 ≡ ok outcome
        → outcome.policy ≡ apply_rows
        → event_can_write_target p c.state event ≡ true
    unfolding handle_structured_event
    handle_needs_write outcome h e =
        let at = event_coordinate c.current_file header event c.state.current_event_position in
        ground (arith, applied_needs_write k at c event)

    -- Only a commit or a query ends a source transaction, so it has a coordinate to resume from.
    pub handle_commit_resumes :
        (outcome : StructuredEventOutcome)
        → (handle_structured_event t p header event c).0 ≡ ok outcome
        → outcome.policy ≡ commit_transaction
        → (ends_transaction event ≡ true → 0 < header.next_event_position)
        → is_some outcome.resume_coordinate ≡ true
    unfolding handle_structured_event resume_coordinate
    handle_commit_resumes outcome h e n =
        let at = event_coordinate c.current_file header event c.state.current_event_position in
        ground (arith, commit_event k at c event)

    -- A row event is reported as applied for a row event only, and a commit always as a commit.
    pub handle_row_event :
        (outcome : StructuredEventOutcome)
        → (handle_structured_event t p header event c).0 ≡ ok outcome
        → outcome.policy ≡ apply_rows
        → is_row_event event ≡ true
    unfolding handle_structured_event
    handle_row_event outcome h e =
        let at = event_coordinate c.current_file header event c.state.current_event_position in
        ground (arith, row_event k at c event)
