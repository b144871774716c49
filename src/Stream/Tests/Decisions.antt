-- ===== src/Stream/Tests/Decisions.antt =====
-- The decisions on single events at examples: src/live/structured_stream/event.rs,
-- src/live/structured_stream/rows.rs and src/live/structured_stream.rs.
use mariadb_mysql_cdc.Prelude.{
  codes, true, false, some, ◌≡◌, ◌≢◌, ◌⊎◌, List, [], ◌∷◌, ◌↔◌, ◌<◌, refl, arith, ◌=?◌, remove_set,
}
use mariadb_mysql_cdc.Stream.Types.{
  QueryEvent, BinlogEvent, query, table_map, ignore, apply_rows, apply_table_map, statement,
  statement_dml, ApplyBinlogError, raw,
}
use mariadb_mysql_cdc.Stream.Exec.{ok, err}
use mariadb_mysql_cdc.Stream.Event.{
  dispatch_and_stop, stop_position_decision, should_apply_schema, apply_table_id,
}
use mariadb_mysql_cdc.Stream.Event.Stop.{stop_position-stops, stop_position-refuses}
use mariadb_mysql_cdc.Stream.Loop.{Fetched, fetched, broken, read_ahead}
use mariadb_mysql_cdc.Stream.Loop.Positions.{IsLocated, read_ahead-IsLocated}
use mariadb_mysql_cdc.Stream.Checkpoints.{binlog_coordinate_is_before}
use mariadb_mysql_cdc.Stream.Barrier.{
  JournalBarrier, blocked, enforce_no_overtake, enforce_no_overtake-before,
}
use mariadb_mysql_cdc.Stream.Target.{Policies}
use mariadb_mysql_cdc.Stream.Handler.{
  apply_rows_event, apply_table_map_event, query_event_precheck, apply_structured_event,
}
use mariadb_mysql_cdc.Stream.Handler.Routing.{
  MayTouch, unwritten_event-world, data_changing_statement-refused, foreign_table_map-ignores,
  own_table_map-applies,
}
use mariadb_mysql_cdc.Stream.Transaction.{event_can_write_target}
use mariadb_mysql_cdc.Stream.Session.{session, policies}
use mariadb_mysql_cdc.Stream.Tests.{file, head, insert_of}
use mariadb_mysql_cdc.Stream.Tests.Group.{at, grouped}

stop_position-stops_example :
    (stop_position_decision (some 50) (head 50) true ≡ ok dispatch_and_stop)
    ↔ (((head 50).next_event_position ≡ 50) × (0 < 50))
stop_position-stops_example = stop_position-stops 50 (head 50) true

stop_position-refuses_example :
    ((x : ApplyBinlogError) × (stop_position_decision (some 50) (head 55) false ≡ err x))
    ↔ (50 < 55)
stop_position-refuses_example = stop_position-refuses 50 (head 55) false

-- A table map, two row events after it, and an error of the source.
abbrev fetched_rows : List Fetched
fetched_rows =
    fetched (head 40) (table_map 7 (codes "shop") (codes "t"))
    ∷ fetched (head 50) (insert_of (codes "a"))
    ∷ fetched (head 60) (insert_of (codes "b"))
    ∷ broken (raw (codes "lost"))
    ∷ []

read_ahead-IsLocated_example : IsLocated file (read_ahead 4 fetched_rows)
read_ahead-IsLocated_example =
    read_ahead-IsLocated file 4 fetched_rows
      (tt, ((40, refl, ground arith, refl), ((50, refl, ground arith, refl), tt)))

abbrev foreign_begin : BinlogEvent
foreign_begin =
    query (record { database_name = codes "other"; sql_statement = codes "DROP TABLE t" })

foreign_unwritten : event_can_write_target policies grouped.state foreign_begin ≡ false
unfolding event_can_write_target should_apply_schema ◌=?◌
foreign_unwritten = refl

unwritten_event-world_example :
    (apply_structured_event session policies (at 50) foreign_begin grouped).1.world ≡ grouped.world
unwritten_event-world_example =
    unwritten_event-world session policies (at 50) foreign_begin grouped refl foreign_unwritten

-- The policies with every statement taken for one that changes data.
abbrev strict : Policies
strict = record policies { is_data_changing_statement = λ _. true }

-- A statement with no default database.
abbrev insert_statement : QueryEvent
insert_statement = record {
  database_name = [];
  sql_statement = codes "INSERT INTO shop.t VALUES (1)";
}

data_changing_statement-refused_example :
    let refusal = statement (statement_dml insert_statement.sql_statement) in
    let (result, c') =
      apply_structured_event session strict (at 50) (query insert_statement) grouped in
    (((query_event_precheck session strict insert_statement grouped).0 ≡ err refusal)
      ↔ ((true ≡ true) × MayTouch strict grouped.state.source_database insert_statement))
    × (((query_event_precheck session strict insert_statement grouped).0 ≢ err refusal)
        ⊎ ((result ≡ err refusal)
            × (c'.world ≡ grouped.world)
            × (c'.state.pending_intvars ≡ [])
            × (c'.state.pending_uservars ≡ [])))
data_changing_statement-refused_example =
    data_changing_statement-refused session strict (at 50) insert_statement grouped

other_schema : should_apply_schema grouped.state (codes "other") ≡ false
unfolding should_apply_schema ◌=?◌
other_schema = refl

foreign_table_map-ignores_example :
    let c' =
      (apply_structured_event session policies
        (at 50)
        (table_map 7 (codes "other") (codes "t"))
        grouped).1 in
    apply_rows_event session policies
      (at 60)
      (insert_of (codes "a"))
      (record { table_id = 7; rows = codes "a" })
      c'
    ≡ (ok ignore, c')
foreign_table_map-ignores_example =
    foreign_table_map-ignores session policies (at 50) (at 60) 7 (codes "other") (codes "t")
      (codes "a") (insert_of (codes "a")) grouped other_schema

own_database : should_apply_schema grouped.state (codes "shop") ≡ true
unfolding should_apply_schema ◌=?◌
own_database = refl

own_mapped :
    (apply_structured_event session policies
      (at 50)
      (table_map 7 (codes "shop") (codes "t"))
      grouped).0
    ≡ ok apply_table_map
unfolding apply_structured_event apply_table_map_event should_apply_schema apply_table_id remove_set
    ◌=?◌
own_mapped = refl

own_table_map-applies_example :
    let c' =
      (apply_structured_event session policies
        (at 50)
        (table_map 7 (codes "shop") (codes "t"))
        grouped).1 in
    let (result, d) =
      apply_rows_event session policies
        (at 60)
        (insert_of (codes "a"))
        (record { table_id = 7; rows = codes "a" })
        c' in
    (d.world ≡ (session.apply_rows (at 60) (insert_of (codes "a")) c'.world).1)
    × ((result ≡ ok apply_rows)
        ↔ ((session.apply_rows (at 60) (insert_of (codes "a")) c'.world).0 ≡ ok tt))
own_table_map-applies_example =
    own_table_map-applies session policies (at 50) (at 60) 7 (codes "shop") (codes "t") (codes "a")
      (insert_of (codes "a")) grouped own_database own_mapped

abbrev unresolved : JournalBarrier
unresolved = record { coordinate = at 50; status = blocked }

enforce_no_overtake-before_example :
    ((x : ApplyBinlogError) × (enforce_no_overtake (some unresolved) (at 60) ≡ err x))
    ↔ (binlog_coordinate_is_before (at 50) (at 60) ≡ true)
enforce_no_overtake-before_example = enforce_no_overtake-before unresolved (at 60)
