-- ===== src/Stream/Handler/Routing.antt =====
-- Which events reach the target (src/live/structured_stream/event.rs,
-- src/live/structured_stream/rows.rs, src/live/structured_stream/transaction.rs).
use mariadb_mysql_cdc.Prelude.{
  ℕ, Name, true, false, ◌||◌, ◌≡◌, ◌≢◌, ◌⊎◌, inl, inr, Option, none, some, [], Option-cases, ◌↔◌,
  arith, =?_iff, name_ord, nat_ord, contains-insert_set, contains-remove_set,
}
use mariadb_mysql_cdc.Stream.Types.{
  BinlogCoordinate, QueryEvent, BinlogEvent, write_rows, update_rows, delete_rows, query, table_map,
  ignore, apply_table_map, apply_rows, statement, statement_dml,
}
use mariadb_mysql_cdc.Stream.Exec.{ok, err}
use mariadb_mysql_cdc.Stream.Event.{
  should_apply_schema, is_ignored_table_id, is_row_event, ignore_table_id, apply_table_id,
  clear_query_context,
}
use mariadb_mysql_cdc.Stream.Target.{Target, Policies}
use mariadb_mysql_cdc.Stream.Context.{Context}
use mariadb_mysql_cdc.Stream.Handler.{
  apply_rows_event, apply_query_event, query_event_precheck, query_references_source_schema,
  apply_table_map_event, apply_structured_event,
}
use mariadb_mysql_cdc.Stream.Transaction.{event_can_write_target, is_query}

-- A query that may be about the source's database.
abbrev pub MayTouch : Policies → Option Name → QueryEvent → Type 0
MayTouch p source_database q =
    (source_database ≡ none)
    ⊎ (source_database ≡ some q.database_name)
    ⊎ (q.database_name ≡ [])
    ⊎ ((schema : Name) × (source_database ≡ some schema)
        × (p.query_references_schema q.sql_statement schema ≡ true))

module _ {W : Type 0} (t : Target W) (p : Policies) (at : BinlogCoordinate) where
  -- No transaction is begun for a row event or a query only where handling it, with any result,
  -- does not touch the target: nothing is written outside a transaction.
  pub unwritten_event-world :
      (e : BinlogEvent) (c : Context W)
      → is_row_event e || is_query e ≡ true
      → event_can_write_target p c.state e ≡ false
      → (apply_structured_event t p at e c).1.world ≡ c.world
  unfolding apply_structured_event event_can_write_target apply_rows_event apply_query_event
      query_event_precheck
  unwritten_event-world (write_rows r) c k n = ground arith
  unwritten_event-world (update_rows r) c k n = ground arith
  unwritten_event-world (delete_rows r) c k n = ground arith
  unwritten_event-world (query q) c k n = ground arith
  unwritten_event-world e c k n = ground arith

  -- The check on a query refuses it as a data change exactly where it changes data and its default
  -- database is the source's or empty, or its text references the source's, every database being the
  -- source's where none is named. The event is then that error, the target is left as it was, and
  -- the pending variables are dropped.
  pub data_changing_statement-refused :
      (q : QueryEvent) (c : Context W)
      → let refusal = statement (statement_dml q.sql_statement) in
        let (result, c') = apply_structured_event t p at (query q) c in
        (((query_event_precheck t p q c).0 ≡ err refusal) ↔ (
          (p.is_data_changing_statement q.sql_statement ≡ true)
          × MayTouch p c.state.source_database q))
        × (((query_event_precheck t p q c).0 ≢ err refusal)
            ⊎ ((result ≡ err refusal)
                × (c'.world ≡ c.world)
                × (c'.state.pending_intvars ≡ [])
                × (c'.state.pending_uservars ≡ [])))
  unfolding apply_structured_event apply_query_event query_event_precheck should_apply_schema
      query_references_source_schema clear_query_context
  data_changing_statement-refused q c = elim (Option-cases c.state.source_database) [
    | inl e ↦ ((λ h. ground arith, λ h. ground arith), ground arith)
    | inr (schema, e) ↦ (
      (
        λ h. ground (arith, =?_iff schema q.database_name, =?_iff q.database_name []),
        λ h. ground (arith, =?_iff schema q.database_name, =?_iff q.database_name []),
      ),
      ground arith,
    )
  ]

  foreign_ignored :
      (id : ℕ) (database name : Name) (c : Context W)
      → should_apply_schema c.state database ≡ false
      → is_ignored_table_id (apply_table_map_event t p at id database name c).1.state id ≡ true
  unfolding apply_table_map_event is_ignored_table_id ignore_table_id
  foreign_ignored id database name c s =
      ground (arith, contains-insert_set id id c.state.ignored_table_ids, =?_iff id id)

  own_applied :
      (id : ℕ) (database name : Name) (c : Context W)
      → should_apply_schema c.state database ≡ true
      → (apply_table_map_event t p at id database name c).0 ≡ ok apply_table_map
      → is_ignored_table_id (apply_table_map_event t p at id database name c).1.state id ≡ false
  unfolding apply_table_map_event is_ignored_table_id ignore_table_id apply_table_id
  own_applied id database name c s e =
      ground (arith, contains-remove_set id id c.state.ignored_table_ids, =?_iff id id)

  -- After the table map of another schema, the row events of its table id are ignored.
  pub foreign_table_map-ignores :
      (rows_at : BinlogCoordinate) (id : ℕ) (database name : Name) (rows : Name) (e : BinlogEvent)
      (c : Context W)
      → should_apply_schema c.state database ≡ false
      → let c' = (apply_structured_event t p at (table_map id database name) c).1 in
        apply_rows_event t p rows_at e (record { table_id = id; rows = rows }) c' ≡ (ok ignore, c')
  unfolding apply_structured_event apply_rows_event
  foreign_table_map-ignores rows_at id database name rows e c s =
      ground (arith, foreign_ignored id database name c s)

  -- After a table map of the source schema that the target can map, they are applied, whatever
  -- table the id named before: the applier's result is the event's.
  pub own_table_map-applies :
      (rows_at : BinlogCoordinate) (id : ℕ) (database name : Name) (rows : Name) (e : BinlogEvent)
      (c : Context W)
      → should_apply_schema c.state database ≡ true
      → (apply_structured_event t p at (table_map id database name) c).0 ≡ ok apply_table_map
      → let c' = (apply_structured_event t p at (table_map id database name) c).1 in
        let (result, d) =
          apply_rows_event t p rows_at e (record { table_id = id; rows = rows }) c' in
        (d.world ≡ (t.apply_rows rows_at e c'.world).1)
        × ((result ≡ ok apply_rows) ↔ ((t.apply_rows rows_at e c'.world).0 ≡ ok tt))
  unfolding apply_structured_event apply_rows_event
  own_table_map-applies rows_at id database name rows e c s o =
      let a = own_applied id database name c s o in
      (ground arith, (λ r. ground arith, λ r. ground arith))
