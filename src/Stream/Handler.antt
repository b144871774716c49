-- ===== src/Stream/Handler.antt =====
-- The event handler (src/live/structured_stream/event.rs, src/live/structured_stream/rows.rs).
pub mod Routing
use mariadb_mysql_cdc.Prelude.{
  ℕ, Name, Bool, true, false, ◌&&◌, ◌||◌, Option, none, some, List, [], ◌∷◌, ◌==◌, if◌then◌else◌,
  ◌=?◌, name_ord,
}
use mariadb_mysql_cdc.Stream.Types.{
  BinlogCoordinate, EventHeader, RowsEvent, QueryEvent, BinlogEvent, delete_rows, update_rows,
  write_rows, xid, int_var, user_var, query, table_map, rotate, rows_query, other, EventPolicy,
  ignore, ignore_annotation, apply_table_map, apply_rows, commit_transaction,
  StructuredEventOutcome, statement, statement_dml, qualified_identifier, user_variables,
  unsupported_intvar,
}
use mariadb_mysql_cdc.Stream.Exec.{Exec, pure, raise, modify, ◌>>=◌, ◌>>◌}
use mariadb_mysql_cdc.Stream.Event.{
  StructuredEventState, PendingIntVar, should_apply_schema, ignore_table_id, apply_table_id,
  is_ignored_table_id, record_intvar, record_uservar, clear_query_context, resume_coordinate,
  event_coordinate,
}
use mariadb_mysql_cdc.Stream.Target.{Target, Policies}
use mariadb_mysql_cdc.Stream.Context.{Context, in_world, call}

module _ {W : Type 0} (t : Target W) (p : Policies) where
  abbrev update_state : (StructuredEventState → StructuredEventState) → Exec (Context W) (Unit {0})
  update_state f = modify (λ c. record c { state = f c.state })

  abbrev keep_mapped : ℕ → Bool → Exec (Context W) EventPolicy
  keep_mapped id true = pure apply_table_map
  keep_mapped id false = do update_state (ignore_table_id id); pure ignore

  -- A table map of another schema, or one whose shape cannot be mapped, is ignored.
  unfoldable pub apply_table_map_event :
      BinlogCoordinate → ℕ → Name → Name → Exec (Context W) EventPolicy
  unfolding should_apply_schema
  apply_table_map_event coordinate id database name c =
      (if should_apply_schema c.state database
          then (do
            update_state (apply_table_id id)
            mapped ← in_world (t.map_table coordinate id database name)
            keep_mapped id mapped)
          else (do update_state (ignore_table_id id); pure ignore))
        c

  -- The three row events differ in the image that the applier is given.
  unfoldable pub apply_rows_event :
      BinlogCoordinate → BinlogEvent → RowsEvent → Exec (Context W) EventPolicy
  apply_rows_event coordinate event rows c =
      (if is_ignored_table_id c.state rows.table_id
          then pure ignore
          else (do in_world (t.apply_rows coordinate event); pure apply_rows))
        c

  unfoldable pub query_references_source_schema : StructuredEventState → Name → Bool
  query_references_source_schema s sql = elim s.source_database [
    | none ↦ false
    | some schema ↦ p.query_references_schema sql schema
  ]

  -- A policy that settles the event before its statement is looked at.
  unfoldable pub query_event_precheck : QueryEvent → Exec (Context W) (Option EventPolicy)
  unfolding query_references_source_schema
  query_event_precheck q c =
      let may_target_source_schema =
        should_apply_schema c.state q.database_name
        || (q.database_name =? [])
        || query_references_source_schema c.state q.sql_statement in
      (if p.is_data_changing_statement q.sql_statement && may_target_source_schema
          then (do
            update_state clear_query_context
            raise (statement (statement_dml q.sql_statement)))
          else if should_apply_schema c.state q.database_name
          then (if p.is_transaction_control_query q.sql_statement
              then (do update_state clear_query_context; pure (some ignore))
              else pure none)
          else (do update_state clear_query_context; pure (some ignore)))
        c

  unfoldable pub apply_intvar : PendingIntVar → Exec (Context W) (Unit {0})
  apply_intvar v =
      if v.intvar_type == 2
      then call (t.set_insert_id v.value)
      else raise (statement (unsupported_intvar v.intvar_type))

  unfoldable pub apply_intvars : List PendingIntVar → Exec (Context W) (Unit {0})
  unfolding apply_intvar
  apply_intvars [] = pure tt
  apply_intvars (v ∷ vs) = apply_intvar v >> apply_intvars vs

  unfoldable pub apply_query_context : Exec (Context W) (Unit {0})
  unfolding apply_intvars
  apply_query_context c = elim c.state.pending_uservars [
    | [] ↦ apply_intvars c.state.pending_intvars c
    | _ ∷ _ ↦ raise (statement user_variables) c
  ]

  -- A failed context leaves the pending variables; a failed statement clears them.
  unfoldable pub apply_query_statement :
      BinlogCoordinate → QueryEvent → Exec (Context W) EventPolicy
  apply_query_statement coordinate q c =
      let (result, c') = in_world (t.apply_statement coordinate q) c in
      (do (λ s. (result, s)); pure commit_transaction)
        (record c' { state = clear_query_context c'.state })

  unfoldable pub apply_query_event : BinlogCoordinate → QueryEvent → Exec (Context W) EventPolicy
  unfolding query_event_precheck apply_query_context apply_query_statement
  apply_query_event coordinate q = do
    settled ← query_event_precheck q
    elim settled [
      | some policy ↦ pure policy
      | none ↦
          if p.query_contains_qualified_identifier q.sql_statement
          then raise (statement (qualified_identifier q.sql_statement))
          else (do apply_query_context; apply_query_statement coordinate q)
    ]

  -- The schema is read anew after a statement that changed it.
  unfoldable pub invalidate_after : EventPolicy → QueryEvent → Exec (Context W) EventPolicy
  invalidate_after commit_transaction q c =
      if p.is_schema_changing_statement q.sql_statement
      then (pure commit_transaction
          (record c { world = t.invalidate_schema q.database_name c.world }))
      else pure commit_transaction c
  invalidate_after policy q c = pure policy c

  unfoldable pub apply_structured_event :
      BinlogCoordinate → BinlogEvent → Exec (Context W) EventPolicy
  unfolding apply_table_map_event apply_rows_event apply_query_event invalidate_after
  apply_structured_event coordinate (table_map id database name) =
      apply_table_map_event coordinate id database name
  apply_structured_event coordinate (write_rows rows) =
      apply_rows_event coordinate (write_rows rows) rows
  apply_structured_event coordinate (update_rows rows) =
      apply_rows_event coordinate (update_rows rows) rows
  apply_structured_event coordinate (delete_rows rows) =
      apply_rows_event coordinate (delete_rows rows) rows
  apply_structured_event coordinate xid = pure commit_transaction
  apply_structured_event coordinate (int_var intvar_type value) = do
    update_state (record_intvar intvar_type value)
    pure ignore
  apply_structured_event coordinate (user_var name) = do
    update_state (record_uservar name)
    pure ignore
  apply_structured_event coordinate (query q) = do
    policy ← apply_query_event coordinate q
    invalidate_after policy q
  apply_structured_event coordinate rows_query = pure ignore_annotation
  apply_structured_event coordinate (rotate _ _) = pure ignore
  apply_structured_event coordinate (other _) = pure ignore

  unfoldable pub handle_structured_event :
      EventHeader → BinlogEvent → Exec (Context W) StructuredEventOutcome
  handle_structured_event header event c =
      let file = c.current_file in
      (do
        policy ←
            apply_structured_event
              (event_coordinate file header event c.state.current_event_position) event
        pure (record { policy = policy; resume_coordinate = resume_coordinate file header event }))
        c
