-- ===== src/Stream/Transaction/Handled.antt =====
-- The event handler leaves the durable content and the target transaction alone, and adds to the
-- session's content the row event that it reports as applied.
pub mod Reported
use mariadb_mysql_cdc.Prelude.{
  ℕ, ◌<◌, Name, Bool, true, false, ◌≡◌, refl, ◌⊎◌, inl, inr, is_some, List, [], ◌∷◌, ◌++◌, arith,
}
use mathlib.Core.List.{append-nil}
use mariadb_mysql_cdc.Stream.Types.{
  BinlogCoordinate, EventHeader, RowsEvent, QueryEvent, BinlogEvent, write_rows, update_rows,
  delete_rows, query, xid, table_map, EventPolicy, apply_rows, commit_transaction,
  StructuredEventOutcome,
}
use mariadb_mysql_cdc.Stream.Exec.{ok}
use mariadb_mysql_cdc.Stream.Event.{
  is_row_event, PendingIntVar, is_ignored_table_id, event_coordinate, resume_coordinate,
}
use mariadb_mysql_cdc.Stream.Target.{Target, Policies}
use mariadb_mysql_cdc.Stream.Context.{Context}
use mariadb_mysql_cdc.Stream.Handler.{
  apply_table_map_event, apply_rows_event, query_event_precheck, apply_intvar, apply_intvars,
  apply_query_context, apply_query_statement, apply_structured_event, handle_structured_event,
}
use mariadb_mysql_cdc.Stream.Transaction.{event_can_write_target}
use mariadb_mysql_cdc.Stream.Contract.{Contract}
use mariadb_mysql_cdc.Stream.Transaction.Trace.{rows_of}

-- No schema change: those go to the DDL path before they reach the grouped transaction.
abbrev pub IsPlain : Policies → BinlogEvent → Type 0
IsPlain p (query q) = p.is_schema_changing_statement q.sql_statement ≡ false
IsPlain p _ = Unit

-- The events that may end a source transaction.
abbrev pub ends_transaction : BinlogEvent → Bool
ends_transaction xid = true
ends_transaction (query _) = true
ends_transaction _ = false

module _ {W : Type 0} {t : Target W} {p : Policies} (k : Contract t p) where
  -- From one context to another, the session's content as it was.
  pub record IsQuiet (c c' : Context W) : Type 0 where
    pub transaction : c'.transaction ≡ c.transaction
    pub durable : k.durable c'.world ≡ k.durable c.world
    pub active : k.active c.world ≡ true → k.active c'.world ≡ true
    pub applied : (k.working c'.world).applied ≡ (k.working c.world).applied

  apply_intvar-IsQuiet : (v : PendingIntVar) (c : Context W) → IsQuiet c (apply_intvar t p v c).1
  unfolding apply_intvar
  apply_intvar-IsQuiet v c = ground (
    arith,
    k.insert_id_durable v.value c.world,
    k.insert_id_active v.value c.world,
    k.insert_id_working v.value c.world,
  )

  IsQuiet-refl : (c : Context W) → IsQuiet c c
  IsQuiet-refl c = record { transaction = refl; durable = refl; active = λ a. a; applied = refl }

  apply_intvars-IsQuiet :
      (vs : List PendingIntVar) (c : Context W) → IsQuiet c (apply_intvars t p vs c).1
  unfolding apply_intvars
  apply_intvars-IsQuiet [] c = IsQuiet-refl c
  apply_intvars-IsQuiet (v ∷ vs) c =
      ground (arith, apply_intvar-IsQuiet v c, apply_intvars-IsQuiet vs (apply_intvar t p v c).1)

  apply_query_context-IsQuiet : (c : Context W) → IsQuiet c (apply_query_context t p c).1
  unfolding apply_query_context
  apply_query_context-IsQuiet c = ground (arith, apply_intvars-IsQuiet c.state.pending_intvars c)

  precheck-IsQuiet : (q : QueryEvent) (c : Context W) → IsQuiet c (query_event_precheck t p q c).1
  unfolding query_event_precheck
  precheck-IsQuiet q c = ground arith

  module _ (q : QueryEvent) (plain : p.is_schema_changing_statement q.sql_statement ≡ false) where
    statement-IsQuiet :
        (at : BinlogCoordinate) (c : Context W)
        → k.active c.world ≡ true
        → IsQuiet c (apply_query_statement t p at q c).1
    unfolding apply_query_statement
    statement-IsQuiet at c a = ground (
      arith,
      k.statement_durable at q c.world a plain,
      k.statement_active at q c.world a plain,
      k.statement_working at q c.world plain,
    )

    -- A statement is looked at only inside a transaction, and no row event is reported.
    query-IsQuiet :
        (at : BinlogCoordinate) (c : Context W)
        → (event_can_write_target p c.state (query q) ≡ true → k.active c.world ≡ true)
        → IsQuiet c (apply_structured_event t p at (query q) c).1
    unfolding apply_structured_event query_event_precheck event_can_write_target
    query-IsQuiet at c a =
        ground
          (arith, apply_query_context-IsQuiet c, statement-IsQuiet at (apply_query_context t p c).1)

    query_policy :
        (at : BinlogCoordinate) (c : Context W) {policy : EventPolicy}
        → (apply_structured_event t p at (query q) c).0 ≡ ok policy
        → rows_of (query q) policy ≡ []
    unfolding apply_structured_event query_event_precheck apply_query_statement
    query_policy at c h = ground arith

  -- What a handled event leaves, by its result.
  pub record IsHandled (event : BinlogEvent) (c c' : Context W) (policy : EventPolicy)
      : Type 0 where
    pub transaction : c'.transaction ≡ c.transaction
    pub durable : k.durable c'.world ≡ k.durable c.world
    pub active : k.active c.world ≡ true → k.active c'.world ≡ true
    pub applied : (k.working c'.world).applied ≡ (k.working c.world).applied ++ rows_of event policy

  pub record IsRefused (c c' : Context W) : Type 0 where
    pub transaction : c'.transaction ≡ c.transaction
    pub durable : k.durable c'.world ≡ k.durable c.world

  rows-IsHandled :
      (at : BinlogCoordinate) (event : BinlogEvent) (r : RowsEvent) (c : Context W)
      → (is_ignored_table_id c.state r.table_id ≡ false → k.active c.world ≡ true)
      → {policy : EventPolicy} → (apply_rows_event t p at event r c).0 ≡ ok policy
      → IsHandled event c (apply_rows_event t p at event r c).1 policy
  unfolding apply_rows_event
  rows-IsHandled at event r c a h = ground (
    arith,
    k.rows_durable at event c.world,
    k.rows_active at event c.world,
    k.rows_working at event c.world,
    append-nil (k.working c.world).applied,
  )

  rows-IsRefused :
      (at : BinlogCoordinate) (event : BinlogEvent) (r : RowsEvent) (c : Context W)
      → (is_ignored_table_id c.state r.table_id ≡ false → k.active c.world ≡ true)
      → IsRefused c (apply_rows_event t p at event r c).1
  unfolding apply_rows_event
  rows-IsRefused at event r c a = ground (arith, k.rows_durable at event c.world)

  table_map-IsQuiet :
      (at : BinlogCoordinate) (id : ℕ) (a b : Name) (c : Context W)
      → IsQuiet c (apply_table_map_event t p at id a b c).1
  unfolding apply_table_map_event
  table_map-IsQuiet at id a b c = ground (
    arith,
    k.map_durable at id a b c.world,
    k.map_active at id a b c.world,
    k.map_working at id a b c.world,
  )

  table_map_policy :
      (at : BinlogCoordinate) (id : ℕ) (a b : Name) (c : Context W) (event : BinlogEvent)
      {policy : EventPolicy}
      → (apply_table_map_event t p at id a b c).0 ≡ ok policy
      → rows_of event policy ≡ []
  unfolding apply_table_map_event
  table_map_policy at id a b c event h = ground arith

  quiet-IsHandled :
      (event : BinlogEvent) (c c' : Context W) (policy : EventPolicy)
      → IsQuiet c c'
      → rows_of event policy ≡ []
      → IsHandled event c c' policy
  quiet-IsHandled event c c' policy q e = ground (arith, append-nil (k.working c.world).applied)

  module _ (at : BinlogCoordinate) (c : Context W) where
    abbrev MayWrite : BinlogEvent → Type 0
    MayWrite event = event_can_write_target p c.state event ≡ true → k.active c.world ≡ true

    pub structured-IsHandled :
        (event : BinlogEvent)
        → IsPlain p event
        → MayWrite event
        → (policy : EventPolicy) → (apply_structured_event t p at event c).0 ≡ ok policy
        → IsHandled event c (apply_structured_event t p at event c).1 policy
    unfolding apply_structured_event event_can_write_target
    structured-IsHandled (table_map id a b) n m policy h =
        quiet-IsHandled (table_map id a b) c _ _ (table_map-IsQuiet at id a b c)
          (table_map_policy at id a b c _ h)
    structured-IsHandled (write_rows r) n m policy h =
        rows-IsHandled at (write_rows r) r c (λ e. m (rw e)) h
    structured-IsHandled (update_rows r) n m policy h =
        rows-IsHandled at (update_rows r) r c (λ e. m (rw e)) h
    structured-IsHandled (delete_rows r) n m policy h =
        rows-IsHandled at (delete_rows r) r c (λ e. m (rw e)) h
    structured-IsHandled (query q) n m policy h =
        quiet-IsHandled (query q) c _ _ (query-IsQuiet q n at c m) (query_policy q n at c h)
    structured-IsHandled event n m policy h = ground (arith, append-nil (k.working c.world).applied)

    pub structured-IsRefused :
        (event : BinlogEvent)
        → IsPlain p event
        → MayWrite event
        → IsRefused c (apply_structured_event t p at event c).1
    unfolding apply_structured_event event_can_write_target
    structured-IsRefused (table_map id a b) n m = ground (arith, table_map-IsQuiet at id a b c)
    structured-IsRefused (write_rows r) n m = rows-IsRefused at (write_rows r) r c (λ e. m (rw e))
    structured-IsRefused (update_rows r) n m = rows-IsRefused at (update_rows r) r c (λ e. m (rw e))
    structured-IsRefused (delete_rows r) n m = rows-IsRefused at (delete_rows r) r c (λ e. m (rw e))
    structured-IsRefused (query q) n m = ground (arith, query-IsQuiet q n at c m)
    structured-IsRefused event n m = ground arith

    pub applied_needs_write :
        (event : BinlogEvent)
        → (apply_structured_event t p at event c).0 ≡ ok apply_rows
        → event_can_write_target p c.state event ≡ true
    unfolding apply_structured_event event_can_write_target apply_query_statement
    applied_needs_write (table_map id a b) h = cc (table_map_policy at id a b c xid h)
    applied_needs_write event h = ground arith

    pub row_event :
        (event : BinlogEvent)
        → (apply_structured_event t p at event c).0 ≡ ok apply_rows
        → is_row_event event ≡ true
    unfolding apply_structured_event apply_query_statement
    row_event (table_map id a b) h = cc (table_map_policy at id a b c xid h)
    row_event event h = ground arith

    pub commit_event :
        (event : BinlogEvent)
        → (apply_structured_event t p at event c).0 ≡ ok commit_transaction
        → (event ≡ xid) ⊎ ((q : QueryEvent) × (event ≡ query q))
    unfolding apply_structured_event apply_rows_event apply_table_map_event
    commit_event xid h = inl refl
    commit_event (query q) h = inr (q, refl)
    commit_event event h = absurd (ground arith)
