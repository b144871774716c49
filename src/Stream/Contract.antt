-- ===== src/Stream/Contract.antt =====
-- What the grouped transaction relies on: the documented behaviour of a MySQL session with a
-- transaction, as laws on two views of the world, what is durable and what the session sees.
use mariadb_mysql_cdc.Prelude.{
  ℕ, Name, Bool, true, false, Option, some, List, [], ◌∷◌, ◌++◌, ◌≡◌, ◌⊎◌,
}
use mariadb_mysql_cdc.Stream.Types.{BinlogCoordinate, Checkpoint, BinlogEvent, QueryEvent}
use mariadb_mysql_cdc.Stream.Exec.{ok}
use mariadb_mysql_cdc.Stream.Target.{Target, Policies, done}

-- The row events whose changes are in the target tables, oldest first, and the checkpoint row.
pub record Content : Type 0 where
  pub applied : List BinlogEvent
  pub stored : Option Checkpoint

abbrev pub store : Checkpoint → Content → Content
store c content = record content { stored = some c }

-- A call may fail after its effect: a lost acknowledgement.
pub record Contract {W : Type 0} (t : Target W) (p : Policies) : Type 0 where
  pub durable : W → Content
  pub working : W → Content
  -- A transaction is active in the session: without one, a change is durable at once.
  pub active : W → Bool
  pub begin_active :
      (w : W) → (t.begin_transaction w).0 ≡ done tt → active (t.begin_transaction w).1 ≡ true
  pub begin_durable : (w : W) → durable (t.begin_transaction w).1 ≡ durable w
  pub begin_working :
      (w : W) → (t.begin_transaction w).0 ≡ done tt → working (t.begin_transaction w).1 ≡ durable w
  pub load_durable :
      (a b : Name) (w : W) → durable (t.load_transaction_checkpoint_for_update a b w).1 ≡ durable w
  pub load_working :
      (a b : Name) (w : W) → working (t.load_transaction_checkpoint_for_update a b w).1 ≡ working w
  pub load_reads :
      (a b : Name) (w : W) (c : Option Checkpoint)
      → (t.load_transaction_checkpoint_for_update a b w).0 ≡ done c
      → c ≡ (working w).stored
  pub save_durable :
      (a b : Name) (c : Checkpoint) (w : W)
      → durable (t.save_transaction_checkpoint a b c w).1 ≡ durable w
  pub save_working :
      (a b : Name) (c : Checkpoint) (w : W)
      → (t.save_transaction_checkpoint a b c w).0 ≡ done tt
      → working (t.save_transaction_checkpoint a b c w).1 ≡ store c (working w)
  pub commit_done :
      (w : W)
      → (t.commit_transaction w).0 ≡ done tt
      → durable (t.commit_transaction w).1 ≡ working w
  pub commit_failed :
      (w : W)
      → (durable (t.commit_transaction w).1 ≡ durable w)
        ⊎ (durable (t.commit_transaction w).1 ≡ working w)
  pub rollback_durable : (w : W) → durable (t.rollback_transaction w).1 ≡ durable w
  pub insert_id_durable : (n : ℕ) (w : W) → durable (t.set_insert_id n w).1 ≡ durable w
  pub insert_id_active : (n : ℕ) (w : W) → active (t.set_insert_id n w).1 ≡ active w
  pub insert_id_working : (n : ℕ) (w : W) → working (t.set_insert_id n w).1 ≡ working w
  pub skip_durable : (w : W) → durable (t.checkpoint_for_skip w).1 ≡ durable w
  pub stored_done :
      (c : Checkpoint) (w : W)
      → (t.save_checkpoint c w).0 ≡ ok tt
      → durable (t.save_checkpoint c w).1 ≡ store c (durable w)
  pub stored_failed :
      (c : Checkpoint) (w : W)
      → (durable (t.save_checkpoint c w).1 ≡ durable w)
        ⊎ (durable (t.save_checkpoint c w).1 ≡ store c (durable w))
  pub map_durable :
      (at : BinlogCoordinate) (id : ℕ) (a b : Name) (w : W)
      → durable (t.map_table at id a b w).1 ≡ durable w
  pub map_active :
      (at : BinlogCoordinate) (id : ℕ) (a b : Name) (w : W)
      → active (t.map_table at id a b w).1 ≡ active w
  pub map_working :
      (at : BinlogCoordinate) (id : ℕ) (a b : Name) (w : W)
      → working (t.map_table at id a b w).1 ≡ working w
  pub rows_durable :
      (at : BinlogCoordinate) (e : BinlogEvent) (w : W)
      → active w ≡ true
      → durable (t.apply_rows at e w).1 ≡ durable w
  pub rows_active :
      (at : BinlogCoordinate) (e : BinlogEvent) (w : W)
      → active w ≡ true
      → active (t.apply_rows at e w).1 ≡ true
  pub rows_working :
      (at : BinlogCoordinate) (e : BinlogEvent) (w : W)
      → (t.apply_rows at e w).0 ≡ ok tt
      → (working (t.apply_rows at e w).1).applied ≡ (working w).applied ++ e ∷ []
  -- A schema change commits implicitly, so it goes to the DDL path and is left out here.
  pub statement_durable :
      (at : BinlogCoordinate) (q : QueryEvent) (w : W)
      → active w ≡ true
      → p.is_schema_changing_statement q.sql_statement ≡ false
      → durable (t.apply_statement at q w).1 ≡ durable w
  pub statement_active :
      (at : BinlogCoordinate) (q : QueryEvent) (w : W)
      → active w ≡ true
      → p.is_schema_changing_statement q.sql_statement ≡ false
      → active (t.apply_statement at q w).1 ≡ true
  pub statement_working :
      (at : BinlogCoordinate) (q : QueryEvent) (w : W)
      → p.is_schema_changing_statement q.sql_statement ≡ false
      → (working (t.apply_statement at q w).1).applied ≡ (working w).applied
