-- ===== src/Stream/Session.antt =====
-- A session that keeps the contract: an instance of the calls of the stream, for the tests. A row
-- event with an empty image is refused.
use mariadb_mysql_cdc.Prelude.{
  ℕ, Name, codes, Bool, true, false, [], ◌∷◌, ◌++◌, ◌≡◌, refl, inr, arith, if◌then◌else◌, ◌=?◌,
  name_ord,
}
use mariadb_mysql_cdc.Stream.Types.{BinlogEvent, write_rows, update_rows, delete_rows, target, raw}
use mariadb_mysql_cdc.Stream.Exec.{ok, err}
use mariadb_mysql_cdc.Stream.Target.{Target, Policies, done}
use mariadb_mysql_cdc.Stream.Contract.{Content, store, Contract}

pub record Session : Type 0 where
  pub durable : Content
  pub working : Content
  pub active : Bool
  pub clock : ℕ

abbrev change : (Content → Content) → Session → Session
change f s =
    if s.active
    then record s { working = f s.working }
    else record s { working = f s.working; durable = f s.durable }

abbrev append : BinlogEvent → Content → Content
append e content = record content { applied = content.applied ++ e ∷ [] }

abbrev image : BinlogEvent → Name
image (write_rows r) = r.rows
image (update_rows r) = r.rows
image (delete_rows r) = r.rows
image _ = []

abbrev pub session : Target Session
session = record {
  begin_transaction = λ s. (done tt, record s { working = s.durable; active = true });
  load_transaction_checkpoint_for_update = λ _ _ s. (done s.working.stored, s);
  save_transaction_checkpoint = λ _ _ c s. (done tt, record s { working = store c s.working });
  commit_transaction = λ s. (done tt, record s { durable = s.working; active = false });
  rollback_transaction = λ s. (done tt, record s { working = s.durable; active = false });
  set_insert_id = λ _ s. (done tt, s);
  load_checkpoint = λ s. (ok s.durable.stored, s);
  checkpoint_for_skip = λ s. (ok s.durable.stored, s);
  save_checkpoint = λ c s. (ok tt, record s { durable = store c s.durable });
  now = λ s. s.clock;
  map_table = λ _ _ _ _ s. (ok true, s);
  apply_rows =
      λ _ e s. if image e =? [] then (err (target (raw [])), s) else (ok tt, change (append e) s);
  apply_statement = λ _ _ s. (ok tt, s);
  invalidate_schema = λ _ s. s;
}

abbrev pub policies : Policies
policies = record {
  is_data_changing_statement = λ _. false;
  is_schema_changing_statement = λ _. false;
  is_transaction_control_query = λ sql. sql =? codes "BEGIN";
  query_references_schema = λ _ _. false;
  query_contains_qualified_identifier = λ _. false;
}

pub rows_quiet :
    (e : BinlogEvent) (s : Session)
    → s.active ≡ true
    → ((session.apply_rows (record { file = []; position = 0 }) e s).1.durable ≡ s.durable)
      × ((session.apply_rows (record { file = []; position = 0 }) e s).1.active ≡ true)
rows_quiet e s a = (ground arith, ground arith)

pub rows_appended :
    (e : BinlogEvent) (s : Session)
    → (session.apply_rows (record { file = []; position = 0 }) e s).0 ≡ ok tt
    → (session.apply_rows (record { file = []; position = 0 }) e s).1.working.applied
      ≡ s.working.applied ++ e ∷ []
rows_appended e s o = ground arith

unfoldable pub contract : Contract session policies
contract = record {
  durable = λ s. s.durable;
  working = λ s. s.working;
  active = λ s. s.active;
  begin_active = λ w _. refl;
  begin_durable = λ w. refl;
  begin_working = λ w _. refl;
  load_durable = λ a b w. refl;
  load_working = λ a b w. refl;
  load_reads = λ a b w c e. cc;
  save_durable = λ a b c w. refl;
  save_working = λ a b c w _. refl;
  commit_done = λ w _. refl;
  commit_failed = λ w. inr refl;
  rollback_durable = λ w. refl;
  insert_id_durable = λ n w. refl;
  insert_id_active = λ n w. refl;
  insert_id_working = λ n w. refl;
  skip_durable = λ w. refl;
  stored_done = λ c w _. refl;
  stored_failed = λ c w. inr refl;
  map_durable = λ at id a b w. refl;
  map_active = λ at id a b w. refl;
  map_working = λ at id a b w. refl;
  rows_durable = λ at e w a. (rows_quiet e w a).0;
  rows_active = λ at e w a. (rows_quiet e w a).1;
  rows_working = λ at e w o. rows_appended e w o;
  statement_durable = λ at q w a _. refl;
  statement_active = λ at q w a _. a;
  statement_working = λ at q w _. refl;
}
