-- ===== src/Stream/Checkpoints.antt =====
-- Saving a coordinate in the checkpoint store (src/live/reconnect.rs) and in the open target
-- transaction (src/live/structured_stream/ddl.rs).
pub mod Advance
use mariadb_mysql_cdc.Prelude.{
  Name, Bool, true, false, ◌&&◌, ◌||◌, Option, none, some, ltb, leb, ◌==◌, if◌then◌else◌, ◌=?◌,
  name_ord, cmp_name,
}
use Prim.Native.Nat.Ordering.{lt}
use mariadb_mysql_cdc.Stream.Types.{
  BinlogCoordinate, Checkpoint, coordinate_of, structured_event, checkpoint, checkpoint_disappeared,
  checkpoint_regression,
}
use mariadb_mysql_cdc.Stream.Exec.{Result, ok, err, Exec, pure, raise, ◌>>=◌, ◌>>◌}
use mariadb_mysql_cdc.Stream.Target.{Target}
use mariadb_mysql_cdc.Stream.Context.{Context, call}

unfoldable pub coordinate_checkpoint : BinlogCoordinate → Name → Checkpoint
coordinate_checkpoint coordinate event_type = record {
  source_file = coordinate.file;
  source_position = coordinate.position;
  gtid = none;
  event_timestamp = 0;
  last_event = record { event_type = event_type; description = structured_event coordinate };
}

-- Strings compare by their bytes.
abbrev pub name_lt : Name → Name → Bool
name_lt a b = elim (cmp_name a b) [ lt ↦ true | _ ↦ false ]

unfoldable pub binlog_coordinate_is_before : BinlogCoordinate → BinlogCoordinate → Bool
binlog_coordinate_is_before left right =
    name_lt left.file right.file || ((left.file =? right.file) && ltb left.position right.position)

unfoldable pub ensure_coordinate_advances : Option Checkpoint → BinlogCoordinate → Result (Unit {0})
ensure_coordinate_advances none next = ok tt
ensure_coordinate_advances (some current) next =
    if binlog_coordinate_is_before next (coordinate_of current)
    then err (checkpoint (checkpoint_regression (coordinate_of current) next))
    else ok tt

-- The current checkpoint decides whether a candidate is new.
abbrev pub skips : Option Checkpoint → Checkpoint → Bool
skips none candidate = false
skips (some current) candidate =
    (current.source_file =? candidate.source_file)
    && leb candidate.source_position current.source_position

abbrev pub required : {S : Type 0} → Name → Option Checkpoint → Exec S Checkpoint
required name none = raise (checkpoint (checkpoint_disappeared name))
required name (some current) = pure current

abbrev pub check : {S : Type 0} → Result (Unit {0}) → Exec S (Unit {0})
check r s = (r, s)

module _ {W : Type 0} (t : Target W) where
  unfoldable pub should_skip_checkpoint : Checkpoint → Exec W Bool
  should_skip_checkpoint candidate =
      if candidate.source_position == 0
      then pure true
      else (do current ← t.checkpoint_for_skip; pure (skips current candidate))

  unfoldable pub save_checkpoint_if_advanced : Bool → Checkpoint → Exec W (Unit {0})
  save_checkpoint_if_advanced has_store candidate =
      if has_store
      then (do
        skip ← should_skip_checkpoint candidate
        if skip then pure tt else t.save_checkpoint candidate)
      else pure tt

  unfoldable pub save_coordinate_checkpoint : Bool → BinlogCoordinate → Name → Exec W (Unit {0})
  save_coordinate_checkpoint has_store coordinate event_type =
      save_checkpoint_if_advanced has_store (coordinate_checkpoint coordinate event_type)

  -- Locks the checkpoint row, refuses to move it back, and writes it.
  unfoldable pub lock_validate_and_save_checkpoint :
      Name → Name → Checkpoint → Exec (Context W) (Unit {0})
  lock_validate_and_save_checkpoint table name candidate = do
    found ← call (t.load_transaction_checkpoint_for_update table name)
    current ← required name found
    check (ensure_coordinate_advances (some current) (coordinate_of candidate))
    call (t.save_transaction_checkpoint table name candidate)
