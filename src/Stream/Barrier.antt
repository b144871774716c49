-- ===== src/Stream/Barrier.antt =====
-- The barrier of an unresolved DDL (src/live/ddl_replay_journal.rs).
use mariadb_mysql_cdc.Prelude.{
  Name, codes, Bool, true, false, Option, none, some, ltb, if◌then◌else◌, ◌≡◌, ◌↔◌, arith, cmp_name,
  eq_of_cmp_name, cmp_name_refl, name_ord, =?_iff,
}
use Prim.Native.Nat.Ordering.{lt, eq, gt}
use mariadb_mysql_cdc.Stream.Types.{BinlogCoordinate, ApplyBinlogError, statement, ddl_barrier}
use mariadb_mysql_cdc.Stream.Exec.{Result, ok, err}
use mariadb_mysql_cdc.Stream.Checkpoints.{binlog_coordinate_is_before}
use mariadb_mysql_cdc.Stream.Checkpoints.Advance.{cmp_name_flip, cmp_name_flip_lt}

pub data DdlReplayStatus : Type 0 where
  translation_pending prepared applied checkpointed blocked : DdlReplayStatus

unfoldable pub as_str : DdlReplayStatus → Name
as_str translation_pending = codes "translation_pending"
as_str prepared = codes "prepared"
as_str applied = codes "applied"
as_str checkpointed = codes "checkpointed"
as_str blocked = codes "blocked"

pub record JournalBarrier : Type 0 where
  pub coordinate : BinlogCoordinate
  pub status : DdlReplayStatus

-- Pairs of a file and a position compare in this order.
abbrev pub is_after : BinlogCoordinate → BinlogCoordinate → Bool
is_after next barrier = elim (cmp_name next.file barrier.file) [
  | lt ↦ false
  | eq ↦ ltb barrier.position next.position
  | gt ↦ true
]

unfoldable pub enforce_no_overtake : Option JournalBarrier → BinlogCoordinate → Result (Unit {0})
enforce_no_overtake none next = ok tt
enforce_no_overtake (some barrier) next =
    if is_after next barrier.coordinate
    then err (statement (ddl_barrier barrier.coordinate (as_str barrier.status) next))
    else ok tt

is_after-eq :
    (next barrier : BinlogCoordinate)
    → is_after next barrier ≡ binlog_coordinate_is_before barrier next
unfolding binlog_coordinate_is_before
is_after-eq next barrier = ground (
  arith,
  cmp_name_flip next.file barrier.file,
  cmp_name_flip_lt next.file barrier.file,
  eq_of_cmp_name next.file barrier.file,
  =?_iff barrier.file next.file,
  cmp_name_refl next.file,
)

-- A start is refused exactly where the unresolved DDL is before it in the order of checkpoints.
pub enforce_no_overtake-before :
    (barrier : JournalBarrier) (next : BinlogCoordinate)
    → ((x : ApplyBinlogError) × (enforce_no_overtake (some barrier) next ≡ err x))
      ↔ (binlog_coordinate_is_before barrier.coordinate next ≡ true)
unfolding enforce_no_overtake
enforce_no_overtake-before barrier next =
    let same = is_after-eq next barrier.coordinate in
    let refusal = statement (ddl_barrier barrier.coordinate (as_str barrier.status) next) in
    (λ (x, e). ground (arith, same), λ b. (refusal, ground (arith, same)))
