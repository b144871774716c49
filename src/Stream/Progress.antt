-- ===== src/Stream/Progress.antt =====
-- The throttle of the progress log (src/live/progress.rs). Times are seconds.
use mariadb_mysql_cdc.Prelude.{
  ℕ, ◌+◌, ◌-◌, ◌<◌, ◌≤◌, Bool, true, false, ◌||◌, ◌&&◌, Option, none, some, leb, ◌==◌,
  if◌then◌else◌, List, [], ◌∷◌,
}
use mariadb_mysql_cdc.Stream.Types.{BinlogCoordinate}

pub record StreamProgress : Type 0 where
  pub applied_statements : ℕ
  pub quarantined_statements : ℕ
  pub last_coordinate : BinlogCoordinate
  pub last_progress_log_at : Option ℕ
  pub last_progress_log_count : ℕ

unfoldable pub new_progress : BinlogCoordinate → StreamProgress
new_progress start = record {
  applied_statements = 0;
  quarantined_statements = 0;
  last_coordinate = start;
  last_progress_log_at = none;
  last_progress_log_count = 0;
}

abbrev pub is_first_applied_statement : StreamProgress → Bool
is_first_applied_statement p = p.applied_statements == 1

abbrev pub reached_statement_interval : StreamProgress → Bool
reached_statement_interval p = leb 10000 (p.applied_statements - p.last_progress_log_count)

-- `checked_duration_since` has no value for a time before the last log.
abbrev pub reached_time_interval : ℕ → StreamProgress → Bool
reached_time_interval now p = elim p.last_progress_log_at [
  | none ↦ false
  | some last ↦ leb last now && leb 30 (now - last)
]

unfoldable pub should_log_progress : ℕ → StreamProgress → Bool × StreamProgress
should_log_progress now p =
    if is_first_applied_statement p || reached_statement_interval p || reached_time_interval now p
    then (
      true,
      record p { last_progress_log_at = some now; last_progress_log_count = p.applied_statements },
    )
    else (false, p)

unfoldable pub record_applied_at : BinlogCoordinate → ℕ → StreamProgress → Bool × StreamProgress
record_applied_at coordinate now p =
    should_log_progress now
      (record p { applied_statements = p.applied_statements + 1; last_coordinate = coordinate })

-- A run of applied statements, the positions of the logged ones first to last.
unfoldable pub record_all : List (BinlogCoordinate × ℕ) → StreamProgress → StreamProgress
record_all [] p = p
record_all ((coordinate, now) ∷ rest) p = record_all rest (record_applied_at coordinate now p).1

record IsThrottled (p : StreamProgress) : Type 0 where
  behind : p.last_progress_log_count ≤ p.applied_statements
  few : p.applied_statements - p.last_progress_log_count < 10000
