-- ===== src/Stream/Tests/Reconnects.antt =====
-- The reconnect loop and the progress log at examples: src/live/reconnect.rs, src/live/progress.rs.
use mariadb_mysql_cdc.Prelude.{
  ℕ, ◌+◌, Name, codes, true, false, none, some, is_some, List, [], ◌∷◌, ◌≡◌, refl, arith, ◌=?◌,
}
use mariadb_mysql_cdc.Stream.Types.{
  BinlogCoordinate, Checkpoint, ApplyBinlogError, source_command, raw, stream_ended, Message,
}
use mariadb_mysql_cdc.Stream.Exec.{ok, err}
use mariadb_mysql_cdc.Stream.Reconnect.{
  Source, ReconnectConfig, Shown, Attempts, Attempt, again, is_stale_or_missing_binlog_error,
  is_retryable_stream_error, should_reconnect, stale_binlog_error, is_ddl_blocked,
  validate_start_coordinate, update_source_coordinate_from_checkpoint, load_checkpoint_for_resume,
  resume_from_checkpoint, after_error, reconnect_round, run_stream_reconnect_loop,
}
use mariadb_mysql_cdc.Stream.Reconnect.Text.{to_ascii_lowercase, starts_with, contains_text}
use mariadb_mysql_cdc.Stream.Reconnect.Resume.{
  reconnect_round-resumes, run_stream_reconnect_loop-finishes,
}
use mariadb_mysql_cdc.Stream.Tests.{file, first_checkpoint}
use mariadb_mysql_cdc.Stream.Tests.Group.{at}

abbrev shown_message : Message → Name
shown_message stream_ended = codes "mysql_cdc binlog stream ended at EOF"
shown_message (raw text) = text
shown_message _ = []

abbrev shown : Shown
shown = record { message = shown_message; error = λ _. [] }

-- Every attempt reads to the end of the log.
abbrev ending : Attempts ℕ
ending = record {
  load_checkpoint = λ w. (ok (some first_checkpoint), w);
  run_attempt = λ _ w. (err (source_command stream_ended), w);
  sleep = λ seconds w. w + seconds;
}

abbrev config : ReconnectConfig
config = record { max_reconnects = 2; reconnect_forever = false; has_checkpoint_store = true }

abbrev source : Source
source = record { binlog_file = file; start_position = 4; stop_never_slave_server_id = none }

abbrev first_attempt : Attempt
first_attempt = record { source = source; reconnect_attempt = 0; transport_reconnects = 0 }

never_blocked :
    (s : Source) (v : ℕ) (e : ApplyBinlogError)
    → (ending.run_attempt s v).0 ≡ err e
    → is_ddl_blocked e ≡ false
never_blocked s v e h = ground arith

run_stream_reconnect_loop-finishes_example :
    is_some (run_stream_reconnect_loop ending shown config 3 source 0).0 ≡ true
run_stream_reconnect_loop-finishes_example =
    run_stream_reconnect_loop-finishes ending shown config never_blocked refl source 0

abbrev second_attempt : Attempt
second_attempt = record first_attempt { reconnect_attempt = 1; transport_reconnects = 1 }

resumes : (reconnect_round ending shown config first_attempt 0).0 ≡ again second_attempt
unfolding reconnect_round after_error stale_binlog_error is_stale_or_missing_binlog_error
    should_reconnect is_retryable_stream_error to_ascii_lowercase contains_text starts_with
    resume_from_checkpoint load_checkpoint_for_resume update_source_coordinate_from_checkpoint
    validate_start_coordinate ◌=?◌
resumes = refl

reconnect_round-resumes_example :
    (error : ApplyBinlogError) × (found : Checkpoint) × ((ending.run_attempt source 0).0
      ≡ err error)
    × (is_stale_or_missing_binlog_error shown error ≡ false)
    × ((ending.load_checkpoint 0).0 ≡ ok (some found))
    × (file ≡ found.source_file)
    × (4 ≡ found.source_position)
    × (validate_start_coordinate source ≡ ok tt)
reconnect_round-resumes_example =
    reconnect_round-resumes ending shown config first_attempt second_attempt 0 resumes

abbrev applied : List (BinlogCoordinate × ℕ)
applied = (at 50, 1) ∷ (at 60, 2) ∷ []
