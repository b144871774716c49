-- ===== src/Stream/Reconnect.antt =====
-- The reconnect loop around the attempts of the stream (src/live/reconnect.rs). The two counters
-- are u32 in the source and stay far below its bound: an attempt waits a second at least.
pub mod Text
pub mod Resume
use mariadb_mysql_cdc.Prelude.{
  ℕ, ◌+◌, ◌-◌, ◌^◌, zero, suc, min, Name, codes, Bool, true, false, ◌&&◌, ◌||◌, not, Option, none,
  some, List, [], ◌≡◌, refl, ◌⊎◌, inl, inr, ltb, ◌==◌, if◌then◌else◌, ◌=?◌, name_ord,
}
use mariadb_mysql_cdc.Stream.Types.{
  Checkpoint, ApplyBinlogError, config, source_command, ddl_blocked, checkpoint, Message, raw,
  checkpoint_missing, stale_binlog,
}
use mariadb_mysql_cdc.Stream.Exec.{Result, ok, err, Exec, pure, raise, ◌>>=◌, ◌>>◌}
use mariadb_mysql_cdc.Stream.Event.{max_u64}
use mariadb_mysql_cdc.Stream.Reconnect.Text.{to_ascii_lowercase, contains_text}

-- The coordinate and the server id of `SourceBinlogConfig`.
pub record Source : Type 0 where
  pub binlog_file : Name
  pub start_position : ℕ
  pub stop_never_slave_server_id : Option ℕ

pub record ReconnectConfig : Type 0 where
  pub max_reconnects : ℕ
  pub reconnect_forever : Bool
  pub has_checkpoint_store : Bool

-- `Display` of the errors.
pub record Shown : Type 0 where
  pub message : Message → Name
  pub error : ApplyBinlogError → Name

abbrev is_zero : Option ℕ → Bool
is_zero none = false
is_zero (some n) = n == 0

unfoldable pub validate_start_coordinate : Source → Result (Unit {0})
validate_start_coordinate source =
    if source.binlog_file =? []
    then err (config (raw (codes "binlog file is required")))
    else if source.start_position == 0
    then err (config (raw (codes "start position must be greater than zero")))
    else if is_zero source.stop_never_slave_server_id
    then err (config (raw (codes "--stop-never-slave-server-id must be greater than zero")))
    else ok tt

unfoldable pub reconnect_delay : ℕ → ℕ
reconnect_delay attempt = min (min (2 ^ (attempt - 1)) max_u64) 5

module _ (shown : Shown) where
  abbrev lower_of : ApplyBinlogError → Option Name
  lower_of (source_command message) = some (to_ascii_lowercase (shown.message message))
  lower_of _ = none

  unfoldable pub is_stale_or_missing_binlog_error : ApplyBinlogError → Bool
  is_stale_or_missing_binlog_error error = elim (lower_of error) [
    | none ↦ false
    | some lower ↦
        contains_text (codes "could not find first log file name in binary log index file") lower
        || (contains_text (codes "could not find log file") lower
            && contains_text (codes "in binary log index file") lower)
        || contains_text (codes "not found in binlog index") lower
        || contains_text (codes "not found in binary log index") lower
  ]

  unfoldable pub is_retryable_stream_error : ApplyBinlogError → Bool
  is_retryable_stream_error error = elim (lower_of error) [
    | none ↦ false
    | some lower ↦
        contains_text (codes "connection reset") lower
        || contains_text (codes "connection refused") lower
        || contains_text (codes "tls/ssl") lower
        || contains_text (codes "reading packet") lower
        || contains_text (codes "eof") lower
        || contains_text (codes "broken pipe") lower
        || contains_text (codes "timed out") lower
        || contains_text (codes "same server_id is already connected") lower
  ]

  unfoldable pub should_reconnect : ApplyBinlogError → ℕ → ℕ → Bool → Bool
  should_reconnect error attempt max_reconnects reconnect_forever =
      (reconnect_forever || ltb attempt max_reconnects) && is_retryable_stream_error error

  unfoldable pub stale_binlog_error : ApplyBinlogError → Option ApplyBinlogError
  stale_binlog_error error =
      if is_stale_or_missing_binlog_error error
      then some (source_command (stale_binlog (shown.error error)))
      else none

abbrev pub is_ddl_blocked : ApplyBinlogError → Bool
is_ddl_blocked (ddl_blocked _) = true
is_ddl_blocked _ = false

unfoldable pub update_source_coordinate_from_checkpoint : Option Checkpoint → Source → Source
update_source_coordinate_from_checkpoint none source = source
update_source_coordinate_from_checkpoint (some c) source = record source {
  binlog_file = c.source_file;
  start_position = c.source_position;
}

abbrev loaded : {W : Type 0} → Option Checkpoint → Exec W (Option Checkpoint)
loaded none = raise (checkpoint checkpoint_missing)
loaded (some c) = pure (some c)

-- What the loop calls: the store, an attempt from a coordinate, and the sleep.
pub record Attempts (W : Type 0) : Type 0 where
  pub load_checkpoint : Exec W (Option Checkpoint)
  pub run_attempt : Source → Exec W (Unit {0})
  pub sleep : ℕ → W → W

pub record Attempt : Type 0 where
  pub source : Source
  pub reconnect_attempt : ℕ
  pub transport_reconnects : ℕ

-- A round of the loop ends it or asks for another attempt.
pub data Round : Type 0 where
  finished : Result (Unit {0}) → Round
  again : Attempt → Round

pub Round-cases :
    (r : Round) → ((x : Result (Unit {0})) × (r ≡ finished x)) ⊎ ((s : Attempt) × (r ≡ again s))
Round-cases (finished x) = inl (x, refl)
Round-cases (again s) = inr (s, refl)

abbrev round_of : Result Attempt → Round
round_of (ok next) = again next
round_of (err e) = finished (err e)

module _ {W : Type 0} (a : Attempts W) (shown : Shown) (cfg : ReconnectConfig) where
  unfoldable pub load_checkpoint_for_resume : Exec W (Option Checkpoint)
  load_checkpoint_for_resume =
      if cfg.has_checkpoint_store then a.load_checkpoint >>= loaded else pure none

  unfoldable pub resume_from_checkpoint : Source → Exec W Source
  resume_from_checkpoint source = do
    found ← load_checkpoint_for_resume
    pure (update_source_coordinate_from_checkpoint found source)

  abbrev pub reconnect_eligible : ApplyBinlogError → Attempt → Bool
  reconnect_eligible error s =
      is_ddl_blocked error
      || should_reconnect shown error s.transport_reconnects cfg.max_reconnects
          cfg.reconnect_forever

  abbrev counted : ApplyBinlogError → Attempt → Attempt
  counted error s = record s {
    reconnect_attempt = s.reconnect_attempt + 1;
    transport_reconnects =
        if is_ddl_blocked error then s.transport_reconnects else s.transport_reconnects + 1;
  }

  abbrev resumed : Attempt → Exec W Attempt
  resumed s = do
    source ← resume_from_checkpoint s.source
    (λ w. (validate_start_coordinate source, w))
    (λ w. (ok tt, a.sleep (reconnect_delay s.reconnect_attempt) w))
    pure (record s { source = source })

  unfoldable pub after_error : ApplyBinlogError → Attempt → W → Round × W
  after_error error s w = elim (stale_binlog_error shown error) [
    | some stale ↦ (finished (err stale), w)
    | none ↦
        let (next, w') = resumed (counted error s) w in
        if not cfg.has_checkpoint_store || not (reconnect_eligible error s)
        then (finished (err error), w)
        else (round_of next, w')
  ]

  unfoldable pub reconnect_round : Attempt → W → Round × W
  reconnect_round s w = elim (a.run_attempt s.source w).0 [
    | ok _ ↦ (finished (ok tt), (a.run_attempt s.source w).1)
    | err e ↦ after_error e s (a.run_attempt s.source w).1
  ]

  -- `none` where the fuel, a bound on the attempts, ran out.
  unfoldable pub reconnect_rounds : ℕ → Attempt → W → Option (Result (Unit {0})) × W
  reconnect_rounds zero s w = (none, w)
  reconnect_rounds (suc fuel) s w = elim (reconnect_round s w).0 [
    | finished r ↦ (some r, (reconnect_round s w).1)
    | again s' ↦ reconnect_rounds fuel s' (reconnect_round s w).1
  ]

  abbrev pub starting : Source → Exec W Attempt
  starting source = do
    source' ← resume_from_checkpoint source
    (λ w. (validate_start_coordinate source', w))
    pure (record { source = source'; reconnect_attempt = 0; transport_reconnects = 0 })

  unfoldable pub run_stream_reconnect_loop : ℕ → Source → W → Option (Result (Unit {0})) × W
  run_stream_reconnect_loop fuel source w = elim (starting source w).0 [
    | ok s ↦ reconnect_rounds fuel s (starting source w).1
    | err e ↦ (some (err e), (starting source w).1)
  ]
