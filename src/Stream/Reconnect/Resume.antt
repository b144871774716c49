-- ===== src/Stream/Reconnect/Resume.antt =====
-- An attempt resumes from the stored checkpoint, and the attempts end.
use mariadb_mysql_cdc.Prelude.{
  ℕ, zero, suc, ◌+◌, ◌-◌, ◌^◌, ◌<◌, ◌≤◌, true, false, ◌≡◌, inl, inr, none, some, is_some, arith,
  Option-cases,
}
use mariadb_mysql_cdc.Stream.Types.{Checkpoint, ApplyBinlogError}
use mariadb_mysql_cdc.Stream.Exec.{Result, ok, err, Result-cases}
use mariadb_mysql_cdc.Stream.Reconnect.{
  Source, ReconnectConfig, Shown, Attempts, Attempt, finished, again, reconnect_delay,
  is_stale_or_missing_binlog_error, should_reconnect, stale_binlog_error, is_ddl_blocked,
  update_source_coordinate_from_checkpoint, validate_start_coordinate, load_checkpoint_for_resume,
  resume_from_checkpoint, after_error, reconnect_round, reconnect_rounds, Round-cases, starting,
  run_stream_reconnect_loop,
}

pow_pos : (n : ℕ) → 1 ≤ 2 ^ n
pow_pos zero = ground arith
pow_pos (suc n) = ground (arith, pow_pos n)

-- A wait between two attempts is of one to five seconds.
pub reconnect_delay-bounds :
    (attempt : ℕ) → (1 ≤ reconnect_delay attempt) × (reconnect_delay attempt ≤ 5)
unfolding reconnect_delay
reconnect_delay-bounds attempt =
    let n = pow_pos (attempt - 1) in (ground (arith, n), ground (arith, n))

module _ {W : Type 0} (a : Attempts W) (shown : Shown) (cfg : ReconnectConfig) where
  -- Another attempt is made only after an attempt that failed with an error that is not of a
  -- purged log, with a checkpoint loaded from the store after it, and it starts at the coordinate
  -- of that checkpoint, which is a valid one.
  pub reconnect_round-resumes :
      (s s' : Attempt) (w : W)
      → (reconnect_round a shown cfg s w).0 ≡ again s'
      → (error : ApplyBinlogError) × (found : Checkpoint) × ((a.run_attempt s.source w).0
          ≡ err error)
        × (is_stale_or_missing_binlog_error shown error ≡ false)
        × ((a.load_checkpoint (a.run_attempt s.source w).1).0 ≡ ok (some found))
        × (s'.source.binlog_file ≡ found.source_file)
        × (s'.source.start_position ≡ found.source_position)
        × (validate_start_coordinate s'.source ≡ ok tt)
  unfolding reconnect_round after_error stale_binlog_error resume_from_checkpoint
      load_checkpoint_for_resume update_source_coordinate_from_checkpoint
  reconnect_round-resumes s s' w e = elim (Result-cases (a.run_attempt s.source w).0) [
    | inl (u, eu) ↦ absurd (ground arith)
    | inr (error, ee) ↦ elim (Result-cases (a.load_checkpoint (a.run_attempt s.source w).1).0) [
      | inl (some found, el) ↦
          (error, found, ee, ground arith, el, ground arith, ground arith, ground arith)
      | inl (none, el) ↦ absurd (ground arith)
      | inr (x, el) ↦ absurd (ground arith)
    ]
  ]

  round_counts :
      (s s' : Attempt) (w : W)
      → ((source : Source) (v : W) (e : ApplyBinlogError)
          → (a.run_attempt source v).0 ≡ err e
          → is_ddl_blocked e ≡ false)
      → cfg.reconnect_forever ≡ false
      → (reconnect_round a shown cfg s w).0 ≡ again s'
      → (s.transport_reconnects < cfg.max_reconnects)
        × (s'.transport_reconnects ≡ s.transport_reconnects + 1)
  unfolding reconnect_round after_error should_reconnect
  round_counts s s' w blocks once e = elim (Result-cases (a.run_attempt s.source w).0) [
    | inl (u, eu) ↦ absurd (ground arith)
    | inr (error, ee) ↦ let b = blocks s.source w error ee in (ground arith, ground arith)
  ]

  -- No store, no second attempt: the result of the loop is that of its first attempt, a purged log
  -- reported as such.
  pub storeless_round-finishes :
      (s : Attempt) (w : W)
      → cfg.has_checkpoint_store ≡ false
      → (result : Result (Unit {0})) × (reconnect_round a shown cfg s w).0 ≡ finished result
  unfolding reconnect_round after_error
  storeless_round-finishes s w e = elim (Result-cases (a.run_attempt s.source w).0) [
    | inl (u, eu) ↦ (ok tt, ground arith)
    | inr (error, ee) ↦ elim (Option-cases (stale_binlog_error shown error)) [
      | inl n ↦ (err error, ground arith)
      | inr (stale, n) ↦ (err stale, ground arith)
    ]
  ]

  starting_fresh :
      (source : Source) (w : W) (s : Attempt)
      → (starting a shown cfg source w).0 ≡ ok s
      → s.transport_reconnects ≡ 0
  starting_fresh source w s e =
      elim (Result-cases (resume_from_checkpoint a shown cfg source w).0) [
        | inl (source', es) ↦ elim (Result-cases (validate_start_coordinate source')) [
          | inl (u, eu) ↦ ground arith
          | inr (x, ex) ↦ absurd (ground arith)
        ]
        | inr (x, ex) ↦ absurd (ground arith)
      ]

  module _
      (blocks : (source : Source) (v : W) (e : ApplyBinlogError)
        → (a.run_attempt source v).0 ≡ err e
        → is_ddl_blocked e ≡ false)
      (once : cfg.reconnect_forever ≡ false) where
    rounds_finish :
        (fuel : ℕ) (s : Attempt) (w : W)
        → cfg.max_reconnects - s.transport_reconnects < fuel
        → is_some (reconnect_rounds a shown cfg fuel s w).0 ≡ true
    unfolding reconnect_rounds
    rounds_finish zero s w l = absurd (ground arith)
    rounds_finish (suc fuel) s w l = elim (Round-cases (reconnect_round a shown cfg s w).0) [
      | inl (r, e) ↦ ground arith
      | inr (s', e) ↦
          let (n, c) = round_counts s s' w blocks once e in
          ground (arith, rounds_finish fuel s' (reconnect_round a shown cfg s w).1)
    ]

    -- The loop ends: without `reconnect_forever`, and where no attempt is blocked by a DDL, it makes
    -- at most one attempt more than `max_reconnects`.
    pub run_stream_reconnect_loop-finishes :
        (source : Source) (w : W)
        → is_some (run_stream_reconnect_loop a shown cfg (cfg.max_reconnects + 1) source w).0 ≡ true
    unfolding run_stream_reconnect_loop
    run_stream_reconnect_loop-finishes source w =
        elim (Result-cases (starting a shown cfg source w).0) [
          | inl (s, es) ↦ ground (
            arith,
            starting_fresh source w s,
            rounds_finish (cfg.max_reconnects + 1) s (starting a shown cfg source w).1,
          )
          | inr (x, ex) ↦ ground arith
        ]
