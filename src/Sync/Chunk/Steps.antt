-- ===== src/Sync/Chunk/Steps.antt =====
-- A whole chunk keeps the invariant, with any result (sync_next_chunk_with_phase of
-- src/sync/chunk.rs), and so does the loop of a phase (run_table_phase of src/sync/phased_run.rs).
use mariadb_mysql_cdc.Prelude.{
  ℕ, Key, false, Option, none, some, ◌≡◌, inl, inr, arith, subst, key_ord, Bool-cases,
}
use mariadb_mysql_cdc.Sync.Exec.{SyncError, ok, Outcome-cases}
use mariadb_mysql_cdc.Sync.Model.{
  SyncMutationPhase, SyncChunkConfig, SyncChunkProgress, SyncChunkSource, SyncChunkTargetSession,
  SyncChunkProgressStore,
}
use mariadb_mysql_cdc.Sync.Contract.{Rows, Contract, IsSettled, Laws, NoDuplicates}
use mariadb_mysql_cdc.Sync.Chunk.{
  fresh_progress, load_progress, prepare_target_chunk, rollback_and_unlock, unlock_after_error,
  save_progress_and_unlock, apply_locked_chunk, apply_or_roll_back, sync_next_chunk_with_phase,
}
use mariadb_mysql_cdc.Sync.Chunk.Invariant.{IsNearAt, quiet-IsNear, settled-IsNear, locked-IsNear}

abbrev pub progress_of : SyncChunkConfig → Option SyncChunkProgress → SyncChunkProgress
progress_of config none = fresh_progress config
progress_of config (some progress) = progress

module _ {W : Type 0} {s : SyncChunkSource W} {t : SyncChunkTargetSession W}
    {p : SyncChunkProgressStore W} {config : SyncChunkConfig} (c : Contract s t p config)
    (laws : Laws c) (unique : NoDuplicates c) (fuel : ℕ) (phase : SyncMutationPhase)
    (original : Rows) (k : Key) where
  abbrev pub HoldsAt : W → Type 0
  HoldsAt w = IsNearAt c laws unique fuel phase original (progress_of config (c.saved w)) k w

  abbrev NearAt : SyncChunkProgress → W → Type 0
  NearAt progress w = IsNearAt c laws unique fuel phase original progress k w

  moved :
      (w w' : W) → c.saved w' ≡ c.saved w → NearAt (progress_of config (c.saved w)) w' → HoldsAt w'
  moved w w' e near = rw e near

  settled-HoldsAt : (w w' : W) → IsSettled c w w' → HoldsAt w → HoldsAt w'
  settled-HoldsAt w w' z h =
      moved w w' z.saved_kept (
        settled-IsNear c laws unique fuel phase original k (progress_of config (c.saved w)) w w' z
          h)

  rolled_back-HoldsAt :
      (e : SyncError) (w : W) → HoldsAt w → HoldsAt (rollback_and_unlock s t p config e w).1
  unfolding rollback_and_unlock
  rolled_back-HoldsAt e w h =
      let w1 = (t.rollback w).1 in
      settled-HoldsAt w1 (t.unlock_tables w1).1 (laws.unlock_settled w1)
        (settled-HoldsAt w w1 (laws.rollback_settled w) h)

  prepared-HoldsAt :
      (w : W)
      → HoldsAt w
      → let w' = (prepare_target_chunk s t p config w).1 in HoldsAt w' × (c.saved w' ≡ c.saved w)
  unfolding prepare_target_chunk
  prepared-HoldsAt w h =
      let w1 = (t.set_autocommit false w).1 in
      let h1 = settled-HoldsAt w w1 (laws.autocommit_settled w) h in
      let a = config.target_database in
      let b = config.table.name in
      elim (Outcome-cases (t.set_autocommit false w).0) [
        | inr (x, e) ↦ rw (prepare_target_chunk, e) (h1, (laws.autocommit_settled w).saved_kept)
        | inl (_, e) ↦
            let z = laws.lock_settled a b w1 in
            rw (prepare_target_chunk, e)
              (
                settled-HoldsAt w1 (t.lock_table_write a b w1).1 z h1,
                ground (arith, z.saved_kept, (laws.autocommit_settled w).saved_kept),
              )
      ]

  save_call-HoldsAt :
      (next : SyncChunkProgress) (w : W) → HoldsAt w → NearAt next w → HoldsAt (p.save next w).1
  save_call-HoldsAt next w h near =
      let w1 = (p.save next w).1 in
      let kept : IsNearAt c laws unique fuel phase original (progress_of config (c.saved w)) k w1 =
        (rw (laws.save_working next w k) h.0, rw (laws.save_durable next w k) h.1) in
      let reached : IsNearAt c laws unique fuel phase original next k w1 =
        (rw (laws.save_working next w k) near.0, rw (laws.save_durable next w k) near.1) in
      elim (laws.save_failed next w) [ inl e ↦ rw e kept | inr e ↦ rw e reached ]

  saved-HoldsAt :
      (next : SyncChunkProgress) (w : W)
      → HoldsAt w
      → NearAt next w
      → let (result, w') = save_progress_and_unlock s t p config next w in
        HoldsAt w' × ((q : SyncChunkProgress) → result ≡ ok q → c.saved w' ≡ some q)
  unfolding save_progress_and_unlock unlock_after_error
  saved-HoldsAt next w h near =
      let w1 = (p.save next w).1 in
      let h1 = save_call-HoldsAt next w h near in
      let z = laws.unlock_settled w1 in
      let h2 = settled-HoldsAt w1 (t.unlock_tables w1).1 z h1 in
      elim (Outcome-cases (p.save next w).0) [
        | inr (x, e) ↦ rw (save_progress_and_unlock, e) (h2, λ q o. ground arith)
        | inl (_, e) ↦
            let stored = laws.save_done next w e in
            elim (Outcome-cases (t.unlock_tables w1).0) [
              | inr (x, u) ↦ rw (save_progress_and_unlock, e, u) (h2, λ q o. ground arith)
              | inl (_, u) ↦
                  rw (save_progress_and_unlock, e, u)
                    (h2, λ q o. ground (arith, z.saved_kept, stored))
            ]
      ]

  applied-HoldsAt :
      (w : W)
      → HoldsAt w
      → let (result, w') =
          apply_or_roll_back s t p config fuel phase (progress_of config (c.saved w)) w in
        HoldsAt w' × ((q : SyncChunkProgress) → result ≡ ok q → c.saved w' ≡ some q)
  unfolding apply_or_roll_back
  applied-HoldsAt w h =
      let progress = progress_of config (c.saved w) in
      let applied = apply_locked_chunk s t p config fuel phase progress w in
      let near = locked-IsNear c laws unique fuel phase original k progress w h in
      let h1 = moved w applied.1 near.1 near.0 in
      elim (Outcome-cases applied.0) [
        | inr (x, e) ↦
            rw (apply_or_roll_back, e) (rolled_back-HoldsAt x applied.1 h1, λ q o. ground arith)
        | inl (next, e) ↦
            rw (apply_or_roll_back, e) (saved-HoldsAt next applied.1 h1 (near.2 next e))
      ]

  loaded-HoldsAt :
      (w : W)
      → HoldsAt w
      → let (result, w') = load_progress s t p config w in
        HoldsAt w'
        × (c.saved w' ≡ c.saved w)
        × ((q : SyncChunkProgress) → result ≡ ok q → progress_of config (c.saved w') ≡ q)
  unfolding load_progress
  loaded-HoldsAt w h =
      let call = p.load config.run_id config.table.name w in
      let quiet = laws.load_quiet config.run_id config.table.name w in
      let h1 = moved w call.1 quiet.saved_same (
        quiet-IsNear c laws unique fuel phase original k (progress_of config (c.saved w)) w call.1
          quiet h) in
      elim (Outcome-cases call.0) [
        | inr (x, e) ↦ rw (load_progress, e) (h1, quiet.saved_same, λ q o. ground arith)
        | inl (loaded, e) ↦
            rw (load_progress, e)
              (
                h1,
                quiet.saved_same,
                λ q o. ground (arith, quiet.saved_same, laws.load_reads w loaded e),
              )
      ]

  pub chunk-HoldsAt :
      (w : W)
      → HoldsAt w
      → let (result, w') = sync_next_chunk_with_phase s t p config fuel phase w in
        HoldsAt w' × ((q : SyncChunkProgress) → result ≡ ok q → progress_of config (c.saved w') ≡ q)
  unfolding sync_next_chunk_with_phase
  chunk-HoldsAt w h =
      let loaded = load_progress s t p config w in
      let h1 = loaded-HoldsAt w h in
      elim (Outcome-cases loaded.0) [
        | inr (x, e) ↦ rw (sync_next_chunk_with_phase, e) (h1.0, λ q o. ground arith)
        | inl (progress, e) ↦
            let same = h1.2 progress e in
            elim (Bool-cases progress.complete) [
              | inl d ↦ rw (sync_next_chunk_with_phase, e, d) (h1.0, λ q o. ground (arith, same))
              | inr d ↦
                  let prepared = prepare_target_chunk s t p config loaded.1 in
                  let h2 = prepared-HoldsAt loaded.1 h1.0 in
                  elim (Outcome-cases prepared.0) [
                    | inr (x, u) ↦
                        rw (sync_next_chunk_with_phase, e, d, u) (h2.0, λ q o. ground arith)
                    | inl (_, u) ↦
                        let same2 : progress_of config (c.saved prepared.1) ≡ progress =
                          ground (arith, h2.1, same) in
                        let h3 =
                          subst
                            (λ q.
                              let (result, w') =
                                apply_or_roll_back s t p config fuel phase q prepared.1 in
                              HoldsAt w'
                              × ((q' : SyncChunkProgress) → result ≡ ok q' → c.saved w' ≡ some q'))
                            same2 (applied-HoldsAt prepared.1 h2.0) in
                        rw (sync_next_chunk_with_phase, e, d, u)
                          (h3.0, λ q o. ground (arith, h3.1 q))
                  ]
            ]
      ]
