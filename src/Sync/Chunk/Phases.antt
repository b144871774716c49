-- ===== src/Sync/Chunk/Phases.antt =====
-- What the chunks of a phase leave, and what the three phases leave together
-- (sync_next_chunk_with_phase of src/sync/chunk.rs, run_table_phase and run_pending_phases of
-- src/sync/phased_run.rs).
use mariadb_mysql_cdc.Prelude.{
  ℕ, zero, suc, Key, true, none, ◌≡◌, refl, inl, inr, [], arith, key_ord, Bool-cases,
}
use mariadb_mysql_cdc.Sync.Exec.{ok, Outcome-cases}
use mariadb_mysql_cdc.Sync.Model.{
  SyncMutationPhase, insert_missing, update_divergent, delete_extras, SyncChunkConfig,
  SyncChunkProgress, SyncChunkSource, SyncChunkTargetSession, SyncChunkProgressStore,
}
use mariadb_mysql_cdc.Sync.Spec.{synced, agree, phases_agree}
use mariadb_mysql_cdc.Sync.Contract.{Rows, Contract, Laws, NoDuplicates}
use mariadb_mysql_cdc.Sync.Chunk.{sync_next_chunk_with_phase, run_table_phase}
use mariadb_mysql_cdc.Sync.Chunk.Steps.{progress_of, HoldsAt, chunk-HoldsAt}

module _ {W : Type 0} {s : SyncChunkSource W} {t : SyncChunkTargetSession W}
    {p : SyncChunkProgressStore W} {config : SyncChunkConfig} (c : Contract s t p config)
    (laws : Laws c) (unique : NoDuplicates c) (fuel : ℕ) (phase : SyncMutationPhase)
    (original : Rows) where
  -- Each row, durable or seen by the session, is the original one or the one that the phase is to
  -- leave; and it is the latter where the stored progress has left it behind.
  pub record Holds (w : W) : Type 0 where
    pub row_at : (k : Key) → HoldsAt c laws unique fuel phase original k w

  pub started-Holds :
      (w : W)
      → c.saved w ≡ none
      → ((k : Key) → c.working w k ≡ original k)
      → ((k : Key) → c.durable w k ≡ original k)
      → Holds w
  started-Holds w fresh seen kept = record { row_at = λ k. ground (arith, seen k, kept k) }

  -- Where no secondary unique key refuses a batch, every chunk keeps the invariant of its phase,
  -- whatever its result is and whichever call fails.
  pub sync_next_chunk_with_phase-Holds :
      (w : W) → Holds w → Holds (sync_next_chunk_with_phase s t p config fuel phase w).1
  sync_next_chunk_with_phase-Holds w h = record {
    row_at = λ k. (chunk-HoldsAt c laws unique fuel phase original k w (h.row_at k)).0;
  }

  loop-HoldsAt :
      (chunks : ℕ) (w : W)
      → Holds w
      → (k : Key)
      → let (result, w') = run_table_phase s t p config fuel phase chunks w in
        HoldsAt c laws unique fuel phase original k w'
        × ((report : SyncChunkProgress)
            → result ≡ ok report
            → (report.complete ≡ true) × (progress_of config (c.saved w') ≡ report))
  unfolding run_table_phase
  loop-HoldsAt zero w h k = (h.row_at k, λ report e. ground arith)
  loop-HoldsAt (suc chunks) w h k =
      let step = sync_next_chunk_with_phase s t p config fuel phase w in
      let h1 = sync_next_chunk_with_phase-Holds w h in
      let this = chunk-HoldsAt c laws unique fuel phase original k w (h.row_at k) in
      elim (Outcome-cases step.0) [
        | inr (x, e) ↦ rw (run_table_phase, e) (h1.row_at k, λ report o. ground arith)
        | inl (next, e) ↦ elim (Bool-cases next.complete) [
          | inl d ↦
              rw (run_table_phase, e, d) (h1.row_at k, λ report o. ground (arith, this.1 next e, d))
          | inr d ↦ rw (run_table_phase, e, d) (loop-HoldsAt chunks step.1 h1 k)
        ]
      ]

  -- Where no secondary unique key refuses a batch and the loop of a phase returns, the progress it returns is complete, and every row of the
  -- target, durable or seen by the session, is the one that the phase is to leave; also where earlier
  -- chunks of the phase were cut off by errors.
  pub run_table_phase-synced :
      (chunks : ℕ) (w : W) (report : SyncChunkProgress)
      → Holds w
      → let (result, w') = run_table_phase s t p config fuel phase chunks w in
        result ≡ ok report
        → (report.complete ≡ true)
          × ((k : Key)
              → (c.durable w' k ≡ synced phase config.table (c.source k) (original k))
                × (c.working w' k ≡ synced phase config.table (c.source k) (original k)))
  run_table_phase-synced chunks w report h e = (
    ((loop-HoldsAt chunks w h []).1 report e).0,
    λ k. let r = loop-HoldsAt chunks w h k in ground (arith, r.0, r.1 report e),
  )

-- Two phases keep their progress in different rows, and see the same tables.
pub record SeesSame {W : Type 0} {s : SyncChunkSource W} {t : SyncChunkTargetSession W}
    {p q : SyncChunkProgressStore W} {config : SyncChunkConfig} (c : Contract s t p config)
    (d : Contract s t q config) : Type 0 where
  pub same_source : (k : Key) → d.source k ≡ c.source k
  pub same_working : (w : W) (k : Key) → d.working w k ≡ c.working w k
  pub same_durable : (w : W) (k : Key) → d.durable w k ≡ c.durable w k

module _ {W : Type 0} {s : SyncChunkSource W} {t : SyncChunkTargetSession W}
    {p1 p2 p3 : SyncChunkProgressStore W} {config : SyncChunkConfig} (c1 : Contract s t p1 config)
    (c2 : Contract s t p2 config) (c3 : Contract s t p3 config) (laws1 : Laws c1) (laws2 : Laws c2)
    (laws3 : Laws c3) (unique1 : NoDuplicates c1) (unique2 : NoDuplicates c2)
    (unique3 : NoDuplicates c3) (see2 : SeesSame c1 c2) (see3 : SeesSame c1 c3)
    (fuel chunks : ℕ) where
  -- The rows that are missing are inserted, then those that diverge are updated, then the extra ones
  -- are deleted: where the three loops return, no row of the target is extra or missing, and none
  -- differs from the source's in a compared column. No secondary unique key refuses a batch, no change waits for a commit at the start,
  -- and each phase starts without stored progress.
  pub three_phases-agree :
      (w : W) (report1 report2 report3 : SyncChunkProgress)
      → ((k : Key) → c1.working w k ≡ c1.durable w k)
      → c1.saved w ≡ none
      → let (result1, w1) = run_table_phase s t p1 config fuel insert_missing chunks w in
        let (result2, w2) = run_table_phase s t p2 config fuel update_divergent chunks w1 in
        let (result3, w3) = run_table_phase s t p3 config fuel delete_extras chunks w2 in
        c2.saved w1 ≡ none
        → c3.saved w2 ≡ none
        → result1 ≡ ok report1
        → result2 ≡ ok report2
        → result3 ≡ ok report3
        → (k : Key) → agree config.table (c1.source k) (c1.durable w3 k) ≡ true
  three_phases-agree w report1 report2 report3 same fresh1 fresh2 fresh3 e1 e2 e3 k =
      let w1 = (run_table_phase s t p1 config fuel insert_missing chunks w).1 in
      let w2 = (run_table_phase s t p2 config fuel update_divergent chunks w1).1 in
      let w3 = (run_table_phase s t p3 config fuel delete_extras chunks w2).1 in
      let h1 =
        started-Holds c1 laws1 unique1 fuel insert_missing (c1.durable w) w fresh1 same
          (λ j. refl) in
      let done1 =
        run_table_phase-synced c1 laws1 unique1 fuel insert_missing (c1.durable w) chunks w report1
          h1 e1 in
      let h2 =
        started-Holds c2 laws2 unique2 fuel update_divergent (c1.durable w1) w1 fresh2
          (λ j. ground (arith, see2.same_working w1 j, done1.1 j)) (λ j. see2.same_durable w1 j) in
      let done2 =
        run_table_phase-synced c2 laws2 unique2 fuel update_divergent (c1.durable w1) chunks w1
          report2 h2 e2 in
      let h3 =
        started-Holds c3 laws3 unique3 fuel delete_extras (c1.durable w2) w2 fresh3
          (λ j. ground (
            arith,
            see3.same_working w2 j,
            see2.same_working w2 j,
            see2.same_durable w2 j,
            done2.1 j,
          ))
          (λ j. see3.same_durable w2 j) in
      let done3 =
        run_table_phase-synced c3 laws3 unique3 fuel delete_extras (c1.durable w2) chunks w2 report3
          h3 e3 in
      let last : c1.durable w3 k
          ≡ synced delete_extras config.table (c1.source k) (c1.durable w2 k) =
        ground (arith, see3.same_durable w3 k, see3.same_source k, done3.1 k) in
      let middle : c1.durable w2 k
          ≡ synced update_divergent config.table (c1.source k) (c1.durable w1 k) =
        ground (arith, see2.same_durable w2 k, see2.same_source k, done2.1 k) in
      rw (last, middle, (done1.1 k).0) (phases_agree config.table (c1.source k) (c1.durable w k))
