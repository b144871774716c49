-- ===== src/Sync/Chunk/Completes.antt =====
-- The chunks of a phase reach a complete progress, where no call fails (sync_next_chunk_with_phase
-- of src/sync/chunk.rs, run_table_phase of src/sync/phased_run.rs).
use mariadb_mysql_cdc.Prelude.{
  ℕ, ◌<◌, ◌≤◌, Key, true, false, Option, some, ◌≡◌, refl, inl, inr, arith, key_ord, name_ord,
  =?_iff, Option-cases,
}
use mariadb_mysql_cdc.Sync.Exec.{Outcome, ok, Outcome-cases}
use mariadb_mysql_cdc.Sync.Model.{
  SyncMutationPhase, SyncChunkConfig, SyncChunkProgress, SyncChunkSource, SyncChunkTargetSession,
  SyncChunkProgressStore,
}
use mariadb_mysql_cdc.Sync.Window.{last_key}
use mariadb_mysql_cdc.Sync.Contract.{Contract, IsQuiet, IsSettled, Laws, NoDuplicates}
use mariadb_mysql_cdc.Sync.Chunk.{
  apply_rows, apply_locked_chunk, load_progress, prepare_target_chunk, save_progress_and_unlock,
  apply_or_roll_back, validate_progress_identity,
}
use mariadb_mysql_cdc.Sync.Chunk.Steps.{progress_of}
use mariadb_mysql_cdc.Sync.Chunk.Window.{chunk_request}
use mariadb_mysql_cdc.Sync.Chunk.Answered.{IsIdentified, is_ok, Answers, Counts}
use mariadb_mysql_cdc.Sync.Chunk.Finishes.{IsLess, Advances, rows-Advances}

module _ {W : Type 0} {s : SyncChunkSource W} {t : SyncChunkTargetSession W}
    {p : SyncChunkProgressStore W} {config : SyncChunkConfig} {c : Contract s t p config}
    (laws : Laws c) (unique : NoDuplicates c) (a : Answers c) (n : Counts c) (fuel : ℕ)
    (phase : SyncMutationPhase) where
  -- No change waits for a commit.
  pub record IsClean (w : W) : Type 0 where
    pub committed : (k : Key) → c.working w k ≡ c.durable w k

  settled-IsClean : (w w' : W) → IsSettled c w w' → IsClean w → IsClean w'
  settled-IsClean w w' z h = record {
    committed = λ k. ground (arith, h.committed k, z.working_either k, z.durable_either k);
  }

  settled-fewer :
      (b : Option Key) (w w' : W)
      → IsSettled c w w'
      → IsClean w
      → n.target_left b w' ≤ n.target_left b w
  settled-fewer b w w' z h =
      n.target_fewer b w w' (λ k j. inl (ground (arith, h.committed k, z.working_either k)))

  pub quiet-IsClean : (w w' : W) → IsQuiet c w w' → IsClean w → IsClean w'
  quiet-IsClean w w' q h = record {
    committed = λ k. ground (arith, h.committed k, q.working_same k, q.durable_same k);
  }

  pub quiet-fewer :
      (b : Option Key) (w w' : W) → IsQuiet c w w' → n.target_left b w' ≤ n.target_left b w
  quiet-fewer b w w' q = n.target_fewer b w w' (λ k j. inl (q.working_same k))

  abbrev pub Leads : SyncChunkProgress → W → Outcome SyncChunkProgress → W → Type 0
  Leads progress w result w' =
      Advances laws unique a n fuel phase progress w result w'
      × ((next : SyncChunkProgress) → result ≡ ok next → IsClean w')

  locked-Leads :
      (progress : SyncChunkProgress) (w : W)
      → n.target_left progress.last_primary_key w < fuel
      → let (result, w') = apply_locked_chunk s t p config fuel phase progress w in
        Leads progress w result w'
  unfolding apply_locked_chunk
  locked-Leads progress w enough =
      let start = progress.last_primary_key in
      let r = chunk_request config start in
      let w1 = (s.read_rows r w).1 in
      let q = laws.source_quiet r w in
      let fewer = quiet-fewer start w w1 q in
      elim (Outcome-cases (s.read_rows r w).0) [
        | inr (x, e) ↦ absurd (ground (arith, a.source_read r w))
        | inl (page, e) ↦
            let i = laws.source_page r w page e in
            let h =
              rows-Advances laws unique a n fuel phase progress page w1 w i e
                (ground (arith, fewer)) in
            let applied =
              apply_rows s t p config fuel phase progress page.rows (last_key page.rows) w1 in
            let w2 = applied.1 in
            let w3 = (t.commit w2).1 in
            elim (Outcome-cases applied.0) [
              | inr (x, o) ↦ absurd (ground (arith, h.0))
              | inl (next, o) ↦ elim (Outcome-cases (t.commit w2).0) [
                | inr (x, u) ↦ absurd (ground (arith, a.commit w2))
                | inl (_, u) ↦
                    let same =
                      n.target_fewer next.last_primary_key w2 w3
                        (λ k j. inl (laws.commit_keeps w2 k u)) in
                    rw (apply_locked_chunk, e, o, u)
                      (
                        (refl, λ next' o'. ground (arith, h.1 next o, fewer, same)),
                        λ next' o'. record {
                          committed = λ k.
                              ground (arith, laws.commit_keeps w2 k u, laws.commit_done w2 k u);
                        },
                      )
              ]
            ]
      ]

  -- A step that changes no row after a successful one.
  moved-IsLess :
      (progress next : SyncChunkProgress) (w w1 w2 : W)
      → n.target_left next.last_primary_key w2 ≤ n.target_left next.last_primary_key w1
      → IsLess laws unique a n fuel phase progress w next w1
      → IsLess laws unique a n fuel phase progress w next w2
  moved-IsLess progress next w w1 w2 fewer h = ground (arith, fewer, h)

  pub saved-Leads :
      (progress : SyncChunkProgress) (w : W)
      → n.target_left progress.last_primary_key w < fuel
      → let (result, w') = apply_or_roll_back s t p config fuel phase progress w in
        Leads progress w result w'
        × ((next : SyncChunkProgress) → result ≡ ok next → c.saved w' ≡ some next)
  unfolding apply_or_roll_back save_progress_and_unlock
  saved-Leads progress w enough =
      let applied = apply_locked_chunk s t p config fuel phase progress w in
      let w1 = applied.1 in
      let h = locked-Leads progress w enough in
      elim (Outcome-cases applied.0) [
        | inr (x, o) ↦ absurd (ground (arith, h.0.0))
        | inl (next, o) ↦
            let w2 = (p.save next w1).1 in
            let w3 = (t.unlock_tables w2).1 in
            let z = laws.unlock_settled w2 in
            let clean1 = h.1 next o in
            let clean2 : IsClean w2 = record {
              committed = λ k. ground (
                arith,
                clean1.committed k,
                laws.save_working next w1 k,
                laws.save_durable next w1 k,
              );
            } in
            let b = next.last_primary_key in
            let fewer1 = n.target_fewer b w1 w2 (λ k j. inl (laws.save_working next w1 k)) in
            let fewer2 = settled-fewer b w2 w3 z clean2 in
            elim (Outcome-cases (p.save next w1).0) [
              | inr (x, u) ↦ absurd (ground (arith, a.save next w1))
              | inl (_, u) ↦ elim (Outcome-cases (t.unlock_tables w2).0) [
                | inr (x, v) ↦ absurd (ground (arith, a.unlock w2))
                | inl (_, v) ↦
                    let less =
                      moved-IsLess progress next w w1 w3 (ground (arith, fewer1, fewer2))
                        (h.0.1 next o) in
                    rw (apply_or_roll_back, o, save_progress_and_unlock, u, v)
                      (
                        (
                          (refl, λ next' o'. ground (arith, less)),
                          λ next' o'. settled-IsClean w2 w3 z clean2,
                        ),
                        λ next' o'. ground (arith, z.saved_kept, laws.save_done next w1 u),
                      )
              ]
            ]
      ]

  pub prepared-ok :
      (w : W)
      → IsClean w
      → let (result, w') = prepare_target_chunk s t p config w in
        (is_ok result ≡ true)
        × IsClean w'
        × ((b : Option Key) → n.target_left b w' ≤ n.target_left b w)
  unfolding prepare_target_chunk
  prepared-ok w h =
      let w1 = (t.set_autocommit false w).1 in
      let w2 = (t.lock_table_write config.target_database config.table.name w1).1 in
      let z1 = laws.autocommit_settled w in
      let z2 = laws.lock_settled config.target_database config.table.name w1 in
      let h1 = settled-IsClean w w1 z1 h in
      elim (Outcome-cases (t.set_autocommit false w).0) [
        | inr (x, e) ↦ absurd (ground (arith, a.autocommit w))
        | inl (_, e) ↦
            rw (prepare_target_chunk, e)
              (
                ground (arith, a.lock config.target_database config.table.name w1),
                settled-IsClean w1 w2 z2 h1,
                λ b. ground (arith, settled-fewer b w w1 z1 h, settled-fewer b w1 w2 z2 h1),
              )
      ]

  pub loaded-ok :
      (w : W)
      → IsIdentified config (progress_of config (c.saved w))
      → let (result, w') = load_progress s t p config w in
        (result ≡ ok (progress_of config (c.saved w))) × IsQuiet c w w'
  unfolding load_progress validate_progress_identity
  loaded-ok w known =
      let q = laws.load_quiet config.run_id config.table.name w in
      elim (Outcome-cases (p.load config.run_id config.table.name w).0) [
        | inr (x, e) ↦ absurd (ground (arith, a.load w))
        | inl (loaded, e) ↦
            let same = laws.load_reads w loaded e in
            elim (Option-cases loaded) [
              | inl fresh ↦ rw (load_progress, e, fresh) (ground (arith, same), q)
              | inr (progress, found) ↦
                  let run = =?_iff progress.run_id config.run_id in
                  let table = =?_iff progress.table config.table.name in
                  rw (load_progress, e, found) (ground (arith, same, known, run, table), q)
            ]
      ]
