-- ===== src/Sync/Stages/Order.antt =====
-- The order of the stages, and the statuses that a run leaves (run_sync_orchestration of
-- src/sync/orchestrate.rs).
use mariadb_mysql_cdc.Prelude.{
  Name, true, false, ◌&&◌, none, some, List, ◌∷◌, ◌≡◌, refl, ◌⊎◌, inl, inr, arith, name_ord, =?_iff,
  contains, if◌then◌else◌, List-cases,
}
use mariadb_mysql_cdc.Sync.Exec.{
  SyncStage, prerequisite_schema, rows, final_constraints, ok, ◌>>=◌, Outcome-cases,
}
use mariadb_mysql_cdc.Sync.Model.{SyncChunkProgress}
use mariadb_mysql_cdc.Sync.Stages.{
  complete, running, same_stage, stage_progress_row, is_complete, incomplete_stage_tables,
  SyncRunProgressStore, SyncRunExecutor, load_stage_progress, save_stage_statuses, run_incomplete,
  run_durable_schema_stage, run_sync_orchestration,
}
use mariadb_mysql_cdc.Sync.Stages.Contract.{StageContract}
use mariadb_mysql_cdc.Sync.Stages.Statuses.{load-reads, saved-writes, errors-history}

-- The rows were not finished: at most the prerequisites were started.
abbrev pub IsBeforeRows : List SyncStage → List SyncStage → Type 0
IsBeforeRows before now = (now ≡ before) ⊎ (now ≡ prerequisite_schema ∷ before)

-- The rows were finished once, after the prerequisites if these were started, and before the
-- constraints if these were.
abbrev pub IsAfterRows : List SyncStage → List SyncStage → Type 0
IsAfterRows before now =
    (now ≡ rows ∷ before)
    ⊎ (now ≡ rows ∷ prerequisite_schema ∷ before)
    ⊎ (now ≡ final_constraints ∷ rows ∷ before)
    ⊎ (now ≡ final_constraints ∷ rows ∷ prerequisite_schema ∷ before)

same_stage_refl : (stage : SyncStage) → same_stage stage stage ≡ true
same_stage_refl prerequisite_schema = refl
same_stage_refl rows = refl
same_stage_refl final_constraints = refl

module _ {W : Type 0} {x : SyncRunExecutor W} {p : SyncRunProgressStore W} {run_id : Name}
    (c : StageContract x p run_id) where
  incomplete-runs :
      (stage : SyncStage) (table : Name) (tables : List Name) (w : W)
      → let (result, w') = run_incomplete x p run_id stage (table ∷ tables) w in
        ((c.history w' ≡ c.history w) ⊎ (c.history w' ≡ stage ∷ c.history w))
        × (result ≡ ok tt
            → (at : SyncStage) (name : Name)
            → c.stored w' at name ≡ (
                if same_stage stage at && contains name (table ∷ tables)
                then some (stage_progress_row run_id stage name complete none)
                else c.stored w at name))
  incomplete-runs stage table tables w =
      let started = save_stage_statuses x p run_id stage (table ∷ tables) running w in
      let h1 = saved-writes c stage running (table ∷ tables) w in
      let action = x.run_schema_stage stage started.1 in
      let w2 = action.1 in
      let log = c.schema_history stage started.1 in
      elim (Outcome-cases started.0) [
        | inr (e, o) ↦ rw (◌>>=◌, o) (inl h1.0, λ done at name. ground arith)
        | inl (_, o) ↦ elim (Outcome-cases action.0) [
          | inr (e, u) ↦
              let failed = errors-history c stage (table ∷ tables) e e w2 in
              rw (◌>>=◌, o, u)
                (inr (ground (arith, failed, log, h1.0)), λ done at name. ground arith)
          | inl (_, u) ↦
              let h3 = saved-writes c stage complete (table ∷ tables) w2 in
              rw (◌>>=◌, o, u)
                (
                  inr (ground (arith, h3.0, log, h1.0)),
                  λ done at name. ground (
                    arith,
                    h3.1 (ground arith) at name,
                    h1.1 (ground arith) at name,
                    c.schema_keeps stage at name started.1,
                  ),
                )
        ]
      ]

  -- Every table of the run is complete at the stage.
  abbrev pub AllComplete : SyncStage → List Name → W → Type 0
  AllComplete stage tables w =
      (name : Name) → contains name tables ≡ true → is_complete (c.stored w stage name) ≡ true

  stage-runs :
      (stage : SyncStage) (tables : List Name) (w : W)
      → let (result, w') = run_durable_schema_stage x p run_id stage tables w in
        ((c.history w' ≡ c.history w) ⊎ (c.history w' ≡ stage ∷ c.history w))
        × (AllComplete stage tables w → c.history w' ≡ c.history w)
        × (result ≡ ok tt
            → AllComplete stage tables w'
              × ((at : SyncStage) (name : Name)
                  → same_stage stage at ≡ false
                  → c.stored w' at name ≡ c.stored w at name))
  unfolding run_durable_schema_stage contains
  stage-runs stage tables w =
      let call = load_stage_progress x p run_id stage tables w in
      let read = load-reads c stage tables w in
      elim (Outcome-cases call.0) [
        | inr (e, o) ↦
            rw (run_durable_schema_stage, o)
              (inl read.0, λ done. read.0, λ done. absurd (ground arith))
        | inl (existing, o) ↦ elim (List-cases (incomplete_stage_tables tables existing)) [
          | inl none_left ↦
              rw (run_durable_schema_stage, o, none_left)
                (
                  inl read.0,
                  λ done. read.0,
                  λ done. (
                    λ name there.
                        ground (arith, read.2 existing o name, read.1 stage name, none_left),
                    λ at name other. read.1 at name,
                  ),
                )
          | inr (table, others, some_left) ↦
              let run = incomplete-runs stage table others call.1 in
              rw (run_durable_schema_stage, o, some_left)
                (
                  ground (arith, run.0, read.0),
                  λ done. absurd (
                      ground (
                        arith,
                        done table,
                        read.2 existing o table,
                        some_left,
                        =?_iff table table,
                      )),
                  λ done. (
                    λ name there. ground (
                      arith,
                      run.1 done stage name,
                      read.2 existing o name,
                      read.1 stage name,
                      some_left,
                      same_stage_refl stage,
                    ),
                    λ at name other. ground (arith, run.1 done at name, read.1 at name),
                  ),
                )
        ]
      ]

  -- A run starts a schema stage at most once and in order: the prerequisites only before the rows and
  -- only where a table has not completed them, the constraints only after the rows were finished. A
  -- run that succeeds has finished the rows and leaves every table complete at both schema stages.
  pub run_sync_orchestration-stages :
      (tables : List Name) (w : W)
      → let (result, w') = run_sync_orchestration x p run_id tables w in
        (IsBeforeRows (c.history w) (c.history w') ⊎ IsAfterRows (c.history w) (c.history w'))
        × (AllComplete prerequisite_schema tables w
            → (c.history w' ≡ c.history w)
              ⊎ (c.history w' ≡ rows ∷ c.history w)
              ⊎ (c.history w' ≡ final_constraints ∷ rows ∷ c.history w))
        × ((reports : List SyncChunkProgress)
            → result ≡ ok reports
            → IsAfterRows (c.history w) (c.history w')
              × AllComplete prerequisite_schema tables w'
              × AllComplete final_constraints tables w')
  unfolding run_sync_orchestration
  run_sync_orchestration-stages tables w =
      let first = run_durable_schema_stage x p run_id prerequisite_schema tables w in
      let h1 = stage-runs prerequisite_schema tables w in
      let middle = x.run_rows first.1 in
      let h3 = stage-runs final_constraints tables middle.1 in
      let final = run_durable_schema_stage x p run_id final_constraints tables middle.1 in
      elim (Outcome-cases first.0) [
        | inr (e, o) ↦
            rw (run_sync_orchestration, o)
              (inl h1.0, λ done. inl (h1.1 done), λ reports f. absurd (ground arith))
        | inl (_, o) ↦ elim (Outcome-cases middle.0) [
          | inr (e, u) ↦
              let log = c.rows_failed first.1 e u in
              rw (run_sync_orchestration, o, u)
                (
                  inl (ground (arith, log, h1.0)),
                  λ done. inl (ground (arith, log, h1.1 done)),
                  λ reports f. absurd (ground arith),
                )
          | inl (reports, u) ↦
              let log = c.rows_done first.1 reports u in
              let after : IsAfterRows (c.history w) (c.history final.1) =
                ground (arith, log, h1.0, h3.0) in
              elim (Outcome-cases final.0) [
                | inr (e, v) ↦
                    rw (run_sync_orchestration, o, u, v)
                      (
                        inr after,
                        λ done. inr (ground (arith, log, h1.1 done, h3.0)),
                        λ reports' f. absurd (ground arith),
                      )
                | inl (_, v) ↦
                    let done1 = h1.2 (ground (arith, o)) in
                    let done3 = h3.2 (ground (arith, v)) in
                    rw (run_sync_orchestration, o, u, v)
                      (
                        inr after,
                        λ done. inr (ground (arith, log, h1.1 done, h3.0)),
                        λ reports' f. (
                          after,
                          λ name there. ground (
                            arith,
                            done1.0 name there,
                            c.rows_keep prerequisite_schema name first.1,
                            done3.1 prerequisite_schema name refl,
                          ),
                          done3.0,
                        ),
                      )
              ]
        ]
      ]
