-- ===== src/Sync/Stages/Statuses.antt =====
-- Loading and saving the statuses of a stage's tables (load_stage_progress, save_stage_statuses and
-- save_stage_errors of src/sync/orchestrate.rs).
use mariadb_mysql_cdc.Prelude.{
  Name, ◌&&◌, not, Option, none, some, List, [], ◌∷◌, ◌≡◌, refl, inl, inr, arith, name_ord, =?_iff,
  contains, if◌then◌else◌,
}
use mariadb_mysql_cdc.Sync.Exec.{SyncStage, SyncError, ok, Outcome-cases}
use mariadb_mysql_cdc.Sync.Stages.{
  SyncProgressStatus, error, validated, with_failure, SyncProgressRow, same_stage,
  stage_progress_row, validate_stage_progress, is_complete, incomplete_stage_tables,
  SyncRunProgressStore, SyncRunExecutor, load_stage_progress, save_stage_statuses,
  save_stage_errors,
}
use mariadb_mysql_cdc.Sync.Stages.Contract.{StageContract}

module _ {W : Type 0} {x : SyncRunExecutor W} {p : SyncRunProgressStore W} {run_id : Name}
    (c : StageContract x p run_id) where
  validated-same :
      (stage : SyncStage) (table : Name) (loaded row : Option SyncProgressRow)
      → validated run_id stage table loaded ≡ ok row
      → row ≡ loaded
  validated-same stage table none row e = ground arith
  validated-same stage table (some found) row e = ground arith

  pub load-reads :
      (stage : SyncStage) (tables : List Name) (w : W)
      → let (result, w') = load_stage_progress x p run_id stage tables w in
        (c.history w' ≡ c.history w)
        × ((at : SyncStage) (name : Name) → c.stored w' at name ≡ c.stored w at name)
        × ((existing : List (Option SyncProgressRow))
            → result ≡ ok existing
            → (table : Name)
            → contains table (incomplete_stage_tables tables existing)
              ≡ (contains table tables && not (is_complete (c.stored w stage table))))
  unfolding load_stage_progress validate_stage_progress incomplete_stage_tables contains
  load-reads stage [] w = (refl, λ at name. refl, λ existing e table. ground arith)
  load-reads stage (table ∷ tables) w =
      let call = p.load_stage run_id stage table w in
      let log = c.load_history stage table w in
      let keeps = λ (at : SyncStage) (name : Name). c.load_keeps stage at table name w in
      elim (Outcome-cases call.0) [
        | inr (e, o) ↦ rw (load_stage_progress, o) (log, keeps, λ existing f name. ground arith)
        | inl (loaded, o) ↦ elim (Outcome-cases (validated run_id stage table loaded)) [
          | inr (e, v) ↦
              rw (load_stage_progress, o, v) (log, keeps, λ existing f name. ground arith)
          | inl (row, v) ↦
              let rest = load-reads stage tables call.1 in
              let same = validated-same stage table loaded row v in
              let others = load_stage_progress x p run_id stage tables call.1 in
              elim (Outcome-cases others.0) [
                | inr (e, u) ↦
                    rw (load_stage_progress, o, v, u)
                      (
                        ground (arith, log, rest.0),
                        λ at name. ground (arith, keeps at name, rest.1 at name),
                        λ existing f name. ground arith,
                      )
                | inl (found, u) ↦
                    rw (load_stage_progress, o, v, u)
                      (
                        ground (arith, log, rest.0),
                        λ at name. ground (arith, keeps at name, rest.1 at name),
                        λ existing f name. ground (
                          arith,
                          rest.2 found u name,
                          keeps stage name,
                          same,
                          c.load_reads stage table w loaded o,
                          =?_iff table name,
                        ),
                      )
              ]
        ]
      ]

  pub saved-writes :
      (stage : SyncStage) (status : SyncProgressStatus) (tables : List Name) (w : W)
      → let (result, w') = save_stage_statuses x p run_id stage tables status w in
        (c.history w' ≡ c.history w)
        × (result ≡ ok tt
            → (at : SyncStage) (name : Name)
            → c.stored w' at name ≡ (
                if same_stage stage at && contains name tables
                then some (stage_progress_row run_id stage name status none)
                else c.stored w at name))
  unfolding save_stage_statuses contains
  saved-writes stage status [] w = (refl, λ e at name. ground arith)
  saved-writes stage status (table ∷ tables) w =
      let row = stage_progress_row run_id stage table status none in
      let call = p.save_stage row w in
      let rest = saved-writes stage status tables call.1 in
      elim (Outcome-cases call.0) [
        | inr (e, o) ↦ (ground (arith, c.save_history row w), λ done at name. ground arith)
        | inl (_, o) ↦ (
          ground (arith, c.save_history row w, rest.0),
          λ done at name. ground (
            arith,
            rest.1 (ground arith) at name,
            c.save_writes row at name w,
            =?_iff table name,
          ),
        )
      ]

  pub errors-history :
      (stage : SyncStage) (tables : List Name) (e told : SyncError) (w : W)
      → c.history (save_stage_errors x p run_id stage tables e told w).1 ≡ c.history w
  unfolding save_stage_errors
  errors-history stage [] e told w = refl
  errors-history stage (table ∷ tables) e told w =
      let row = stage_progress_row run_id stage table error (some e) in
      let call = p.save_stage row w in
      ground (
        arith,
        c.save_history row w,
        errors-history stage tables e (with_failure x p run_id stage table call.0 told) call.1,
      )
