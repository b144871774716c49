-- ===== src/Sync/Exec.antt =====
-- Fallible steps of a synchronisation on a world, which an error leaves as it is then. A message
-- that the code formats is kept as the constructor of its format, with the values put in.
use mathlib.Core.Path.{◌≡◌, refl}
use mathlib.Core.Logic.{◌⊎◌, inl, inr}
use mariadb_mysql_cdc.Prelude.{Name, Key}

pub data MutationKind : Type 0 where
  insertion modification : MutationKind

pub data SyncStage : Type 0 where
  prerequisite_schema rows final_constraints : SyncStage

pub data SyncError : Type 0 where
  text : Name → SyncError
  disable_autocommit lock_target unlock_target save_progress_failed load_progress_failed :
      Name → Name → SyncError → SyncError
  run_id_mismatch table_mismatch : Name → Name → Name → SyncError
  read_source_chunk read_target_chunk read_target_tail commit_chunk delete_target_only :
      Name → SyncError → SyncError
  mutation_failed : MutationKind → Name → Name → SyncError
  verify_reconciled inspect_conflict : Name → SyncError → SyncError
  read_source_owner reconcile_owner : Name → Name → SyncError → SyncError
  conflict_repeated : Name → Name → Key → SyncError
  same_primary_key ambiguous_identity owner_disagrees owner_incomplete legitimate_owner :
      Name → Name → SyncError
  column_absent column_null : Name → Name → SyncError
  load_stage_failed save_stage_failed save_stage_error_failed :
      SyncStage → Name → SyncError → SyncError
  stage_run_mismatch : SyncStage → Name → Name → Name → SyncError
  stage_mismatch : SyncStage → Name → SyncStage → SyncError
  stage_table_mismatch : SyncStage → Name → Name → SyncError
  no_selected_table : SyncError
  selected_duplicated selected_missing : Name → SyncError
  unselected_parent : Name → Name → SyncError
  phase_not_explicit : SyncError
  legacy_complete : Name → Name → SyncError
  not_a_row_stage : SyncStage → SyncError
  run_in_error : Name → Name → SyncError → SyncError
  unspecified_progress_error : SyncError
  -- `{first}; additionally {second}`
  additionally : SyncError → SyncError → SyncError
  rollback_failed unlock_failed : SyncError → SyncError
  -- `{first}; {second}`
  joined : SyncError → SyncError → SyncError
  -- A loop of the code that has not ended within the fuel.
  unfinished : SyncError

pub data Outcome (A : Type 0) : Type 0 where
  ok : A → Outcome A
  err : SyncError → Outcome A

pub Outcome-cases :
    {A : Type 0} (r : Outcome A) → ((a : A) × (r ≡ ok a)) ⊎ ((e : SyncError) × (r ≡ err e))
Outcome-cases (ok a) = inl (a, refl)
Outcome-cases (err e) = inr (e, refl)

abbrev pub map_ok : {A B : Type 0} → (A → B) → Outcome A → Outcome B
map_ok f (ok a) = ok (f a)
map_ok f (err e) = err e

abbrev pub error_as : {A : Type 0} → (SyncError → SyncError) → Outcome A → Outcome A
error_as f (ok a) = ok a
error_as f (err e) = err (f e)

abbrev pub Exec : Type 0 → Type 0 → Type 0
Exec W A = W → Outcome A × W

module _ {W A : Type 0} where
  abbrev pub from_outcome : Outcome A → Exec W A
  from_outcome r w = (r, w)

  abbrev pub pure : A → Exec W A
  pure a w = (ok a, w)

  abbrev pub raise : SyncError → Exec W A
  raise e w = (err e, w)

  abbrev pub map_err : (SyncError → SyncError) → Exec W A → Exec W A
  map_err f m w = (error_as f (m w).0, (m w).1)

module _ {W A B : Type 0} where
  abbrev pub continue : Outcome A → (A → Exec W B) → Exec W B
  continue (ok a) f w = f a w
  continue (err e) f w = (err e, w)

  infixl 10 ◌>>=◌ ◌>>◌
  abbrev pub ◌>>=◌ : Exec W A → (A → Exec W B) → Exec W B
  ◌>>=◌ m f w = continue (m w).0 f (m w).1

  abbrev pub ◌>>◌ : Exec W A → Exec W B → Exec W B
  m >> n = m >>= λ _. n
