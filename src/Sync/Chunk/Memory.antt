-- ===== src/Sync/Chunk/Memory.antt =====
-- A session on tables of one key, in memory: its calls.
pub mod Fulfils
pub mod Counts
use mariadb_mysql_cdc.Prelude.{
  ℕ, Name, Key, Map, Bool, true, false, ◌&&◌, not, Option, none, some, is_some, List, [], ◌∷◌, ◌≡◌,
  refl, ◌⊎◌, inl, inr, subst, arith, if◌then◌else◌, key_ord, nat_ord, ◌=?◌, =?_iff, contains,
  lookup, insert, lookup-insert, List-cases, codes,
}
use mariadb_mysql_cdc.Sync.Exec.{
  text, MutationKind, insertion, modification, Outcome, ok, err, Exec, pure, raise,
}
use mariadb_mysql_cdc.Sync.Model.{
  DatabaseRow, SyncChunkConfig, SyncChunkReadRequest, SyncMutationFailure, SyncChunkProgress,
  SyncChunkPage, MutationResult, applied, refused, SyncChunkSource, SyncChunkTargetSession,
  SyncChunkProgressStore,
}
use mariadb_mysql_cdc.Sync.Mutations.{mutate, is_duplicate}
use mariadb_mysql_cdc.Sync.Spec.{find, first}
use mariadb_mysql_cdc.Sync.Contract.{Rows, IsPage}

abbrev pub Cells : Type 0
Cells = Map Name (Option Name)

pub record Memory : Type 0 where
  pub seen : Option Cells
  pub kept : Option Cells
  pub runs : Map ℕ SyncChunkProgress

module _ (only : Key) where
  abbrev pub row_of : Cells → DatabaseRow
  row_of cells = record { primary_key = only; values = cells }

  abbrev pub rows_at : Option Cells → Rows
  rows_at none k = none
  rows_at (some cells) k = if only =? k then some (row_of cells) else none

  abbrev pub list_of : Option Cells → List DatabaseRow
  list_of none = []
  list_of (some cells) = row_of cells ∷ []

  abbrev pub page_of : SyncChunkReadRequest → Option Cells → SyncChunkPage
  page_of request cells = elim request.start_after [
    | none ↦ record { rows = list_of cells; has_more = false }
    | some _ ↦ record { rows = []; has_more = false }
  ]

  abbrev pub anywhere : Key → Key → Bool
  anywhere k bound = true

  pub requested-IsPage :
      (request : SyncChunkReadRequest) (cells : Option Cells)
      → IsPage anywhere request (rows_at cells) (page_of request cells)
  requested-IsPage request cells = record {
    distinct = ground arith;
    reads = λ k. ground arith;
    ordered = λ k. ground arith;
    forward = λ k. ground arith;
    nonempty = ground arith;
  }

  abbrev pub all_only : List DatabaseRow → Bool
  all_only [] = true
  all_only (row ∷ rows) = (row.primary_key =? only) && all_only rows

  -- The cells after a batch, where the session accepts it: a row is inserted where it is absent,
  -- updated where it is present, and the keys to be deleted are all there.
  abbrev pub after_write : MutationKind → List DatabaseRow → Option Cells → Option (Option Cells)
  after_write kind [] old = some old
  after_write insertion (row ∷ []) none =
      if row.primary_key =? only then some (some row.values) else none
  after_write modification (row ∷ []) (some _) =
      if row.primary_key =? only then some (some row.values) else none
  after_write kind rows old = none

  abbrev pub after_delete : List Key → Option Cells → Option (Option Cells)
  after_delete [] old = some old
  after_delete (k ∷ []) (some _) = if k =? only then some none else none
  after_delete keys old = none

  -- An insertion of a row that is present, or of two rows of the key, is a duplicate.
  abbrev pub refusal : MutationKind → List DatabaseRow → SyncMutationFailure
  refusal kind rows = record {
    mysql_code = elim kind [
      | insertion ↦ if all_only rows then some 1062 else none
      | modification ↦ none
    ];
    message = codes "rows";
    failed_batch = rows;
    remaining_rows = [];
  }

  abbrev pub write : MutationKind → List DatabaseRow → Memory → MutationResult × Memory
  write kind rows w = elim (after_write kind rows w.seen) [
    | none ↦ (refused (refusal kind rows), w)
    | some cells ↦ (applied, record w { seen = cells })
  ]

  abbrev pub delete : List Key → Exec Memory (Unit {0})
  delete keys w = elim (after_delete keys w.seen) [
    | none ↦ (err (text (codes "keys")), w)
    | some cells ↦ (ok tt, record w { seen = cells })
  ]

  pub rows_at-after_write :
      (kind : MutationKind) (rows : List DatabaseRow) (old new : Option Cells) (k : Key)
      → after_write kind rows old ≡ some new
      → rows_at new k ≡ first (find k rows) (rows_at old k)
  rows_at-after_write kind [] old new k e = ground arith
  rows_at-after_write insertion (row ∷ []) none new k e =
      ground (arith, =?_iff row.primary_key only, =?_iff row.primary_key k, =?_iff only k)
  rows_at-after_write insertion (row ∷ []) (some cells) new k e = ground arith
  rows_at-after_write modification (row ∷ []) none new k e = ground arith
  rows_at-after_write modification (row ∷ []) (some cells) new k e =
      ground (arith, =?_iff row.primary_key only, =?_iff row.primary_key k, =?_iff only k)
  rows_at-after_write insertion (_ ∷ _ ∷ _) old new k e = ground arith
  rows_at-after_write modification (_ ∷ _ ∷ _) old new k e = ground arith

  pub rows_at-after_delete :
      (keys : List Key) (old new : Option Cells) (k : Key)
      → after_delete keys old ≡ some new
      → rows_at new k ≡ (if contains k keys then none else rows_at old k)
  unfolding contains
  rows_at-after_delete [] old new k e = ground arith
  rows_at-after_delete (j ∷ []) none new k e = ground arith
  rows_at-after_delete (j ∷ []) (some cells) new k e =
      ground (arith, =?_iff j only, =?_iff j k, =?_iff only k)
  rows_at-after_delete (_ ∷ _ ∷ _) old new k e = ground arith

  abbrev pub session : SyncChunkTargetSession Memory
  session = record {
    set_autocommit = λ enabled. pure tt;
    lock_table_write = λ database table. pure tt;
    read_rows = λ request w. pure (page_of request w.seen) w;
    delete_rows = delete;
    update_rows = write modification;
    insert_rows = write insertion;
    inspect_unique_owner_conflicts = λ failure. pure [];
    reconcile_unique_owner = λ conflict action. pure tt;
    verify_rows = λ rows. pure tt;
    commit = λ w. (ok tt, record w { kept = w.seen });
    rollback = λ w. (ok tt, record w { seen = w.kept });
    unlock_tables = pure tt;
  }

  abbrev pub source_of : Option Cells → SyncChunkSource Memory
  source_of cells = record {
    read_rows = λ request. pure (page_of request cells);
    read_row_by_primary_key = λ k. pure (rows_at cells k);
  }

  abbrev pub run_store : ℕ → SyncChunkProgressStore Memory
  run_store run = record {
    load = λ run_id table w. (ok (lookup run w.runs), w);
    save = λ progress w. (ok tt, record w { runs = insert run progress w.runs });
  }
