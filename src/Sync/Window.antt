-- ===== src/Sync/Window.antt =====
-- The comparison of a window of source rows with the target's pages (reconcile_target_pages and
-- the functions below it in src/sync/chunk.rs).
pub mod Page
pub mod Pages
use mariadb_mysql_cdc.Prelude.{
  ℕ, zero, suc, ◌+◌, Name, Key, Map, Bool, true, false, ◌&&◌, ◌||◌, not, Option, none, some, List,
  [], ◌∷◌, ◌++◌, map, length, last, name_ord, key_ord, ◌=?◌, if◌then◌else◌, contains, lookup,
  insert, remove,
}
use mariadb_mysql_cdc.Sync.Exec.{
  read_target_chunk, delete_target_only, unfinished, ok, err, Exec, pure, raise, map_err, ◌>>=◌,
  ◌>>◌,
}
use mariadb_mysql_cdc.Sync.Model.{
  DatabaseRow, SyncTable, SyncMutationPhase, insert_missing, update_divergent, delete_extras,
  includes, SyncChunkConfig, add_u64, SyncChunkTargetSession, SyncChunkPage,
}

-- The last row of a key stays.
abbrev pub index_from : Map Key DatabaseRow → List DatabaseRow → Map Key DatabaseRow
index_from m [] = m
index_from m (row ∷ rows) = index_from (insert row.primary_key row m) rows

abbrev pub index_rows : List DatabaseRow → Map Key DatabaseRow
index_rows rows = index_from [] rows

-- `Option<&Option<String>>` by value.
abbrev pub same_cell : Option (Option Name) → Option (Option Name) → Bool
same_cell none none = true
same_cell (some none) (some none) = true
same_cell (some (some a)) (some (some b)) = a =? b
same_cell _ _ = false

unfoldable pub any_diverges : SyncTable → List Name → DatabaseRow → DatabaseRow → Bool
any_diverges table [] source target = false
any_diverges table (column ∷ columns) source target =
    let rest = any_diverges table columns source target in
    (not (contains column table.primary_key)
      && not (same_cell (lookup column source.values) (lookup column target.values)))
    || rest

abbrev pub rows_diverge : SyncTable → DatabaseRow → DatabaseRow → Bool
rows_diverge table source target = any_diverges table table.columns source target

pub record TargetPageChanges : Type 0 where
  pub deletes : List Key
  pub updates : List DatabaseRow

pub record ChunkChanges : Type 0 where
  pub deletes : ℕ
  pub updates : List DatabaseRow
  pub inserts : List DatabaseRow

abbrev pub delete_key : Key → TargetPageChanges → TargetPageChanges
delete_key k changes = record changes { deletes = k ∷ changes.deletes }

abbrev pub update_row : Bool → DatabaseRow → TargetPageChanges → TargetPageChanges
update_row false row changes = changes
update_row true row changes = record changes { updates = row ∷ changes.updates }

-- The source rows that no target row has taken yet come back beside the changes.
unfoldable pub reconcile_target_page :
    SyncTable → Map Key DatabaseRow → List DatabaseRow → TargetPageChanges × Map Key DatabaseRow
reconcile_target_page table source_by_key [] =
    (record { deletes = []; updates = [] }, source_by_key)
reconcile_target_page table source_by_key (row ∷ rows) =
    let rest = reconcile_target_page table (remove row.primary_key source_by_key) rows in
    elim (lookup row.primary_key source_by_key) [
      | none ↦ (delete_key row.primary_key rest.0, rest.1)
      | some source_row ↦ (update_row (rows_diverge table source_row row) source_row rest.0, rest.1)
    ]

abbrev pub keys_of_rows : List DatabaseRow → List Key
keys_of_rows rows = map (λ row. row.primary_key) rows

abbrev pub last_key : List DatabaseRow → Option Key
last_key rows = last (keys_of_rows rows)

abbrev pub rows_of : Map Key DatabaseRow → List DatabaseRow
rows_of m = map (λ entry. entry.1) m

module _ {W : Type 0} (target : SyncChunkTargetSession W) where
  unfoldable pub delete_target_only_rows : Name → List Key → Exec W (Unit {0})
  delete_target_only_rows table [] = pure tt
  delete_target_only_rows table (k ∷ keys) =
      map_err (delete_target_only table) (target.delete_rows (k ∷ keys))

  module _ (config : SyncChunkConfig) (phase : SyncMutationPhase) where
    abbrev pub delete_in_phase : List Key → Exec W (Unit {0})
    delete_in_phase keys =
        if includes phase delete_extras
        then delete_target_only_rows config.table.name keys
        else pure tt

    abbrev pub add_page : TargetPageChanges → ChunkChanges → ChunkChanges
    add_page page changes = record {
      deletes =
          if includes phase delete_extras
          then add_u64 changes.deletes (length page.deletes)
          else changes.deletes;
      updates =
          if includes phase update_divergent
          then changes.updates ++ page.updates
          else changes.updates;
      inserts = changes.inserts;
    }

    abbrev pub missing_rows : Map Key DatabaseRow → ChunkChanges → ChunkChanges
    missing_rows left changes = record changes {
      inserts = if includes phase insert_missing then rows_of left else changes.inserts;
    }

    -- The loop over the target's pages, on fuel.
    unfoldable pub page_rounds :
        ℕ → Option Key → Key → Map Key DatabaseRow → ChunkChanges → Exec W ChunkChanges
    unfolding delete_target_only_rows reconcile_target_page
    page_rounds zero start_after end_at source_by_key changes = raise unfinished
    page_rounds (suc fuel) start_after end_at source_by_key changes =
        map_err (read_target_chunk config.table.name) (
          target.read_rows
            (record { start_after = start_after; end_at = some end_at; limit = config.chunk_size }))
        >>= λ page.
            let found = reconcile_target_page config.table source_by_key page.rows in
            delete_in_phase found.0.deletes >> elim page.has_more [
              | false ↦ pure (missing_rows found.1 (add_page found.0 changes))
              | true ↦
                  page_rounds fuel (last_key page.rows) end_at found.1 (add_page found.0 changes)
            ]

    unfoldable pub reconcile_target_pages :
        ℕ → Option Key → Key → List DatabaseRow → Exec W ChunkChanges
    unfolding page_rounds
    reconcile_target_pages fuel start_after end_at source_rows =
        page_rounds fuel start_after end_at (index_rows source_rows)
          (record { deletes = 0; updates = []; inserts = [] })
