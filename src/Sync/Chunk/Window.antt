-- ===== src/Sync/Chunk/Window.antt =====
-- What a window of source rows and the tail of the target come to (apply_source_window and
-- apply_target_tail of src/sync/chunk.rs), read one key at a time.
use mariadb_mysql_cdc.Prelude.{
  ℕ, Key, true, false, ◌&&◌, Option, none, some, [], ◌≡◌, refl, ◌⊎◌, inl, inr, arith, if◌then◌else◌,
  key_ord, contains, lookup, List-cases,
}
use mariadb_mysql_cdc.Sync.Exec.{ok, Outcome-cases}
use mariadb_mysql_cdc.Sync.Model.{
  SyncMutationPhase, SyncChunkConfig, SyncChunkReadRequest, SyncChunkProgress, SyncChunkPage,
  SyncChunkSource, SyncChunkTargetSession, SyncChunkProgressStore,
}
use mariadb_mysql_cdc.Sync.Window.{
  ChunkChanges, index_rows, keys_of_rows, last_key, reconcile_target_pages,
}
use mariadb_mysql_cdc.Sync.Window.Pages.{
  pages-IsThinned, pages-IsCompared, pages-IsDistinct, inserts-IsDistinct,
}
use mariadb_mysql_cdc.Sync.Spec.{
  synced, index_from-IsKeyed, index_from-IsUnique, lookup-index_from, contains-keys_of_rows,
}
use mariadb_mysql_cdc.Sync.Contract.{past, settled, IsPage, Contract, Laws, NoDuplicates}
use mariadb_mysql_cdc.Sync.Chunk.{
  record_progress, tail_progress, apply_source_window, apply_target_tail,
}
use mariadb_mysql_cdc.Sync.Chunk.Changes.{IsReady, changes-IsPartly}

abbrev pub chunk_request : SyncChunkConfig → Option Key → SyncChunkReadRequest
chunk_request config start = record {
  start_after = start;
  end_at = none;
  limit = config.chunk_size;
}

module _ {W : Type 0} {s : SyncChunkSource W} {t : SyncChunkTargetSession W}
    {p : SyncChunkProgressStore W} {config : SyncChunkConfig} (c : Contract s t p config)
    (laws : Laws c) (unique : NoDuplicates c) (fuel : ℕ) (phase : SyncMutationPhase) where
  -- The row of a key is untouched, or it is what the phase is to leave.
  abbrev pub IsTouched : Key → W → W → Type 0
  IsTouched k w w' =
      ((c.working w' k ≡ c.working w k)
        ⊎ (c.working w' k ≡ synced phase config.table (c.source k) (c.working w k)))
      × (c.durable w' k ≡ c.durable w k)
      × (c.saved w' ≡ c.saved w)

  module _ (progress : SyncChunkProgress) (page : SyncChunkPage) (end_at : Key) (w : W) (k : Key)
      (i : IsPage c.upto (chunk_request config progress.last_primary_key) c.source page)
      (e : last_key page.rows ≡ some end_at) where
    pub found :
        lookup k (index_rows page.rows)
        ≡ (if past c.upto progress.last_primary_key k && c.upto k end_at then c.source k else none)
    unfolding lookup
    found = ground (arith, lookup-index_from k [] page.rows i.distinct, i.reads k, i.ordered k)

  module _ (progress : SyncChunkProgress) (page : SyncChunkPage) (end_at : Key) (w : W)
      (i : IsPage c.upto (chunk_request config progress.last_primary_key) c.source page)
      (e : last_key page.rows ≡ some end_at) where
    -- What the pages leave to be done fits the target as they leave it.
    pub window-IsReady :
        (changes : ChunkChanges)
        → let (result, w1) =
            reconcile_target_pages t config phase fuel progress.last_primary_key end_at page.rows
              w in
          result ≡ ok changes → IsReady c changes w1
    unfolding reconcile_target_pages lookup
    window-IsReady changes eq =
        let start = progress.last_primary_key in
        let m = index_rows page.rows in
        let none_yet : ChunkChanges = record { deletes = 0; updates = []; inserts = [] } in
        let keyed = index_from-IsKeyed [] page.rows tt in
        let once = index_from-IsUnique [] page.rows tt i.distinct (λ j. inl refl) in
        let compared = λ (j : Key).
          pages-IsCompared c laws phase j fuel start end_at m none_yet w changes keyed eq in
        record {
          updates_distinct =
              pages-IsDistinct c laws phase fuel start end_at m none_yet w changes keyed tt
                (λ j. inl refl) eq;
          inserts_distinct =
              inserts-IsDistinct c laws phase fuel start end_at m none_yet w changes keyed once tt
                eq;
          updates_present = λ j. ground (arith, compared j);
          inserts_absent = λ j. ground (arith, compared j, found progress page end_at w j i e);
        }

  module _ (progress : SyncChunkProgress) (page : SyncChunkPage) (end_at : Key) (w : W) (k : Key)
      (i : IsPage c.upto (chunk_request config progress.last_primary_key) c.source page)
      (e : last_key page.rows ≡ some end_at) where
    pub window-IsTouched :
        let (result, w') =
          apply_source_window s t p config fuel phase progress end_at page.rows w in
        IsTouched k w w'
        × ((next : SyncChunkProgress)
            → result ≡ ok next
            → (c.working w' k ≡ (
                if past c.upto progress.last_primary_key k && c.upto k end_at
                then synced phase config.table (c.source k) (c.working w k)
                else c.working w k))
              × (next.last_primary_key ≡ some end_at)
              × (next.run_id ≡ progress.run_id)
              × (next.table ≡ progress.table)
              × (next.complete ≡ false))
    unfolding apply_source_window reconcile_target_pages record_progress
    window-IsTouched =
        let start = progress.last_primary_key in
        let m = index_rows page.rows in
        let none_yet : ChunkChanges = record { deletes = 0; updates = []; inserts = [] } in
        let keyed = index_from-IsKeyed [] page.rows tt in
        let pages = reconcile_target_pages t config phase fuel start end_at page.rows w in
        let thinned = pages-IsThinned c laws phase k fuel start end_at m none_yet w in
        elim (Outcome-cases pages.0) [
          | inr (x, eq) ↦
              (ground (arith, thinned, found progress page end_at w k i e), λ next o. ground arith)
          | inl (changes, eq) ↦
              let compared =
                pages-IsCompared c laws phase k fuel start end_at m none_yet w changes keyed eq in
              let changed =
                changes-IsPartly c laws unique fuel k phase changes pages.1
                  (window-IsReady progress page end_at w i e changes eq) in
              (
                ground (arith, thinned, compared, found progress page end_at w k i e, changed),
                λ next o.
                    ground (arith, thinned, compared, found progress page end_at w k i e, changed),
              )
        ]

  module _ (progress : SyncChunkProgress) (w : W) (k : Key)
      (absent : past c.upto progress.last_primary_key k ≡ true → c.source k ≡ none) where
    pub tail-IsTouched :
        let (result, w') = apply_target_tail s t p config fuel phase progress w in
        IsTouched k w w'
        × ((next : SyncChunkProgress)
            → result ≡ ok next
            → (past c.upto progress.last_primary_key k ≡ false → c.working w' k ≡ c.working w k)
              × (settled c.upto next k ≡ true
                  → past c.upto progress.last_primary_key k ≡ true
                  → c.working w' k ≡ synced phase config.table (c.source k) (c.working w k)))
    unfolding apply_target_tail tail_progress contains
    tail-IsTouched =
        let r = chunk_request config progress.last_primary_key in
        let q = laws.target_quiet r w in
        let w1 = (t.read_rows r w).1 in
        elim (Outcome-cases (t.read_rows r w).0) [
          | inr (x, eq) ↦ (
            ground (arith, q.working_same k, q.durable_same k, q.saved_same),
            λ next o. ground arith,
          )
          | inl (page, eq) ↦
              let i = laws.target_page r w page eq in
              elim (List-cases page.rows) [
                | inl empty ↦ (
                  ground (arith, q.working_same k, q.durable_same k, q.saved_same),
                  λ next o. ground (arith, q.working_same k, i.reads k, i.nonempty),
                )
                | inr (row, rows, some_rows) ↦
                    let keys = keys_of_rows page.rows in
                    let h = laws.delete_changed keys w1 in
                    (
                      ground (
                        arith,
                        q.working_same k,
                        q.durable_same k,
                        q.saved_same,
                        h.changes k,
                        h.not_durable k,
                        h.not_saved,
                        i.reads k,
                        contains-keys_of_rows k page.rows,
                      ),
                      λ next o. ground (
                        arith,
                        q.working_same k,
                        laws.delete_done keys w1 k,
                        i.reads k,
                        i.nonempty,
                        contains-keys_of_rows k page.rows,
                      ),
                    )
              ]
        ]
