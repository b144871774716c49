-- ===== src/Sync/Window/Pages.antt =====
-- The loop over the target's pages (reconcile_target_pages of src/sync/chunk.rs), read one key at a
-- time.
use mariadb_mysql_cdc.Prelude.{
  ℕ, zero, suc, Key, Map, Bool, true, ◌&&◌, not, Option, none, some, is_some, List, [], ◌∷◌, ◌≡◌,
  ◌⊎◌, arith, key_ord, if◌then◌else◌, contains, lookup, inl, inr,
}
use mariadb_mysql_cdc.Sync.Exec.{ok, Outcome-cases}
use mariadb_mysql_cdc.Sync.Model.{
  DatabaseRow, SyncMutationPhase, insert_missing, update_divergent, delete_extras, includes,
  SyncChunkConfig, SyncChunkReadRequest, SyncChunkSource, SyncChunkTargetSession,
  SyncChunkProgressStore,
}
use mariadb_mysql_cdc.Sync.Window.{
  ChunkChanges, add_page, reconcile_target_page, delete_target_only_rows, delete_in_phase,
  page_rounds, last_key,
}
use mariadb_mysql_cdc.Sync.Window.Page.{
  divergent, page-left, page-deletes, page-updates, page-IsKeyed, page-IsDistinct, page-IsUnique,
}
use mariadb_mysql_cdc.Sync.Spec.{
  find, IsDistinct, first, IsKeyed, find-append, IsDistinct-append, find-rows_of, IsUnique,
  rows_of-IsDistinct,
}
use mariadb_mysql_cdc.Sync.Contract.{past, Contract, Laws}

abbrev pub page_request : SyncChunkConfig → Option Key → Key → SyncChunkReadRequest
page_request config start end_at = record {
  start_after = start;
  end_at = some end_at;
  limit = config.chunk_size;
}

module _ {W : Type 0} {s : SyncChunkSource W} {t : SyncChunkTargetSession W}
    {p : SyncChunkProgressStore W} {config : SyncChunkConfig} (c : Contract s t p config)
    (laws : Laws c) (phase : SyncMutationPhase) (k : Key) where
  -- A row stays, or it is deleted where the phase deletes and `gone` holds.
  abbrev pub IsThinned : Bool → W → W → Type 0
  IsThinned gone w w' =
      ((c.working w' k ≡ c.working w k)
        ⊎ ((gone && includes phase delete_extras ≡ true) × (c.working w' k ≡ none)))
      × (c.durable w' k ≡ c.durable w k)
      × (c.saved w' ≡ c.saved w)

  pub delete-IsThinned :
      (keys : List Key) (w : W)
      → IsThinned (contains k keys) w (delete_in_phase t config phase keys w).1
  unfolding delete_target_only_rows contains
  delete-IsThinned [] w = ground arith
  delete-IsThinned (j ∷ keys) w =
      let h = laws.delete_changed (j ∷ keys) w in
      ground (arith, h.changes k, h.not_durable k, h.not_saved)

  pub delete-removes :
      (keys : List Key) (w : W)
      → (delete_in_phase t config phase keys w).0 ≡ ok tt
      → c.working (delete_in_phase t config phase keys w).1 k
        ≡ (if contains k keys && includes phase delete_extras then none else c.working w k)
  unfolding delete_target_only_rows contains
  delete-removes [] w e = ground arith
  delete-removes (j ∷ keys) w e = ground (arith, laws.delete_done (j ∷ keys) w k)

  -- The keys of the window that the loop has not passed.
  abbrev pub fresh : Option Key → Key → Bool
  fresh start end_at = past c.upto start k && c.upto k end_at

  pub pages-IsThinned :
      (fuel : ℕ) (start : Option Key) (end_at : Key) (m : Map Key DatabaseRow)
      (changes : ChunkChanges) (w : W)
      → IsThinned
          (fresh start end_at && not (is_some (lookup k m)))
          w
          (page_rounds t config phase fuel start end_at m changes w).1
  unfolding page_rounds
  pages-IsThinned zero start end_at m changes w = ground arith
  pages-IsThinned (suc fuel) start end_at m changes w =
      elim (Outcome-cases (t.read_rows (page_request config start end_at) w).0) [
        | inr (e, eq) ↦
            let q = laws.target_quiet (page_request config start end_at) w in
            ground (arith, q.working_same k, q.durable_same k, q.saved_same)
        | inl (page, eq) ↦
            let q = laws.target_quiet (page_request config start end_at) w in
            let w1 = (t.read_rows (page_request config start end_at) w).1 in
            let i = laws.target_page (page_request config start end_at) w page eq in
            let found = reconcile_target_page config.table m page.rows in
            let w2 = (delete_in_phase t config phase found.0.deletes w1).1 in
            ground (
              arith,
              q.working_same k,
              q.durable_same k,
              q.saved_same,
              i.reads k,
              i.forward k,
              i.nonempty,
              page-deletes config.table k m page.rows i.distinct,
              page-left config.table k m page.rows,
              delete-IsThinned found.0.deletes w1,
              pages-IsThinned fuel (last_key page.rows) end_at found.1
                  (add_page t config phase found.0 changes) w2,
            )
      ]

  abbrev pub IsCompared :
      Option Key → Key → Map Key DatabaseRow → ChunkChanges → W → ChunkChanges → W → Type 0
  IsCompared start end_at m before w after w' =
      (c.working w' k ≡ (
        if fresh start end_at && not (is_some (lookup k m)) && includes phase delete_extras
        then none
        else c.working w k))
      × (find k after.updates
          ≡ first (find k before.updates) (
              if fresh start end_at && includes phase update_divergent
              then divergent config.table (lookup k m) (c.working w k)
              else none))
      × (find k after.inserts ≡ (
          if includes phase insert_missing
          then (if fresh start end_at && is_some (c.working w k) then none else lookup k m)
          else find k before.inserts))

  pub pages-IsCompared :
      (fuel : ℕ) (start : Option Key) (end_at : Key) (m : Map Key DatabaseRow)
      (before : ChunkChanges) (w : W) (after : ChunkChanges)
      → IsKeyed m
      → let (result, w') = page_rounds t config phase fuel start end_at m before w in
        result ≡ ok after → IsCompared start end_at m before w after w'
  unfolding page_rounds
  pages-IsCompared zero start end_at m before w after h e = ground arith
  pages-IsCompared (suc fuel) start end_at m before w after h e =
      elim (Outcome-cases (t.read_rows (page_request config start end_at) w).0) [
        | inr (x, eq) ↦ absurd (ground arith)
        | inl (page, eq) ↦
            let q = laws.target_quiet (page_request config start end_at) w in
            let w1 = (t.read_rows (page_request config start end_at) w).1 in
            let i = laws.target_page (page_request config start end_at) w page eq in
            let found = reconcile_target_page config.table m page.rows in
            let w2 = (delete_in_phase t config phase found.0.deletes w1).1 in
            let left = page-IsKeyed config.table m page.rows h in
            ground (
              arith,
              q.working_same k,
              i.reads k,
              i.forward k,
              i.nonempty,
              page-deletes config.table k m page.rows i.distinct,
              page-updates config.table k m page.rows i.distinct h,
              page-left config.table k m page.rows,
              delete-removes found.0.deletes w1,
              find-append k before.updates found.0.updates,
              find-rows_of k found.1 left,
              pages-IsCompared fuel (last_key page.rows) end_at found.1
                  (add_page t config phase found.0 before) w2 after left,
            )
      ]

-- The source rows to be updated are taken from the index.
abbrev pub IsTaken : List DatabaseRow → Map Key DatabaseRow → Type 0
IsTaken updates m = (k : Key) → (find k updates ≡ none) ⊎ (lookup k m ≡ none)

module _ {W : Type 0} {s : SyncChunkSource W} {t : SyncChunkTargetSession W}
    {p : SyncChunkProgressStore W} {config : SyncChunkConfig} (c : Contract s t p config)
    (laws : Laws c) (phase : SyncMutationPhase) where
  pub pages-IsDistinct :
      (fuel : ℕ) (start : Option Key) (end_at : Key) (m : Map Key DatabaseRow)
      (before : ChunkChanges) (w : W) (after : ChunkChanges)
      → IsKeyed m
      → IsDistinct before.updates
      → IsTaken before.updates m
      → (page_rounds t config phase fuel start end_at m before w).0 ≡ ok after
      → IsDistinct after.updates
  unfolding page_rounds
  pages-IsDistinct zero start end_at m before w after h d taken e = absurd (ground arith)
  pages-IsDistinct (suc fuel) start end_at m before w after h d taken e =
      elim (Outcome-cases (t.read_rows (page_request config start end_at) w).0) [
        | inr (x, eq) ↦ absurd (ground arith)
        | inl (page, eq) ↦
            let w1 = (t.read_rows (page_request config start end_at) w).1 in
            let i = laws.target_page (page_request config start end_at) w page eq in
            let found = reconcile_target_page config.table m page.rows in
            let w2 = (delete_in_phase t config phase found.0.deletes w1).1 in
            let left = page-IsKeyed config.table m page.rows h in
            let apart : (k : Key)
                → (find k before.updates ≡ none) ⊎ (find k found.0.updates ≡ none) =
              λ k. ground (arith, taken k, page-updates config.table k m page.rows i.distinct h) in
            let joined =
              IsDistinct-append before.updates found.0.updates d
                (page-IsDistinct config.table m page.rows i.distinct h) apart in
            let next : IsTaken (add_page t config phase found.0 before).updates found.1 = λ k.
              ground (
                arith,
                taken k,
                page-updates config.table k m page.rows i.distinct h,
                page-left config.table k m page.rows,
                find-append k before.updates found.0.updates,
              ) in
            let both : IsDistinct (add_page t config phase found.0 before).updates = ground arith in
            ground (
              arith,
              pages-IsDistinct fuel (last_key page.rows) end_at found.1
                  (add_page t config phase found.0 before) w2 after left both next,
            )
      ]

  pub inserts-IsDistinct :
      (fuel : ℕ) (start : Option Key) (end_at : Key) (m : Map Key DatabaseRow)
      (before : ChunkChanges) (w : W) (after : ChunkChanges)
      → IsKeyed m
      → IsUnique m
      → IsDistinct before.inserts
      → (page_rounds t config phase fuel start end_at m before w).0 ≡ ok after
      → IsDistinct after.inserts
  unfolding page_rounds
  inserts-IsDistinct zero start end_at m before w after h u d e = absurd (ground arith)
  inserts-IsDistinct (suc fuel) start end_at m before w after h u d e =
      elim (Outcome-cases (t.read_rows (page_request config start end_at) w).0) [
        | inr (x, eq) ↦ absurd (ground arith)
        | inl (page, eq) ↦
            let w1 = (t.read_rows (page_request config start end_at) w).1 in
            let found = reconcile_target_page config.table m page.rows in
            let w2 = (delete_in_phase t config phase found.0.deletes w1).1 in
            let left = page-IsKeyed config.table m page.rows h in
            let once = page-IsUnique config.table m page.rows u in
            ground (
              arith,
              rows_of-IsDistinct found.1 left once,
              inserts-IsDistinct fuel (last_key page.rows) end_at found.1
                  (add_page t config phase found.0 before) w2 after left once d,
            )
      ]
