-- ===== src/Sync/Chunk/Answered.antt =====
-- A chunk whose calls do not fail where they ask for what can be done (the loops of src/sync/chunk.rs): it ends, and it leaves fewer rows
-- to compare.
use mariadb_mysql_cdc.Prelude.{
  ℕ, zero, suc, ◌<◌, ◌≤◌, Name, Key, Map, Bool, true, false, Option, none, some, is_some, List, [],
  ◌∷◌, ◌≡◌, refl, ◌⊎◌, inl, inr, arith, key_ord, Option-cases,
}
use mariadb_mysql_cdc.Sync.Exec.{MutationKind, Outcome, ok, err, Outcome-cases}
use mariadb_mysql_cdc.Sync.Model.{
  DatabaseRow, SyncMutationPhase, SyncChunkConfig, SyncChunkReadRequest, SyncChunkProgress,
  SyncChunkPage, applied, SyncChunkSource, SyncChunkTargetSession, SyncChunkProgressStore,
}
use mariadb_mysql_cdc.Sync.Mutations.{
  mutate, try_strict_mutation, strict_rounds, apply_strict_mutations,
}
use mariadb_mysql_cdc.Sync.Window.{
  ChunkChanges, add_page, reconcile_target_page, delete_target_only_rows, delete_in_phase,
  page_rounds, last_key,
}
use mariadb_mysql_cdc.Sync.Window.Page.{page-deletes, page-IsOnce}
use mariadb_mysql_cdc.Sync.Window.Pages.{page_request, delete-IsThinned}
use mariadb_mysql_cdc.Sync.Spec.{find}
use mariadb_mysql_cdc.Sync.Contract.{past, Contract, Laws, Fits, IsPresent}

-- The progress is the one of its run and table.
abbrev pub IsIdentified : SyncChunkConfig → SyncChunkProgress → Type 0
IsIdentified config progress =
    (progress.run_id ≡ config.run_id) × (progress.table ≡ config.table.name)

abbrev pub is_ok : {A : Type 0} → Outcome A → Bool
is_ok (ok a) = true
is_ok (err e) = false

module _ {W : Type 0} {s : SyncChunkSource W} {t : SyncChunkTargetSession W}
    {p : SyncChunkProgressStore W} {config : SyncChunkConfig} (c : Contract s t p config) where
  -- The rows are rows of the source.
  abbrev pub IsFromSource : List DatabaseRow → Type 0
  IsFromSource rows = (k : Key) → (find k rows ≡ none) ⊎ (find k rows ≡ c.source k)

  -- Every call is answered, with the row counts that the session checks: keys of rows that are there
  -- can be deleted, and rows of the source can be inserted where they are absent and updated where
  -- they are present.
  pub record Answers : Type 0 where
    pub source_read :
        (request : SyncChunkReadRequest) (w : W) → is_ok (s.read_rows request w).0 ≡ true
    pub target_read :
        (request : SyncChunkReadRequest) (w : W) → is_ok (t.read_rows request w).0 ≡ true
    pub autocommit : (w : W) → is_ok (t.set_autocommit false w).0 ≡ true
    pub lock : (a b : Name) (w : W) → is_ok (t.lock_table_write a b w).0 ≡ true
    pub delete :
        (keys : List Key) (w : W) → IsPresent c keys w → is_ok (t.delete_rows keys w).0 ≡ true
    pub write :
        (kind : MutationKind) (rows : List DatabaseRow) (w : W)
        → IsFromSource rows
        → Fits c kind rows w
        → (mutate s t config.table.name kind rows w).0 ≡ applied
    pub commit : (w : W) → is_ok (t.commit w).0 ≡ true
    pub unlock : (w : W) → is_ok (t.unlock_tables w).0 ≡ true
    pub load : (w : W) → is_ok (p.load config.run_id config.table.name w).0 ≡ true
    pub save : (progress : SyncChunkProgress) (w : W) → is_ok (p.save progress w).0 ≡ true

  -- The numbers of rows after a key, in the source and in the target.
  pub record Counts : Type 0 where
    pub source_left : Option Key → ℕ
    pub target_left : Option Key → W → ℕ
    pub source_moves :
        (request : SyncChunkReadRequest) (w : W) (page : SyncChunkPage) (end_at : Key)
        → (s.read_rows request w).0 ≡ ok page
        → last_key page.rows ≡ some end_at
        → source_left (some end_at) < source_left request.start_after
    pub target_moves :
        (request : SyncChunkReadRequest) (w : W) (page : SyncChunkPage) (end_at : Key)
        → (t.read_rows request w).0 ≡ ok page
        → last_key page.rows ≡ some end_at
        → target_left (some end_at) w < target_left request.start_after w
    pub source_past :
        (start end_at : Option Key)
        → ((k : Key) → past c.upto end_at k ≡ true → past c.upto start k ≡ true)
        → source_left end_at ≤ source_left start
    pub target_past :
        (start end_at : Option Key) (w : W)
        → ((k : Key) → past c.upto end_at k ≡ true → past c.upto start k ≡ true)
        → target_left end_at w ≤ target_left start w
    -- No row after the key is new.
    pub target_fewer :
        (start : Option Key) (w w' : W)
        → ((k : Key)
            → past c.upto start k ≡ true
            → (c.working w' k ≡ c.working w k) ⊎ (c.working w' k ≡ none))
        → target_left start w' ≤ target_left start w
    pub target_less :
        (start : Option Key) (w w' : W) (k : Key)
        → ((j : Key)
            → past c.upto start j ≡ true
            → (c.working w' j ≡ c.working w j) ⊎ (c.working w' j ≡ none))
        → past c.upto start k ≡ true
        → is_some (c.working w k) ≡ true
        → c.working w' k ≡ none
        → target_left start w' < target_left start w

module _ {W : Type 0} {s : SyncChunkSource W} {t : SyncChunkTargetSession W}
    {p : SyncChunkProgressStore W} {config : SyncChunkConfig} {c : Contract s t p config}
    (laws : Laws c) (a : Answers c) (n : Counts c) (phase : SyncMutationPhase) where
  deleted-ok :
      (keys : List Key) (w : W)
      → IsPresent c keys w
      → is_ok (delete_in_phase t config phase keys w).0 ≡ true
  unfolding delete_target_only_rows
  deleted-ok [] w present = ground arith
  deleted-ok (k ∷ keys) w present = ground (arith, a.delete (k ∷ keys) w present)

  pub pages-ok :
      (fuel : ℕ) (start : Option Key) (end_at : Key) (m : Map Key DatabaseRow)
      (changes : ChunkChanges) (w : W)
      → n.target_left start w < fuel
      → is_ok (page_rounds t config phase fuel start end_at m changes w).0 ≡ true
  unfolding page_rounds
  pages-ok zero start end_at m changes w enough = absurd (ground arith)
  pages-ok (suc fuel) start end_at m changes w enough =
      let request = page_request config start end_at in
      let w1 = (t.read_rows request w).1 in
      elim (Outcome-cases (t.read_rows request w).0) [
        | inr (x, e) ↦ absurd (ground (arith, a.target_read request w))
        | inl (page, e) ↦
            let q = laws.target_quiet request w in
            let i = laws.target_page request w page e in
            let found = reconcile_target_page config.table m page.rows in
            let keys = found.0.deletes in
            let w2 = (delete_in_phase t config phase keys w1).1 in
            let deleted = deleted-ok keys w1 (
              page-IsOnce config.table m page.rows i.distinct,
              λ k. ground (
                arith,
                q.working_same k,
                i.reads k,
                page-deletes config.table k m page.rows i.distinct,
              ),
            ) in
            let fewer = λ (b : Option Key).
              n.target_fewer b w w2 (λ k j.
                ground (arith, q.working_same k, delete-IsThinned c laws phase k keys w1)) in
            elim (Option-cases (last_key page.rows)) [
              | inl none_left ↦ ground (arith, deleted, i.nonempty)
              | inr (l, some_left) ↦ ground (
                arith,
                deleted,
                fewer (some l),
                n.target_moves request w page l,
                pages-ok fuel (last_key page.rows) end_at found.1
                    (add_page t config phase found.0 changes) w2,
              )
            ]
      ]

  pub mutations-ok :
      (fuel : ℕ) (rows : List DatabaseRow) (kind : MutationKind) (w : W)
      → 0 < fuel
      → IsFromSource c rows
      → Fits c kind rows w
      → is_ok (apply_strict_mutations s t config.table.name fuel rows kind w).0 ≡ true
  unfolding apply_strict_mutations strict_rounds try_strict_mutation
  mutations-ok fuel [] kind w some_fuel from fits = refl
  mutations-ok zero (row ∷ rows) kind w some_fuel from fits = absurd (ground arith)
  mutations-ok (suc fuel) (row ∷ rows) kind w some_fuel from fits =
      let done = a.write kind (row ∷ rows) w from fits in ground (arith, done)
