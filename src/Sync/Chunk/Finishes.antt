-- ===== src/Sync/Chunk/Finishes.antt =====
-- The loop of a phase ends (run_table_phase of src/sync/phased_run.rs), where no call fails.
use mariadb_mysql_cdc.Prelude.{
  ℕ, ◌+◌, ◌<◌, ◌≤◌, Key, true, Option, none, some, [], ◌≡◌, ◌⊎◌, inl, inr, arith, key_ord, =?_iff,
  contains, List-cases, Option-cases, Bool-cases,
}
use mariadb_mysql_cdc.Sync.Exec.{insertion, modification, Outcome, ok, Outcome-cases}
use mariadb_mysql_cdc.Sync.Model.{
  SyncMutationPhase, delete_extras, includes, SyncChunkConfig, SyncChunkProgress, SyncChunkPage,
  SyncChunkSource, SyncChunkTargetSession, SyncChunkProgressStore,
}
use mariadb_mysql_cdc.Sync.Mutations.{apply_strict_mutations}
use mariadb_mysql_cdc.Sync.Window.{
  ChunkChanges, keys_of_rows, last_key, index_rows, reconcile_target_pages,
}
use mariadb_mysql_cdc.Sync.Window.Pages.{pages-IsCompared}
use mariadb_mysql_cdc.Sync.Spec.{index_from-IsKeyed, contains-keys_of_rows, keys_of_rows-IsOnce}
use mariadb_mysql_cdc.Sync.Contract.{IsPage, Contract, Laws, NoDuplicates}
use mariadb_mysql_cdc.Sync.Chunk.{
  apply_source_changes, apply_source_window, apply_target_tail, tail_progress, apply_rows,
}
use mariadb_mysql_cdc.Sync.Chunk.Window.{chunk_request, found, window-IsReady, window-IsTouched}
use mariadb_mysql_cdc.Sync.Chunk.Changes.{IsReady, updates-Fits, inserts-Fits}
use mariadb_mysql_cdc.Sync.Chunk.Answered.{
  is_ok, IsFromSource, Answers, Counts, pages-ok, mutations-ok,
}

module _ {W : Type 0} {s : SyncChunkSource W} {t : SyncChunkTargetSession W}
    {p : SyncChunkProgressStore W} {config : SyncChunkConfig} {c : Contract s t p config}
    (laws : Laws c) (unique : NoDuplicates c) (a : Answers c) (n : Counts c) (fuel : ℕ)
    (phase : SyncMutationPhase) where
  abbrev pub rows_left : SyncChunkProgress → W → ℕ
  rows_left progress w =
      n.source_left progress.last_primary_key + n.target_left progress.last_primary_key w

  -- The progress of a chunk is complete, or fewer rows are left to compare.
  abbrev pub IsLess : SyncChunkProgress → W → SyncChunkProgress → W → Type 0
  IsLess progress w next w' =
      (n.target_left next.last_primary_key w' ≤ n.target_left progress.last_primary_key w)
      × (next.run_id ≡ progress.run_id)
      × (next.table ≡ progress.table)
      × ((next.complete ≡ true) ⊎ (rows_left next w' < rows_left progress w))

  abbrev pub Advances : SyncChunkProgress → W → Outcome SyncChunkProgress → W → Type 0
  Advances progress w result w' =
      (is_ok result ≡ true)
      × ((next : SyncChunkProgress) → result ≡ ok next → IsLess progress w next w')

  changed-ok :
      (changes : ChunkChanges) (w : W)
      → 0 < fuel
      → IsFromSource c changes.updates
      → IsFromSource c changes.inserts
      → IsReady c changes w
      → is_ok (apply_source_changes s t p config fuel phase changes w).0 ≡ true
  unfolding apply_source_changes
  changed-ok changes w some_fuel updates inserts ready =
      let w1 =
        (apply_strict_mutations s t config.table.name fuel changes.updates modification w).1 in
      let updated =
        mutations-ok laws a n phase fuel changes.updates modification w some_fuel updates
          (updates-Fits c laws unique fuel changes w ready) in
      let inserted =
        mutations-ok laws a n phase fuel changes.inserts insertion w1 some_fuel inserts
          (inserts-Fits c laws unique fuel changes w ready) in
      ground (arith, updated, inserted)

  window-Advances :
      (progress : SyncChunkProgress) (page : SyncChunkPage) (end_at : Key) (w w0 : W)
      → IsPage c.upto (chunk_request config progress.last_primary_key) c.source page
      → (s.read_rows (chunk_request config progress.last_primary_key) w0).0 ≡ ok page
      → last_key page.rows ≡ some end_at
      → n.target_left progress.last_primary_key w < fuel
      → let (result, w') =
          apply_source_window s t p config fuel phase progress end_at page.rows w in
        Advances progress w result w'
  unfolding apply_source_window reconcile_target_pages
  window-Advances progress page end_at w w0 i e last enough =
      let start = progress.last_primary_key in
      let pages = reconcile_target_pages t config phase fuel start end_at page.rows w in
      let w' = (apply_source_window s t p config fuel phase progress end_at page.rows w).1 in
      let none_yet : ChunkChanges = record { deletes = 0; updates = []; inserts = [] } in
      let compared =
        pages-ok laws a n phase fuel start end_at (index_rows page.rows) none_yet w enough in
      let touched =
        λ (k : Key). window-IsTouched c laws unique fuel phase progress page end_at w k i last in
      (
        elim (Outcome-cases pages.0) [
          | inr (x, o) ↦ ground (arith, compared)
          | inl (changes, o) ↦
              let all = λ (k : Key).
                pages-IsCompared c laws phase k fuel start end_at (index_rows page.rows) none_yet w
                  changes (index_from-IsKeyed [] page.rows tt) o in
              let indexed =
                λ (k : Key). found c laws unique fuel phase progress page end_at w k i last in
              let updates : IsFromSource c changes.updates =
                λ k. ground (arith, all k, indexed k) in
              let inserts : IsFromSource c changes.inserts =
                λ k. ground (arith, all k, indexed k) in
              let ready =
                window-IsReady c laws unique fuel phase progress page end_at w i last changes o in
              let changed = changed-ok changes pages.1 (ground arith) updates inserts ready in
              ground (arith, changed)
        ],
        λ next o.
            let fewer =
              n.target_fewer (some end_at) w w' (λ k j. ground (arith, (touched k).1 next o)) in
            let later = n.target_past start (some end_at) w (λ k j. ground (arith, i.forward k)) in
            ground (
              arith,
              (touched []).1 next o,
              fewer,
              later,
              n.source_moves (chunk_request config start) w0 page end_at e last,
            ),
      )

  tail-Advances :
      (progress : SyncChunkProgress) (w : W)
      → let (result, w') = apply_target_tail s t p config fuel phase progress w in
        Advances progress w result w'
  unfolding apply_target_tail tail_progress contains
  tail-Advances progress w =
      let start = progress.last_primary_key in
      let request = chunk_request config start in
      let q = laws.target_quiet request w in
      let w1 = (t.read_rows request w).1 in
      elim (Outcome-cases (t.read_rows request w).0) [
        | inr (x, e) ↦ absurd (ground (arith, a.target_read request w))
        | inl (page, e) ↦
            let i = laws.target_page request w page e in
            let same = λ (b : Option Key). n.target_fewer b w w1 (λ k j. inl (q.working_same k)) in
            elim (List-cases page.rows) [
              | inl empty ↦ (ground arith, λ next o. ground (arith, same start, i.nonempty))
              | inr (row, rest, some_rows) ↦
                  let keys = keys_of_rows page.rows in
                  let w2 = (t.delete_rows keys w1).1 in
                  let k = row.primary_key in
                  let answered = a.delete keys w1 (
                    keys_of_rows-IsOnce page.rows i.distinct,
                    λ j.
                        ground
                          (arith, q.working_same j, i.reads j, contains-keys_of_rows j page.rows),
                  ) in
                  elim (Bool-cases (includes phase delete_extras)) [
                    | inl deletes ↦
                        let gone = λ (j : Key).
                          let done = laws.delete_done keys w1 j in
                          let met : (c.working w2 j ≡ c.working w j) ⊎ (c.working w2 j ≡ none) =
                            ground (arith, q.working_same j, done, answered) in
                          met in
                        (
                          ground (arith, answered),
                          λ next o. ground (
                            arith,
                            answered,
                            n.target_fewer start w w2 (λ j h. gone j),
                            n.target_less start w w2 k (λ j h. gone j),
                            i.reads k,
                            =?_iff k k,
                            contains-keys_of_rows k page.rows,
                            laws.delete_done keys w1 k,
                          ),
                        )
                    | inr stays ↦ elim (Option-cases (last_key page.rows)) [
                      | inl none_left ↦
                          (ground arith, λ next o. ground (arith, same start, i.nonempty))
                      | inr (l, some_left) ↦
                          let later =
                            n.source_past start (some l) (λ j h. ground (arith, i.forward j)) in
                          (
                            ground arith,
                            λ next o.
                                ground
                                  (arith, same (some l), n.target_moves request w page l, later),
                          )
                    ]
                  ]
            ]
      ]

  pub rows-Advances :
      (progress : SyncChunkProgress) (page : SyncChunkPage) (w w0 : W)
      → IsPage c.upto (chunk_request config progress.last_primary_key) c.source page
      → (s.read_rows (chunk_request config progress.last_primary_key) w0).0 ≡ ok page
      → n.target_left progress.last_primary_key w < fuel
      → let (result, w') =
          apply_rows s t p config fuel phase progress page.rows (last_key page.rows) w in
        Advances progress w result w'
  rows-Advances progress page w w0 i e enough = elim (Option-cases (last_key page.rows)) [
    | inl none_left ↦ rw none_left (tail-Advances progress w)
    | inr (end_at, some_left) ↦
        rw some_left (window-Advances progress page end_at w w0 i e some_left enough)
  ]
