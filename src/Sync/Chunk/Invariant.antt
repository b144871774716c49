-- ===== src/Sync/Chunk/Invariant.antt =====
-- The invariant of a phase over its chunks: what the stored progress says of the rows, whatever
-- call fails (apply_locked_chunk, save_progress_and_unlock, rollback_and_unlock and
-- sync_next_chunk_with_phase of src/sync/chunk.rs).
use mariadb_mysql_cdc.Prelude.{
  ℕ, Key, Bool, true, Option, none, is_some, List, [], ◌∷◌, ◌≡◌, refl, ◌⊎◌, inl, inr, arith, subst,
  key_ord, List-cases, Option-cases,
}
use mariadb_mysql_cdc.Sync.Exec.{commit_chunk, ok, pure, map_err, ◌>>◌, Outcome-cases}
use mariadb_mysql_cdc.Sync.Model.{
  DatabaseRow, SyncMutationPhase, SyncChunkConfig, SyncChunkProgress, SyncChunkPage,
  SyncChunkSource, SyncChunkTargetSession, SyncChunkProgressStore,
}
use mariadb_mysql_cdc.Sync.Window.{last_key}
use mariadb_mysql_cdc.Sync.Spec.{synced, synced_again}
use mariadb_mysql_cdc.Sync.Contract.{
  Rows, past, settled, IsPage, Contract, IsQuiet, IsSettled, Laws, NoDuplicates,
}
use mariadb_mysql_cdc.Sync.Chunk.{
  apply_source_window, apply_target_tail, apply_rows, apply_locked_chunk,
}
use mariadb_mysql_cdc.Sync.Chunk.Window.{chunk_request, IsTouched, window-IsTouched, tail-IsTouched}

is_some-last_key :
    (row : DatabaseRow) (rows : List DatabaseRow) → is_some (last_key (row ∷ rows)) ≡ true
is_some-last_key row [] = refl
is_some-last_key row (x ∷ rows) = is_some-last_key x rows

empty_page-absent :
    (upto : Key → Key → Bool) (config : SyncChunkConfig) (start : Option Key) (rows : Rows)
    (page : SyncChunkPage) (k : Key)
    → IsPage upto (chunk_request config start) rows page
    → last_key page.rows ≡ none
    → past upto start k ≡ true
    → rows k ≡ none
empty_page-absent upto config start rows page k i e h = elim (List-cases page.rows) [
  | inl empty ↦ ground (arith, i.reads k, i.nonempty)
  | inr (row, rest, eq) ↦ absurd (ground (arith, is_some-last_key row rest))
]

module _ {W : Type 0} {s : SyncChunkSource W} {t : SyncChunkTargetSession W}
    {p : SyncChunkProgressStore W} {config : SyncChunkConfig} (c : Contract s t p config)
    (laws : Laws c) (unique : NoDuplicates c) (fuel : ℕ) (phase : SyncMutationPhase)
    (original : Rows) where
  -- The row that the phase is to leave, from the source and the original target row.
  abbrev pub goal : Rows
  goal k = synced phase config.table (c.source k) (original k)

  abbrev pub IsNear : SyncChunkProgress → Key → Option DatabaseRow → Type 0
  IsNear progress k row =
      ((row ≡ original k) ⊎ (row ≡ goal k)) × (settled c.upto progress k ≡ true → row ≡ goal k)

  abbrev pub IsNearAt : SyncChunkProgress → Key → W → Type 0
  IsNearAt progress k w = IsNear progress k (c.working w k) × IsNear progress k (c.durable w k)

  module _ (k : Key) where
    touched-IsNear :
        (progress : SyncChunkProgress) (row row' : Option DatabaseRow)
        → IsNear progress k row
        → (row' ≡ row) ⊎ (row' ≡ synced phase config.table (c.source k) row)
        → IsNear progress k row'
    touched-IsNear progress row row' near h =
        let again = synced_again phase config.table (c.source k) (original k) in
        (ground (arith, again, near), λ e. ground (arith, again, near))

    -- A row that the new progress leaves behind is done, now or before.
    done-IsNear :
        (progress next : SyncChunkProgress) (row row' : Option DatabaseRow)
        → IsNear progress k row
        → IsNear progress k row'
        → (settled c.upto next k ≡ true
            → (row' ≡ synced phase config.table (c.source k) row)
              ⊎ ((settled c.upto progress k ≡ true) × (row' ≡ row)))
        → IsNear next k row'
    done-IsNear progress next row row' near near' h =
        let again = synced_again phase config.table (c.source k) (original k) in
        (near'.0, λ e. ground (arith, again, near, near', h e))

    pub quiet-IsNear :
        (progress : SyncChunkProgress) (w w' : W)
        → IsQuiet c w w'
        → IsNearAt progress k w
        → IsNearAt progress k w'
    quiet-IsNear progress w w' q near = (rw (q.working_same k) near.0, rw (q.durable_same k) near.1)

    pub settled-IsNear :
        (progress : SyncChunkProgress) (w w' : W)
        → IsSettled c w w'
        → IsNearAt progress k w
        → IsNearAt progress k w'
    settled-IsNear progress w w' z near = (
      elim (z.working_either k) [ inl e ↦ rw e near.0 | inr e ↦ rw e near.1 ],
      elim (z.durable_either k) [ inl e ↦ rw e near.0 | inr e ↦ rw e near.1 ],
    )

    changed-IsNear :
        (progress : SyncChunkProgress) (w w' : W)
        → IsTouched c laws unique fuel phase k w w'
        → IsNearAt progress k w
        → IsNearAt progress k w'
    changed-IsNear progress w w' h near =
        (touched-IsNear progress (c.working w k) (c.working w' k) near.0 h.0, rw h.1 near.1)

    -- The rows of a chunk, before the commit.
    rows-IsNear :
        (progress : SyncChunkProgress) (page : SyncChunkPage) (w : W)
        → IsPage c.upto (chunk_request config progress.last_primary_key) c.source page
        → IsNearAt progress k w
        → let (result, w') =
            apply_rows s t p config fuel phase progress page.rows (last_key page.rows) w in
          IsNearAt progress k w'
          × (c.saved w' ≡ c.saved w)
          × ((next : SyncChunkProgress) → result ≡ ok next → IsNear next k (c.working w' k))
    rows-IsNear progress page w i near = elim (Option-cases (last_key page.rows)) [
      | inl none_left ↦
          let absent =
            empty_page-absent c.upto config progress.last_primary_key c.source page k i none_left in
          let h = tail-IsTouched c laws unique fuel phase progress w k absent in
          let w' = (apply_target_tail s t p config fuel phase progress w).1 in
          let near' = changed-IsNear progress w w' h.0 near in
          rw none_left (
            near',
            h.0.2,
            λ next o.
                done-IsNear progress next (c.working w k) (c.working w' k) near.0 near'.0
                  (λ e. ground (arith, h.1 next)),
          )
      | inr (end_at, some_left) ↦
          let h = window-IsTouched c laws unique fuel phase progress page end_at w k i some_left in
          let w' = (apply_source_window s t p config fuel phase progress end_at page.rows w).1 in
          let near' = changed-IsNear progress w w' h.0 near in
          rw some_left (
            near',
            h.0.2,
            λ next o.
                done-IsNear progress next (c.working w k) (c.working w' k) near.0 near'.0
                  (λ e. ground (arith, h.1 next)),
          )
    ]

    committed-IsNear :
        (progress next : SyncChunkProgress) (w : W)
        → IsNearAt progress k w
        → IsNear next k (c.working w k)
        → let (result, w') = (map_err (commit_chunk config.table.name) t.commit >> pure next) w in
          IsNearAt progress k w'
          × (c.saved w' ≡ c.saved w)
          × ((next' : SyncChunkProgress) → result ≡ ok next' → IsNearAt next' k w')
    committed-IsNear progress next w near done =
        let z = laws.commit_settled w in
        let near' = settled-IsNear progress w (t.commit w).1 z near in
        elim (Outcome-cases (t.commit w).0) [
          | inr (x, e) ↦ rw (◌>>◌, e) (near', z.saved_kept, λ next' o. ground arith)
          | inl (_, e) ↦
              rw (◌>>◌, e)
                (
                  near',
                  z.saved_kept,
                  λ next' o.
                      let same : next ≡ next' = ground arith in
                      subst (λ n. IsNearAt n k (t.commit w).1) same
                        (rw (laws.commit_keeps w k e) done, rw (laws.commit_done w k e) done),
                )
        ]

    pub locked-IsNear :
        (progress : SyncChunkProgress) (w : W)
        → IsNearAt progress k w
        → let (result, w') = apply_locked_chunk s t p config fuel phase progress w in
          IsNearAt progress k w'
          × (c.saved w' ≡ c.saved w)
          × ((next : SyncChunkProgress) → result ≡ ok next → IsNearAt next k w')
    unfolding apply_locked_chunk
    locked-IsNear progress w near =
        let r = chunk_request config progress.last_primary_key in
        let q = laws.source_quiet r w in
        let w1 = (s.read_rows r w).1 in
        let near1 = quiet-IsNear progress w w1 q near in
        elim (Outcome-cases (s.read_rows r w).0) [
          | inr (x, eq) ↦ rw eq (near1, q.saved_same, λ next o. ground arith)
          | inl (page, eq) ↦
              let h = rows-IsNear progress page w1 (laws.source_page r w page eq) near1 in
              let applied =
                apply_rows s t p config fuel phase progress page.rows (last_key page.rows) w1 in
              elim (Outcome-cases applied.0) [
                | inr (x, o) ↦
                    rw (apply_locked_chunk, eq, o)
                      (h.0, ground (arith, h.1, q.saved_same), λ next o'. ground arith)
                | inl (next, o) ↦
                    let done = committed-IsNear progress next applied.1 h.0 (h.2 next o) in
                    rw (apply_locked_chunk, eq, o)
                      (done.0, ground (arith, h.1, q.saved_same, done.1), done.2)
              ]
        ]
