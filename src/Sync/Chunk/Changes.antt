-- ===== src/Sync/Chunk/Changes.antt =====
-- Updates and insertions that no secondary unique key refuses (apply_strict_mutations and
-- apply_source_changes of src/sync/chunk.rs), read one key at a time.
use mariadb_mysql_cdc.Prelude.{
  ℕ, zero, suc, Key, List, [], ◌∷◌, ◌≡◌, refl, ◌⊎◌, inl, inr, arith, none, is_some, true, key_ord,
}
use mariadb_mysql_cdc.Sync.Exec.{MutationKind, insertion, modification, ok, Outcome-cases}
use mariadb_mysql_cdc.Sync.Model.{
  DatabaseRow, SyncMutationPhase, SyncChunkConfig, MutationResult, applied, refused,
  SyncMutationFailure, SyncChunkSource, SyncChunkTargetSession, SyncChunkProgressStore,
}
use mariadb_mysql_cdc.Sync.Mutations.{
  mutate, try_strict_mutation, strict_rounds, Repairs, no_repairs, apply_strict_mutations,
}
use mariadb_mysql_cdc.Sync.Window.{ChunkChanges}
use mariadb_mysql_cdc.Sync.Spec.{find, first, IsDistinct}
use mariadb_mysql_cdc.Sync.Contract.{Contract, Laws, NoDuplicates, OneRowPerKey, Fits}
use mariadb_mysql_cdc.Sync.Chunk.{apply_source_changes}

MutationResult-cases :
    (r : MutationResult) → (r ≡ applied) ⊎ ((f : SyncMutationFailure) × (r ≡ refused f))
MutationResult-cases applied = inl refl
MutationResult-cases (refused f) = inr (f, refl)

module _ {W : Type 0} {s : SyncChunkSource W} {t : SyncChunkTargetSession W}
    {p : SyncChunkProgressStore W} {config : SyncChunkConfig} (c : Contract s t p config) where
  -- The changes of a window: the rows to be updated are there, the rows to be inserted are not.
  pub record IsReady (changes : ChunkChanges) (w : W) : Type 0 where
    pub updates_distinct : IsDistinct changes.updates
    pub inserts_distinct : IsDistinct changes.inserts
    pub updates_present :
        (k : Key) → (find k changes.updates ≡ none) ⊎ (is_some (c.working w k) ≡ true)
    pub inserts_absent :
        (k : Key)
        → (find k changes.inserts ≡ none)
          ⊎ ((c.working w k ≡ none) × (find k changes.updates ≡ none))

  one_row :
      (kind : MutationKind) (rows : List DatabaseRow) (w : W)
      → Fits c kind rows w
      → OneRowPerKey kind rows
  one_row insertion rows w fits = tt
  one_row modification rows w fits = fits.0

module _ {W : Type 0} {s : SyncChunkSource W} {t : SyncChunkTargetSession W}
    {p : SyncChunkProgressStore W} {config : SyncChunkConfig} (c : Contract s t p config)
    (laws : Laws c) (unique : NoDuplicates c) (fuel : ℕ) (k : Key) where
  abbrev pub IsPartly : List DatabaseRow → W → W → Type 0
  IsPartly rows w w' =
      ((c.working w' k ≡ c.working w k) ⊎ (c.working w' k ≡ first (find k rows) (c.working w k)))
      × (c.durable w' k ≡ c.durable w k)
      × (c.saved w' ≡ c.saved w)

  rounds-IsPartly :
      (n : ℕ) (rows : List DatabaseRow) (kind : MutationKind) (w : W)
      → Fits c kind rows w
      → let (result, w') = strict_rounds s t config.table.name n kind rows no_repairs w in
        IsPartly rows w w'
        × ((r : Repairs)
            → result ≡ ok r
            → (r ≡ no_repairs) × (c.working w' k ≡ first (find k rows) (c.working w k)))
  unfolding strict_rounds try_strict_mutation
  rounds-IsPartly zero rows kind w fits = (ground arith, λ r e. ground arith)
  rounds-IsPartly (suc n) rows kind w fits =
      let one = one_row c kind rows w fits in
      let call = mutate s t config.table.name kind rows w in
      let h = laws.mutate_changed kind rows w one in
      elim (MutationResult-cases call.0) [
        | inl eq ↦ (
          ground (arith, h.changes k, h.not_durable k, h.not_saved),
          λ r e. ground (arith, laws.mutate_done kind rows w k one),
        )
        | inr (f, eq) ↦
            let no = unique kind rows w f fits eq in
            (ground (arith, h.changes k, h.not_durable k, h.not_saved), λ r e. ground arith)
      ]

  pub mutations-IsPartly :
      (rows : List DatabaseRow) (kind : MutationKind) (w : W)
      → Fits c kind rows w
      → let (result, w') = apply_strict_mutations s t config.table.name fuel rows kind w in
        IsPartly rows w w' × (result ≡ ok tt → c.working w' k ≡ first (find k rows) (c.working w k))
  unfolding apply_strict_mutations
  mutations-IsPartly [] kind w fits = ground arith
  mutations-IsPartly (row ∷ rows) kind w fits =
      let h = rounds-IsPartly fuel (row ∷ rows) kind w fits in
      elim (Outcome-cases
        (strict_rounds s t config.table.name fuel kind (row ∷ rows) no_repairs w).0) [
          | inl (r, e) ↦ ground (arith, h.1 r, h.0)
          | inr (x, e) ↦ ground (arith, h.0)
        ]

module _ {W : Type 0} {s : SyncChunkSource W} {t : SyncChunkTargetSession W}
    {p : SyncChunkProgressStore W} {config : SyncChunkConfig} (c : Contract s t p config)
    (laws : Laws c) (unique : NoDuplicates c) (fuel : ℕ) where
  abbrev updated : ChunkChanges → W → W
  updated changes w =
      (apply_strict_mutations s t config.table.name fuel changes.updates modification w).1

  pub updates-Fits :
      (changes : ChunkChanges) (w : W) → IsReady c changes w → Fits c modification changes.updates w
  updates-Fits changes w ready = (ready.updates_distinct, ready.updates_present)

  -- The updates leave the missing rows missing.
  pub inserts-Fits :
      (changes : ChunkChanges) (w : W)
      → IsReady c changes w
      → Fits c insertion changes.inserts (updated changes w)
  inserts-Fits changes w ready = (
    ready.inserts_distinct,
    λ j. ground (
      arith,
      ready.inserts_absent j,
      mutations-IsPartly c laws unique fuel j changes.updates modification w
          (updates-Fits changes w ready),
    ),
  )

  pub changes-IsPartly :
      (k : Key) (phase : SyncMutationPhase) (changes : ChunkChanges) (w : W)
      → IsReady c changes w
      → let (result, w') = apply_source_changes s t p config fuel phase changes w in
        ((c.working w' k ≡ c.working w k)
          ⊎ (c.working w' k ≡ first (find k changes.updates) (c.working w k))
          ⊎ (c.working w' k ≡ first (find k changes.inserts) (c.working w k))
          ⊎ (c.working w' k
              ≡ first (find k changes.inserts) (first (find k changes.updates) (c.working w k))))
        × (c.durable w' k ≡ c.durable w k)
        × (c.saved w' ≡ c.saved w)
        × (result ≡ ok tt
            → c.working w' k
              ≡ first (find k changes.inserts) (first (find k changes.updates) (c.working w k)))
  unfolding apply_source_changes
  changes-IsPartly k phase changes w ready = ground (
    arith,
    mutations-IsPartly c laws unique fuel k changes.updates modification w
        (updates-Fits changes w ready),
    mutations-IsPartly c laws unique fuel k changes.inserts insertion (updated changes w)
        (inserts-Fits changes w ready),
  )
