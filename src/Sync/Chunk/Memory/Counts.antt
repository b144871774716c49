-- ===== src/Sync/Chunk/Memory/Counts.antt =====
-- The session in memory answers every call, and its rows can be counted.
use mariadb_mysql_cdc.Prelude.{
  ℕ, Key, true, Option, none, some, is_some, List, [], ◌∷◌, ◌≡◌, refl, arith, key_ord, ◌=?◌, =?_iff,
  contains,
}
use mariadb_mysql_cdc.Sync.Model.{DatabaseRow, SyncChunkConfig, applied}
use mariadb_mysql_cdc.Sync.Exec.{MutationKind, insertion, modification}
use mariadb_mysql_cdc.Sync.Mutations.{mutate}
use mariadb_mysql_cdc.Sync.Contract.{Fits, IsPresent}
use mariadb_mysql_cdc.Sync.Spec.{find, IsDistinct}
use mariadb_mysql_cdc.Sync.Chunk.Answered.{is_ok, IsFromSource, Answers, Counts}
use mariadb_mysql_cdc.Sync.Chunk.Memory.{Cells, Memory, all_only, write, delete, session, source_of}
use mariadb_mysql_cdc.Sync.Chunk.Memory.Fulfils.{memory_contract}

module _ (only : Key) where
  known_rows :
      (rows : List DatabaseRow)
      → ((k : Key) → is_some (find k rows) ≡ true → (only =? k) ≡ true)
      → all_only only rows ≡ true
  known_rows [] h = refl
  known_rows (row ∷ rows) h =
      let rest = known_rows rows (λ k e. ground (arith, h k)) in
      let k = row.primary_key in ground (arith, h k, =?_iff k k, =?_iff only k, =?_iff k only, rest)

  two_rows :
      (row other : DatabaseRow) (rows : List DatabaseRow)
      → ((k : Key) → is_some (find k (row ∷ other ∷ rows)) ≡ true → (only =? k) ≡ true)
      → ¬ IsDistinct (row ∷ other ∷ rows)
  two_rows row other rows h d =
      let known = known_rows (row ∷ other ∷ rows) h in
      ground (
        arith,
        known,
        d.0,
        =?_iff row.primary_key only,
        =?_iff other.primary_key only,
        =?_iff other.primary_key row.primary_key,
      )

  module _ (cells : Option Cells) (run : ℕ) (config : SyncChunkConfig) where
    -- Rows of the source that fit are none, or the one row.
    writes :
        (kind : MutationKind) (rows : List DatabaseRow) (w : Memory)
        → IsFromSource (memory_contract only cells run config) rows
        → Fits (memory_contract only cells run config) kind rows w
        → (write only kind rows w).0 ≡ applied
    writes kind [] w from fits = refl
    writes insertion (row ∷ []) w from fits =
        let known = known_rows (row ∷ []) (λ k e. ground (arith, from k)) in
        ground (arith, known, fits.1 only, =?_iff row.primary_key only, =?_iff only only)
    writes modification (row ∷ []) w from fits =
        let known = known_rows (row ∷ []) (λ k e. ground (arith, from k)) in
        ground (arith, known, fits.1 only, =?_iff row.primary_key only, =?_iff only only)
    writes insertion (row ∷ other ∷ rows) w from fits =
        absurd (two_rows row other rows (λ k e. ground (arith, from k)) fits.0)
    writes modification (row ∷ other ∷ rows) w from fits =
        absurd (two_rows row other rows (λ k e. ground (arith, from k)) fits.0)

    deletes :
        (keys : List Key) (w : Memory)
        → IsPresent (memory_contract only cells run config) keys w
        → is_ok (delete only keys w).0 ≡ true
    unfolding contains
    deletes [] w present = refl
    deletes (k ∷ []) w present =
        ground (arith, present.1 k, =?_iff k k, =?_iff k only, =?_iff only k)
    deletes (k ∷ j ∷ keys) w present = absurd (
        ground (
          arith,
          present.0.0,
          present.1 k,
          present.1 j,
          =?_iff k k,
          =?_iff j j,
          =?_iff only k,
          =?_iff only j,
          =?_iff j k,
        ))

    answered :
        (kind : MutationKind) (rows : List DatabaseRow) (w : Memory)
        → IsFromSource (memory_contract only cells run config) rows
        → Fits (memory_contract only cells run config) kind rows w
        → (mutate (source_of only cells) (session only) config.table.name kind rows w).0 ≡ applied
    answered insertion rows w from fits = writes insertion rows w from fits
    answered modification rows w from fits = writes modification rows w from fits

    pub memory_answers : Answers (memory_contract only cells run config)
    memory_answers = record {
      source_read = λ request w. refl;
      target_read = λ request w. refl;
      autocommit = λ w. refl;
      lock = λ a b w. refl;
      delete = deletes;
      write = answered;
      commit = λ w. refl;
      unlock = λ w. refl;
      load = λ w. refl;
      save = λ progress w. refl;
    }

    abbrev pub size : Option Cells → Option Key → ℕ
    size (some _) none = 1
    size _ _ = 0

    pub memory_counts : Counts (memory_contract only cells run config)
    memory_counts = record {
      source_left = size cells;
      target_left = λ start w. size w.seen start;
      source_moves = λ request w page end_at e last. ground arith;
      target_moves = λ request w page end_at e last. ground arith;
      source_past = λ start end_at h. ground (arith, h only);
      target_past = λ start end_at w h. ground (arith, h only);
      target_fewer = λ start w w' h. ground (arith, h only, =?_iff only only);
      target_less = λ start w w' k h after there gone.
          ground (arith, h only, =?_iff only k, =?_iff only only);
    }

    pub source_counted : (start : Option Key) → memory_counts.source_left start ≡ size cells start
    unfolding memory_counts
    source_counted start = refl

    pub target_counted :
        (start : Option Key) (w : Memory) → memory_counts.target_left start w ≡ size w.seen start
    unfolding memory_counts
    target_counted start w = refl
