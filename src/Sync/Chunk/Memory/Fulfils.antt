-- ===== src/Sync/Chunk/Memory/Fulfils.antt =====
-- The session in memory fulfils the contract that a chunk relies on.
use mariadb_mysql_cdc.Prelude.{
  ℕ, Key, Option, [], ◌∷◌, Option-cases, List, ◌≡◌, refl, inl, inr, subst, arith, key_ord, nat_ord,
  =?_iff, lookup, lookup-insert,
}
use mariadb_mysql_cdc.Sync.Exec.{MutationKind, insertion, modification, Outcome, ok}
use mariadb_mysql_cdc.Sync.Model.{DatabaseRow, SyncChunkConfig, applied}
use mariadb_mysql_cdc.Sync.Mutations.{mutate}
use mariadb_mysql_cdc.Sync.Contract.{
  IsPage, Contract, IsQuiet, IsSettled, IsChanged, deleted, written, Laws, NoDuplicates,
}
use mariadb_mysql_cdc.Sync.Chunk.Memory.{
  Cells, Memory, rows_at, anywhere, requested-IsPage, after_write, after_delete,
  rows_at-after_write, rows_at-after_delete, delete, write, session, source_of, run_store,
}

ok-injective : {A : Type 0} {a b : A} → ◌≡◌ {A = Outcome A} (ok a) (ok b) → a ≡ b
ok-injective e = ground arith

module _ (only : Key) where
  module _ (cells : Option Cells) (run : ℕ) (config : SyncChunkConfig) where
    abbrev pub memory_contract :
        Contract (source_of only cells) (session only) (run_store only run) config
    memory_contract = record {
      upto = anywhere only;
      source = rows_at only cells;
      working = λ w. rows_at only w.seen;
      durable = λ w. rows_at only w.kept;
      saved = λ w. lookup run w.runs;
    }

    same-IsQuiet : (w : Memory) → IsQuiet memory_contract w w
    same-IsQuiet w = record {
      working_same = λ k. refl;
      durable_same = λ k. refl;
      saved_same = refl;
    }

    same-IsSettled : (w : Memory) → IsSettled memory_contract w w
    same-IsSettled w = record {
      working_either = λ k. inl refl;
      durable_either = λ k. inr refl;
      saved_kept = refl;
    }

    write_done :
        (kind : MutationKind) (rows : List DatabaseRow) (w : Memory) (k : Key)
        → (write only kind rows w).0 ≡ applied
        → rows_at only (write only kind rows w).1.seen k
          ≡ written memory_contract rows k (rows_at only w.seen k)
    write_done kind rows w k e = elim (Option-cases (after_write only kind rows w.seen)) [
      | inl refused_it ↦ absurd (ground arith)
      | inr (new, took) ↦ ground (arith, rows_at-after_write only kind rows w.seen new k took)
    ]

    write-IsChanged :
        (kind : MutationKind) (rows : List DatabaseRow) (w : Memory)
        → IsChanged memory_contract (written memory_contract rows) w (write only kind rows w).1
    write-IsChanged kind rows w = record {
      changes = λ k. ground (arith, write_done kind rows w k);
      not_durable = λ k. ground arith;
      not_saved = ground arith;
    }

    delete_done :
        (keys : List Key) (w : Memory) (k : Key)
        → (delete only keys w).0 ≡ ok tt
        → rows_at only (delete only keys w).1.seen k
          ≡ deleted memory_contract keys k (rows_at only w.seen k)
    delete_done keys w k e = elim (Option-cases (after_delete only keys w.seen)) [
      | inl refused_it ↦ absurd (ground arith)
      | inr (new, took) ↦ ground (arith, rows_at-after_delete only keys w.seen new k took)
    ]

    delete-IsChanged :
        (keys : List Key) (w : Memory)
        → IsChanged memory_contract (deleted memory_contract keys) w (delete only keys w).1
    delete-IsChanged keys w = record {
      changes = λ k. ground (arith, delete_done keys w k);
      not_durable = λ k. ground arith;
      not_saved = ground arith;
    }

    mutate-IsChanged :
        (kind : MutationKind) (rows : List DatabaseRow) (w : Memory)
        → IsChanged memory_contract
            (written memory_contract rows)
            w
            (mutate (source_of only cells) (session only) config.table.name kind rows w).1
    mutate-IsChanged insertion rows w = write-IsChanged insertion rows w
    mutate-IsChanged modification rows w = write-IsChanged modification rows w

    mutate_done :
        (kind : MutationKind) (rows : List DatabaseRow) (w : Memory) (k : Key)
        → let (result, w') =
            mutate (source_of only cells) (session only) config.table.name kind rows w in
          result ≡ applied
          → rows_at only w'.seen k ≡ written memory_contract rows k (rows_at only w.seen k)
    mutate_done insertion rows w k e = write_done insertion rows w k e
    mutate_done modification rows w k e = write_done modification rows w k e

    pub memory_laws : Laws memory_contract
    memory_laws = record {
      source_quiet = λ request w. same-IsQuiet w;
      source_page = λ request w page e.
          subst (λ x. IsPage (anywhere only) request (rows_at only cells) x) (ok-injective e)
            (requested-IsPage only request cells);
      autocommit_settled = λ w. same-IsSettled w;
      lock_settled = λ a b w. same-IsSettled w;
      target_quiet = λ request w. same-IsQuiet w;
      target_page = λ request w page e.
          subst (λ x. IsPage (anywhere only) request (rows_at only w.seen) x) (ok-injective e)
            (requested-IsPage only request w.seen);
      delete_changed = delete-IsChanged;
      delete_done = delete_done;
      mutate_changed = λ kind rows w one. mutate-IsChanged kind rows w;
      mutate_done = λ kind rows w k one e. mutate_done kind rows w k e;
      commit_settled = λ w. record {
        working_either = λ k. inl refl;
        durable_either = λ k. inl refl;
        saved_kept = refl;
      };
      commit_done = λ w k e. refl;
      commit_keeps = λ w k e. refl;
      rollback_settled = λ w. record {
        working_either = λ k. inr refl;
        durable_either = λ k. inr refl;
        saved_kept = refl;
      };
      unlock_settled = λ w. same-IsSettled w;
      load_quiet = λ a b w. same-IsQuiet w;
      load_reads = λ w progress e. ground arith;
      save_working = λ progress w k. refl;
      save_durable = λ progress w k. refl;
      save_done =
          λ progress w e. ground (arith, lookup-insert run run progress w.runs, =?_iff run run);
      save_failed =
          λ progress w. inr (ground (arith, lookup-insert run run progress w.runs, =?_iff run run));
    }

    -- A row that is absent is not a duplicate, and an update never is.
    pub memory_unique : NoDuplicates memory_contract
    memory_unique insertion [] w failure fits e = ground arith
    memory_unique insertion (row ∷ []) w failure fits e =
        ground (arith, fits.1 only, =?_iff row.primary_key only, =?_iff only only)
    memory_unique insertion (row ∷ other ∷ rows) w failure fits e = ground (
      arith,
      fits.0.0,
      =?_iff row.primary_key only,
      =?_iff other.primary_key only,
      =?_iff other.primary_key row.primary_key,
    )
    memory_unique modification rows w failure fits e = ground arith
