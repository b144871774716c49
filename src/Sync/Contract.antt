-- ===== src/Sync/Contract.antt =====
-- What a chunk relies on: the documented behaviour of a MySQL session that holds a table lock, of
-- reads in key order, and of the progress table. The source's rows do not change meanwhile.
use mariadb_mysql_cdc.Prelude.{
  Name, Key, Bool, true, false, ◌&&◌, ◌||◌, not, Option, none, some, is_some, List, ◌≡◌, ◌⊎◌,
  name_ord, key_ord, if◌then◌else◌, contains,
}
use mariadb_mysql_cdc.Sync.Exec.{MutationKind, insertion, modification, ok}
use mariadb_mysql_cdc.Sync.Model.{
  DatabaseRow, SyncChunkConfig, SyncChunkReadRequest, SyncMutationFailure, SyncChunkProgress,
  SyncChunkPage, applied, refused, SyncChunkSource, SyncChunkTargetSession, SyncChunkProgressStore,
}
use mariadb_mysql_cdc.Sync.Window.{last_key}
use mariadb_mysql_cdc.Sync.Mutations.{mutate, is_duplicate}
use mariadb_mysql_cdc.Sync.Spec.{find, first, IsDistinct, IsOnce}

abbrev pub Rows : Type 0
Rows = Key → Option DatabaseRow

-- `upto k bound`: the server orders `k` before `bound`, or they are one key.
module _ (upto : Key → Key → Bool) where
  abbrev pub past : Option Key → Key → Bool
  past none k = true
  past (some bound) k = not (upto k bound)

  abbrev pub within : Option Key → Key → Bool
  within none k = true
  within (some bound) k = upto k bound

  -- A page that is not the last one ends at its last row.
  abbrev pub covered : SyncChunkPage → Key → Bool
  covered page k = not page.has_more || within (last_key page.rows) k

  abbrev pub requested : SyncChunkReadRequest → Key → Bool
  requested request k = past request.start_after k && within request.end_at k

  -- The rows that a run with this progress has left behind.
  abbrev pub settled : SyncChunkProgress → Key → Bool
  settled progress k = progress.complete || not (past progress.last_primary_key k)

  pub record IsPage (request : SyncChunkReadRequest) (rows : Rows) (page : SyncChunkPage)
      : Type 0 where
    pub distinct : IsDistinct page.rows
    pub reads :
        (k : Key)
        → find k page.rows ≡ (if requested request k && covered page k then rows k else none)
    pub ordered :
        (k : Key) → is_some (find k page.rows) ≡ true → within (last_key page.rows) k ≡ true
    pub forward :
        (k : Key)
        → past request.start_after k ≡ false
        → is_some (last_key page.rows) ≡ true
        → within (last_key page.rows) k ≡ true
    pub nonempty : page.has_more ≡ true → is_some (last_key page.rows) ≡ true

-- An insertion of two rows of one key is refused.
abbrev pub OneRowPerKey : MutationKind → List DatabaseRow → Type 0
OneRowPerKey insertion rows = Unit
OneRowPerKey modification rows = IsDistinct rows

pub record Contract {W : Type 0} (s : SyncChunkSource W) (t : SyncChunkTargetSession W)
    (p : SyncChunkProgressStore W) (config : SyncChunkConfig) : Type 0 where
  pub upto : Key → Key → Bool
  pub source : Rows
  -- The target table as the session sees it, and as it is after a lost session.
  pub working : W → Rows
  pub durable : W → Rows
  pub saved : W → Option SyncChunkProgress

module _ {W : Type 0} {s : SyncChunkSource W} {t : SyncChunkTargetSession W}
    {p : SyncChunkProgressStore W} {config : SyncChunkConfig} (c : Contract s t p config) where
  -- A call that changes neither the rows nor the progress.
  pub record IsQuiet (w w' : W) : Type 0 where
    pub working_same : (k : Key) → c.working w' k ≡ c.working w k
    pub durable_same : (k : Key) → c.durable w' k ≡ c.durable w k
    pub saved_same : c.saved w' ≡ c.saved w

  -- A call that ends a transaction, or that may do so: each row is then the durable one or the one
  -- that the session saw.
  pub record IsSettled (w w' : W) : Type 0 where
    pub working_either :
        (k : Key) → (c.working w' k ≡ c.working w k) ⊎ (c.working w' k ≡ c.durable w k)
    pub durable_either :
        (k : Key) → (c.durable w' k ≡ c.working w k) ⊎ (c.durable w' k ≡ c.durable w k)
    pub saved_kept : c.saved w' ≡ c.saved w

  -- A change of the rows in a transaction, each row changed or not.
  pub record IsChanged (changed : Key → Option DatabaseRow → Option DatabaseRow) (w w' : W)
      : Type 0 where
    pub changes :
        (k : Key) → (c.working w' k ≡ changed k (c.working w k)) ⊎ (c.working w' k ≡ c.working w k)
    pub not_durable : (k : Key) → c.durable w' k ≡ c.durable w k
    pub not_saved : c.saved w' ≡ c.saved w

  abbrev pub deleted : List Key → Key → Option DatabaseRow → Option DatabaseRow
  deleted keys k row = if contains k keys then none else row

  abbrev pub written : List DatabaseRow → Key → Option DatabaseRow → Option DatabaseRow
  written rows k row = first (find k rows) row

  pub record Laws : Type 0 where
    pub source_quiet :
        (request : SyncChunkReadRequest) (w : W) → IsQuiet w (s.read_rows request w).1
    pub source_page :
        (request : SyncChunkReadRequest) (w : W) (page : SyncChunkPage)
        → (s.read_rows request w).0 ≡ ok page
        → IsPage c.upto request c.source page
    pub autocommit_settled : (w : W) → IsSettled w (t.set_autocommit false w).1
    pub lock_settled : (a b : Name) (w : W) → IsSettled w (t.lock_table_write a b w).1
    pub target_quiet :
        (request : SyncChunkReadRequest) (w : W) → IsQuiet w (t.read_rows request w).1
    pub target_page :
        (request : SyncChunkReadRequest) (w : W) (page : SyncChunkPage)
        → (t.read_rows request w).0 ≡ ok page
        → IsPage c.upto request (c.working w) page
    pub delete_changed :
        (keys : List Key) (w : W) → IsChanged (deleted keys) w (t.delete_rows keys w).1
    pub delete_done :
        (keys : List Key) (w : W) (k : Key)
        → (t.delete_rows keys w).0 ≡ ok tt
        → c.working (t.delete_rows keys w).1 k ≡ deleted keys k (c.working w k)
    pub mutate_changed :
        (kind : MutationKind) (rows : List DatabaseRow) (w : W)
        → OneRowPerKey kind rows
        → IsChanged (written rows) w (mutate s t config.table.name kind rows w).1
    pub mutate_done :
        (kind : MutationKind) (rows : List DatabaseRow) (w : W) (k : Key)
        → OneRowPerKey kind rows
        → (mutate s t config.table.name kind rows w).0 ≡ applied
        → c.working (mutate s t config.table.name kind rows w).1 k ≡ written rows k (c.working w k)
    pub commit_settled : (w : W) → IsSettled w (t.commit w).1
    pub commit_done :
        (w : W) (k : Key) → (t.commit w).0 ≡ ok tt → c.durable (t.commit w).1 k ≡ c.working w k
    pub commit_keeps :
        (w : W) (k : Key) → (t.commit w).0 ≡ ok tt → c.working (t.commit w).1 k ≡ c.working w k
    pub rollback_settled : (w : W) → IsSettled w (t.rollback w).1
    pub unlock_settled : (w : W) → IsSettled w (t.unlock_tables w).1
    pub load_quiet : (a b : Name) (w : W) → IsQuiet w (p.load a b w).1
    pub load_reads :
        (w : W) (progress : Option SyncChunkProgress)
        → (p.load config.run_id config.table.name w).0 ≡ ok progress
        → progress ≡ c.saved w
    pub save_working :
        (progress : SyncChunkProgress) (w : W) (k : Key)
        → c.working (p.save progress w).1 k ≡ c.working w k
    pub save_durable :
        (progress : SyncChunkProgress) (w : W) (k : Key)
        → c.durable (p.save progress w).1 k ≡ c.durable w k
    pub save_done :
        (progress : SyncChunkProgress) (w : W)
        → (p.save progress w).0 ≡ ok tt
        → c.saved (p.save progress w).1 ≡ some progress
    pub save_failed :
        (progress : SyncChunkProgress) (w : W)
        → (c.saved (p.save progress w).1 ≡ c.saved w)
          ⊎ (c.saved (p.save progress w).1 ≡ some progress)

  -- The batches that leave the primary key alone: rows of different keys, each of them absent where
  -- it is inserted and present where it is updated.
  abbrev pub Fits : MutationKind → List DatabaseRow → W → Type 0
  Fits insertion rows w =
      IsDistinct rows × ((k : Key) → (find k rows ≡ none) ⊎ (c.working w k ≡ none))
  Fits modification rows w =
      IsDistinct rows × ((k : Key) → (find k rows ≡ none) ⊎ (is_some (c.working w k) ≡ true))

  -- Different keys of rows that are there.
  abbrev pub IsPresent : List Key → W → Type 0
  IsPresent keys w =
      IsOnce keys × ((k : Key) → (contains k keys ≡ false) ⊎ (is_some (c.working w k) ≡ true))

  -- No secondary unique key refuses such a batch.
  abbrev pub NoDuplicates : Type 0
  NoDuplicates =
      (kind : MutationKind) (rows : List DatabaseRow) (w : W) (failure : SyncMutationFailure)
      → Fits kind rows w
      → (mutate s t config.table.name kind rows w).0 ≡ refused failure
      → is_duplicate failure.mysql_code ≡ false
