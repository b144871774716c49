-- ===== src/Sync/Spec.antt =====
-- What a phase of a synchronisation promises of one row, and lists of rows read by their keys.
use mariadb_mysql_cdc.Prelude.{
  Name, Key, Map, Bool, true, false, ◌&&◌, not, Option, none, some, is_some, List, [], ◌∷◌, ◌++◌,
  ◌≡◌, refl, ◌⊎◌, arith, name_ord, key_ord, ◌=?◌, =?_iff, if◌then◌else◌, contains, lookup, insert,
  remove, lookup-insert, lookup-remove, All,
}
use mariadb_mysql_cdc.Sync.Model.{
  DatabaseRow, SyncTable, SyncMutationPhase, insert_missing, update_divergent, delete_extras,
  includes,
}
use mariadb_mysql_cdc.Sync.Window.{
  same_cell, any_diverges, rows_diverge, index_from, keys_of_rows, rows_of,
}

abbrev pub find : Key → List DatabaseRow → Option DatabaseRow
find k [] = none
find k (row ∷ rows) = if row.primary_key =? k then some row else find k rows

abbrev pub IsDistinct : List DatabaseRow → Type 0
IsDistinct [] = Unit
IsDistinct (row ∷ rows) = (find row.primary_key rows ≡ none) × IsDistinct rows

abbrev pub first : Option DatabaseRow → Option DatabaseRow → Option DatabaseRow
first none b = b
first (some a) b = some a

-- The target row that a phase is to leave, from the source row and the target row of a key.
abbrev pub synced :
    SyncMutationPhase → SyncTable → Option DatabaseRow → Option DatabaseRow → Option DatabaseRow
synced phase table none none = none
synced phase table none (some t) = if includes phase delete_extras then none else some t
synced phase table (some s) none = if includes phase insert_missing then some s else none
synced phase table (some s) (some t) =
    if rows_diverge table s t && includes phase update_divergent then some s else some t

-- The rows of a key agree: both are absent, or no compared column differs.
abbrev pub agree : SyncTable → Option DatabaseRow → Option DatabaseRow → Bool
agree table none none = true
agree table (some s) (some t) = not (rows_diverge table s t)
agree table _ _ = false

same_cell_refl : (c : Option (Option Name)) → same_cell c c ≡ true
same_cell_refl none = refl
same_cell_refl (some none) = refl
same_cell_refl (some (some a)) = (=?_iff a a).1 refl

any_diverges_refl :
    (table : SyncTable) (columns : List Name) (row : DatabaseRow)
    → any_diverges table columns row row ≡ false
unfolding any_diverges
any_diverges_refl table [] row = refl
any_diverges_refl table (column ∷ columns) row =
    ground (arith, same_cell_refl (lookup column row.values), any_diverges_refl table columns row)

pub synced_again :
    (phase : SyncMutationPhase) (table : SyncTable) (s t : Option DatabaseRow)
    → synced phase table s (synced phase table s t) ≡ synced phase table s t
synced_again phase table none none = refl
synced_again phase table none (some t) = ground arith
synced_again phase table (some s) none = ground (arith, any_diverges_refl table table.columns s)
synced_again phase table (some s) (some t) = ground (arith, any_diverges_refl table table.columns s)

pub phases_agree :
    (table : SyncTable) (s t : Option DatabaseRow)
    → agree table s (
        synced delete_extras table s
          (synced update_divergent table s (synced insert_missing table s t)))
      ≡ true
phases_agree table none none = refl
phases_agree table none (some t) = refl
phases_agree table (some s) none = ground (arith, any_diverges_refl table table.columns s)
phases_agree table (some s) (some t) = ground (arith, any_diverges_refl table table.columns s)

pub find-append :
    (k : Key) (xs ys : List DatabaseRow) → find k (xs ++ ys) ≡ first (find k xs) (find k ys)
find-append k [] ys = refl
find-append k (x ∷ xs) ys = ground (arith, find-append k xs ys)

pub IsDistinct-append :
    (xs ys : List DatabaseRow)
    → IsDistinct xs
    → IsDistinct ys
    → ((k : Key) → (find k xs ≡ none) ⊎ (find k ys ≡ none))
    → IsDistinct (xs ++ ys)
IsDistinct-append [] ys dx dy apart = dy
IsDistinct-append (x ∷ xs) ys dx dy apart =
    let rest = IsDistinct-append xs ys dx.1 dy (λ k. ground (arith, apart k)) in
    (
      ground (
        arith,
        find-append x.primary_key xs ys,
        apart x.primary_key,
        =?_iff x.primary_key x.primary_key,
      ),
      rest,
    )

-- The entries of an index stand under their own keys.
abbrev pub IsKeyed : Map Key DatabaseRow → Type 0
IsKeyed m = All (λ entry. entry.1.primary_key ≡ entry.0) m

pub find-rows_of : (k : Key) (m : Map Key DatabaseRow) → IsKeyed m → find k (rows_of m) ≡ lookup k m
unfolding lookup
find-rows_of k [] h = refl
find-rows_of k ((j, row) ∷ m) h = ground (arith, h.0, find-rows_of k m h.1)

pub insert-IsKeyed :
    (row : DatabaseRow) (m : Map Key DatabaseRow)
    → IsKeyed m
    → IsKeyed (insert row.primary_key row m)
unfolding insert
insert-IsKeyed row [] h = (refl, tt)
insert-IsKeyed row ((j, r) ∷ m) h = ground (arith, h.0, h.1, insert-IsKeyed row m h.1)

pub remove-IsKeyed : (k : Key) (m : Map Key DatabaseRow) → IsKeyed m → IsKeyed (remove k m)
unfolding remove
remove-IsKeyed k [] h = tt
remove-IsKeyed k ((j, r) ∷ m) h = ground (arith, h.0, remove-IsKeyed k m h.1)

pub index_from-IsKeyed :
    (m : Map Key DatabaseRow) (rows : List DatabaseRow) → IsKeyed m → IsKeyed (index_from m rows)
index_from-IsKeyed m [] h = h
index_from-IsKeyed m (row ∷ rows) h =
    index_from-IsKeyed (insert row.primary_key row m) rows (insert-IsKeyed row m h)

pub lookup-keyed :
    (k : Key) (m : Map Key DatabaseRow) (row : DatabaseRow)
    → IsKeyed m
    → lookup k m ≡ some row
    → row.primary_key ≡ k
unfolding lookup
lookup-keyed k [] row h e = ground arith
lookup-keyed k ((j, r) ∷ m) row h e = ground (arith, h.0, =?_iff j k, lookup-keyed k m row h.1)

pub lookup-index_from :
    (k : Key) (m : Map Key DatabaseRow) (rows : List DatabaseRow)
    → IsDistinct rows
    → lookup k (index_from m rows) ≡ first (find k rows) (lookup k m)
lookup-index_from k m [] d = refl
lookup-index_from k m (row ∷ rows) d = ground (
  arith,
  lookup-index_from k (insert row.primary_key row m) rows d.1,
  lookup-insert row.primary_key k row m,
  =?_iff row.primary_key k,
  d.0,
)

pub contains-keys_of_rows :
    (k : Key) (rows : List DatabaseRow) → contains k (keys_of_rows rows) ≡ is_some (find k rows)
unfolding contains
contains-keys_of_rows k [] = refl
contains-keys_of_rows k (row ∷ rows) = ground (arith, contains-keys_of_rows k rows)

-- No key stands twice.
abbrev pub IsOnce : List Key → Type 0
IsOnce [] = Unit
IsOnce (k ∷ keys) = (contains k keys ≡ false) × IsOnce keys

pub keys_of_rows-IsOnce : (rows : List DatabaseRow) → IsDistinct rows → IsOnce (keys_of_rows rows)
keys_of_rows-IsOnce [] d = tt
keys_of_rows-IsOnce (row ∷ rows) d =
    (ground (arith, contains-keys_of_rows row.primary_key rows, d.0), keys_of_rows-IsOnce rows d.1)

abbrev pub IsUnique : Map Key DatabaseRow → Type 0
IsUnique [] = Unit
IsUnique ((k, row) ∷ m) = (lookup k m ≡ none) × IsUnique m

insert-IsUnique :
    (k : Key) (row : DatabaseRow) (m : Map Key DatabaseRow)
    → IsUnique m
    → lookup k m ≡ none
    → IsUnique (insert k row m)
unfolding insert lookup
insert-IsUnique k row [] u e = (refl, tt)
insert-IsUnique k row ((j, r) ∷ m) u e =
    ground (
      arith,
      u.0,
      u.1,
      insert-IsUnique k row m u.1,
      lookup-insert k j row m,
      =?_iff j k,
      =?_iff k j,
    )

pub remove-IsUnique : (k : Key) (m : Map Key DatabaseRow) → IsUnique m → IsUnique (remove k m)
unfolding remove
remove-IsUnique k [] u = tt
remove-IsUnique k ((j, r) ∷ m) u = ground (arith, u.0, remove-IsUnique k m u.1, lookup-remove k j m)

pub index_from-IsUnique :
    (m : Map Key DatabaseRow) (rows : List DatabaseRow)
    → IsUnique m
    → IsDistinct rows
    → ((k : Key) → (lookup k m ≡ none) ⊎ (find k rows ≡ none))
    → IsUnique (index_from m rows)
index_from-IsUnique m [] u d apart = u
index_from-IsUnique m (row ∷ rows) u d apart =
    let j = row.primary_key in
    let absent : lookup j m ≡ none = ground (arith, apart j, =?_iff j j) in
    index_from-IsUnique (insert j row m) rows (insert-IsUnique j row m u absent) d.1
      (λ k. ground (arith, apart k, lookup-insert j k row m, =?_iff j k, d.0))

pub rows_of-IsDistinct : (m : Map Key DatabaseRow) → IsKeyed m → IsUnique m → IsDistinct (rows_of m)
rows_of-IsDistinct [] h u = tt
rows_of-IsDistinct ((j, row) ∷ m) h u =
    (ground (arith, h.0, u.0, find-rows_of row.primary_key m h.1), rows_of-IsDistinct m h.1 u.1)
