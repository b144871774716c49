-- ===== src/Sync/Selection/Closed.antt =====
-- Which selections are valid (validate_selected_tables of src/sync/orchestrate.rs).
use mariadb_mysql_cdc.Prelude.{
  Name, true, false, ◌||◌, List, [], ◌∷◌, ◌≡◌, ◌≢◌, ◌↔◌, refl, sym, inl, inr, arith, name_ord,
  =?_iff, contains, insert_set, contains-insert_set, All,
}
use mariadb_mysql_cdc.Sync.Exec.{ok, Outcome-cases}
use mariadb_mysql_cdc.Sync.DependencyOrder.{ForeignKeyInventory}
use mariadb_mysql_cdc.Sync.DependencyOrder.Edges.{distinct}
use mariadb_mysql_cdc.Sync.Selection.{
  SchemaInventory, select_names, require_parents, validate_selected_tables,
}

-- A foreign key of a selected table in the schema refers to a selected table.
abbrev pub IsClosed : SchemaInventory → List Name → ForeignKeyInventory → Type 0
IsClosed inventory selected key =
    contains key.table selected ≡ true
    → key.referenced_schema ≡ inventory.schema
    → contains key.referenced_table selected ≡ true

abbrev pub IsKnown : SchemaInventory → Name → Type 0
IsKnown inventory name = contains name inventory.tables ≡ true

abbrev IsFreeOf : List Name → Name → Type 0
IsFreeOf names name = contains name names ≡ false

not_contains :
    (x : Name) (names xs : List Name)
    → All (IsFreeOf (insert_set x names)) xs
    → (contains x xs ≡ false) × All (IsFreeOf names) xs
unfolding contains
not_contains x names [] h = ground arith
not_contains x names (y ∷ xs) h =
    ground (
      arith,
      h.0,
      contains-insert_set x y names,
      =?_iff x y,
      =?_iff y x,
      not_contains x names xs h.1,
    )

still_free :
    (x : Name) (names xs : List Name)
    → contains x xs ≡ false
    → All (IsFreeOf names) xs
    → All (IsFreeOf (insert_set x names)) xs
unfolding contains
still_free x names [] e h = ground arith
still_free x names (y ∷ xs) e h = ground (
  arith,
  h.0,
  contains-insert_set x y names,
  =?_iff x y,
  =?_iff y x,
  still_free x names xs (ground arith) h.1,
)

module _ (inventory : SchemaInventory) where
  select-forward :
      (names selected result : List Name)
      → select_names inventory names selected ≡ ok result
      → (distinct selected ≡ true)
        × All (IsKnown inventory) selected
        × All (IsFreeOf names) selected
        × ((k : Name) → contains k result ≡ (contains k names || contains k selected))
  unfolding select_names contains
  select-forward names [] result e =
      let same : names ≡ result = ground arith in (refl, tt, tt, λ k. ground (arith, same))
  select-forward names (name ∷ selected) result e =
      let fresh : contains name names ≡ false = ground arith in
      let there : contains name inventory.tables ≡ true = ground (arith, fresh) in
      let rest =
        select-forward (insert_set name names) selected result (ground (arith, fresh, there)) in
      let apart = not_contains name names selected rest.2 in
      (
        ground (arith, rest.0, apart.0),
        (there, rest.1),
        (fresh, apart.1),
        λ k. ground (arith, rest.3 k, contains-insert_set name k names),
      )

  select-backward :
      (names selected : List Name)
      → distinct selected ≡ true
      → All (IsKnown inventory) selected
      → All (IsFreeOf names) selected
      → (result : List Name) × (select_names inventory names selected ≡ ok result)
  unfolding select_names
  select-backward names [] d h free = (names, refl)
  select-backward names (name ∷ selected) d h free =
      let (result, e) =
        select-backward (insert_set name names) selected (ground arith) h.1
          (still_free name names selected (ground arith) free.1) in
      (result, ground (arith, e, h.0, free.0))

  parents-forward :
      (selected : List Name) (keys : List ForeignKeyInventory)
      → require_parents inventory selected keys ≡ ok tt
      → All (IsClosed inventory selected) keys
  unfolding require_parents
  parents-forward selected [] e = tt
  parents-forward selected (key ∷ keys) e = (
    λ child schema. ground (arith, =?_iff key.referenced_schema inventory.schema, child, schema),
    parents-forward selected keys (ground arith),
  )

  parents-backward :
      (selected : List Name) (keys : List ForeignKeyInventory)
      → All (IsClosed inventory selected) keys
      → require_parents inventory selected keys ≡ ok tt
  unfolding require_parents
  parents-backward selected [] h = refl
  parents-backward selected (key ∷ keys) h = ground (
    arith,
    h.0,
    =?_iff key.referenced_schema inventory.schema,
    parents-backward selected keys h.1,
  )

  -- Of two selections with the same tables both are closed or none is.
  same-IsClosed :
      (names selected : List Name) (keys : List ForeignKeyInventory)
      → ((k : Name) → contains k names ≡ contains k selected)
      → All (IsClosed inventory names) keys
      → All (IsClosed inventory selected) keys
  same-IsClosed names selected [] same h = tt
  same-IsClosed names selected (key ∷ keys) same h = (
    λ child schema. ground (arith, h.0, same key.table, same key.referenced_table, child, schema),
    same-IsClosed names selected keys same h.1,
  )

  same_tables :
      (selected names : List Name)
      → select_names inventory [] selected ≡ ok names
      → (k : Name) → contains k names ≡ contains k selected
  unfolding contains
  same_tables selected names o k = ground (arith, (select-forward [] selected names o).3 k)

  nothing_taken : (selected : List Name) → All (IsFreeOf []) selected
  unfolding contains
  nothing_taken [] = tt
  nothing_taken (name ∷ selected) = (refl, nothing_taken selected)

  -- A selection is valid exactly where it is not empty, no table is in it twice, every table of it is
  -- in the inventory, and with a table it has every table of the schema that a foreign key of the table
  -- refers to.
  pub validate_selected_tables-accepts :
      (selected : List Name)
      → (validate_selected_tables inventory selected ≡ ok tt) ↔ (
          (selected ≢ [])
          × (distinct selected ≡ true)
          × All (IsKnown inventory) selected
          × All (IsClosed inventory selected) inventory.foreign_keys)
  unfolding validate_selected_tables
  validate_selected_tables-accepts [] = (λ e. ground arith, λ h. absurd (h.0 refl))
  validate_selected_tables-accepts (name ∷ others) =
      let selected = name ∷ others in
      (
        λ e. elim (Outcome-cases (select_names inventory [] selected)) [
          | inr (x, o) ↦ absurd (ground arith)
          | inl (names, o) ↦
              let h = select-forward [] selected names o in
              let closed = parents-forward names inventory.foreign_keys (ground arith) in
              (
                λ q. ground arith,
                h.0,
                h.1,
                same-IsClosed names selected inventory.foreign_keys (same_tables selected names o)
                    closed,
              )
        ],
        λ h.
            let (names, o) = select-backward [] selected h.1 h.2 (nothing_taken selected) in
            let same = same_tables selected names o in
            let closed =
              same-IsClosed selected names inventory.foreign_keys (λ k. sym (same k)) h.3 in
            ground (arith, o, parents-backward names inventory.foreign_keys closed),
      )
