-- ===== src/Sync/Owners/Plan.antt =====
-- What a planned action may do to the owner of a unique value (plan_unique_owner_action of
-- src/sync/chunk.rs).
use mariadb_mysql_cdc.Prelude.{
  Name, Option, none, some, List, [], ◌∷◌, ◌≡◌, ◌≢◌, ◌⊎◌, inl, inr, arith, name_ord, key_ord,
  =?_iff, codes, Option-cases,
}
use mariadb_mysql_cdc.Sync.Exec.{unfinished, ok, err, Outcome-cases}
use mariadb_mysql_cdc.Sync.Model.{
  DatabaseRow, SyncUniqueOwnerConflict, SyncUniqueOwnerAction, update, delete, unique_value,
  collect_values, values_of,
}
use mariadb_mysql_cdc.Sync.Owners.{
  validate_unique_owner_conflict, validate_current_source_owner, plan_unique_owner_action,
}

-- The row of the source that holds the owner's key has another value.
abbrev pub HasMoved : SyncUniqueOwnerConflict → List Name → DatabaseRow → Type 0
HasMoved conflict identity row =
    (row.primary_key ≡ conflict.owner.primary_key)
    × ((values : List Name)
        → values_of conflict.index row (codes "current source owner") ≡ ok values
        → values ≢ identity)

module _ (table : Name) (conflict : SyncUniqueOwnerConflict) where
  conflict-valid :
      (identity : List Name)
      → validate_unique_owner_conflict table conflict ≡ ok identity
      → (conflict.owner.primary_key ≢ conflict.intended.primary_key)
        × (values_of conflict.index conflict.intended (codes "intended") ≡ ok identity)
        × (values_of conflict.index conflict.owner (codes "target owner") ≡ ok identity)
  unfolding validate_unique_owner_conflict
  conflict-valid identity e =
      let keys = =?_iff conflict.owner.primary_key conflict.intended.primary_key in
      elim (Outcome-cases (values_of conflict.index conflict.intended (codes "intended"))) [
        | inr (x, a) ↦ absurd (ground (arith, keys))
        | inl (intended, a) ↦
            elim (Outcome-cases (values_of conflict.index conflict.owner (codes "target owner"))) [
              | inr (x, b) ↦ absurd (ground (arith, keys))
              | inl (target, b) ↦
                  let same = =?_iff target intended in
                  (
                    λ q. ground (arith, keys, keys.1 q),
                    ground (arith, keys, same),
                    ground (arith, keys, same),
                  )
            ]
      ]

  owner-HasMoved :
      (row : DatabaseRow) (identity : List Name)
      → validate_current_source_owner table conflict row identity ≡ ok tt
      → HasMoved conflict identity row
  unfolding validate_current_source_owner
  owner-HasMoved row identity e =
      let keys = =?_iff row.primary_key conflict.owner.primary_key in
      (
        ground (arith, keys),
        λ values v same.
            let identities = =?_iff values identity in
            let met = identities.1 same in ground (arith, keys),
      )

  -- An action is planned only where two rows of different keys hold one unique value, which is the
  -- intended row's. The owner is deleted only where the source has no row of its key; else it
  -- becomes that row, of the owner's key and with another value.
  pub plan_unique_owner_action-safe :
      (source_owner : Option DatabaseRow) (action : SyncUniqueOwnerAction)
      → plan_unique_owner_action table conflict source_owner ≡ ok action
      → (conflict.owner.primary_key ≢ conflict.intended.primary_key)
        × ((identity : List Name) × (values_of conflict.index conflict.intended (codes "intended")
              ≡ ok identity)
            × (values_of conflict.index conflict.owner (codes "target owner") ≡ ok identity)
            × (((source_owner ≡ none) × (action ≡ delete))
                ⊎ ((row : DatabaseRow) × (source_owner ≡ some row)
                    × (action ≡ update row)
                    × HasMoved conflict identity row)))
  unfolding plan_unique_owner_action
  plan_unique_owner_action-safe source_owner action e =
      elim (Outcome-cases (validate_unique_owner_conflict table conflict)) [
        | inr (x, a) ↦ absurd (ground arith)
        | inl (identity, a) ↦
            let valid = conflict-valid identity a in
            (
              valid.0,
              (
                identity,
                valid.1,
                valid.2,
                elim (Option-cases source_owner) [
                  | inl gone ↦ inl (gone, ground arith)
                  | inr (row, there) ↦
                      elim (Outcome-cases
                        (validate_current_source_owner table conflict row identity)) [
                          | inr (x, b) ↦ absurd (ground arith)
                          | inl (_, b) ↦
                              inr (
                                row,
                                there,
                                ground arith,
                                owner-HasMoved row identity (ground arith),
                              )
                        ]
                ],
              ),
            )
      ]

-- No plan is a loop that has not ended.
values_of-ends :
    (columns : List Name) (row : DatabaseRow) (label : Name)
    → collect_values columns row label ≢ err unfinished
unfolding collect_values unique_value
values_of-ends [] row label e = ground arith
values_of-ends (column ∷ columns) row label e = ground (arith, values_of-ends columns row label)

pub plan-ends :
    (table : Name) (conflict : SyncUniqueOwnerConflict) (source_owner : Option DatabaseRow)
    → plan_unique_owner_action table conflict source_owner ≢ err unfinished
unfolding plan_unique_owner_action validate_unique_owner_conflict validate_current_source_owner
    values_of
plan-ends table conflict source_owner e =
    let columns = conflict.index.columns in
    let intended = values_of-ends columns conflict.intended (codes "intended") in
    let owner = values_of-ends columns conflict.owner (codes "target owner") in
    elim (Option-cases source_owner) [
      | inl gone ↦ ground (arith, intended, owner)
      | inr (row, there) ↦
          let current = values_of-ends columns row (codes "current source owner") in
          ground (arith, intended, owner, current)
    ]
