-- ===== src/Stream/Checkpoints/Advance.antt =====
-- A stored checkpoint never moves back (src/live/structured_stream/ddl.rs).
use mariadb_mysql_cdc.Prelude.{
  Name, true, false, ◌≡◌, ◌≢◌, refl, sym, inl, inr, none, some, [], ◌∷◌, arith, cmp_name, name_ord,
  =?_iff, cmp_name_refl, eq_of_cmp_name,
}
use Prim.Native.Nat.Ordering.{lt, gt}
use mariadb_mysql_cdc.Stream.Types.{BinlogCoordinate, Checkpoint, coordinate_of}
use mariadb_mysql_cdc.Stream.Exec.{ok}
use mariadb_mysql_cdc.Stream.Target.{Target, Policies, Reply-cases}
use mariadb_mysql_cdc.Stream.Context.{Context}
use mariadb_mysql_cdc.Stream.Checkpoints.{
  binlog_coordinate_is_before, ensure_coordinate_advances, lock_validate_and_save_checkpoint,
}
use mariadb_mysql_cdc.Stream.Contract.{store, Contract}

cmp_name_trans : (a b c : Name) → cmp_name a b ≡ lt → cmp_name b c ≡ lt → cmp_name a c ≡ lt
cmp_name_trans [] (_ ∷ _) (_ ∷ _) h i = refl
cmp_name_trans [] [] c h i = absurd (ground arith)
cmp_name_trans a [] [] h i = absurd (ground arith)
cmp_name_trans (_ ∷ _) [] _ h i = absurd (ground arith)
cmp_name_trans _ (_ ∷ _) [] h i = absurd (ground arith)
cmp_name_trans (x ∷ xs) (y ∷ ys) (z ∷ zs) h i = ground (arith, cmp_name_trans xs ys zs)

pub cmp_name_flip : (a b : Name) → cmp_name a b ≡ gt → cmp_name b a ≡ lt
cmp_name_flip [] [] h = absurd (ground arith)
cmp_name_flip [] (_ ∷ _) h = absurd (ground arith)
cmp_name_flip (_ ∷ _) [] h = refl
cmp_name_flip (x ∷ xs) (y ∷ ys) h = ground (arith, cmp_name_flip xs ys)

pub cmp_name_flip_lt : (a b : Name) → cmp_name a b ≡ lt → cmp_name b a ≡ gt
cmp_name_flip_lt [] [] h = absurd (ground arith)
cmp_name_flip_lt [] (_ ∷ _) h = refl
cmp_name_flip_lt (_ ∷ _) [] h = absurd (ground arith)
cmp_name_flip_lt (x ∷ xs) (y ∷ ys) h = ground (arith, cmp_name_flip_lt xs ys)

-- Coordinates are strictly ordered: none is before itself, and before is transitive.
pub is_before_irreflexive : (a : BinlogCoordinate) → binlog_coordinate_is_before a a ≡ false
unfolding binlog_coordinate_is_before
is_before_irreflexive a = ground (arith, cmp_name_refl a.file)

pub is_before_trans :
    (a b c : BinlogCoordinate)
    → binlog_coordinate_is_before a b ≡ true
    → binlog_coordinate_is_before b c ≡ true
    → binlog_coordinate_is_before a c ≡ true
unfolding binlog_coordinate_is_before
is_before_trans a b c h i = ground (
  arith,
  cmp_name_trans a.file b.file c.file,
  =?_iff a.file b.file,
  =?_iff b.file c.file,
  =?_iff a.file c.file,
)

-- Two coordinates of which none is before the other are equal.
pub is_before_total :
    (a b : BinlogCoordinate)
    → binlog_coordinate_is_before a b ≡ false
    → binlog_coordinate_is_before b a ≡ false
    → a ≡ b
unfolding binlog_coordinate_is_before
is_before_total a b h i =
    let file_eq : a.file ≡ b.file =
      ground
        (arith, eq_of_cmp_name a.file b.file, cmp_name_flip a.file b.file, =?_iff a.file b.file) in
    let position_eq : a.position ≡ b.position =
      ground (arith, =?_iff a.file b.file, =?_iff b.file a.file) in
    cc (file_eq, position_eq)

module _ {W : Type 0} {t : Target W} {p : Policies} (k : Contract t p) where
  -- Where a candidate is saved in the open transaction, a checkpoint was stored before it, of a
  -- coordinate that the candidate is not before, and the session's stored checkpoint is the
  -- candidate; its row changes stay as they were.
  pub lock_validate_and_save_checkpoint-advances :
      (table name : Name) (candidate : Checkpoint) (c : Context W)
      → let (result, d) = lock_validate_and_save_checkpoint t table name candidate c in
        result ≡ ok tt
        → (current : Checkpoint) × ((k.working c.world).stored ≡ some current)
          × (binlog_coordinate_is_before (coordinate_of candidate) (coordinate_of current) ≡ false)
          × (k.working d.world ≡ store candidate (k.working c.world))
  unfolding lock_validate_and_save_checkpoint ensure_coordinate_advances
  lock_validate_and_save_checkpoint-advances table name candidate c e =
      let loaded = t.load_transaction_checkpoint_for_update table name c.world in
      elim (Reply-cases loaded.0) [
        | inl (some current, l) ↦ (
          current,
          sym (k.load_reads table name c.world (some current) l),
          ground arith,
          ground (
            arith,
            k.load_working table name c.world,
            k.save_working table name candidate loaded.1,
          ),
        )
        | inl (none, l) ↦ absurd (ground arith)
        | inr (x, l) ↦ absurd (ground arith)
      ]

  -- A candidate before the stored checkpoint is refused, and nothing is changed durably.
  pub lock_validate_and_save_checkpoint-refuses :
      (table name : Name) (candidate current : Checkpoint) (c : Context W)
      → (k.working c.world).stored ≡ some current
      → binlog_coordinate_is_before (coordinate_of candidate) (coordinate_of current) ≡ true
      → let (result, d) = lock_validate_and_save_checkpoint t table name candidate c in
        (result ≢ ok tt)
        × (k.working d.world ≡ k.working c.world)
        × (k.durable d.world ≡ k.durable c.world)
  unfolding lock_validate_and_save_checkpoint ensure_coordinate_advances
  lock_validate_and_save_checkpoint-refuses table name candidate current c s b =
      let loaded = t.load_transaction_checkpoint_for_update table name c.world in
      let reads = k.load_reads table name c.world in
      elim (Reply-cases loaded.0) [
        | inl (found, l) ↦ (
          λ e. ground (arith, reads found l),
          ground (arith, reads found l, k.load_working table name c.world),
          ground (arith, reads found l, k.load_durable table name c.world),
        )
        | inr (x, l) ↦ (
          λ e. ground arith,
          ground (arith, k.load_working table name c.world),
          ground (arith, k.load_durable table name c.world),
        )
      ]
