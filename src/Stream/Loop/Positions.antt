-- ===== src/Stream/Loop/Positions.antt =====
-- The positions that the read-ahead thread records with the events (spawn_read_ahead_reader and
-- next_source_position of src/live/structured_stream/init.rs), against the headers of the events.
use mariadb_mysql_cdc.Prelude.{
  ℕ, ◌+◌, ◌<◌, Name, Option, none, some, List, [], ◌∷◌, ◌≡◌, ltb, if◌then◌else◌, arith, Bool-cases,
  subst, inl, inr,
}
use mariadb_mysql_cdc.Stream.Types.{EventHeader, BinlogEvent, rotate}
use mariadb_mysql_cdc.Stream.Event.{event_coordinate, is_row_event, next_source_position}
use mariadb_mysql_cdc.Stream.Loop.{Received, event, failure, Fetched, fetched, broken, read_ahead}

-- Where the log goes on after an event: at the target of a rotation, else at the end in the header.
-- An event that the server makes up has no end.
abbrev pub ends_at : EventHeader → BinlogEvent → Option ℕ
ends_at header (rotate _ position) = some position
ends_at header _ =
    if ltb 0 header.next_event_position then some header.next_event_position else none

-- An event starts at a known position, and ends at that position and its length.
abbrev pub Follows : Option ℕ → EventHeader → Type 0
Follows known header =
    (start : ℕ) × (known ≡ some start)
    × (0 < start)
    × (header.next_event_position ≡ start + header.event_length)

-- A log in which every row event follows an event whose end is known, and ends after its length.
abbrev pub IsLaidOut : Option ℕ → List Fetched → Type 0
IsLaidOut known [] = Unit
IsLaidOut known (broken _ ∷ rest) = Unit
IsLaidOut known (fetched header e ∷ rest) =
    (if is_row_event e then Follows known header else Unit) × IsLaidOut (ends_at header e) rest

-- Every event has one coordinate, by the position that was recorded with it and by its header.
abbrev pub IsLocated : Name → List Received → Type 0
IsLocated file [] = Unit
IsLocated file (failure _ ∷ rest) = IsLocated file rest
IsLocated file (event header e position ∷ rest) =
    (event_coordinate file header e (some position) ≡ event_coordinate file header e none)
    × IsLocated file rest

module _ (file : Name) where
  located :
      (known : Option ℕ) (position : ℕ) (header : EventHeader) (e : BinlogEvent)
      → ((start : ℕ) → known ≡ some start → position ≡ start)
      → (if is_row_event e then Follows known header else Unit)
      → event_coordinate file header e (some position) ≡ event_coordinate file header e none
  unfolding event_coordinate
  located known position header e at follows = elim (Bool-cases (is_row_event e)) [
    | inl row ↦
        let stands : Follows known header =
          subst (λ b. if b then Follows known header else Unit) row follows in
        ground (arith, at stands.0)
    | inr other ↦ ground arith
  ]

  goes_on :
      (position : ℕ) (header : EventHeader) (e : BinlogEvent) (start : ℕ)
      → ends_at header e ≡ some start
      → next_source_position position header e ≡ start
  unfolding next_source_position
  goes_on position header e start h = ground arith

  IsLocated-from :
      (known : Option ℕ) (position : ℕ) (items : List Fetched)
      → ((start : ℕ) → known ≡ some start → position ≡ start)
      → IsLaidOut known items
      → IsLocated file (read_ahead position items)
  unfolding read_ahead
  IsLocated-from known position [] at laid = tt
  IsLocated-from known position (broken x ∷ rest) at laid = tt
  IsLocated-from known position (fetched header e ∷ rest) at laid = (
    located known position header e at laid.0,
    IsLocated-from (ends_at header e) (next_source_position position header e) rest
        (goes_on position header e) laid.1,
  )

  -- In a log in which every row event follows an event whose end is known, and ends after its
  -- length, the read-ahead thread records positions, wherever it starts, by which every event has
  -- the coordinate that it has by its header alone.
  pub read_ahead-IsLocated :
      (position : ℕ) (items : List Fetched)
      → IsLaidOut none items
      → IsLocated file (read_ahead position items)
  read_ahead-IsLocated position items laid =
      IsLocated-from none position items (λ start e. ground arith) laid
