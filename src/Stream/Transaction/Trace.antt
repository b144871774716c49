-- ===== src/Stream/Transaction/Trace.antt =====
-- The history of a stream, newest event first, and the points of it from which the stream can
-- resume: every row event before the point belongs to a source transaction that is complete.
use mariadb_mysql_cdc.Prelude.{Bool, true, false, Option, none, some, List, [], ◌∷◌, ◌++◌, ◌≡◌}
use mariadb_mysql_cdc.Stream.Types.{
  BinlogCoordinate, coordinate_of, BinlogEvent, EventPolicy, apply_rows, commit_transaction,
  StructuredEventOutcome,
}
use mariadb_mysql_cdc.Stream.Contract.{Content}

abbrev pub Trace : Type 0
Trace = List (BinlogEvent × StructuredEventOutcome)

abbrev pub applies_rows : EventPolicy → Bool
applies_rows apply_rows = true
applies_rows _ = false

abbrev pub rows_of : BinlogEvent → EventPolicy → List BinlogEvent
rows_of event apply_rows = event ∷ []
rows_of event _ = []

-- The row events applied, oldest first.
abbrev pub rows : Trace → List BinlogEvent
rows [] = []
rows ((event, outcome) ∷ h) = rows h ++ rows_of event outcome.policy

abbrev settle : EventPolicy → Bool → Bool
settle apply_rows before = false
settle commit_transaction before = true
settle _ before = before

-- No row event since the last commit.
abbrev pub settled : Trace → Bool
settled [] = true
settled ((event, outcome) ∷ h) = settle outcome.policy (settled h)

abbrev newer : Option BinlogCoordinate → Option BinlogCoordinate → Option BinlogCoordinate
newer none before = before
newer (some c) before = some c

-- The last coordinate to resume from; `start` before the first.
abbrev pub reached : Option BinlogCoordinate → Trace → Option BinlogCoordinate
reached start [] = start
reached start ((event, outcome) ∷ h) = newer outcome.resume_coordinate (reached start h)

-- `h` is `g` with later events.
pub data Earlier (g : Trace) : Trace → Type 0 where
  now : Earlier g g
  later : {h : Trace} (x : BinlogEvent × StructuredEventOutcome) → Earlier g h → Earlier g (x ∷ h)

abbrev pub stored_coordinate : Content → Option BinlogCoordinate
stored_coordinate c = elim c.stored [ none ↦ none | some s ↦ some (coordinate_of s) ]

-- The content is that of a point of the history at which every transaction was complete.
pub record IsPoint (start content : Content) (h : Trace) : Type 0 where
  pub point : Trace
  pub earlier : Earlier point h
  pub complete : settled point ≡ true
  pub applied : content.applied ≡ start.applied ++ rows point
  pub resumes : stored_coordinate content ≡ reached (stored_coordinate start) point

pub IsPoint-later :
    {start content : Content} {h : Trace} (x : BinlogEvent × StructuredEventOutcome)
    → IsPoint start content h
    → IsPoint start content (x ∷ h)
IsPoint-later x i = record {
  point = i.point;
  earlier = later x i.earlier;
  complete = i.complete;
  applied = i.applied;
  resumes = i.resumes;
}
