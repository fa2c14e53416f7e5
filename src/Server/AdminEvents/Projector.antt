-- ===== src/Server/AdminEvents/Projector.antt =====
-- ostool-server/src/admin_events.rs: `start`, the task that reads the topics that have changed and
-- publishes them. What the owners give is a parameter.
use ostool.Prelude.{Bool, false, Option, none, some, List, [], ◌∷◌, if◌then◌else◌, Text, codes}
use ostool.Prelude.Map.{lookup, insert, remove, contains_key}
use ostool.Server.Outcome.{Result, ok, err}
use ostool.Server.AdminEvents.{AdminEvents, publish, invalidate}

-- `std::mem::take` of the topics, after the permit has come.
unfoldable pub take_dirty : {V : Type 0} → AdminEvents V → List (Text × Unit {0}) × AdminEvents V
take_dirty e = (e.dirty, record e { dirty = []; wake = false })

abbrev pub overview : Text
overview = codes "overview"

abbrev pub tftp_status : Text
tftp_status = codes "tftp_status"

-- The owners of the topics, and the JSON that stands for what they do not give.
pub record Owners (V : Type 0) : Type 0 where
  pub admin_topic : Text → Result Text V
  pub projected_overview : V → Result Text V
  pub error_value : Text → V
  pub null : V

module _ {V : Type 0} (owners : Owners V) where
  abbrev pub value_of : Result Text V → V
  value_of (ok value) = value
  value_of (err message) = owners.error_value message

  -- `for topic in topics`
  unfoldable pub read_topics : List (Text × Unit {0}) → List (Text × V) → List (Text × V)
  read_topics [] values = values
  read_topics ((t, u) ∷ ts) values =
      read_topics ts (insert t (value_of (owners.admin_topic t)) values)

  abbrev pub or_else : Option V → Option V → V
  or_else (some v) w = v
  or_else none (some w) = w
  or_else none none = owners.null

  unfoldable pub add_overview : List (Text × V) → List (Text × V) → List (Text × V)
  add_overview data_map values =
      insert overview
        (value_of (
          owners.projected_overview
            (or_else (lookup tftp_status values) (lookup tftp_status data_map))))
        values

  -- The values of a turn: of the topics that were taken, and the projection's own values.
  unfoldable pub read_values : List (Text × Unit {0}) → List (Text × V) → List (Text × V)
  read_values topics data_map =
      let values = read_topics (remove overview topics) [] in
      if contains_key overview topics then add_overview data_map values else values

  -- One turn of the task. Topics that change while it reads are topics of its next turn.
  unfoldable pub turn : (V → V → Bool) → List Text → AdminEvents V → AdminEvents V
  turn same meanwhile e =
      let taken = take_dirty e in
      publish same (read_values taken.0 e.projection.data_map) (invalidate meanwhile taken.1)
