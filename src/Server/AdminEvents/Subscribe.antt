-- ===== src/Server/AdminEvents/Subscribe.antt =====
-- ostool-server/src/admin_events.rs: `subscribe`, the stream of one administrator. A turn of its loop
-- gives the next update of its queue, or fills the queue; an empty queue after that is where it waits.
-- The connection ends with the stream, and the next one begins at the last update that was given.
use ostool.Prelude.{
  ℕ, suc, Bool, false, not, ◌&&◌, ◌||◌, Option, none, some, List, [], ◌∷◌, ◌==◌, Text, text_eq,
}
use ostool.Server.AdminEvents.{
  Update, Kind, update, snapshot, Projection, after, cursor_text, extend,
}

pub record Subscriber (V : Type 0) : Type 0 where
  pub cursor : Option Text
  pub queue : List (Update V)

-- With the header `last-event-id` of the request.
unfoldable pub subscribe : {V : Type 0} → Option Text → Subscriber V
subscribe last_event_id = record { cursor = last_event_id; queue = [] }

unfoldable pub next_update :
    {V : Type 0} → Projection V → Subscriber V → Option (Update V) × Subscriber V
next_update p s = elim (s.queue) [
  | [] ↦ (none, record s { queue = after s.cursor p })
  | u ∷ us ↦ (some u, record { cursor = some (cursor_text u.epoch u.revision); queue = us })
]

-- What an administrator makes of the updates: the values that it has, of which update of which epoch,
-- and whether it has missed an update since its last snapshot.
pub record Replica (V : Type 0) : Type 0 where
  pub epoch : Text
  pub revision : ℕ
  pub data_map : List (Text × V)
  pub missed : Bool

abbrev pub is_next : {V : Type 0} → Update V → Replica V → Bool
is_next u r = text_eq u.epoch r.epoch && (u.revision == suc r.revision)

abbrev pub apply_kind : {V : Type 0} → Kind → Update V → Replica V → Replica V
apply_kind snapshot u r = record {
  epoch = u.epoch;
  revision = u.revision;
  data_map = u.data_map;
  missed = false;
}
apply_kind update u r = record {
  epoch = u.epoch;
  revision = u.revision;
  data_map = extend r.data_map u.data_map;
  missed = r.missed || not (is_next u r);
}

unfoldable pub apply : {V : Type 0} → Update V → Replica V → Replica V
apply u r = apply_kind u.kind u r

unfoldable pub apply_all : {V : Type 0} → List (Update V) → Replica V → Replica V
apply_all [] r = r
apply_all (u ∷ us) r = apply_all us (apply u r)

-- A replica that has everything.
abbrev pub current : {V : Type 0} → Projection V → Replica V
current p = record { epoch = p.epoch; revision = p.revision; data_map = p.data_map; missed = false }
