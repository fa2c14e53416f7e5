-- ===== src/Server/AdminEvents.antt =====
-- ostool-server/src/admin_events.rs: the projection of the server's state that its administrators
-- follow. A value is whatever JSON the owners of a topic give; `==` of two values is a parameter, and
-- so are the owners, which `admin_topic` and `projected_overview` read. A set of topics is a map to
-- `()`. The permit of `wake` is a Boolean.
pub mod Subscribe
pub mod Projector
pub mod Updates
pub mod Published
pub mod Topics
pub mod Follow
pub mod Queue
pub mod Reach
pub mod CatchUp
use ostool.Prelude.{
  ℕ, zero, suc, ◌+◌, ◌-◌, ◌*◌, ◌/◌, ◌%◌, ◌^◌, ◌≤◌, ◌<◌, min, ◌≡◌, ◌≢◌, ◌↔◌, ◌⊎◌, refl, sym, ap, ◌∙◌,
  inl, inr, Bool, true, false, not, ◌&&◌, ◌||◌, Option, none, some, List, [], ◌∷◌, ◌++◌, map,
  append-nil, append_assoc, arith, ltb, leb, ◌==◌, if◌then◌else◌, ltb→lt, lt→ltb, ==_iff, ==_refl,
  Bool-cases, Option-cases, and_true, length, get_elem?, get_or, take, drop, replicate, All,
  length-append, All-append, IsByte, Text, codes, text_eq, text_eq_iff, text_eq_refl, text_lt,
}
use ostool.Prelude.Map.{lookup, insert, remove, contains_key}
use ostool.Prelude.Decimal.{decimal, parse_u64, rsplit_once}
use ostool.Server.Outcome.{Result, ok, err, filter, is_empty}

abbrev pub history_limit : ℕ
history_limit = 256

pub data Kind : Type 0 where
  update snapshot : Kind

pub record Update (V : Type 0) : Type 0 where
  pub epoch : Text
  pub revision : ℕ
  pub kind : Kind
  pub data_map : List (Text × V)

pub record Projection (V : Type 0) : Type 0 where
  pub epoch : Text
  pub revision : ℕ
  pub initialized : Bool
  pub data_map : List (Text × V)
  pub history : List (Update V)

pub record AdminEvents (V : Type 0) : Type 0 where
  pub projection : Projection V
  pub dirty : List (Text × Unit {0})
  pub wake : Bool
  pub changed : ℕ

-- What has no update yet.
unfoldable pub new_projection : {V : Type 0} → Text → Projection V
new_projection epoch = record {
  epoch = epoch;
  revision = 0;
  initialized = false;
  data_map = [];
  history = [];
}

unfoldable pub new_events : {V : Type 0} → Text → AdminEvents V
new_events epoch = record {
  projection = new_projection epoch;
  dirty = [];
  wake = false;
  changed = 0;
}

abbrev pub insert_topic : Text → List (Text × Unit {0}) → List (Text × Unit {0})
insert_topic topic dirty = insert topic tt dirty

-- `dirty.extend`
unfoldable pub insert_topics : List Text → List (Text × Unit {0}) → List (Text × Unit {0})
insert_topics [] dirty = dirty
insert_topics (t ∷ ts) dirty = insert_topics ts (insert_topic t dirty)

-- The topics whose values come from this one's.
unfoldable pub dependents : Text → List Text
dependents topic =
    if text_eq topic (codes "boards")
    then codes "runtimes" ∷ codes "loaders" ∷ codes "overview" ∷ []
    else if text_eq topic (codes "sessions") || text_eq topic (codes "runtimes")
    then codes "sessions" ∷ codes "runtimes" ∷ codes "overview" ∷ []
    else if text_eq topic (codes "network")
        || (text_eq topic (codes "server") || text_eq topic (codes "tftp"))
    then codes "tftp_status" ∷ codes "overview" ∷ []
    else if text_eq topic (codes "tftp_status")
    then codes "overview" ∷ []
    else if text_eq topic (codes "serial")
    then codes "boards" ∷ []
    else []

unfoldable pub invalidate_each : List Text → List (Text × Unit {0}) → List (Text × Unit {0})
invalidate_each [] dirty = dirty
invalidate_each (t ∷ ts) dirty =
    invalidate_each ts (insert_topics (dependents t) (insert_topic t dirty))

unfoldable pub invalidate : {V : Type 0} → List Text → AdminEvents V → AdminEvents V
invalidate topics e = record e { dirty = invalidate_each topics e.dirty; wake = true }

-- `map.extend`
unfoldable pub extend : {V : Type 0} → List (Text × V) → List (Text × V) → List (Text × V)
extend data_map [] = data_map
extend data_map ((k, v) ∷ values) = extend (insert k v data_map) values

-- `while history.len() > HISTORY_LIMIT { history.pop_front(); }`
unfoldable pub trimmed : {V : Type 0} → List (Update V) → List (Update V)
trimmed [] = []
trimmed (u ∷ us) =
    let rest = trimmed us in if ltb history_limit (length (u ∷ us)) then rest else u ∷ us

unfoldable pub append_update : {V : Type 0} → List (Text × V) → Projection V → Projection V
append_update changes p = record p {
  initialized = true;
  revision = suc p.revision;
  data_map = extend p.data_map changes;
  history = trimmed (
      p.history
      ++ (record { epoch = p.epoch; revision = suc p.revision; kind = update; data_map = changes }
          ∷ []));
}

module _ {V : Type 0} (same : V → V → Bool) where
  -- `p.data.get(k) != Some(v)`
  abbrev pub differs : Option V → V → Bool
  differs none v = true
  differs (some old) v = not (same old v)

  unfoldable pub is_change : List (Text × V) → Text × V → Bool
  is_change data_map (k, v) = differs (lookup k data_map) v

  unfoldable pub changes_of : List (Text × V) → List (Text × V) → List (Text × V)
  changes_of values data_map = filter (is_change data_map) values

  unfoldable pub publish : List (Text × V) → AdminEvents V → AdminEvents V
  publish values e =
      if is_empty (changes_of values e.projection.data_map) && e.projection.initialized
      then e
      else record e {
        projection = append_update (changes_of values e.projection.data_map) e.projection;
        changed = suc e.projection.revision;
      }

abbrev pub colon : ℕ
colon = 58

-- `format!("{}:{}", epoch, revision)`
abbrev pub cursor_text : Text → ℕ → Text
cursor_text epoch revision = epoch ++ (colon ∷ decimal revision)

abbrev pub with_epoch : Text → Option ℕ → Option (Text × ℕ)
with_epoch epoch none = none
with_epoch epoch (some revision) = some (epoch, revision)

abbrev pub read_revision : Option (Text × Text) → Option (Text × ℕ)
read_revision none = none
read_revision (some (epoch, digits)) = with_epoch epoch (parse_u64 digits)

unfoldable pub read_cursor : Option Text → Option (Text × ℕ)
read_cursor none = none
read_cursor (some cursor) = read_revision (rsplit_once colon cursor)

-- Whether the history goes back far enough for this revision: `saturating_sub` stops at 0.
abbrev pub reaches_back : {V : Type 0} → ℕ → List (Update V) → Bool
reaches_back revision [] = false
reaches_back revision (first ∷ us) = leb (first.revision - 1) revision

abbrev pub is_replay : {V : Type 0} → Projection V → Option (Text × ℕ) → Bool
is_replay p none = false
is_replay p (some (epoch, revision)) =
    text_eq epoch p.epoch && (leb revision p.revision && reaches_back revision p.history)

abbrev pub is_later : {V : Type 0} → Option (Text × ℕ) → Update V → Bool
is_later none u = false
is_later (some (epoch, revision)) u = ltb revision u.revision

unfoldable pub after : {V : Type 0} → Option Text → Projection V → List (Update V)
after cursor p =
    if is_replay p (read_cursor cursor)
    then filter (is_later (read_cursor cursor)) p.history
    else record { epoch = p.epoch; revision = p.revision; kind = snapshot; data_map = p.data_map }
      ∷ []
