-- ===== src/Tests/Events.antt =====
-- ostool-server: the projection that administrators follow.
use ostool.Prelude.{
  ℕ, ◌+◌, ◌≤◌, ◌≡◌, ◌≢◌, refl, true, false, none, some, [], ◌∷◌, map, arith, ◌==◌, ==_iff, length,
  Text, codes, text_eq, text_eq_iff,
}
use ostool.Prelude.Map.{lookup, insert, contains_key}
use ostool.Prelude.Decimal.{decimal, decimal_loop, parse_u64, parse_digits, rsplit_once}
use ostool.Server.Outcome.{ok, err, filter, is_empty, has, any}
use ostool.Server.AdminEvents.{
  AdminEvents, new_events, new_projection, publish, invalidate, after, snapshot, read_cursor,
  append_update, extend, trimmed, changes_of, is_change, history_limit, dependents,
}
use ostool.Server.AdminEvents.Subscribe.{subscribe, next_update, Replica, apply, current}
use ostool.Server.AdminEvents.Projector.{Owners, turn}
use ostool.Server.AdminEvents.Topics.{is_stale, invalidate-turn}
use ostool.Server.AdminEvents.Reach.{
  System, start, deliver, deliver_times, reconnect, Reach, started, published, delivered,
  reconnected, Reach-current,
}
use ostool.Server.AdminEvents.CatchUp.{catch_up}

abbrev boards : Text
boards = codes "boards"

abbrev epoch : Text
epoch = codes "a:1"

-- An administrator that has nothing.
abbrev blank : Replica ℕ
blank = record { epoch = []; revision = 0; data_map = []; missed = false }

abbrev hub : AdminEvents ℕ
hub = publish ◌==◌ ((boards, 1) ∷ []) (new_events epoch)

-- The cursor of the first update is read back, though the epoch has a colon.
no_news : after (some (codes "a:1:1")) hub.projection ≡ []
unfolding after publish append_update new_events new_projection changes_of is_change filter is_empty
    lookup extend insert trimmed read_cursor rsplit_once parse_u64 parse_digits text_eq
no_news = refl

-- What the reader of a cursor does not take is answered by a snapshot.
malformed : map (λ u. u.kind) (after (some (codes "malformed")) hub.projection) ≡ snapshot ∷ []
unfolding after publish append_update new_events new_projection changes_of is_change filter is_empty
    lookup extend insert trimmed read_cursor rsplit_once parse_u64 parse_digits text_eq
malformed = refl

other_epoch : map (λ u. u.kind) (after (some (codes "other:1")) hub.projection) ≡ snapshot ∷ []
unfolding after publish append_update new_events new_projection changes_of is_change filter is_empty
    lookup extend insert trimmed read_cursor rsplit_once parse_u64 parse_digits text_eq
other_epoch = refl

abbrev first : System ℕ
first = start epoch none blank

-- Published once and delivered, lost, opened again, published again and delivered.
abbrev opened : System ℕ
opened = deliver (deliver (record first { events = publish ◌==◌ ((boards, 1) ∷ []) first.events }))

abbrev again : System ℕ
again = reconnect opened

abbrev behind : System ℕ
behind = record again { events = publish ◌==◌ ((boards, 2) ∷ []) again.events }

abbrev abreast : System ℕ
abreast = deliver (deliver behind)

first-Reach : Reach ◌==◌ epoch first
unfolding read_cursor
first-Reach = started none blank tt

behind-Reach : Reach ◌==◌ epoch behind
unfolding deliver next_update reconnect subscribe publish append_update new_events new_projection
    changes_of is_change filter is_empty lookup extend insert trimmed after read_cursor
behind-Reach =
    published ((boards, 2) ∷ [])
      (reconnected (delivered (delivered (published ((boards, 1) ∷ []) first-Reach (omega arith)))))
      (omega arith)

abreast_waits :
    (abreast.subscriber.queue ≡ [])
    × (abreast.events.projection.initialized ≡ true)
    × (after abreast.subscriber.cursor abreast.events.projection ≡ [])
unfolding deliver next_update reconnect subscribe after publish append_update new_events
    new_projection changes_of is_change filter is_empty lookup extend insert trimmed read_cursor
    rsplit_once parse_u64 parse_digits text_eq decimal decimal_loop apply
abreast_waits = (refl, refl, refl)

-- It has the second value, by an update.
abreast_value : abreast.replica.data_map ≡ (boards, 2) ∷ []
unfolding deliver next_update reconnect subscribe after publish append_update new_events
    new_projection changes_of is_change filter is_empty lookup extend insert trimmed read_cursor
    rsplit_once parse_u64 parse_digits text_eq decimal decimal_loop apply
abreast_value = refl

Reach-current_example : abreast.replica ≡ current abreast.events.projection
Reach-current_example =
    Reach-current epoch abreast (delivered (delivered behind-Reach)) abreast_waits.0 abreast_waits.1
      abreast_waits.2

behind_initialized : behind.events.projection.initialized ≡ true
unfolding deliver next_update reconnect subscribe after publish append_update new_events
    new_projection changes_of is_change filter is_empty lookup extend insert trimmed read_cursor
    rsplit_once parse_u64 parse_digits text_eq decimal decimal_loop apply
behind_initialized = refl

catch_up_example :
    (n : ℕ) × (n ≤ length behind.subscriber.queue + (1 + history_limit))
    × ((deliver_times n behind).subscriber.queue ≡ [])
    × ((deliver_times n behind).replica ≡ current behind.events.projection)
catch_up_example = catch_up epoch behind behind-Reach behind_initialized

abbrev lab : Owners ℕ
lab = record {
  admin_topic = λ t. ok (length t);
  projected_overview = λ v. err (codes "offline");
  error_value = λ m. 404;
  null = 0;
}

runtimes_stale : is_stale (codes "runtimes") (boards ∷ []) ≡ true
unfolding any has dependents text_eq
runtimes_stale = refl

runtimes_ne : codes "runtimes" ≢ codes "overview"
runtimes_ne = ground (arith, text_eq_iff (codes "runtimes") (codes "overview"))

invalidate-turn_example :
    (lookup
        (codes "runtimes")
        (turn lab ◌==◌ (codes "dtbs" ∷ []) (invalidate (boards ∷ []) hub)).projection.data_map
      ≡ some 8)
    × (contains_key
          (codes "runtimes")
          (turn lab ◌==◌ (codes "dtbs" ∷ []) (invalidate (boards ∷ []) hub)).dirty
        ≡ is_stale (codes "runtimes") (codes "dtbs" ∷ []))
invalidate-turn_example =
    invalidate-turn lab ◌==◌ (λ v w. (==_iff v w).0) (boards ∷ []) (codes "dtbs" ∷ []) hub
      (codes "runtimes") runtimes_stale runtimes_ne
