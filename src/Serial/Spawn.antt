-- ===== src/Serial/Spawn.antt =====
-- ostool-serial/src/manager.rs: the rest of `reconcile`: who waits for a release, the enumeration of the
-- ports, and a scan of each port that may have a board. The task that asks the operating system for
-- its ports ends in an event, which may come at any time, or not at all.
use ostool.Prelude.{
  ℕ, suc, ◌+◌, Bool, true, false, not, ◌&&◌, ◌||◌, Option, none, some, List, [], ◌∷◌, ◌++◌, leb,
  ◌==◌, if◌then◌else◌, length, Text, text_eq,
}
use ostool.Prelude.Map.{lookup, insert, contains_key}
use ostool.Server.Outcome.{any, is_empty, has}
use ostool.Serial.Ports.{PortLocator, some_text_eq, matches}
use ostool.Serial.Discovery.{Discovery, Surroundings, to_waiter, send_reply, is_reserved}
use ostool.Serial.Reconcile.{
  expire_pending, announce, stop_candidates, answer_excluded, serve_reservations,
}

-- Whether the owner has a lease or asks for one, or a scan that may have read for it still closes.
unfoldable pub is_busy_owner : Text → Discovery → Bool
is_busy_owner owner s =
    any (λ e. text_eq e.1.name owner) s.leased
    || (any (λ p. text_eq p.request.owner owner) s.pending
        || (is_empty s.pending && not (is_empty s.candidates)))

unfoldable pub wait_each : Surroundings → List (Text × ℕ) → Discovery → Discovery
wait_each env [] s = s
wait_each env ((owner, reply) ∷ ws) s =
    let dropped = wait_each env ws s in
    let waits =
      wait_each env ws
        (record s { release_waiters = s.release_waiters ++ ((owner, reply) ∷ []) }) in
    let answered = wait_each env ws (send_reply reply to_waiter s) in
    if env.is_closed reply then dropped else if is_busy_owner owner s then waits else answered

unfoldable pub answer_waiters : Surroundings → Discovery → Discovery
answer_waiters env s = wait_each env s.release_waiters (record s { release_waiters = [] })

unfoldable pub enumerate : Surroundings → Discovery → Discovery
enumerate env s =
    if not s.enumerating && leb s.next_enumeration env.now
    then record s { enumerating = true; next_enumeration = env.now + 250 }
    else s

-- `serial_counts.get(&serial_number)`
unfoldable pub serial_count : Option Text → List PortLocator → ℕ
serial_count serial_number [] = 0
serial_count serial_number (port ∷ ports) =
    let rest = serial_count serial_number ports in
    if some_text_eq port.serial_number serial_number then suc rest else rest

abbrev pub is_some_text : Option Text → Bool
is_some_text none = false
is_some_text (some t) = true

-- The port is where the board was: by its name, an alias, or a serial number that no other port has.
unfoldable pub is_place_of : List PortLocator → PortLocator → PortLocator → Bool
is_place_of ports locator old =
    text_eq old.name locator.name
    || (any (λ alias. has alias locator.aliases) old.aliases
        || (is_some_text old.serial_number
            && (some_text_eq old.serial_number locator.serial_number
                && (serial_count locator.serial_number ports == 1))))

abbrev pub is_cached_at : List PortLocator → PortLocator → Option PortLocator → Bool
is_cached_at ports locator none = false
is_cached_at ports locator (some old) = is_place_of ports locator old

unfoldable pub is_cached : List PortLocator → PortLocator → Discovery → Bool
is_cached ports locator s =
    any (λ p. is_cached_at ports locator (lookup p.request.mac_address s.locations)) s.pending

-- Whether the port is left alone: it is read or leased, has failed, is excluded or asked for.
unfoldable pub is_taken : (Text → Option Text) → PortLocator → Discovery → Bool
is_taken canonicalize locator s =
    contains_key locator.name s.candidates
    || (contains_key locator.name s.leased
        || (contains_key locator.name s.failed
            || (any (matches canonicalize locator) s.exclusions
                || is_reserved locator.name s.reservations)))

unfoldable pub scan_port : PortLocator → Discovery → Discovery
scan_port locator s = record s {
  sequence = suc s.sequence;
  candidates =
      insert locator.name
        (record { generation = suc s.sequence; locator = locator; stop = false; closing = false })
        s.candidates;
  workers = record { locator = locator; generation = suc s.sequence; scans = true } ∷ s.workers;
}

unfoldable pub scan_each :
    (Text → Option Text) → Bool → List PortLocator → List PortLocator → Discovery → Discovery
scan_each canonicalize full all [] s = s
scan_each canonicalize full all (locator ∷ ports) s =
    let skipped = scan_each canonicalize full all ports s in
    let scanned = scan_each canonicalize full all ports (scan_port locator s) in
    if is_taken canonicalize locator s
    then skipped
    else if not full && not (is_cached all locator s)
    then skipped
    else scanned

unfoldable pub discover : (Text → Option Text) → Surroundings → Discovery → Discovery
discover canonicalize env s =
    if is_empty s.pending
    then s
    else scan_each canonicalize (any (λ p. p.scanning) s.pending) s.ports s.ports (enumerate env s)

unfoldable pub publish_snapshot : Discovery → Discovery
publish_snapshot s = record s {
  snapshot = record {
    pending = length s.pending;
    candidates = length s.candidates;
    leased = length s.leased;
  };
}

unfoldable pub reconcile : (Text → Option Text) → Surroundings → Discovery → Discovery
reconcile canonicalize env s = publish_snapshot (
    discover canonicalize env (
      answer_waiters env (
        serve_reservations env (
          answer_excluded canonicalize
            (stop_candidates canonicalize (announce (expire_pending env s)))))))
