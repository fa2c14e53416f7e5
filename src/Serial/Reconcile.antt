-- ===== src/Serial/Reconcile.antt =====
-- ostool-serial/src/manager.rs: `reconcile`, at the end of each turn of the actor.
use ostool.Prelude.{
  ℕ, suc, ◌+◌, ◌-◌, ◌*◌, min, Bool, true, not, ◌&&◌, ◌||◌, Option, List, [], ◌∷◌, ◌++◌, map, ltb,
  leb, if◌then◌else◌, Text, codes,
}
use ostool.Prelude.Map.{insert, remove, contains_key}
use ostool.Server.Outcome.{ok, err, any, is_empty}
use ostool.Protocol.Serial.{SerialParameters}
use ostool.Serial.Ports.{PortLocator, matches, BindError, timeout, discovery_failed, parameters_eq}
use ostool.Serial.Discovery.{
  Discovery, Surroundings, Pending, Candidate, to_bind, to_exclude, to_reserve, send_reply,
  is_reserved,
}

-- `collect::<BTreeSet<_>>().len()`
unfoldable pub count_distinct : List SerialParameters → ℕ
count_distinct [] = 0
count_distinct (p ∷ ps) =
    let rest = count_distinct ps in if any (parameters_eq p) ps then rest else suc rest

abbrev pub max : ℕ → ℕ → ℕ
max m n = if ltb m n then n else m

unfoldable pub scan_window : List Pending → ℕ
scan_window pending = 1000 * max 5 (count_distinct (map (λ p. p.request.parameters) pending) * 2)

-- `{port}: {error}`, with `; ` between them
unfoldable pub joined_errors : List (Text × Text) → Text
joined_errors [] = []
joined_errors ((port, error) ∷ []) = port ++ (codes ": " ++ error)
joined_errors ((port, error) ∷ e ∷ errors) =
    port ++ (codes ": " ++ (error ++ (codes "; " ++ joined_errors (e ∷ errors))))

abbrev pub pending_error : List (Text × Text) → BindError
pending_error [] = timeout
pending_error (e ∷ errors) = discovery_failed (joined_errors (e ∷ errors))

-- The cached location has not answered within a second.
abbrev pub is_cache_late : ℕ → Pending → Bool
is_cache_late now p = not p.scanning && leb 1000 (now - p.started)

unfoldable pub with_scan : ℕ → ℕ → Pending → Pending
with_scan now window p =
    if is_cache_late now p
    then record p { scanning = true; scan_deadline = min p.request.deadline (now + window) }
    else p

unfoldable pub with_window : ℕ → Pending → Pending
with_window window p =
    if p.scanning
    then record p {
      scan_deadline = max p.scan_deadline (min (p.started + window) p.request.deadline);
    }
    else p

abbrev pub is_expired : ℕ → Pending → Bool
is_expired now p = leb p.request.deadline now || (p.scanning && leb p.scan_deadline now)

abbrev pub forget_late : ℕ → Pending → Discovery → Discovery
forget_late now p s =
    if is_cache_late now p
    then record s { locations = remove p.request.mac_address s.locations }
    else s

abbrev pub give_up : Pending → Discovery → Discovery
give_up p s =
    send_reply p.reply (to_bind (err (pending_error s.errors)))
      (record s { locations = remove p.request.mac_address s.locations })

-- The requests that are left go to the end of `pending` again.
unfoldable pub expire_each : Surroundings → ℕ → List Pending → Discovery → Discovery
expire_each env window [] s = s
expire_each env window (p ∷ ps) s =
    let q = with_window window (with_scan env.now window p) in
    let forgotten = forget_late env.now p s in
    let closed = expire_each env window ps s in
    let expired = expire_each env window ps (give_up q forgotten) in
    let kept =
      expire_each env window ps (record forgotten { pending = forgotten.pending ++ (q ∷ []) }) in
    if env.is_closed p.reply then closed else if is_expired env.now q then expired else kept

unfoldable pub expire_pending : Surroundings → Discovery → Discovery
expire_pending env s = expire_each env (scan_window s.pending) s.pending (record s { pending = [] })

unfoldable pub announce : Discovery → Discovery
announce s = record s {
  expected = map (λ p. (p.request.serial_id, p.request.parameters)) s.pending;
}

unfoldable pub must_stop : (Text → Option Text) → Discovery → Candidate → Bool
must_stop canonicalize s c =
    is_empty s.pending
    || (any (matches canonicalize c.locator) s.exclusions
        || is_reserved c.locator.name s.reservations)

abbrev pub stopped : Candidate → Candidate
stopped c = record c { closing = true; stop = true }

unfoldable pub stop_each : (Candidate → Bool) → List (Text × Candidate) → List (Text × Candidate)
stop_each test [] = []
stop_each test ((name, c) ∷ cs) =
    let rest = stop_each test cs in if test c then (name, stopped c) ∷ rest else (name, c) ∷ rest

unfoldable pub stop_candidates : (Text → Option Text) → Discovery → Discovery
stop_candidates canonicalize s = record s {
  candidates = stop_each (must_stop canonicalize s) s.candidates;
}

abbrev pub send_excluded : List ℕ → Discovery → Discovery
send_excluded [] s = s
send_excluded (r ∷ rs) s = send_excluded rs (send_reply r (to_exclude (ok tt)) s)

unfoldable pub answer_excluded : (Text → Option Text) → Discovery → Discovery
answer_excluded canonicalize s =
    if any (λ e. any (matches canonicalize e.1.locator) s.exclusions) s.candidates
    then s
    else record (send_excluded s.excluded_replies s) { excluded_replies = [] }

-- `name: "manual".into()`
abbrev pub manual : Text
manual = codes "manual"

unfoldable pub lease_reserved : PortLocator → ℕ → Discovery → Discovery
lease_reserved port reply s =
    send_reply reply (to_reserve (ok (record { port = port.name; token = suc s.sequence })))
      (record s {
        sequence = suc s.sequence;
        leased =
            insert port.name (record { token = suc s.sequence; name = manual; locator = port })
              s.leased;
      })

-- What still waits goes to the end of `reservations` again.
unfoldable pub reserve_each : Surroundings → List (PortLocator × ℕ) → Discovery → Discovery
reserve_each env [] s = s
reserve_each env ((port, reply) ∷ rs) s =
    let dropped = reserve_each env rs s in
    let waits =
      reserve_each env rs (record s { reservations = s.reservations ++ ((port, reply) ∷ []) }) in
    let leases = reserve_each env rs (lease_reserved port reply s) in
    if env.is_closed reply
    then dropped
    else if contains_key port.name s.candidates
    then waits
    else if env.has_senders
    then leases
    else dropped

unfoldable pub serve_reservations : Surroundings → Discovery → Discovery
serve_reservations env s = reserve_each env s.reservations (record s { reservations = [] })
