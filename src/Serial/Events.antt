-- ===== src/Serial/Events.antt =====
-- ostool-serial/src/manager.rs: what the actor does with an event of its workers.
use ostool.Prelude.{
  ℕ, suc, Bool, true, false, not, ◌&&◌, Option, none, some, List, [], ◌∷◌, ltb, ◌==◌, if◌then◌else◌,
  Text, text_eq,
}
use ostool.Prelude.Map.{lookup, insert, remove}
use ostool.Server.Outcome.{ok}
use ostool.Serial.Ports.{PortLocator}
use ostool.Serial.Discovery.{Discovery, Surroundings, Pending, Candidate, to_bind, send_reply}

abbrev pub is_of : ℕ → Option Candidate → Bool
is_of generation none = false
is_of generation (some c) = c.generation == generation

abbrev pub is_current : ℕ → Option Candidate → Bool
is_current generation none = false
is_current generation (some c) = (c.generation == generation) && not c.closing

unfoldable pub on_closed : Text → ℕ → Discovery → Discovery
on_closed name generation s =
    if is_of generation (lookup name s.candidates)
    then record s {
      candidates = remove name s.candidates;
      failed =
          if is_current generation (lookup name s.candidates)
          then insert name tt s.failed
          else s.failed;
    }
    else s

abbrev pub behind_pending :
    Pending → Option (Pending × List Pending) → Option (Pending × List Pending)
behind_pending p none = none
behind_pending p (some (found, rest)) = some (found, p ∷ rest)

-- The request that this identifier answers, and the others in their order.
unfoldable pub take_pending : Surroundings → Text → List Pending → Option (Pending × List Pending)
take_pending env id [] = none
take_pending env id (p ∷ ps) =
    let rest = behind_pending p (take_pending env id ps) in
    if text_eq p.request.serial_id id
      && (not (env.is_closed p.reply) && ltb env.now p.request.deadline)
    then some (p, ps)
    else rest

-- `self.candidates.remove` behind the same test
abbrev pub without_candidate : Text → ℕ → List (Text × Candidate) → List (Text × Candidate)
without_candidate name generation candidates =
    if is_of generation (lookup name candidates) then remove name candidates else candidates

unfoldable pub lease_found : PortLocator → Pending → List Pending → Discovery → Discovery
lease_found locator p rest s =
    send_reply p.reply
      (to_bind
        (ok (record { locator = locator; token = suc s.sequence; mac = p.request.mac_address })))
      (record s {
        pending = rest;
        sequence = suc s.sequence;
        leased =
            insert locator.name
              (record { token = suc s.sequence; name = p.request.owner; locator = locator })
              s.leased;
      })

-- The name stays a candidate until the stale stream is closed.
unfoldable pub close_stale : PortLocator → ℕ → Discovery → Discovery
close_stale locator generation s = record s {
  candidates =
      insert locator.name
        (record { generation = generation; locator = locator; stop = true; closing = true })
        s.candidates;
  workers = record { locator = locator; generation = generation; scans = false } ∷ s.workers;
}

abbrev pub answer_found :
    Bool → PortLocator → ℕ → Option (Pending × List Pending) → Discovery → Discovery
answer_found takes locator generation none s = close_stale locator generation s
answer_found takes locator generation (some (p, rest)) s =
    if takes then lease_found locator p rest s else close_stale locator generation s

unfoldable pub on_found : Surroundings → PortLocator → ℕ → Text → Discovery → Discovery
on_found env locator generation id s =
    answer_found (is_current generation (lookup locator.name s.candidates) && env.has_senders)
      locator generation (take_pending env id s.pending)
      (record s { candidates = without_candidate locator.name generation s.candidates })

unfoldable pub on_fault : Text → Text → Discovery → Discovery
on_fault port error s = record s { errors = insert port error s.errors }

abbrev pub on_inventory : Option (List PortLocator) → Discovery → Discovery
on_inventory none s = record s { enumerating = false }
on_inventory (some ports) s = record s { enumerating = false; ports = ports }
