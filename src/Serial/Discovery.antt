-- ===== src/Serial/Discovery.antt =====
-- ostool-serial/src/manager.rs: the state of the actor, and what it does with a command and with an
-- event. A reply is the number of its channel: `replies` has what was sent, and in which order. The
-- stream of a worker that has found a board goes with the worker. What the actor learns from its
-- surroundings in a turn is a record: the time, which channels are closed, and whether somebody can
-- still send_reply commands. Its workers are the tasks that read a candidate, or close its stream.
use ostool.Prelude.{
  ℕ, ◌+◌, min, Bool, false, not, ◌&&◌, ◌||◌, Option, none, some, List, [], ◌∷◌, ◌++◌, ltb, ◌==◌,
  if◌then◌else◌, Text, text_eq,
}
use ostool.Prelude.Map.{lookup, insert, remove, contains_key}
use ostool.Server.Outcome.{Result, err, any, filter, is_empty}
use ostool.Protocol.{MacAddress}
use ostool.Protocol.Serial.{SerialParameters}
use ostool.Serial.Ports.{
  PortLocator, PortSelector, selector_eq, matches, BindRequest, BindError, busy, ManagerSnapshot,
  SerialLease, PortReservation, parameters_eq,
}

pub data Command : Type 0 where
  bind : BindRequest → ℕ → Command
  exclude : List PortSelector → ℕ → Command
  reserve : PortLocator → ℕ → Command
  release : Text → ℕ → Command
  confirm : MacAddress → PortLocator → ℕ → Command
  invalidate : MacAddress → Command
  wait_owner : Text → ℕ → Command

pub record Pending : Type 0 where
  pub request : BindRequest
  pub reply : ℕ
  pub started : ℕ
  pub scanning : Bool
  pub scan_deadline : ℕ

pub record Candidate : Type 0 where
  pub generation : ℕ
  pub locator : PortLocator
  pub stop : Bool
  pub closing : Bool

pub record Owner : Type 0 where
  pub token : ℕ
  pub name : Text
  pub locator : PortLocator

-- A task of a candidate: the scan, or the closing of the stream of a scan that came too late.
pub record Worker : Type 0 where
  pub locator : PortLocator
  pub generation : ℕ
  pub scans : Bool

pub data Reply : Type 0 where
  to_bind : Result BindError SerialLease → Reply
  to_exclude : Result BindError (Unit {0}) → Reply
  to_reserve : Result BindError PortReservation → Reply
  to_waiter : Reply

pub record Discovery : Type 0 where
  pub pending : List Pending
  pub candidates : List (Text × Candidate)
  pub leased : List (Text × Owner)
  pub locations : List (MacAddress × PortLocator)
  pub exclusions : List PortSelector
  pub excluded_replies : List ℕ
  pub reservations : List (PortLocator × ℕ)
  pub release_waiters : List (Text × ℕ)
  pub failed : List (Text × Unit {0})
  pub errors : List (Text × Text)
  pub sequence : ℕ
  pub ports : List PortLocator
  pub enumerating : Bool
  pub next_enumeration : ℕ
  pub expected : List (Text × SerialParameters)
  pub snapshot : ManagerSnapshot
  pub workers : List Worker
  pub replies : List (ℕ × Reply)

pub record Surroundings : Type 0 where
  pub now : ℕ
  pub is_closed : ℕ → Bool
  pub has_senders : Bool

unfoldable pub new_discovery : ℕ → Discovery
new_discovery now = record {
  pending = [];
  candidates = [];
  leased = [];
  locations = [];
  exclusions = [];
  excluded_replies = [];
  reservations = [];
  release_waiters = [];
  failed = [];
  errors = [];
  sequence = 0;
  ports = [];
  enumerating = false;
  next_enumeration = now;
  expected = [];
  snapshot = record { pending = 0; candidates = 0; leased = 0 };
  workers = [];
  replies = [];
}

abbrev pub send_reply : ℕ → Reply → Discovery → Discovery
send_reply reply answer s = record s { replies = s.replies ++ ((reply, answer) ∷ []) }

-- The boot before this one, of the same owner and board.
abbrev pub is_superseded : BindRequest → Pending → Bool
is_superseded request p =
    text_eq p.request.owner request.owner
    && (text_eq p.request.mac_address request.mac_address
        && ltb p.request.generation request.generation)

abbrev pub collides : BindRequest → Pending → Bool
collides request p =
    text_eq p.request.mac_address request.mac_address
    || text_eq p.request.serial_id request.serial_id

unfoldable pub add_pending : Surroundings → BindRequest → ℕ → Discovery → Discovery
add_pending env request reply s = record s {
  errors = if is_empty s.pending then [] else s.errors;
  failed =
      if any (λ p. parameters_eq p.request.parameters request.parameters) s.pending
      then s.failed
      else [];
  pending =
      s.pending
      ++ (record {
        request = request;
        reply = reply;
        started = env.now;
        scanning = not (contains_key request.mac_address s.locations);
        scan_deadline = min request.deadline (env.now + 5000);
      }
          ∷ []);
}

unfoldable pub on_bind : Surroundings → BindRequest → ℕ → Discovery → Discovery
on_bind env request reply s =
    let kept = filter (λ p. not (is_superseded request p)) s.pending in
    if env.is_closed reply
    then s
    else if any (collides request) kept
    then send_reply reply (to_bind (err busy)) (record s { pending = kept })
    else add_pending env request reply (record s { pending = kept })

unfoldable pub on_exclude : (Text → Option Text) → List PortSelector → ℕ → Discovery → Discovery
on_exclude canonicalize selectors reply s =
    if any
      (λ selector.
        not (any (selector_eq selector) s.exclusions)
        && any (λ e. matches canonicalize e.1.locator selector) s.leased)
      selectors
    then send_reply reply (to_exclude (err busy)) s
    else record s { exclusions = selectors; excluded_replies = s.excluded_replies ++ (reply ∷ []) }

-- Whether somebody waits for this port.
abbrev pub is_reserved : Text → List (PortLocator × ℕ) → Bool
is_reserved name reservations = any (λ r. text_eq r.0.name name) reservations

unfoldable pub on_reserve : PortLocator → ℕ → Discovery → Discovery
on_reserve port reply s =
    if contains_key port.name s.leased || is_reserved port.name s.reservations
    then send_reply reply (to_reserve (err busy)) s
    else record s { reservations = s.reservations ++ ((port, reply) ∷ []) }

abbrev pub holds_token : ℕ → Option Owner → Bool
holds_token token none = false
holds_token token (some owner) = owner.token == token

unfoldable pub command : (Text → Option Text) → Surroundings → Command → Discovery → Discovery
command canonicalize env (bind request reply) s = on_bind env request reply s
command canonicalize env (exclude selectors reply) s = on_exclude canonicalize selectors reply s
command canonicalize env (reserve port reply) s = on_reserve port reply s
command canonicalize env (release port token) s =
    if holds_token token (lookup port s.leased)
    then record s { leased = remove port s.leased }
    else s
command canonicalize env (confirm mac locator token) s =
    if holds_token token (lookup locator.name s.leased)
    then record s { locations = insert mac locator s.locations }
    else s
command canonicalize env (invalidate mac) s = record s { locations = remove mac s.locations }
command canonicalize env (wait_owner owner reply) s = record s {
  release_waiters = s.release_waiters ++ ((owner, reply) ∷ []);
}
