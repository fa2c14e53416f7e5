-- ===== src/Serial/Scan.antt =====
-- ostool-serial/src/manager.rs: `scan`, the task that reads one port until the beacon of a board that
-- is asked for comes. The stream is what was done with it, in order. What the task learns is a
-- parameter: how the opening with each parameters ends, and for each turn of its loop the two watched
-- values and which of its four sources was ready. The text that `Debug` gives of parameters is a
-- parameter.
pub mod Heard
pub mod Tuned
pub mod Found
pub mod Ends
use ostool.Prelude.{
  ℕ, zero, suc, ◌+◌, ◌-◌, ◌*◌, ◌/◌, ◌%◌, ◌^◌, ◌≤◌, ◌<◌, min, ◌≡◌, ◌≢◌, ◌↔◌, ◌⊎◌, refl, sym, ap, ◌∙◌,
  inl, inr, Bool, true, false, not, ◌&&◌, ◌||◌, Option, none, some, List, [], ◌∷◌, ◌++◌, map,
  append-nil, append_assoc, arith, ltb, leb, ◌==◌, if◌then◌else◌, ltb→lt, lt→ltb, ==_iff, ==_refl,
  Bool-cases, Option-cases, and_true, length, get_elem?, get_or, take, drop, replicate, All,
  length-append, All-append, IsByte, Text, codes, text_eq, text_eq_iff, text_eq_refl, text_lt,
}
use ostool.Server.Outcome.{Result, ok, err, any, is_empty}
use ostool.Protocol.Serial.{
  SerialParameters, SerialParity, SerialStopBits, SerialFlowControl, no_parity, odd, even, mark,
  space, one, one_point_five, two, no_flow_control, rts_cts, SerialFrameDecoder, new_decoder, push,
}
use ostool.Serial.Ports.{PortLocator, parameters_eq}
use ostool.Serial.Expected.{distinct_parameters}

-- What the workers send to the actor.
pub data Event : Type 0 where
  found : PortLocator → ℕ → Text → List ℕ → Event
  closed : Text → ℕ → Event
  fault : Text → Text → Event
  inventory : Option (List PortLocator) → Event

pub data ErrorKind : Type 0 where
  would_block permission_denied other_kind : ErrorKind

-- `std::io::Error`, with its text
pub record IoError : Type 0 where
  pub kind : ErrorKind
  pub text : Text

pub data Act : Type 0 where
  configured refused : SerialParameters → Act
  heard : List ℕ → Act

pub record Scan : Type 0 where
  pub decoder : SerialFrameDecoder
  pub history : List ℕ
  pub parameter_index : ℕ
  pub active_parameters : Option SerialParameters
  pub stream : List Act
  pub events : List Event

pub data Happening : Type 0 where
  stop_changed expected_changed : Bool → Happening
  ticked : Result IoError (Unit {0}) → Happening
  arrived : Result IoError (List ℕ) → Happening

-- A turn of the loop: the flag to stop at its start and when it is looked at again, who is expected,
-- and what happens.
pub record Moment : Type 0 where
  pub stops : Bool
  pub stops_now : Bool
  pub expected : List (Text × SerialParameters)
  pub happening : Happening

-- The opening with given parameters: the flag to stop before it, and its end.
pub record Attempt : Type 0 where
  pub stops : Bool
  pub outcome : Result IoError (Unit {0})

-- The last event of a task that has ended is beside the others.
pub data Step : Type 0 where
  going : Scan → Step
  ended : Scan → Event → Step

abbrev pub history_bytes : ℕ
history_bytes = 64 * 1024

unfoldable pub keep_last : ℕ → List ℕ → List ℕ
keep_last n bytes = if ltb n (length bytes) then drop (length bytes - n) bytes else bytes

abbrev pub is_active : SerialParameters → Option SerialParameters → Bool
is_active p none = false
is_active p (some active) = parameters_eq p active

abbrev pub is_wanted : List (Text × SerialParameters) → Option SerialParameters → Text → Bool
is_wanted expected active id = any (λ e. text_eq e.0 id && is_active e.1 active) expected

abbrev pub is_skipped : ErrorKind → Bool
is_skipped would_block = true
is_skipped permission_denied = true
is_skipped other_kind = false

-- The identifier is wanted, if there is one.
abbrev pub wants : List (Text × SerialParameters) → Option SerialParameters → Option Text → Bool
wants expected active none = false
wants expected active (some id) = is_wanted expected active id

-- The loop over the bytes of a read: the first identifier that is wanted, and the decoder.
unfoldable pub seek :
    List (Text × SerialParameters)
    → Option SerialParameters
    → List ℕ
    → SerialFrameDecoder
    → Option Text × SerialFrameDecoder
seek expected active [] d = (none, d)
seek expected active (b ∷ bs) d =
    let rest = seek expected active bs (push b d).1 in
    if wants expected active (push b d).0 then push b d else rest

module _ (debug : SerialParameters → Text) (locator : PortLocator) (generation : ℕ) where
  abbrev pub send_fault : Text → Scan → Scan
  send_fault text s = record s { events = s.events ++ (fault locator.name text ∷ []) }

  abbrev pub end_scan : Scan → Step
  end_scan s = ended s (closed locator.name generation)

  -- `stream.configure(next)`, and what depends on its end
  unfoldable pub set_parameters : SerialParameters → Result IoError (Unit {0}) → Scan → Scan
  set_parameters next (ok u) s = record s {
    active_parameters = some next;
    decoder = new_decoder;
    stream = s.stream ++ (configured next ∷ []);
  }
  set_parameters next (err e) s =
      send_fault (codes "configure " ++ (debug next ++ (codes ": " ++ e.text))) (record s {
        active_parameters = none;
        decoder = new_decoder;
        stream = s.stream ++ (refused next ∷ []);
      })

  abbrev pub with_next_index : Scan → Scan
  with_next_index s = record s { parameter_index = (s.parameter_index + 1) % 2 ^ 64 }

  unfoldable pub rotate : SerialParameters → Result IoError (Unit {0}) → Scan → Scan
  rotate next outcome s =
      with_next_index
        (if is_active next s.active_parameters then s else set_parameters next outcome s)

  abbrev pub on_tick : List SerialParameters → Result IoError (Unit {0}) → Scan → Step
  on_tick [] outcome s = end_scan s
  on_tick (p ∷ ps) outcome s =
      going (rotate (get_or (p ∷ ps) (s.parameter_index % length (p ∷ ps)) p) outcome s)

  -- The bytes of a read go to the history first.
  abbrev pub hear : List ℕ → Scan → Scan
  hear bytes s = record s {
    history = keep_last history_bytes (s.history ++ bytes);
    stream = s.stream ++ (heard bytes ∷ []);
  }

  abbrev pub answer_seek : Option Text × SerialFrameDecoder → Scan → Step
  answer_seek (none, d) s = going (record s { decoder = d })
  answer_seek (some id, d) s =
      ended (record s { decoder = d }) (found locator generation id s.history)

  abbrev pub on_read : List (Text × SerialParameters) → Result IoError (List ℕ) → Scan → Step
  on_read expected (err e) s = end_scan (send_fault e.text s)
  on_read expected (ok []) s = end_scan (send_fault (codes "serial reader closed") s)
  on_read expected (ok (b ∷ bs)) s =
      answer_seek (seek expected s.active_parameters (b ∷ bs) s.decoder) (hear (b ∷ bs) s)

  abbrev pub on_happening : Moment → Happening → Scan → Step
  on_happening m (stop_changed lives) s = if not lives || m.stops_now then end_scan s else going s
  on_happening m (expected_changed lives) s =
      if not lives || is_empty m.expected then end_scan s else going s
  on_happening m (ticked outcome) s = on_tick (distinct_parameters m.expected) outcome s
  on_happening m (arrived result) s = on_read m.expected result s

  unfoldable pub turn : Moment → Scan → Step
  turn m s = if m.stops then end_scan s else on_happening m m.happening s

  -- The loop, for as many turns as there are moments.
  unfoldable pub read_port : List Moment → Scan → Step
  read_port [] s = going s
  read_port (m ∷ ms) s = elim (turn m s) [ going t ↦ read_port ms t | ended t e ↦ ended t e ]

  abbrev pub open_fault : SerialParameters → IoError → Event
  open_fault p e =
      fault locator.name (codes "open/configure " ++ (debug p ++ (codes ": " ++ e.text)))

  abbrev pub after_failure :
      SerialParameters
      → IoError
      → List Event × Option SerialParameters
      → List Event × Option SerialParameters
  after_failure p e rest =
      if is_skipped e.kind then (open_fault p e ∷ [], none) else (open_fault p e ∷ rest.0, rest.1)

  -- The faults of the openings that fail, and the parameters of the one that does not.
  unfoldable pub try_open :
      (SerialParameters → Attempt) → List SerialParameters → List Event × Option SerialParameters
  try_open attempts [] = ([], none)
  try_open attempts (p ∷ ps) =
      let rest = try_open attempts ps in
      if (attempts p).stops
      then ([], none)
      else elim ((attempts p).outcome) [ ok u ↦ ([], some p) | err e ↦ after_failure p e rest ]

  abbrev pub new_scan : SerialParameters → List Event → Scan
  new_scan first events = record {
    decoder = new_decoder;
    history = [];
    parameter_index = 0;
    active_parameters = some first;
    stream = configured first ∷ [];
    events = events;
  }

  -- No opening has succeeded: there is no loop.
  abbrev pub unopened : List Event → Scan
  unopened events = record {
    decoder = new_decoder;
    history = [];
    parameter_index = 0;
    active_parameters = none;
    stream = [];
    events = events;
  }

  abbrev pub read_opened : List Moment → List Event × Option SerialParameters → Step
  read_opened moments (events, some first) = read_port moments (new_scan first events)
  read_opened moments (events, none) = end_scan (unopened events)

  unfoldable pub scan :
      List (Text × SerialParameters) → (SerialParameters → Attempt) → List Moment → Step
  scan expected attempts moments =
      read_opened moments (try_open attempts (distinct_parameters expected))
