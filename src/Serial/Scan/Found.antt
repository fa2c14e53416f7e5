-- ===== src/Serial/Scan/Found.antt =====
-- Each turn of a scan, and what has been heard when it ends.
use ostool.Prelude.{
  ℕ, ◌%◌, ◌≡◌, refl, sym, ap, ◌∙◌, true, false, not, ◌||◌, Option, none, some, List, [], ◌∷◌, ◌++◌,
  if◌then◌else◌, length, get_or, Text,
}
use mathlib.Core.Path.{subst}
use ostool.Server.Outcome.{Result, ok, err, has, is_empty, every}
use ostool.Protocol.Serial.{SerialParameters, SerialFrameDecoder}
use ostool.Protocol.Serial.Decoder.{decode}
use ostool.Serial.Ports.{PortLocator}
use ostool.Serial.Sound.{if-cases}
use ostool.Serial.Expected.{distinct_parameters}
use ostool.Serial.Scan.{
  Event, found, closed, fault, inventory, IoError, configured, refused, heard, Scan, Happening,
  stop_changed, expected_changed, ticked, arrived, Moment, Attempt, Step, going, ended,
  history_bytes, keep_last, is_active, is_wanted, seek, set_parameters, rotate, with_next_index,
  on_tick, hear, answer_seek, on_read, on_happening, turn, read_port, try_open, new_scan,
  read_opened, scan,
}
use ostool.Serial.Scan.Heard.{feed, heard_bytes}
use ostool.Serial.Scan.Tuned.{
  Asked, IsFollowed, IsKept, IsHeard, seek-some, seek-none, history_more, history_same, tuned_first,
  IsFollowed-hear, heard_now,
}

module _ (debug : SerialParameters → Text) (locator : PortLocator) (generation : ℕ) where
  set_parameters-IsKept :
      (next : SerialParameters) (outcome : Result IoError (Unit {0})) (s : Scan)
      → IsKept s
      → IsKept (set_parameters debug locator generation next outcome s)
  unfolding set_parameters heard_bytes
  set_parameters-IsKept next (ok u) s h = record {
    history = h.history ∙ history_same s.stream (configured next) refl;
    followed = tuned_first next s.stream;
  }
  set_parameters-IsKept next (err e) s h = record {
    history = h.history ∙ history_same s.stream (refused next) refl;
    followed = tt;
  }

  rotate-IsKept :
      (next : SerialParameters) (outcome : Result IoError (Unit {0})) (s : Scan)
      → IsKept s
      → IsKept (rotate debug locator generation next outcome s)
  unfolding rotate
  rotate-IsKept next outcome s h =
      index_aside
        (if is_active next s.active_parameters
          then s
          else set_parameters debug locator generation next outcome s)
        (if-cases IsKept (is_active next s.active_parameters) (λ t. h)
          (λ f. set_parameters-IsKept next outcome s h))
    where
      index_aside : (t : Scan) → IsKept t → IsKept (with_next_index debug locator generation t)
      index_aside t k = record { history = k.history; followed = k.followed }

  -- What the step of a turn is, for the moment that it looks at.
  abbrev pub IsRight : Asked → Step → Type 0
  IsRight expected (going s) = IsKept s
  IsRight expected (ended s (closed name g)) = (name ≡ locator.name) × (g ≡ generation)
  IsRight expected (ended s (found port g id prefix)) =
      (port ≡ locator) × (g ≡ generation) × IsHeard expected s id prefix
  IsRight expected (ended s (fault port text)) = false ≡ true
  IsRight expected (ended s (inventory ports)) = false ≡ true

  on_tick-IsRight :
      (expected : Asked) (ps : List SerialParameters) (outcome : Result IoError (Unit {0}))
      (s : Scan)
      → IsKept s
      → IsRight expected (on_tick debug locator generation ps outcome s)
  on_tick-IsRight expected [] outcome s h = (refl, refl)
  on_tick-IsRight expected (p ∷ ps) outcome s h =
      rotate-IsKept (get_or (p ∷ ps) (s.parameter_index % length (p ∷ ps)) p) outcome s h

  -- One read, with what the search in it gives.
  answer_seek-IsRight :
      (expected : Asked) (bytes : List ℕ) (s : Scan) (r : Option Text × SerialFrameDecoder)
      → IsKept s
      → ((id : Text)
          → r.0 ≡ some id
          → (has id (decode s.decoder bytes) ≡ true)
            × (is_wanted expected s.active_parameters id ≡ true))
      → (r.0 ≡ none → r.1 ≡ feed bytes s.decoder)
      → IsRight expected
          (answer_seek debug locator generation r (hear debug locator generation bytes s))
  answer_seek-IsRight expected bytes s (none, d) h is_some is_none = record {
    history = history_more s.history bytes s.stream h.history;
    followed =
        subst (λ e. IsFollowed e (s.stream ++ (heard bytes ∷ [])) s.active_parameters)
          (sym (is_none refl))
          (IsFollowed-hear s.active_parameters s.decoder s.stream bytes h.followed);
  }
  answer_seek-IsRight expected bytes s (some id, d) h is_some is_none =
      let (announced, wanted) = is_some id refl in
      (
        refl,
        refl,
        heard_now expected s.active_parameters s bytes
            (record s {
              decoder = d;
              history = keep_last history_bytes (s.history ++ bytes);
              stream = s.stream ++ (heard bytes ∷ []);
            })
            id h.followed announced wanted refl (history_more s.history bytes s.stream h.history),
      )

  on_read-IsRight :
      (expected : Asked) (result : Result IoError (List ℕ)) (s : Scan)
      → IsKept s
      → IsRight expected (on_read debug locator generation expected result s)
  on_read-IsRight expected (err e) s h = (refl, refl)
  on_read-IsRight expected (ok []) s h = (refl, refl)
  on_read-IsRight expected (ok (b ∷ bs)) s h =
      answer_seek-IsRight expected (b ∷ bs) s (seek expected s.active_parameters (b ∷ bs) s.decoder)
        h (λ id. seek-some expected s.active_parameters (b ∷ bs) s.decoder)
        (seek-none expected s.active_parameters (b ∷ bs) s.decoder)

  on_happening-IsRight :
      (m : Moment) (happening : Happening) (s : Scan)
      → IsKept s
      → IsRight m.expected (on_happening debug locator generation m happening s)
  on_happening-IsRight m (stop_changed lives) s h =
      if-cases (IsRight m.expected) (not lives || m.stops_now) (λ t. (refl, refl)) (λ f. h)
  on_happening-IsRight m (expected_changed lives) s h =
      if-cases (IsRight m.expected) (not lives || is_empty m.expected) (λ t. (refl, refl)) (λ f. h)
  on_happening-IsRight m (ticked outcome) s h =
      on_tick-IsRight m.expected (distinct_parameters m.expected) outcome s h
  on_happening-IsRight m (arrived result) s h = on_read-IsRight m.expected result s h

  pub turn-IsRight :
      (m : Moment) (s : Scan) → IsKept s → IsRight m.expected (turn debug locator generation m s)
  unfolding turn
  turn-IsRight m s h =
      if-cases (IsRight m.expected) (m.stops) (λ t. (refl, refl))
        (λ f. on_happening-IsRight m m.happening s h)

  -- In one of these turns a board has been found.
  abbrev pub IsFoundIn : List Moment → Scan → PortLocator → ℕ → Text → List ℕ → Type 0
  IsFoundIn ms s port g id prefix =
      (before : List Moment) × (m : Moment) × (after : List Moment) × (ms ≡ before ++ (m ∷ after))
      × (port ≡ locator)
      × (g ≡ generation)
      × IsHeard m.expected s id prefix

  -- A turn, and the turns behind it.
  resume-found :
      (m : Moment) (ms : List Moment) (r : Step) (t : Scan) (port : PortLocator) (g : ℕ) (id : Text)
      (prefix : List ℕ)
      → ((u : Scan)
          → IsKept u
          → read_port debug locator generation ms u ≡ ended t (found port g id prefix)
          → IsFoundIn ms t port g id prefix)
      → IsRight m.expected r
      → elim r [ going u ↦ read_port debug locator generation ms u | ended u e ↦ ended u e ]
        ≡ ended t (found port g id prefix)
      → IsFoundIn (m ∷ ms) t port g id prefix
  resume-found m ms (going u) t port g id prefix later h e =
      let (before, n, after, parts, of_port, of_scan, found_here) = later u h e in
      (m ∷ before, n, after, ap (λ ns. m ∷ ns) parts, of_port, of_scan, found_here)
  resume-found m ms (ended u last) t port g id prefix later h e =
      let (of_port, of_scan, found_here) = subst (IsRight m.expected) e h in
      ([], m, ms, refl, of_port, of_scan, found_here)

  read_port-found :
      (ms : List Moment) (t : Scan) (port : PortLocator) (g : ℕ) (id : Text) (prefix : List ℕ)
      (s : Scan)
      → IsKept s
      → read_port debug locator generation ms s ≡ ended t (found port g id prefix)
      → IsFoundIn ms t port g id prefix
  unfolding read_port
  read_port-found [] t port g id prefix s h e = absurd (cc)
  read_port-found (m ∷ ms) t port g id prefix s h e =
      resume-found m ms (turn debug locator generation m s) t port g id prefix
        (read_port-found ms t port g id prefix) (turn-IsRight m s h) e

  pub new_scan-IsKept :
      (first : SerialParameters) (events : List Event)
      → IsKept (new_scan debug locator generation first events)
  unfolding heard_bytes keep_last feed every
  new_scan-IsKept first events = record { history = refl; followed = tuned_first first [] }

  read_opened-found :
      (moments : List Moment) (r : List Event × Option SerialParameters) {t : Scan}
      {port : PortLocator} {g : ℕ} {id : Text} {prefix : List ℕ}
      → read_opened debug locator generation moments r ≡ ended t (found port g id prefix)
      → IsFoundIn moments t port g id prefix
  read_opened-found moments (events, none) e = absurd (cc)
  read_opened-found moments (events, some first) {t} {port} {g} {id} {prefix} e =
      read_port-found moments t port g id prefix (new_scan debug locator generation first events)
        (new_scan-IsKept first events) e

  -- Whatever the openings, the reads, the configurations and their failures, a scan that ends with a
  -- board found says so for its own port and generation, in a turn in which somebody expected the
  -- board with the parameters that the stream had last been set to. The beacon is a whole line of the
  -- bytes read since the stream was set to them, none of which was read under other parameters, and the
  -- prefix that the lease gets is the last 64 KiB of everything read.
  pub scan-found :
      (expected : Asked) (attempts : SerialParameters → Attempt) (moments : List Moment) {t : Scan}
      {port : PortLocator} {g : ℕ} {id : Text} {prefix : List ℕ}
      → scan debug locator generation expected attempts moments ≡ ended t (found port g id prefix)
      → IsFoundIn moments t port g id prefix
  unfolding scan
  scan-found expected attempts moments e =
      read_opened-found moments
        (try_open debug locator generation attempts (distinct_parameters expected)) e
