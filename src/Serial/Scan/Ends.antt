-- ===== src/Serial/Scan/Ends.antt =====
-- The end of a scan that is asked to stop.
use ostool.Prelude.{ℕ, ◌≡◌, refl, true, false, Option, none, some, List, [], ◌∷◌, ◌++◌, arith, Text}
use ostool.Serial.Ports.{PortLocator}
use ostool.Protocol.Serial.{SerialParameters}
use ostool.Serial.Sound.{if-cases}
use ostool.Serial.Expected.{distinct_parameters}
use ostool.Serial.Scan.{
  Event, found, closed, fault, inventory, Scan, Moment, Attempt, Step, going, ended, turn,
  read_port, try_open, new_scan, unopened, read_opened, scan,
}
use ostool.Serial.Scan.Tuned.{Asked, IsKept}
use ostool.Serial.Scan.Found.{IsRight, turn-IsRight, new_scan-IsKept}

module _ (debug : SerialParameters → Text) (locator : PortLocator) (generation : ℕ) where
  -- The last event of the task of this port and generation.
  abbrev pub IsOwn : Event → Type 0
  IsOwn (closed name g) = (name ≡ locator.name) × (g ≡ generation)
  IsOwn (found port g id prefix) = (port ≡ locator) × (g ≡ generation)
  IsOwn (fault port text) = false ≡ true
  IsOwn (inventory ports) = false ≡ true

  abbrev pub IsEnd : Step → Type 0
  IsEnd r = (t : Scan) × (last : Event) × (r ≡ ended t last) × IsOwn last

  IsRight-IsOwn :
      (expected : Asked) (t : Scan) (last : Event)
      → IsRight debug locator generation expected (ended t last)
      → IsOwn last
  IsRight-IsOwn expected t (found port g id prefix) h = (h.0, h.1)
  IsRight-IsOwn expected t (closed name g) h = h
  IsRight-IsOwn expected t (fault port text) h = h
  IsRight-IsOwn expected t (inventory ports) h = h

  resume-ends :
      (expected : Asked) (ms : List Moment) (r : Step)
      → ((u : Scan) → IsKept u → IsEnd (read_port debug locator generation ms u))
      → IsRight debug locator generation expected r
      → IsEnd (elim r [ going u ↦ read_port debug locator generation ms u | ended u e ↦ ended u e ])
  resume-ends expected ms (going u) later h = later u h
  resume-ends expected ms (ended u last) later h = (u, last, refl, IsRight-IsOwn expected u last h)

  read_port-ends :
      (before : List Moment) (m : Moment) (after : List Moment)
      → m.stops ≡ true
      → (s : Scan) → IsKept s
      → IsEnd (read_port debug locator generation (before ++ (m ∷ after)) s)
  unfolding read_port turn
  read_port-ends [] m after stops s h =
      if-cases
        (λ (r : Step).
          IsEnd (elim r [
            | going u ↦ read_port debug locator generation after u
            | ended u e ↦ ended u e
          ]))
        m.stops (λ t. (s, closed locator.name generation, refl, (refl, refl)))
        (λ f. absurd (ground arith))
  read_port-ends (n ∷ before) m after stops s h =
      resume-ends n.expected (before ++ (m ∷ after)) (turn debug locator generation n s)
        (read_port-ends before m after stops) (turn-IsRight debug locator generation n s h)

  read_opened-ends :
      (before : List Moment) (m : Moment) (after : List Moment)
      (r : List Event × Option SerialParameters)
      → m.stops ≡ true
      → IsEnd (read_opened debug locator generation (before ++ (m ∷ after)) r)
  read_opened-ends before m after (events, none) stops =
      (unopened debug locator generation events, closed locator.name generation, refl, (refl, refl))
  read_opened-ends before m after (events, some first) stops =
      read_port-ends before m after stops (new_scan debug locator generation first events)
        (new_scan-IsKept debug locator generation first events)

  -- A scan that sees the flag to stop at the start of a turn has ended by then, whatever it has read
  -- and however its openings and configurations went: the last that it sends is that it is closed, or
  -- that it has found a board, for its own port and generation.
  pub scan-ends :
      (expected : Asked) (attempts : SerialParameters → Attempt) (before : List Moment) (m : Moment)
      (after : List Moment)
      → m.stops ≡ true
      → IsEnd (scan debug locator generation expected attempts (before ++ (m ∷ after)))
  unfolding scan
  scan-ends expected attempts before m after stops =
      read_opened-ends before m after
        (try_open debug locator generation attempts (distinct_parameters expected)) stops
