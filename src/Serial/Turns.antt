-- ===== src/Serial/Turns.antt =====
-- The turns of the actor's loop: a command, an event or the tick of its clock, and `reconcile` behind
-- it. `Found` and `Closed` are the last that a worker sends: with them it is gone, as Serial/Scan has
-- it. Its faults, and the ports that the operating system has, may come at any time.
use ostool.Prelude.{ℕ, ◌≡◌, true, Option, List, ◌∷◌, ◌++◌, Text}
use ostool.Serial.Ports.{PortLocator}
use ostool.Serial.Discovery.{Discovery, Surroundings, Command, Worker, command, new_discovery}
use ostool.Serial.Events.{on_found, on_closed, on_fault, on_inventory}
use ostool.Serial.Spawn.{reconcile}

module _ (canonicalize : Text → Option Text) where
  pub data Turn : Discovery → Discovery → Type 0 where
    commanded :
        {s : Discovery} (env : Surroundings) (c : Command)
        → Turn s (reconcile canonicalize env (command canonicalize env c s))
    found :
        {s : Discovery} (env : Surroundings) (front back : List Worker) (w : Worker) (id : Text)
        → s.workers ≡ front ++ (w ∷ back)
        → w.scans ≡ true
        → Turn s (
            reconcile canonicalize env
              (on_found env w.locator w.generation id (record s { workers = front ++ back })))
    closed :
        {s : Discovery} (env : Surroundings) (front back : List Worker) (w : Worker)
        → s.workers ≡ front ++ (w ∷ back)
        → Turn s (
            reconcile canonicalize env
              (on_closed w.locator.name w.generation (record s { workers = front ++ back })))
    faulted :
        {s : Discovery} (env : Surroundings) (port error : Text)
        → Turn s (reconcile canonicalize env (on_fault port error s))
    inventoried :
        {s : Discovery} (env : Surroundings) (result : Option (List PortLocator))
        → Turn s (reconcile canonicalize env (on_inventory result s))
    ticked : {s : Discovery} (env : Surroundings) → Turn s (reconcile canonicalize env s)

  pub data Reach : Discovery → Type 0 where
    began : (now : ℕ) → Reach (new_discovery now)
    turned : {s t : Discovery} → Reach s → Turn s t → Reach t
