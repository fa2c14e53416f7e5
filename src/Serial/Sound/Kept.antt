-- ===== src/Serial/Sound/Kept.antt =====
-- `reconcile`, and with it the invariant of every state that the actor reaches.
use ostool.Prelude.{
  suc, ◌≡◌, refl, sym, ap, ◌∙◌, Bool, true, false, not, ◌&&◌, Option, none, some, List, [], ◌∷◌,
  append-nil, arith, Text, text_eq, text_eq_iff,
}
use mathlib.Core.Path.{subst}
use ostool.Prelude.Map.{lookup, lookup-insert, lookup_absent}
use ostool.Server.Outcome.{is_empty}
use ostool.Serial.Ports.{PortLocator}
use ostool.Serial.Discovery.{Discovery, Surroundings, Candidate, Worker, is_reserved, new_discovery}
use ostool.Serial.Reconcile.{
  expire_pending, announce, must_stop, stop_each, stop_candidates, answer_excluded,
  serve_reservations,
}
use ostool.Serial.Spawn.{
  answer_waiters, enumerate, is_taken, is_cached, scan_port, scan_each, discover, publish_snapshot,
  reconcile,
}
use ostool.Serial.Events.{on_inventory, on_fault}
use ostool.Serial.Turns.{
  Turn, commanded, found, closed, faulted, inventoried, ticked, Reach, began, turned,
}
use ostool.Serial.Sound.{
  core, Reservations, IsSound, IsAsked, IsClosing, Holds, HoldsWeakly, if-cases,
}
use ostool.Serial.Sound.Steps.{spawn-IsSound}
use ostool.Serial.Sound.Stops.{stop-IsSound, lookup-stop_each, stop_found-some, stopped_by-stops}
use ostool.Serial.Sound.Before.{
  AsBefore, expire_pending-AsBefore, send_excluded-AsBefore, wait_each-AsBefore,
}
use ostool.Serial.Sound.Asked.{ask-IsSound, reserve_each-Holds}
use ostool.Serial.Sound.Turns.{command-Weak, on_found-Weak, on_closed-Weak}

module _ (canonicalize : Text → Option Text) where
  answer_excluded-AsBefore : (s : Discovery) → AsBefore s (answer_excluded canonicalize s)
  unfolding answer_excluded
  answer_excluded-AsBefore s =
      if-cases (AsBefore s) _ (λ reads. refl)
        (λ stopped. send_excluded-AsBefore s.excluded_replies s)

  stop-IsClosing :
      (s : Discovery)
      → IsSound (core s)
      → IsClosing (stop_each (must_stop canonicalize s) s.candidates) s.reservations
  unfolding must_stop
  stop-IsClosing s sound name d asked stands =
      let test = must_stop canonicalize s in
      let before =
        stop_found-some test (lookup name s.candidates) d
          (sym (lookup-stop_each test name s.candidates) ∙ stands) in
      let c = before.0 in
      let same : is_reserved c.locator.name s.reservations ≡ true =
        ap (λ n. is_reserved n s.reservations) (sound.keyed name c before.1) ∙ asked in
      let stops : test c ≡ true = ground (arith, same) in
      ap (λ e. e.closing) before.2 ∙ stopped_by-stops test c stops

  -- From here on the candidates of the ports that are asked for are closing.
  stop_candidates-Holds :
      (s : Discovery)
      → HoldsWeakly (core s)
      → Holds (core (record (stop_candidates canonicalize s) { reservations = [] })) s.reservations
  unfolding stop_candidates
  stop_candidates-Holds s h = record {
    sound = ask-IsSound _ [] (stop-IsSound (must_stop canonicalize s) (core s) h.sound);
    asked = h.asked;
    closing = stop-IsClosing s h.sound;
  }

  scan_port-Holds :
      (locator : PortLocator) (s : Discovery)
      → is_taken canonicalize locator s ≡ false
      → Holds (core s) []
      → Holds (core (scan_port locator s)) []
  unfolding scan_port is_taken
  scan_port-Holds locator s untaken h =
      let w : Worker = record { locator = locator; generation = suc s.sequence; scans = true } in
      let d : Candidate = record {
        generation = suc s.sequence;
        locator = locator;
        stop = false;
        closing = false;
      } in
      let free : lookup locator.name s.candidates ≡ none =
        lookup_absent locator.name s.candidates (ground (arith, untaken)) in
      let idle : lookup locator.name s.leased ≡ none =
        lookup_absent locator.name s.leased (ground (arith, untaken)) in
      let unasked : is_reserved locator.name s.reservations ≡ false = ground (arith, untaken) in
      record {
        sound =
            spawn-IsSound (core s) d w (suc s.sequence) h.sound free idle refl refl
              (λ e. absurd (ground (arith, e))) (omega arith);
        asked = h.asked;
        closing = λ name c asked stands. h.closing name c asked (
            ground (
              arith,
              lookup-insert locator.name name d s.candidates,
              stands,
              unasked,
              ap (is_reserved name) (append-nil s.reservations),
              asked,
              text_eq_iff locator.name name,
              same_reserved s.reservations name,
            ));
      }
    where
      same_reserved :
          (rs : Reservations) (name : Text)
          → text_eq locator.name name ≡ true
          → is_reserved locator.name rs ≡ is_reserved name rs
      same_reserved rs name e = ap (λ n. is_reserved n rs) ((text_eq_iff locator.name name).0 e)

  scan_each-Holds :
      (full : Bool) (all ports : List PortLocator) (s : Discovery)
      → Holds (core s) []
      → Holds (core (scan_each canonicalize full all ports s)) []
  unfolding scan_each
  scan_each-Holds full all [] s h = h
  scan_each-Holds full all (locator ∷ ports) s h =
      if-cases (λ t. Holds (core t) []) (is_taken canonicalize locator s)
        (λ taken. scan_each-Holds full all ports s h)
        (λ untaken.
          if-cases (λ t. Holds (core t) []) (not full && not (is_cached all locator s))
            (λ skips. scan_each-Holds full all ports s h)
            (λ scans.
              scan_each-Holds full all ports (scan_port locator s)
                (scan_port-Holds locator s untaken h)))

  discover-Holds :
      (env : Surroundings) (s : Discovery)
      → Holds (core s) []
      → Holds (core (discover canonicalize env s)) []
  unfolding discover enumerate
  discover-Holds env s h =
      if-cases (λ t. Holds (core t) []) (is_empty s.pending) (λ nobody. h)
        (λ asks.
          scan_each-Holds _ s.ports s.ports (enumerate env s)
            (if-cases (λ t. Holds (core t) []) _ (λ begins. h) (λ goes_on. h)))

  -- `reconcile` up to the reservations.
  abbrev pub told : Surroundings → Discovery → Discovery
  told env s =
      answer_excluded canonicalize (stop_candidates canonicalize (announce (expire_pending env s)))

  pub told-Holds :
      (env : Surroundings) (s : Discovery)
      → HoldsWeakly (core s)
      → Holds (core (record (told env s) { reservations = [] })) (told env s).reservations
  unfolding announce stop_candidates expire_pending
  told-Holds env s h =
      let announced = announce (expire_pending env s) in
      let weak : HoldsWeakly (core announced) =
        subst HoldsWeakly (sym (expire_pending-AsBefore env s)) h in
      subst (λ c. Holds (record c { reservations = [] }) c.reservations)
        (sym (answer_excluded-AsBefore (stop_candidates canonicalize announced)))
        (stop_candidates-Holds announced weak)

  pub told-leased : (env : Surroundings) (s : Discovery) → (told env s).leased ≡ s.leased
  unfolding announce stop_candidates
  told-leased env s =
      ap (λ c. c.leased)
        (answer_excluded-AsBefore (stop_candidates canonicalize (announce (expire_pending env s))))
      ∙ ap (λ c. c.leased) (expire_pending-AsBefore env s)

  pub answer_waiters-AsBefore :
      (env : Surroundings) (s : Discovery) → AsBefore s (answer_waiters env s)
  unfolding answer_waiters
  answer_waiters-AsBefore env s =
      wait_each-AsBefore env s.release_waiters (record s { release_waiters = [] })

  pub reconcile-Holds :
      (env : Surroundings) (s : Discovery)
      → HoldsWeakly (core s)
      → Holds (core (reconcile canonicalize env s)) []
  unfolding reconcile serve_reservations publish_snapshot
  reconcile-Holds env s h =
      let t = told env s in
      let served = serve_reservations env t in
      discover-Holds env (answer_waiters env served) (
        subst (λ c. Holds c []) (sym (answer_waiters-AsBefore env served))
          (reserve_each-Holds env t.reservations (record t { reservations = [] })
            (told-Holds env s h)))

  pub weaken : (s : Discovery) → Holds (core s) [] → HoldsWeakly (core s)
  weaken s h = record {
    sound = h.sound;
    asked = subst (IsAsked s.leased) (append-nil s.reservations) h.asked;
  }

  pub inventory_weaken :
      (result : Option (List PortLocator)) (s : Discovery)
      → Holds (core s) []
      → HoldsWeakly (core (on_inventory result s))
  inventory_weaken none s h = weaken s h
  inventory_weaken (some ports) s h = weaken s h

  Turn-Holds : (s t : Discovery) → Turn canonicalize s t → Holds (core s) [] → Holds (core t) []
  unfolding on_fault
  Turn-Holds s _ (commanded env c) h =
      reconcile-Holds env _ (command-Weak canonicalize env c s (weaken s h))
  Turn-Holds s _ (found env front back w id e scans) h = reconcile-Holds env _ (
      on_found-Weak env front back w id s e
        (subst (IsClosing s.candidates) (append-nil s.reservations) h.closing) (weaken s h))
  Turn-Holds s _ (closed env front back w e) h =
      reconcile-Holds env _ (on_closed-Weak front back w s e (weaken s h))
  Turn-Holds s _ (faulted env port error) h = reconcile-Holds env _ (weaken s h)
  Turn-Holds s _ (inventoried env result) h = reconcile-Holds env _ (inventory_weaken result s h)
  Turn-Holds s _ (ticked env) h = reconcile-Holds env s (weaken s h)

  -- Every state that the actor reaches.
  pub Reach-Holds : (s : Discovery) → Reach canonicalize s → Holds (core s) []
  unfolding new_discovery lookup
  Reach-Holds _ (began now) = record {
    sound = record {
      disjoint = λ name o h. refl;
      staffed = tt;
      distinct = tt;
      covered = λ name d h. absurd (ground arith);
      keyed = λ name d h. absurd (ground arith);
      issued = λ name o h. absurd (ground arith);
      unique = λ name other o p h k e. absurd (ground arith);
    };
    asked = tt;
    closing = λ name c asked h. absurd (ground arith);
  }
  Reach-Holds _ (turned {s} {t} r turn) = Turn-Holds s t turn (Reach-Holds s r)
