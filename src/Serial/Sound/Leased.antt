-- ===== src/Serial/Sound/Leased.antt =====
-- A lease ends with its own release, and with nothing else.
use ostool.Prelude.{
  ℕ, suc, ◌≡◌, ◌≢◌, refl, sym, ap, ◌∙◌, inl, inr, Bool, true, false, not, ◌&&◌, Option, none, some,
  List, [], ◌∷◌, ◌++◌, append-nil, arith, Bool-cases, All, Text, text_eq, text_eq_iff,
}
use mathlib.Core.Path.{subst}
use ostool.Prelude.Map.{lookup, insert, contains_key, lookup-insert, lookup-remove, lookup_absent}
use ostool.Server.Outcome.{is_empty}
use ostool.Serial.Ports.{PortLocator, BindRequest}
use ostool.Serial.Discovery.{
  Discovery, Surroundings, Owner, Worker, Pending, Command, bind, exclude, reserve, release,
  confirm, invalidate, wait_owner, command, on_bind, add_pending, on_exclude, on_reserve,
  holds_token,
}
use ostool.Serial.Events.{
  on_found, on_closed, on_fault, on_inventory, is_current, take_pending, answer_found, lease_found,
  close_stale, without_candidate,
}
use ostool.Serial.Reconcile.{reserve_each, lease_reserved, serve_reservations}
use ostool.Serial.Spawn.{
  scan_port, scan_each, discover, enumerate, is_taken, is_cached, publish_snapshot, answer_waiters,
  reconcile,
}
use ostool.Serial.Turns.{Turn, commanded, found, closed, faulted, inventoried, ticked, Reach}
use ostool.Serial.Sound.{
  core, Leases, Reservations, IsSound, IsStaffed, IsClosing, Holds, HoldsWeakly, if-cases,
  All-middle,
}
use ostool.Serial.Sound.Steps.{lookup-none}
use ostool.Serial.Sound.Asked.{IsAsked-middle, drop-Holds, wait-Holds, lease_reserved-Holds}
use ostool.Serial.Sound.Kept.{
  Reach-Holds, told, told-Holds, told-leased, answer_waiters-AsBefore, weaken, inventory_weaken,
}
use ostool.Serial.Sound.Turns.{command-Weak, on_found-Weak, on_closed-Weak}

module _ (name : Text) (o : Owner) where
  -- The lease stands.
  abbrev pub LeasesIt : Discovery → Type 0
  LeasesIt s = lookup name s.leased ≡ some o

  insert-LeasesIt :
      (port : Text) (p : Owner) (leased : Leases)
      → lookup port leased ≡ none
      → lookup name leased ≡ some o
      → lookup name (insert port p leased) ≡ some o
  insert-LeasesIt port p leased free h = lookup-insert port name p leased ∙ ground (arith, h, apart)
    where
      apart : text_eq port name ≡ true → some o ≡ none
      apart e = sym h ∙ ap (λ n. lookup n leased) (sym ((text_eq_iff port name).0 e)) ∙ free

  reserve_each-LeasesIt :
      (env : Surroundings) (rs : Reservations) (s : Discovery)
      → Holds (core s) rs
      → LeasesIt s
      → LeasesIt (reserve_each env rs s)
  unfolding reserve_each lease_reserved
  reserve_each-LeasesIt env [] s holds h = h
  reserve_each-LeasesIt env ((port, reply) ∷ rs) s holds h =
      let dropped = reserve_each-LeasesIt env rs s (drop-Holds s port reply rs holds) h in
      let free = (IsAsked-middle s.leased s.reservations rs port reply holds.asked).0 in
      if-cases LeasesIt (env.is_closed reply) (λ gone. dropped)
        (λ waits.
          if-cases LeasesIt (contains_key port.name s.candidates)
            (λ read. reserve_each-LeasesIt env rs _ (wait-Holds s (port, reply) rs holds) h)
            (λ unread.
              if-cases LeasesIt env.has_senders
                (λ heard.
                  reserve_each-LeasesIt env rs (lease_reserved port reply s)
                    (lease_reserved-Holds s port reply rs
                      (lookup_absent port.name s.candidates unread) holds)
                    (insert-LeasesIt port.name _ s.leased free h))
                (λ unheard. dropped)))

  not_released :
      (port : Text) (token : ℕ) (leased : Leases)
      → ((port ≡ name) → (token ≢ o.token))
      → lookup name leased ≡ some o
      → holds_token token (lookup port leased) ≡ true
      → text_eq port name ≡ false
  not_released port token leased other h own = elim (Bool-cases (text_eq port name)) [
    | inl same ↦
        let e : port ≡ name = (text_eq_iff port name).0 same in
        let held : holds_token token (some o) ≡ true =
          ap (holds_token token) (sym h ∙ ap (λ n. lookup n leased) (sym e)) ∙ own in
        absurd (other e (ground (arith, held)))
    | inr apart ↦ apart
  ]

  module _ (canonicalize : Text → Option Text) where
    scan_each-LeasesIt :
        (full : Bool) (all ports : List PortLocator) (s : Discovery)
        → LeasesIt s
        → LeasesIt (scan_each canonicalize full all ports s)
    unfolding scan_each scan_port
    scan_each-LeasesIt full all [] s h = h
    scan_each-LeasesIt full all (locator ∷ ports) s h =
        if-cases LeasesIt (is_taken canonicalize locator s)
          (λ taken. scan_each-LeasesIt full all ports s h)
          (λ untaken.
            if-cases LeasesIt (not full && not (is_cached all locator s))
              (λ skips. scan_each-LeasesIt full all ports s h)
              (λ scans. scan_each-LeasesIt full all ports (scan_port locator s) h))

    discover-LeasesIt :
        (env : Surroundings) (s : Discovery) → LeasesIt s → LeasesIt (discover canonicalize env s)
    unfolding discover enumerate
    discover-LeasesIt env s h =
        if-cases LeasesIt (is_empty s.pending) (λ nobody. h)
          (λ asks.
            scan_each-LeasesIt _ s.ports s.ports (enumerate env s)
              (if-cases LeasesIt _ (λ begins. h) (λ goes_on. h)))

    on_bind-LeasesIt :
        (env : Surroundings) (request : BindRequest) (reply : ℕ) (s : Discovery)
        → LeasesIt s
        → LeasesIt (on_bind env request reply s)
    unfolding on_bind add_pending
    on_bind-LeasesIt env request reply s h =
        if-cases LeasesIt (env.is_closed reply) (λ gone. h)
          (λ waits. if-cases LeasesIt _ (λ collides. h) (λ alone. h))

    -- The command does not release this lease.
    abbrev pub IsOther : Command → Type 0
    IsOther (bind request reply) = Unit
    IsOther (exclude selectors reply) = Unit
    IsOther (reserve port reply) = Unit
    IsOther (release port token) = (port ≡ name) → (token ≢ o.token)
    IsOther (confirm mac locator token) = Unit
    IsOther (invalidate mac) = Unit
    IsOther (wait_owner owner reply) = Unit

    command-LeasesIt :
        (env : Surroundings) (c : Command) (s : Discovery)
        → IsOther c
        → LeasesIt s
        → LeasesIt (command canonicalize env c s)
    unfolding command on_exclude on_reserve
    command-LeasesIt env (bind request reply) s other h = on_bind-LeasesIt env request reply s h
    command-LeasesIt env (exclude selectors reply) s other h =
        if-cases LeasesIt _ (λ busy. h) (λ idle. h)
    command-LeasesIt env (reserve port reply) s other h =
        if-cases LeasesIt _ (λ busy. h) (λ idle. h)
    command-LeasesIt env (release port token) s other h =
        if-cases LeasesIt (holds_token token (lookup port s.leased))
          (λ own.
            let apart : text_eq port name ≡ false = not_released port token s.leased other h own in
            lookup-remove port name s.leased ∙ rw apart h)
          (λ others. h)
    command-LeasesIt env (confirm mac locator token) s other h =
        if-cases LeasesIt _ (λ own. h) (λ others. h)
    command-LeasesIt env (invalidate mac) s other h = h
    command-LeasesIt env (wait_owner owner reply) s other h = h

    on_found-LeasesIt :
        (env : Surroundings) (locator : PortLocator) (generation : ℕ) (id : Text) (s : Discovery)
        → lookup locator.name s.leased ≡ none
        → LeasesIt s
        → LeasesIt (on_found env locator generation id s)
    unfolding on_found close_stale lease_found
    on_found-LeasesIt env locator generation id s free h = answered (take_pending env id s.pending)
      where
        answered :
            (found : Option (Pending × List Pending))
            → LeasesIt (
                answer_found
                  (is_current generation (lookup locator.name s.candidates) && env.has_senders)
                  locator
                  generation
                  found
                  (record s {
                    candidates = without_candidate locator.name generation s.candidates;
                  }))
        answered none = h
        answered (some (p, rest)) =
            if-cases LeasesIt
              (is_current generation (lookup locator.name s.candidates) && env.has_senders)
              (λ takes.
                insert-LeasesIt locator.name
                  (record { token = suc s.sequence; name = p.request.owner; locator = locator })
                  s.leased free h)
              (λ late. h)

    reconcile-LeasesIt :
        (env : Surroundings) (s : Discovery)
        → HoldsWeakly (core s)
        → LeasesIt s
        → LeasesIt (reconcile canonicalize env s)
    unfolding reconcile serve_reservations publish_snapshot
    reconcile-LeasesIt env s weak h =
        let t = told canonicalize env s in
        let served = serve_reservations env t in
        discover-LeasesIt env (answer_waiters env served) (
          ap (λ c. lookup name c.leased) (answer_waiters-AsBefore canonicalize env served)
          ∙ reserve_each-LeasesIt env t.reservations (record t { reservations = [] })
              (told-Holds canonicalize env s weak)
              (ap (lookup name) (told-leased canonicalize env s) ∙ h))

    -- The turn is not the release of this lease.
    abbrev pub IsOtherTurn : {s t : Discovery} → Turn canonicalize s t → Type 0
    IsOtherTurn (commanded env c) = IsOther c
    IsOtherTurn (found env front back w id e scans) = Unit
    IsOtherTurn (closed env front back w e) = Unit
    IsOtherTurn (faulted env port error) = Unit
    IsOtherTurn (inventoried env result) = Unit
    IsOtherTurn (ticked env) = Unit

-- The port of a worker is not leased.
worker_idle :
    (s : Discovery) (front back : List Worker) (w : Worker)
    → IsSound (core s)
    → s.workers ≡ front ++ (w ∷ back)
    → lookup w.locator.name s.leased ≡ none
worker_idle s front back w sound e =
    let staffed =
      All-middle (IsStaffed s.candidates) front w back
        (subst (All (IsStaffed s.candidates)) e sound.staffed) in
    lookup-none (core s) w.locator.name staffed.0.0 sound staffed.0.1

on_closed-leased :
    (port : Text) (generation : ℕ) (s : Discovery) → (on_closed port generation s).leased ≡ s.leased
unfolding on_closed
on_closed-leased port generation s =
    if-cases (λ (t : Discovery). t.leased ≡ s.leased) _ (λ own. refl) (λ other. refl)

on_inventory-leased :
    (result : Option (List PortLocator)) (s : Discovery) → (on_inventory result s).leased ≡ s.leased
on_inventory-leased none s = refl
on_inventory-leased (some ports) s = refl

leases_on :
    (canonicalize : Text → Option Text) (name : Text) (o : Owner) (s t : Discovery)
    → Holds (core s) []
    → (turn : Turn canonicalize s t) → IsOtherTurn name o canonicalize turn
    → lookup name s.leased ≡ some o
    → lookup name t.leased ≡ some o
unfolding on_fault
leases_on canonicalize name o s _ holds (commanded env c) other h =
    reconcile-LeasesIt name o canonicalize env _
      (command-Weak canonicalize env c s (weaken canonicalize s holds))
      (command-LeasesIt name o canonicalize env c s other h)
leases_on canonicalize name o s _ holds (found env front back w id e scans) other h =
    reconcile-LeasesIt name o canonicalize env _
      (on_found-Weak env front back w id s e
        (subst (IsClosing s.candidates) (append-nil s.reservations) holds.closing)
        (weaken canonicalize s holds))
      (on_found-LeasesIt name o canonicalize env w.locator w.generation id
        (record s { workers = front ++ back }) (worker_idle s front back w holds.sound e) h)
leases_on canonicalize name o s _ holds (closed env front back w e) other h =
    reconcile-LeasesIt name o canonicalize env _
      (on_closed-Weak front back w s e (weaken canonicalize s holds))
      (ap (lookup name)
          (on_closed-leased w.locator.name w.generation (record s { workers = front ++ back }))
        ∙ h)
leases_on canonicalize name o s _ holds (faulted env port error) other h =
    reconcile-LeasesIt name o canonicalize env _ (weaken canonicalize s holds) h
leases_on canonicalize name o s _ holds (inventoried env result) other h =
    reconcile-LeasesIt name o canonicalize env _ (inventory_weaken canonicalize result s holds)
      (ap (lookup name) (on_inventory-leased result s) ∙ h)
leases_on canonicalize name o s _ holds (ticked env) other h =
    reconcile-LeasesIt name o canonicalize env s (weaken canonicalize s holds) h

-- In a state that the actor can reach, a lease stays as it is, whatever the turn: no command, no event
-- and no reservation takes the port away or gives it to another, but the release with the lease's
-- own token.
pub Turn-lease :
    (canonicalize : Text → Option Text) (name : Text) (o : Owner) {s t : Discovery}
    → Reach canonicalize s
    → (turn : Turn canonicalize s t) → IsOtherTurn name o canonicalize turn
    → lookup name s.leased ≡ some o
    → lookup name t.leased ≡ some o
Turn-lease canonicalize name o {s} {t} r turn other h =
    leases_on canonicalize name o s t (Reach-Holds canonicalize s r) turn other h
