-- ===== src/Serial/Sound/Turns.antt =====
-- Commands and events, and what they leave for `reconcile`.
use ostool.Prelude.{
  ℕ, suc, ◌≡◌, refl, ap, ◌∙◌, inl, inr, Bool, true, false, ◌||◌, Option, none, some, List, ◌∷◌,
  ◌++◌, arith, Option-cases, All, Text, text_eq_refl,
}
use mathlib.Core.Path.{subst}
use ostool.Prelude.Map.{lookup, remove, contains_key, lookup-remove, lookup_absent}
use ostool.Serial.Ports.{PortLocator, BindRequest}
use ostool.Serial.Discovery.{
  Discovery, Surroundings, Candidate, Owner, Worker, Pending, Command, bind, exclude, reserve,
  release, confirm, invalidate, wait_owner, command, on_bind, add_pending, on_exclude, on_reserve,
  holds_token, is_reserved,
}
use ostool.Serial.Events.{
  on_found, on_closed, is_of, is_current, take_pending, answer_found, lease_found, close_stale,
}
use ostool.Serial.Sound.{
  core, Candidates, Reservations, IsStaffed, IsClosing, HoldsWeakly, if-cases, All-middle,
}
use ostool.Serial.Sound.Steps.{
  lease-IsSound, release-IsSound, forget-IsSound, spawn-IsSound, lookup-none,
}
use ostool.Serial.Sound.Asked.{ask-IsSound, IsAsked-append, IsAsked-remove, IsAsked-insert}

abbrev pub Weak : Discovery → Type 0
Weak s = HoldsWeakly (core s)

on_bind-Weak :
    (env : Surroundings) (request : BindRequest) (reply : ℕ) (s : Discovery)
    → Weak s
    → Weak (on_bind env request reply s)
unfolding on_bind add_pending
on_bind-Weak env request reply s h =
    if-cases Weak (env.is_closed reply) (λ closed. h)
      (λ waits. if-cases Weak _ (λ collides. h) (λ alone. h))

module _ (canonicalize : Text → Option Text) where
  pub command-Weak :
      (env : Surroundings) (c : Command) (s : Discovery)
      → Weak s
      → Weak (command canonicalize env c s)
  unfolding command on_exclude on_reserve
  command-Weak env (bind request reply) s h = on_bind-Weak env request reply s h
  command-Weak env (exclude selectors reply) s h = if-cases Weak _ (λ busy. h) (λ idle. h)
  command-Weak env (reserve port reply) s h =
      if-cases Weak (contains_key port.name s.leased || is_reserved port.name s.reservations)
        (λ busy. h)
        (λ idle. record {
          sound = ask-IsSound (core s) _ h.sound;
          asked =
              IsAsked-append s.leased s.reservations port reply h.asked
                (lookup_absent port.name s.leased (ground (arith, idle))) (ground (arith, idle));
        })
  command-Weak env (release port token) s h =
      if-cases Weak (holds_token token (lookup port s.leased))
        (λ own. record {
          sound = release-IsSound (core s) port h.sound;
          asked = IsAsked-remove s.leased s.reservations port h.asked;
        })
        (λ other. h)
  command-Weak env (confirm mac locator token) s h = if-cases Weak _ (λ own. h) (λ other. h)
  command-Weak env (invalidate mac) s h = h
  command-Weak env (wait_owner owner reply) s h = h

-- The candidate of a worker.
is_of-staffed :
    (candidates : Candidates) (w : Worker)
    → IsStaffed candidates w
    → is_of w.generation (lookup w.locator.name candidates) ≡ true
is_of-staffed candidates w h = ap (is_of w.generation) h.1 ∙ ground (arith, h.2)

pub on_closed-Weak :
    (front back : List Worker) (w : Worker) (s : Discovery)
    → s.workers ≡ front ++ (w ∷ back)
    → Weak s
    → Weak (on_closed w.locator.name w.generation (record s { workers = front ++ back }))
unfolding on_closed
on_closed-Weak front back w s e h =
    let staffed =
      All-middle (IsStaffed s.candidates) front w back
        (subst (All (IsStaffed s.candidates)) e h.sound.staffed) in
    if-cases Weak (is_of w.generation (lookup w.locator.name s.candidates))
      (λ own. record { sound = forget-IsSound (core s) front back w e h.sound; asked = h.asked })
      (λ other. absurd (ground (arith, other, is_of-staffed s.candidates w staffed.0)))

close_stale-Weak :
    (locator : PortLocator) (generation : ℕ) (s : Discovery)
    → lookup locator.name s.candidates ≡ none
    → lookup locator.name s.leased ≡ none
    → Weak s
    → Weak (close_stale locator generation s)
unfolding close_stale
close_stale-Weak locator generation s free idle h =
    let d : Candidate = record {
      generation = generation;
      locator = locator;
      stop = true;
      closing = true;
    } in
    let w : Worker = record { locator = locator; generation = generation; scans = false } in
    record {
      sound =
          spawn-IsSound (core s) d w s.sequence h.sound free idle refl refl (λ e. refl)
            (omega arith);
      asked = h.asked;
    }

lease_found-Weak :
    (locator : PortLocator) (p : Pending) (rest : List Pending) (s : Discovery)
    → lookup locator.name s.candidates ≡ none
    → is_reserved locator.name s.reservations ≡ false
    → Weak s
    → Weak (lease_found locator p rest s)
unfolding lease_found
lease_found-Weak locator p rest s free unasked h =
    let o : Owner = record { token = suc s.sequence; name = p.request.owner; locator = locator } in
    record {
      sound = lease-IsSound (core s) locator.name o h.sound refl free;
      asked = IsAsked-insert s.leased s.reservations locator.name o unasked h.asked;
    }

answer_found-Weak :
    (takes : Bool) (locator : PortLocator) (generation : ℕ) (o : Option (Pending × List Pending))
    (s : Discovery)
    → lookup locator.name s.candidates ≡ none
    → lookup locator.name s.leased ≡ none
    → (takes ≡ true → is_reserved locator.name s.reservations ≡ false)
    → Weak s
    → Weak (answer_found takes locator generation o s)
answer_found-Weak takes locator generation none s free idle unasked h =
    close_stale-Weak locator generation s free idle h
answer_found-Weak takes locator generation (some (p, rest)) s free idle unasked h =
    if-cases Weak takes (λ t. lease_found-Weak locator p rest s free (unasked t) h)
      (λ f. close_stale-Weak locator generation s free idle h)

-- Nobody asks for a port that a scan may still lease.
current_unasked :
    (candidates : Candidates) (reservations : Reservations) (name : Text) (generation : ℕ)
    → IsClosing candidates reservations
    → is_current generation (lookup name candidates) ≡ true
    → is_reserved name reservations ≡ false
current_unasked candidates reservations name generation h current =
    elim (Option-cases (lookup name candidates)) [
      | inl gone ↦ absurd (ground (arith, gone))
      | inr c ↦ ground (arith, c.1, h name c.0)
    ]

pub on_found-Weak :
    (env : Surroundings) (front back : List Worker) (w : Worker) (id : Text) (s : Discovery)
    → s.workers ≡ front ++ (w ∷ back)
    → IsClosing s.candidates s.reservations
    → Weak s
    → Weak (on_found env w.locator w.generation id (record s { workers = front ++ back }))
unfolding on_found
on_found-Weak env front back w id s e closing h =
    let name = w.locator.name in
    let staffed =
      All-middle (IsStaffed s.candidates) front w back
        (subst (All (IsStaffed s.candidates)) e h.sound.staffed) in
    let idle : lookup name s.leased ≡ none =
      lookup-none (core s) name staffed.0.0 h.sound staffed.0.1 in
    let gone : lookup name (remove name s.candidates) ≡ none =
      lookup-remove name name s.candidates ∙ rw (text_eq_refl name) refl in
    rw (is_of-staffed s.candidates w staffed.0) (
      answer_found-Weak _ w.locator w.generation (take_pending env id s.pending)
        (record s { candidates = remove name s.candidates; workers = front ++ back }) gone idle
        (λ takes.
          current_unasked s.candidates s.reservations name w.generation closing
            (ground (arith, takes)))
        (record { sound = forget-IsSound (core s) front back w e h.sound; asked = h.asked }))
