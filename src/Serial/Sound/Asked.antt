-- ===== src/Serial/Sound/Asked.antt =====
-- Who asks for a port.
use ostool.Prelude.{
  ℕ, suc, ◌≡◌, refl, sym, ◌∙◌, false, ◌||◌, none, [], ◌∷◌, ◌++◌, append_assoc, arith, Text, text_eq,
  text_eq_iff,
}
use mathlib.Core.Path.{subst}
use ostool.Prelude.Map.{
  lookup, insert, remove, contains_key, lookup-insert, lookup-remove, lookup_absent,
}
use ostool.Server.Outcome.{any}
use ostool.Serial.Ports.{PortLocator}
use ostool.Serial.Discovery.{Discovery, Surroundings, Owner, is_reserved}
use ostool.Serial.Reconcile.{reserve_each, lease_reserved, manual}
use ostool.Serial.Sound.{
  Core, core, Candidates, Leases, Reservations, IsSound, IsAsked, IsClosing, Holds, any-middle,
  if-cases,
}
use ostool.Serial.Sound.Steps.{lease-IsSound}

is_reserved-append :
    (name : Text) (rs : Reservations) (port : PortLocator) (reply : ℕ)
    → is_reserved name (rs ++ ((port, reply) ∷ []))
      ≡ (text_eq port.name name || is_reserved name rs)
unfolding any
is_reserved-append name [] port reply = refl
is_reserved-append name ((q, r) ∷ rs) port reply =
    ground (arith, is_reserved-append name rs port reply)

pub IsAsked-append :
    (leased : Leases) (rs : Reservations) (port : PortLocator) (reply : ℕ)
    → IsAsked leased rs
    → lookup port.name leased ≡ none
    → is_reserved port.name rs ≡ false
    → IsAsked leased (rs ++ ((port, reply) ∷ []))
unfolding any
IsAsked-append leased [] port reply h free alone = ((free, refl), tt)
IsAsked-append leased ((q, r) ∷ rs) port reply h free alone =
    let apart : text_eq port.name q.name ≡ false =
      ground (arith, alone, text_eq_iff q.name port.name, text_eq_iff port.name q.name) in
    (
      (h.0.0, is_reserved-append q.name rs port reply ∙ ground (arith, apart, h.0.1)),
      IsAsked-append leased rs port reply h.1 free (ground (arith, alone)),
    )

pub IsAsked-remove :
    (leased : Leases) (rs : Reservations) (name : Text)
    → IsAsked leased rs
    → IsAsked (remove name leased) rs
IsAsked-remove leased [] name h = tt
IsAsked-remove leased ((q, r) ∷ rs) name h = (
  (lookup-remove name q.name leased ∙ ground (arith, h.0.0), h.0.1),
  IsAsked-remove leased rs name h.1,
)

pub IsAsked-insert :
    (leased : Leases) (rs : Reservations) (name : Text) (o : Owner)
    → is_reserved name rs ≡ false
    → IsAsked leased rs
    → IsAsked (insert name o leased) rs
unfolding any
IsAsked-insert leased [] name o other h = tt
IsAsked-insert leased ((q, r) ∷ rs) name o other h = (
  (
    lookup-insert name q.name o leased
        ∙ ground (arith, h.0.0, other, text_eq_iff q.name name, text_eq_iff name q.name),
    h.0.1,
  ),
  IsAsked-insert leased rs name o (ground (arith, other)) h.1,
)

-- One of those who ask goes.
pub IsAsked-middle :
    (leased : Leases) (front back : Reservations) (port : PortLocator) (reply : ℕ)
    → IsAsked leased (front ++ ((port, reply) ∷ back))
    → (lookup port.name leased ≡ none)
      × (is_reserved port.name (front ++ back) ≡ false)
      × IsAsked leased (front ++ back)
unfolding any
IsAsked-middle leased [] back port reply h = (h.0.0, h.0.1, h.1)
IsAsked-middle leased ((q, r) ∷ front) back port reply h =
    let rest = IsAsked-middle leased front back port reply h.1 in
    let split = any-middle (λ x. text_eq x.0.name q.name) front (port, reply) back in
    let apart : text_eq port.name q.name ≡ false = ground (arith, h.0.1, split) in
    (
      rest.0,
      ground (arith, rest.1, apart, text_eq_iff q.name port.name, text_eq_iff port.name q.name),
      ((h.0.0, ground (arith, h.0.1, split)), rest.2),
    )

-- Fewer ask.
IsClosing-middle :
    (candidates : Candidates) (front back : Reservations) (r : PortLocator × ℕ)
    → IsClosing candidates (front ++ (r ∷ back))
    → IsClosing candidates (front ++ back)
IsClosing-middle candidates front back r h name c asked found =
    h name c (any-middle (λ x. text_eq x.0.name name) front r back ∙ ground (arith, asked)) found

pub drop-Holds :
    (s : Discovery) (port : PortLocator) (reply : ℕ) (rs : Reservations)
    → Holds (core s) ((port, reply) ∷ rs)
    → Holds (core s) rs
drop-Holds s port reply rs h = record {
  sound = h.sound;
  asked = (IsAsked-middle s.leased s.reservations rs port reply h.asked).2;
  closing = IsClosing-middle s.candidates s.reservations rs (port, reply) h.closing;
}

-- A port that nothing reads any more is given to the first who asks for it.
pub lease_reserved-Holds :
    (s : Discovery) (port : PortLocator) (reply : ℕ) (rs : Reservations)
    → lookup port.name s.candidates ≡ none
    → Holds (core s) ((port, reply) ∷ rs)
    → Holds (core (lease_reserved port reply s)) rs
unfolding lease_reserved
lease_reserved-Holds s port reply rs free h =
    let o : Owner = record { token = suc s.sequence; name = manual; locator = port } in
    let asked = IsAsked-middle s.leased s.reservations rs port reply h.asked in
    record {
      sound = lease-IsSound (core s) port.name o h.sound refl free;
      asked = IsAsked-insert s.leased (s.reservations ++ rs) port.name o asked.1 asked.2;
      closing = IsClosing-middle s.candidates s.reservations rs (port, reply) h.closing;
    }

pub ask-IsSound :
    (c : Core) (rs : Reservations) → IsSound c → IsSound (record c { reservations = rs })
ask-IsSound c rs sound = record {
  disjoint = sound.disjoint;
  staffed = sound.staffed;
  distinct = sound.distinct;
  covered = sound.covered;
  keyed = sound.keyed;
  issued = sound.issued;
  unique = sound.unique;
}

pub wait-Holds :
    (s : Discovery) (r : PortLocator × ℕ) (rs : Reservations)
    → Holds (core s) (r ∷ rs)
    → Holds (core (record s { reservations = s.reservations ++ (r ∷ []) })) rs
wait-Holds s r rs h =
    let same = sym (append_assoc s.reservations (r ∷ []) rs) in
    record {
      sound = ask-IsSound (core s) (s.reservations ++ (r ∷ [])) h.sound;
      asked = subst (IsAsked s.leased) same h.asked;
      closing = subst (IsClosing s.candidates) same h.closing;
    }

pub reserve_each-Holds :
    (env : Surroundings) (rs : Reservations) (s : Discovery)
    → Holds (core s) rs
    → Holds (core (reserve_each env rs s)) []
unfolding reserve_each
reserve_each-Holds env [] s h = h
reserve_each-Holds env ((port, reply) ∷ rs) s h =
    let dropped = reserve_each-Holds env rs s (drop-Holds s port reply rs h) in
    if-cases Done (env.is_closed reply) (λ closed. dropped)
      (λ waits.
        if-cases Done (contains_key port.name s.candidates)
          (λ read. reserve_each-Holds env rs _ (wait-Holds s (port, reply) rs h))
          (λ unread.
            if-cases Done env.has_senders
              (λ heard. reserve_each-Holds env rs (lease_reserved port reply s) (
                lease_reserved-Holds s port reply rs (lookup_absent port.name s.candidates unread)
                  h))
              (λ unheard. dropped)))
  where
    Done : Discovery → Type 0
    Done t = Holds (core t) []
