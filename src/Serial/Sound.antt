-- ===== src/Serial/Sound.antt =====
-- What holds of the actor between its turns: a port is read by a candidate or is leased, never both;
-- each candidate has one worker, and each worker a candidate; who asks for a port asks for one that is
-- not leased, alone, and what reads it is closing; and a token belongs to one lease.
pub mod Steps
pub mod Stops
pub mod Before
pub mod Asked
pub mod Turns
pub mod Kept
pub mod Leased
pub mod Deadlines
use ostool.Prelude.{
  ℕ, zero, suc, ◌+◌, ◌-◌, ◌*◌, ◌/◌, ◌%◌, ◌^◌, ◌≤◌, ◌<◌, min, ◌≡◌, ◌≢◌, ◌↔◌, ◌⊎◌, refl, sym, ap, ◌∙◌,
  inl, inr, Bool, true, false, not, ◌&&◌, ◌||◌, Option, none, some, List, [], ◌∷◌, ◌++◌, map,
  append-nil, append_assoc, arith, ltb, leb, ◌==◌, if◌then◌else◌, ltb→lt, lt→ltb, ==_iff, ==_refl,
  Bool-cases, Option-cases, and_true, length, get_elem?, get_or, take, drop, replicate, All,
  length-append, All-append, IsByte, Text, codes, text_eq, text_eq_iff, text_eq_refl, text_lt,
}
use mathlib.Core.Path.{subst}
use ostool.Prelude.Map.{lookup, insert, remove, lookup-insert, lookup-remove}
use ostool.Server.Outcome.{any}
use ostool.Serial.Ports.{PortLocator}
use ostool.Serial.Discovery.{Discovery, Candidate, Owner, Worker, is_reserved}

abbrev pub Candidates : Type 0
Candidates = List (Text × Candidate)

abbrev pub Leases : Type 0
Leases = List (Text × Owner)

abbrev pub Reservations : Type 0
Reservations = List (PortLocator × ℕ)

-- The part of the state that the invariant is about.
pub record Core : Type 0 where
  pub candidates : Candidates
  pub leased : Leases
  pub reservations : Reservations
  pub workers : List Worker
  pub sequence : ℕ

abbrev pub core : Discovery → Core
core s = record {
  candidates = s.candidates;
  leased = s.leased;
  reservations = s.reservations;
  workers = s.workers;
  sequence = s.sequence;
}

-- The worker's candidate; only a scan may still lease.
abbrev pub IsStaffed : Candidates → Worker → Type 0
IsStaffed candidates w =
    (c : Candidate) × (lookup w.locator.name candidates ≡ some c)
    × (c.generation ≡ w.generation)
    × (w.scans ≡ false → c.closing ≡ true)

abbrev pub IsApart : Worker → Worker → Type 0
IsApart w v = w.locator.name ≢ v.locator.name

abbrev pub Distinct : List Worker → Type 0
Distinct [] = Unit
Distinct (w ∷ ws) = All (IsApart w) ws × Distinct ws

abbrev pub has_worker : Text → List Worker → Bool
has_worker name ws = any (λ w. text_eq w.locator.name name) ws

pub record IsSound (c : Core) : Type 0 where
  pub disjoint :
      (name : Text) (o : Owner) → lookup name c.leased ≡ some o → lookup name c.candidates ≡ none
  pub staffed : All (IsStaffed c.candidates) c.workers
  pub distinct : Distinct c.workers
  pub covered :
      (name : Text) (d : Candidate)
      → lookup name c.candidates ≡ some d
      → has_worker name c.workers ≡ true
  pub keyed :
      (name : Text) (d : Candidate) → lookup name c.candidates ≡ some d → d.locator.name ≡ name
  pub issued : (name : Text) (o : Owner) → lookup name c.leased ≡ some o → o.token ≤ c.sequence
  pub unique :
      (name other : Text) (o p : Owner)
      → lookup name c.leased ≡ some o
      → lookup other c.leased ≡ some p
      → o.token ≡ p.token
      → name ≡ other

-- Each asks for a port that is not leased, and that nobody behind it asks for.
abbrev pub IsAsked : Leases → Reservations → Type 0
IsAsked leased [] = Unit
IsAsked leased ((port, reply) ∷ rs) =
    ((lookup port.name leased ≡ none) × (is_reserved port.name rs ≡ false)) × IsAsked leased rs

abbrev pub IsClosing : Candidates → Reservations → Type 0
IsClosing candidates reservations =
    (name : Text) (c : Candidate)
    → is_reserved name reservations ≡ true
    → lookup name candidates ≡ some c
    → c.closing ≡ true

-- What holds of both branches holds of the choice.
pub if-cases {ℓ κ} :
    {A : Type ℓ} (P : A → Type κ) (b : Bool) {x y : A}
    → (b ≡ true → P x)
    → (b ≡ false → P y)
    → P (if b then x else y)
if-cases P true f g = f refl
if-cases P false f g = g refl

pub All-middle {ℓ κ} :
    {A : Type ℓ} (P : A → Type κ) (front : List A) (a : A) (back : List A)
    → All P (front ++ (a ∷ back))
    → P a × All P (front ++ back)
All-middle P [] a back h = h
All-middle P (x ∷ front) a back h =
    let rest = All-middle P front a back h.1 in (rest.0, (h.0, rest.1))

-- The other workers are of other ports.
pub Distinct-middle :
    (front : List Worker) (w : Worker) (back : List Worker)
    → Distinct (front ++ (w ∷ back))
    → All (IsApart w) (front ++ back) × Distinct (front ++ back)
Distinct-middle [] w back h = h
Distinct-middle (v ∷ front) w back h =
    let rest = Distinct-middle front w back h.1 in
    let here = All-middle (IsApart v) front w back h.0 in
    (((λ e. here.0 (sym e)), rest.0), (here.1, rest.1))

pub any-middle {ℓ} :
    {A : Type ℓ} (p : A → Bool) (front : List A) (a : A) (back : List A)
    → any p (front ++ (a ∷ back)) ≡ (p a || any p (front ++ back))
unfolding any
any-middle p [] a back = refl
any-middle p (x ∷ front) a back = ground (arith, any-middle p front a back)

-- A worker whose port is not this one keeps its candidate when this one's changes.
pub IsStaffed-insert :
    (name : Text) (c : Candidate) (candidates : Candidates) (w : Worker)
    → name ≢ w.locator.name
    → IsStaffed candidates w
    → IsStaffed (insert name c candidates) w
IsStaffed-insert name c candidates w ne h = (
  h.0,
  lookup-insert name w.locator.name c candidates
      ∙ ground (arith, text_eq_iff name w.locator.name, h.1, ne),
  h.2,
  h.3,
)

pub IsStaffed-remove :
    (name : Text) (candidates : Candidates) (w : Worker)
    → name ≢ w.locator.name
    → IsStaffed candidates w
    → IsStaffed (remove name candidates) w
IsStaffed-remove name candidates w ne h = (
  h.0,
  lookup-remove name w.locator.name candidates
      ∙ ground (arith, text_eq_iff name w.locator.name, h.1, ne),
  h.2,
  h.3,
)

-- A port without a candidate has no worker.
pub IsStaffed-apart :
    (name : Text) (candidates : Candidates) (w : Worker)
    → lookup name candidates ≡ none
    → IsStaffed candidates w
    → name ≢ w.locator.name
IsStaffed-apart name candidates w free h e =
    absurd (ground (arith, h.1, subst (λ n. lookup n candidates ≡ none) e free))

-- The whole invariant, of which the part on the reservations holds of these further ones too.
pub record Holds (c : Core) (further : Reservations) : Type 0 where
  pub sound : IsSound c
  pub asked : IsAsked c.leased (c.reservations ++ further)
  pub closing : IsClosing c.candidates (c.reservations ++ further)

-- What holds before the candidates of the ports that are asked for have been told to close.
pub record HoldsWeakly (c : Core) : Type 0 where
  pub sound : IsSound c
  pub asked : IsAsked c.leased c.reservations
