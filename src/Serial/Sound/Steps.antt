-- ===== src/Serial/Sound/Steps.antt =====
-- The changes of the core, one by one.
use ostool.Prelude.{All-imply}
use ostool.Prelude.{
  ℕ, suc, ◌≤◌, ◌≡◌, ◌≢◌, ◌⊎◌, refl, sym, ap, ◌∙◌, inl, inr, true, false, none, some, List, [], ◌∷◌,
  ◌++◌, arith, Bool-cases, Option-cases, All, Text, text_eq, text_eq_iff, text_eq_refl,
}
use mathlib.Core.Path.{subst}
use ostool.Prelude.Map.{lookup, insert, remove, lookup-insert, lookup-remove}
use ostool.Server.Outcome.{any}
use ostool.Serial.Ports.{PortLocator}
use ostool.Serial.Discovery.{Candidate, Owner, Worker}
use ostool.Serial.Sound.{
  Core, Candidates, Leases, IsSound, IsStaffed, IsApart, Distinct, has_worker, All-middle,
  Distinct-middle, any-middle, IsStaffed-insert, IsStaffed-remove, IsStaffed-apart,
}

-- A port with a candidate is not leased.
pub lookup-none :
    (c : Core) (name : Text) (d : Candidate)
    → IsSound c
    → lookup name c.candidates ≡ some d
    → lookup name c.leased ≡ none
lookup-none c name d sound found = elim (Option-cases (lookup name c.leased)) [
  | inl free ↦ free
  | inr held ↦ absurd (ground (arith, found, sound.disjoint name held.0 held.1))
]

pub release-IsSound :
    (c : Core) (port : Text) → IsSound c → IsSound (record c { leased = remove port c.leased })
release-IsSound c port sound =
    let before : (name : Text) (o : Owner)
        → lookup name (remove port c.leased) ≡ some o
        → lookup name c.leased ≡ some o =
      λ name o h. ground (arith, h, lookup-remove port name c.leased) in
    record {
      disjoint = λ name o h. sound.disjoint name o (before name o h);
      staffed = sound.staffed;
      distinct = sound.distinct;
      covered = sound.covered;
      keyed = sound.keyed;
      issued = λ name o h. sound.issued name o (before name o h);
      unique = λ name other o p h k e.
          sound.unique name other o p (before name o h) (before other p k) e;
    }

abbrev pub fresh : ℕ → Text → PortLocator → Owner
fresh n name locator = record { token = suc n; name = name; locator = locator }

-- What a new lease leaves of the others.
lookup_new :
    (port name : Text) (o p : Owner) (leased : Leases)
    → lookup name (insert port o leased) ≡ some p
    → ((port ≡ name) × (o ≡ p)) ⊎ (lookup name leased ≡ some p)
lookup_new port name o p leased h = elim (Bool-cases (text_eq port name)) [
  | inl same ↦
      inl ((text_eq_iff port name).0 same, ground (arith, lookup-insert port name o leased))
  | inr other ↦ inr (ground (arith, lookup-insert port name o leased))
]

unique_new :
    (c : Core) (port i j : Text) (o p q : Owner)
    → IsSound c
    → o.token ≡ suc c.sequence
    → lookup i (insert port o c.leased) ≡ some p
    → lookup j (insert port o c.leased) ≡ some q
    → p.token ≡ q.token
    → i ≡ j
unique_new c port i j o p q sound new h k e = elim (lookup_new port i o p c.leased h) [
  | inl x ↦ elim (lookup_new port j o q c.leased k) [
    | inl y ↦ sym x.0 ∙ y.0
    | inr y ↦ absurd (omega (arith, ap (λ r. r.token) x.1, sound.issued j q y))
  ]
  | inr x ↦ elim (lookup_new port j o q c.leased k) [
    | inl y ↦ absurd (omega (arith, ap (λ r. r.token) y.1, sound.issued i p x))
    | inr y ↦ sound.unique i j p q x y e
  ]
]

-- A lease of a port that nothing reads, with the next token.
pub lease-IsSound :
    (c : Core) (port : Text) (o : Owner)
    → IsSound c
    → o.token ≡ suc c.sequence
    → lookup port c.candidates ≡ none
    → IsSound (record c { leased = insert port o c.leased; sequence = suc c.sequence })
lease-IsSound c port o sound new free = record {
  disjoint = λ name p h. elim (lookup_new port name o p c.leased h) [
    | inl x ↦ subst (λ n. lookup n c.candidates ≡ none) x.0 free
    | inr x ↦ sound.disjoint name p x
  ];
  staffed = sound.staffed;
  distinct = sound.distinct;
  covered = sound.covered;
  keyed = sound.keyed;
  issued = λ name p h. elim (lookup_new port name o p c.leased h) [
    | inl x ↦ omega (arith, ap (λ r. r.token) x.1)
    | inr x ↦ omega (arith, sound.issued name p x)
  ];
  unique = λ i j p q h k e. unique_new c port i j o p q sound new h k e;
}

-- The end of a worker, and of its candidate.
pub forget-IsSound :
    (c : Core) (front back : List Worker) (w : Worker)
    → c.workers ≡ front ++ (w ∷ back)
    → IsSound c
    → IsSound
        (record c { candidates = remove w.locator.name c.candidates; workers = front ++ back })
forget-IsSound c front back w e sound =
    let name = w.locator.name in
    let staffed =
      All-middle (IsStaffed c.candidates) front w back
        (subst (All (IsStaffed c.candidates)) e sound.staffed) in
    let distinct = Distinct-middle front w back (subst Distinct e sound.distinct) in
    let gone : (n : Text) (d : Candidate)
        → lookup n (remove name c.candidates) ≡ some d
        → (text_eq name n ≡ false) × (lookup n c.candidates ≡ some d) =
      λ n d h. ground (arith, h, lookup-remove name n c.candidates) in
    record {
      disjoint = λ n o h. lookup-remove name n c.candidates ∙ ground (arith, sound.disjoint n o h);
      staffed = apart_staffed name c.candidates (front ++ back) distinct.0 staffed.1;
      distinct = distinct.1;
      covered = λ n d h. ground (
        arith,
        gone n d h,
        sound.covered n d (gone n d h).1,
        ap (has_worker n) e,
        any-middle (λ v. text_eq v.locator.name n) front w back,
      );
      keyed = λ n d h. sound.keyed n d (gone n d h).1;
      issued = sound.issued;
      unique = sound.unique;
    }
  where
    apart_staffed :
        (name : Text) (candidates : Candidates) (ws : List Worker)
        → All (λ v. name ≢ v.locator.name) ws
        → All (IsStaffed candidates) ws
        → All (IsStaffed (remove name candidates)) ws
    apart_staffed name candidates [] h k = tt
    apart_staffed name candidates (v ∷ ws) h k =
        (IsStaffed-remove name candidates v h.0 k.0, apart_staffed name candidates ws h.1 k.1)

-- A worker for a port that has no candidate and no lease.
pub spawn-IsSound :
    (c : Core) (d : Candidate) (w : Worker) (n : ℕ)
    → IsSound c
    → lookup w.locator.name c.candidates ≡ none
    → lookup w.locator.name c.leased ≡ none
    → d.locator.name ≡ w.locator.name
    → d.generation ≡ w.generation
    → (w.scans ≡ false → d.closing ≡ true)
    → c.sequence ≤ n
    → IsSound (record c {
      candidates = insert w.locator.name d c.candidates;
      workers = w ∷ c.workers;
      sequence = n;
    })
unfolding any
spawn-IsSound c d w n sound free idle named generation closes le =
    let name = w.locator.name in
    record {
      disjoint = λ m o h.
          lookup-insert name m d c.candidates
          ∙ ground (arith, sound.disjoint m o h, text_eq_iff name m, other m o h);
      staffed = (
        (
          d,
          lookup-insert name name d c.candidates ∙ rw (text_eq_refl name) refl,
          generation,
          closes,
        ),
        All-imply (IsStaffed c.candidates) (IsStaffed (insert name d c.candidates)) c.workers
            (λ v h.
              IsStaffed-insert name d c.candidates v (IsStaffed-apart name c.candidates v free h) h)
            sound.staffed,
      );
      distinct = (
        All-imply (IsStaffed c.candidates) (IsApart w) c.workers
            (λ v h. IsStaffed-apart name c.candidates v free h) sound.staffed,
        sound.distinct,
      );
      covered = λ m e h. ground (arith, h, lookup-insert name m d c.candidates, sound.covered m e);
      keyed = λ m e h. ground (
        arith,
        h,
        lookup-insert name m d c.candidates,
        sound.keyed m e,
        named,
        text_eq_iff name m,
      );
      issued = λ m o h. omega (arith, sound.issued m o h);
      unique = sound.unique;
    }
  where
    other : (m : Text) (o : Owner) → lookup m c.leased ≡ some o → w.locator.name ≢ m
    other m o h e = absurd (ground (arith, h, subst (λ k. lookup k c.leased ≡ none) e idle))
