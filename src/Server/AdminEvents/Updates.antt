-- ===== src/Server/AdminEvents/Updates.antt =====
-- The history of updates: consecutive revisions, up to the projection's own.
use ostool.Prelude.{
  ℕ, suc, ◌+◌, ◌-◌, ◌≤◌, ◌<◌, ◌≡◌, refl, sym, ap, inl, inr, Bool, true, List, [], ◌∷◌, ◌++◌, arith,
  ltb, leb, ltb→lt, lt→ltb, Bool-cases, length, length-append, Text,
}
use mathlib.Core.Path.{subst}
use ostool.Server.Outcome.{filter}
use ostool.Server.AdminEvents.{
  history_limit, update, Update, Projection, trimmed, append_update, reaches_back,
}

module _ {V : Type 0} where
  pub record IsUpdate (epoch : Text) (n : ℕ) (u : Update V) : Type 0 where
    pub of_epoch : u.epoch ≡ epoch
    pub of_revision : u.revision ≡ n
    pub of_kind : u.kind ≡ update

  -- Updates of this epoch with these revisions, one after the other.
  abbrev pub Numbered : Text → ℕ → List (Update V) → Type 0
  Numbered epoch n [] = Unit
  Numbered epoch n (u ∷ us) = IsUpdate epoch n u × Numbered epoch (suc n) us

  Numbered-append :
      (epoch : Text) (n : ℕ) (us : List (Update V)) (v : Update V)
      → Numbered epoch n us
      → IsUpdate epoch (n + length us) v
      → Numbered epoch n (us ++ (v ∷ []))
  Numbered-append epoch n [] v h hv = (subst (λ k. IsUpdate epoch k v) (omega arith) hv, tt)
  Numbered-append epoch n (u ∷ us) v h hv = (
    h.0,
    Numbered-append epoch (suc n) us v h.1 (subst (λ k. IsUpdate epoch k v) (omega arith) hv),
  )

  -- The updates behind a revision.
  abbrev pub later : ℕ → Update V → Bool
  later revision u = ltb revision u.revision

  pub filter-later_all :
      (epoch : Text) (n r : ℕ) (us : List (Update V))
      → Numbered epoch n us
      → r < n
      → filter (later r) us ≡ us
  unfolding filter
  filter-later_all epoch n r [] h below = refl
  filter-later_all epoch n r (u ∷ us) h below =
      let late : ltb r u.revision ≡ true = lt→ltb r u.revision (omega (arith, h.0.of_revision)) in
      rw late (ap (λ rest. u ∷ rest) (filter-later_all epoch (suc n) r us h.1 (omega arith)))

  pub filter-append :
      (r : ℕ) (us : List (Update V)) (v : Update V)
      → r < v.revision
      → filter (later r) (us ++ (v ∷ [])) ≡ filter (later r) us ++ (v ∷ [])
  unfolding filter
  filter-append r [] v h = rw (lt→ltb r v.revision h) refl
  filter-append r (u ∷ us) v h = ground (arith, filter-append r us v h)

  pub reaches_back-Numbered :
      (epoch : Text) (n r : ℕ) (us : List (Update V))
      → Numbered epoch n us
      → 0 < length us
      → reaches_back r us ≡ leb (n - 1) r
  reaches_back-Numbered epoch n r [] h some_update = absurd (omega arith)
  reaches_back-Numbered epoch n r (u ∷ us) h some_update = rw (h.0.of_revision) refl

  trimmed_fits : (us : List (Update V)) → length us ≤ history_limit → trimmed us ≡ us
  unfolding trimmed
  trimmed_fits [] h = refl
  trimmed_fits (u ∷ us) h = ground arith

  -- What is kept of a history that has one update too many at most.
  pub record IsKept (epoch : Text) (n : ℕ) (us kept : List (Update V)) : Type 0 where
    pub first : ℕ
    pub numbered : Numbered epoch first kept
    pub starts : n ≤ first
    pub ends : first + length kept ≡ n + length us
    pub some_update : 0 < length kept
    pub bounded : length kept ≤ history_limit
    pub keeps : (r : ℕ) → first ≤ suc r → filter (later r) kept ≡ filter (later r) us

  trimmed_full :
      (u : Update V) (us : List (Update V)) → length us ≡ history_limit → trimmed (u ∷ us) ≡ us
  unfolding trimmed
  trimmed_full u us h =
      let over : ltb history_limit (suc (length us)) ≡ true =
        lt→ltb history_limit (suc (length us)) (omega arith) in
      rw (trimmed_fits us (omega arith), over) refl

  pub filter-later_first :
      (r : ℕ) (u : Update V) (us : List (Update V))
      → u.revision ≤ r
      → filter (later r) us ≡ filter (later r) (u ∷ us)
  unfolding filter
  filter-later_first r u us h = ground arith

  IsKept-all :
      (epoch : Text) (n : ℕ) (us : List (Update V))
      → Numbered epoch n us
      → 0 < length us
      → length us ≤ history_limit
      → IsKept epoch n us us
  IsKept-all epoch n us h some_update bounded = record {
    first = n;
    numbered = h;
    starts = omega arith;
    ends = refl;
    some_update = some_update;
    bounded = bounded;
    keeps = λ r le. refl;
  }

  IsKept-first :
      (epoch : Text) (n : ℕ) (u : Update V) (us : List (Update V))
      → Numbered epoch n (u ∷ us)
      → length us ≡ history_limit
      → IsKept epoch n (u ∷ us) us
  IsKept-first epoch n u us h full = record {
    first = suc n;
    numbered = h.1;
    starts = omega arith;
    ends = omega arith;
    some_update = omega arith;
    bounded = omega arith;
    keeps = λ r le. filter-later_first r u us (omega (arith, h.0.of_revision));
  }

  pub trimmed-IsKept :
      (epoch : Text) (n : ℕ) (us : List (Update V))
      → Numbered epoch n us
      → 0 < length us
      → length us ≤ suc history_limit
      → IsKept epoch n us (trimmed us)
  trimmed-IsKept epoch n [] h some_update bounded = absurd (omega arith)
  trimmed-IsKept epoch n (u ∷ us) h some_update bounded =
      elim (Bool-cases (ltb history_limit (suc (length us)))) [
        | inl over ↦
            let full : length us ≡ history_limit =
              omega (arith, ltb→lt history_limit (suc (length us)) over) in
            subst (IsKept epoch n (u ∷ us)) (sym (trimmed_full u us full))
              (IsKept-first epoch n u us h full)
        | inr fits ↦
            let below : suc (length us) ≤ history_limit = ground arith in
            subst (IsKept epoch n (u ∷ us)) (sym (trimmed_fits (u ∷ us) below))
              (IsKept-all epoch n (u ∷ us) h some_update below)
      ]

  -- A projection that has been published: what its history has, and that it ends where the projection
  -- stands.
  pub record IsLog (p : Projection V) : Type 0 where
    pub first : ℕ
    pub numbered : Numbered p.epoch first p.history
    pub ends : first + length p.history ≡ suc p.revision
    pub some_update : 0 < length p.history
    pub bounded : length p.history ≤ history_limit

  -- The update that a publication of these changes appends.
  abbrev pub update_of : List (Text × V) → Projection V → Update V
  update_of changes p = record {
    epoch = p.epoch;
    revision = suc p.revision;
    kind = update;
    data_map = changes;
  }

  pub history-IsKept :
      (changes : List (Text × V)) (p : Projection V) (log : IsLog p)
      → IsKept p.epoch log.first
          (p.history ++ (update_of changes p ∷ []))
          (trimmed (p.history ++ (update_of changes p ∷ [])))
  history-IsKept changes p log =
      trimmed-IsKept p.epoch log.first (p.history ++ (update_of changes p ∷ []))
        (Numbered-append p.epoch log.first p.history (update_of changes p) log.numbered
          (record { of_epoch = refl; of_revision = sym log.ends; of_kind = refl }))
        (omega (arith, length-append p.history (update_of changes p ∷ [])))
        (omega (arith, length-append p.history (update_of changes p ∷ []), log.bounded))

  pub append_update-IsLog :
      (changes : List (Text × V)) (p : Projection V) → IsLog p → IsLog (append_update changes p)
  unfolding append_update
  append_update-IsLog changes p log =
      let kept = history-IsKept changes p log in
      record {
        first = kept.first;
        numbered = kept.numbered;
        ends =
            omega (arith, kept.ends, log.ends, length-append p.history (update_of changes p ∷ []));
        some_update = kept.some_update;
        bounded = kept.bounded;
      }

  pub filter-length_le :
      (test : Update V → Bool) (us : List (Update V)) → length (filter test us) ≤ length us
  unfolding filter
  filter-length_le test [] = omega arith
  filter-length_le test (u ∷ us) = ground (arith, filter-length_le test us)
