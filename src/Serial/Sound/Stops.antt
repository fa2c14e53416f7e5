-- ===== src/Serial/Sound/Stops.antt =====
-- The candidates that are asked to stop: the core with their flags raised.
use ostool.Prelude.{All-imply}
use ostool.Prelude.{
  ◌≡◌, refl, sym, ap, ◌∙◌, inl, inr, Bool, true, Option, none, some, [], ◌∷◌, arith, if◌then◌else◌,
  Bool-cases, Text, text_eq,
}
use ostool.Prelude.Map.{lookup}
use ostool.Serial.Discovery.{Candidate}
use ostool.Serial.Reconcile.{stop_each, stopped}
use ostool.Serial.Sound.{Core, Candidates, IsSound, IsStaffed}

abbrev pub stopped_by : (Candidate → Bool) → Candidate → Candidate
stopped_by test c = if test c then stopped c else c

abbrev pub stop_found : (Candidate → Bool) → Option Candidate → Option Candidate
stop_found test none = none
stop_found test (some c) = some (stopped_by test c)

pub lookup-stop_each :
    (test : Candidate → Bool) (name : Text) (candidates : Candidates)
    → lookup name (stop_each test candidates) ≡ stop_found test (lookup name candidates)
unfolding stop_each lookup
lookup-stop_each test name [] = refl
lookup-stop_each test name ((k, c) ∷ cs) = elim (Bool-cases (text_eq k name)) [
  | inl same ↦ elim (Bool-cases (test c)) [
    | inl stops ↦ rw (stops, same, stops) refl
    | inr goes_on ↦ rw (goes_on, same, goes_on) refl
  ]
  | inr other ↦ elim (Bool-cases (test c)) [
    | inl stops ↦ rw (stops, other) (lookup-stop_each test name cs)
    | inr goes_on ↦ rw (goes_on, other) (lookup-stop_each test name cs)
  ]
]

stopped_by-generation :
    (test : Candidate → Bool) (c : Candidate) → (stopped_by test c).generation ≡ c.generation
stopped_by-generation test c = ground arith

pub stopped_by-stops :
    (test : Candidate → Bool) (c : Candidate) → test c ≡ true → (stopped_by test c).closing ≡ true
stopped_by-stops test c h = rw h refl

stopped_by-locator :
    (test : Candidate → Bool) (c : Candidate) → (stopped_by test c).locator.name ≡ c.locator.name
stopped_by-locator test c = ground arith

stopped_by-closing :
    (test : Candidate → Bool) (c : Candidate)
    → c.closing ≡ true
    → (stopped_by test c).closing ≡ true
stopped_by-closing test c h = ground arith

pub stop_found-some :
    (test : Candidate → Bool) (o : Option Candidate) (d : Candidate)
    → stop_found test o ≡ some d
    → (c : Candidate) × (o ≡ some c) × (d ≡ stopped_by test c)
stop_found-some test none d h = absurd (ground arith)
stop_found-some test (some c) d h = (c, refl, ground arith)

stop_found-none :
    (test : Candidate → Bool) (o : Option Candidate) → o ≡ none → stop_found test o ≡ none
stop_found-none test o h = rw h refl

pub stop-IsSound :
    (test : Candidate → Bool) (c : Core)
    → IsSound c
    → IsSound (record c { candidates = stop_each test c.candidates })
stop-IsSound test c sound =
    let is_found : (name : Text)
        → lookup name (stop_each test c.candidates) ≡ stop_found test (lookup name c.candidates) =
      λ name. lookup-stop_each test name c.candidates in
    record {
      disjoint = λ name o h.
          is_found name ∙ stop_found-none test (lookup name c.candidates) (sound.disjoint name o h);
      staffed =
          All-imply (IsStaffed c.candidates) (IsStaffed (stop_each test c.candidates)) c.workers
            (λ w h. (
              stopped_by test h.0,
              is_found w.locator.name ∙ ap (stop_found test) h.1,
              stopped_by-generation test h.0 ∙ h.2,
              λ closes. stopped_by-closing test h.0 (h.3 closes),
            ))
            sound.staffed;
      distinct = sound.distinct;
      covered = λ name d h.
          let before =
            stop_found-some test (lookup name c.candidates) d (sym (is_found name) ∙ h) in
          sound.covered name before.0 before.1;
      keyed = λ name d h.
          let before =
            stop_found-some test (lookup name c.candidates) d (sym (is_found name) ∙ h) in
          ap (λ e. e.locator.name) before.2
          ∙ stopped_by-locator test before.0
          ∙ sound.keyed name before.0 before.1;
      issued = sound.issued;
      unique = sound.unique;
    }
