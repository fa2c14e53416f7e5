-- ===== src/Prelude/Map.antt =====
-- `BTreeMap<String, V>`: an association list in the order of its keys. A `HashMap` whose order of
-- iteration nothing depends on is one too.
pub mod Sorted
pub mod Modify
use Prim.Native.Nat.{◌≤◌, ◌+◌}
use mathlib.Core.Path.{subst₂, ◌≡◌, refl}
use mathlib.Core.Logic.{◌≢◌, inl, inr}
use mathlib.Core.Bool.{Bool, true, false}
use mathlib.Core.Option.{Option, none, some}
use mathlib.Core.List.{List, [], ◌∷◌}
use native.Mathlib.Omega.{arith}
use ostool.Prelude.Tests.{if◌then◌else◌, Bool-cases}
use ostool.Prelude.Texts.{Text, text_eq, text_lt, text_eq_iff}
use ostool.Prelude.Lists.{All, length}

module _ {ℓ} {V : Type ℓ} where
  unfoldable pub lookup : Text → List (Text × V) → Option V
  lookup k [] = none
  lookup k ((j, v) ∷ m) = if text_eq j k then some v else lookup k m

  -- A present key keeps its place and gets the new value.
  unfoldable pub insert : Text → V → List (Text × V) → List (Text × V)
  insert k v [] = (k, v) ∷ []
  insert k v ((j, w) ∷ m) =
      let later = (j, w) ∷ insert k v m in
      if text_eq j k then (k, v) ∷ m else if text_lt k j then (k, v) ∷ (j, w) ∷ m else later

  -- Keys are unique, so that dropping every entry of the key drops the one there is.
  unfoldable pub remove : Text → List (Text × V) → List (Text × V)
  remove k [] = []
  remove k ((j, v) ∷ m) = if text_eq j k then remove k m else (j, v) ∷ remove k m

  -- `if let Some(v) = map.get_mut(k) { *v = f(v) }`
  unfoldable pub modify : Text → (V → V) → List (Text × V) → List (Text × V)
  modify k f [] = []
  modify k f ((j, v) ∷ m) = if text_eq j k then (j, f v) ∷ m else (j, v) ∷ modify k f m

  unfoldable pub contains_key : Text → List (Text × V) → Bool
  contains_key k m = elim (lookup k m) [ none ↦ false | some v ↦ true ]

  pub lookup-insert :
      (k j : Text) (v : V) (m : List (Text × V))
      → lookup j (insert k v m) ≡ (if text_eq k j then some v else lookup j m)
  unfolding lookup insert
  lookup-insert k j v [] = refl
  lookup-insert k j v ((i, w) ∷ m) =
      ground (arith, text_eq_iff k j, text_eq_iff i k, text_eq_iff i j, lookup-insert k j v m)

  pub lookup-remove :
      (k j : Text) (m : List (Text × V))
      → lookup j (remove k m) ≡ (if text_eq k j then none else lookup j m)
  unfolding lookup remove
  lookup-remove k j [] = ground arith
  lookup-remove k j ((i, w) ∷ m) =
      ground (arith, text_eq_iff k j, text_eq_iff i k, text_eq_iff i j, lookup-remove k j m)

  pub lookup-modify_self :
      (k : Text) (f : V → V) (m : List (Text × V)) {v : V}
      → lookup k m ≡ some v
      → lookup k (modify k f m) ≡ some (f v)
  unfolding lookup modify
  lookup-modify_self k f [] e = cc
  lookup-modify_self k f ((i, w) ∷ m) {v} e = elim (Bool-cases (text_eq i k)) [
    | inl same ↦ ground (arith)
    | inr other ↦ rw (other, other) (lookup-modify_self k f m (rw other at e))
  ]

  pub lookup-modify_ne :
      (k j : Text) (f : V → V) (m : List (Text × V)) → k ≢ j → lookup j (modify k f m) ≡ lookup j m
  unfolding lookup modify
  lookup-modify_ne k j f [] ne = refl
  lookup-modify_ne k j f ((i, w) ∷ m) ne =
      ground (arith, text_eq_iff i k, text_eq_iff i j, lookup-modify_ne k j f m)

  pub modify_absent :
      (k : Text) (f : V → V) (m : List (Text × V)) → lookup k m ≡ none → modify k f m ≡ m
  unfolding lookup modify
  modify_absent k f [] e = refl
  modify_absent k f ((i, w) ∷ m) e = ground (arith, modify_absent k f m)

  pub length-insert :
      (k : Text) (v : V) (m : List (Text × V)) → length (insert k v m) ≤ length m + 1
  unfolding insert
  length-insert k v [] = omega arith
  length-insert k v ((i, w) ∷ m) = ground (arith, length-insert k v m)

  -- A property of all entries.
  abbrev pub AllEntries {κ} : (Text → V → Type κ) → List (Text × V) → Type κ
  AllEntries P = All (λ e. P e.0 e.1)

  pub AllEntries-insert {κ} :
      (P : Text → V → Type κ) (k : Text) (v : V) (m : List (Text × V))
      → P k v
      → AllEntries P m
      → AllEntries P (insert k v m)
  unfolding insert
  AllEntries-insert P k v [] p h = (p, tt)
  AllEntries-insert P k v ((j, w) ∷ m) p h = elim (Bool-cases (text_eq j k)) [
    | inl same ↦ rw same (p, h.1)
    | inr other ↦ rw other (elim (Bool-cases (text_lt k j)) [
      | inl before ↦ rw before (p, h)
      | inr later ↦ rw later (h.0, AllEntries-insert P k v m p h.1)
    ])
  ]

  pub lookup-AllEntries {κ} :
      (P : Text → V → Type κ) (k : Text) (m : List (Text × V)) {v : V}
      → AllEntries P m
      → lookup k m ≡ some v
      → P k v
  unfolding lookup
  lookup-AllEntries P k [] h e = absurd (cc)
  lookup-AllEntries P k ((j, w) ∷ m) {v} h e = elim (Bool-cases (text_eq j k)) [
    | inl same ↦ subst₂ P ((text_eq_iff j k).0 same) (ground arith) h.0
    | inr other ↦ lookup-AllEntries P k m h.1 (rw other at e)
  ]

  -- No key stands twice.
  abbrev pub IsUnique : List (Text × V) → Type 0
  IsUnique [] = Unit
  IsUnique ((k, v) ∷ m) = (contains_key k m ≡ false) × IsUnique m

  pub contains_key-lookup :
      (k : Text) (m : List (Text × V)) {v : V} → lookup k m ≡ some v → contains_key k m ≡ true
  unfolding contains_key
  contains_key-lookup k m e = rw (e, contains_key)

  pub lookup_absent :
      (k : Text) (m : List (Text × V)) → contains_key k m ≡ false → lookup k m ≡ none
  unfolding contains_key
  lookup_absent k m e = ground arith

  pub contains_key-cons :
      (k j : Text) (v : V) (m : List (Text × V))
      → contains_key j ((k, v) ∷ m) ≡ (if text_eq k j then true else contains_key j m)
  unfolding contains_key lookup
  contains_key-cons k j v m = ground arith
