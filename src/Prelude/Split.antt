-- ===== src/Prelude/Split.antt =====
-- `str::split` at a character.
use Prim.Native.Nat.{ℕ}
use mathlib.Core.Path.{◌≡◌, refl, ap}
use mathlib.Core.Logic.{◌≢◌, inl, inr}
use mathlib.Core.Bool.{false}
use mathlib.Core.List.{List, [], ◌∷◌, ◌++◌}
use native.Mathlib.Omega.{arith}
use ostool.Prelude.Tests.{◌==◌, ==_iff, ==_refl, if◌then◌else◌, Bool-cases}
use ostool.Prelude.Texts.{Text}
use ostool.Prelude.Lists.{All}

abbrev pub with_first : ℕ → List Text → List Text
with_first c [] = (c ∷ []) ∷ []
with_first c (s ∷ ss) = (c ∷ s) ∷ ss

-- What stands between the separators; there is one piece at least.
unfoldable pub split : ℕ → Text → List Text
split at [] = [] ∷ []
split at (c ∷ cs) = let rest = split at cs in if c == at then [] ∷ rest else with_first c rest

module _ (at : ℕ) where
  -- The text does not have the separator.
  abbrev pub IsPiece : Text → Type 0
  IsPiece = All (λ c. c ≢ at)

  with_first-IsPiece :
      (c : ℕ) (ss : List Text) → c ≢ at → All IsPiece ss → All IsPiece (with_first c ss)
  with_first-IsPiece c [] ne h = ((ne, tt), tt)
  with_first-IsPiece c (s ∷ ss) ne h = ((ne, h.0), h.1)

  pub split-IsPiece : (text : Text) → All IsPiece (split at text)
  unfolding split
  split-IsPiece [] = (tt, tt)
  split-IsPiece (c ∷ cs) = elim (Bool-cases (c == at)) [
    | inl same ↦ rw same (tt, split-IsPiece cs)
    | inr other ↦
        rw other
          (with_first-IsPiece c (split at cs) (ground (arith, ==_iff c at)) (split-IsPiece cs))
  ]

  other_char : (c : ℕ) → c ≢ at → (c == at) ≡ false
  other_char c ne = ground (arith, ==_iff c at)

  pub split-append : (s rest : Text) → IsPiece s → split at (s ++ (at ∷ rest)) ≡ s ∷ split at rest
  unfolding split
  split-append [] rest h = rw (==_refl at)
  split-append (c ∷ cs) rest h =
      rw (other_char c h.0) (ap (with_first c) (split-append cs rest h.1))

  pub split_one : (s : Text) → IsPiece s → split at s ≡ s ∷ []
  unfolding split
  split_one [] h = refl
  split_one (c ∷ cs) h = rw (other_char c h.0) (ap (with_first c) (split_one cs h.1))
