-- ===== src/Prelude/Map/Modify.antt =====
-- Lookups after the change of one entry.
use mathlib.Core.Path.{◌≡◌, sym, subst, ◌∙◌}
use mathlib.Core.Logic.{◌≢◌, ◌⊎◌, inl, inr}
use mathlib.Core.Option.{some, some-injective}
use mathlib.Core.List.{List}
use native.Mathlib.Omega.{arith}
use ostool.Prelude.Tests.{Bool-cases}
use ostool.Prelude.Texts.{Text, text_eq, text_eq_iff}
use ostool.Prelude.Map.{lookup, modify, lookup-modify_self, lookup-modify_ne}

module _ {ℓ} {V : Type ℓ} where
  -- A lookup after a change of one entry finds the changed entry or an old one.
  pub lookup-modify_cases :
      (k j : Text) (f : V → V) (m : List (Text × V)) (r v : V)
      → lookup k m ≡ some v
      → lookup j (modify k f m) ≡ some r
      → ((k ≡ j) × (r ≡ f v)) ⊎ ((k ≢ j) × (lookup j m ≡ some r))
  lookup-modify_cases k j f m r v e g = elim (Bool-cases (text_eq k j)) [
    | inl same ↦ at ((text_eq_iff k j).0 same)
    | inr other ↦ apart (ground (arith, text_eq_iff k j))
  ]
    where
      at : k ≡ j → ((k ≡ j) × (r ≡ f v)) ⊎ ((k ≢ j) × (lookup j m ≡ some r))
      at p = inl (
        p,
        some-injective _ _ (
            sym (subst (λ i. lookup i (modify k f m) ≡ some r) (sym p) g)
            ∙ lookup-modify_self k f m e),
      )

      apart : k ≢ j → ((k ≡ j) × (r ≡ f v)) ⊎ ((k ≢ j) × (lookup j m ≡ some r))
      apart n = inr (n, sym (lookup-modify_ne k j f m n) ∙ g)

  -- A change of an entry drops no key.
  pub lookup-modify-some :
      (k j : Text) (f : V → V) (m : List (Text × V)) {v : V}
      → lookup j m ≡ some v
      → (w : V) × (lookup j (modify k f m) ≡ some w)
  lookup-modify-some k j f m {v} e = elim (Bool-cases (text_eq k j)) [
    | inl same ↦ (
      f v,
      subst (λ i. lookup j (modify i f m) ≡ some (f v)) (sym ((text_eq_iff k j).0 same))
          (lookup-modify_self j f m e),
    )
    | inr other ↦ (v, lookup-modify_ne k j f m (ground (arith, text_eq_iff k j)) ∙ e)
  ]
