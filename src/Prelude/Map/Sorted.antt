-- ===== src/Prelude/Map/Sorted.antt =====
-- The keys of a `BTreeMap` ascend, so that no key stands twice.
use mathlib.Core.Path.{◌≡◌, refl, subst}
use mathlib.Core.Logic.{inl, inr}
use mathlib.Core.Bool.{true, false, ◌||◌}
use mathlib.Core.List.{List, [], ◌∷◌}
use native.Mathlib.Omega.{arith}
use ostool.Prelude.Tests.{if◌then◌else◌, Bool-cases}
use ostool.Prelude.Texts.{Text, text_eq, text_lt, text_eq_iff}
use ostool.Prelude.Map.{
  lookup, insert, remove, contains_key, IsUnique, contains_key-cons, lookup-insert, lookup-remove,
}

text_lt_irrefl : (s : Text) → text_lt s s ≡ false
unfolding text_lt
text_lt_irrefl [] = refl
text_lt_irrefl (x ∷ xs) = ground (arith, text_lt_irrefl xs)

text_lt_trans : (s t u : Text) → text_lt s t ≡ true → text_lt t u ≡ true → text_lt s u ≡ true
unfolding text_lt
text_lt_trans [] [] u p q = absurd (cc)
text_lt_trans [] (y ∷ ys) [] p q = absurd (cc)
text_lt_trans [] (y ∷ ys) (z ∷ zs) p q = refl
text_lt_trans (x ∷ xs) [] u p q = absurd (cc)
text_lt_trans (x ∷ xs) (y ∷ ys) [] p q = absurd (cc)
text_lt_trans (x ∷ xs) (y ∷ ys) (z ∷ zs) p q = ground (arith, text_lt_trans xs ys zs)

-- Of two texts that are not the same, one is before the other.
text_lt_total : (s t : Text) → text_eq s t ≡ false → text_lt t s ≡ false → text_lt s t ≡ true
unfolding text_lt text_eq
text_lt_total [] [] p q = absurd (cc)
text_lt_total [] (y ∷ ys) p q = refl
text_lt_total (x ∷ xs) [] p q = absurd (cc)
text_lt_total (x ∷ xs) (y ∷ ys) p q = ground (arith, text_lt_total xs ys)

module _ {ℓ} {V : Type ℓ} where
  -- The key is before every key of the map.
  abbrev pub IsBelow : Text → List (Text × V) → Type 0
  IsBelow k [] = Unit
  IsBelow k ((j, v) ∷ m) = (text_lt k j ≡ true) × IsBelow k m

  abbrev pub IsSorted : List (Text × V) → Type 0
  IsSorted [] = Unit
  IsSorted ((k, v) ∷ m) = IsBelow k m × IsSorted m

  IsBelow-trans :
      (k j : Text) (m : List (Text × V)) → text_lt k j ≡ true → IsBelow j m → IsBelow k m
  IsBelow-trans k j [] h b = tt
  IsBelow-trans k j ((i, v) ∷ m) h b = (text_lt_trans k j i h b.0, IsBelow-trans k j m h b.1)

  IsBelow-insert :
      (k j : Text) (v : V) (m : List (Text × V))
      → text_lt k j ≡ true
      → IsBelow k m
      → IsBelow k (insert j v m)
  unfolding insert
  IsBelow-insert k j v [] h b = (h, tt)
  IsBelow-insert k j v ((i, w) ∷ m) h b = ground (arith, IsBelow-insert k j v m h b.1)

  IsBelow-remove : (k j : Text) (m : List (Text × V)) → IsBelow k m → IsBelow k (remove j m)
  unfolding remove
  IsBelow-remove k j [] b = tt
  IsBelow-remove k j ((i, w) ∷ m) b = ground (arith, IsBelow-remove k j m b.1)

  pub insert-IsSorted :
      (k : Text) (v : V) (m : List (Text × V)) → IsSorted m → IsSorted (insert k v m)
  unfolding insert
  insert-IsSorted k v [] s = (tt, tt)
  insert-IsSorted k v ((j, w) ∷ m) s = elim (Bool-cases (text_eq j k)) [
    | inl same ↦ rw same (subst (λ i. IsBelow i m) ((text_eq_iff j k).0 same) s.0, s.1)
    | inr other ↦ elim (Bool-cases (text_lt k j)) [
      | inl before ↦ rw (other, before) ((before, IsBelow-trans k j m before s.0), s)
      | inr later ↦
          rw (other, later)
            (IsBelow-insert j k v m (text_lt_total j k other later) s.0, insert-IsSorted k v m s.1)
    ]
  ]

  pub remove-IsSorted : (k : Text) (m : List (Text × V)) → IsSorted m → IsSorted (remove k m)
  unfolding remove
  remove-IsSorted k [] s = tt
  remove-IsSorted k ((j, w) ∷ m) s =
      ground (arith, IsBelow-remove j k m s.0, remove-IsSorted k m s.1)

  absent_below : (k : Text) (m : List (Text × V)) → IsBelow k m → contains_key k m ≡ false
  unfolding contains_key lookup
  absent_below k [] b = refl
  absent_below k ((j, w) ∷ m) b = elim (Bool-cases (text_eq j k)) [
    | inl same ↦
        absurd
          (cc (text_lt_irrefl k, subst (λ i. text_lt k i ≡ true) ((text_eq_iff j k).0 same) b.0))
    | inr other ↦ ground (arith, contains_key-cons j k w m, absent_below k m b.1)
  ]

  pub IsSorted-IsUnique : (m : List (Text × V)) → IsSorted m → IsUnique m
  IsSorted-IsUnique [] s = tt
  IsSorted-IsUnique ((k, v) ∷ m) s = (absent_below k m s.0, IsSorted-IsUnique m s.1)

  pub contains_key-insert :
      (k j : Text) (v : V) (m : List (Text × V))
      → contains_key j (insert k v m) ≡ (text_eq k j || contains_key j m)
  unfolding contains_key
  contains_key-insert k j v m = ground (arith, lookup-insert k j v m)

  pub contains_key-remove :
      (k j : Text) (m : List (Text × V))
      → contains_key j (remove k m) ≡ (if text_eq k j then false else contains_key j m)
  unfolding contains_key
  contains_key-remove k j m = ground (arith, lookup-remove k j m)
