-- ===== src/Server/AdminEvents/Published.antt =====
-- What a publication leaves in the projection: of each topic the value that was published last.
use ostool.Prelude.{
  ◌≡◌, refl, sym, ap, ◌∙◌, inl, inr, Bool, true, false, ◌&&◌, Option, none, some, List, [], ◌∷◌,
  arith, Bool-cases, and_true, Text, text_eq, text_eq_iff,
}
use mathlib.Core.Path.{subst}
use ostool.Prelude.Map.{lookup, insert, contains_key, lookup-insert, IsUnique, lookup_absent}
use ostool.Server.Outcome.{filter, is_empty}
use ostool.Server.AdminEvents.{
  AdminEvents, extend, differs, is_change, changes_of, append_update, publish,
}

-- `map.get(k).or(other)`
abbrev pub or_lookup : {V : Type 0} → Option V → Option V → Option V
or_lookup (some v) o = some v
or_lookup none o = o

module _ {V : Type 0} where
  absent_key :
      (k t : Text) (values : List (Text × V))
      → contains_key k values ≡ false
      → text_eq k t ≡ true
      → contains_key t values ≡ false
  absent_key k t values absent same =
      subst (λ j. contains_key j values ≡ false) ((text_eq_iff k t).0 same) absent

  absent-lookup :
      (k : Text) (values : List (Text × V)) → lookup k values ≡ none → contains_key k values ≡ false
  unfolding contains_key
  absent-lookup k values h = rw (h, contains_key) refl

  lookup-extend :
      (t : Text) (data_map values : List (Text × V))
      → IsUnique values
      → lookup t (extend data_map values) ≡ or_lookup (lookup t values) (lookup t data_map)
  unfolding extend lookup
  lookup-extend t data_map [] unique = refl
  lookup-extend t data_map ((k, v) ∷ values) unique = elim (Bool-cases (text_eq k t)) [
    | inl same ↦
        rw
          (
            lookup-extend t (insert k v data_map) values unique.1,
            lookup-insert k t v data_map,
            same,
          )
          (rw (lookup_absent t values (absent_key k t values unique.0 same)) refl)
    | inr other ↦
        rw
          (
            lookup-extend t (insert k v data_map) values unique.1,
            lookup-insert k t v data_map,
            other,
          )
          refl
  ]

module _ {V : Type 0} (same : V → V → Bool) where
  absent-filter :
      (t : Text) (data_map values : List (Text × V))
      → lookup t values ≡ none
      → lookup t (filter (is_change same data_map) values) ≡ none
  unfolding lookup filter
  absent-filter t data_map [] h = refl
  absent-filter t data_map ((k, v) ∷ values) h = ground (arith, absent-filter t data_map values)

  filter-IsUnique :
      (data_map values : List (Text × V))
      → IsUnique values
      → IsUnique (filter (is_change same data_map) values)
  unfolding filter
  filter-IsUnique data_map [] h = tt
  filter-IsUnique data_map ((k, v) ∷ values) h = ground (
    arith,
    absent-filter k data_map values (lookup_absent k values h.0),
    absent-lookup k (filter (is_change same data_map) values),
    filter-IsUnique data_map values h.1,
  )

  differs_not :
      ((v w : V) → same v w ≡ true → v ≡ w)
      → (o : Option V) (v : V) → differs same o v ≡ false
      → o ≡ some v
  differs_not same_eq none v h = absurd (ground arith)
  differs_not same_eq (some old) v h = ap (λ w. some w) (same_eq old v (ground arith))

  is_change_not :
      ((v w : V) → same v w ≡ true → v ≡ w)
      → (k : Text) (v : V) (data_map : List (Text × V)) → is_change same data_map (k, v) ≡ false
      → lookup k data_map ≡ some v
  unfolding is_change
  is_change_not same_eq k v data_map h = differs_not same_eq (lookup k data_map) v h

  lookup-changes :
      ((v w : V) → same v w ≡ true → v ≡ w)
      → (t : Text) (data_map values : List (Text × V)) → IsUnique values
      → or_lookup (lookup t (filter (is_change same data_map) values)) (lookup t data_map)
        ≡ or_lookup (lookup t values) (lookup t data_map)
  unfolding lookup filter is_change
  lookup-changes same_eq t data_map [] h = refl
  lookup-changes same_eq t data_map ((k, v) ∷ values) h =
      let rest = lookup-changes same_eq t data_map values h.1 in
      let none_left : text_eq k t ≡ true
          → lookup t (filter (is_change same data_map) values) ≡ none =
        λ e.
          absent-filter t data_map values (lookup_absent t values (absent_key k t values h.0 e)) in
      elim (Bool-cases (is_change same data_map (k, v))) [
        | inl change ↦ elim (Bool-cases (text_eq k t)) [
          | inl here ↦ rw (change, here) refl
          | inr other ↦ rw (change, other) rest
        ]
        | inr old ↦ elim (Bool-cases (text_eq k t)) [
          | inl here ↦
              let stands : lookup t data_map ≡ some v =
                subst (λ j. lookup j data_map ≡ some v) ((text_eq_iff k t).0 here)
                  (is_change_not same_eq k v data_map old) in
              rw (old, here, none_left here, stands) refl
          | inr other ↦ rw (old, other) rest
        ]
      ]

  none_in : (changes : List (Text × V)) → is_empty changes ≡ true → changes ≡ []
  unfolding is_empty
  none_in [] h = refl
  none_in (c ∷ cs) h = absurd (ground arith)

  pub publish-lookup :
      ((v w : V) → same v w ≡ true → v ≡ w)
      → (t : Text) (values : List (Text × V)) (e : AdminEvents V) → IsUnique values
      → lookup t (publish same values e).projection.data_map
        ≡ or_lookup (lookup t values) (lookup t e.projection.data_map)
  unfolding publish append_update changes_of lookup
  publish-lookup same_eq t values e unique =
      let data_map = e.projection.data_map in
      let changes = filter (is_change same data_map) values in
      let last = lookup-changes same_eq t data_map values unique in
      elim (Bool-cases (is_empty changes && e.projection.initialized)) [
        | inl silent ↦
            let nothing : changes ≡ [] = none_in changes (and_true silent).0 in
            rw silent (ap (λ c. or_lookup (lookup t c) (lookup t data_map)) (sym nothing) ∙ last)
        | inr news ↦
            rw news
              (lookup-extend t data_map changes (filter-IsUnique data_map values unique) ∙ last)
      ]

  pub publish-dirty :
      (values : List (Text × V)) (e : AdminEvents V) → (publish same values e).dirty ≡ e.dirty
  unfolding publish
  publish-dirty values e =
      elim (Bool-cases
        (is_empty (changes_of same values e.projection.data_map) && e.projection.initialized)) [
          | inl silent ↦ rw silent refl
          | inr news ↦ rw news refl
        ]
