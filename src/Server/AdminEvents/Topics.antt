-- ===== src/Server/AdminEvents/Topics.antt =====
-- A topic that has changed is published with what its owner gives.
use ostool.Prelude.{
  ◌≡◌, ◌≢◌, refl, ap, ◌∙◌, inl, inr, Bool, true, false, ◌||◌, some, List, [], ◌∷◌, arith,
  if◌then◌else◌, Bool-cases, Text, text_eq, text_eq_iff,
}
use ostool.Prelude.Map.{
  lookup, insert, remove, contains_key, lookup-insert, contains_key-cons, IsUnique,
}
use ostool.Prelude.Map.Sorted.{
  IsSorted, insert-IsSorted, IsSorted-IsUnique, contains_key-insert, contains_key-remove,
}
use ostool.Server.Outcome.{has, any}
use ostool.Server.AdminEvents.{
  AdminEvents, insert_topic, insert_topics, dependents, invalidate_each, invalidate,
}
use ostool.Server.AdminEvents.Published.{or_lookup, publish-lookup, publish-dirty}
use ostool.Server.AdminEvents.Projector.{
  take_dirty, overview, Owners, value_of, read_topics, add_overview, read_values, turn,
}

-- The topics that an invalidation makes dirty.
abbrev pub is_stale : Text → List Text → Bool
is_stale t topics = any (λ s. text_eq s t || has t (dependents s)) topics

contains_key-insert_topics :
    (t : Text) (ts : List Text) (dirty : List (Text × Unit {0}))
    → contains_key t (insert_topics ts dirty) ≡ (has t ts || contains_key t dirty)
unfolding insert_topics has
contains_key-insert_topics t [] dirty = refl
contains_key-insert_topics t (s ∷ ts) dirty = ground (
  arith,
  contains_key-insert_topics t ts (insert_topic s dirty),
  contains_key-insert s t tt dirty,
  text_eq_iff s t,
  text_eq_iff t s,
)

contains_key-invalidate_each :
    (t : Text) (topics : List Text) (dirty : List (Text × Unit {0}))
    → contains_key t (invalidate_each topics dirty) ≡ (is_stale t topics || contains_key t dirty)
unfolding invalidate_each any
contains_key-invalidate_each t [] dirty = refl
contains_key-invalidate_each t (s ∷ topics) dirty = ground (
  arith,
  contains_key-invalidate_each t topics (insert_topics (dependents s) (insert_topic s dirty)),
  contains_key-insert_topics t (dependents s) (insert_topic s dirty),
  contains_key-insert s t tt dirty,
)

or_none :
    (t : Text) (topics : List Text)
    → (is_stale t topics || contains_key {V = Unit {0}} t []) ≡ is_stale t topics
unfolding contains_key lookup
or_none t topics = ground arith

module _ {V : Type 0} (owners : Owners V) where
  read_topics-lookup :
      (t : Text) (topics : List (Text × Unit {0})) (values : List (Text × V))
      → lookup t (read_topics owners topics values) ≡ (
          if contains_key t topics
          then some (value_of owners (owners.admin_topic t))
          else lookup t values)
  unfolding read_topics contains_key lookup
  read_topics-lookup t [] values = refl
  read_topics-lookup t ((s, u) ∷ topics) values =
      let value = value_of owners (owners.admin_topic s) in
      let same_value : text_eq s t ≡ true → value ≡ value_of owners (owners.admin_topic t) =
        λ e. ap (λ j. value_of owners (owners.admin_topic j)) ((text_eq_iff s t).0 e) in
      read_topics-lookup t topics (insert s value values)
      ∙ ground (arith, contains_key-cons s t u topics, lookup-insert s t value values, same_value)

  read_topics-IsSorted :
      (topics : List (Text × Unit {0})) (values : List (Text × V))
      → IsSorted values
      → IsSorted (read_topics owners topics values)
  unfolding read_topics
  read_topics-IsSorted [] values h = h
  read_topics-IsSorted ((s, u) ∷ topics) values h =
      read_topics-IsSorted topics (insert s (value_of owners (owners.admin_topic s)) values)
        (insert-IsSorted s (value_of owners (owners.admin_topic s)) values h)

  read_values-IsUnique :
      (topics : List (Text × Unit {0})) (data_map : List (Text × V))
      → IsUnique (read_values owners topics data_map)
  unfolding read_values add_overview
  read_values-IsUnique topics data_map =
      let values = read_topics owners (remove overview topics) [] in
      let sorted : IsSorted values = read_topics-IsSorted (remove overview topics) [] tt in
      elim (Bool-cases (contains_key overview topics)) [
        | inl asked ↦ rw asked (IsSorted-IsUnique _ (insert-IsSorted overview _ values sorted))
        | inr not_asked ↦ rw not_asked (IsSorted-IsUnique values sorted)
      ]

  read_values-lookup :
      (t : Text) (topics : List (Text × Unit {0})) (data_map : List (Text × V))
      → t ≢ overview
      → contains_key t topics ≡ true
      → lookup t (read_values owners topics data_map)
        ≡ some (value_of owners (owners.admin_topic t))
  unfolding read_values add_overview lookup
  read_values-lookup t topics data_map other asked =
      let values = read_topics owners (remove overview topics) [] in
      let ne : text_eq overview t ≡ false = ground (arith, text_eq_iff overview t, other) in
      let value : lookup t values ≡ some (value_of owners (owners.admin_topic t)) =
        read_topics-lookup t (remove overview topics) []
        ∙ ground (arith, contains_key-remove overview t topics) in
      elim (Bool-cases (contains_key overview topics)) [
        | inl with_overview ↦
            rw with_overview (lookup-insert overview t _ values ∙ ground (arith, ne, value))
        | inr without ↦ rw without value
      ]

  -- After a turn of the task, every topic that had been invalidated before it, by its own name or by
  -- that of a topic it comes from, has in the projection what its owner gives, or the owner's error; and
  -- the topics that were invalidated during the turn are those of its next one. The overview apart,
  -- and if `==` of two values means that they are equal.
  pub invalidate-turn :
      (same : V → V → Bool)
      → ((v w : V) → same v w ≡ true → v ≡ w)
      → (topics meanwhile : List Text) (e : AdminEvents V) (t : Text) → is_stale t topics ≡ true
      → t ≢ overview
      → (lookup t (turn owners same meanwhile (invalidate topics e)).projection.data_map
          ≡ some (value_of owners (owners.admin_topic t)))
        × (contains_key t (turn owners same meanwhile (invalidate topics e)).dirty
            ≡ is_stale t meanwhile)
  unfolding turn take_dirty invalidate
  invalidate-turn same same_eq topics meanwhile e t stale other =
      let dirty = invalidate_each topics e.dirty in
      let values = read_values owners dirty e.projection.data_map in
      let next : AdminEvents V = record e { dirty = invalidate_each meanwhile []; wake = true } in
      let asked : contains_key t dirty ≡ true =
        contains_key-invalidate_each t topics e.dirty ∙ ground (arith, stale) in
      (
        publish-lookup same same_eq t values next (read_values-IsUnique dirty e.projection.data_map)
            ∙ ap (λ o. or_lookup o (lookup t e.projection.data_map))
                (read_values-lookup t dirty e.projection.data_map other asked),
        ap (contains_key t) (publish-dirty same values next)
            ∙ contains_key-invalidate_each t meanwhile []
            ∙ or_none t meanwhile,
      )
