-- ===== src/Server/AdminEvents/Reach.antt =====
-- The projection and one administrator, from the start of the server, in any order of what happens:
-- topics change, values are published, an update is delivered, or the connection is lost and opened
-- again. The administrator's first cursor is of no epoch or of another server's: epochs are fresh.
use ostool.Prelude.{
  ℕ, zero, suc, ◌^◌, ◌<◌, ◌≡◌, ◌≢◌, ◌⊎◌, refl, sym, ap, ◌∙◌, inl, inr, Bool, true, false, ◌&&◌,
  Option, none, some, List, [], ◌∷◌, arith, if◌then◌else◌, Bool-cases, Text, text_eq_iff,
}
use mathlib.Core.Path.{subst}
use ostool.Server.Outcome.{is_empty}
use ostool.Server.AdminEvents.{
  Update, Projection, new_projection, append_update, AdminEvents, new_events, invalidate, publish,
  changes_of, trimmed, is_replay, after, read_cursor,
}
use ostool.Server.AdminEvents.Subscribe.{
  Subscriber, subscribe, next_update, Replica, apply, apply_all, current,
}
use ostool.Server.AdminEvents.Updates.{IsLog, append_update-IsLog}
use ostool.Server.AdminEvents.Follow.{Catches, after_snapshot, IsWithin}
use ostool.Server.AdminEvents.Queue.{Follows, Follows-Catches, Follows-append_update, after-Follows}

-- A cursor of another epoch, or none.
abbrev pub IsForeign : Text → Option (Text × ℕ) → Type 0
IsForeign epoch none = Unit
IsForeign epoch (some (other, revision)) = other ≢ epoch

pub record System (V : Type 0) : Type 0 where
  pub events : AdminEvents V
  pub subscriber : Subscriber V
  pub replica : Replica V

module _ {V : Type 0} where
  abbrev pub received : Option (Update V) → Replica V → Replica V
  received none r = r
  received (some u) r = apply u r

  -- A turn of the stream, which waits for the first publication.
  unfoldable pub deliver : System V → System V
  deliver s =
      let given = next_update s.events.projection s.subscriber in
      if s.events.projection.initialized
      then record s { subscriber = given.1; replica = received given.0 s.replica }
      else s

  unfoldable pub deliver_times : ℕ → System V → System V
  deliver_times zero s = s
  deliver_times (suc n) s = deliver_times n (deliver s)

  unfoldable pub reconnect : System V → System V
  reconnect s = record s { subscriber = subscribe s.subscriber.cursor }

  abbrev pub start : Text → Option Text → Replica V → System V
  start epoch last_event_id replica = record {
    events = new_events epoch;
    subscriber = subscribe last_event_id;
    replica = replica;
  }

  pub data Reach (same : V → V → Bool) (epoch : Text) : System V → Type 0 where
    started :
        (last_event_id : Option Text) (replica : Replica V)
        → IsForeign epoch (read_cursor last_event_id)
        → Reach same epoch (start epoch last_event_id replica)
    invalidated :
        {s : System V} (topics : List Text)
        → Reach same epoch s
        → Reach same epoch (record s { events = invalidate topics s.events })
    published :
        {s : System V} (values : List (Text × V))
        → Reach same epoch s
        → suc s.events.projection.revision < 2 ^ 64
        → Reach same epoch (record s { events = publish same values s.events })
    delivered : {s : System V} → Reach same epoch s → Reach same epoch (deliver s)
    reconnected : {s : System V} → Reach same epoch s → Reach same epoch (reconnect s)

  -- Before the first publication.
  record IsNew (epoch : Text) (p : Projection V) (subscriber : Subscriber V) : Type 0 where
    of_projection : p ≡ new_projection epoch
    of_queue : subscriber.queue ≡ []
    of_cursor : IsForeign epoch (read_cursor subscriber.cursor)

  -- From then on.
  pub record IsFollowed (p : Projection V) (subscriber : Subscriber V) (r : Replica V)
      : Type 0 where
    pub initialized : p.initialized ≡ true
    pub log : IsLog p
    pub small : p.revision < 2 ^ 64
    pub follows : Follows p subscriber.cursor r subscriber.queue

  abbrev Holds : Text → System V → Type 0
  Holds epoch s =
      IsNew epoch s.events.projection s.subscriber
      ⊎ IsFollowed s.events.projection s.subscriber s.replica

  IsWithin-foreign : (p : Projection V) (x : Option (Text × ℕ)) → IsForeign p.epoch x → IsWithin p x
  IsWithin-foreign p none h = tt
  IsWithin-foreign p (some (epoch, revision)) h = λ e. absurd (h e)

  is_replay_foreign :
      (p : Projection V) (x : Option (Text × ℕ)) → IsForeign p.epoch x → is_replay p x ≡ false
  is_replay_foreign p none h = refl
  is_replay_foreign p (some (epoch, revision)) h = ground (arith, text_eq_iff epoch p.epoch)

  first-IsLog :
      (epoch : Text) (changes : List (Text × V))
      → IsLog (append_update changes (new_projection epoch))
  unfolding append_update new_projection trimmed
  first-IsLog epoch changes = record {
    first = 1;
    numbered = (record { of_epoch = refl; of_revision = refl; of_kind = refl }, tt);
    ends = refl;
    some_update = omega arith;
    bounded = omega arith;
  }

  first_follows :
      (epoch : Text) (changes : List (Text × V)) (cursor : Option Text) (r : Replica V)
      → IsForeign epoch (read_cursor cursor)
      → Catches (append_update changes (new_projection epoch)) cursor r
  unfolding append_update new_projection
  first_follows epoch changes cursor r foreign =
      let p = append_update changes (new_projection epoch) in
      record {
        within = IsWithin-foreign p (read_cursor cursor) foreign;
        complete = after_snapshot cursor p r (is_replay_foreign p (read_cursor cursor) foreign);
      }

  first_publication :
      (epoch : Text) (p : Projection V) (subscriber : Subscriber V) (r : Replica V)
      (changes : List (Text × V))
      → IsNew epoch p subscriber
      → IsFollowed (append_update changes p) subscriber r
  unfolding append_update new_projection
  first_publication epoch p subscriber r changes h =
      subst (λ q. IsFollowed (append_update changes q) subscriber r) (sym h.of_projection)
        (record {
          initialized = refl;
          log = first-IsLog epoch changes;
          small = omega arith;
          follows =
              subst (Follows (append_update changes (new_projection epoch)) subscriber.cursor r)
                (sym h.of_queue) (first_follows epoch changes subscriber.cursor r h.of_cursor);
        })

  next_publication :
      (p : Projection V) (subscriber : Subscriber V) (r : Replica V) (changes : List (Text × V))
      → suc p.revision < 2 ^ 64
      → IsFollowed p subscriber r
      → IsFollowed (append_update changes p) subscriber r
  unfolding append_update
  next_publication p subscriber r changes small h = record {
    initialized = refl;
    log = append_update-IsLog changes p h.log;
    small = small;
    follows = Follows-append_update changes p subscriber.cursor r subscriber.queue h.log h.follows;
  }

  publish-Holds :
      (same : V → V → Bool) (epoch : Text) (s : System V) (values : List (Text × V))
      → suc s.events.projection.revision < 2 ^ 64
      → Holds epoch s
      → Holds epoch (record s { events = publish same values s.events })
  unfolding publish new_projection
  publish-Holds same epoch s values small (inl h) =
      let p = s.events.projection in
      let waits : p.initialized ≡ false = ap (λ q. q.initialized) h.of_projection in
      let none_silent : (is_empty (changes_of same values p.data_map) && p.initialized) ≡ false =
        ground (arith, waits) in
      rw none_silent (
        inr
          (first_publication epoch p s.subscriber s.replica (changes_of same values p.data_map) h))
  publish-Holds same epoch s values small (inr h) =
      let p = s.events.projection in
      elim (Bool-cases (is_empty (changes_of same values p.data_map) && p.initialized)) [
        | inl silent ↦ rw silent (inr h)
        | inr news ↦ rw news (
            inr (
              next_publication p s.subscriber s.replica (changes_of same values p.data_map) small
                h))
      ]

  next_update-IsFollowed :
      (p : Projection V) (cursor : Option Text) (queue : List (Update V)) (r : Replica V)
      → IsFollowed p (record { cursor = cursor; queue = queue }) r
      → IsFollowed p
          (next_update p (record { cursor = cursor; queue = queue })).1
          (received (next_update p (record { cursor = cursor; queue = queue })).0 r)
  unfolding next_update
  next_update-IsFollowed p cursor [] r h = record {
    initialized = h.initialized;
    log = h.log;
    small = h.small;
    follows = after-Follows p cursor r h.log h.small h.follows;
  }
  next_update-IsFollowed p cursor (u ∷ us) r h = record {
    initialized = h.initialized;
    log = h.log;
    small = h.small;
    follows = h.follows.1;
  }

  deliver_waits : (s : System V) → s.events.projection.initialized ≡ false → deliver s ≡ s
  unfolding deliver
  deliver_waits s waits = simp waits

  -- A turn of the stream when it does not wait for the first publication.
  abbrev pub turned : System V → System V
  turned s = record s {
    subscriber = (next_update s.events.projection s.subscriber).1;
    replica = received (next_update s.events.projection s.subscriber).0 s.replica;
  }

  pub deliver_ready : (s : System V) → s.events.projection.initialized ≡ true → deliver s ≡ turned s
  unfolding deliver
  deliver_ready s ready = simp ready

  deliver-Holds : (epoch : Text) (s : System V) → Holds epoch s → Holds epoch (deliver s)
  unfolding deliver new_projection
  deliver-Holds epoch s (inl h) =
      let waits : s.events.projection.initialized ≡ false =
        ap (λ q. q.initialized) h.of_projection in
      subst (Holds epoch) (sym (deliver_waits s waits)) (inl h)
  deliver-Holds epoch s (inr h) = subst (Holds epoch) (sym (deliver_ready s h.initialized)) (
      inr (
        next_update-IsFollowed s.events.projection s.subscriber.cursor s.subscriber.queue s.replica
          h))

  reconnect-Holds : (epoch : Text) (s : System V) → Holds epoch s → Holds epoch (reconnect s)
  unfolding reconnect subscribe
  reconnect-Holds epoch s (inl h) =
      inl (record { of_projection = h.of_projection; of_queue = refl; of_cursor = h.of_cursor })
  reconnect-Holds epoch s (inr h) = inr (record {
    initialized = h.initialized;
    log = h.log;
    small = h.small;
    follows =
        Follows-Catches s.events.projection s.subscriber.cursor s.replica s.subscriber.queue
          h.follows;
  })

  Reach-Holds :
      (same : V → V → Bool) (epoch : Text) (s : System V) → Reach same epoch s → Holds epoch s
  unfolding new_events subscribe invalidate
  Reach-Holds same epoch _ (started last_event_id replica foreign) =
      inl (record { of_projection = refl; of_queue = refl; of_cursor = foreign })
  Reach-Holds same epoch _ (invalidated {s} topics r) = Reach-Holds same epoch s r
  Reach-Holds same epoch _ (published {s} values r small) =
      publish-Holds same epoch s values small (Reach-Holds same epoch s r)
  Reach-Holds same epoch _ (delivered {s} r) = deliver-Holds epoch s (Reach-Holds same epoch s r)
  Reach-Holds same epoch _ (reconnected {s} r) =
      reconnect-Holds epoch s (Reach-Holds same epoch s r)

  pub Reach-IsFollowed :
      {same : V → V → Bool} (epoch : Text) (s : System V)
      → Reach same epoch s
      → s.events.projection.initialized ≡ true
      → IsFollowed s.events.projection s.subscriber s.replica
  unfolding new_projection
  Reach-IsFollowed {same} epoch s r initialized = elim (Reach-Holds same epoch s r) [
    | inl h ↦ absurd (ground (arith, ap (λ q. q.initialized) h.of_projection))
    | inr h ↦ h
  ]

  -- An administrator who waits, whose queue is empty and for whom there is nothing behind its cursor,
  -- has the projection: its epoch, its revision and all of its values, with no update missed.
  pub Reach-current :
      {same : V → V → Bool} (epoch : Text) (s : System V)
      → Reach same epoch s
      → s.subscriber.queue ≡ []
      → s.events.projection.initialized ≡ true
      → after s.subscriber.cursor s.events.projection ≡ []
      → s.replica ≡ current s.events.projection
  unfolding apply_all
  Reach-current {same} epoch s r empty initialized caught_up =
      let h = Reach-IsFollowed epoch s r initialized in
      let catches =
        Follows-Catches s.events.projection s.subscriber.cursor s.replica s.subscriber.queue
          h.follows in
      ap (λ us. apply_all us s.replica) (sym caught_up) ∙ catches.complete
