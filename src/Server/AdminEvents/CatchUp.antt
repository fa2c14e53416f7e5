-- ===== src/Server/AdminEvents/CatchUp.antt =====
-- How soon an administrator has the projection.
use ostool.Prelude.{
  ℕ, zero, suc, ◌+◌, ◌≤◌, ◌≡◌, refl, ap, ◌∙◌, inl, inr, Bool, true, Option, List, [], ◌∷◌, arith,
  Bool-cases, length, Text,
}
use ostool.Server.AdminEvents.{
  history_limit, AdminEvents, Update, Projection, is_replay, is_later, after, read_cursor,
}
use ostool.Server.AdminEvents.Subscribe.{next_update, Replica, apply, apply_all, current}
use ostool.Server.AdminEvents.Updates.{IsLog, filter-length_le}
use ostool.Server.AdminEvents.Follow.{Catches}
use ostool.Server.AdminEvents.Queue.{Follows, cursor_of}
use ostool.Server.AdminEvents.Reach.{
  System, deliver, deliver_times, deliver_ready, Reach, Reach-IsFollowed,
}

module _ {V : Type 0} where
  abbrev at : AdminEvents V → Option Text → List (Update V) → Replica V → System V
  at e cursor queue r = record {
    events = e;
    subscriber = record { cursor = cursor; queue = queue };
    replica = r;
  }

  deliver_times-add :
      (m n : ℕ) (s : System V) → deliver_times (m + n) s ≡ deliver_times n (deliver_times m s)
  unfolding deliver_times
  deliver_times-add zero n s =
      let none_more : zero + n ≡ n = omega arith in ap (λ k. deliver_times k s) none_more
  deliver_times-add (suc m) n s =
      let one_more : suc m + n ≡ suc (m + n) = omega arith in
      ap (λ k. deliver_times k s) one_more ∙ deliver_times-add m n (deliver s)

  -- As many turns as the queue has updates deliver the queue.
  drain :
      (e : AdminEvents V)
      → e.projection.initialized ≡ true
      → (cursor : Option Text) (us : List (Update V)) (r : Replica V)
      → (last : Option Text) × (deliver_times (length us) (at e cursor us r)
          ≡ at e last [] (apply_all us r))
        × (Follows e.projection cursor r us → Catches e.projection last (apply_all us r))
  unfolding deliver_times apply_all next_update
  drain e ready cursor [] r = (cursor, refl, λ h. h)
  drain e ready cursor (u ∷ us) r =
      let rest = drain e ready (cursor_of u) us (apply u r) in
      (
        rest.0,
        ap (deliver_times (length us)) (deliver_ready (at e cursor (u ∷ us) r) ready) ∙ rest.1,
        λ h. rest.2 h.1,
      )

  after-length :
      (cursor : Option Text) (p : Projection V) → IsLog p → length (after cursor p) ≤ history_limit
  unfolding after
  after-length cursor p log = elim (Bool-cases (is_replay p (read_cursor cursor))) [
    | inl replay ↦
        rw replay
          (omega (arith, filter-length_le (is_later (read_cursor cursor)) p.history, log.bounded))
    | inr none_kept ↦ rw none_kept (omega arith)
  ]

  refill :
      (e : AdminEvents V) (cursor : Option Text) (r : Replica V)
      → e.projection.initialized ≡ true
      → deliver_times 1 (at e cursor [] r) ≡ at e cursor (after cursor e.projection) r
  unfolding deliver_times next_update
  refill e cursor r ready = deliver_ready (at e cursor [] r) ready

  -- While nothing else is published, an administrator has the whole projection after as many turns of
  -- its stream as its queue has updates, one more and at most as many as the history is long.
  pub catch_up :
      {same : V → V → Bool} (epoch : Text) (s : System V)
      → Reach same epoch s
      → s.events.projection.initialized ≡ true
      → (n : ℕ) × (n ≤ length s.subscriber.queue + (1 + history_limit))
        × ((deliver_times n s).subscriber.queue ≡ [])
        × ((deliver_times n s).replica ≡ current s.events.projection)
  catch_up epoch s r initialized =
      let e = s.events in
      let queue = s.subscriber.queue in
      let h = Reach-IsFollowed epoch s r initialized in
      let first = drain e initialized s.subscriber.cursor queue s.replica in
      let catches = first.2 h.follows in
      let behind = after first.0 e.projection in
      let second = drain e initialized first.0 behind (apply_all queue s.replica) in
      let there : deliver_times (length queue + (1 + length behind)) s
          ≡ at e second.0 [] (apply_all behind (apply_all queue s.replica)) =
        deliver_times-add (length queue) (1 + length behind) s
        ∙ ap (deliver_times (1 + length behind)) first.1
        ∙ deliver_times-add 1 (length behind) (at e first.0 [] (apply_all queue s.replica))
        ∙ ap (deliver_times (length behind))
            (refill e first.0 (apply_all queue s.replica) initialized)
        ∙ second.1 in
      (
        length queue + (1 + length behind),
        omega (arith, after-length first.0 e.projection h.log),
        ap (λ t. t.subscriber.queue) there,
        ap (λ t. t.replica) there ∙ catches.complete,
      )
