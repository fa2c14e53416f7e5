-- ===== src/Server/AdminEvents/Queue.antt =====
-- The queue of a subscriber: after each update in it, what the subscriber has goes on to be followed.
use ostool.Prelude.{
  ℕ, suc, ◌+◌, ◌-◌, ◌^◌, ◌≤◌, ◌<◌, ◌≡◌, refl, sym, ap, ◌∙◌, inl, inr, true, Option, none, some,
  List, [], ◌∷◌, arith, ltb, leb, ltb→lt, lt→ltb, Bool-cases, and_true, length, Text, text_eq_iff,
  text_eq_refl,
}
use mathlib.Core.Path.{subst}
use ostool.Server.Outcome.{filter}
use ostool.Server.AdminEvents.{
  Update, Projection, append_update, is_later, is_replay, after, read_cursor, cursor_text,
}
use ostool.Server.AdminEvents.Subscribe.{Replica, apply, apply_all, current}
use ostool.Server.AdminEvents.Updates.{
  Numbered, IsLog, later, filter-later_all, filter-later_first, reaches_back-Numbered,
}
use ostool.Server.AdminEvents.Follow.{
  IsWithin, Catches, Catches-append_update, after_replay, read_cursor-cursor_text, not_past,
  reach_of,
}

module _ {V : Type 0} where
  abbrev pub cursor_of : Update V → Option Text
  cursor_of u = some (cursor_text u.epoch u.revision)

  -- Now, and after each update of the queue.
  abbrev pub Follows : Projection V → Option Text → Replica V → List (Update V) → Type 0
  Follows p cursor r [] = Catches p cursor r
  Follows p cursor r (u ∷ us) = Catches p cursor r × Follows p (cursor_of u) (apply u r) us

  pub Follows-Catches :
      (p : Projection V) (cursor : Option Text) (r : Replica V) (us : List (Update V))
      → Follows p cursor r us
      → Catches p cursor r
  Follows-Catches p cursor r [] h = h
  Follows-Catches p cursor r (u ∷ us) h = h.0

  pub Follows-append_update :
      (changes : List (Text × V)) (p : Projection V) (cursor : Option Text) (r : Replica V)
      (us : List (Update V))
      → IsLog p
      → Follows p cursor r us
      → Follows (append_update changes p) cursor r us
  Follows-append_update changes p cursor r [] log h = Catches-append_update changes p cursor r log h
  Follows-append_update changes p cursor r (u ∷ us) log h = (
    Catches-append_update changes p cursor r log h.0,
    Follows-append_update changes p (cursor_of u) (apply u r) us log h.1,
  )

  -- The cursor of an update of the history, or of a snapshot, is replayed.
  is_replay_log :
      (p : Projection V) (n : ℕ) (log : IsLog p)
      → p.revision < 2 ^ 64
      → n ≤ p.revision
      → log.first ≤ suc n
      → is_replay p (read_cursor (some (cursor_text p.epoch n))) ≡ true
  is_replay_log p n log small le reach =
      rw
        (
          read_cursor-cursor_text p.epoch n (omega arith),
          text_eq_refl p.epoch,
          not_past n p.revision le,
          reaches_back-Numbered p.epoch log.first n p.history log.numbered log.some_update,
          not_past (log.first - 1) n (omega arith),
        )
        refl

  after_log :
      (p : Projection V) (n : ℕ) (log : IsLog p)
      → p.revision < 2 ^ 64
      → n ≤ p.revision
      → log.first ≤ suc n
      → after (some (cursor_text p.epoch n)) p ≡ filter (later n) p.history
  after_log p n log small le reach =
      after_replay (some (cursor_text p.epoch n)) p (is_replay_log p n log small le reach)
      ∙ ap (λ x. filter (is_later x) p.history) (read_cursor-cursor_text p.epoch n (omega arith))

  IsWithin-log :
      (p : Projection V) (n : ℕ)
      → p.revision < 2 ^ 64
      → n ≤ p.revision
      → IsWithin p (read_cursor (some (cursor_text p.epoch n)))
  IsWithin-log p n small le =
      subst (IsWithin p) (sym (read_cursor-cursor_text p.epoch n (omega arith))) (λ e. le)

  -- The updates behind a revision of a history.
  pub record IsSuffix (epoch : Text) (end r : ℕ) (us kept : List (Update V)) : Type 0 where
    pub numbered : Numbered epoch (suc r) kept
    pub ends : suc r + length kept ≡ end
    pub keeps : (m : ℕ) → r ≤ m → filter (later m) us ≡ filter (later m) kept

  IsSuffix-whole :
      (epoch : Text) (n r : ℕ) (us : List (Update V))
      → Numbered epoch n us
      → n ≡ suc r
      → IsSuffix epoch (n + length us) r us us
  IsSuffix-whole epoch n r us h e = record {
    numbered = subst (λ k. Numbered epoch k us) e h;
    ends = omega arith;
    keeps = λ m le. refl;
  }

  filter-later-IsSuffix :
      (epoch : Text) (n r : ℕ) (us : List (Update V))
      → Numbered epoch n us
      → n ≤ suc r
      → r < n + length us
      → IsSuffix epoch (n + length us) r us (filter (later r) us)
  unfolding filter
  filter-later-IsSuffix epoch n r [] h le below = IsSuffix-whole epoch n r [] h (omega arith)
  filter-later-IsSuffix epoch n r (u ∷ us) h le below = elim (Bool-cases (ltb r n)) [
    | inl behind ↦
        let lt : r < n = ltb→lt r n behind in
        subst (IsSuffix epoch (n + suc (length us)) r (u ∷ us))
          (sym (filter-later_all epoch n r (u ∷ us) h lt))
          (IsSuffix-whole epoch n r (u ∷ us) h (omega arith))
    | inr before ↦
        let ge : n ≤ r = ground (arith, lt→ltb r n) in
        let tail = filter-later-IsSuffix epoch (suc n) r us h.1 (omega arith) (omega arith) in
        subst (IsSuffix epoch (n + suc (length us)) r (u ∷ us))
          (filter-later_first r u us (omega (arith, h.0.of_revision)))
          (record {
            numbered = tail.numbered;
            ends = omega (arith, tail.ends);
            keeps = λ m m_ge.
                sym (filter-later_first m u us (omega (arith, h.0.of_revision)))
                ∙ tail.keeps m m_ge;
          })
  ]

  Follows-suffix :
      (p : Projection V) (n : ℕ) (cursor : Option Text) (r : Replica V) (us : List (Update V))
      → (log : IsLog p) → p.revision < 2 ^ 64
      → IsSuffix p.epoch (suc p.revision) n p.history us
      → log.first ≤ suc n
      → IsWithin p (read_cursor cursor)
      → after cursor p ≡ us
      → apply_all us r ≡ current p
      → Follows p cursor r us
  unfolding apply_all
  Follows-suffix p n cursor r [] log small suffix reach within given complete = record {
    within = within;
    complete = ap (λ us. apply_all us r) given ∙ complete;
  }
  Follows-suffix p n cursor r (u ∷ us) log small suffix reach within given complete =
      let here : u.revision ≡ suc n = suffix.numbered.0.of_revision in
      let le : suc n ≤ p.revision = omega (arith, suffix.ends) in
      let back : log.first ≤ suc (suc n) = omega arith in
      let cursor_is : cursor_of u ≡ some (cursor_text p.epoch (suc n)) =
        ap (λ e. some (cursor_text e u.revision)) (suffix.numbered.0.of_epoch)
        ∙ ap (λ k. some (cursor_text p.epoch k)) here in
      let next : after (cursor_of u) p ≡ us =
        ap (λ c. after c p) cursor_is
        ∙ after_log p (suc n) log small le back
        ∙ suffix.keeps (suc n) (omega arith)
        ∙ sym (filter-later_first (suc n) u us (omega arith))
        ∙ filter-later_all p.epoch (suc (suc n)) (suc n) us suffix.numbered.1 (omega arith) in
      let still : IsWithin p (read_cursor (cursor_of u)) =
        subst (λ c. IsWithin p (read_cursor c)) (sym cursor_is) (IsWithin-log p (suc n) small le) in
      (
        record { within = within; complete = ap (λ vs. apply_all vs r) given ∙ complete },
        Follows-suffix p (suc n) (cursor_of u) (apply u r) us log small
            (record {
              numbered = suffix.numbered.1;
              ends = omega (arith, suffix.ends);
              keeps = λ m le_m.
                  suffix.keeps m (omega arith) ∙ sym (filter-later_first m u us (omega arith));
            })
            back still next complete,
      )

  history-IsSuffix :
      (p : Projection V) (n : ℕ) (log : IsLog p)
      → n ≤ p.revision
      → log.first ≤ suc n
      → IsSuffix p.epoch (suc p.revision) n p.history (filter (later n) p.history)
  history-IsSuffix p n log le reach =
      subst (λ end. IsSuffix p.epoch end n p.history (filter (later n) p.history)) log.ends
        (filter-later-IsSuffix p.epoch log.first n p.history log.numbered reach
          (omega (arith, log.ends)))

  no_length : (us : List (Update V)) → length us ≡ 0 → us ≡ []
  no_length [] h = refl
  no_length (u ∷ us) h = absurd (omega arith)

  -- Behind the projection's own revision there is nothing.
  Catches-current :
      (p : Projection V)
      → IsLog p
      → p.revision < 2 ^ 64
      → Catches p (some (cursor_text p.epoch p.revision)) (current p)
  unfolding apply_all
  Catches-current p log small =
      let le : p.revision ≤ p.revision = omega arith in
      let reach : log.first ≤ suc p.revision = omega (arith, log.ends) in
      let suffix = history-IsSuffix p p.revision log le reach in
      record {
        within = IsWithin-log p p.revision small le;
        complete =
            ap (λ us. apply_all us (current p))
              (after_log p p.revision log small le reach
                ∙ no_length (filter (later p.revision) p.history) (omega (arith, suffix.ends)));
      }

  fill_replay :
      (p : Projection V) (cursor : Option Text) (x : Option (Text × ℕ)) (r : Replica V)
      (log : IsLog p)
      → p.revision < 2 ^ 64
      → IsWithin p x
      → is_replay p x ≡ true
      → after cursor p ≡ filter (is_later x) p.history
      → Catches p cursor r
      → Follows p cursor r (after cursor p)
  fill_replay p cursor none r log small within replay given h = absurd (ground arith)
  fill_replay p cursor (some (epoch, n)) r log small within replay given h =
      let here = and_true replay in
      let le : n ≤ p.revision = within ((text_eq_iff epoch p.epoch).0 here.0) in
      let far : leb (log.first - 1) n ≡ true =
        sym (reaches_back-Numbered p.epoch log.first n p.history log.numbered log.some_update)
        ∙ (and_true here.1).1 in
      let reach : log.first ≤ suc n = reach_of log.first n far in
      Follows-suffix p n cursor r (after cursor p) log small
        (subst (IsSuffix p.epoch (suc p.revision) n p.history) (sym given)
          (history-IsSuffix p n log le reach))
        reach h.within refl h.complete

  -- A queue that has just been filled.
  pub after-Follows :
      (p : Projection V) (cursor : Option Text) (r : Replica V)
      → IsLog p
      → p.revision < 2 ^ 64
      → Catches p cursor r
      → Follows p cursor r (after cursor p)
  unfolding after apply
  after-Follows p cursor r log small h = elim (Bool-cases (is_replay p (read_cursor cursor))) [
    | inl replay ↦
        fill_replay p cursor (read_cursor cursor) r log small h.within replay
          (after_replay cursor p replay) h
    | inr none_kept ↦ rw none_kept (h, Catches-current p log small)
  ]
