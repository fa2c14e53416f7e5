-- ===== src/Server/AdminEvents/Follow.antt =====
-- A subscriber follows the projection: what it has, with what it will be given, is the projection.
use ostool.Prelude.{
  ℕ, suc, ◌-◌, ◌^◌, ◌≤◌, ◌<◌, ◌≡◌, ◌≢◌, refl, sym, ap, ◌∙◌, inl, inr, true, false, Option, none,
  some, List, [], ◌∷◌, ◌++◌, arith, leb, ==_refl, Bool-cases, and_true, All, Text, text_eq_iff,
  text_eq_refl,
}
use ostool.Prelude.Decimal.{
  decimal, parse_u64-decimal, rsplit_once-append, decimal-IsDigit, IsDigit,
}
use ostool.Server.Outcome.{filter}
use ostool.Server.AdminEvents.{
  Update, Projection, append_update, reaches_back, is_later, is_replay, after, read_cursor,
  cursor_text, colon,
}
use ostool.Server.AdminEvents.Subscribe.{Replica, apply, apply_all, current}
use ostool.Server.AdminEvents.Updates.{
  IsLog, filter-append, reaches_back-Numbered, update_of, history-IsKept,
}

not_colon : (digits : Text) → All IsDigit digits → All (λ c. c ≢ colon) digits
not_colon [] h = tt
not_colon (c ∷ cs) h = (ground (arith, h.0), not_colon cs h.1)

-- A cursor is read as what it was written for, whatever the text of the epoch.
pub read_cursor-cursor_text :
    (epoch : Text) (revision : ℕ)
    → revision < 2 ^ 64
    → read_cursor (some (cursor_text epoch revision)) ≡ some (epoch, revision)
unfolding read_cursor
read_cursor-cursor_text epoch revision small =
    rw
      (
        rsplit_once-append colon epoch (decimal revision)
            (not_colon (decimal revision) (decimal-IsDigit revision)),
        parse_u64-decimal revision small,
      )
      refl

back_further : (m n r : ℕ) → m ≤ n → leb (n - 1) r ≡ true → leb (m - 1) r ≡ true
back_further m n r le h = ground arith

pub not_past : (m n : ℕ) → m ≤ n → leb m n ≡ true
not_past m n le = ground arith

pub reach_of : (n r : ℕ) → leb (n - 1) r ≡ true → n ≤ suc r
reach_of n r h = ground arith

below_suc : {m n : ℕ} → m ≤ n → m < suc n
below_suc {m} {n} le = omega arith

module _ {V : Type 0} where
  pub apply_all-append :
      (us : List (Update V)) (u : Update V) (r : Replica V)
      → apply_all (us ++ (u ∷ [])) r ≡ apply u (apply_all us r)
  unfolding apply_all
  apply_all-append [] u r = refl
  apply_all-append (v ∷ us) u r = apply_all-append us u (apply v r)

  -- A cursor of this epoch is not past the projection.
  abbrev pub IsWithin : Projection V → Option (Text × ℕ) → Type 0
  IsWithin p none = Unit
  IsWithin p (some (epoch, revision)) = epoch ≡ p.epoch → revision ≤ p.revision

  -- With the updates behind its cursor the replica has everything.
  pub record Catches (p : Projection V) (cursor : Option Text) (r : Replica V) : Type 0 where
    pub within : IsWithin p (read_cursor cursor)
    pub complete : apply_all (after cursor p) r ≡ current p

  apply_update-current :
      (changes : List (Text × V)) (p : Projection V)
      → apply (update_of changes p) (current p) ≡ current (append_update changes p)
  unfolding apply append_update
  apply_update-current changes p = rw (text_eq_refl p.epoch, ==_refl (suc p.revision)) refl

  pub after_snapshot :
      (cursor : Option Text) (p : Projection V) (r : Replica V)
      → is_replay p (read_cursor cursor) ≡ false
      → apply_all (after cursor p) r ≡ current p
  unfolding after apply_all apply
  after_snapshot cursor p r none_kept = rw none_kept refl

  is_replay_back :
      (changes : List (Text × V)) (p : Projection V)
      → IsLog p
      → (x : Option (Text × ℕ)) → IsWithin p x
      → is_replay (append_update changes p) x ≡ true
      → (is_replay p x ≡ true)
        × (filter (is_later x) (append_update changes p).history
            ≡ filter (is_later x) p.history ++ (update_of changes p ∷ []))
  unfolding append_update
  is_replay_back changes p log none within replay = absurd (ground arith)
  is_replay_back changes p log (some (epoch, revision)) within replay =
      let kept = history-IsKept changes p log in
      let here = and_true replay in
      let back = and_true here.1 in
      let same : epoch ≡ p.epoch = (text_eq_iff epoch p.epoch).0 here.0 in
      let at_most : revision ≤ p.revision = within same in
      let far : leb (kept.first - 1) revision ≡ true =
        sym (reaches_back-Numbered p.epoch kept.first revision _ kept.numbered kept.some_update)
        ∙ back.1 in
      let reaches : reaches_back revision p.history ≡ true =
        reaches_back-Numbered p.epoch log.first revision p.history log.numbered log.some_update
        ∙ back_further log.first kept.first revision kept.starts far in
      (
        rw (here.0, not_past revision p.revision at_most, reaches) refl,
        kept.keeps revision (reach_of kept.first revision far)
            ∙ filter-append revision p.history (update_of changes p) (below_suc at_most),
      )

  pub after_replay :
      (cursor : Option Text) (p : Projection V)
      → is_replay p (read_cursor cursor) ≡ true
      → after cursor p ≡ filter (is_later (read_cursor cursor)) p.history
  unfolding after
  after_replay cursor p replay = rw replay refl

  IsWithin-append_update :
      (changes : List (Text × V)) (p : Projection V) (x : Option (Text × ℕ))
      → IsWithin p x
      → IsWithin (append_update changes p) x
  unfolding append_update
  IsWithin-append_update changes p none h = tt
  IsWithin-append_update changes p (some (epoch, revision)) h = λ e. omega (arith, h e)

  -- A publication, whether an administrator is replayed the history or given a snapshot.
  pub Catches-append_update :
      (changes : List (Text × V)) (p : Projection V) (cursor : Option Text) (r : Replica V)
      → IsLog p
      → Catches p cursor r
      → Catches (append_update changes p) cursor r
  Catches-append_update changes p cursor r log h = record {
    within = IsWithin-append_update changes p (read_cursor cursor) h.within;
    complete = elim (Bool-cases (is_replay (append_update changes p) (read_cursor cursor))) [
      | inl replay ↦
          let back = is_replay_back changes p log (read_cursor cursor) h.within replay in
          ap (λ us. apply_all us r)
            (after_replay cursor (append_update changes p) replay
              ∙ back.1
              ∙ ap (λ us. us ++ (update_of changes p ∷ [])) (sym (after_replay cursor p back.0)))
          ∙ apply_all-append (after cursor p) (update_of changes p) r
          ∙ ap (apply (update_of changes p)) h.complete
          ∙ apply_update-current changes p
      | inr none_kept ↦ after_snapshot cursor (append_update changes p) r none_kept
    ];
  }
