-- ===== src/Server/System/Placed.antt =====
-- The step that leases a board to a new session.
use ostool.Prelude.{
  ◌≡◌, ◌≢◌, ◌⊎◌, refl, sym, ap, ◌∙◌, inl, inr, true, Option, none, some, List, arith, if◌then◌else◌,
  Bool-cases, Text, text_eq, text_eq_iff,
}
use mathlib.Core.Path.{subst}
use mathlib.Core.Option.{some-injective}
use ostool.Prelude.Map.{
  lookup, insert, modify, contains_key, lookup-insert, lookup-modify_self, lookup-modify_ne,
}
use ostool.Prelude.Map.Modify.{lookup-modify_cases, lookup-modify-some}
use ostool.Server.BoardPool.{BoardConfig}
use ostool.Server.Session.{SessionState, new_inner, new_with_id}
use ostool.Server.State.{
  AppState, BoardRuntimeState, Runtimes, is_idle, claimed, claim_board_for_session,
}
use ostool.Server.State.Leases.{IsLeased, IsFresh, claim_board_for_session-IsLeased}
use ostool.Server.State.Create.{Turn, new_session}
use ostool.Server.State.Create.Ends.{placed}
use ostool.Server.System.Consistent.{IsConsistent, Holds, Attached}

module _ (t : Turn) (board : BoardConfig) (client_name : Option Text) (s : AppState)
    (c : IsConsistent s) (fresh : lookup t.session_id s.sessions ≡ none) (r : BoardRuntimeState)
    (e : lookup board.id s.board_runtimes ≡ some r) (free : is_idle r.lease_state ≡ true) where
  abbrev leased_runtimes : Runtimes
  leased_runtimes = modify board.id (claimed t.now t.session_id) s.board_runtimes

  nobody : r.active_session_id ≡ none
  nobody = (c.leased.idle_iff board.id r e).0 free

  IsFresh-lease : IsFresh t.session_id s.board_runtimes
  IsFresh-lease k q f g = let (x, old) = c.owned k t.session_id (q, f, g) in absurd (cc)

  IsLeased-after : IsLeased leased_runtimes
  IsLeased-after =
      subst (λ p. IsLeased p.1) claims
        (claim_board_for_session-IsLeased t.now board.id t.session_id s.board_runtimes c.leased
          IsFresh-lease)
    where
      claims :
          claim_board_for_session t.now board.id t.session_id s.board_runtimes
          ≡ (true, leased_runtimes)
      claims = unfold claim_board_for_session in ground arith

  -- The board of another session is another board.
  other_board : (k j : Text) → Holds k j s.board_runtimes → board.id ≢ k
  other_board k j (q, f, g) p =
      let same : lookup k s.board_runtimes ≡ some r =
        subst (λ i. lookup i s.board_runtimes ≡ some r) p e in
      cc (nobody)

  Holds-elsewhere : (k j : Text) → Holds k j s.board_runtimes → Holds k j leased_runtimes
  Holds-elsewhere k j h = (
    h.0,
    lookup-modify_ne board.id k (claimed t.now t.session_id) s.board_runtimes (other_board k j h)
        ∙ h.1,
    h.2,
  )

  new-Attached : Attached t.session_id (new_session t board client_name) leased_runtimes
  unfolding new_session new_inner new_with_id claimed
  new-Attached = (
    refl,
    refl,
    (
      claimed t.now t.session_id r,
      lookup-modify_self board.id (claimed t.now t.session_id) s.board_runtimes e,
      refl,
    ),
  )

  new_sessions : List (Text × SessionState)
  new_sessions = insert t.session_id (new_session t board client_name) s.sessions

  lookup-new_sessions :
      (j : Text)
      → lookup j new_sessions ≡ (
          if text_eq t.session_id j
          then some (new_session t board client_name)
          else lookup j s.sessions)
  unfolding new_sessions
  lookup-new_sessions j = lookup-insert t.session_id j (new_session t board client_name) s.sessions

  -- A session of the new map is the new one or an old one.
  new_session_cases :
      (j : Text) (x : SessionState)
      → lookup j new_sessions ≡ some x
      → ((t.session_id ≡ j) × (new_session t board client_name ≡ x))
        ⊎ (lookup j s.sessions ≡ some x)
  new_session_cases j x f = elim (Bool-cases (text_eq t.session_id j)) [
    | inl same ↦ inl (
      (text_eq_iff t.session_id j).0 same,
      some-injective _ _ (sym (rw same at (lookup-new_sessions j)) ∙ f),
    )
    | inr other ↦ inr (sym (rw other at (lookup-new_sessions j)) ∙ f)
  ]

  present :
      (j : Text) (x : SessionState)
      → lookup j s.sessions ≡ some x
      → (y : SessionState) × (lookup j new_sessions ≡ some y)
  present j x f = elim (Bool-cases (text_eq t.session_id j)) [
    | inl same ↦ (new_session t board client_name, rw same at (lookup-new_sessions j))
    | inr other ↦ (x, rw other at (lookup-new_sessions j) ∙ f)
  ]

  owned_after :
      (k j : Text)
      → Holds k j leased_runtimes
      → (x : SessionState) × (lookup j new_sessions ≡ some x)
  unfolding claimed
  owned_after k j (q, f, g) =
      elim (lookup-modify_cases board.id k (claimed t.now t.session_id) s.board_runtimes q r e f) [
        | inl (p, h) ↦ (
          new_session t board client_name,
          rw
              ((text_eq_iff t.session_id j).1
                (some-injective _ _ (sym (ap (λ x. x.active_session_id) h) ∙ g)))
              at (lookup-new_sessions j),
        )
        | inr (n, old) ↦ let (x, l) = c.owned k j (q, old, g) in present j x l
      ]

  pub placed-IsConsistent : IsConsistent (placed t board client_name s)
  unfolding placed new_sessions
  placed-IsConsistent = record {
    inventory = record {
      sorted = c.inventory.sorted;
      keyed = c.inventory.keyed;
      runtime = λ k b f.
          let (q, g) = c.inventory.runtime k b f in
          lookup-modify-some board.id k (claimed t.now t.session_id) s.board_runtimes g;
    };
    listed = λ k q f.
        elim (lookup-modify_cases board.id k (claimed t.now t.session_id) s.board_runtimes q r e
          f) [
            | inl (p, h) ↦ subst (λ i. contains_key i s.boards ≡ true) p (c.listed board.id r e)
            | inr (n, old) ↦ c.listed k q old
          ];
    leased = IsLeased-after;
    attached = λ j x f. elim (new_session_cases j x f) [
      | inl (p, q) ↦
          subst (λ i. Attached i x leased_runtimes) p
            (subst (λ y. Attached t.session_id y leased_runtimes) q new-Attached)
      | inr old ↦ let (i, k, h) = c.attached j x old in (i, k, Holds-elsewhere x.board.id j h)
    ];
    owned = owned_after;
  }
