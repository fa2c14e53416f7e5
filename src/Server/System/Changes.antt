-- ===== src/Server/System/Changes.antt =====
-- The steps that lease a board, give one back, or change the inventory.
use ostool.Prelude.{
  ℕ, ◌≡◌, ◌≢◌, sym, ap, ◌∙◌, inl, inr, true, some, List, arith, Bool-cases, Text, text_eq,
  text_eq_iff,
}
use mathlib.Core.Path.{subst}
use mathlib.Core.Option.{some-injective}
use ostool.Prelude.Map.{lookup, remove, modify, contains_key, lookup-remove, lookup-modify_ne}
use ostool.Prelude.Map.Modify.{lookup-modify_cases, lookup-modify-some}
use ostool.Server.State.{AppState, BoardRuntimeState, Runtimes, default}
use ostool.Server.State.Transitions.{default-IsLeased}
use ostool.Server.System.Consistent.{IsConsistent, Holds}

-- What stands in the map under a key that is not the removed one.
lookup-remove-some :
    {V : Type 0} (k j : Text) (m : List (Text × V)) {v : V}
    → lookup j (remove k m) ≡ some v
    → (k ≢ j) × (lookup j m ≡ some v)
lookup-remove-some k j m {v} e = elim (Bool-cases (text_eq k j)) [
  | inl same ↦ absurd (ground (arith, lookup-remove k j m))
  | inr other ↦ (ground (arith, text_eq_iff k j), ground (arith, lookup-remove k j m))
]

lookup-remove_ne :
    {V : Type 0} (k j : Text) (m : List (Text × V)) → k ≢ j → lookup j (remove k m) ≡ lookup j m
lookup-remove_ne k j m n = ground (arith, lookup-remove k j m, text_eq_iff k j)

module _ (now : ℕ) (b id : Text) (s : AppState) (c : IsConsistent s) (r : BoardRuntimeState)
    (e : lookup b s.board_runtimes ≡ some r) (a : r.active_session_id ≡ some id) where
  abbrev released : Runtimes
  released = modify b (λ x. default now) s.board_runtimes

  -- A holder after the release is not the released session, and not on its board.
  Holds-released : (k j : Text) → Holds k j released → (b ≢ k) × Holds k j s.board_runtimes
  unfolding default
  Holds-released k j (q, f, g) =
      elim (lookup-modify_cases b k (λ x. default now) s.board_runtimes q r e f) [
        | inl (p, h) ↦ absurd (cc)
        | inr (n, old) ↦ (n, (q, old, g))
      ]

  Holds-elsewhere : (k j : Text) → id ≢ j → Holds k j s.board_runtimes → Holds k j released
  Holds-elsewhere k j n (q, f, g) =
      (q, lookup-modify_ne b k (λ x. default now) s.board_runtimes apart ∙ f, g)
    where
      apart : b ≢ k
      apart p = n (
          some-injective _ _ (
            sym a
            ∙ ap (λ x. x.active_session_id)
                (some-injective _ _ (sym (subst (λ i. lookup i s.board_runtimes ≡ some r) p e) ∙ f))
            ∙ g))

  pub released-IsConsistent :
      IsConsistent (record s { board_runtimes = released; sessions = remove id s.sessions })
  released-IsConsistent = record {
    inventory = record {
      sorted = c.inventory.sorted;
      keyed = c.inventory.keyed;
      runtime = λ k board f.
          let (q, g) = c.inventory.runtime k board f in
          lookup-modify-some b k (λ x. default now) s.board_runtimes g;
    };
    listed = λ k q f. elim (lookup-modify_cases b k (λ x. default now) s.board_runtimes q r e f) [
      | inl (p, h) ↦ subst (λ i. contains_key i s.boards ≡ true) p (c.listed b r e)
      | inr (n, old) ↦ c.listed k q old
    ];
    leased = default-IsLeased now b s.board_runtimes r c.leased e;
    attached = λ j x f.
        let (n, old) = lookup-remove-some id j s.sessions f in
        let (i, k, h) = c.attached j x old in (i, k, Holds-elsewhere x.board.id j n h);
    owned = λ k j h.
        let (n, held) = Holds-released k j h in
        let (x, old) = c.owned k j held in
        (x, lookup-remove_ne id j s.sessions (kept k j n held.0 held.1 held.2) ∙ old);
  }
    where
      kept :
          (k j : Text)
          → b ≢ k
          → (q : BoardRuntimeState) → lookup k s.board_runtimes ≡ some q
          → q.active_session_id ≡ some j
          → id ≢ j
      kept k j n q f g p = n (c.leased.exclusive b k r q id e f a (g ∙ ap some (sym p)))
