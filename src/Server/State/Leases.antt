-- ===== src/Server/State/Leases.antt =====
-- Theorems on the leases of state.rs.
use ostool.Prelude.{
  ℕ, true, false, none, some, Text, text_eq, text_eq_iff, ◌≡◌, ap, ◌∙◌, sym, ◌↔◌, ◌≢◌, ◌⊎◌, inl,
  inr, arith, Bool-cases, Option-cases,
}
use mathlib.Core.Path.{subst}
use mathlib.Core.Option.{some-injective}
use ostool.Prelude.Map.{lookup, modify}
use ostool.Prelude.Map.Modify.{lookup-modify_cases}
use ostool.Server.State.{
  BoardRuntimeState, Runtimes, is_idle, is_using, is_releasing, owned_by, claimed,
  claim_board_for_session, transition_board_to_releasing, releasing,
}

-- The leases are consistent: a board is idle exactly when no session has it, and no session has two
-- boards.
pub record IsLeased (runtimes : Runtimes) : Type 0 where
  pub idle_iff :
      (board_id : Text) (r : BoardRuntimeState)
      → lookup board_id runtimes ≡ some r
      → (is_idle r.lease_state ≡ true) ↔ (r.active_session_id ≡ none)
  pub exclusive :
      (i j : Text) (r q : BoardRuntimeState) (id : Text)
      → lookup i runtimes ≡ some r
      → lookup j runtimes ≡ some q
      → r.active_session_id ≡ some id
      → q.active_session_id ≡ some id
      → i ≡ j

-- No board has the session.
abbrev pub IsFresh : Text → Runtimes → Type 0
IsFresh id runtimes =
    (i : Text) (r : BoardRuntimeState) → lookup i runtimes ≡ some r → r.active_session_id ≢ some id

module _ (k : Text) (f : BoardRuntimeState → BoardRuntimeState) (m : Runtimes)
    (v : BoardRuntimeState) (leased : IsLeased m) (e : lookup k m ≡ some v)
    (idles : (is_idle (f v).lease_state ≡ true) ↔ ((f v).active_session_id ≡ none))
    (kept : (id : Text)
      → (f v).active_session_id ≡ some id
      → (v.active_session_id ≡ some id) ⊎ IsFresh id m) where
  -- The changed board and another do not have the same session.
  changed_alone :
      (j : Text) (q : BoardRuntimeState) (id : Text)
      → lookup j m ≡ some q
      → (f v).active_session_id ≡ some id
      → q.active_session_id ≡ some id
      → k ≡ j
  changed_alone j q id g a b = elim (kept id a) [
    | inl same ↦ leased.exclusive k j v q id e g same b
    | inr fresh ↦ absurd (fresh j q g b)
  ]

  pub IsLeased-modify : IsLeased (modify k f m)
  IsLeased-modify = record {
    idle_iff = λ j. λ r. λ g. elim (lookup-modify_cases k j f m r v e g) [
      | inl (p, s) ↦
          subst (λ r. (is_idle r.lease_state ≡ true) ↔ (r.active_session_id ≡ none)) (sym s) idles
      | inr (n, o) ↦ leased.idle_iff j r o
    ];
    exclusive = λ i. λ j. λ r. λ q. λ id. λ g. λ h. λ a. λ b.
        elim (lookup-modify_cases k i f m r v e g) [
          | inl (p, s) ↦ elim (lookup-modify_cases k j f m q v e h) [
            | inl (t, u) ↦ sym p ∙ t
            | inr (n, o) ↦
                sym p ∙ changed_alone j q id o (sym (ap (λ r. r.active_session_id) s) ∙ a) b
          ]
          | inr (n, o) ↦ elim (lookup-modify_cases k j f m q v e h) [
            | inl (t, u) ↦
                sym (changed_alone i r id o (sym (ap (λ r. r.active_session_id) u) ∙ b) a) ∙ t
            | inr (l, w) ↦ leased.exclusive i j r q id o w a b
          ]
        ];
  }

-- A claim succeeds exactly on a board that has an idle runtime; then only that board's runtime
-- changes. It fails otherwise, and changes nothing.
pub claim_board_for_session_cases :
    (now : ℕ) (board_id session_id : Text) (runtimes : Runtimes)
    → ((r : BoardRuntimeState) × ((lookup board_id runtimes ≡ some r)
          × ((is_idle r.lease_state ≡ true)
              × (claim_board_for_session now board_id session_id runtimes
                  ≡ (true, modify board_id (claimed now session_id) runtimes)))))
      ⊎ (claim_board_for_session now board_id session_id runtimes ≡ (false, runtimes))
unfolding claim_board_for_session
claim_board_for_session_cases now board_id session_id runtimes =
    elim (Option-cases (lookup board_id runtimes)) [
      | inl n ↦ inr (ground (arith))
      | inr (r, e) ↦ elim (Bool-cases (is_idle r.lease_state)) [
        | inl i ↦ inl (r, (e, (i, ground (arith))))
        | inr b ↦ inr (ground (arith))
      ]
    ]

pub claim_board_for_session-IsLeased :
    (now : ℕ) (board_id session_id : Text) (runtimes : Runtimes)
    → IsLeased runtimes
    → IsFresh session_id runtimes
    → IsLeased (claim_board_for_session now board_id session_id runtimes).1
unfolding claimed is_idle
claim_board_for_session-IsLeased now board_id session_id runtimes leased fresh =
    elim (claim_board_for_session_cases now board_id session_id runtimes) [
      | inl (r, (e, (i, c))) ↦
          subst (λ p. IsLeased p.1) (sym c)
            (IsLeased-modify board_id (claimed now session_id) runtimes r leased e (ground (arith))
              λ id. λ a. inr (subst (λ s. IsFresh s runtimes) (some-injective _ _ a) fresh))
      | inr c ↦ subst (λ p. IsLeased p.1) (sym c) leased
    ]

abbrev pub set_releasing : ℕ → BoardRuntimeState → BoardRuntimeState
set_releasing now r = record r { lease_state = releasing; updated_at = now }

-- The transition changes at most the runtime of a board that the session is using.
pub transition_board_to_releasing_cases :
    (now : ℕ) (board_id session_id : Text) (runtimes : Runtimes)
    → ((r : BoardRuntimeState) × ((lookup board_id runtimes ≡ some r)
          × ((r.active_session_id ≡ some session_id)
              × ((transition_board_to_releasing now board_id session_id runtimes).1
                  ≡ modify board_id (set_releasing now) runtimes))))
      ⊎ ((transition_board_to_releasing now board_id session_id runtimes).1 ≡ runtimes)
unfolding transition_board_to_releasing owned_by
transition_board_to_releasing_cases now board_id session_id runtimes =
    elim (Option-cases (lookup board_id runtimes)) [
      | inl n ↦ inr (ground (arith))
      | inr (r, e) ↦ elim (Option-cases r.active_session_id) [
        | inl n ↦ inr (ground (arith))
        | inr (id, a) ↦ elim (Bool-cases (text_eq id session_id)) [
          | inl same ↦ elim (Bool-cases (is_using r.lease_state)) [
            | inl u ↦ elim (Bool-cases (is_releasing r.lease_state)) [
              | inl l ↦ inr (ground (arith))
              | inr l ↦
                  inl (r, (e, (a ∙ ap some ((text_eq_iff id session_id).0 same), ground (arith))))
            ]
            | inr u ↦ inr (ground (arith))
          ]
          | inr other ↦ inr (ground (arith))
        ]
      ]
    ]
