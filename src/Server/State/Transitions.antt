-- ===== src/Server/State/Transitions.antt =====
-- The releases, the errors and the inventory: what they leave true of the leases of state.rs.
use ostool.Prelude.{
  ℕ, ◌≡◌, ◌↔◌, ◌⊎◌, refl, sym, ap, ◌∙◌, inl, inr, true, false, none, some, [], ◌∷◌, arith,
  if◌then◌else◌, Bool-cases, Option-cases, Text, text_eq, text_eq_iff,
}
use mathlib.Core.Path.{subst}
use ostool.Prelude.Map.{
  lookup, insert, remove, modify, contains_key, IsUnique, lookup-insert, lookup-remove,
  contains_key-cons,
}
use ostool.Server.BoardPool.{Boards}
use ostool.Server.State.{
  BoardRuntimeState, Runtimes, default, is_idle, owned_by, sync_board_runtime_states, sync_loop,
  unwrap_or, transition_board_to_releasing, mark_board_error, error,
}
use ostool.Server.State.Leases.{
  IsLeased, IsLeased-modify, transition_board_to_releasing_cases, set_releasing,
}

-- A change that keeps a session's board its own, in a state that is not idle.
IsLeased-modify_kept :
    (k : Text) (f : BoardRuntimeState → BoardRuntimeState) (m : Runtimes) (v : BoardRuntimeState)
    (id : Text)
    → IsLeased m
    → lookup k m ≡ some v
    → v.active_session_id ≡ some id
    → (f v).active_session_id ≡ some id
    → is_idle (f v).lease_state ≡ false
    → IsLeased (modify k f m)
IsLeased-modify_kept k f m v id leased e a b c =
    IsLeased-modify k f m v leased e (ground arith) (λ other p. inl (a ∙ sym b ∙ p))

pub transition_board_to_releasing-IsLeased :
    (now : ℕ) (board_id session_id : Text) (m : Runtimes)
    → IsLeased m
    → IsLeased (transition_board_to_releasing now board_id session_id m).1
unfolding is_idle
transition_board_to_releasing-IsLeased now board_id session_id m leased =
    elim (transition_board_to_releasing_cases now board_id session_id m) [
      | inl (r, (e, (a, c))) ↦
          subst IsLeased (sym c)
            (IsLeased-modify_kept board_id (set_releasing now) m r session_id leased e a a refl)
      | inr c ↦ subst IsLeased (sym c) leased
    ]

abbrev pub set_error : ℕ → Text → BoardRuntimeState → BoardRuntimeState
set_error now message r = record r {
  lease_state = error;
  last_release_error = some message;
  updated_at = now;
}

pub mark_board_error_cases :
    (now : ℕ) (board_id session_id message : Text) (m : Runtimes)
    → ((r : BoardRuntimeState) × (lookup board_id m ≡ some r)
        × (r.active_session_id ≡ some session_id)
        × ((mark_board_error now board_id session_id message m).1
            ≡ modify board_id (set_error now message) m))
      ⊎ ((mark_board_error now board_id session_id message m).1 ≡ m)
unfolding mark_board_error owned_by
mark_board_error_cases now board_id session_id message m = elim (Option-cases (lookup board_id m)) [
  | inl n ↦ inr (ground arith)
  | inr (r, e) ↦ elim (Option-cases r.active_session_id) [
    | inl n ↦ inr (ground arith)
    | inr (id, a) ↦ elim (Bool-cases (text_eq id session_id)) [
      | inl same ↦ inl (r, e, a ∙ ap some ((text_eq_iff id session_id).0 same), ground arith)
      | inr other ↦ inr (ground arith)
    ]
  ]
]

pub mark_board_error-IsLeased :
    (now : ℕ) (board_id session_id message : Text) (m : Runtimes)
    → IsLeased m
    → IsLeased (mark_board_error now board_id session_id message m).1
unfolding is_idle
mark_board_error-IsLeased now board_id session_id message m leased =
    elim (mark_board_error_cases now board_id session_id message m) [
      | inl (r, e, a, c) ↦
          subst IsLeased (sym c)
            (IsLeased-modify_kept board_id (set_error now message) m r session_id leased e a a refl)
      | inr c ↦ subst IsLeased (sym c) leased
    ]

-- The board is given back.
pub default-IsLeased :
    (now : ℕ) (board_id : Text) (m : Runtimes) (r : BoardRuntimeState)
    → IsLeased m
    → lookup board_id m ≡ some r
    → IsLeased (modify board_id (λ r. default now) m)
unfolding default is_idle
default-IsLeased now board_id m r leased e =
    IsLeased-modify board_id (λ r. default now) m r leased e (ground arith) (λ id a. absurd (cc))

-- What `sync_board_runtime_states` makes of a board's entry.
pub lookup-sync_loop :
    (now : ℕ) (j : Text) (boards : Boards) (runtimes next : Runtimes)
    → IsUnique boards
    → lookup j (sync_loop now boards runtimes next) ≡ (
        if contains_key j boards
        then some (unwrap_or (default now) (lookup j runtimes))
        else lookup j next)
unfolding sync_loop contains_key lookup
lookup-sync_loop now j [] runtimes next u = refl
lookup-sync_loop now j ((k, b) ∷ bs) runtimes next u = ground (
  arith,
  contains_key-cons k j b bs,
  text_eq_iff k j,
  lookup-sync_loop now j bs (remove k runtimes)
      (insert k (unwrap_or (default now) (lookup k runtimes)) next) u.1,
  lookup-remove k j runtimes,
  lookup-insert k j (unwrap_or (default now) (lookup k runtimes)) next,
)

-- After the inventory has changed, a board's runtime is the one that it had, or a fresh one if it
-- had none, and nothing else has a runtime.
pub lookup-sync_board_runtime_states :
    (now : ℕ) (j : Text) (boards : Boards) (runtimes : Runtimes)
    → IsUnique boards
    → lookup j (sync_board_runtime_states now boards runtimes)
      ≡ (if contains_key j boards then some (unwrap_or (default now) (lookup j runtimes)) else none)
unfolding sync_board_runtime_states lookup
lookup-sync_board_runtime_states now j boards runtimes u =
    lookup-sync_loop now j boards runtimes [] u

synced_entry :
    (now : ℕ) (j : Text) (boards : Boards) (runtimes : Runtimes) (r : BoardRuntimeState)
    → IsUnique boards
    → lookup j (sync_board_runtime_states now boards runtimes) ≡ some r
    → (lookup j runtimes ≡ some r) ⊎ (r ≡ default now)
synced_entry now j boards runtimes r u e = elim (Option-cases (lookup j runtimes)) [
  | inl n ↦ inr (ground (arith, lookup-sync_board_runtime_states now j boards runtimes u))
  | inr (q, f) ↦ inl (ground (arith, lookup-sync_board_runtime_states now j boards runtimes u))
]

-- A session in the synced map was in the old one.
pub synced_session :
    (now : ℕ) (j id : Text) (boards : Boards) (runtimes : Runtimes) (r : BoardRuntimeState)
    → IsUnique boards
    → lookup j (sync_board_runtime_states now boards runtimes) ≡ some r
    → r.active_session_id ≡ some id
    → lookup j runtimes ≡ some r
unfolding default
synced_session now j id boards runtimes r u e a = elim (synced_entry now j boards runtimes r u e) [
  | inl old ↦ old
  | inr fresh ↦ absurd (cc (ap (λ x. x.active_session_id) fresh))
]

pub sync_board_runtime_states-IsLeased :
    (now : ℕ) (boards : Boards) (runtimes : Runtimes)
    → IsUnique boards
    → IsLeased runtimes
    → IsLeased (sync_board_runtime_states now boards runtimes)
unfolding default is_idle
sync_board_runtime_states-IsLeased now boards runtimes u leased = record {
  idle_iff = λ j r e. elim (synced_entry now j boards runtimes r u e) [
    | inl old ↦ leased.idle_iff j r old
    | inr fresh ↦
        subst (λ r. (is_idle r.lease_state ≡ true) ↔ (r.active_session_id ≡ none)) (sym fresh)
          (ground arith)
  ];
  exclusive = λ i j r q id e f a b.
      leased.exclusive i j r q id (synced_session now i id boards runtimes r u e a)
        (synced_session now j id boards runtimes q u f b) a b;
}
