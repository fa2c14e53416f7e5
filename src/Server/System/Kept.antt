-- ===== src/Server/System/Kept.antt =====
-- Every event and every call keeps the state consistent.
use ostool.Prelude.{
  ℕ, ◌≡◌, ◌⊎◌, refl, sym, ap, ◌∙◌, inl, inr, Bool, true, none, some, List, [], ◌∷◌, arith,
  Bool-cases, Option-cases, Text, text_eq, text_eq_iff,
}
use mathlib.Core.Path.{subst}
use ostool.Prelude.Map.{lookup, remove, modify, contains_key}
use ostool.Prelude.Map.Modify.{lookup-modify_cases, lookup-modify-some}
use ostool.Server.BoardPool.{BoardConfig}
use ostool.Server.Session.Laws.{perform}
use ostool.Server.State.{
  AppState, BoardRuntimeState, default, is_idle, owned_by, complete_session_release,
}
use ostool.Server.State.Create.{Turn, Attempt, create_session_inner}
use ostool.Server.State.Create.Ends.{KeepsIdle, Ends, refusal, success, create_session_inner-Ends}
use ostool.Server.System.{
  Event, heartbeats, stops, expires, acts, operates, fails, completes, happen, happen_all, Call,
  does, creates, adds_board, updates_board, deletes_board, Request, turn, step,
}
use ostool.Server.System.Consistent.{IsConsistent, Quiet, Quiet-IsConsistent}
use ostool.Server.System.Quiet.{Same-perform, Quiet-mark_board_error}
use ostool.Server.System.Sessions.{
  Quiet-modify, Quiet-heartbeat_session, Quiet-request_session_stop, Quiet-cleanup_expired_sessions,
  Quiet-run_session_actor,
}
use ostool.Server.System.Changes.{released-IsConsistent}
use ostool.Server.System.Placed.{placed-IsConsistent}
use ostool.Server.System.Inventories.{
  create_board-IsConsistent, update_board-IsConsistent, delete_board-IsConsistent,
}

-- What an event promises: the state stays consistent, and an idle board stays idle.
record Keeps (s s' : AppState) : Type 0 where
  consistent : IsConsistent s'
  idle_kept : KeepsIdle (λ _. s') s

Keeps-Quiet : {s s' : AppState} → Quiet s s' → IsConsistent s → Keeps s s'
Keeps-Quiet {s} {s'} quiet c = record {
  consistent = after;
  idle_kept = λ k r e free.
      let (q, f, a) = quiet.runtime_kept k r e in
      (q, f, (after.leased.idle_iff k q f).1 (a ∙ (c.leased.idle_iff k r e).0 free));
}
  where
    after : IsConsistent s'
    after = Quiet-IsConsistent quiet c

-- How the completion of a release ends.
complete_session_release_cases :
    (now : ℕ) (b id : Text) (s : AppState)
    → ((complete_session_release now b id s).1 ≡ s)
      ⊎ ((r : BoardRuntimeState) × (lookup b s.board_runtimes ≡ some r)
          × (r.active_session_id ≡ some id)
          × ((complete_session_release now b id s).1 ≡ record s {
            board_runtimes = modify b (λ x. default now) s.board_runtimes;
            sessions = remove id s.sessions;
          }))
unfolding complete_session_release owned_by
complete_session_release_cases now b id s = elim (Option-cases (lookup b s.board_runtimes)) [
  | inl n ↦ inl (ground arith)
  | inr (r, e) ↦ elim (Option-cases r.active_session_id) [
    | inl n ↦ inl (ground arith)
    | inr (j, a) ↦ elim (Bool-cases (text_eq j id)) [
      | inr other ↦ inl (ground arith)
      | inl same ↦ elim (Bool-cases (contains_key id s.sessions)) [
        | inr gone ↦ inl (ground arith)
        | inl there ↦ inr (r, e, a ∙ ap some ((text_eq_iff j id).0 same), ground arith)
      ]
    ]
  ]
]

default-idle : (now : ℕ) → is_idle (default now).lease_state ≡ true
unfolding default is_idle
default-idle now = refl

Keeps-complete :
    (now : ℕ) (b id : Text) (s : AppState)
    → IsConsistent s
    → Keeps s (complete_session_release now b id s).1
Keeps-complete now b id s c = elim (complete_session_release_cases now b id s) [
  | inl e ↦
      subst (Keeps s) (sym e) (record { consistent = c; idle_kept = λ k r f free. (r, f, free) })
  | inr (v, e, a, g) ↦ subst (Keeps s) (sym g) (record {
    consistent = released-IsConsistent now b id s c v e a;
    idle_kept = λ k r f free.
        let (q, h) = lookup-modify-some b k (λ x. default now) s.board_runtimes f in
        elim (lookup-modify_cases b k (λ x. default now) s.board_runtimes q v e h) [
          | inl (p, d) ↦
              (q, h, subst (λ x. is_idle x.lease_state ≡ true) (sym d) (default-idle now))
          | inr (n, old) ↦ (q, h, ground arith)
        ];
  })
]

happen-Keeps : (e : Event) (s : AppState) → IsConsistent s → Keeps s (happen e s)
unfolding happen
happen-Keeps (heartbeats now id) s c = Keeps-Quiet (Quiet-heartbeat_session now id s) c
happen-Keeps (stops id reason) s c = Keeps-Quiet (Quiet-request_session_stop id reason s) c
happen-Keeps (expires now) s c = Keeps-Quiet (Quiet-cleanup_expired_sessions now s) c
happen-Keeps (acts now id) s c = Keeps-Quiet (Quiet-run_session_actor now id s) c
happen-Keeps (operates id o) s c = Keeps-Quiet (Quiet-modify id (perform o) s (Same-perform o)) c
happen-Keeps (fails now board_id id message) s c =
    Keeps-Quiet (Quiet-mark_board_error now board_id id message s) c
happen-Keeps (completes now board_id id) s c = Keeps-complete now board_id id s c

Keeps-trans : {s t u : AppState} → Keeps s t → Keeps t u → Keeps s u
Keeps-trans first rest = record {
  consistent = rest.consistent;
  idle_kept = λ k r f free. let (q, g, i) = first.idle_kept k r f free in rest.idle_kept k q g i;
}

happen_all-Keeps : (es : List Event) (s : AppState) → IsConsistent s → Keeps s (happen_all es s)
unfolding happen_all
happen_all-Keeps [] s c = record { consistent = c; idle_kept = λ k r e free. (r, e, free) }
happen_all-Keeps (e ∷ es) s c =
    let first = happen-Keeps e s c in
    Keeps-trans first (happen_all-Keeps es (happen e s) first.consistent)

-- The identifier that `uuid` makes is no session's when the session is put into the map.
abbrev pub IsNew : Call → AppState → Type 0
IsNew (creates now session_id busy meanwhile r) s =
    lookup session_id (happen_all meanwhile s).sessions ≡ none
IsNew c s = Unit

creation-IsConsistent :
    (now : ℕ) (session_id : Text) (busy : BoardConfig → Bool) (meanwhile : List Event) (r : Request)
    (s : AppState)
    → IsConsistent s
    → lookup session_id (happen_all meanwhile s).sessions ≡ none
    → IsConsistent
        (create_session_inner
          (turn now session_id busy meanwhile ∷ [])
          r.board_type
          r.board_id
          r.required_tags
          r.client_name
          s).1
creation-IsConsistent now session_id busy meanwhile r s c new = ends (
    create_session_inner-Ends t [] r.board_type r.board_id r.required_tags r.client_name s
      c.inventory kept.idle_kept)
  where
    t : Turn
    t = turn now session_id busy meanwhile

    kept : Keeps s (happen_all meanwhile s)
    kept = happen_all-Keeps meanwhile s c

    ends :
        {result : Attempt × AppState}
        → Ends t r.board_type r.board_id r.required_tags r.client_name s result
        → IsConsistent result.1
    ends (refusal status e f) = subst (λ p. IsConsistent p.1) (sym f) c
    ends (success board chosen f) =
        let (q, g, i) = kept.idle_kept board.id chosen.runtime chosen.has_runtime chosen.free in
        subst (λ p. IsConsistent p.1) (sym f)
          (placed-IsConsistent t board r.client_name (happen_all meanwhile s) kept.consistent new q
            g i)

-- Whatever a task does next, with a new identifier for a new session: the state stays consistent.
pub step-IsConsistent :
    (call : Call) (s : AppState) → IsConsistent s → IsNew call s → IsConsistent (step call s)
unfolding step
step-IsConsistent (does e) s c new = (happen-Keeps e s c).consistent
step-IsConsistent (creates now session_id busy meanwhile r) s c new =
    creation-IsConsistent now session_id busy meanwhile r s c new
step-IsConsistent (adds_board ch now board) s c new = create_board-IsConsistent ch now board s c
step-IsConsistent (updates_board ch now board_id board) s c new =
    update_board-IsConsistent ch now board_id board s c
step-IsConsistent (deletes_board ch now board_id) s c new =
    delete_board-IsConsistent ch now board_id s c
