-- ===== src/Server/System/Quiet.antt =====
-- The events that lease no board and give none back.
use ostool.Prelude.{ℕ, ◌≡◌, refl, sym, ap, ◌∙◌, inl, inr, some, arith, Option-cases, Text}
use mathlib.Core.Path.{subst}
use mathlib.Core.Option.{some-injective}
use ostool.Prelude.Map.{lookup, modify}
use ostool.Prelude.Map.Modify.{lookup-modify_cases, lookup-modify-some}
use ostool.Server.Session.{
  SessionState, SessionStopReason, LoaderStatusPhase, heartbeat, touch, begin_release, request_stop,
  send_stop, signal_shutdown, try_set_serial_connected, clear_serial_connected,
  set_serial_connected, publish_boot_command, update_loader_status,
}
use ostool.Server.Session.Laws.{Operation, perform}
use ostool.Server.State.{
  AppState, BoardRuntimeState, mark_board_error, transition_board_to_releasing,
}
use ostool.Server.State.Leases.{IsLeased, transition_board_to_releasing_cases, set_releasing}
use ostool.Server.State.Transitions.{
  mark_board_error_cases, set_error, mark_board_error-IsLeased,
  transition_board_to_releasing-IsLeased,
}
use ostool.Server.State.Sessions.{with_session}
use ostool.Server.System.Consistent.{Same, Quiet}

pub Same-refl : (x : SessionState) → Same x x
Same-refl x = record { same_id = refl; same_board_id = refl; same_board = refl }

pub Same-trans : {x y z : SessionState} → Same x y → Same y z → Same x z
Same-trans p q = record {
  same_id = q.same_id ∙ p.same_id;
  same_board_id = q.same_board_id ∙ p.same_board_id;
  same_board = q.same_board ∙ p.same_board;
}

pub Same-request_stop :
    (reason : SessionStopReason) (x : SessionState) → Same x (request_stop reason x)
unfolding request_stop send_stop
Same-request_stop reason x = elim (Option-cases x.command_tx) [
  | inl n ↦ ground arith
  | inr (l, f) ↦ ground arith
]

Same-update_loader_status :
    (registration_id boot_id : Text) (phase : LoaderStatusPhase) (x : SessionState)
    → Same x (update_loader_status registration_id boot_id phase x).1
unfolding update_loader_status
Same-update_loader_status registration_id boot_id phase x =
    elim (Option-cases x.loader.boot_command) [ inl n ↦ ground arith | inr (c, f) ↦ ground arith ]

pub Same-perform : (o : Operation) (x : SessionState) → Same x (perform o x)
unfolding perform heartbeat touch begin_release signal_shutdown try_set_serial_connected
    clear_serial_connected set_serial_connected publish_boot_command
Same-perform (Operation.heartbeats now) x = ground arith
Same-perform Operation.releases x = ground arith
Same-perform (Operation.stops reason) x = Same-request_stop reason x
Same-perform Operation.shuts_down x = ground arith
Same-perform Operation.connects x = ground arith
Same-perform Operation.disconnects x = ground arith
Same-perform (Operation.sets_connected connected) x = ground arith
Same-perform (Operation.publishes command) x = ground arith
Same-perform (Operation.reports registration_id boot_id phase) x =
    Same-update_loader_status registration_id boot_id phase x

pub Quiet-refl : (s : AppState) → Quiet s s
Quiet-refl s = record {
  boards_same = refl;
  leased_after = λ l. l;
  runtime_old = λ k r e. (r, e);
  runtime_kept = λ k r e. (r, e, refl);
  session_old = λ id x e. (x, e, Same-refl x);
  session_kept = λ id x e. (x, e);
}

pub Quiet-trans : {s t u : AppState} → Quiet s t → Quiet t u → Quiet s u
Quiet-trans p q = record {
  boards_same = q.boards_same ∙ p.boards_same;
  leased_after = λ l. q.leased_after (p.leased_after l);
  runtime_old = λ k r e. let (r', f) = q.runtime_old k r e in p.runtime_old k r' f;
  runtime_kept = λ k r e.
      let (r1, f, a) = p.runtime_kept k r e in
      let (r2, g, b) = q.runtime_kept k r1 f in (r2, g, b ∙ a);
  session_old = λ id x e.
      let (y, f, j) = q.session_old id x e in
      let (z, g, i) = p.session_old id y f in (z, g, Same-trans i j);
  session_kept = λ id x e. let (y, f) = p.session_kept id x e in q.session_kept id y f;
}

-- A change of one session, and of nothing that others go by.
pub Quiet-with_session :
    (id : Text) (f : SessionState → SessionState) (s : AppState) (x : SessionState)
    → lookup id s.sessions ≡ some x
    → Same x (f x)
    → Quiet s (with_session id f s)
Quiet-with_session id f s x e same = record {
  boards_same = refl;
  leased_after = λ l. l;
  runtime_old = λ k r g. (r, g);
  runtime_kept = λ k r g. (r, g, refl);
  session_old = λ j y g. elim (lookup-modify_cases id j f s.sessions y x e g) [
    | inl (p, q) ↦ (x, subst (λ i. lookup i s.sessions ≡ some x) p e, subst (Same x) (sym q) same)
    | inr (n, old) ↦ (y, old, Same-refl y)
  ];
  session_kept = λ j y g. lookup-modify-some id j f s.sessions g;
}

-- A change of one runtime that keeps its session.
pub Quiet-with_runtime :
    (k : Text) (f : BoardRuntimeState → BoardRuntimeState) (s : AppState) (v : BoardRuntimeState)
    → lookup k s.board_runtimes ≡ some v
    → ((r : BoardRuntimeState) → (f r).active_session_id ≡ r.active_session_id)
    → (IsLeased s.board_runtimes → IsLeased (modify k f s.board_runtimes))
    → Quiet s (record s { board_runtimes = modify k f s.board_runtimes })
Quiet-with_runtime k f s v e keeps leased = record {
  boards_same = refl;
  leased_after = leased;
  runtime_old = λ j r g. elim (lookup-modify_cases k j f s.board_runtimes r v e g) [
    | inl (p, q) ↦ (v, subst (λ i. lookup i s.board_runtimes ≡ some v) p e)
    | inr (n, old) ↦ (r, old)
  ];
  runtime_kept = λ j r g.
      let (q, h) = lookup-modify-some k j f s.board_runtimes g in
      elim (lookup-modify_cases k j f s.board_runtimes q v e h) [
        | inl (p, c) ↦ (
          q,
          h,
          ap (λ x. x.active_session_id) c
              ∙ keeps v
              ∙ ap (λ x. x.active_session_id)
                  (some-injective _ _
                    (sym (subst (λ i. lookup i s.board_runtimes ≡ some v) p e) ∙ g)),
        )
        | inr (n, old) ↦ (q, h, ap (λ x. x.active_session_id) (some-injective _ _ (sym old ∙ g)))
      ];
  session_old = λ id x g. (x, g, Same-refl x);
  session_kept = λ id x g. (x, g);
}

pub Quiet-mark_board_error :
    (now : ℕ) (board_id id message : Text) (s : AppState)
    → Quiet s (record s {
      board_runtimes = (mark_board_error now board_id id message s.board_runtimes).1;
    })
Quiet-mark_board_error now board_id id message s =
    elim (mark_board_error_cases now board_id id message s.board_runtimes) [
      | inl (r, e, a, c) ↦
          subst (λ m. Quiet s (record s { board_runtimes = m })) (sym c)
            (Quiet-with_runtime board_id (set_error now message) s r e (λ r. refl)
              (λ l.
                subst IsLeased c
                  (mark_board_error-IsLeased now board_id id message s.board_runtimes l)))
      | inr c ↦ subst (λ m. Quiet s (record s { board_runtimes = m })) (sym c) (Quiet-refl s)
    ]

pub Quiet-transition_board_to_releasing :
    (now : ℕ) (board_id id : Text) (s : AppState)
    → Quiet s (record s {
      board_runtimes = (transition_board_to_releasing now board_id id s.board_runtimes).1;
    })
Quiet-transition_board_to_releasing now board_id id s =
    elim (transition_board_to_releasing_cases now board_id id s.board_runtimes) [
      | inl (r, (e, (a, c))) ↦
          subst (λ m. Quiet s (record s { board_runtimes = m })) (sym c)
            (Quiet-with_runtime board_id (set_releasing now) s r e (λ r. refl)
              (λ l.
                subst IsLeased c
                  (transition_board_to_releasing-IsLeased now board_id id s.board_runtimes l)))
      | inr c ↦ subst (λ m. Quiet s (record s { board_runtimes = m })) (sym c) (Quiet-refl s)
    ]
