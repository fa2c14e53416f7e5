-- ===== src/Server/System/Sessions.antt =====
-- The events that change a session lease no board and give none back.
use ostool.Prelude.{
  ℕ, ◌≡◌, refl, sym, ap, ◌∙◌, inl, inr, true, false, not, Option, none, some, List, [], ◌∷◌, arith,
  if◌then◌else◌, Option-cases, Text,
}
use mathlib.Core.Path.{subst}
use ostool.Prelude.Map.{lookup, modify, modify_absent}
use ostool.Server.Session
use ostool.Server.Session.{
  SessionState, SessionStopReason, expired, heartbeat, request_stop, begin_release, signal_shutdown,
  snapshot,
}
use ostool.Server.Session.Laws.{perform, heartbeats}
use ostool.Server.State.{AppState, transition_board_to_releasing}
use ostool.Server.State.Leases.{IsLeased}
use ostool.Server.State.Sessions.{
  with_session, heartbeat_session, request_session_stop, cleanup_expired_sessions,
  run_session_actor, stop_session, enqueue_release, receive, is_due,
}
use ostool.Server.State.Sessions.Expiry.{expire, expire_entry, cleanup_expired_sessions-expire}
use ostool.Server.System.Consistent.{Same, Quiet}
use ostool.Server.System.Quiet.{
  Same-refl, Same-perform, Same-request_stop, Quiet-refl, Quiet-trans, Quiet-with_session,
  Quiet-transition_board_to_releasing,
}

-- A change by `modify` that is the same for every session.
pub Quiet-modify :
    (id : Text) (f : SessionState → SessionState) (s : AppState)
    → ((x : SessionState) → Same x (f x))
    → Quiet s (with_session id f s)
Quiet-modify id f s same = elim (Option-cases (lookup id s.sessions)) [
  | inl n ↦
      subst (λ m. Quiet s (record s { sessions = m })) (sym (modify_absent id f s.sessions n))
        (Quiet-refl s)
  | inr (x, e) ↦ Quiet-with_session id f s x e (same x)
]

pub Quiet-heartbeat_session :
    (now : ℕ) (id : Text) (s : AppState) → Quiet s (heartbeat_session now id s).1
unfolding heartbeat_session
Quiet-heartbeat_session now id s = subst (Quiet s) (sym ends) (choose (lookup id s.sessions))
  where
    beat : AppState
    beat = with_session id (λ x. (heartbeat now x).1) s

    pick : Option SessionState → AppState
    pick none = s
    pick (some x) = if Session.is_releasing x then s else beat

    ends : (heartbeat_session now id s).1 ≡ pick (lookup id s.sessions)
    ends = ground arith

    beat-Quiet : Quiet s beat
    beat-Quiet =
        Quiet-modify id (λ x. (heartbeat now x).1) s
          (unfold perform in Same-perform (heartbeats now))

    choose : (o : Option SessionState) → Quiet s (pick o)
    choose none = Quiet-refl s
    choose (some x) = elim (Session.is_releasing x) as (λ b. Quiet s (if b then s else beat)) [
      | true ↦ Quiet-refl s
      | false ↦ beat-Quiet
    ]

pub Quiet-request_session_stop :
    (id : Text) (reason : SessionStopReason) (s : AppState)
    → Quiet s (request_session_stop id reason s).1
unfolding request_session_stop
Quiet-request_session_stop id reason s = elim (Option-cases (lookup id s.sessions)) [
  | inl n ↦ subst (Quiet s) (ground arith) (Quiet-refl s)
  | inr (x, e) ↦
      subst (Quiet s) (ground arith)
        (Quiet-modify id (request_stop reason) s (Same-request_stop reason))
]

expire-Same : (now : ℕ) (x : SessionState) → Same x (expire now x)
unfolding expire
expire-Same now x = elim (is_due now x) as (λ b. Same x (if b then request_stop expired x else x)) [
  | true ↦ Same-request_stop expired x
  | false ↦ Same-refl x
]

pub Quiet-cleanup_expired_sessions :
    (now : ℕ) (s : AppState) → Quiet s (cleanup_expired_sessions now s).1
Quiet-cleanup_expired_sessions now s =
    let (found, _, runtimes, boards, _) = cleanup_expired_sessions-expire now s in
    record {
      boards_same = boards;
      leased_after = λ l. subst IsLeased (sym runtimes) l;
      runtime_old = λ k r e. (r, subst (λ m. lookup k m ≡ some r) runtimes e);
      runtime_kept = λ k r e. (r, subst (λ m. lookup k m ≡ some r) (sym runtimes) e, refl);
      session_old = λ id x e. elim (Option-cases (lookup id s.sessions)) [
        | inl n ↦ absurd (ground (arith, found id))
        | inr (y, f) ↦ (y, f, subst (Same y) (ground (arith, found id)) (expire-Same now y))
      ];
      session_kept = λ id x e. (expire now x, found id ∙ ap (expire_entry now) e);
    }

-- What the actor leaves of the session.
begin_release-Same :
    (rest : List SessionStopReason) (x : SessionState) → Same x (begin_release (receive rest x)).1
unfolding begin_release
begin_release-Same rest x = ground arith

Same-stopped :
    (rest : List SessionStopReason) (x : SessionState)
    → Same x (signal_shutdown (begin_release (receive rest x)).1)
unfolding begin_release signal_shutdown
Same-stopped rest x = ground arith

-- A job more on the channel.
Quiet-enqueue_release :
    {s t : AppState} (session : SessionState) (reason : SessionStopReason)
    → Quiet s t
    → Quiet s (enqueue_release session reason t)
unfolding enqueue_release
Quiet-enqueue_release session reason q = record {
  boards_same = q.boards_same;
  leased_after = q.leased_after;
  runtime_old = q.runtime_old;
  runtime_kept = q.runtime_kept;
  session_old = q.session_old;
  session_kept = q.session_kept;
}

Quiet-stop_session :
    (now : ℕ) (reason : SessionStopReason) (rest : List SessionStopReason) (id : Text)
    (x : SessionState) (s : AppState)
    → lookup id s.sessions ≡ some x
    → Quiet s (stop_session now reason id (receive rest x) s)
unfolding stop_session
Quiet-stop_session now reason rest id x s e =
    elim (begin_release (receive rest x)).0
      as (λ b. Quiet s (
        if not b
        then with_session id (λ y. receive rest x) s
        else enqueue_release stopped reason (record s {
          board_runtimes =
              (transition_board_to_releasing now (snapshot stopped).board_id (snapshot stopped).id
                s.board_runtimes).1;
          sessions = modify id (λ y. stopped) s.sessions;
        }))) [
          | true ↦ Quiet-enqueue_release stopped reason (
              Quiet-trans (Quiet-with_session id (λ y. stopped) s x e (Same-stopped rest x)) (
                Quiet-transition_board_to_releasing now (snapshot stopped).board_id
                  (snapshot stopped).id (with_session id (λ y. stopped) s)))
          | false ↦
              Quiet-with_session id (λ y. receive rest x) s x e
                (record { same_id = refl; same_board_id = refl; same_board = refl })
        ]
  where
    stopped : SessionState
    stopped = signal_shutdown (begin_release (receive rest x)).1

pub Quiet-run_session_actor :
    (now : ℕ) (id : Text) (s : AppState) → Quiet s (run_session_actor now id s)
unfolding run_session_actor
Quiet-run_session_actor now id s = elim (Option-cases (lookup id s.sessions)) [
  | inl n ↦ subst (Quiet s) (sym (rw (n, run_session_actor))) (Quiet-refl s)
  | inr (x, e) ↦ elim (Option-cases x.command_tx) [
    | inl n ↦ subst (Quiet s) (sym (rw (e, run_session_actor, n))) (Quiet-refl s)
    | inr (l, f) ↦ received x e l f
  ]
]
  where
    received :
        (x : SessionState)
        → lookup id s.sessions ≡ some x
        → (l : List SessionStopReason) → x.command_tx ≡ some l
        → Quiet s (run_session_actor now id s)
    received x e [] f = subst (Quiet s) (ground arith) (Quiet-refl s)
    received x e (reason ∷ rest) f =
        subst (Quiet s) (ground arith) (Quiet-stop_session now reason rest id x s e)
