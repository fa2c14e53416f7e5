-- ===== src/Server/State/Sessions.antt =====
-- The operations of state.rs on the sessions, and the actor of session.rs. `Utc::now` is an argument.
-- The sessions of the map are shared; a change of one is a change of its entry.
pub mod Expiry
use ostool.Prelude.{
  ℕ, zero, suc, ◌+◌, ◌-◌, ◌*◌, ◌/◌, ◌%◌, ◌^◌, ◌≤◌, ◌<◌, min, ◌≡◌, ◌≢◌, ◌↔◌, ◌⊎◌, refl, sym, ap, ◌∙◌,
  inl, inr, Bool, true, false, not, ◌&&◌, ◌||◌, Option, none, some, List, [], ◌∷◌, ◌++◌, map,
  append-nil, append_assoc, arith, ltb, leb, ◌==◌, if◌then◌else◌, ltb→lt, lt→ltb, ==_iff, ==_refl,
  Bool-cases, Option-cases, and_true, length, get_elem?, get_or, take, drop, replicate, All,
  length-append, All-append, IsByte, Text, codes, text_eq, text_eq_iff, text_eq_refl, text_lt,
}
use ostool.Prelude.Map.{lookup, modify}
use ostool.Server.Outcome.{Result, ok, err}
use ostool.Server.BoardPool.{BoardConfig}
use ostool.Server.Session.{
  Session, SessionState, SessionLifecycleState, SessionStopReason, expired, snapshot, heartbeat,
  is_releasing, request_stop, begin_release, signal_shutdown,
}
use ostool.Server.State.{AppState, ReleaseJob, transition_board_to_releasing}

pub data TouchSessionError : Type 0 where
  not_found releasing : TouchSessionError

abbrev pub with_session : Text → (SessionState → SessionState) → AppState → AppState
with_session id f s = record s { sessions = modify id f s.sessions }

unfoldable pub get_session : Text → AppState → Option Session
get_session session_id s = elim (lookup session_id s.sessions) [
  | none ↦ none
  | some session ↦ some (snapshot session)
]

unfoldable pub session_board : Text → AppState → Option BoardConfig
session_board session_id s = elim (lookup session_id s.sessions) [
  | none ↦ none
  | some session ↦ some session.board
]

unfoldable pub heartbeat_session : ℕ → Text → AppState → Result TouchSessionError Session × AppState
heartbeat_session now session_id s = elim (lookup session_id s.sessions) [
  | none ↦ (err TouchSessionError.not_found, s)
  | some session ↦
      if is_releasing session
      then (err TouchSessionError.releasing, s)
      else (ok (heartbeat now session).0, with_session session_id (λ x. (heartbeat now x).1) s)
]

unfoldable pub request_session_stop :
    Text → SessionStopReason → AppState → Option Session × AppState
request_session_stop session_id reason s = elim (lookup session_id s.sessions) [
  | none ↦ (none, s)
  | some session ↦ (
    some (snapshot (request_stop reason session)),
    with_session session_id (request_stop reason) s,
  )
]

abbrev pub is_releasing_state : SessionLifecycleState → Bool
is_releasing_state SessionLifecycleState.active = false
is_releasing_state SessionLifecycleState.releasing = true

-- `snapshot.state != Releasing && snapshot.expires_at <= now`
unfoldable pub is_due : ℕ → SessionState → Bool
is_due now session =
    if is_releasing_state (snapshot session).state
    then false
    else leb (snapshot session).expires_at now

-- The loop of `cleanup_expired_sessions`, with no other task's step in between.
unfoldable pub expire_loop : ℕ → List (Text × SessionState) → List Text × List (Text × SessionState)
expire_loop now [] = ([], [])
expire_loop now ((k, session) ∷ m) =
    let (ids, rest) = expire_loop now m in
    if is_due now session
    then ((snapshot session).id ∷ ids, (k, request_stop expired session) ∷ rest)
    else (ids, (k, session) ∷ rest)

unfoldable pub cleanup_expired_sessions : ℕ → AppState → List Text × AppState
cleanup_expired_sessions now s =
    let (ids, sessions) = expire_loop now s.sessions in (ids, record s { sessions = sessions })

-- `enqueue_release`, with the coordinator running.
unfoldable pub enqueue_release : SessionState → SessionStopReason → AppState → AppState
enqueue_release session reason s = record s {
  release_tx = s.release_tx ++ (record { session = session; reason = reason } ∷ []);
}

abbrev pub receive : List SessionStopReason → SessionState → SessionState
receive rest session = record session { command_tx = some rest }

-- What the actor does with a command: `session` is the session that has been received from.
unfoldable pub stop_session : ℕ → SessionStopReason → Text → SessionState → AppState → AppState
stop_session now reason session_id session s =
    let (began, released) = begin_release session in
    let stopped = signal_shutdown released in
    let info = snapshot stopped in
    let runtimes = (transition_board_to_releasing now info.board_id info.id s.board_runtimes).1 in
    if not began
    then with_session session_id (λ x. session) s
    else enqueue_release stopped reason (record s {
      board_runtimes = runtimes;
      sessions = modify session_id (λ x. stopped) s.sessions;
    })

-- `run_session_actor`: it waits while no command is there.
unfoldable pub run_session_actor : ℕ → Text → AppState → AppState
run_session_actor now session_id s = elim (lookup session_id s.sessions) [
  | none ↦ s
  | some session ↦ elim (session.command_tx) [
    | none ↦ s
    | some [] ↦ s
    | some (reason ∷ rest) ↦ stop_session now reason session_id (receive rest session) s
  ]
]
