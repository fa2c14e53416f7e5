-- ===== src/Tests/Leases.antt =====
-- ostool-server: two sessions are created on two boards.
use ostool.Prelude.{
  ℕ, ◌≡◌, ◌≢◌, refl, false, none, some, List, All, [], ◌∷◌, map, arith, if◌then◌else◌, Text, codes,
  text_eq, text_eq_iff, text_lt,
}
use ostool.Prelude.Map.{lookup, insert, contains_key, modify}
use ostool.Server.Outcome.{has, any, every, filter, find, is_empty}
use ostool.Server.BoardPool.{BoardConfig, allocate_board, allocate_board_impl}
use ostool.Server.Session.{
  SessionState, new_inner, new_with_id, snapshot, lifecycle, from_u8, as_u8, is_releasing,
  heartbeat,
}
use ostool.Server.State.{
  AppState, BoardRuntimeState, default, is_idle, initial_board_runtimes, claim_board_for_session,
  claimed, unavailable_board_ids, append_busy, sync_board_runtime_states, unwrap_or,
}
use ostool.Server.State.Transitions.{lookup-sync_board_runtime_states}
use ostool.Server.State.Create.{
  Turn, create_session_inner, create_turn, claim_turn, choose_board, new_session,
}
use ostool.Server.State.Create.Ends.{Ends, create_session_inner-Ends}
use ostool.Server.State.Sessions.{cleanup_expired_sessions, heartbeat_session}
use ostool.Server.State.Sessions.Expiry.{
  IsCleaned, IsOverId, cleanup_expired_sessions_lem, cleanup_expired_sessions-heartbeat_session,
}
use ostool.Server.System.{Call, creates, Request, step, happen_all}
use ostool.Prelude.{true}
use ostool.Server.Inventory.{Checks}
use ostool.Server.System.Reach.{Reach, started, starts, steps, Reach-IsConsistent, Reach-exclusive}
use mathlib.Core.Path.{subst}
use ostool.Tests.Lab.{first_board, second_board, lab}

abbrev request : Request
request = record {
  board_type = codes "rk3568";
  board_id = none;
  required_tags = [];
  client_name = none;
}

abbrev first_turn : Turn
first_turn = record { now = 5; session_id = codes "s1"; busy = λ _. false; between = λ s. s }

abbrev second_turn : Turn
second_turn = record first_turn { now = 7; session_id = codes "s2" }

-- Nothing happens between the choice of a board and its claim.
abbrev first_creation : Call
first_creation = creates 5 (codes "s1") (λ _. false) [] request

abbrev second_creation : Call
second_creation = creates 7 (codes "s2") (λ _. false) [] request

abbrev empty : AppState
unfolding started initial_board_runtimes default insert
empty = started 0 lab

abbrev pub runtime_of : ℕ → Text → BoardRuntimeState
unfolding claimed default
runtime_of now id = claimed now id (default 0)

abbrev pub session_of : ℕ → Text → BoardConfig → SessionState
unfolding new_inner new_with_id as_u8
session_of now id board = new_inner now id board none (some [])

abbrev pub after_one : AppState
after_one = record {
  boards = lab;
  board_runtimes = (codes "a", runtime_of 5 (codes "s1")) ∷ (codes "b", default 0) ∷ [];
  sessions = (codes "s1", session_of 5 (codes "s1") first_board) ∷ [];
  release_tx = [];
}

abbrev pub after_two : AppState
after_two = record {
  boards = lab;
  board_runtimes =
      (codes "a", runtime_of 5 (codes "s1")) ∷ (codes "b", runtime_of 7 (codes "s2")) ∷ [];
  sessions =
      (codes "s1", session_of 5 (codes "s1") first_board)
      ∷ (codes "s2", session_of 7 (codes "s2") second_board)
      ∷ [];
  release_tx = [];
}

first_step : step first_creation empty ≡ after_one
unfolding step create_session_inner create_turn choose_board allocate_board allocate_board_impl
    is_empty filter empty runtime_of session_of text_eq every find has unavailable_board_ids
    append_busy text_lt is_idle claim_turn claim_board_for_session lookup insert modify happen_all
    claimed default new_session new_inner new_with_id as_u8 snapshot lifecycle from_u8 any
first_step = refl

second_step : step second_creation after_one ≡ after_two
unfolding step create_session_inner create_turn choose_board allocate_board allocate_board_impl
    is_empty filter empty runtime_of session_of text_eq every find has unavailable_board_ids
    append_busy text_lt is_idle claim_turn claim_board_for_session lookup insert modify happen_all
    claimed default new_session new_inner new_with_id as_u8 snapshot lifecycle from_u8 any
second_step = refl

empty-Reach : Reach empty
unfolding text_lt started empty
empty-Reach = starts 0 lab ((refl, tt), (tt, tt)) (refl, (refl, tt))

after_two-Reach : Reach after_two
unfolding happen_all lookup empty text_eq
after_two-Reach = subst Reach second_step (
    steps second_creation after_one
      (subst Reach first_step (steps first_creation empty empty-Reach refl)) refl)

s1-s2 : codes "s1" ≢ codes "s2"
unfolding text_eq
s1-s2 e = absurd (cc ((text_eq_iff (codes "s1") (codes "s2")).1 e))

Reach-exclusive_example :
    (session_of 5 (codes "s1") first_board).info.board_id
    ≢ (session_of 7 (codes "s2") second_board).info.board_id
unfolding lookup text_eq
Reach-exclusive_example =
    Reach-exclusive after_two after_two-Reach (codes "s1") (codes "s2")
      (session_of 5 (codes "s1") first_board) (session_of 7 (codes "s2") second_board) refl refl
      s1-s2

create_session_inner-Ends_example :
    Ends second_turn
      (codes "rk3568")
      none
      []
      none
      after_one
      (create_session_inner (second_turn ∷ []) (codes "rk3568") none [] none after_one)
unfolding lookup happen_all empty
create_session_inner-Ends_example =
    create_session_inner-Ends second_turn [] (codes "rk3568") none [] none after_one
      (Reach-IsConsistent after_one
        (subst Reach first_step (steps first_creation empty empty-Reach refl))).inventory
      (λ k r e free. (r, e, free))

abbrev cleaned : List Text × AppState
cleaned = cleanup_expired_sessions 10006 after_two

cleanup_expired_sessions_lem_example :
    IsCleaned 10006
      (session_of 5 (codes "s1") first_board)
      cleaned.0
      (lookup (codes "s1") cleaned.1.sessions)
    × All (IsOverId 10006 after_two.sessions) cleaned.0
    × (map (λ e. e.0) cleaned.1.sessions ≡ map (λ e. e.0) after_two.sessions)
    × (cleaned.1.board_runtimes ≡ after_two.board_runtimes)
    × (cleaned.1.boards ≡ after_two.boards)
    × (cleaned.1.release_tx ≡ after_two.release_tx)
unfolding lookup text_eq
cleanup_expired_sessions_lem_example =
    cleanup_expired_sessions_lem 10006 after_two (codes "s1")
      (session_of 5 (codes "s1") first_board) refl

cleanup_expired_sessions-heartbeat_session_example :
    lookup
      (codes "s1")
      (cleanup_expired_sessions 12000 (heartbeat_session 2500 (codes "s1") after_two).1).1.sessions
    ≡ some (heartbeat 2500 (session_of 5 (codes "s1") first_board)).1
unfolding lookup text_eq is_releasing lifecycle from_u8 session_of
cleanup_expired_sessions-heartbeat_session_example =
    cleanup_expired_sessions-heartbeat_session 2500 12000 (codes "s1") after_two
      (session_of 5 (codes "s1") first_board) refl refl (omega arith)

lookup-sync_board_runtime_states_example :
    lookup (codes "b") (sync_board_runtime_states 9 lab []) ≡ (
      if contains_key (codes "b") lab
      then some (unwrap_or (default 9) (lookup (codes "b") []))
      else none)
unfolding contains_key lookup text_eq
lookup-sync_board_runtime_states_example =
    lookup-sync_board_runtime_states 9 (codes "b") lab [] (refl, (refl, tt))

-- Every check passes.
abbrev willing : Checks
willing = record {
  accepted = true;
  unique = true;
  excluded = true;
  stored = true;
  removed = true;
  refreshed = true;
}
