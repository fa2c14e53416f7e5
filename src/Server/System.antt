-- ===== src/Server/System.antt =====
-- The tasks of ostool-server over one `AppState`, interleaved in any order: each event is one step of
-- some task. The creation of a session holds the gate of the inventory, as the inventory's handlers
-- do: between its choice and its claim only events of the first kind can happen.
pub mod Quiet
pub mod Sessions
pub mod Kept
pub mod Reach
pub mod Leased
pub mod Consistent
pub mod Changes
pub mod Inventories
pub mod Placed
use ostool.Prelude.{
  ℕ, zero, suc, ◌+◌, ◌-◌, ◌*◌, ◌/◌, ◌%◌, ◌^◌, ◌≤◌, ◌<◌, min, ◌≡◌, ◌≢◌, ◌↔◌, ◌⊎◌, refl, sym, ap, ◌∙◌,
  inl, inr, Bool, true, false, not, ◌&&◌, ◌||◌, Option, none, some, List, [], ◌∷◌, ◌++◌, map,
  append-nil, append_assoc, arith, ltb, leb, ◌==◌, if◌then◌else◌, ltb→lt, lt→ltb, ==_iff, ==_refl,
  Bool-cases, Option-cases, and_true, length, get_elem?, get_or, take, drop, replicate, All,
  length-append, All-append, IsByte, Text, codes, text_eq, text_eq_iff, text_eq_refl, text_lt,
}
use ostool.Server.BoardPool.{BoardConfig}
use ostool.Server.Session.{SessionState, SessionStopReason, SessionLoaderState}
use ostool.Server.Session.Laws.{Operation, perform}
use ostool.Server.State.{AppState, mark_board_error, complete_session_release}
use ostool.Server.State.Sessions.{
  with_session, heartbeat_session, request_session_stop, cleanup_expired_sessions,
  run_session_actor,
}
use ostool.Server.State.Create.{Turn, create_session_inner}
use ostool.Server.Inventory.{Checks, create_board, update_board, delete_board}

-- A step without the gate. The last two are those of a release job.
pub data Event : Type 0 where
  heartbeats : (now : ℕ) (id : Text) → Event
  stops : (id : Text) → SessionStopReason → Event
  expires : (now : ℕ) → Event
  acts : (now : ℕ) (id : Text) → Event
  operates : (id : Text) → Operation → Event
  fails : (now : ℕ) (board_id id message : Text) → Event
  completes : (now : ℕ) (board_id id : Text) → Event

unfoldable pub happen : Event → AppState → AppState
happen (heartbeats now id) s = (heartbeat_session now id s).1
happen (stops id reason) s = (request_session_stop id reason s).1
happen (expires now) s = (cleanup_expired_sessions now s).1
happen (acts now id) s = run_session_actor now id s
happen (operates id o) s = with_session id (perform o) s
happen (fails now board_id id message) s = record s {
  board_runtimes = (mark_board_error now board_id id message s.board_runtimes).1;
}
happen (completes now board_id id) s = (complete_session_release now board_id id s).1

unfoldable pub happen_all : List Event → AppState → AppState
happen_all [] s = s
happen_all (e ∷ es) s = happen_all es (happen e s)

pub record Request : Type 0 where
  pub board_type : Text
  pub board_id : Option Text
  pub required_tags : List Text
  pub client_name : Option Text

pub data Call : Type 0 where
  does : Event → Call
  creates :
      (now : ℕ) (session_id : Text) (busy : BoardConfig → Bool) (meanwhile : List Event)
      → Request
      → Call
  adds_board : Checks → (now : ℕ) → BoardConfig → Call
  updates_board : Checks → (now : ℕ) → Text → BoardConfig → Call
  deletes_board : Checks → (now : ℕ) → Text → Call

abbrev pub turn : ℕ → Text → (BoardConfig → Bool) → List Event → Turn
turn now session_id busy meanwhile = record {
  now = now;
  session_id = session_id;
  busy = busy;
  between = happen_all meanwhile;
}

unfoldable pub step : Call → AppState → AppState
step (does e) s = happen e s
step (creates now session_id busy meanwhile r) s =
    (create_session_inner (turn now session_id busy meanwhile ∷ []) r.board_type r.board_id
      r.required_tags r.client_name s).1
step (adds_board c now board) s = (create_board c now board s).1
step (updates_board c now board_id board) s = (update_board c now board_id board s).1
step (deletes_board c now board_id) s = (delete_board c now board_id s).1
