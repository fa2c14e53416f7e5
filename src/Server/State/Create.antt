-- ===== src/Server/State/Create.antt =====
-- `create_session_inner` of state.rs and the two functions over it. A turn of its loop is given what
-- it takes from outside: the time, the identifier that `uuid` makes, what `admin_power.is_busy` says
-- of each board, and what other tasks do to the state between the choice of a board and its claim.
-- The claim and the insertion of the session are one step: nobody else has the identifier yet.
pub mod Laws
pub mod Ends
use ostool.Prelude.{
  ℕ, zero, suc, ◌+◌, ◌-◌, ◌*◌, ◌/◌, ◌%◌, ◌^◌, ◌≤◌, ◌<◌, min, ◌≡◌, ◌≢◌, ◌↔◌, ◌⊎◌, refl, sym, ap, ◌∙◌,
  inl, inr, Bool, true, false, not, ◌&&◌, ◌||◌, Option, none, some, List, [], ◌∷◌, ◌++◌, map,
  append-nil, append_assoc, arith, ltb, leb, ◌==◌, if◌then◌else◌, ltb→lt, lt→ltb, ==_iff, ==_refl,
  Bool-cases, Option-cases, and_true, length, get_elem?, get_or, take, drop, replicate, All,
  length-append, All-append, IsByte, Text, codes, text_eq, text_eq_iff, text_eq_refl, text_lt,
}
use ostool.Prelude.Map.{insert}
use ostool.Server.Outcome.{Result, ok, err}
use ostool.Server.BoardPool.{
  BoardConfig, BoardAllocationStatus, BoardAllocationWithIdStatus, allocate_board,
  allocate_board_with_board_id,
}
use ostool.Server.Session.{Session, SessionState, new_inner, snapshot}
use ostool.Server.State.{AppState, claim_board_for_session, unavailable_board_ids}

pub record Turn : Type 0 where
  pub now : ℕ
  pub session_id : Text
  pub busy : BoardConfig → Bool
  pub between : AppState → AppState

pub data Attempt : Type 0 where
  unreachable : Attempt
  refused : BoardAllocationWithIdStatus → Attempt
  retries : Attempt
  created : Session → Attempt

unfoldable pub with_id : BoardAllocationStatus → BoardAllocationWithIdStatus
with_id BoardAllocationStatus.board_type_not_found =
    BoardAllocationWithIdStatus.board_type_not_found
with_id BoardAllocationStatus.no_available_board = BoardAllocationWithIdStatus.no_available_board

-- `none` is the `unreachable!` of `allocate_board`.
unfoldable pub choose_board :
    Turn
    → Text
    → Option Text
    → List Text
    → AppState
    → Option (Result BoardAllocationWithIdStatus BoardConfig)
choose_board t board_type (some board_id) required_tags s = some (
    allocate_board_with_board_id s.boards (unavailable_board_ids t.busy s) board_type board_id
      required_tags)
choose_board t board_type none required_tags s =
    elim (allocate_board s.boards (unavailable_board_ids t.busy s) board_type required_tags) [
      | none ↦ none
      | some (ok board) ↦ some (ok board)
      | some (err status) ↦ some (err (with_id status))
    ]

-- The new session, in the map of the sessions.
unfoldable pub new_session : Turn → BoardConfig → Option Text → SessionState
new_session t board client_name = new_inner t.now t.session_id board client_name (some [])

unfoldable pub claim_turn : Turn → BoardConfig → Option Text → AppState → Attempt × AppState
claim_turn t board client_name s =
    let (claimed, runtimes) =
      claim_board_for_session t.now board.id t.session_id s.board_runtimes in
    if not claimed then (retries, s) else (
      created (snapshot (new_session t board client_name)),
      record s {
        board_runtimes = runtimes;
        sessions =
            insert (snapshot (new_session t board client_name)).id (new_session t board client_name)
              s.sessions;
      },
    )

unfoldable pub create_turn :
    Turn → Text → Option Text → List Text → Option Text → AppState → Attempt × AppState
create_turn t board_type board_id required_tags client_name s =
    elim (choose_board t board_type board_id required_tags s) [
      | none ↦ (unreachable, s)
      | some (err status) ↦ (refused status, s)
      | some (ok board) ↦ claim_turn t board client_name (t.between s)
    ]

abbrev pub or_again : (AppState → Attempt × AppState) → Attempt × AppState → Attempt × AppState
or_again again (retries, s) = again s
or_again again (unreachable, s) = (unreachable, s)
or_again again (refused status, s) = (refused status, s)
or_again again (created info, s) = (created info, s)

-- The loop over the turns; `retries` at their end means that it still runs.
unfoldable pub create_session_inner :
    List Turn → Text → Option Text → List Text → Option Text → AppState → Attempt × AppState
create_session_inner [] board_type board_id required_tags client_name s = (retries, s)
create_session_inner (t ∷ ts) board_type board_id required_tags client_name s =
    or_again (create_session_inner ts board_type board_id required_tags client_name)
      (create_turn t board_type board_id required_tags client_name s)

-- The errors of `create_session`, which asks for no board.
unfoldable pub without_id : Attempt → Attempt
without_id (refused BoardAllocationWithIdStatus.board_not_found) = unreachable
without_id (refused (BoardAllocationWithIdStatus.board_type_mismatch id wanted actual)) =
    unreachable
without_id a = a

unfoldable pub create_session :
    List Turn → Text → List Text → Option Text → AppState → Attempt × AppState
create_session ts board_type required_tags client_name s =
    let (attempt, after) = create_session_inner ts board_type none required_tags client_name s in
    (without_id attempt, after)

unfoldable pub create_session_with_board_id :
    List Turn → Text → Text → List Text → Option Text → AppState → Attempt × AppState
create_session_with_board_id ts board_type board_id required_tags client_name s =
    create_session_inner ts board_type (some board_id) required_tags client_name s
