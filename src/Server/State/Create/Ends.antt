-- ===== src/Server/State/Create/Ends.antt =====
-- The creation of a session ends in its first turn.
use ostool.Prelude.{◌≡◌, ap, ◌∙◌, true, Option, some, List, ◌∷◌, arith, Text}
use ostool.Prelude.Map.{lookup, insert, modify}
use ostool.Server.Outcome.{Result, ok, err}
use ostool.Server.BoardPool.{BoardConfig, BoardAllocationWithIdStatus}
use ostool.Server.Session.{new_inner, new_with_id, snapshot}
use ostool.Server.State.{BoardRuntimeState, AppState, is_idle, claimed, claim_board_for_session}
use ostool.Server.State.Create.{
  Turn, Attempt, refused, created, choose_board, new_session, claim_turn, create_turn, or_again,
  create_session_inner,
}
use ostool.Server.State.Create.Laws.{IsInventory, Chosen, choose_board-Chosen, choose_board-total}

-- What other tasks do in between leaves an idle board idle: `create_session_inner` alone leases
-- boards, and it holds the gate of the inventory.
abbrev pub KeepsIdle : (AppState → AppState) → AppState → Type 0
KeepsIdle f s =
    (k : Text) (r : BoardRuntimeState)
    → lookup k s.board_runtimes ≡ some r
    → is_idle r.lease_state ≡ true
    → (q : BoardRuntimeState) × (lookup k (f s).board_runtimes ≡ some q)
      × (is_idle q.lease_state ≡ true)

-- The board leased to the new session, and the session in the map.
unfoldable pub placed : Turn → BoardConfig → Option Text → AppState → AppState
placed t board client_name s = record s {
  board_runtimes = modify board.id (claimed t.now t.session_id) s.board_runtimes;
  sessions = insert t.session_id (new_session t board client_name) s.sessions;
}

claim_turn-placed :
    (t : Turn) (board : BoardConfig) (client_name : Option Text) (s : AppState)
    (q : BoardRuntimeState)
    → lookup board.id s.board_runtimes ≡ some q
    → is_idle q.lease_state ≡ true
    → claim_turn t board client_name s
      ≡ (created (snapshot (new_session t board client_name)), placed t board client_name s)
unfolding claim_turn claim_board_for_session placed new_session new_inner new_with_id snapshot
claim_turn-placed t board client_name s q e i = ground arith

-- The two ends of a call: a refusal that changes nothing, or a new session on a board that can serve
-- the request and was idle.
pub data Ends (t : Turn) (board_type : Text) (board_id : Option Text) (required_tags : List Text)
    (client_name : Option Text) (s : AppState) (result : Attempt × AppState) : Type 0 where
  refusal :
      (status : BoardAllocationWithIdStatus)
      → choose_board t board_type board_id required_tags s ≡ some (err status)
      → result ≡ (refused status, s)
      → Ends t board_type board_id required_tags client_name s result
  success :
      (board : BoardConfig)
      → Chosen board_type required_tags s board
      → result ≡ (
        created (snapshot (new_session t board client_name)),
        placed t board client_name (t.between s),
      )
      → Ends t board_type board_id required_tags client_name s result

create_turn-chosen :
    (t : Turn) (board_type : Text) (board_id : Option Text) (required_tags : List Text)
    (client_name : Option Text) (s : AppState) (r : Result BoardAllocationWithIdStatus BoardConfig)
    → choose_board t board_type board_id required_tags s ≡ some r
    → create_turn t board_type board_id required_tags client_name s ≡ (elim r [
      | ok board ↦ claim_turn t board client_name (t.between s)
      | err status ↦ (refused status, s)
    ])
unfolding create_turn
create_turn-chosen t board_type board_id required_tags client_name s (ok board) e =
    rw (e, create_turn)
create_turn-chosen t board_type board_id required_tags client_name s (err status) e =
    rw (e, create_turn)

-- In an inventory, whatever turns are to come, the call ends in its first turn, with a refusal that
-- changes nothing or with a session on a board that can serve the request and was idle. It does not
-- reach an `unreachable!`, and it does not go round its loop.
pub create_session_inner-Ends :
    (t : Turn) (ts : List Turn) (board_type : Text) (board_id : Option Text)
    (required_tags : List Text) (client_name : Option Text) (s : AppState)
    → IsInventory s.boards s.board_runtimes
    → KeepsIdle t.between s
    → Ends t board_type board_id required_tags client_name s
        (create_session_inner (t ∷ ts) board_type board_id required_tags client_name s)
unfolding create_session_inner
create_session_inner-Ends t ts board_type board_id required_tags client_name s inv keeps =
    let (r, e) = choose_board-total t board_type board_id required_tags s in ends r e
  where
    again : AppState → Attempt × AppState
    again = create_session_inner ts board_type board_id required_tags client_name

    ends :
        (r : Result BoardAllocationWithIdStatus BoardConfig)
        → choose_board t board_type board_id required_tags s ≡ some r
        → Ends t board_type board_id required_tags client_name s
            (create_session_inner (t ∷ ts) board_type board_id required_tags client_name s)
    ends (err status) e = refusal status e (
        ap (or_again again)
          (create_turn-chosen t board_type board_id required_tags client_name s (err status) e))
    ends (ok board) e =
        let c = choose_board-Chosen t board_type board_id required_tags s board inv e in
        let (q, f, i) = keeps board.id c.runtime c.has_runtime c.free in
        success board c (
          ap (or_again again) (
            create_turn-chosen t board_type board_id required_tags client_name s (ok board) e
            ∙ claim_turn-placed t board client_name (t.between s) q f i))
