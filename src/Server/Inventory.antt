-- ===== src/Server/Inventory.antt =====
-- ostool-server/src/api/router.rs: the handlers that change the inventory of the boards. Each holds
-- `board_inventory_gate` throughout, so that no session is created meanwhile. How a request becomes a
-- board, and the checks on parts of it that are not modelled, are arguments: `accepted` is whether
-- those before the look at the boards pass, `unique` is `ensure_unique_network_identity`, `excluded`
-- the exclusion of the serial ports, `stored` and `removed` the writes of the board files, and
-- `refreshed` the last exclusion, whose failure is reported though the boards have changed.
use ostool.Prelude.{ℕ, Bool, not, ◌&&◌, Option, none, some, if◌then◌else◌, Text, text_eq}
use ostool.Prelude.Map.{lookup, insert, remove, contains_key}
use ostool.Server.Outcome.{Result, ok, err}
use ostool.Server.BoardPool.{BoardConfig, Boards}
use ostool.Server.State.{AppState, is_idle, sync_board_runtime_states}

pub record Checks : Type 0 where
  pub accepted : Bool
  pub unique : Bool
  pub excluded : Bool
  pub stored : Bool
  pub removed : Bool
  pub refreshed : Bool

pub data ApiError : Type 0 where
  rejected already_exists not_found not_idle not_stored not_refreshed : ApiError

-- The boards as they are from now on, and the runtimes with them.
unfoldable pub with_boards : ℕ → Boards → AppState → AppState
with_boards now boards s = record s {
  boards = boards;
  board_runtimes = sync_board_runtime_states now boards s.board_runtimes;
}

abbrev pub answer {ℓ} : {A : Type ℓ} → Checks → A → Result ApiError A
answer c a = if c.refreshed then ok a else err not_refreshed

unfoldable pub create_board :
    Checks → ℕ → BoardConfig → AppState → Result ApiError BoardConfig × AppState
create_board c now board s =
    if not c.accepted
    then (err rejected, s)
    else if contains_key board.id s.boards
    then (err already_exists, s)
    else if not c.unique
    then (err rejected, s)
    else if not c.excluded
    then (err rejected, s)
    else if not c.stored
    then (err not_stored, s)
    else (answer c board, with_boards now (insert board.id board s.boards) s)

-- `board_runtime_status`, and the test of its lease: the error, if there is one.
unfoldable pub check_idle : Text → AppState → Option ApiError
check_idle board_id s = elim (lookup board_id s.board_runtimes) [
  | none ↦ some not_found
  | some runtime ↦ if is_idle runtime.lease_state then none else some not_idle
]

abbrev pub unless {ℓ} :
    {A : Type ℓ}
    → Option ApiError
    → Result ApiError A × AppState
    → AppState
    → Result ApiError A × AppState
unless none next s = next
unless (some e) next s = (err e, s)

unfoldable pub update_board :
    Checks → ℕ → Text → BoardConfig → AppState → Result ApiError BoardConfig × AppState
update_board c now board_id board s =
    let moved = not (text_eq board.id board_id) in
    let changed = with_boards now (insert board.id board (remove board_id s.boards)) s in
    if not c.accepted
    then (err rejected, s)
    else if not (contains_key board_id s.boards)
    then (err not_found, s)
    else if moved && contains_key board.id s.boards
    then (err already_exists, s)
    else if not c.unique
    then (err rejected, s)
    else unless (check_idle board_id s)
        (if not c.excluded
          then (err rejected, s)
          else if not c.stored
          then (err not_stored, s)
          else if moved && not c.removed
          then (err not_stored, s)
          else (answer c board, changed))
        s

unfoldable pub delete_board : Checks → ℕ → Text → AppState → Result ApiError (Unit {0}) × AppState
delete_board c now board_id s =
    if not c.accepted
    then (err rejected, s)
    else unless (check_idle board_id s)
        (if not (contains_key board_id s.boards)
          then (err not_found, s)
          else if not c.removed
          then (err not_stored, s)
          else (answer c tt, with_boards now (remove board_id s.boards) s))
        s
