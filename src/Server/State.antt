-- ===== src/Server/State.antt =====
-- ostool-server/src/state.rs: the leases of the boards and the release of a session. Every section
-- under the lock of the runtimes is one step. The power actions, the files of a session and the times
-- are left out; `Utc::now` is an argument and the freshness of a session's identifier a hypothesis.
pub mod Leases
pub mod Transitions
pub mod Create
pub mod Sessions
pub mod Release
use ostool.Prelude.{ℕ, Bool, true, false, not, ◌||◌, ◌&&◌, ◌==◌, ◌+◌, if◌then◌else◌}
use ostool.Prelude.{Option, none, some, List, [], ◌∷◌, map, Text, text_eq}
use ostool.Prelude.Map.{lookup, insert, remove, modify, contains_key}
use ostool.Server.Outcome.{Result, ok, err, filter}
use ostool.Server.BoardPool.{
  BoardConfig, Boards, values, BoardAllocationStatus, BoardAllocationWithIdStatus, allocate_board,
  allocate_board_with_board_id,
}
use ostool.Server.Session.{SessionState, SessionStopReason}

pub data BoardLeaseState : Type 0 where
  idle using releasing error : BoardLeaseState

pub record BoardRuntimeState : Type 0 where
  pub lease_state : BoardLeaseState
  pub active_session_id : Option Text
  pub last_release_error : Option Text
  pub updated_at : ℕ

abbrev pub Runtimes : Type 0
Runtimes = List (Text × BoardRuntimeState)

-- `BoardRuntimeState::default`
unfoldable pub default : ℕ → BoardRuntimeState
default now = record {
  lease_state = idle;
  active_session_id = none;
  last_release_error = none;
  updated_at = now;
}

unfoldable pub is_idle : BoardLeaseState → Bool
is_idle s = elim s [ BoardLeaseState.idle ↦ true | _ ↦ false ]

unfoldable pub is_using : BoardLeaseState → Bool
is_using s = elim s [ BoardLeaseState.using ↦ true | _ ↦ false ]

unfoldable pub is_releasing : BoardLeaseState → Bool
is_releasing s = elim s [ BoardLeaseState.releasing ↦ true | _ ↦ false ]

-- `runtime.active_session_id.as_deref() == Some(session_id)`
unfoldable pub owned_by : Text → BoardRuntimeState → Bool
owned_by session_id runtime = elim (runtime.active_session_id) [
  | none ↦ false
  | some id ↦ text_eq id session_id
]

unfoldable pub initial_board_runtimes : ℕ → Boards → Runtimes
initial_board_runtimes now [] = []
initial_board_runtimes now ((board_id, board) ∷ boards) =
    insert board_id (default now) (initial_board_runtimes now boards)

abbrev pub unwrap_or {ℓ} : {A : Type ℓ} → A → Option A → A
unwrap_or fallback none = fallback
unwrap_or fallback (some a) = a

-- The loop of `sync_board_runtime_states`; `runtimes` loses what `next` gets.
unfoldable pub sync_loop : ℕ → Boards → Runtimes → Runtimes → Runtimes
sync_loop now [] runtimes next = next
sync_loop now ((board_id, board) ∷ boards) runtimes next =
    sync_loop now boards (remove board_id runtimes)
      (insert board_id (unwrap_or (default now) (lookup board_id runtimes)) next)

unfoldable pub sync_board_runtime_states : ℕ → Boards → Runtimes → Runtimes
sync_board_runtime_states now boards runtimes = sync_loop now boards runtimes []

unfoldable pub claimed : ℕ → Text → BoardRuntimeState → BoardRuntimeState
claimed now session_id runtime = record {
  lease_state = using;
  active_session_id = some session_id;
  last_release_error = none;
  updated_at = now;
}

unfoldable pub claim_board_for_session : ℕ → Text → Text → Runtimes → Bool × Runtimes
claim_board_for_session now board_id session_id runtimes = elim (lookup board_id runtimes) [
  | none ↦ (false, runtimes)
  | some runtime ↦
      if not (is_idle runtime.lease_state)
      then (false, runtimes)
      else (true, modify board_id (claimed now session_id) runtimes)
]

pub data LeaseError : Type 0 where
  runtime_not_found not_owned no_longer_associated session_disappeared : LeaseError

unfoldable pub transition_board_to_releasing :
    ℕ → Text → Text → Runtimes → Result LeaseError (Unit {0}) × Runtimes
transition_board_to_releasing now board_id session_id runtimes = elim (lookup board_id runtimes) [
  | none ↦ (err runtime_not_found, runtimes)
  | some runtime ↦
      if is_releasing runtime.lease_state && owned_by session_id runtime
      then (ok tt, runtimes)
      else if not (is_using runtime.lease_state) || not (owned_by session_id runtime)
      then (err not_owned, runtimes)
      else (
        ok tt,
        modify board_id (λ r. record r { lease_state = releasing; updated_at = now }) runtimes,
      )
]

unfoldable pub mark_board_error :
    ℕ → Text → Text → Text → Runtimes → Result LeaseError (Unit {0}) × Runtimes
mark_board_error now board_id session_id message runtimes = elim (lookup board_id runtimes) [
  | none ↦ (err runtime_not_found, runtimes)
  | some runtime ↦
      if not (owned_by session_id runtime) then (err no_longer_associated, runtimes) else (
        ok tt,
        modify board_id
            (λ r. record r {
              lease_state = error;
              last_release_error = some message;
              updated_at = now;
            })
            runtimes,
      )
]

pub record ReleaseJob : Type 0 where
  pub session : SessionState
  pub reason : SessionStopReason

-- What of `AppState` the leases are about; `release_tx` is the list of the jobs sent on it. A job's
-- session is shared with `sessions`: of it a job reads only what never changes.
pub record AppState : Type 0 where
  pub boards : Boards
  pub board_runtimes : Runtimes
  pub sessions : List (Text × SessionState)
  pub release_tx : List ReleaseJob

unfoldable pub complete_session_release :
    ℕ → Text → Text → AppState → Result LeaseError (Unit {0}) × AppState
complete_session_release now board_id session_id s = elim (lookup board_id s.board_runtimes) [
  | none ↦ (err runtime_not_found, s)
  | some runtime ↦
      if not (owned_by session_id runtime)
      then (err no_longer_associated, s)
      else if not (contains_key session_id s.sessions)
      then (err session_disappeared, s)
      else (
        ok tt,
        record s {
          board_runtimes = modify board_id (λ r. default now) s.board_runtimes;
          sessions = remove session_id s.sessions;
        },
      )
]

-- The loop over the boards that adds those whose power resource is busy.
unfoldable pub append_busy : (BoardConfig → Bool) → List BoardConfig → List Text → List Text
append_busy busy [] ids = ids
append_busy busy (board ∷ more) ids =
    let rest = append_busy busy more ids in if busy board then board.id ∷ rest else rest

-- `unavailable_board_ids`; `busy` is what `admin_power.is_busy` says of each board.
unfoldable pub unavailable_board_ids : (BoardConfig → Bool) → AppState → List Text
unavailable_board_ids busy s =
    append_busy busy (values s.boards)
      (map (λ e. e.0) (filter (λ e. not (is_idle e.1.lease_state)) s.board_runtimes))
