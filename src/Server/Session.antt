-- ===== src/Server/Session.antt =====
-- ostool-server/src/session.rs, and the types it takes from httpboot-protocol/src/lib.rs: one session.
-- Every atomic operation and every section under a lock is one step on the state; a time is its number
-- of milliseconds. The serial runtime, its power changes and the watch channels' subscribers are left
-- out; the command channel is the list of the reasons sent on it.
pub mod Laws
pub mod Stops
use ostool.Prelude.{ℕ, Bool, true, false, not, ◌+◌, ◌*◌, ◌==◌, if◌then◌else◌}
use ostool.Prelude.{Option, none, some, List, [], ◌∷◌, ◌++◌, Text, text_eq}
use ostool.Server.Outcome.{Result, ok, err}
use ostool.Server.BoardPool.{BoardConfig}

abbrev pub session_ttl : ℕ
session_ttl = 10 * 1000

pub data SessionLifecycleState : Type 0 where
  active : SessionLifecycleState
  releasing : SessionLifecycleState

unfoldable pub as_u8 : SessionLifecycleState → ℕ
as_u8 active = 0
as_u8 releasing = 1

unfoldable pub from_u8 : ℕ → SessionLifecycleState
from_u8 value = if value == 1 then releasing else active

pub data SessionStopReason : Type 0 where
  api_delete serial_closed boot_failed expired dropped : SessionStopReason

pub record Session : Type 0 where
  pub id : Text
  pub board_id : Text
  pub client_name : Option Text
  pub created_at : ℕ
  pub last_heartbeat_at : ℕ
  pub expires_at : ℕ
  pub serial_connected : Bool
  pub state : SessionLifecycleState

unfoldable pub new_with_id : ℕ → Text → Text → Option Text → Session
new_with_id now id board_id client_name = record {
  id = id;
  board_id = board_id;
  client_name = client_name;
  created_at = now;
  last_heartbeat_at = now;
  expires_at = now + session_ttl;
  serial_connected = false;
  state = active;
}

unfoldable pub touch : ℕ → Session → Session
touch now s = record s { last_heartbeat_at = now; expires_at = now + session_ttl }

pub data BootArch : Type 0 where
  x86_64 aarch64 loongarch64 riscv64 other : BootArch

pub data ImageFormat : Type 0 where
  elf64 : ImageFormat

pub record BootFile : Type 0 where
  pub path : Text
  pub size : ℕ
  pub sha256 : Text

pub data LoaderStatusPhase : Type 0 where
  accepted : LoaderStatusPhase
  downloading : (received total : ℕ) → LoaderStatusPhase
  verified : LoaderStatusPhase
  ready_to_handoff : LoaderStatusPhase
  failed : (code message : Text) → LoaderStatusPhase

pub record LoaderStatusResponse : Type 0 where
  pub session_id : Text
  pub boot_id : Text
  pub registration_id : Option Text
  pub status : Option LoaderStatusPhase

pub record SessionBootCommand : Type 0 where
  pub boot_id : Text
  pub kernel_path : Text
  pub kernel_size : ℕ
  pub kernel_sha256 : Text
  pub arch : BootArch
  pub image_format : ImageFormat
  pub entry_symbol : Option Text
  pub initramfs : Option BootFile
  pub cmdline : Option Text

pub record SessionLoaderState : Type 0 where
  pub boot_command : Option SessionBootCommand
  pub status : Option LoaderStatusResponse

pub record SessionState : Type 0 where
  pub info : Session
  pub board : BoardConfig
  pub shutdown : Bool
  pub lifecycle_state : ℕ
  pub stop_requested : Bool
  pub serial_connected : Bool
  pub loader : SessionLoaderState
  pub command_tx : Option (List SessionStopReason)

pub data LoaderStatusUpdateError : Type 0 where
  no_boot_command stale_boot : LoaderStatusUpdateError

unfoldable pub new_inner :
    ℕ → Text → BoardConfig → Option Text → Option (List SessionStopReason) → SessionState
new_inner now session_id board client_name command_tx = record {
  info = new_with_id now session_id board.id client_name;
  board = board;
  shutdown = false;
  lifecycle_state = as_u8 active;
  stop_requested = false;
  serial_connected = false;
  loader = record { boot_command = none; status = none };
  command_tx = command_tx;
}

unfoldable pub lifecycle : SessionState → SessionLifecycleState
lifecycle s = from_u8 s.lifecycle_state

-- `snapshot`, without the status of the serial runtime
unfoldable pub snapshot : SessionState → Session
snapshot s = record (s.info) { serial_connected = s.serial_connected; state = lifecycle s }

unfoldable pub heartbeat : ℕ → SessionState → Session × SessionState
heartbeat now s =
    let info = record (touch now s.info) {
      serial_connected = s.serial_connected;
      state = lifecycle s;
    } in
    (info, record s { info = info })

-- `compare_exchange` of `Active` by `Releasing`
unfoldable pub begin_release : SessionState → Bool × SessionState
begin_release s =
    if s.lifecycle_state == as_u8 active
    then (true, record s { lifecycle_state = as_u8 releasing })
    else (false, s)

unfoldable pub is_releasing : SessionState → Bool
is_releasing s = elim (lifecycle s) [ active ↦ false | releasing ↦ true ]

-- `if let Some(command_tx) = &self.command_tx { let _ = command_tx.send(Stop(reason)); }`
unfoldable pub send_stop : SessionStopReason → SessionState → SessionState
send_stop reason s = elim (s.command_tx) [
  | none ↦ s
  | some sent ↦ record s { command_tx = some (sent ++ reason ∷ []) }
]

unfoldable pub request_stop : SessionStopReason → SessionState → SessionState
request_stop reason s =
    if is_releasing s
    then s
    else if s.stop_requested
    then s
    else send_stop reason (record s { stop_requested = true })

unfoldable pub signal_shutdown : SessionState → SessionState
signal_shutdown s = record s { shutdown = true }

unfoldable pub try_set_serial_connected : SessionState → Bool × SessionState
try_set_serial_connected s =
    if not s.serial_connected then (true, record s { serial_connected = true }) else (false, s)

unfoldable pub clear_serial_connected : SessionState → SessionState
clear_serial_connected s = record s { serial_connected = false }

unfoldable pub set_serial_connected : Bool → SessionState → SessionState
set_serial_connected connected s = record s { serial_connected = connected }

unfoldable pub publish_boot_command : SessionBootCommand → SessionState → SessionState
publish_boot_command command s = record s {
  loader = record { boot_command = some command; status = none };
}

unfoldable pub update_loader_status :
    Text
    → Text
    → LoaderStatusPhase
    → SessionState
    → Result LoaderStatusUpdateError (Unit {0}) × SessionState
update_loader_status registration_id boot_id status s = elim (s.loader.boot_command) [
  | none ↦ (err no_boot_command, s)
  | some command ↦ if not (text_eq command.boot_id boot_id) then (err stale_boot, s) else (
    ok tt,
    record s {
      loader = record (s.loader) {
        status = some (record {
          session_id = s.info.id;
          boot_id = boot_id;
          registration_id = some registration_id;
          status = some status;
        });
      };
    },
  )
]

unfoldable pub loader_status : SessionState → Option LoaderStatusResponse
loader_status s = elim (s.loader.status) [
  | some status ↦ some status
  | none ↦ elim (s.loader.boot_command) [
    | none ↦ none
    | some command ↦ some (record {
      session_id = s.info.id;
      boot_id = command.boot_id;
      registration_id = none;
      status = none;
    })
  ]
]

-- `drop`
unfoldable pub drop_state : SessionState → SessionState
drop_state s = elim (lifecycle s) [ active ↦ send_stop dropped s | releasing ↦ s ]
