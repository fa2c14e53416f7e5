-- ===== src/Server/Session/Stops.antt =====
-- Theorems on session.rs: a session is stopped and released once.
use ostool.Prelude.{
  ℕ, Bool, ◌+◌, ◌≤◌, if◌then◌else◌, Option, none, some, List, [], ◌∷◌, Text, ◌≡◌, inl, inr, arith,
  Option-cases, length, length-append, ◌==◌,
}
use ostool.Server.BoardPool.{BoardConfig}
use ostool.Server.Session.{
  SessionState, SessionStopReason, LoaderStatusPhase, new_inner, heartbeat, begin_release,
  request_stop, send_stop, signal_shutdown, try_set_serial_connected, clear_serial_connected,
  set_serial_connected, publish_boot_command, update_loader_status, as_u8, active,
}
use ostool.Server.Session.Laws.{Operation, heartbeats, perform, perform_all, releases}

-- How many commands are on the channel.
unfoldable pub sent : SessionState → ℕ
sent s = elim (s.command_tx) [ none ↦ 0 | some reasons ↦ length reasons ]

unfoldable pub one_if : Bool → ℕ
one_if b = if b then 1 else 0

sent-request_stop :
    (reason : SessionStopReason) (s : SessionState)
    → sent s ≤ one_if s.stop_requested
    → sent (request_stop reason s) ≤ one_if (request_stop reason s).stop_requested
unfolding sent one_if request_stop send_stop
sent-request_stop reason s h = elim (Option-cases s.command_tx) [
  | inl n ↦ ground (arith)
  | inr (l, f) ↦ ground (arith, length-append l (reason ∷ []))
]

sent-update_loader_status :
    (registration_id boot_id : Text) (phase : LoaderStatusPhase) (s : SessionState)
    → sent s ≤ one_if s.stop_requested
    → sent (update_loader_status registration_id boot_id phase s).1
      ≤ one_if (update_loader_status registration_id boot_id phase s).1.stop_requested
unfolding sent one_if update_loader_status
sent-update_loader_status registration_id boot_id phase s h =
    elim (Option-cases s.loader.boot_command) [
      | inl n ↦ ground (arith)
      | inr (c, f) ↦ ground (arith)
    ]

sent-perform :
    (o : Operation) (s : SessionState)
    → sent s ≤ one_if s.stop_requested
    → sent (perform o s) ≤ one_if (perform o s).stop_requested
unfolding perform heartbeat begin_release signal_shutdown try_set_serial_connected
    clear_serial_connected set_serial_connected publish_boot_command sent one_if
sent-perform (heartbeats now) s h = h
sent-perform releases s h = ground (arith)
sent-perform (Operation.stops reason) s h = sent-request_stop reason s h
sent-perform Operation.shuts_down s h = h
sent-perform Operation.connects s h = ground (arith)
sent-perform Operation.disconnects s h = h
sent-perform (Operation.sets_connected connected) s h = h
sent-perform (Operation.publishes command) s h = h
sent-perform (Operation.reports registration_id boot_id phase) s h =
    sent-update_loader_status registration_id boot_id phase s h

sent-perform_all :
    (os : List Operation) (s : SessionState)
    → sent s ≤ one_if s.stop_requested
    → sent (perform_all os s) ≤ 1
unfolding perform_all one_if
sent-perform_all [] s h = ground (arith)
sent-perform_all (o ∷ os) s h = sent-perform_all os (perform o s) (sent-perform o s h)

-- Whatever the operations on a new session and their order, until it is dropped, the actor is sent at
-- most one command to stop, however often and for whatever reasons a stop is requested.
pub sent-new_inner :
    (now : ℕ) (session_id : Text) (board : BoardConfig) (client_name : Option Text)
    (os : List Operation)
    → sent (perform_all os (new_inner now session_id board client_name (some []))) ≤ 1
unfolding new_inner sent one_if
sent-new_inner now session_id board client_name os =
    sent-perform_all os (new_inner now session_id board client_name (some [])) (omega arith)

-- Whether an operation is a `begin_release` that says `true`.
unfoldable pub wins : Operation → SessionState → ℕ
wins o s = elim o [ releases ↦ one_if (begin_release s).0 | _ ↦ 0 ]

-- How many operations of a sequence win so.
unfoldable pub won : List Operation → SessionState → ℕ
won [] s = 0
won (o ∷ os) s = wins o s + won os (perform o s)

unfoldable pub is_active : SessionState → ℕ
is_active s = one_if (s.lifecycle_state == as_u8 active)

lifecycle_state-request_stop :
    (reason : SessionStopReason) (s : SessionState)
    → (request_stop reason s).lifecycle_state ≡ s.lifecycle_state
unfolding request_stop send_stop
lifecycle_state-request_stop reason s = elim (Option-cases s.command_tx) [
  | inl n ↦ ground (arith)
  | inr (l, f) ↦ ground (arith)
]

lifecycle_state-update_loader_status :
    (registration_id boot_id : Text) (phase : LoaderStatusPhase) (s : SessionState)
    → (update_loader_status registration_id boot_id phase s).1.lifecycle_state ≡ s.lifecycle_state
unfolding update_loader_status
lifecycle_state-update_loader_status registration_id boot_id phase s =
    elim (Option-cases s.loader.boot_command) [
      | inl n ↦ ground (arith)
      | inr (c, f) ↦ ground (arith)
    ]

is_active-perform :
    (o : Operation) (s : SessionState) → wins o s + is_active (perform o s) ≡ is_active s
unfolding perform heartbeat begin_release signal_shutdown try_set_serial_connected
    clear_serial_connected set_serial_connected publish_boot_command is_active wins one_if as_u8
is_active-perform (heartbeats now) s = omega arith
is_active-perform releases s = ground (arith)
is_active-perform (Operation.stops reason) s = ground (arith, lifecycle_state-request_stop reason s)
is_active-perform Operation.shuts_down s = omega arith
is_active-perform Operation.connects s = ground (arith)
is_active-perform Operation.disconnects s = omega arith
is_active-perform (Operation.sets_connected connected) s = omega arith
is_active-perform (Operation.publishes command) s = omega arith
is_active-perform (Operation.reports registration_id boot_id phase) s =
    ground (arith, lifecycle_state-update_loader_status registration_id boot_id phase s)

-- Whatever the operations on a session and their order, `begin_release` says `true` as often as the
-- session goes from active to releasing: once if it was active and is not at the end, and never
-- otherwise.
pub won-perform_all :
    (os : List Operation) (s : SessionState) → won os s + is_active (perform_all os s) ≡ is_active s
unfolding won perform_all
won-perform_all [] s = omega arith
won-perform_all (o ∷ os) s = ground (arith, is_active-perform o s, won-perform_all os (perform o s))
