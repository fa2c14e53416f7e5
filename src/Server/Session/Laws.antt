-- ===== src/Server/Session/Laws.antt =====
-- Theorems on session.rs: what any sequence of operations, from any tasks, leaves true.
use ostool.Prelude.{
  ℕ, Bool, false, Option, none, some, List, [], ◌∷◌, Text, text_eq, text_eq_iff, ◌≡◌, refl, ap, ◌∙◌,
  sym, ◌⊎◌, inl, inr, arith, Bool-cases, Option-cases,
}
use mathlib.Core.Path.{subst}
use ostool.Server.Outcome.{ok, err}
use ostool.Server.BoardPool.{BoardConfig}
use ostool.Server.Session.{
  SessionState, SessionStopReason, SessionBootCommand, LoaderStatusPhase, LoaderStatusResponse,
  SessionLoaderState, no_boot_command, stale_boot, new_with_id, new_inner, heartbeat, touch,
  begin_release, request_stop, send_stop, signal_shutdown, try_set_serial_connected,
  clear_serial_connected, set_serial_connected, publish_boot_command, update_loader_status,
  loader_status,
}

-- An operation of a task on the session. Its `drop` is none of them: nothing comes after it.
pub data Operation : Type 0 where
  heartbeats : (now : ℕ) → Operation
  releases : Operation
  stops : SessionStopReason → Operation
  shuts_down : Operation
  connects : Operation
  disconnects : Operation
  sets_connected : Bool → Operation
  publishes : SessionBootCommand → Operation
  reports : (registration_id boot_id : Text) → LoaderStatusPhase → Operation

unfoldable pub perform : Operation → SessionState → SessionState
perform (heartbeats now) s = (heartbeat now s).1
perform releases s = (begin_release s).1
perform (stops reason) s = request_stop reason s
perform shuts_down s = signal_shutdown s
perform connects s = (try_set_serial_connected s).1
perform disconnects s = clear_serial_connected s
perform (sets_connected connected) s = set_serial_connected connected s
perform (publishes command) s = publish_boot_command command s
perform (reports registration_id boot_id phase) s =
    (update_loader_status registration_id boot_id phase s).1

unfoldable pub perform_all : List Operation → SessionState → SessionState
perform_all [] s = s
perform_all (o ∷ os) s = perform_all os (perform o s)

-- The boot command of the last operation that publishes one, or this one before there is any.
unfoldable pub published_after :
    Option SessionBootCommand → List Operation → Option SessionBootCommand
published_after before [] = before
published_after before (publishes command ∷ os) = published_after (some command) os
published_after before (heartbeats now ∷ os) = published_after before os
published_after before (releases ∷ os) = published_after before os
published_after before (stops reason ∷ os) = published_after before os
published_after before (shuts_down ∷ os) = published_after before os
published_after before (connects ∷ os) = published_after before os
published_after before (disconnects ∷ os) = published_after before os
published_after before (sets_connected connected ∷ os) = published_after before os
published_after before (reports registration_id boot_id phase ∷ os) = published_after before os

-- A report, if there is one, is on the boot command of now and of this session.
pub Reports : Text → SessionLoaderState → Type 0
Reports id loader =
    (r : LoaderStatusResponse)
    → loader.status ≡ some r
    → (c : SessionBootCommand) × ((loader.boot_command ≡ some c)
        × ((r.boot_id ≡ c.boot_id) × (r.session_id ≡ id)))

id-request_stop :
    (reason : SessionStopReason) (s : SessionState) → (request_stop reason s).info.id ≡ s.info.id
unfolding request_stop send_stop
id-request_stop reason s = elim (Option-cases s.command_tx) [
  | inl n ↦ ground (arith)
  | inr (l, f) ↦ ground (arith)
]

loader-request_stop :
    (reason : SessionStopReason) (s : SessionState) → (request_stop reason s).loader ≡ s.loader
unfolding request_stop send_stop
loader-request_stop reason s = elim (Option-cases s.command_tx) [
  | inl n ↦ ground (arith)
  | inr (l, f) ↦ ground (arith)
]

id-update_loader_status :
    (registration_id boot_id : Text) (phase : LoaderStatusPhase) (s : SessionState)
    → (update_loader_status registration_id boot_id phase s).1.info.id ≡ s.info.id
unfolding update_loader_status
id-update_loader_status registration_id boot_id phase s =
    elim (Option-cases s.loader.boot_command) [
      | inl n ↦ ground (arith)
      | inr (c, f) ↦ ground (arith)
    ]

-- No operation changes the session's identifier.
id-perform : (o : Operation) (s : SessionState) → (perform o s).info.id ≡ s.info.id
unfolding perform heartbeat touch begin_release signal_shutdown try_set_serial_connected
    clear_serial_connected set_serial_connected publish_boot_command
id-perform (heartbeats now) s = refl
id-perform releases s = ground (arith)
id-perform (stops reason) s = id-request_stop reason s
id-perform shuts_down s = refl
id-perform connects s = ground (arith)
id-perform disconnects s = refl
id-perform (sets_connected connected) s = refl
id-perform (publishes command) s = refl
id-perform (reports registration_id boot_id phase) s =
    id-update_loader_status registration_id boot_id phase s

-- The state after a report that is accepted.
unfoldable pub reported : Text → Text → LoaderStatusPhase → SessionState → SessionState
reported registration_id boot_id phase s = record s {
  loader = record (s.loader) {
    status = some (record {
      session_id = s.info.id;
      boot_id = boot_id;
      registration_id = some registration_id;
      status = some phase;
    });
  };
}

-- A report is refused without a change of the session when there is no boot command or when it is
-- on another boot, and it is stored with the session's identifier otherwise: one of the three holds.
pub update_loader_status_cases :
    (registration_id boot_id : Text) (phase : LoaderStatusPhase) (s : SessionState)
    → ((s.loader.boot_command ≡ none)
        × (update_loader_status registration_id boot_id phase s ≡ (err no_boot_command, s)))
      ⊎ ((c : SessionBootCommand) × ((s.loader.boot_command ≡ some c)
            × (((text_eq c.boot_id boot_id ≡ false)
                  × (update_loader_status registration_id boot_id phase s ≡ (err stale_boot, s)))
                ⊎ ((c.boot_id ≡ boot_id)
                    × (update_loader_status registration_id boot_id phase s
                        ≡ (ok tt, reported registration_id boot_id phase s))))))
unfolding update_loader_status reported
update_loader_status_cases registration_id boot_id phase s =
    elim (Option-cases s.loader.boot_command) [
      | inl n ↦ inl (n, ground (arith))
      | inr (c, f) ↦ inr (
        c,
        (
          f,
          elim (Bool-cases (text_eq c.boot_id boot_id)) [
            | inl same ↦ inr ((text_eq_iff c.boot_id boot_id).0 same, ground (arith))
            | inr other ↦ inl (other, ground (arith))
          ],
        ),
      )
    ]

Reports-update_loader_status :
    (registration_id boot_id : Text) (phase : LoaderStatusPhase) (s : SessionState)
    → Reports s.info.id s.loader
    → Reports s.info.id (update_loader_status registration_id boot_id phase s).1.loader
unfolding Reports reported
Reports-update_loader_status registration_id boot_id phase s h =
    elim (update_loader_status_cases registration_id boot_id phase s) [
      | inl (n, e) ↦ subst (λ p. Reports s.info.id p.1.loader) (sym e) h
      | inr (c, (f, inl (other, e))) ↦ subst (λ p. Reports s.info.id p.1.loader) (sym e) h
      | inr (c, (f, inr (same, e))) ↦
          subst (λ p. Reports s.info.id p.1.loader) (sym e) λ r. λ g. (c, (f, (cc, cc)))
    ]

Reports-publish_boot_command :
    (command : SessionBootCommand) (s : SessionState)
    → Reports s.info.id (publish_boot_command command s).loader
unfolding Reports publish_boot_command
Reports-publish_boot_command command s r e = absurd (cc)

Reports-perform :
    (o : Operation) (s : SessionState)
    → Reports s.info.id s.loader
    → Reports s.info.id (perform o s).loader
unfolding perform heartbeat touch begin_release signal_shutdown try_set_serial_connected
    clear_serial_connected set_serial_connected
Reports-perform (heartbeats now) s h = h
Reports-perform releases s h = subst (Reports s.info.id) (ground (arith)) h
Reports-perform (stops reason) s h =
    subst (Reports s.info.id) (sym (loader-request_stop reason s)) h
Reports-perform shuts_down s h = h
Reports-perform connects s h = subst (Reports s.info.id) (ground (arith)) h
Reports-perform disconnects s h = h
Reports-perform (sets_connected connected) s h = h
Reports-perform (publishes command) s h = Reports-publish_boot_command command s
Reports-perform (reports registration_id boot_id phase) s h =
    Reports-update_loader_status registration_id boot_id phase s h

Reports-perform_all :
    (os : List Operation) (s : SessionState)
    → Reports s.info.id s.loader
    → Reports s.info.id (perform_all os s).loader
unfolding perform_all
Reports-perform_all [] s h = h
Reports-perform_all (o ∷ os) s h =
    subst (λ id. Reports id (perform_all os (perform o s)).loader) (id-perform o s)
      (Reports-perform_all os (perform o s) (
        subst (λ id. Reports id (perform o s).loader) (sym (id-perform o s))
          (Reports-perform o s h)))

id-perform_all : (os : List Operation) (s : SessionState) → (perform_all os s).info.id ≡ s.info.id
unfolding perform_all
id-perform_all [] s = refl
id-perform_all (o ∷ os) s = id-perform_all os (perform o s) ∙ id-perform o s

boot_command-update_loader_status :
    (registration_id boot_id : Text) (phase : LoaderStatusPhase) (s : SessionState)
    → (update_loader_status registration_id boot_id phase s).1.loader.boot_command
      ≡ s.loader.boot_command
unfolding update_loader_status
boot_command-update_loader_status registration_id boot_id phase s =
    elim (Option-cases s.loader.boot_command) [
      | inl n ↦ ground (arith)
      | inr (c, f) ↦ ground (arith)
    ]

-- The boot command of a session is the one published last.
boot_command-perform_all :
    (os : List Operation) (s : SessionState)
    → (perform_all os s).loader.boot_command ≡ published_after s.loader.boot_command os
unfolding perform_all perform published_after heartbeat touch begin_release signal_shutdown
    try_set_serial_connected clear_serial_connected set_serial_connected publish_boot_command
boot_command-perform_all [] s = refl
boot_command-perform_all (o ∷ os) s = boot_command-perform_all os (perform o s) ∙ after_one o
  where
    after_one :
        (p : Operation)
        → published_after (perform p s).loader.boot_command os
          ≡ published_after s.loader.boot_command (p ∷ os)
    after_one (heartbeats now) = refl
    after_one releases = ap (λ c. published_after c os) (ground arith)
    after_one (stops reason) =
        ap (λ l. published_after l.boot_command os) (loader-request_stop reason s)
    after_one shuts_down = refl
    after_one connects = ap (λ c. published_after c os) (ground arith)
    after_one disconnects = refl
    after_one (sets_connected connected) = refl
    after_one (publishes command) = refl
    after_one (reports registration_id boot_id phase) =
        ap (λ c. published_after c os)
          (boot_command-update_loader_status registration_id boot_id phase s)

loader_status-Reports :
    (s : SessionState) (r : LoaderStatusResponse)
    → Reports s.info.id s.loader
    → loader_status s ≡ some r
    → (c : SessionBootCommand) × ((s.loader.boot_command ≡ some c)
        × ((r.boot_id ≡ c.boot_id) × (r.session_id ≡ s.info.id)))
unfolding loader_status Reports
loader_status-Reports s r h e = elim (Option-cases s.loader.status) [
  | inl n ↦ elim (Option-cases s.loader.boot_command) [
    | inl m ↦ absurd (cc)
    | inr (c, f) ↦ (c, (f, (cc, cc)))
  ]
  | inr (t, f) ↦ h r (cc)
]

Reports-new_inner :
    (now : ℕ) (session_id : Text) (board : BoardConfig) (client_name : Option Text)
    (command_tx : Option (List SessionStopReason))
    → Reports session_id (new_inner now session_id board client_name command_tx).loader
unfolding Reports new_inner
Reports-new_inner now session_id board client_name command_tx r e = absurd (cc)

id-new_inner :
    (now : ℕ) (session_id : Text) (board : BoardConfig) (client_name : Option Text)
    (command_tx : Option (List SessionStopReason))
    → (new_inner now session_id board client_name command_tx).info.id ≡ session_id
unfolding new_inner new_with_id
id-new_inner now session_id board client_name command_tx = refl

-- After any sequence of operations on a new session, the status that `loader_status` gives is on the
-- boot command of the last publication of the sequence, so that there is one, and carries the session's
-- own identifier: a report on an earlier boot is never shown.
pub loader_status-perform_all :
    (now : ℕ) (session_id : Text) (board : BoardConfig) (client_name : Option Text)
    (command_tx : Option (List SessionStopReason)) (os : List Operation) (r : LoaderStatusResponse)
    → loader_status (perform_all os (new_inner now session_id board client_name command_tx))
      ≡ some r
    → (c : SessionBootCommand) × ((published_after none os ≡ some c)
        × ((r.boot_id ≡ c.boot_id) × (r.session_id ≡ session_id)))
unfolding new_inner new_with_id
loader_status-perform_all now session_id board client_name command_tx os r e =
    let (c, (published, (boot, named))) =
      loader_status-Reports (perform_all os fresh) r
        (subst (λ id. Reports id (perform_all os fresh).loader) (sym (id-perform_all os fresh))
          (Reports-perform_all os fresh
            (Reports-new_inner now session_id board client_name command_tx)))
        e in
    (
      c,
      (
        sym (boot_command-perform_all os fresh) ∙ published,
        (boot, named ∙ id-perform_all os fresh),
      ),
    )
  where
    fresh : SessionState
    fresh = new_inner now session_id board client_name command_tx
