-- ===== src/Server/State/Sessions/Expiry.antt =====
-- Which sessions `cleanup_expired_sessions` stops.
use ostool.Prelude.{
  ℕ, ◌+◌, ◌<◌, ◌≤◌, ◌≡◌, ◌⊎◌, ◌∙◌, refl, ap, ◌++◌, All, All-imply, leb, text_eq_refl, inl, inr,
  true, false, Option, none, some, List, [], ◌∷◌, map, arith, if◌then◌else◌, Bool-cases, Text,
}
use ostool.Prelude.Map.{lookup, lookup-modify_self}
use ostool.Server.Outcome.{filter, has}
use ostool.Server.Session.{
  SessionState, SessionLifecycleState, active, releasing, lifecycle, expired, snapshot, heartbeat,
  touch, is_releasing, request_stop, session_ttl,
}
use ostool.Server.State.{AppState}
use ostool.Server.State.Sessions.{heartbeat_session, is_due, expire_loop, cleanup_expired_sessions}

-- What becomes of a session.
unfoldable pub expire : ℕ → SessionState → SessionState
expire now session = if is_due now session then request_stop expired session else session

abbrev pub expire_entry : ℕ → Option SessionState → Option SessionState
expire_entry now none = none
expire_entry now (some session) = some (expire now session)

lookup-expire_loop :
    (now : ℕ) (id : Text) (m : List (Text × SessionState))
    → lookup id (expire_loop now m).1 ≡ expire_entry now (lookup id m)
unfolding expire_loop lookup expire
lookup-expire_loop now id [] = refl
lookup-expire_loop now id ((k, session) ∷ m) = elim (Bool-cases (is_due now session)) [
  | inl due ↦ ground (arith, lookup-expire_loop now id m)
  | inr kept ↦ ground (arith, lookup-expire_loop now id m)
]

ids-expire_loop :
    (now : ℕ) (m : List (Text × SessionState))
    → (expire_loop now m).0 ≡ map (λ e. e.1.info.id) (filter (λ e. is_due now e.1) m)
unfolding expire_loop filter snapshot
ids-expire_loop now [] = refl
ids-expire_loop now ((k, session) ∷ m) = ground (arith, ids-expire_loop now m)

-- The clean-up, session by session.
pub cleanup_expired_sessions-expire :
    (now : ℕ) (s : AppState)
    → ((id : Text)
        → lookup id (cleanup_expired_sessions now s).1.sessions
          ≡ expire_entry now (lookup id s.sessions))
      × ((cleanup_expired_sessions now s).0
          ≡ map (λ e. e.1.info.id) (filter (λ e. is_due now e.1) s.sessions))
      × ((cleanup_expired_sessions now s).1.board_runtimes ≡ s.board_runtimes)
      × ((cleanup_expired_sessions now s).1.boards ≡ s.boards)
      × ((cleanup_expired_sessions now s).1.release_tx ≡ s.release_tx)
unfolding cleanup_expired_sessions
cleanup_expired_sessions-expire now s =
    (λ id. lookup-expire_loop now id s.sessions, ids-expire_loop now s.sessions, refl, refl, refl)

-- The session is active, and its time is over.
abbrev pub IsOver : ℕ → SessionState → Type 0
IsOver now session = (lifecycle session ≡ active) × (session.info.expires_at ≤ now)

-- One of these sessions is over and has this identifier.
abbrev pub IsOverId : ℕ → List (Text × SessionState) → Text → Type 0
IsOverId now m id =
    (front : List (Text × SessionState)) × (k : Text) × (session : SessionState) × (back : List
      (Text × SessionState))
    × (m ≡ front ++ ((k, session) ∷ back))
    × (session.info.id ≡ id)
    × (lifecycle session ≡ active)
    × (session.info.expires_at ≤ now)

is_due-IsOver :
    (now : ℕ) (session : SessionState)
    → ((is_due now session ≡ true) × (lifecycle session ≡ active) × (session.info.expires_at ≤ now))
      ⊎ ((is_due now session ≡ false) × ¬ IsOver now session)
unfolding is_due snapshot
is_due-IsOver now session = by_state (lifecycle session) refl
  where
    by_state :
        (l : SessionLifecycleState)
        → lifecycle session ≡ l
        → ((is_due now session ≡ true)
            × (lifecycle session ≡ active)
            × (session.info.expires_at ≤ now))
          ⊎ ((is_due now session ≡ false) × ¬ IsOver now session)
    by_state releasing e = inr (rw e refl, λ h. absurd (cc))
    by_state active e = elim (Bool-cases (leb session.info.expires_at now)) [
      | inl late ↦ inl (simp (e, late) refl, e, ground arith)
      | inr early ↦ inr (simp (e, early) refl, λ h. ground (arith, h.1))
    ]

IsOverId-behind :
    (now : ℕ) (k : Text) (session : SessionState) (m : List (Text × SessionState)) (id : Text)
    → IsOverId now m id
    → IsOverId now ((k, session) ∷ m) id
IsOverId-behind now k session m id (front, j, x, back, parts, named, alive, late) =
    ((k, session) ∷ front, j, x, back, ap (λ r. (k, session) ∷ r) parts, named, alive, late)

ids-IsOverId :
    (now : ℕ) (m : List (Text × SessionState)) → All (IsOverId now m) (expire_loop now m).0
unfolding expire_loop snapshot
ids-IsOverId now [] = tt
ids-IsOverId now ((k, session) ∷ m) =
    let others : All (IsOverId now ((k, session) ∷ m)) (expire_loop now m).0 =
      All-imply (IsOverId now m) (IsOverId now ((k, session) ∷ m)) (expire_loop now m).0
        (IsOverId-behind now k session m) (ids-IsOverId now m) in
    elim (is_due-IsOver now session) [
      | inl (due, alive, late) ↦ rw due (([], k, session, m, refl, refl, alive, late), others)
      | inr (kept, more) ↦ rw kept others
    ]

has-ids :
    (now : ℕ) (id : Text) (m : List (Text × SessionState)) (session : SessionState)
    → lookup id m ≡ some session
    → is_due now session ≡ true
    → has session.info.id (expire_loop now m).0 ≡ true
unfolding expire_loop lookup has snapshot
has-ids now id [] session e due = absurd (cc)
has-ids now id ((k, x) ∷ m) session e due =
    ground (arith, has-ids now id m session, text_eq_refl session.info.id)

keys-expire_loop :
    (now : ℕ) (m : List (Text × SessionState))
    → map (λ e. e.0) (expire_loop now m).1 ≡ map (λ e. e.0) m
unfolding expire_loop
keys-expire_loop now [] = refl
keys-expire_loop now ((k, session) ∷ m) = ground (arith, keys-expire_loop now m)

-- What the clean-up makes of a session: it is asked to stop and named, or stays as it is.
abbrev pub IsCleaned : ℕ → SessionState → List Text → Option SessionState → Type 0
IsCleaned now session ids found =
    (IsOver now session
      × (found ≡ some (request_stop expired session))
      × (has session.info.id ids ≡ true))
    ⊎ ((¬ IsOver now session) × (found ≡ some session))

-- A session that is active and whose `expires_at` has come is asked to stop, as expired, and its
-- identifier is given; every other session of the map stays as it is. Each identifier that is given
-- belongs to a session that is active and whose time has come; no session is added or removed; and the
-- boards, their runtimes and the queue of release jobs are not touched.
pub cleanup_expired_sessions_lem :
    (now : ℕ) (s : AppState) (id : Text) (session : SessionState)
    → lookup id s.sessions ≡ some session
    → let (ids, t) = cleanup_expired_sessions now s in
      IsCleaned now session ids (lookup id t.sessions)
      × All (IsOverId now s.sessions) ids
      × (map (λ e. e.0) t.sessions ≡ map (λ e. e.0) s.sessions)
      × (t.board_runtimes ≡ s.board_runtimes)
      × (t.boards ≡ s.boards)
      × (t.release_tx ≡ s.release_tx)
unfolding cleanup_expired_sessions expire
cleanup_expired_sessions_lem now s id session e = (
  elim (is_due-IsOver now session) [
    | inl (due, alive, late) ↦ inl (
      (alive, late),
      lookup-expire_loop now id s.sessions ∙ ap (expire_entry now) e ∙ rw due refl,
      has-ids now id s.sessions session e due,
    )
    | inr (kept, live) ↦
        inr (live, lookup-expire_loop now id s.sessions ∙ ap (expire_entry now) e ∙ rw kept refl)
  ],
  ids-IsOverId now s.sessions,
  keys-expire_loop now s.sessions,
  refl,
  refl,
  refl,
)

not_due :
    (then_ now : ℕ) (session : SessionState)
    → now < then_ + session_ttl
    → is_due now (heartbeat then_ session).1 ≡ false
unfolding is_due heartbeat touch snapshot
not_due then_ now session h = ground arith

-- A session that was not releasing at its heartbeat is not touched by any clean-up within the
-- ten seconds after it.
pub cleanup_expired_sessions-heartbeat_session :
    (beat now : ℕ) (id : Text) (s : AppState) (session : SessionState)
    → lookup id s.sessions ≡ some session
    → is_releasing session ≡ false
    → now < beat + session_ttl
    → lookup id (cleanup_expired_sessions now (heartbeat_session beat id s).1).1.sessions
      ≡ some (heartbeat beat session).1
unfolding heartbeat_session expire
cleanup_expired_sessions-heartbeat_session beat now id s session e live h = ground (
  arith,
  (cleanup_expired_sessions-expire now (heartbeat_session beat id s).1).0 id,
  lookup-modify_self id (λ x. (heartbeat beat x).1) s.sessions e,
  not_due beat now session h,
)
