-- ===== src/Server/State/Release/Ends.antt =====
-- The release of a session ends once its steps can be made.
use ostool.Prelude.{
  ◌≡◌, ◌⊎◌, refl, ap, ◌∙◌, inl, inr, Bool, true, ◌||◌, none, some, List, [], ◌∷◌, ◌++◌, arith,
  Bool-cases, All, Text, codes, text_eq_refl,
}
use ostool.Prelude.Map.{lookup, remove, modify, contains_key, lookup-modify_self, lookup-remove}
use ostool.Server.Outcome.{is_empty}
use ostool.Server.Session.{snapshot}
use ostool.Server.State.{
  AppState, ReleaseJob, BoardRuntimeState, default, is_idle, owned_by, complete_session_release,
}
use ostool.Server.State.Transitions.{mark_board_error_cases, set_error}
use ostool.Server.State.Release
use ostool.Server.State.Release.{
  Round, Progress, Step, is_ok, attempt, power_step, tftp_step, make_progress, is_finished,
  RoundEnd, finished, again, fail_round, complete_round, release_round, or_next, release_loop,
  with_errors, completion_error, not_started, process_release_job,
}

-- The session has the board, and is in the map.
abbrev pub HasLease : Text → Text → AppState → Type 0
HasLease board_id session_id s =
    (r : BoardRuntimeState) × (lookup board_id s.board_runtimes ≡ some r)
    × (r.active_session_id ≡ some session_id)
    × (contains_key session_id s.sessions ≡ true)

-- The board is idle again, with no error left, and the session is gone.
abbrev pub IsGivenBack : Text → Text → AppState → Type 0
IsGivenBack board_id session_id s =
    (r : BoardRuntimeState) × (lookup board_id s.board_runtimes ≡ some r)
    × (is_idle r.lease_state ≡ true)
    × (r.active_session_id ≡ none)
    × (r.last_release_error ≡ none)
    × (lookup session_id s.sessions ≡ none)

-- What other tasks do during the round does not take the lease away.
abbrev pub KeepsLease : Text → Text → Round → Type 0
KeepsLease board_id session_id r =
    (s : AppState) → HasLease board_id session_id s → HasLease board_id session_id (r.meanwhile s)

-- Every step succeeds in the round.
abbrev pub CanRelease : Round → Type 0
CanRelease r = (is_ok r.tasks ≡ true) × (is_ok (power_step r) ≡ true) × (is_ok (tftp_step r) ≡ true)

complete_round-HasLease :
    (r : Round) (b id : Text) (p : Progress) (s : AppState)
    → HasLease b id s
    → (s' : AppState) × (complete_round r b id p s ≡ finished s') × IsGivenBack b id s'
unfolding complete_round complete_session_release owned_by default is_idle
complete_round-HasLease r b id p s (q, e, a, c) = (
  record s {
    board_runtimes = modify b (λ x. default r.now) s.board_runtimes;
    sessions = remove id s.sessions;
  },
  ground (arith, text_eq_refl id),
  (
    default r.now,
    lookup-modify_self b (λ x. default r.now) s.board_runtimes e,
    refl,
    refl,
    refl,
    lookup-remove id id s.sessions ∙ rw (text_eq_refl id),
  ),
)

with_errors-HasLease :
    (r : Round) (b id : Text) (errors : List Text) (s : AppState)
    → HasLease b id s
    → HasLease b id (with_errors r b id errors s)
with_errors-HasLease r b id errors s (q, e, a, c) =
    elim (mark_board_error_cases r.now b id (Release.join errors) s.board_runtimes) [
      | inl (x, f, g, m) ↦ (
        set_error r.now (Release.join errors) q,
        rw m (lookup-modify_self b (set_error r.now (Release.join errors)) s.board_runtimes e),
        a,
        c,
      )
      | inr m ↦ (q, rw m e, a, c)
    ]

release_round-HasLease :
    (r : Round) (b id : Text) (p : Progress) (s : AppState)
    → KeepsLease b id r
    → HasLease b id s
    → ((s' : AppState) × (release_round r b id p s ≡ finished s') × IsGivenBack b id s')
      ⊎ ((p' : Progress) × (s' : AppState) × (release_round r b id p s ≡ again p' s')
          × HasLease b id s')
unfolding release_round fail_round
release_round-HasLease r b id p s keeps lease =
    elim (Bool-cases (is_finished (make_progress r p).0 (make_progress r p).1)) [
      | inl done ↦
          let (after, e, back) =
            complete_round-HasLease r b id (make_progress r p).0 (r.meanwhile s) (keeps s lease) in
          inl (after, rw (done, release_round) e, back)
      | inr more ↦ inr (
        (make_progress r p).0,
        with_errors r b id (make_progress r p).1 (r.meanwhile s),
        rw (more, release_round),
        with_errors-HasLease r b id (make_progress r p).1 (r.meanwhile s) (keeps s lease),
      )
    ]

attempt-ok :
    (done : Bool) (label : Text) (step : Step)
    → is_ok step ≡ true
    → attempt done label step ≡ (true, [])
unfolding attempt
attempt-ok done label step h = ground arith

settled : (b : Bool) → (b || true) ≡ true
settled b = ground arith

-- A round in which every step succeeds finishes, whatever has been made before.
can_finish :
    (r : Round) (p : Progress)
    → CanRelease r
    → is_finished (make_progress r p).0 (make_progress r p).1 ≡ true
unfolding is_finished make_progress is_empty
can_finish r p (tasks, off, cleaned) = rw (
  attempt-ok p.session_tasks_stopped [] r.tasks tasks,
  attempt-ok p.board_powered_off (codes "power-off failed: ") (power_step r) off,
  attempt-ok p.tftp_cleaned (codes "tftp cleanup failed: ") (tftp_step r) cleaned,
  settled,
)

finishing_round :
    (r : Round) (b id : Text) (p : Progress) (s : AppState)
    → KeepsLease b id r
    → CanRelease r
    → HasLease b id s
    → (s' : AppState) × (release_round r b id p s ≡ finished s') × IsGivenBack b id s'
unfolding release_round
finishing_round r b id p s keeps can lease =
    let (after, e, back) =
      complete_round-HasLease r b id (make_progress r p).0 (r.meanwhile s) (keeps s lease) in
    (after, rw (can_finish r p can, release_round) e, back)

release_loop-CanRelease :
    (front : List Round) (r : Round) (rest : List Round) (b id : Text) (p : Progress) (s : AppState)
    → All (KeepsLease b id) front
    → KeepsLease b id r
    → CanRelease r
    → HasLease b id s
    → (s' : AppState) × (release_loop (front ++ (r ∷ rest)) b id p s ≡ finished s')
      × IsGivenBack b id s'
unfolding release_loop
release_loop-CanRelease [] r rest b id p s ks k can lease =
    let (after, e, back) = finishing_round r b id p s k can lease in
    (after, ap (or_next (release_loop rest b id)) e, back)
release_loop-CanRelease (x ∷ front) r rest b id p s ks k can lease =
    elim (release_round-HasLease x b id p s ks.0 lease) [
      | inl (after, e, back) ↦
          (after, ap (or_next (release_loop (front ++ (r ∷ rest)) b id)) e, back)
      | inr (p', after, e, kept) ↦
          let (last, f, back) =
            release_loop-CanRelease front r rest b id p' after ks.1 k can kept in
          (last, ap (or_next (release_loop (front ++ (r ∷ rest)) b id)) e ∙ f, back)
    ]

-- A session that has its board is released by the first round, at the latest, in which every step
-- succeeds, however the rounds before it fail, if other tasks do not take the lease away in these
-- rounds: the board is idle again, with no error left, and the session is gone from the map.
pub process_release_job-IsGivenBack :
    (front : List Round) (r : Round) (rest : List Round) (job : ReleaseJob) (s : AppState)
    → All (KeepsLease job.session.info.board_id job.session.info.id) front
    → KeepsLease job.session.info.board_id job.session.info.id r
    → CanRelease r
    → HasLease job.session.info.board_id job.session.info.id s
    → (s' : AppState) × (process_release_job (front ++ (r ∷ rest)) job s ≡ finished s')
      × IsGivenBack job.session.info.board_id job.session.info.id s'
unfolding process_release_job snapshot
process_release_job-IsGivenBack front r rest job s =
    release_loop-CanRelease front r rest job.session.info.board_id job.session.info.id not_started s
