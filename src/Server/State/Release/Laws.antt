-- ===== src/Server/State/Release/Laws.antt =====
-- What the release of a session promises: nothing is given back too early, and in the end it is.
use ostool.Prelude.{
  ◌≡◌, ◌⊎◌, refl, sym, ap, ◌∙◌, inl, inr, Bool, true, false, ◌||◌, List, [], ◌∷◌, arith, Bool-cases,
  Text,
}
use ostool.Server.Outcome.{any, Result-cases}
use ostool.Server.Session.{snapshot}
use ostool.Server.State.{ReleaseJob, AppState, complete_session_release}
use ostool.Server.State.Release.{
  Round, Progress, Step, is_ok, attempt, power_step, tftp_step, make_progress, is_finished,
  finished, again, fail_round, complete_round, release_round, or_next, release_loop, with_errors,
  completion_error, not_started, process_release_job,
}

pub make_progress_flags :
    (r : Round) (p : Progress)
    → ((make_progress r p).0.session_tasks_stopped ≡ (p.session_tasks_stopped || is_ok r.tasks))
      × ((make_progress r p).0.board_powered_off ≡ (p.board_powered_off || is_ok (power_step r)))
      × ((make_progress r p).0.tftp_cleaned ≡ (p.tftp_cleaned || is_ok (tftp_step r)))
unfolding make_progress attempt
make_progress_flags r p = ground arith

complete_round_cases :
    (r : Round) (b id : Text) (p : Progress) (s : AppState)
    → ((s' : AppState) × (complete_round r b id p s ≡ finished s'))
      ⊎ ((s' : AppState) × (complete_round r b id p s ≡ again p s'))
unfolding complete_round fail_round
complete_round_cases r b id p s = elim (Result-cases (complete_session_release r.now b id s).0) [
  | inl (u, e) ↦ inl ((complete_session_release r.now b id s).1, rw (e, complete_round))
  | inr (x, e) ↦ inr (with_errors r b id (completion_error b id x) s, rw (e, complete_round))
]

-- A round goes on with its progress, or finishes with all its flags set.
pub release_round_cases :
    (r : Round) (b id : Text) (p : Progress) (s : AppState)
    → ((s' : AppState) × (release_round r b id p s ≡ finished s')
        × (is_finished (make_progress r p).0 (make_progress r p).1 ≡ true))
      ⊎ ((s' : AppState) × (release_round r b id p s ≡ again (make_progress r p).0 s'))
unfolding release_round fail_round
release_round_cases r b id p s =
    elim (Bool-cases (is_finished (make_progress r p).0 (make_progress r p).1)) [
      | inl done ↦ elim (complete_round_cases r b id (make_progress r p).0 (r.meanwhile s)) [
        | inl (after, e) ↦ inl (after, rw (done, release_round) e, done)
        | inr (after, e) ↦ inr (after, rw (done, release_round) e)
      ]
      | inr more ↦
          inr (with_errors r b id (make_progress r p).1 (r.meanwhile s), rw (more, release_round))
    ]

finished_flags :
    (p : Progress) (errors : List Text)
    → is_finished p errors ≡ true
    → (p.session_tasks_stopped ≡ true) × (p.board_powered_off ≡ true) × (p.tftp_cleaned ≡ true)
unfolding is_finished
finished_flags p errors h = ground arith

-- Whether a step has been made before the rounds or succeeds in one of them.
made : Bool → (Round → Step) → List Round → Bool
made done step rs = done || any (λ r. is_ok (step r)) rs

made-next :
    (done : Bool) (step : Round → Step) (r : Round) (rs : List Round)
    → made (done || is_ok (step r)) step rs ≡ made done step (r ∷ rs)
unfolding made any
made-next true step r rs = refl
made-next false step r rs = refl

made_now :
    (done : Bool) (step : Round → Step) (r : Round) (rs : List Round)
    → (done || is_ok (step r)) ≡ true
    → made done step (r ∷ rs) ≡ true
unfolding made any
made_now done step r rs h = ground arith

abbrev AllMade : Progress → List Round → Type 0
AllMade p rs =
    (made p.session_tasks_stopped (λ r. r.tasks) rs ≡ true)
    × (made p.board_powered_off power_step rs ≡ true)
    × (made p.tftp_cleaned tftp_step rs ≡ true)

release_loop-AllMade :
    (rs : List Round) (b id : Text) (p : Progress) (s s' : AppState)
    → release_loop rs b id p s ≡ finished s'
    → AllMade p rs
unfolding release_loop
release_loop-AllMade [] b id p s s' e = absurd (cc)
release_loop-AllMade (r ∷ rs) b id p s s' e = elim (release_round_cases r b id p s) [
  | inl (after, f, done) ↦
      let (stopped, off, cleaned) =
        finished_flags (make_progress r p).0 (make_progress r p).1 done in
      let (fs, fo, fc) = make_progress_flags r p in
      (
        made_now p.session_tasks_stopped (λ r. r.tasks) r rs (sym fs ∙ stopped),
        made_now p.board_powered_off power_step r rs (sym fo ∙ off),
        made_now p.tftp_cleaned tftp_step r rs (sym fc ∙ cleaned),
      )
  | inr (after, f) ↦
      let (ms, mo, mc) =
        release_loop-AllMade rs b id (make_progress r p).0 after s'
          (sym (ap (or_next (release_loop rs b id)) f) ∙ e) in
      let (fs, fo, fc) = make_progress_flags r p in
      (
        sym (made-next p.session_tasks_stopped (λ r. r.tasks) r rs)
            ∙ ap (λ d. made d (λ r. r.tasks) rs) (sym fs)
            ∙ ms,
        sym (made-next p.board_powered_off power_step r rs)
            ∙ ap (λ d. made d power_step rs) (sym fo)
            ∙ mo,
        sym (made-next p.tftp_cleaned tftp_step r rs) ∙ ap (λ d. made d tftp_step rs) (sym fc) ∙ mc,
      )
]

-- Whatever other tasks do, a release that has finished has, in some round, seen the session's tasks
-- stop, in some round powered the board off, and in some round removed the session's files.
pub process_release_job-finished :
    (rs : List Round) (job : ReleaseJob) (s s' : AppState)
    → process_release_job rs job s ≡ finished s'
    → (any (λ r. is_ok r.tasks) rs ≡ true)
      × (any (λ r. is_ok (power_step r)) rs ≡ true)
      × (any (λ r. is_ok (tftp_step r)) rs ≡ true)
unfolding process_release_job made
process_release_job-finished rs job s s' e =
    release_loop-AllMade rs (snapshot job.session).board_id (snapshot job.session).id not_started s
      s' e
