-- ===== src/Server/State/Release.antt =====
-- `process_release_job` and `retry_release_step` of state.rs. What a round of the job's loop takes
-- from outside is an argument: how the wait for the session's tasks ends, what each attempt to power
-- the board off and to remove the session's files gives, and what other tasks do to the state until
-- the round looks at it. The delays are left out.
pub mod Retry
pub mod Laws
pub mod Ends
use ostool.Prelude.{
  ℕ, zero, suc, ◌+◌, ◌-◌, ◌*◌, ◌/◌, ◌%◌, ◌^◌, ◌≤◌, ◌<◌, min, ◌≡◌, ◌≢◌, ◌↔◌, ◌⊎◌, refl, sym, ap, ◌∙◌,
  inl, inr, Bool, true, false, not, ◌&&◌, ◌||◌, Option, none, some, List, [], ◌∷◌, ◌++◌, map,
  append-nil, append_assoc, arith, ltb, leb, ◌==◌, if◌then◌else◌, ltb→lt, lt→ltb, ==_iff, ==_refl,
  Bool-cases, Option-cases, and_true, length, get_elem?, get_or, take, drop, replicate, All,
  length-append, All-append, IsByte, Text, codes, text_eq, text_eq_iff, text_eq_refl, text_lt,
}
use mathlib.Core.Option
use ostool.Server.Outcome.{Result, ok, err, is_empty}
use ostool.Server.Session.{SessionState, snapshot}
use ostool.Server.State.{
  AppState, ReleaseJob, LeaseError, runtime_not_found, not_owned, no_longer_associated,
  session_disappeared, complete_session_release, mark_board_error,
}

abbrev pub release_retry_attempts : ℕ
release_retry_attempts = 3

abbrev pub Step : Type 0
Step = Result Text (Unit {0})

-- The loop of `retry_release_step`, from an attempt on; `operation` is what each attempt gives.
unfoldable pub retry_from : ℕ → ℕ → (ℕ → Step) → Option Text → Step
retry_from zero attempt operation last_error =
    err (Option.get_or last_error (codes "release step failed"))
retry_from (suc more) attempt operation last_error = elim (operation attempt) [
  | ok _ ↦ ok tt
  | err e ↦ retry_from more (attempt + 1) operation (some e)
]

unfoldable pub retry_release_step : ℕ → (ℕ → Step) → Step
retry_release_step attempts operation = retry_from attempts 1 operation none

pub record Round : Type 0 where
  pub now : ℕ
  pub tasks : Step
  pub power_off : ℕ → Step
  pub remove_session_dir : ℕ → Step
  pub meanwhile : AppState → AppState

-- The four flags of the loop.
pub record Progress : Type 0 where
  pub session_tasks_stopped : Bool
  pub board_powered_off : Bool
  pub release_settled : Bool
  pub tftp_cleaned : Bool

abbrev pub not_started : Progress
not_started = record {
  session_tasks_stopped = false;
  board_powered_off = false;
  release_settled = false;
  tftp_cleaned = false;
}

abbrev pub is_ok : Step → Bool
is_ok (ok _) = true
is_ok (err e) = false

abbrev pub error_of : Text → Step → List Text
error_of label (ok _) = []
error_of label (err e) = (label ++ e) ∷ []

-- A step of the release is made unless it has been: the flag and the errors after it.
unfoldable pub attempt : Bool → Text → Step → Bool × List Text
attempt done label step = if done then (true, []) else (is_ok step, error_of label step)

abbrev pub power_step : Round → Step
power_step r = retry_release_step release_retry_attempts r.power_off

abbrev pub tftp_step : Round → Step
tftp_step r = retry_release_step release_retry_attempts r.remove_session_dir

-- The steps of a round: the flags and the errors after them.
unfoldable pub make_progress : Round → Progress → Progress × List Text
make_progress r p =
    let (stopped, e1) = attempt p.session_tasks_stopped [] r.tasks in
    let (off, e2) = attempt p.board_powered_off (codes "power-off failed: ") (power_step r) in
    let (cleaned, e3) = attempt p.tftp_cleaned (codes "tftp cleanup failed: ") (tftp_step r) in
    (
      record {
        session_tasks_stopped = stopped;
        board_powered_off = off;
        release_settled = p.release_settled || (stopped && off);
        tftp_cleaned = cleaned;
      },
      e1 ++ (e2 ++ e3),
    )

unfoldable pub is_finished : Progress → List Text → Bool
is_finished p errors =
    is_empty errors
    && p.session_tasks_stopped
    && p.board_powered_off
    && p.release_settled
    && p.tftp_cleaned

-- `errors.join("; ")`
unfoldable pub join : List Text → Text
join [] = []
join (e ∷ []) = e
join (e ∷ f ∷ es) = e ++ (codes "; " ++ join (f ∷ es))

-- The text of the error of `complete_session_release`.
unfoldable pub describe : Text → Text → LeaseError → Text
describe board_id session_id runtime_not_found =
    codes "board runtime `" ++ (board_id ++ codes "` not found")
describe board_id session_id not_owned =
    codes "board `"
    ++ (board_id
        ++ (codes "` is not owned by session `"
            ++ (session_id ++ codes "` during release transition")))
describe board_id session_id no_longer_associated =
    codes "board `"
    ++ (board_id ++ (codes "` is no longer associated with session `" ++ (session_id ++ codes "`")))
describe board_id session_id session_disappeared =
    codes "session `" ++ (session_id ++ codes "` disappeared before board release completed")

abbrev pub completion_error : Text → Text → LeaseError → List Text
completion_error board_id session_id e =
    (codes "failed to mark board idle: " ++ describe board_id session_id e) ∷ []

pub data RoundEnd : Type 0 where
  finished : AppState → RoundEnd
  again : Progress → AppState → RoundEnd

-- The board gets the errors; what `mark_board_error` says is logged.
abbrev pub with_errors : Round → Text → Text → List Text → AppState → AppState
with_errors r board_id session_id errors s = record s {
  board_runtimes = (mark_board_error r.now board_id session_id (join errors) s.board_runtimes).1;
}

unfoldable pub fail_round : Round → Text → Text → Progress → List Text → AppState → RoundEnd
fail_round r board_id session_id p errors s = again p (with_errors r board_id session_id errors s)

-- A round whose steps are made: `complete_session_release` ends the job, or gives one more error.
unfoldable pub complete_round : Round → Text → Text → Progress → AppState → RoundEnd
complete_round r board_id session_id p s =
    let (result, after) = complete_session_release r.now board_id session_id s in
    elim result [
      | ok _ ↦ finished after
      | err e ↦ fail_round r board_id session_id p (completion_error board_id session_id e) s
    ]

unfoldable pub release_round : Round → Text → Text → Progress → AppState → RoundEnd
release_round r board_id session_id p s =
    let (p', errors) = make_progress r p in
    let s' = r.meanwhile s in
    if is_finished p' errors
    then complete_round r board_id session_id p' s'
    else fail_round r board_id session_id p' errors s'

abbrev pub or_next : (Progress → AppState → RoundEnd) → RoundEnd → RoundEnd
or_next next (finished s) = finished s
or_next next (again p s) = next p s

-- The loop over the rounds; `again` at their end means that it still runs.
unfoldable pub release_loop : List Round → Text → Text → Progress → AppState → RoundEnd
release_loop [] board_id session_id p s = again p s
release_loop (r ∷ rs) board_id session_id p s =
    or_next (release_loop rs board_id session_id) (release_round r board_id session_id p s)

unfoldable pub process_release_job : List Round → ReleaseJob → AppState → RoundEnd
process_release_job rounds job s =
    let info = snapshot job.session in release_loop rounds info.board_id info.id not_started s
