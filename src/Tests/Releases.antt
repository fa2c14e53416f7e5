-- ===== src/Tests/Releases.antt =====
-- ostool-server: the release of a session whose board does not go off in the first round.
use ostool.Prelude.{ℕ, ◌≡◌, refl, true, none, some, [], ◌∷◌, ◌==◌, if◌then◌else◌, codes, text_eq}
use ostool.Prelude.Map.{lookup, contains_key, modify, remove}
use ostool.Server.Outcome.{ok, err, any, is_empty}
use ostool.Server.Session.{
  SessionState, SessionStopReason, new_inner, new_with_id, snapshot, lifecycle, from_u8, as_u8,
}
use ostool.Server.State.{BoardLeaseState, AppState, default, ReleaseJob, owned_by}
use ostool.Server.State.Release.{
  join, Round, Step, retry_release_step, retry_from, finished, process_release_job, is_ok,
  power_step, tftp_step, release_loop, release_round, make_progress, attempt, is_finished,
  complete_round, fail_round,
}
use ostool.Server.State.{complete_session_release, mark_board_error}
use ostool.Server.State.Release.Retry.{any_ok}
use ostool.Server.State.Release.Laws.{process_release_job-finished}
use ostool.Server.State.Release.Ends.{IsGivenBack, process_release_job-IsGivenBack}
use ostool.Tests.Lab.{first_board, lab}

abbrev session : SessionState
unfolding new_inner new_with_id as_u8
session = new_inner 5 (codes "s1") first_board none (some [])

-- The board is `Releasing`.
abbrev leaving : AppState
leaving = record {
  boards = lab;
  board_runtimes =
      (
        codes "a",
        record {
          lease_state = BoardLeaseState.releasing;
          active_session_id = some (codes "s1");
          last_release_error = none;
          updated_at = 5;
        },
      )
      ∷ [];
  sessions = (codes "s1", session) ∷ [];
  release_tx = [];
}

abbrev job : ReleaseJob
job = record { session = session; reason = SessionStopReason.api_delete }

-- The power goes off at the second attempt.
abbrev second_time : ℕ → Step
second_time n = if n == 2 then ok tt else err (codes "relay")

abbrev good_round : Round
good_round = record {
  now = 20;
  tasks = ok tt;
  power_off = second_time;
  remove_session_dir = λ n. ok tt;
  meanwhile = λ s. s;
}

-- The power does not go off.
abbrev bad_round : Round
bad_round = record good_round { now = 10; power_off = λ n. err (codes "relay") }

any_ok-second_time : any_ok 3 1 second_time ≡ true
unfolding any_ok
any_ok-second_time = refl

process_release_job-IsGivenBack_example :
    (s' : AppState) × (process_release_job (bad_round ∷ good_round ∷ []) job leaving ≡ finished s')
    × IsGivenBack (codes "a") (codes "s1") s'
unfolding session lookup text_eq contains_key retry_release_step retry_from
process_release_job-IsGivenBack_example =
    process_release_job-IsGivenBack (bad_round ∷ []) good_round [] job leaving (λ s h. h, tt)
      (λ s h. h) (refl, refl, refl) (_, refl, refl, refl)

abbrev left : AppState
unfolding default
left = record {
  boards = lab;
  board_runtimes = (codes "a", default 20) ∷ [];
  sessions = [];
  release_tx = [];
}

leaves : process_release_job (bad_round ∷ good_round ∷ []) job leaving ≡ finished left
unfolding process_release_job left default session release_loop release_round make_progress attempt
    is_finished complete_round fail_round retry_release_step retry_from is_empty
    complete_session_release owned_by mark_board_error lookup modify remove contains_key text_eq
    snapshot lifecycle from_u8 join
leaves = refl

process_release_job-finished_example :
    (any (λ r. is_ok r.tasks) (bad_round ∷ good_round ∷ []) ≡ true)
    × (any (λ r. is_ok (power_step r)) (bad_round ∷ good_round ∷ []) ≡ true)
    × (any (λ r. is_ok (tftp_step r)) (bad_round ∷ good_round ∷ []) ≡ true)
process_release_job-finished_example =
    process_release_job-finished (bad_round ∷ good_round ∷ []) job leaving left leaves
