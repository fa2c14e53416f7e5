-- ===== src/Server/State/Release/Retry.antt =====
-- What `retry_release_step` promises.
use ostool.Prelude.{
  ℕ, zero, suc, ◌+◌, ◌≡◌, ◌⊎◌, refl, inl, inr, Bool, false, ◌||◌, Option, none, some, if◌then◌else◌,
  Text, codes,
}
use mathlib.Core.Option
use ostool.Server.Outcome.{ok, err}
use ostool.Server.State.Release.{Step, is_ok, retry_from, retry_release_step}

-- Whether one of the attempts from `attempt` on succeeds.
unfoldable pub any_ok : ℕ → ℕ → (ℕ → Step) → Bool
any_ok zero attempt operation = false
any_ok (suc more) attempt operation =
    is_ok (operation attempt) || any_ok more (attempt + 1) operation

abbrev pub error_or : Text → Step → Text
error_or other (ok _) = other
error_or other (err e) = e

-- The error of the last attempt.
unfoldable pub last_error : ℕ → ℕ → (ℕ → Step) → Text → Text
last_error zero attempt operation other = other
last_error (suc more) attempt operation other =
    last_error more (attempt + 1) operation (error_or other (operation attempt))

Step-cases : (r : Step) → (r ≡ ok tt) ⊎ ((e : Text) × (r ≡ err e))
Step-cases (ok tt) = inl refl
Step-cases (err e) = inr (e, refl)

retry_from_lem :
    (more attempt : ℕ) (operation : ℕ → Step) (last : Option Text)
    → retry_from more attempt operation last ≡ (
        if any_ok more attempt operation
        then ok tt
        else err
            (last_error more attempt operation (Option.get_or last (codes "release step failed"))))
unfolding retry_from any_ok last_error
retry_from_lem zero attempt operation last = refl
retry_from_lem (suc more) attempt operation last = elim (Step-cases (operation attempt)) [
  | inl e ↦ rw (e, retry_from, any_ok)
  | inr (x, e) ↦
      rw (e, retry_from, any_ok, last_error) (retry_from_lem more (attempt + 1) operation (some x))
]

-- A step of a release succeeds exactly when one of its attempts does, and fails with the error of
-- the last attempt otherwise; with no attempt at all it fails with a message of its own.
retry_release_step_lem :
    (attempts : ℕ) (operation : ℕ → Step)
    → retry_release_step attempts operation ≡ (
        if any_ok attempts 1 operation
        then ok tt
        else err (last_error attempts 1 operation (codes "release step failed")))
unfolding retry_release_step
retry_release_step_lem attempts operation = retry_from_lem attempts 1 operation none
