-- ===== src/Serial/Sound/Before.antt =====
-- The parts of `reconcile` that leave the core as it is.
use ostool.Prelude.{ℕ, ◌≡◌, refl, ◌∙◌, List, [], ◌∷◌, ◌++◌, Text}
use ostool.Serial.Discovery.{Discovery, Surroundings, Pending, send_reply}
use ostool.Serial.Reconcile.{
  with_scan, with_window, is_cache_late, is_expired, forget_late, give_up, expire_each,
  expire_pending, send_excluded, scan_window,
}
use ostool.Serial.Spawn.{wait_each, is_busy_owner}
use ostool.Serial.Sound.{core, if-cases}

-- These leave the core as it is.
abbrev pub AsBefore : Discovery → Discovery → Type 0
AsBefore s t = core t ≡ core s

forget_late-AsBefore : (now : ℕ) (p : Pending) (s : Discovery) → AsBefore s (forget_late now p s)
forget_late-AsBefore now p s =
    if-cases (AsBefore s) (is_cache_late now p) (λ late. refl) (λ early. refl)

expire_each-AsBefore :
    (env : Surroundings) (window : ℕ) (ps : List Pending) (s : Discovery)
    → AsBefore s (expire_each env window ps s)
unfolding expire_each
expire_each-AsBefore env window [] s = refl
expire_each-AsBefore env window (p ∷ ps) s =
    let q = with_window window (with_scan env.now window p) in
    let forgotten = forget_late env.now p s in
    if-cases (AsBefore s) (env.is_closed p.reply) (λ gone. expire_each-AsBefore env window ps s)
      (λ here.
        if-cases (AsBefore s) (is_expired env.now q)
          (λ late.
            expire_each-AsBefore env window ps (give_up q forgotten)
            ∙ forget_late-AsBefore env.now p s)
          (λ early.
            expire_each-AsBefore env window ps
              (record forgotten { pending = forgotten.pending ++ (q ∷ []) })
            ∙ forget_late-AsBefore env.now p s))

pub expire_pending-AsBefore :
    (env : Surroundings) (s : Discovery) → AsBefore s (expire_pending env s)
unfolding expire_pending
expire_pending-AsBefore env s =
    expire_each-AsBefore env (scan_window s.pending) s.pending (record s { pending = [] })

pub send_excluded-AsBefore : (rs : List ℕ) (s : Discovery) → AsBefore s (send_excluded rs s)
send_excluded-AsBefore [] s = refl
send_excluded-AsBefore (r ∷ rs) s = send_excluded-AsBefore rs (send_reply r _ s)

pub wait_each-AsBefore :
    (env : Surroundings) (ws : List (Text × ℕ)) (s : Discovery) → AsBefore s (wait_each env ws s)
unfolding wait_each
wait_each-AsBefore env [] s = refl
wait_each-AsBefore env ((owner, reply) ∷ ws) s =
    if-cases (AsBefore s) (env.is_closed reply) (λ gone. wait_each-AsBefore env ws s)
      (λ here.
        if-cases (AsBefore s) (is_busy_owner owner s) (λ busy. wait_each-AsBefore env ws _)
          (λ free. wait_each-AsBefore env ws _))
