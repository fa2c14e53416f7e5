-- ===== src/Serial/Sound/Deadlines.antt =====
-- The requests for a lease: none outlives its deadline, and none is forgotten.
use ostool.Prelude.{
  ℕ, ◌<◌, ◌≡◌, refl, sym, ap, ◌∙◌, Bool, true, false, ◌||◌, List, [], ◌∷◌, ◌++◌, append-nil, arith,
  ◌==◌, ==_refl, All, All-append,
}
use mathlib.Core.Path.{subst}
use ostool.Server.Outcome.{any, err}
use ostool.Serial.Discovery.{Discovery, Surroundings, Pending, to_bind}
use ostool.Serial.Reconcile.{
  with_scan, with_window, is_cache_late, is_expired, forget_late, give_up, expire_each,
  expire_pending, scan_window, pending_error,
}
use ostool.Serial.Sound.{any-middle, if-cases}

-- The request goes on: its time is not over, and somebody waits for the answer.
pub record Waits (env : Surroundings) (p : Pending) : Type 0 where
  pub in_time : env.now < p.request.deadline
  pub heard : env.is_closed p.reply ≡ false

-- The channel's request is pending, or has been answered.
unfoldable pub is_known : ℕ → Discovery → Bool
is_known reply s = any (λ q. q.reply == reply) s.pending || any (λ e. e.0 == reply) s.replies

abbrev IsSame : Pending → Pending → Type 0
IsSame p q = (q.request ≡ p.request) × (q.reply ≡ p.reply)

with_scan-IsSame : (now window : ℕ) (p : Pending) → IsSame p (with_scan now window p)
unfolding with_scan
with_scan-IsSame now window p =
    if-cases (IsSame p) (is_cache_late now p) (λ late. (refl, refl)) (λ early. (refl, refl))

with_window-IsSame : (window : ℕ) (p : Pending) → IsSame p (with_window window p)
unfolding with_window
with_window-IsSame window p =
    if-cases (IsSame p) p.scanning (λ scans. (refl, refl)) (λ cached. (refl, refl))

window-IsSame :
    (now window : ℕ) (p : Pending) → IsSame p (with_window window (with_scan now window p))
window-IsSame now window p =
    let q = with_scan now window p in
    let one = with_scan-IsSame now window p in
    let two = with_window-IsSame window q in (two.0 ∙ one.0, two.1 ∙ one.1)

any-append :
    {A : Type 0} (p : A → Bool) (xs : List A) (a : A) → any p (xs ++ (a ∷ [])) ≡ (p a || any p xs)
any-append p xs a = any-middle p xs a [] ∙ ap (λ ys. p a || any p ys) (append-nil xs)

give_up-is_known :
    (p : Pending) (s : Discovery) (reply : ℕ)
    → ((p.reply == reply) || is_known reply s) ≡ true
    → is_known reply (give_up p s) ≡ true
unfolding is_known
give_up-is_known p s reply h = ground (
  arith,
  h,
  any-append (λ e. e.0 == reply) s.replies (p.reply, to_bind (err (pending_error s.errors))),
)

forget_late-is_known :
    (now : ℕ) (p : Pending) (s : Discovery) (reply : ℕ)
    → is_known reply (forget_late now p s) ≡ is_known reply s
unfolding is_known
forget_late-is_known now p s reply =
    if-cases (λ t. is_known reply t ≡ is_known reply s) (is_cache_late now p) (λ late. refl)
      (λ early. refl)

keep-is_known :
    (q : Pending) (s : Discovery) (reply : ℕ)
    → is_known reply (record s { pending = s.pending ++ (q ∷ []) })
      ≡ ((q.reply == reply) || is_known reply s)
unfolding is_known
keep-is_known q s reply = ground (arith, any-append (λ p. p.reply == reply) s.pending q)

-- What was known stays known.
expire_each-grows :
    (env : Surroundings) (window : ℕ) (ps : List Pending) (s : Discovery) (reply : ℕ)
    → is_known reply s ≡ true
    → is_known reply (expire_each env window ps s) ≡ true
unfolding expire_each
expire_each-grows env window [] s reply h = h
expire_each-grows env window (p ∷ ps) s reply h =
    let q = with_window window (with_scan env.now window p) in
    let forgotten = forget_late env.now p s in
    let still : is_known reply forgotten ≡ true = forget_late-is_known env.now p s reply ∙ h in
    if-cases Known (env.is_closed p.reply) (λ gone. expire_each-grows env window ps s reply h)
      (λ here.
        if-cases Known (is_expired env.now q)
          (λ late.
            expire_each-grows env window ps (give_up q forgotten) reply
              (give_up-is_known q forgotten reply (ground (arith, still))))
          (λ early.
            expire_each-grows env window ps
              (record forgotten { pending = forgotten.pending ++ (q ∷ []) }) reply
              (keep-is_known q forgotten reply ∙ ground (arith, still))))
  where
    Known : Discovery → Type 0
    Known t = is_known reply t ≡ true

-- A request of which nobody has heard the end.
abbrev pub IsAccounted : Surroundings → Discovery → Pending → Type 0
IsAccounted env t p = env.is_closed p.reply ≡ false → is_known p.reply t ≡ true

expire_each-IsAccounted :
    (env : Surroundings) (window : ℕ) (ps : List Pending) (s : Discovery)
    → All (IsAccounted env (expire_each env window ps s)) ps
unfolding expire_each
expire_each-IsAccounted env window [] s = tt
expire_each-IsAccounted env window (p ∷ ps) s =
    let q = with_window window (with_scan env.now window p) in
    let forgotten = forget_late env.now p s in
    let here : (q.reply == p.reply) ≡ true =
      ap (λ r. r == p.reply) (window-IsSame env.now window p).1 ∙ ==_refl p.reply in
    if-cases (λ t. All (IsAccounted env t) (p ∷ ps)) (env.is_closed p.reply)
      (λ gone.
        ((λ heard. absurd (ground (arith, gone, heard))), expire_each-IsAccounted env window ps s))
      (λ stays.
        if-cases (λ t. All (IsAccounted env t) (p ∷ ps)) (is_expired env.now q)
          (λ late. (
            (λ heard.
                expire_each-grows env window ps (give_up q forgotten) p.reply
                  (give_up-is_known q forgotten p.reply (ground (arith, here)))),
            expire_each-IsAccounted env window ps (give_up q forgotten),
          ))
          (λ early. (
            (λ heard.
                expire_each-grows env window ps _ p.reply
                  (keep-is_known q forgotten p.reply ∙ ground (arith, here))),
            expire_each-IsAccounted env window ps _,
          )))

forget_late-pending :
    (now : ℕ) (p : Pending) (s : Discovery) → (forget_late now p s).pending ≡ s.pending
forget_late-pending now p s =
    if-cases (λ (t : Discovery). t.pending ≡ s.pending) (is_cache_late now p) (λ late. refl)
      (λ early. refl)

expire_each-Waits :
    (env : Surroundings) (window : ℕ) (ps : List Pending) (s : Discovery)
    → All (Waits env) s.pending
    → All (Waits env) (expire_each env window ps s).pending
unfolding expire_each
expire_each-Waits env window [] s h = h
expire_each-Waits env window (p ∷ ps) s h =
    let q = with_window window (with_scan env.now window p) in
    let forgotten = forget_late env.now p s in
    let still : All (Waits env) forgotten.pending =
      subst (All (Waits env)) (sym (forget_late-pending env.now p s)) h in
    if-cases (λ (t : Discovery). All (Waits env) t.pending) (env.is_closed p.reply)
      (λ gone. expire_each-Waits env window ps s h)
      (λ here.
        if-cases (λ (t : Discovery). All (Waits env) t.pending) (is_expired env.now q)
          (λ late. expire_each-Waits env window ps (give_up q forgotten) still)
          (λ early.
            expire_each-Waits env window ps
              (record forgotten { pending = forgotten.pending ++ (q ∷ []) })
              (All-append (Waits env) forgotten.pending (q ∷ []) still (
                record {
                  in_time = before env.now q early;
                  heard = ap (λ r. env.is_closed r) (window-IsSame env.now window p).1 ∙ here;
                },
                tt,
              ))))
  where
    before : (now : ℕ) (q : Pending) → is_expired now q ≡ false → now < q.request.deadline
    before now q early = ground (arith, early)

-- After the requests have been looked at, those that are pending are before their deadlines and are
-- waited for, and every request that was pending and is waited for is pending still or has its
-- answer.
pub expire_pending-Waits :
    (env : Surroundings) (s : Discovery)
    → All (Waits env) (expire_pending env s).pending
      × All (IsAccounted env (expire_pending env s)) s.pending
unfolding expire_pending
expire_pending-Waits env s = (
  expire_each-Waits env (scan_window s.pending) s.pending (record s { pending = [] }) tt,
  expire_each-IsAccounted env (scan_window s.pending) s.pending (record s { pending = [] }),
)
