-- ===== src/Prelude/Decimal.antt =====
-- A number as Rust writes it in decimal digits, `str::parse::<u64>` and `str::rsplit_once`.
use Prim.Native.Nat.{ℕ, zero, suc, ◌+◌, ◌-◌, ◌*◌, ◌/◌, ◌%◌, ◌^◌, ◌≤◌, ◌<◌}
use mathlib.Core.Path.{◌≡◌, refl, ◌∙◌}
use mathlib.Core.Logic.{◌≢◌, inl, inr}
use mathlib.Core.Bool.{◌&&◌}
use mathlib.Core.Option.{Option, none, some}
use mathlib.Core.List.{[], ◌∷◌, ◌++◌}
use native.Mathlib.Omega.{arith}
use ostool.Prelude.Tests.{◌==◌, ==_refl, ltb, leb, if◌then◌else◌, Bool-cases}
use ostool.Prelude.Texts.{Text}
use ostool.Prelude.Lists.{All, All-append}

unfoldable pub decimal_loop : ℕ → ℕ → Text
decimal_loop zero n = []
decimal_loop (suc fuel) n =
    let front = decimal_loop fuel (n / 10) in
    if ltb n 10 then (48 + n) ∷ [] else front ++ ((48 + n % 10) ∷ [])

-- A number has fewer digits than itself and one.
unfoldable pub decimal : ℕ → Text
unfolding decimal_loop
decimal n = decimal_loop (suc n) n

-- The digits go on from a number that has been read.
unfoldable pub parse_digits : ℕ → Text → Option ℕ
parse_digits acc [] = some acc
parse_digits acc (c ∷ cs) =
    let next = acc * 10 + (c - 48) in
    let rest = parse_digits next cs in
    if (leb 48 c && leb c 57) && ltb next (2 ^ 64) then rest else none

abbrev pub parse_some : Text → Option ℕ
parse_some [] = none
parse_some (c ∷ cs) = parse_digits 0 (c ∷ cs)

abbrev pub plus : ℕ
plus = 43

unfoldable pub parse_u64 : Text → Option ℕ
parse_u64 [] = none
parse_u64 (c ∷ cs) = if c == plus then parse_some cs else parse_some (c ∷ cs)

abbrev pub behind : ℕ → ℕ → Text → Option (Text × Text) → Option (Text × Text)
behind at c cs (some (front, rest)) = some (c ∷ front, rest)
behind at c cs none = if c == at then some ([], cs) else none

-- The text before the last of these characters, and the text behind it.
unfoldable pub rsplit_once : ℕ → Text → Option (Text × Text)
rsplit_once at [] = none
rsplit_once at (c ∷ cs) = behind at c cs (rsplit_once at cs)

abbrev pub IsDigit : ℕ → Type 0
IsDigit c = (48 ≤ c) × (c < 58)

decimal_loop-IsDigit : (fuel n : ℕ) → All IsDigit (decimal_loop fuel n)
unfolding decimal_loop
decimal_loop-IsDigit zero n = tt
decimal_loop-IsDigit (suc fuel) n = elim (Bool-cases (ltb n 10)) [
  | inl one ↦ rw one ((omega arith, ground arith), tt)
  | inr more ↦ rw more (
      All-append IsDigit (decimal_loop fuel (n / 10)) ((48 + n % 10) ∷ [])
        (decimal_loop-IsDigit fuel (n / 10)) ((omega arith, omega arith), tt))
]

pub decimal-IsDigit : (n : ℕ) → All IsDigit (decimal n)
unfolding decimal
decimal-IsDigit n = decimal_loop-IsDigit (suc n) n

abbrev parse_last : ℕ → Option ℕ → Option ℕ
parse_last d none = none
parse_last d (some acc) = parse_digits acc (d ∷ [])

parse_digits-append :
    (acc : ℕ) (xs : Text) (d : ℕ)
    → parse_digits acc (xs ++ (d ∷ [])) ≡ parse_last d (parse_digits acc xs)
unfolding parse_digits
parse_digits-append acc [] d = refl
parse_digits-append acc (x ∷ xs) d = ground (arith, parse_digits-append (acc * 10 + (x - 48)) xs d)

parse_digits-decimal_loop :
    (fuel n : ℕ) → n < fuel → n < 2 ^ 64 → parse_digits 0 (decimal_loop fuel n) ≡ some n
unfolding parse_digits decimal_loop
parse_digits-decimal_loop zero n h small = absurd (omega arith)
parse_digits-decimal_loop (suc fuel) n h small = elim (Bool-cases (ltb n 10)) [
  | inl one ↦ rw one (ground arith)
  | inr more ↦
      rw
        (
          more,
          parse_digits-append 0 (decimal_loop fuel (n / 10)) (48 + n % 10),
          parse_digits-decimal_loop fuel (n / 10) (ground arith) (omega arith),
        )
        (ground arith)
]

append_some : (xs : Text) (c : ℕ) → xs ++ (c ∷ []) ≢ []
append_some [] c = ground arith
append_some (x ∷ xs) c = ground arith

decimal_loop_some : (fuel n : ℕ) → n < fuel → decimal_loop fuel n ≢ []
unfolding decimal_loop
decimal_loop_some zero n h = absurd (omega arith)
decimal_loop_some (suc fuel) n h = elim (Bool-cases (ltb n 10)) [
  | inl one ↦ rw one (ground arith)
  | inr more ↦ rw more (append_some (decimal_loop fuel (n / 10)) (48 + n % 10))
]

parse_u64-parse_digits :
    (text : Text) → text ≢ [] → All IsDigit text → parse_u64 text ≡ parse_digits 0 text
unfolding parse_u64
parse_u64-parse_digits [] h digits = absurd (h refl)
parse_u64-parse_digits (c ∷ cs) h digits = ground arith

pub parse_u64-decimal : (n : ℕ) → n < 2 ^ 64 → parse_u64 (decimal n) ≡ some n
unfolding decimal
parse_u64-decimal n small =
    parse_u64-parse_digits (decimal_loop (suc n) n) (decimal_loop_some (suc n) n (omega arith))
      (decimal_loop-IsDigit (suc n) n)
    ∙ parse_digits-decimal_loop (suc n) n (omega arith) small

rsplit_once-none : (at : ℕ) (text : Text) → All (λ c. c ≢ at) text → rsplit_once at text ≡ none
unfolding rsplit_once
rsplit_once-none at [] h = refl
rsplit_once-none at (c ∷ cs) h = rw (rsplit_once-none at cs h.1) (ground (arith, h.0))

pub rsplit_once-append :
    (at : ℕ) (front rest : Text)
    → All (λ c. c ≢ at) rest
    → rsplit_once at (front ++ (at ∷ rest)) ≡ some (front, rest)
unfolding rsplit_once
rsplit_once-append at [] rest h = rw (rsplit_once-none at rest h, ==_refl at) refl
rsplit_once-append at (c ∷ cs) rest h = rw (rsplit_once-append at cs rest h) refl
