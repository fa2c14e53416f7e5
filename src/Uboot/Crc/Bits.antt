-- ===== src/Uboot/Crc/Bits.antt =====
-- Exclusive or on words, at variables.
use Prim.Native.Nat.{differ, digits, bit_xor-bitwise}
use native.Mathlib.Nat.{pow-suc}
use ostool.Prelude.{
  ℕ, zero, suc, ◌+◌, ◌*◌, ◌/◌, ◌%◌, ◌^◌, ◌≤◌, ◌<◌, ◌-◌, ◌≡◌, refl, sym, ap, ◌∙◌, arith, bit_xor,
}

-- The exclusive or of as many digits as the count says.
abbrev xors : ℕ → ℕ → ℕ → ℕ
xors count = digits (λ y. y) differ count

xors_done : (count y : ℕ) → xors count 0 y ≡ y
xors_done zero y = refl
xors_done (suc count) y = refl

-- One digit, and the rest.
xors_more :
    (count x y : ℕ)
    → xors (suc count) (suc x) y ≡ xors count (suc x / 2) (y / 2) * 2 + differ (suc x % 2) (y % 2)
xors_more count x y = refl

bit_xor-xors : (x y : ℕ) → bit_xor x y ≡ xors x x y
bit_xor-xors x y = λ i. bit_xor-bitwise x y i

suc_first : (m n : ℕ) → suc m + n ≡ suc (m + n)
suc_first m n = omega arith

-- A count beyond the digits of the first number changes nothing.
xors_spare : (count spare x y : ℕ) → x ≤ count → xors (count + spare) x y ≡ xors count x y
xors_spare count spare zero y h = xors_done (count + spare) y ∙ sym (xors_done count y)
xors_spare zero spare (suc x) y h = absurd (omega arith)
xors_spare (suc count) spare (suc x) y h =
    ap (λ n. xors n (suc x) y) (suc_first count spare)
    ∙ omega (
      arith,
      xors_more (count + spare) x y,
      xors_more count x y,
      xors_spare count spare (suc x / 2) (y / 2) (omega arith),
    )

the_sum : (m n : ℕ) → m ≤ n → m + (n - m) ≡ n
the_sum m n h = omega arith

-- The lowest digit of an exclusive or.
bit_xor_step : (a b : ℕ) → bit_xor a b ≡ bit_xor (a / 2) (b / 2) * 2 + differ (a % 2) (b % 2)
bit_xor_step zero b = simp bit_xor-bitwise (omega arith)
bit_xor_step (suc a) b =
    let half = suc a / 2 in
    let enough = xors_spare half (a - half) half (b / 2) (omega arith) in
    let all = ap (λ n. xors n half (b / 2)) (the_sum half a (omega arith)) in
    omega (arith, enough, all, xors_more a a b, bit_xor-xors (suc a) b, bit_xor-xors half (b / 2))

-- A shift by one place more doubles the number.
shift_more : (n places : ℕ) → n * 2 ^ suc places ≡ n * 2 ^ places + n * 2 ^ places
shift_more n places =
    let doubled = ap (λ (power : ℕ). n * power) (pow-suc 2 places) in omega (arith, doubled)

differ-zero : (x y : ℕ) → y ≡ 0 → differ x y ≡ x
differ-zero zero y h = h
differ-zero (suc x) zero h = refl
differ-zero (suc x) (suc y) h = absurd (omega arith)

-- An exclusive or with a shifted number leaves what is below the shift.
pub bit_xor-shifted :
    (k q r b : ℕ) → r < 2 ^ k → bit_xor (q * 2 ^ k + r) (b * 2 ^ k) ≡ bit_xor q b * 2 ^ k + r
bit_xor-shifted zero q r b h = ground arith
bit_xor-shifted (suc k) q r b h = ground (
  arith,
  bit_xor_step (q * 2 ^ suc k + r) (b * 2 ^ suc k),
  shift_more q k,
  shift_more b k,
  shift_more (bit_xor q b) k,
  differ-zero ((q * 2 ^ suc k + r) % 2) (b * 2 ^ suc k % 2),
  bit_xor-shifted k q (r / 2) b (omega (arith, pow-suc 2 k)),
)

differ-le : (x y : ℕ) → x ≤ 1 → y ≤ 1 → differ x y ≤ 1
differ-le zero y h g = g
differ-le (suc x) zero h g = h
differ-le (suc zero) (suc y) h g = omega arith
differ-le (suc (suc x)) (suc y) h g = absurd (omega arith)

-- An exclusive or of words is a word.
pub bit_xor-lt : (k a b : ℕ) → a < 2 ^ k → b < 2 ^ k → bit_xor a b < 2 ^ k
bit_xor-lt zero zero zero h g = omega arith
bit_xor-lt zero zero (suc b) h g = absurd (omega arith)
bit_xor-lt zero (suc a) b h g = absurd (omega arith)
bit_xor-lt (suc k) a b h g = omega (
  arith,
  bit_xor_step a b,
  pow-suc 2 k,
  differ-le (a % 2) (b % 2) (omega arith) (omega arith),
  bit_xor-lt k (a / 2) (b / 2) (omega (arith, pow-suc 2 k)) (omega (arith, pow-suc 2 k)),
)
