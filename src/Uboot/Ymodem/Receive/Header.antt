-- ===== src/Uboot/Ymodem/Receive/Header.antt =====
-- The header block: the name of the file, its size in decimal digits, each before a NUL.
use ostool.Prelude.{
  ℕ, zero, suc, ◌+◌, ◌-◌, ◌*◌, ◌/◌, ◌%◌, ◌≤◌, ◌<◌, ◌≡◌, refl, ap, ◌∙◌, inl, inr, Option, none, some,
  List, [], ◌∷◌, ◌++◌, append_assoc, arith, ltb, ◌==◌, if◌then◌else◌, Bool-cases, All, All-append,
  IsByte, Text,
}
use ostool.Prelude.Decimal.{decimal_loop, decimal}
use ostool.Uboot.Ymodem.Transfer.{header}

abbrev pub IsNameByte : ℕ → Type 0
IsNameByte c = (1 ≤ c) × (c < 256)

abbrev pub before : ℕ → Option (List ℕ × List ℕ) → Option (List ℕ × List ℕ)
before c none = none
before c (some (front, rest)) = some (c ∷ front, rest)

-- What stands before the first NUL, and what behind it.
unfoldable pub split_nul : List ℕ → Option (List ℕ × List ℕ)
split_nul [] = none
split_nul (c ∷ cs) = if c == 0 then some ([], cs) else before c (split_nul cs)

unfoldable pub value : ℕ → List ℕ → ℕ
value acc [] = acc
value acc (d ∷ ds) = value (acc * 10 + (d - 48)) ds

abbrev pub read_size : Text → Option (List ℕ × List ℕ) → Option (Text × ℕ)
read_size name none = none
read_size name (some (digits, rest)) = some (name, value 0 digits)

abbrev pub read_name : Option (List ℕ × List ℕ) → Option (Text × ℕ)
read_name none = none
read_name (some (name, rest)) = read_size name (split_nul rest)

unfoldable pub read_header : List ℕ → Option (Text × ℕ)
read_header buf = read_name (split_nul buf)

split_nul-append :
    (front rest : List ℕ)
    → All IsNameByte front
    → split_nul (front ++ (0 ∷ rest)) ≡ some (front, rest)
unfolding split_nul
split_nul-append [] rest h = refl
split_nul-append (c ∷ cs) rest h = ground (arith, split_nul-append cs rest h.1)

value-append : (acc : ℕ) (xs ys : List ℕ) → value acc (xs ++ ys) ≡ value (value acc xs) ys
unfolding value
value-append acc [] ys = refl
value-append acc (x ∷ xs) ys = value-append (acc * 10 + (x - 48)) xs ys

value-decimal_loop : (fuel n : ℕ) → n < fuel → value 0 (decimal_loop fuel n) ≡ n
unfolding value decimal_loop
value-decimal_loop zero n h = absurd (omega arith)
value-decimal_loop (suc fuel) n h = elim (Bool-cases (ltb n 10)) [
  | inl one ↦ rw one (omega arith)
  | inr more ↦ rw more (
      value-append 0 (decimal_loop fuel (n / 10)) ((48 + n % 10) ∷ [])
      ∙ ap (λ v. v * 10 + ((48 + n % 10) - 48)) (value-decimal_loop fuel (n / 10) (ground arith))
      ∙ omega arith)
]

decimal_loop-IsNameByte : (fuel n : ℕ) → All IsNameByte (decimal_loop fuel n)
unfolding decimal_loop
decimal_loop-IsNameByte zero n = tt
decimal_loop-IsNameByte (suc fuel) n = elim (Bool-cases (ltb n 10)) [
  | inl one ↦ rw one ((omega arith, ground arith), tt)
  | inr more ↦ rw more (
      All-append IsNameByte (decimal_loop fuel (n / 10)) ((48 + n % 10) ∷ [])
        (decimal_loop-IsNameByte fuel (n / 10)) ((omega arith, omega arith), tt))
]

All-IsByte : (xs : List ℕ) → All IsNameByte xs → All IsByte xs
All-IsByte [] h = tt
All-IsByte (x ∷ xs) h = (h.0.1, All-IsByte xs h.1)

-- Whatever fills the block, the receiver reads the name and the size that were put in.
pub read_header-header :
    (name : Text) (size : ℕ) (filling : List ℕ)
    → All IsNameByte name
    → read_header (header name size ++ filling) ≡ some (name, size)
unfolding read_header decimal
read_header-header name size filling h =
    let digits = decimal_loop (suc size) size in
    ap (λ x. read_name (split_nul x))
      (append_assoc (name ++ (0 ∷ digits)) (0 ∷ []) filling
        ∙ append_assoc name (0 ∷ digits) (0 ∷ filling))
    ∙ ap read_name (split_nul-append name (digits ++ (0 ∷ filling)) h)
    ∙ ap (read_size name)
        (split_nul-append digits filling (decimal_loop-IsNameByte (suc size) size))
    ∙ ap (λ n. some (name, n)) (value-decimal_loop (suc size) size (omega arith))

pub header-IsByte : (name : Text) (size : ℕ) → All IsNameByte name → All IsByte (header name size)
unfolding decimal
header-IsByte name size h =
    All-append IsByte (name ++ (0 ∷ decimal_loop (suc size) size)) (0 ∷ [])
      (All-append IsByte name (0 ∷ decimal_loop (suc size) size) (All-IsByte name h)
        (omega arith, All-IsByte _ (decimal_loop-IsNameByte (suc size) size)))
      (omega arith, tt)
