-- ===== src/Uboot/Crc/Laws.antt =====
-- The table implements the polynomial division that it stands for.
use ostool.Prelude.{
  ℕ, zero, suc, ◌+◌, ◌*◌, ◌/◌, ◌%◌, ◌^◌, ◌<◌, ◌≡◌, refl, arith, bit_xor, get_or, ltb, ◌==◌, Bool,
  true, ◌&&◌, if◌then◌else◌, List, [], ◌∷◌, ==_iff, ltb→lt, All, IsByte, sym, ap, ◌∙◌,
}
use mathlib.Core.Path.{subst}
use ostool.Prelude.{and_true, Bool-cases, inl, inr}
use ostool.Uboot.Crc.Bits.{bit_xor-shifted, bit_xor-lt}
use ostool.Uboot.Crc.{crc16_tab, crc16_step, crc16_ccitt}

-- One bit of the division by x^16 + x^12 + x^5 + 1.
bit_step : ℕ → ℕ
bit_step x = if ltb x 0x8000 then x * 2 else bit_xor (x * 2 % 2 ^ 16) 0x1021

pub byte_step : ℕ → ℕ
unfolding bit_step
byte_step x =
    bit_step (bit_step (bit_step (bit_step (bit_step (bit_step (bit_step (bit_step x)))))))

-- The test passes on every number before the bound.
passes_before : (ℕ → Bool) → ℕ → Bool
passes_before test zero = true
passes_before test (suc bound) = passes_before test bound && test bound

row : ℕ → Bool
unfolding passes_before byte_step crc16_tab
row hi =
    let t = get_or crc16_tab hi 0 in
    passes_before (λ lo. byte_step (hi * 256 + lo) == bit_xor t (lo * 256)) 256

table_rows : passes_before row 256 ≡ true
unfolding passes_before row
table_rows = refl

passes_at :
    (test : ℕ → Bool) (bound : ℕ)
    → passes_before test bound ≡ true
    → (at : ℕ) → at < bound
    → test at ≡ true
unfolding passes_before
passes_at test zero passes at below = absurd (omega arith)
passes_at test (suc bound) passes at below =
    let (before, last) = and_true passes in
    elim (Bool-cases (at == bound)) [
      | inl same ↦ subst (λ n. test n ≡ true) (sym ((==_iff at bound).0 same)) last
      | inr other ↦ passes_at test bound before at (ground (arith, ==_iff at bound))
    ]

-- The table's entry for the high byte is what eight steps of the division make of it.
table_entry :
    (hi lo : ℕ)
    → hi < 256
    → lo < 256
    → byte_step (hi * 256 + lo) ≡ bit_xor (get_or crc16_tab hi 0) (lo * 256)
unfolding row
table_entry hi lo h l = (==_iff _ _).0 (
    passes_at (λ lo. byte_step (hi * 256 + lo) == bit_xor (get_or crc16_tab hi 0) (lo * 256)) 256
      (passes_at row 256 table_rows hi h) lo l)

-- Polynomial division: the byte is added at the top, and eight bits are divided off.
abbrev pub divide_byte : ℕ → ℕ → ℕ
divide_byte c byte = byte_step (bit_xor c (byte * 2 ^ 8))

pub crc16_reference : ℕ → List ℕ → ℕ
crc16_reference c [] = c
crc16_reference c (byte ∷ buf) = crc16_reference (divide_byte c byte) buf

-- The index into the table is a byte.
pub index-IsByte : (c byte : ℕ) → c < 2 ^ 16 → byte < 256 → bit_xor (c / 2 ^ 8) byte < 256
index-IsByte c byte h k = bit_xor-lt 8 (c / 2 ^ 8) byte (omega arith) k

entries_are_words : passes_before (λ i. ltb (get_or crc16_tab i 0) (2 ^ 16)) 256 ≡ true
unfolding passes_before crc16_tab
entries_are_words = refl

crc16_step-divide_byte :
    (c byte : ℕ) → c < 2 ^ 16 → byte < 256 → crc16_step c byte ≡ divide_byte c byte
unfolding crc16_step
crc16_step-divide_byte c byte h k =
    let hi = c / 2 ^ 8 in
    let lo = c % 2 ^ 8 in
    let split : c ≡ hi * 2 ^ 8 + lo = omega arith in
    let top : c * 2 ^ 8 % 2 ^ 16 ≡ lo * 256 = omega arith in
    let joined : bit_xor c (byte * 2 ^ 8) ≡ bit_xor hi byte * 256 + lo =
      ap (λ x. bit_xor x (byte * 2 ^ 8)) split ∙ bit_xor-shifted 8 hi lo byte (omega arith) in
    ap (bit_xor (get_or crc16_tab (bit_xor hi byte) 0)) top
    ∙ sym (table_entry (bit_xor hi byte) lo (index-IsByte c byte h k) (omega arith))
    ∙ ap byte_step (sym joined)

crc16_step-lt : (c byte : ℕ) → c < 2 ^ 16 → byte < 256 → crc16_step c byte < 2 ^ 16
unfolding crc16_step
crc16_step-lt c byte h k =
    bit_xor-lt 16 _ _
      (ltb→lt _ _ (
        passes_at (λ i. ltb (get_or crc16_tab i 0) (2 ^ 16)) 256 entries_are_words _
          (index-IsByte c byte h k)))
      (omega arith)

-- On any bytes, from any 16-bit start value, the table-driven checksum is the remainder of the
-- polynomial division done bit by bit.
pub crc16_ccitt-crc16_reference :
    (c : ℕ) (buf : List ℕ) → c < 2 ^ 16 → All IsByte buf → crc16_ccitt c buf ≡ crc16_reference c buf
unfolding crc16_ccitt crc16_reference
crc16_ccitt-crc16_reference c [] h bytes = refl
crc16_ccitt-crc16_reference c (byte ∷ buf) h (b, bytes) =
    crc16_ccitt-crc16_reference (crc16_step c byte) buf (crc16_step-lt c byte h b) bytes
    ∙ ap (λ x. crc16_reference x buf) (crc16_step-divide_byte c byte h b)

-- The checksum of bytes is a 16-bit word.
pub crc16_ccitt-lt :
    (c : ℕ) (buf : List ℕ) → c < 2 ^ 16 → All IsByte buf → crc16_ccitt c buf < 2 ^ 16
unfolding crc16_ccitt
crc16_ccitt-lt c [] h bytes = h
crc16_ccitt-lt c (byte ∷ buf) h (b, bytes) =
    crc16_ccitt-lt (crc16_step c byte) buf (crc16_step-lt c byte h b) bytes
