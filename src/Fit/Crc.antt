-- ===== src/Fit/Crc.antt =====
-- fitimage/src/crc.rs: a CRC32 behind the data, and a writer that keeps the CRC32 of what it has
-- written. The checksum itself is the one of the `crc` crate: an interface, with the documented
-- behaviour that a digest fed in pieces gives the checksum of the whole.
pub mod Laws
use ostool.Prelude.{
  ℕ, ◌+◌, ◌-◌, ◌^◌, ◌<◌, ◌≡◌, List, [], ◌∷◌, ◌++◌, Option, none, some, length, take, drop, le32,
  of_le32, get_or, ltb, ◌==◌, if◌then◌else◌,
}

pub record Crc : Type 1 where
  pub Digest : Type 0
  pub start : Digest
  pub digest_with_initial : ℕ → Digest
  pub update : Digest → List ℕ → Digest
  pub finish : Digest → ℕ
  pub checksum : List ℕ → ℕ
  pub update-append : (d : Digest) (xs ys : List ℕ) → update (update d xs) ys ≡ update d (xs ++ ys)
  pub update-nil : (d : Digest) → update d [] ≡ d
  pub finish-update : (xs : List ℕ) → finish (update start xs) ≡ checksum xs
  pub checksum-lt : (xs : List ℕ) → checksum xs < 2 ^ 32

pub data CrcError : Type 0 where
  too_short : CrcError
  crc_mismatch : ℕ → ℕ → CrcError

pub data Verdict : Type 0 where
  verified : Verdict
  refused : CrcError → Verdict

module _ (crc : Crc) where
  open crc use {Digest, start, digest_with_initial, update, finish, checksum}

  unfoldable pub calculate_crc32 : List ℕ → ℕ
  calculate_crc32 payload = checksum payload

  -- The initial value is not used.
  unfoldable pub calculate_crc32_with_initial : List ℕ → ℕ → ℕ
  calculate_crc32_with_initial payload initial = calculate_crc32 payload

  -- A `Crc32Calculator` is its digest.
  abbrev pub calculator_crc32 : Digest → ℕ
  calculator_crc32 digest = finish digest

  unfoldable pub reset : Digest → Digest
  reset digest = start

  unfoldable pub reset_with_initial : ℕ → Digest → Digest
  reset_with_initial initial digest = digest_with_initial initial

  unfoldable pub append_crc32 : List ℕ → List ℕ
  append_crc32 payload = payload ++ le32 (calculate_crc32 payload)

  unfoldable pub verify_crc32 : List ℕ → Verdict
  verify_crc32 bytes =
      let n = length bytes in
      let content = take (n - 4) bytes in
      let expected =
        of_le32 (get_or bytes (n - 4) 0) (get_or bytes (n - 3) 0) (get_or bytes (n - 2) 0)
          (get_or bytes (n - 1) 0) in
      let calculated = calculate_crc32 content in
      if ltb n 4
      then refused too_short
      else if calculated == expected
      then verified
      else refused (crc_mismatch expected calculated)

  -- The inner writer is a parameter: from its state and a buffer, its next state and how many
  -- bytes it took, or `none` for an error.
  pub record Crc32Writer (W : Type 0) : Type 0 where
    pub writer : W
    pub calculator : Digest

  module _ {W : Type 0} (inner : W → List ℕ → W × Option ℕ) where
    unfoldable pub new_writer : W → Crc32Writer W
    new_writer w = record { writer = w; calculator = start }

    unfoldable pub new_writer_with_initial : W → ℕ → Crc32Writer W
    new_writer_with_initial w initial = record {
      writer = w;
      calculator = digest_with_initial initial;
    }

    unfoldable pub write : Crc32Writer W → List ℕ → Crc32Writer W × Option ℕ
    write w buf =
        let (w', result) = inner w.writer buf in
        elim result [
          | none ↦ (record w { writer = w' }, none)
          | some written ↦ (
            record w {
              writer = w';
              calculator =
                  if ltb 0 written then update w.calculator (take written buf) else w.calculator;
            },
            some written,
          )
        ]

    unfoldable pub crc32 : Crc32Writer W → ℕ
    crc32 w = finish w.calculator

    unfoldable pub into_inner : Crc32Writer W → W × ℕ
    into_inner w = (w.writer, finish w.calculator)
