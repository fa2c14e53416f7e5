-- ===== src/Fit/Crc/Laws.antt =====
-- The appended checksum and the writer.
use ostool.Prelude.{
  ℕ, zero, suc, ==_refl, ◌+◌, ◌-◌, ◌^◌, ◌<◌, ◌≡◌, refl, sym, ap, ◌∙◌, List, [], ◌∷◌, ◌++◌, Option,
  none, some, length, take, le32, of_le32-le32, get_or, ltb, ◌==◌, if◌then◌else◌, arith,
  length-append, take-append, Option-cases, inl, inr, false,
}
use ostool.Fit.Crc.{
  Crc, verified, refused, crc_mismatch, too_short, calculate_crc32, append_crc32, verify_crc32,
  Crc32Writer, new_writer, write, crc32,
}

get_or-append : (xs ys : List ℕ) (i d : ℕ) → get_or (xs ++ ys) (length xs + i) d ≡ get_or ys i d
get_or-append [] ys i d = ap (λ k. get_or ys k d) (omega arith)
get_or-append (x ∷ xs) ys i d =
    ap (λ k. get_or (x ∷ (xs ++ ys)) k d) shift ∙ get_or-append xs ys i d
  where
    shift : suc (length xs) + i ≡ suc (length xs + i)
    shift = omega arith

-- The bytes behind the data, counted from the end.
from_end :
    (payload : List ℕ) (x i k : ℕ)
    → i + k ≡ 4
    → get_or (payload ++ le32 x) (length (payload ++ le32 x) - k) 0 ≡ get_or (le32 x) i 0
from_end payload x i k e =
    ap (λ j. get_or (payload ++ le32 x) j 0) (omega (arith, length-append payload (le32 x)))
    ∙ get_or-append payload (le32 x) i 0

content_is :
    (payload : List ℕ) (x : ℕ) → take (length (payload ++ le32 x) - 4) (payload ++ le32 x) ≡ payload
content_is payload x =
    ap (λ j. take j (payload ++ le32 x)) (omega (arith, length-append payload (le32 x)))
    ∙ take-append payload (le32 x)

long_enough : (payload : List ℕ) (x : ℕ) → ltb (length (payload ++ le32 x)) 4 ≡ false
long_enough payload x = ground (arith, length-append payload (le32 x))

module _ (crc : Crc) where
  -- Data with four bytes behind it, read as a little-endian number: it is accepted exactly when
  -- they are the checksum of the data, and refused with both numbers otherwise.
  pub verify_crc32-le32 :
      (payload : List ℕ) (x : ℕ)
      → x < 2 ^ 32
      → verify_crc32 crc (payload ++ le32 x) ≡ (
          if calculate_crc32 crc payload == x
          then verified
          else refused (crc_mismatch x (calculate_crc32 crc payload)))
  unfolding verify_crc32
  verify_crc32-le32 payload x h = rw (
    long_enough payload x,
    content_is payload x,
    from_end payload x 0 4 (omega arith),
    from_end payload x 1 3 (omega arith),
    from_end payload x 2 2 (omega arith),
    from_end payload x 3 1 (omega arith),
    of_le32-le32 x h,
  )

  -- What `append_crc32` has appended is accepted.
  verify_crc32-append_crc32 :
      (payload : List ℕ) → verify_crc32 crc (append_crc32 crc payload) ≡ verified
  unfolding append_crc32 calculate_crc32
  verify_crc32-append_crc32 payload =
      verify_crc32-le32 payload (calculate_crc32 crc payload) (crc.checksum-lt payload) ∙ rw ==_refl

  pub verify_crc32_short :
      (bytes : List ℕ) → length bytes < 4 → verify_crc32 crc bytes ≡ refused too_short
  unfolding verify_crc32
  verify_crc32_short bytes h = ground arith

  module _ {W : Type 0} (inner : W → List ℕ → W × Option ℕ) where
    -- Calls of `write` in turn; a failed one is passed over.
    unfoldable pub write_each : Crc32Writer crc W → List (List ℕ) → Crc32Writer crc W
    write_each w [] = w
    write_each w (buf ∷ bufs) = write_each (write crc inner w buf).0 bufs

    abbrev taken : Option ℕ → List ℕ → List ℕ
    taken none buf = []
    taken (some n) buf = take n buf

    -- The bytes that the inner writer took in these calls.
    unfoldable pub accepted : W → List (List ℕ) → List ℕ
    accepted w [] = []
    accepted w (buf ∷ bufs) = let (w', result) = inner w buf in taken result buf ++ accepted w' bufs

    write_lem :
        (w : Crc32Writer crc W) (buf : List ℕ)
        → ((write crc inner w buf).0.writer ≡ (inner w.writer buf).0)
          × ((write crc inner w buf).0.calculator
              ≡ crc.update w.calculator (taken (inner w.writer buf).1 buf))
    unfolding write
    write_lem w buf = elim (Option-cases (inner w.writer buf).1) [
      | inl failed ↦ rw (failed, write) (refl, sym (crc.update-nil w.calculator))
      | inr (n, took) ↦ rw (took, write) (refl, fed n)
    ]
      where
        fed :
            (n : ℕ)
            → (if ltb 0 n then crc.update w.calculator (take n buf) else w.calculator)
              ≡ crc.update w.calculator (take n buf)
        fed zero = sym (crc.update-nil w.calculator)
        fed (suc n) = ground arith

    crc32_from :
        (w : Crc32Writer crc W) (bufs : List (List ℕ))
        → crc32 crc inner (write_each w bufs)
          ≡ crc.finish (crc.update w.calculator (accepted w.writer bufs))
    unfolding write_each accepted crc32
    crc32_from w [] = ap crc.finish (sym (crc.update-nil w.calculator))
    crc32_from w (buf ∷ bufs) =
        let (same, fed) = write_lem w buf in
        crc32_from (write crc inner w buf).0 bufs
        ∙ ap crc.finish (rw (same, fed) (crc.update-append w.calculator _ _))

    -- After any calls of `write`, partial and failed ones included, the writer's CRC32 is the
    -- checksum of exactly the bytes that the inner writer took.
    pub crc32-write_each :
        (w : W) (bufs : List (List ℕ))
        → crc32 crc inner (write_each (new_writer crc inner w) bufs)
          ≡ crc.checksum (accepted w bufs)
    unfolding new_writer
    crc32-write_each w bufs =
        crc32_from (new_writer crc inner w) bufs ∙ crc.finish-update (accepted w bufs)
