-- ===== src/Tests/Checksum.antt =====
-- fitimage/src/crc.rs with a checksum that is easy to follow: the sum of the bytes.
use ostool.Prelude.{refl}
use ostool.Prelude.{
  ℕ, ◌+◌, ◌%◌, ◌^◌, ◌<◌, ◌≡◌, List, [], ◌∷◌, ◌++◌, Option, some, le32, min, length, arith,
}
use ostool.Fit.Crc.{
  Crc, refused, crc_mismatch, calculate_crc32, verify_crc32, crc32, new_writer,
  new_writer_with_initial, write, into_inner, calculator_crc32, reset, reset_with_initial,
}
use ostool.Fit.Crc.Laws.{verify_crc32-le32, crc32-write_each, write_each, accepted}

total : List ℕ → ℕ
total [] = 0
total (x ∷ xs) = x + total xs

total-append : (xs ys : List ℕ) → total (xs ++ ys) ≡ total xs + total ys
unfolding total
total-append [] ys = omega arith
total-append (x ∷ xs) ys = omega (arith, total-append xs ys)

update-append_sum : (d : ℕ) (xs ys : List ℕ) → (d + total xs) + total ys ≡ d + total (xs ++ ys)
update-append_sum d xs ys = omega (arith, total-append xs ys)

update-nil_sum : (d : ℕ) → d + total [] ≡ d
unfolding total
update-nil_sum d = omega arith

finish-update_sum : (xs : List ℕ) → (0 + total xs) % 2 ^ 32 ≡ total xs % 2 ^ 32
finish-update_sum xs = omega arith

checksum-lt_sum : (xs : List ℕ) → total xs % 2 ^ 32 < 2 ^ 32
checksum-lt_sum xs = omega arith

-- A checksum that has the documented behaviour.
abbrev sum_crc : Crc
sum_crc = record {
  Digest = ℕ;
  start = 0;
  digest_with_initial = λ i. i;
  update = λ d xs. d + total xs;
  finish = λ d. d % 2 ^ 32;
  checksum = λ xs. total xs % 2 ^ 32;
  update-append = update-append_sum;
  update-nil = update-nil_sum;
  finish-update = finish-update_sum;
  checksum-lt = checksum-lt_sum;
}

-- A wrong checksum is refused with both numbers.
refuses_other :
    verify_crc32 sum_crc (1 ∷ 2 ∷ le32 4)
    ≡ refused (crc_mismatch 4 (calculate_crc32 sum_crc (1 ∷ 2 ∷ [])))
unfolding total calculate_crc32
refuses_other = verify_crc32-le32 sum_crc (1 ∷ 2 ∷ []) 4 (omega arith)

-- A writer that takes two bytes at a time, and counts its calls.
abbrev two_at_a_time : ℕ → List ℕ → ℕ × Option ℕ
two_at_a_time calls buf = (calls + 1, some (min 2 (length buf)))

crc32-write_each_example :
    crc32 sum_crc two_at_a_time (
      write_each sum_crc two_at_a_time
        (new_writer sum_crc two_at_a_time 0)
        ((1 ∷ 2 ∷ 4 ∷ []) ∷ (4 ∷ []) ∷ []))
    ≡ total (1 ∷ 2 ∷ 4 ∷ []) % 2 ^ 32
unfolding accepted
crc32-write_each_example =
    crc32-write_each sum_crc two_at_a_time 0 ((1 ∷ 2 ∷ 4 ∷ []) ∷ (4 ∷ []) ∷ [])

-- The writer goes back to the caller, with the checksum of two bytes from 9 on.
takes_apart :
    into_inner sum_crc two_at_a_time
      (write sum_crc two_at_a_time
        (new_writer_with_initial sum_crc two_at_a_time 0 9)
        (1 ∷ 2 ∷ 4 ∷ [])).0
    ≡ (1, 12)
unfolding into_inner write new_writer_with_initial total
takes_apart = refl

starts_again : calculator_crc32 sum_crc (reset sum_crc (reset_with_initial sum_crc 7 4)) ≡ 0
unfolding reset reset_with_initial
starts_again = refl
