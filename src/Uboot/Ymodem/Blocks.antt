-- ===== src/Uboot/Ymodem/Blocks.antt =====
-- Whole blocks: how `send_blk` ends, and what a receiver makes of a block.
use ostool.Prelude.{
  ℕ, zero, suc, ◌+◌, ◌-◌, ◌*◌, ◌^◌, ◌≤◌, ◌<◌, ◌≡◌, ap, ◌∙◌, List, [], ◌∷◌, ◌++◌, Option, none, some,
  Bool, true, false, length, replicate, take, drop, ltb, ◌==◌, ◌&&◌, if◌then◌else◌, All, IsByte,
  arith, append_assoc, length-append, length-replicate, take-append, drop-append, Bool-cases, inl,
  inr, All-append,
}
use ostool.Uboot.Crc.{crc16_ccitt}
use ostool.Uboot.Crc.Laws.{crc16_ccitt-lt}
use ostool.Uboot.Ymodem.{
  Sender, nak_received, ok, err, panic, and_then, on_answer, ◌>>=◌, ◌>>◌, ack, nak, write_all,
  wait_ack, fill, write_crc, write_frame, retry_loop, advance, block_len, block_start, send_blk,
  next_blk, soh, stx,
}
use ostool.Uboot.Ymodem.Retry.{
  padded, trailer, frame, times, refusals, sent, retry_loop-ack, retry_loop-nak, bind-ok, wrote,
  write_all-fits,
}

-- The number that the block goes out under.
abbrev pub number : Sender → Bool → ℕ
number s last = if last then 0 else s.ymodem.blk

abbrev pub block_of : Sender → List ℕ → ℕ → Bool → List ℕ
block_of s payload pad last =
    frame s.ymodem.crc_mode payload pad (block_len payload) (block_start payload) (number s last)

-- The sender with the next block number.
abbrev pub advanced : Sender → Sender
advanced s = record s { ymodem = record (s.ymodem) { blk = next_blk s.ymodem.blk } }

block_len_long : (payload : List ℕ) → ltb 128 (length payload) ≡ true → block_len payload ≡ 1024
unfolding block_len
block_len_long payload h = rw h

block_len_brief : (payload : List ℕ) → ltb 128 (length payload) ≡ false → block_len payload ≡ 128
unfolding block_len
block_len_brief payload h = rw h

block_start_long : (payload : List ℕ) → ltb 128 (length payload) ≡ true → block_start payload ≡ stx
unfolding block_start
block_start_long payload h = rw h

block_start_brief :
    (payload : List ℕ) → ltb 128 (length payload) ≡ false → block_start payload ≡ soh
unfolding block_start
block_start_brief payload h = rw h

block_len-fits : (payload : List ℕ) → length payload ≤ 1024 → length payload ≤ block_len payload
unfolding block_len
block_len-fits payload h = ground arith

-- Against a device that refuses a block of at most 1024 bytes fewer times than there are tries and
-- then acknowledges it, and that has room for the block each time, `send_blk` succeeds: it has written the same block once more than it was refused, has read
-- nothing further, and goes on to the next block number.
pub send_blk-ack :
    (payload : List ℕ) (pad : ℕ) (last : Bool) (k : ℕ) (s : Sender) (rest : List ℕ)
    → length payload ≤ 1024
    → s.device.reads ≡ refusals (nak s.ymodem) k ++ (ack ∷ rest)
    → k < s.ymodem.max_block_retries
    → length (times (suc k) (block_of s payload pad last)) ≤ s.device.room
    → send_blk payload pad last s
      ≡ (ok tt, advanced (sent s (times (suc k) (block_of s payload pad last)) rest))
unfolding send_blk advance
send_blk-ack payload pad last k s rest short e few fits =
    bind-ok
      (retry_loop payload pad (block_len payload) (block_start payload) (number s last)
        s.ymodem.max_block_retries none)
      (λ _. advance)
      (retry_loop-ack payload pad (block_len payload) (block_start payload) (number s last)
        (block_len-fits payload short) k s.ymodem.max_block_retries none s rest e few fits)

-- Against a device that refuses a block of at most 1024 bytes as often as there are tries, one at
-- least, and that has room for the block each time, `send_blk` fails with the refusal, having written the block once for each try, and the block number stays.
pub send_blk-nak :
    (payload : List ℕ) (pad : ℕ) (last : Bool) (k : ℕ) (s : Sender) (rest : List ℕ)
    → length payload ≤ 1024
    → s.ymodem.max_block_retries ≡ suc k
    → s.device.reads ≡ refusals (nak s.ymodem) (suc k) ++ rest
    → length (times (suc k) (block_of s payload pad last)) ≤ s.device.room
    → send_blk payload pad last s
      ≡ (err nak_received, sent s (times (suc k) (block_of s payload pad last)) rest)
unfolding send_blk
send_blk-nak payload pad last k s rest short tries e fits =
    ap
      (λ n.
        (retry_loop payload pad (block_len payload) (block_start payload) (number s last) n none
            >> advance)
          s)
      tries
    ∙ ap (and_then (λ _. advance)) (
        retry_loop-nak payload pad (block_len payload) (block_start payload) (number s last)
          (block_len-fits payload short) k none s rest e fits)

fill-panic :
    (payload : List ℕ) (pad : ℕ) (s : Sender)
    → 1024 < length payload
    → fill payload pad (block_len payload) s ≡ (panic, s)
unfolding fill block_len
fill-panic payload pad s long = ground arith

write_frame-panic :
    (payload : List ℕ) (pad p blk : ℕ) (s : Sender)
    → 1024 < length payload
    → 3 ≤ s.device.room
    → write_frame payload pad (block_len payload) p blk s
      ≡ (panic, wrote s (p ∷ blk ∷ (255 - blk) ∷ []))
unfolding write_frame
write_frame-panic payload pad p blk s long room =
    let start = p ∷ blk ∷ (255 - blk) ∷ [] in
    bind-ok (write_all start)
      (λ _. fill payload pad (block_len payload) >>= λ x. write_all x >> write_crc x)
      (write_all-fits start s room)
    ∙ ap (and_then (λ x. write_all x >> write_crc x)) (fill-panic payload pad (wrote s start) long)

-- More than 1024 bytes, as a header with a long file name, make `send_blk` panic at its first
-- block, if there is a try and the device takes the three bytes before the data.
pub send_blk-panic :
    (payload : List ℕ) (pad : ℕ) (last : Bool) (k : ℕ) (s : Sender)
    → 1024 < length payload
    → s.ymodem.max_block_retries ≡ suc k
    → 3 ≤ s.device.room
    → (send_blk payload pad last s).0 ≡ panic
unfolding send_blk retry_loop
send_blk-panic payload pad last k s long tries room =
    ap
      (λ n.
        ((retry_loop payload pad (block_len payload) (block_start payload) (number s last) n none
            >> advance)
          s).0)
      tries
    ∙ ap
        (λ x.
          (and_then (λ _. advance)
            (and_then
              (λ _ s1.
                on_answer
                  (λ e.
                    retry_loop payload pad (block_len payload) (block_start payload) (number s last)
                      k (some e))
                  (wait_ack s1))
              x)).0)
        (write_frame-panic payload pad (block_start payload) (number s last) s long room)

-- A receiver in the CRC mode: the start byte gives the length, the number is checked against its
-- complement, and the checksum against the data.
unfoldable pub check_block : ℕ → ℕ → List ℕ → List ℕ → Option (ℕ × List ℕ × List ℕ)
check_block blk complement buf [] = none
check_block blk complement buf (hi ∷ []) = none
check_block blk complement buf (hi ∷ lo ∷ rest) =
    if (complement + blk == 255) && (crc16_ccitt 0 buf == hi * 256 + lo)
    then some (blk, buf, rest)
    else none

unfoldable pub receive_block : List ℕ → Option (ℕ × List ℕ × List ℕ)
unfolding check_block
receive_block (start ∷ blk ∷ complement ∷ rest) =
    if start == soh
    then check_block blk complement (take 128 rest) (drop 128 rest)
    else if start == stx
    then check_block blk complement (take 1024 rest) (drop 1024 rest)
    else none
receive_block _ = none

check_block-trailer :
    (blk : ℕ) (buf rest : List ℕ)
    → blk < 256
    → crc16_ccitt 0 buf < 2 ^ 16
    → check_block blk (255 - blk) buf (trailer true buf ++ rest) ≡ some (blk, buf, rest)
unfolding check_block
check_block-trailer blk buf rest small word = ground arith

pub replicate-IsByte : (n pad : ℕ) → IsByte pad → All IsByte (replicate n pad)
replicate-IsByte zero pad h = tt
replicate-IsByte (suc n) pad h = (h, replicate-IsByte n pad h)

checked :
    (buf rest : List ℕ) (blk len : ℕ)
    → blk < 256
    → All IsByte buf
    → length buf ≡ len
    → check_block blk
        (255 - blk)
        (take len ((buf ++ trailer true buf) ++ rest))
        (drop len ((buf ++ trailer true buf) ++ rest))
      ≡ some (blk, buf, rest)
checked buf rest blk len small bs measured =
    rw (← measured, append_assoc buf (trailer true buf) rest, take-append buf, drop-append buf)
      (check_block-trailer blk buf rest small (crc16_ccitt-lt 0 buf (omega arith) bs))

length-padded :
    (payload : List ℕ) (pad len : ℕ) → length payload ≤ len → length (padded payload pad len) ≡ len
length-padded payload pad len h = omega (
  arith,
  length-append payload (replicate (len - length payload) pad),
  length-replicate (len - length payload) pad,
)

padded-IsByte :
    (payload : List ℕ) (pad len : ℕ)
    → IsByte pad
    → All IsByte payload
    → All IsByte (padded payload pad len)
padded-IsByte payload pad len h hs =
    All-append IsByte payload (replicate (len - length payload) pad) hs (replicate-IsByte _ pad h)

-- The block of at most 1024 bytes in the CRC mode is received as what it was sent for: its number, and its data
-- padded to the length of the block.
pub receive_block-frame :
    (payload : List ℕ) (pad blk : ℕ) (rest : List ℕ)
    → length payload ≤ 1024
    → All IsByte payload
    → IsByte pad
    → blk < 256
    → receive_block (frame true payload pad (block_len payload) (block_start payload) blk ++ rest)
      ≡ some (blk, padded payload pad (block_len payload), rest)
unfolding receive_block
receive_block-frame payload pad blk rest short bs pad_byte small =
    elim (Bool-cases (ltb 128 (length payload))) [
      | inl long ↦
          rw (block_len_long payload long, block_start_long payload long) (of 1024 (omega arith))
      | inr brief ↦
          rw (block_len_brief payload brief, block_start_brief payload brief)
            (of 128 (ground arith))
    ]
  where
    of :
        (len : ℕ)
        → length payload ≤ len
        → check_block blk
            (255 - blk)
            (take len ((padded payload pad len ++ trailer true (padded payload pad len)) ++ rest))
            (drop len ((padded payload pad len ++ trailer true (padded payload pad len)) ++ rest))
          ≡ some (blk, padded payload pad len, rest)
    of len h =
        checked (padded payload pad len) rest blk len small
          (padded-IsByte payload pad len pad_byte bs) (length-padded payload pad len h)
