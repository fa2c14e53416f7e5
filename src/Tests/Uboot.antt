-- ===== src/Tests/Uboot.antt =====
-- uboot-shell: blocks of the YMODEM sender against a device that answers as written.
use ostool.Prelude.{ℕ, ◌≡◌, refl, true, false, some, List, [], ◌∷◌, ◌++◌, arith, replicate, codes}
use ostool.Prelude.{map}
use ostool.Prelude.{length, true}
use ostool.Uboot.Ymodem.Receive.Header.{read_header, split_nul, value}
use ostool.Uboot.Ymodem.{send, bytes}
use ostool.Prelude.Decimal.{decimal_loop, decimal}
use ostool.Uboot.Ymodem.Whole.{blocks, acks}
use ostool.Uboot.Ymodem.Transfer.{answers, send-acked, transcript}
use ostool.Uboot.Ymodem.Receive.{receive, contents, accept, receive_blocks}
use ostool.Uboot.Ymodem.Delivered.{receive-send}
use ostool.Uboot.Crc.{crc16_ccitt}
use ostool.Uboot.Ymodem.{block_start}
use ostool.Uboot.Ymodem.{block_len, nak}
use ostool.Uboot.Crc.Laws.{crc16_reference, crc16_ccitt-crc16_reference}
use ostool.Uboot.Ymodem.Copies.{receive_times, receive_times-send_blk}
use ostool.Uboot.Ymodem.Retry.{padded, times, sent}
use ostool.Uboot.Ymodem.Blocks.{
  check_block, replicate-IsByte, send_blk-ack, send_blk-nak, send_blk-panic, receive_block,
  block_of, advanced,
}
use ostool.Uboot.Ymodem.{Sender, ok, err, panic, nak_received, ack, crc, eof, new, send_blk}

-- `123456789` has the checksum of the standard.
crc16_ccitt-digits : crc16_ccitt 0 (codes "123456789") ≡ 0x31c3
unfolding crc16_ccitt
crc16_ccitt-digits = refl

crc16_ccitt-crc16_reference_example :
    crc16_ccitt 0 (codes "123456789") ≡ crc16_reference 0 (codes "123456789")
crc16_ccitt-crc16_reference_example =
    crc16_ccitt-crc16_reference 0 (codes "123456789") (omega arith) (omega arith)

-- A sender in the CRC mode whose device will deliver these bytes and takes 10,000.
abbrev facing : List ℕ → Sender
unfolding new
facing reads = record {
  ymodem = new true;
  device = record { reads = reads; writes = []; room = 10000 };
  progress = [];
}

-- Two refusals, an acknowledgement, and one more byte.
abbrev refusing : Sender
refusing = facing (crc ∷ crc ∷ ack ∷ 9 ∷ [])

abbrev hello : List ℕ
hello = codes "hello"

send_blk-ack_example :
    send_blk hello eof false refusing
    ≡ (ok tt, advanced (sent refusing (times 3 (block_of refusing hello eof false)) (9 ∷ [])))
unfolding nak new block_len block_start times crc16_ccitt
send_blk-ack_example =
    send_blk-ack hello eof false 2 refusing (9 ∷ []) (omega arith) refl (omega arith) (omega arith)

-- Ten refusals.
abbrev refusing_always : Sender
refusing_always = facing (replicate 10 crc)

send_blk-nak_example : send_blk hello eof false refusing_always ≡ (
  err nak_received,
  sent refusing_always (times 10 (block_of refusing_always hello eof false)) [],
)
unfolding nak new block_len block_start times crc16_ccitt
send_blk-nak_example =
    send_blk-nak hello eof false 9 refusing_always [] (omega arith) refl refl (omega arith)

send_blk-panic_example : (send_blk (replicate 1025 97) 0 false refusing).0 ≡ panic
unfolding new
send_blk-panic_example =
    send_blk-panic (replicate 1025 97) 0 false 9 refusing (omega arith) refl (omega arith)

receive_times-send_blk_example :
    (s' : Sender) × (w : List ℕ) × (send_blk hello eof false refusing ≡ (ok tt, s'))
    × (s'.device.writes ≡ [] ++ w)
    × (receive_times 3 w ≡ some (replicate 3 (0, padded hello eof 128), []))
unfolding nak new block_len block_start times crc16_ccitt
receive_times-send_blk_example =
    receive_times-send_blk hello eof false 2 refusing (9 ∷ []) refl (omega arith) (omega arith)
      (omega arith) (omega arith) refl (omega arith) (omega arith)

-- A file that is read in two pieces, the first of them as long as a block.
abbrev pieces : List (List ℕ)
pieces = replicate 128 7 ∷ hello ∷ []

abbrev asking : Sender
unfolding acks
asking = facing (answers pieces [])

receive-send_example :
    (s' : Sender) × (send (map bytes pieces) (codes "a") (length (contents pieces)) asking
      ≡ (ok tt, s'))
    × (receive s'.device.writes ≡ some (codes "a", contents pieces))
unfolding asking facing acks new contents decimal decimal_loop blocks block_len block_start
    crc16_ccitt
receive-send_example =
    receive-send pieces (codes "a") asking [] refl refl (omega arith) refl refl (omega arith)
      ((omega arith, omega arith), tt) (omega arith)
      (
        ((omega arith, omega arith), replicate-IsByte 128 7 (omega arith)),
        (((omega arith, omega arith), omega arith), tt),
      )
      (refl, tt)

send-acked_example :
    (s' : Sender) × (send (map bytes pieces) (codes "a") 133 asking ≡ (ok tt, s'))
    × (s'.device.writes ≡ [] ++ transcript 0 (codes "a") 133 pieces)
    × (s'.device.reads ≡ [])
unfolding asking facing acks new decimal decimal_loop blocks block_len block_start crc16_ccitt
send-acked_example =
    send-acked pieces (codes "a") 133 asking [] refl (omega arith) (omega arith)
      ((omega arith, omega arith), ((omega arith, omega arith), tt)) refl (omega arith)

-- A read that ends before its block is full leaves what fills the block within the file.
short_read :
    receive (transcript 0 (codes "a") 8 ((7 ∷ 7 ∷ 7 ∷ []) ∷ hello ∷ []))
    ≡ some (codes "a", 7 ∷ 7 ∷ 7 ∷ 26 ∷ 26 ∷ 26 ∷ 26 ∷ 26 ∷ [])
unfolding receive accept receive_block check_block read_header split_nul value receive_blocks
    decimal decimal_loop blocks block_len block_start crc16_ccitt
short_read = refl
