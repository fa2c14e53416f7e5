-- ===== src/Uboot/Ymodem.antt =====
-- uboot-shell/src/ymodem.rs: the YMODEM sender. The device is what is left of the bytes that it
-- will deliver, the bytes written so far, and how many more it takes before a write fails; reading
-- past the end is an error. What `wait_ack` echoes to the terminal is not kept, and that the echo may
-- fail is left out.
-- A file's name is its bytes.
pub mod Retry
pub mod Blocks
pub mod Copies
pub mod Whole
pub mod Transfer
pub mod Receive
pub mod Delivered
use ostool.Prelude.Decimal.{decimal}
use ostool.Prelude.{
  ℕ, zero, suc, ◌+◌, ◌-◌, ◌*◌, ◌/◌, ◌%◌, ◌^◌, List, [], ◌∷◌, ◌++◌, Option, none, some, Bool, true,
  false, Text, length, replicate, ltb, leb, ◌==◌, if◌then◌else◌,
}
use mathlib.Core.Option.{get_or}
use ostool.Uboot.Crc.{crc16_ccitt}

abbrev pub soh : ℕ
soh = 0x01

abbrev pub stx : ℕ
stx = 0x02

abbrev pub eot : ℕ
eot = 0x04

abbrev pub ack : ℕ
ack = 0x06

abbrev pub nak_byte : ℕ
nak_byte = 0x15

abbrev pub eof : ℕ
eof = 0x1a

abbrev pub crc : ℕ
crc = 0x43

abbrev pub default_block_retries : ℕ
default_block_retries = 10

pub record Ymodem : Type 0 where
  pub crc_mode : Bool
  pub blk : ℕ
  pub max_block_retries : ℕ

pub record Device : Type 0 where
  pub reads : List ℕ
  pub writes : List ℕ
  pub room : ℕ

-- The sender, its device, and the values that `on_progress` was called with.
pub record Sender : Type 0 where
  pub ymodem : Ymodem
  pub device : Device
  pub progress : List ℕ

pub data Error : Type 0 where
  nak_received retry_too_much unexpected_eof write_failed file_failed : Error

-- `panic` is no value of the code: a slice was out of range.
pub data Result {ℓ} (A : Type ℓ) : Type ℓ where
  ok : A → Result A
  err : Error → Result A
  panic : Result A

abbrev pub M : Type 0 → Type 0
M A = Sender → Result A × Sender

abbrev pub and_then : {A B : Type 0} → (A → M B) → Result A × Sender → Result B × Sender
and_then f (ok a, s) = f a s
and_then f (err e, s) = (err e, s)
and_then f (panic, s) = (panic, s)

infixl 5 ◌>>=◌ ◌>>◌
abbrev pub ◌>>=◌ : {A B : Type 0} → M A → (A → M B) → M B
◌>>=◌ m f s = and_then f (m s)

abbrev pub ◌>>◌ : {B : Type 0} → M (Unit {0}) → M B → M B
m >> k = m >>= λ _. k

abbrev pub return : {A : Type 0} → A → M A
return a s = (ok a, s)

unfoldable pub new : Bool → Ymodem
new crc_mode = record { crc_mode = crc_mode; blk = 0; max_block_retries = default_block_retries }

unfoldable pub nak : Ymodem → ℕ
nak y = if y.crc_mode then crc else nak_byte

abbrev pub with_reads : Sender → List ℕ → Sender
with_reads s reads = record s { device = record (s.device) { reads = reads } }

abbrev pub with_crc_mode : Sender → Bool → Sender
with_crc_mode s crc_mode = record s { ymodem = record (s.ymodem) { crc_mode = crc_mode } }

-- `dev.write_all(bytes)`; `flush` does nothing to this device.
unfoldable pub write_all : List ℕ → M (Unit {0})
write_all bytes s =
    if leb (length bytes) s.device.room
    then (
      ok tt,
      record s {
        device = record (s.device) {
          writes = s.device.writes ++ bytes;
          room = s.device.room - length bytes;
        };
      },
    )
    else (err write_failed, s)

-- The loop of `wait_for_start` over the bytes to come.
unfoldable pub start_loop : List ℕ → Sender → Result (Unit {0}) × Sender
start_loop [] s = (err unexpected_eof, with_reads s [])
start_loop (c ∷ cs) s =
    let more = start_loop cs s in
    if c == nak_byte
    then (ok tt, with_crc_mode (with_reads s cs) false)
    else if c == crc
    then (ok tt, with_crc_mode (with_reads s cs) true)
    else more

unfoldable pub wait_for_start : M (Unit {0})
wait_for_start s = start_loop s.device.reads s

-- The loop of `wait_ack` over the bytes to come.
unfoldable pub ack_loop : ℕ → List ℕ → Sender → Result (Unit {0}) × Sender
ack_loop nak [] s = (err unexpected_eof, with_reads s [])
ack_loop nak (c ∷ cs) s =
    let more = ack_loop nak cs s in
    if c == ack
    then (ok tt, with_reads s cs)
    else if c == nak
    then (err nak_received, with_reads s cs)
    else more

unfoldable pub wait_ack : M (Unit {0})
wait_ack s = ack_loop (nak s.ymodem) s.device.reads s

-- `let mut buf = vec![pad; len]; buf[..data.len()].copy_from_slice(data)`
unfoldable pub fill : List ℕ → ℕ → ℕ → M (List ℕ)
fill payload pad len s =
    if leb (length payload) len
    then (ok (payload ++ replicate (len - length payload) pad), s)
    else (panic, s)

unfoldable pub write_crc : List ℕ → M (Unit {0})
write_crc buf s =
    if s.ymodem.crc_mode
    then write_all (crc16_ccitt 0 buf / 2 ^ 8 % 256 ∷ crc16_ccitt 0 buf % 256 ∷ []) s
    else (ok tt, s)

-- One round of the loop of `send_blk`, up to the answer.
unfoldable pub write_frame : List ℕ → ℕ → ℕ → ℕ → ℕ → M (Unit {0})
write_frame payload pad len p blk = do
  write_all (p ∷ blk ∷ (255 - blk) ∷ [])
  buf ← fill payload pad len
  write_all buf
  write_crc buf

-- An acknowledged block is done; any error in the answer is kept, and the block is sent again.
abbrev pub on_answer :
    (Error → M (Unit {0})) → Result (Unit {0}) × Sender → Result (Unit {0}) × Sender
on_answer again (ok _, s) = (ok tt, s)
on_answer again (err e, s) = again e s
on_answer again (panic, s) = (panic, s)

-- The loop of `send_blk`. Only the answer is tried again: a failed write ends the loop.
unfoldable pub retry_loop : List ℕ → ℕ → ℕ → ℕ → ℕ → ℕ → Option Error → M (Unit {0})
retry_loop payload pad len p blk zero last s = (err (get_or last retry_too_much), s)
retry_loop payload pad len p blk (suc retries) last s =
    (write_frame payload pad len p blk >>= λ _ s1.
    on_answer (λ e. retry_loop payload pad len p blk retries (some e)) (wait_ack s1))
      s

abbrev pub next_blk : ℕ → ℕ
next_blk blk = if blk == 255 then 0 else blk + 1

unfoldable pub advance : M (Unit {0})
advance s = (ok tt, record s { ymodem = record (s.ymodem) { blk = next_blk s.ymodem.blk } })

unfoldable pub block_len : List ℕ → ℕ
block_len payload = if ltb 128 (length payload) then 1024 else 128

unfoldable pub block_start : List ℕ → ℕ
block_start payload = if ltb 128 (length payload) then stx else soh

unfoldable pub send_blk : List ℕ → ℕ → Bool → M (Unit {0})
send_blk payload pad last s =
    (retry_loop payload pad (block_len payload) (block_start payload)
          (if last then 0 else s.ymodem.blk) s.ymodem.max_block_retries none
        >> advance)
      s

unfoldable pub send_header : Text → ℕ → M (Unit {0})
send_header name size = send_blk ((name ++ (0 ∷ decimal size)) ++ (0 ∷ [])) 0 false

-- What the calls of `file.read` return: some bytes, or an error. A read of no bytes is the end
-- of the file, and so is the end of the list.
pub data FileRead : Type 0 where
  bytes : List ℕ → FileRead
  fails : FileRead

unfoldable pub on_progress : ℕ → M (Unit {0})
on_progress size s = (ok tt, record s { progress = s.progress ++ (size ∷ []) })

unfoldable pub send_file : List FileRead → ℕ → M (Unit {0})
send_file [] send_size s = (ok tt, s)
send_file (fails ∷ rest) send_size s = (err file_failed, s)
send_file (bytes [] ∷ rest) send_size s = (ok tt, s)
send_file (bytes (b ∷ bs) ∷ rest) send_size s =
    (send_blk (b ∷ bs) eof false
        >> on_progress (send_size + length (b ∷ bs))
        >> send_file rest (send_size + length (b ∷ bs)))
      s

unfoldable pub send : List FileRead → Text → ℕ → M (Unit {0})
send file name size = do
  send_header name size
  send_file file 0
  write_all (eot ∷ [])
  wait_ack
  send_blk (0 ∷ []) 0 true
  wait_for_start
