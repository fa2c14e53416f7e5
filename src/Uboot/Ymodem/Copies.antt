-- ===== src/Uboot/Ymodem/Copies.antt =====
-- What a receiver gets of a block that `send_blk` has sent, the repetitions included.
use ostool.Prelude.{
  ℕ, zero, suc, ◌≤◌, ◌<◌, ◌≡◌, refl, ap, ◌∙◌, List, [], ◌∷◌, ◌++◌, Option, none, some, Bool, true,
  false, sym, length, replicate, All, IsByte, arith, append_assoc, append-nil,
}
use ostool.Uboot.Ymodem.{Sender, ok, ack, nak, block_len, block_start, send_blk}
use ostool.Uboot.Ymodem.Retry.{padded, frame, times, refusals}
use ostool.Uboot.Ymodem.Blocks.{number, block_of, receive_block, receive_block-frame, send_blk-ack}

-- A block's number and its data.
abbrev Block : Type 0
Block = ℕ × List ℕ

abbrev with_block : Block → Option (List Block × List ℕ) → Option (List Block × List ℕ)
with_block b none = none
with_block b (some (bs, rest)) = some (b ∷ bs, rest)

-- The rest of a receiver, behind a block.
abbrev follow :
    (List ℕ → Option (List Block × List ℕ))
    → Option (ℕ × List ℕ × List ℕ)
    → Option (List Block × List ℕ)
follow later none = none
follow later (some (blk, buf, rest)) = with_block (blk, buf) (later rest)

-- A receiver in the CRC mode that takes so many blocks, with what comes behind them.
unfoldable pub receive_times : ℕ → List ℕ → Option (List (ℕ × List ℕ) × List ℕ)
receive_times zero w = some ([], w)
receive_times (suc n) w = follow (receive_times n) (receive_block w)

receive_times-times :
    (n : ℕ) (w : List ℕ) (b : Block) (rest : List ℕ)
    → ((behind : List ℕ) → receive_block (w ++ behind) ≡ some (b.0, b.1, behind))
    → receive_times n (times n w ++ rest) ≡ some (replicate n b, rest)
unfolding receive_times times
receive_times-times zero w b rest h = refl
receive_times-times (suc n) w b rest h =
    ap (λ v. follow (receive_times n) (receive_block v)) (append_assoc w (times n w) rest)
    ∙ ap (follow (receive_times n)) (h (times n w ++ rest))
    ∙ ap (with_block b) (receive_times-times n w b rest h)

number_small : (s : Sender) (last : Bool) → s.ymodem.blk < 256 → number s last < 256
number_small s true h = omega arith
number_small s false h = h

-- Against a device that refuses a block of at most 1024 bytes, padded with a byte, fewer times than
-- there are tries and then acknowledges it, and that has room for the block each time, `send_blk` in the
-- CRC mode with a counter below 256 succeeds, and a receiver of what it has written gets the block once
-- more than it was refused, and nothing else: each time with its number, and its data padded to the
-- length of the block.
pub receive_times-send_blk :
    (payload : List ℕ) (pad : ℕ) (last : Bool) (k : ℕ) (s : Sender) (rest : List ℕ)
    → s.ymodem.crc_mode ≡ true
    → s.ymodem.blk < 256
    → length payload ≤ 1024
    → All IsByte payload
    → IsByte pad
    → s.device.reads ≡ refusals (nak s.ymodem) k ++ (ack ∷ rest)
    → k < s.ymodem.max_block_retries
    → length (times (suc k) (block_of s payload pad last)) ≤ s.device.room
    → (s' : Sender) × (w : List ℕ) × (send_blk payload pad last s ≡ (ok tt, s'))
      × (s'.device.writes ≡ s.device.writes ++ w)
      × (receive_times (suc k) w
          ≡ some (replicate (suc k) (number s last, padded payload pad (block_len payload)), []))
receive_times-send_blk payload pad last k s rest mode small short bs pad_byte reads few room = (
  _,
  times (suc k) (block_of s payload pad last),
  send_blk-ack payload pad last k s rest short reads few room,
  refl,
  ap (receive_times (suc k)) (sym (append-nil (times (suc k) (block_of s payload pad last))))
      ∙ receive_times-times (suc k) (block_of s payload pad last)
          (number s last, padded payload pad (block_len payload)) [] received,
)
  where
    received :
        (behind : List ℕ)
        → receive_block (block_of s payload pad last ++ behind)
          ≡ some (number s last, padded payload pad (block_len payload), behind)
    received behind =
        ap
          (λ c. receive_block (
            frame c payload pad (block_len payload) (block_start payload) (number s last)
            ++ behind))
          mode
        ∙ receive_block-frame payload pad (number s last) behind short bs pad_byte
            (number_small s last small)
