-- ===== src/Uboot/Ymodem/Delivered.antt =====
-- From the sender to the receiver.
use ostool.Prelude.{
  ℕ, ◌-◌, ◌≤◌, ◌<◌, ◌≡◌, refl, sym, ap, ◌∙◌, true, some, List, [], ◌∷◌, ◌++◌, map, append-nil,
  append_assoc, arith, length, take, replicate, All, length-append, Text,
}
use ostool.Prelude.{take-append}
use ostool.Uboot.Ymodem.{Sender, ok, bytes, eot, eof, send, next_blk, block_len}
use ostool.Uboot.Ymodem.Retry.{padded}
use ostool.Uboot.Ymodem.Blocks.{receive_block}
use ostool.Uboot.Ymodem.Whole.{block, blocks, IsChunk}
use ostool.Uboot.Ymodem.Transfer.{header, transcript, answers, send-acked}
use ostool.Uboot.Ymodem.Receive.Header.{read_header-header, IsNameByte, header-IsByte}
use ostool.Uboot.Ymodem.Receive.{
  accept, with_file, with_header, ended, receive_blocks, receive, contents, padded_contents,
  IsByteChunk, receive_block-block, receive_blocks-blocks,
}

-- Every read but the last fills its block.
abbrev pub IsFilled : List (List ℕ) → Type 0
IsFilled [] = Unit
IsFilled (c ∷ []) = Unit
IsFilled (c ∷ d ∷ cs) = (length c ≡ block_len c) × IsFilled (d ∷ cs)

padded_full : (c : List ℕ) (n : ℕ) → length c ≡ n → padded c eof n ≡ c
padded_full c n h = ap (λ k. c ++ replicate k eof) (spare n (length c) h) ∙ append-nil c
  where
    spare : (n m : ℕ) → m ≡ n → n - m ≡ 0
    spare n m h = omega arith

-- Only behind the file there are bytes that fill a block.
padded_contents_front :
    (cs : List (List ℕ))
    → IsFilled cs
    → (filling : List ℕ) × (padded_contents cs ≡ contents cs ++ filling)
unfolding padded_contents contents
padded_contents_front [] h = ([], refl)
padded_contents_front (c ∷ []) h =
    let filling = replicate (block_len c - length c) eof in
    (filling, append-nil (c ++ filling) ∙ ap (λ x. x ++ filling) (sym (append-nil c)))
padded_contents_front (c ∷ d ∷ cs) h =
    let (filling, e) = padded_contents_front (d ∷ cs) h.1 in
    (
      filling,
      ap (λ x. x ++ padded_contents (d ∷ cs)) (padded_full c (block_len c) h.0)
          ∙ ap (λ x. c ++ x) e
          ∙ sym (append_assoc c (contents (d ∷ cs)) filling),
    )

take-contents :
    (cs : List (List ℕ))
    → IsFilled cs
    → take (length (contents cs)) (padded_contents cs) ≡ contents cs
take-contents cs h =
    let (filling, e) = padded_contents_front cs h in
    ap (take (length (contents cs))) e ∙ take-append (contents cs) filling

length-blocks : (cs : List (List ℕ)) (blk : ℕ) → length cs ≤ length (blocks blk cs)
unfolding blocks
length-blocks [] blk = omega arith
length-blocks (c ∷ cs) blk = omega (
  arith,
  length-append (block c eof blk) (blocks (next_blk blk) cs),
  length-blocks cs (next_blk blk),
)

abbrev closing_block : List ℕ
closing_block = block (0 ∷ []) 0 0

closing_block-ended : ended (accept 0 (receive_block closing_block)) ≡ true
closing_block-ended =
    ap (λ w. ended (accept 0 (receive_block w))) (sym (append-nil closing_block))
    ∙ ap ended (
        receive_block-block (0 ∷ []) 0 0 [] (omega arith) (omega arith, tt) (omega arith)
          (omega arith))

-- What a sender with a new counter puts on the line, the receiver takes for the file.
receive-transcript :
    (cs : List (List ℕ)) (name : Text)
    → All IsNameByte name
    → length (header name (length (contents cs))) ≤ 1024
    → All IsByteChunk cs
    → IsFilled cs
    → receive (transcript 0 name (length (contents cs)) cs) ≡ some (name, contents cs)
unfolding receive
receive-transcript cs name named short chunks filled =
    let size = length (contents cs) in
    let top = header name size in
    let body = blocks 1 cs ++ (eot ∷ closing_block) in
    let enough : length cs < length body =
      omega (arith, length-append (blocks 1 cs) (eot ∷ closing_block), length-blocks cs 1) in
    ap with_header (
      receive_block-block top 0 0 body short (header-IsByte name size named) (omega arith)
        (omega arith))
    ∙ ap (λ h. with_file h (receive_blocks (length body) 1 body))
        (read_header-header name size _ named)
    ∙ ap (with_file (some (name, size)))
        (receive_blocks-blocks cs (length body) 1 closing_block enough (omega arith) chunks)
    ∙ rw closing_block-ended (ap (λ file. some (name, file)) (take-contents cs filled))

IsByteChunk-IsChunk : (cs : List (List ℕ)) → All IsByteChunk cs → All IsChunk cs
IsByteChunk-IsChunk [] h = tt
IsByteChunk-IsChunk (c ∷ cs) h = (h.0.0, IsByteChunk-IsChunk cs h.1)

-- A file whose reads give bytes, every read but the last filling its block, with a name of bytes
-- other than NUL such that the header, the name and the size, has at most 1024 bytes, its size given as
-- it is: against a device with room for all that is sent, which acknowledges every block and the end of
-- the file and asks for the next one, `send` by a sender that starts in the CRC mode, has sent nothing
-- and has a try for each block succeeds, and a receiver of what it has written gets the name and exactly
-- the contents of the file.
pub receive-send :
    (cs : List (List ℕ)) (name : Text) (s : Sender) (rest : List ℕ)
    → s.ymodem.crc_mode ≡ true
    → s.ymodem.blk ≡ 0
    → 1 ≤ s.ymodem.max_block_retries
    → s.device.writes ≡ []
    → s.device.reads ≡ answers cs rest
    → length (transcript 0 name (length (contents cs)) cs) ≤ s.device.room
    → All IsNameByte name
    → length (header name (length (contents cs))) ≤ 1024
    → All IsByteChunk cs
    → IsFilled cs
    → (s' : Sender) × (send (map bytes cs) name (length (contents cs)) s ≡ (ok tt, s'))
      × (receive s'.device.writes ≡ some (name, contents cs))
receive-send cs name s rest mode first tries new reads room named short chunks filled =
    let size = length (contents cs) in
    let same = ap (λ k. transcript k name size cs) first in
    let (s', sends, writes, left) =
      send-acked cs name size s rest mode tries short (IsByteChunk-IsChunk cs chunks) reads
        (omega (arith, ap length same)) in
    (
      s',
      sends,
      ap receive (writes ∙ ap (λ w. w ++ transcript s.ymodem.blk name size cs) new ∙ same)
          ∙ receive-transcript cs name named short chunks filled,
    )
