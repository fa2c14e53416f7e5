-- ===== src/Uboot/Ymodem/Receive.antt =====
-- A receiver of whole transfers in the CRC mode, as the protocol has it, and what it makes of the
-- sender's bytes.
pub mod Header
use ostool.Prelude.{
  ℕ, zero, suc, ◌+◌, ◌-◌, ◌*◌, ◌/◌, ◌%◌, ◌^◌, ◌≤◌, ◌<◌, min, ◌≡◌, ◌≢◌, ◌↔◌, ◌⊎◌, refl, sym, ap, ◌∙◌,
  inl, inr, Bool, true, false, not, ◌&&◌, ◌||◌, Option, none, some, List, [], ◌∷◌, ◌++◌, map,
  append-nil, append_assoc, arith, ltb, leb, ◌==◌, if◌then◌else◌, ltb→lt, lt→ltb, ==_iff, ==_refl,
  Bool-cases, Option-cases, and_true, length, get_elem?, get_or, take, drop, replicate, All,
  length-append, All-append, IsByte, Text, codes, text_eq, text_eq_iff, text_eq_refl, text_lt,
}
use mathlib.Core.Path.{subst}
use ostool.Uboot.Ymodem.{ack, eot, eof, soh, stx, next_blk, block_len, block_start}
use ostool.Prelude.Decimal.{decimal}
use ostool.Uboot.Ymodem.Retry.{frame, padded}
use ostool.Uboot.Ymodem.Blocks.{receive_block, receive_block-frame}
use ostool.Uboot.Ymodem.Whole.{block, blocks, IsChunk}
use ostool.Uboot.Ymodem.Transfer.{header, transcript}
use ostool.Uboot.Ymodem.Receive.Header.{read_header, read_header-header, IsNameByte, header-IsByte}

-- A block under the number that is expected: its data, and what follows.
unfoldable pub accept : ℕ → Option (ℕ × List ℕ × List ℕ) → Option (List ℕ × List ℕ)
accept blk none = none
accept blk (some (n, buf, rest)) = if n == blk then some (buf, rest) else none

abbrev pub joined : List ℕ → Option (List ℕ × List ℕ) → Option (List ℕ × List ℕ)
joined buf none = none
joined buf (some (more, rest)) = some (buf ++ more, rest)

abbrev pub then_blocks :
    (List ℕ → Option (List ℕ × List ℕ)) → Option (List ℕ × List ℕ) → Option (List ℕ × List ℕ)
then_blocks next none = none
then_blocks next (some (buf, rest)) = joined buf (next rest)

-- The blocks of a file up to the end of the transmission.
unfoldable pub receive_blocks : ℕ → ℕ → List ℕ → Option (List ℕ × List ℕ)
receive_blocks zero blk w = none
receive_blocks (suc fuel) blk [] = none
receive_blocks (suc fuel) blk (b ∷ w) =
    if b == eot
    then some ([], w)
    else then_blocks (receive_blocks fuel (next_blk blk)) (accept blk (receive_block (b ∷ w)))

-- Nothing follows.
abbrev pub ended : Option (List ℕ × List ℕ) → Bool
ended none = false
ended (some (buf, [])) = true
ended (some (buf, b ∷ bs)) = false

abbrev pub with_file : Option (Text × ℕ) → Option (List ℕ × List ℕ) → Option (Text × List ℕ)
with_file none received = none
with_file (some (name, size)) none = none
with_file (some (name, size)) (some (file, rest)) =
    if ended (accept 0 (receive_block rest)) then some (name, take size file) else none

abbrev pub with_header : Option (List ℕ × List ℕ) → Option (Text × List ℕ)
with_header none = none
with_header (some (buf, rest)) = with_file (read_header buf) (receive_blocks (length rest) 1 rest)

-- The name and the contents of the file that is received.
unfoldable pub receive : List ℕ → Option (Text × List ℕ)
receive w = with_header (accept 0 (receive_block w))

unfoldable pub contents : List (List ℕ) → List ℕ
contents [] = []
contents (c ∷ cs) = c ++ contents cs

unfoldable pub padded_contents : List (List ℕ) → List ℕ
padded_contents [] = []
padded_contents (c ∷ cs) = padded c eof (block_len c) ++ padded_contents cs

abbrev pub IsByteChunk : List ℕ → Type 0
IsByteChunk c = IsChunk c × All IsByte c

block_start-ne : (c : List ℕ) → (block_start c == eot) ≡ false
unfolding block_start
block_start-ne c = ground arith

pub receive_block-block :
    (c : List ℕ) (pad blk : ℕ) (rest : List ℕ)
    → length c ≤ 1024
    → All IsByte c
    → IsByte pad
    → blk < 256
    → accept blk (receive_block (block c pad blk ++ rest)) ≡ some (padded c pad (block_len c), rest)
unfolding accept
receive_block-block c pad blk rest short bs p small =
    ap (accept blk) (receive_block-frame c pad blk rest short bs p small) ∙ rw (==_refl blk)

next_blk-lt : (blk : ℕ) → blk < 256 → next_blk blk < 256
next_blk-lt blk h = ground arith

pub receive_blocks-blocks :
    (cs : List (List ℕ)) (fuel blk : ℕ) (rest : List ℕ)
    → length cs < fuel
    → blk < 256
    → All IsByteChunk cs
    → receive_blocks fuel blk (blocks blk cs ++ (eot ∷ rest)) ≡ some (padded_contents cs, rest)
unfolding receive_blocks blocks padded_contents
receive_blocks-blocks cs zero blk rest few small chunks = absurd (omega arith)
receive_blocks-blocks [] (suc fuel) blk rest few small chunks = refl
receive_blocks-blocks (c ∷ cs) (suc fuel) blk rest few small chunks =
    let more = blocks (next_blk blk) cs ++ (eot ∷ rest) in
    ap (receive_blocks (suc fuel) blk)
      (append_assoc (block c eof blk) (blocks (next_blk blk) cs) (eot ∷ rest))
    ∙ rw (block_start-ne c) (
        ap (then_blocks (receive_blocks fuel (next_blk blk)))
          (receive_block-block c eof blk more chunks.0.0.1 chunks.0.1 (omega arith) small)
        ∙ ap (joined (padded c eof (block_len c))) (
            receive_blocks-blocks cs fuel (next_blk blk) rest (omega arith) (next_blk-lt blk small)
              chunks.1))
