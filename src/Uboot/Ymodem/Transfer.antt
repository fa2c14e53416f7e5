-- ===== src/Uboot/Ymodem/Transfer.antt =====
-- `send`, from the header to the start of the next file.
use ostool.Prelude.{
  ℕ, ◌≤◌, ◌≡◌, refl, sym, ap, ◌∙◌, true, false, List, [], ◌∷◌, ◌++◌, map, arith, length, All,
  length-append, Text,
}
use mathlib.Core.Path.{subst}
use ostool.Uboot.Ymodem.{
  Sender, ok, M, bytes, ◌>>◌, ack, crc, eot, write_all, wait_ack, wait_for_start, start_loop,
  send_blk, send_header, send_file, send, next_blk, nak, ack_loop, with_reads, with_crc_mode,
}
use ostool.Prelude.Decimal.{decimal}
use ostool.Uboot.Ymodem.Retry.{wrote, write_all-fits, bind-ok, ack_loop-ack}
use ostool.Uboot.Ymodem.Whole.{
  block, Moves, Moves-trans, IsReady, IsReady-Moves, blk-Moves, send_blk-Moves, blocks,
  number_after, acks, IsChunk, send_file-Moves,
}

-- What the header block holds.
abbrev pub header : Text → ℕ → List ℕ
header name size = (name ++ (0 ∷ decimal size)) ++ (0 ∷ [])

-- All that goes over the line.
abbrev pub transcript : ℕ → Text → ℕ → List (List ℕ) → List ℕ
transcript blk name size cs =
    block (header name size) 0 blk
    ++ (blocks (next_blk blk) cs ++ ((eot ∷ []) ++ block (0 ∷ []) 0 0))

-- The receiver's answers: one for each block and one for the end, and the start of the next file.
abbrev pub answers : List (List ℕ) → List ℕ → List ℕ
answers cs rest = ack ∷ acks cs (ack ∷ ack ∷ crc ∷ rest)

Moves-write_all :
    (s : Sender) (w r : List ℕ) → s.device.reads ≡ r → Moves s (wrote s w) w r s.ymodem.blk
Moves-write_all s w r e = record {
  written = refl;
  to_read = e;
  room_left = refl;
  ymodem_after = refl;
}

-- The end of the file is acknowledged.
end_acked :
    (s : Sender) (rest : List ℕ)
    → s.device.reads ≡ ack ∷ rest
    → wait_ack s ≡ (ok tt, with_reads s rest)
unfolding wait_ack
end_acked s rest e =
    ap (λ r. ack_loop (nak s.ymodem) r s) e ∙ ack_loop-ack (nak s.ymodem) [] rest s tt

started :
    (s : Sender) (rest : List ℕ)
    → s.device.reads ≡ crc ∷ rest
    → s.ymodem.crc_mode ≡ true
    → wait_for_start s ≡ (ok tt, with_reads s rest)
unfolding wait_for_start start_loop
started s rest e mode =
    ap (λ r. start_loop r s) e ∙ ap (λ b. (ok tt, with_crc_mode (with_reads s rest) b)) (sym mode)

-- The end of the transfer, after the blocks of the file.
closing : M (Unit {0})
closing = do write_all (eot ∷ []); wait_ack; send_blk (0 ∷ []) 0 true; wait_for_start

abbrev last_words : List ℕ
last_words = (eot ∷ []) ++ block (0 ∷ []) 0 0

closing-Moves :
    (s : Sender) (rest : List ℕ)
    → IsReady s
    → s.device.reads ≡ ack ∷ ack ∷ crc ∷ rest
    → length last_words ≤ s.device.room
    → (s' : Sender) × (closing s ≡ (ok tt, s')) × Moves s s' last_words rest (next_blk s.ymodem.blk)
unfolding closing
closing-Moves s rest ready e fits =
    let w = block (0 ∷ []) 0 0 in
    let t = with_reads (wrote s (eot ∷ [])) (ack ∷ crc ∷ rest) in
    let (u, sends, m) =
      send_blk-Moves (0 ∷ []) 0 true t (crc ∷ rest) ready (omega arith) refl (omega arith) in
    let ready' = IsReady-Moves m ready in
    (
      with_reads u rest,
      bind-ok (write_all (eot ∷ [])) (λ _. wait_ack >> (send_blk (0 ∷ []) 0 true >> wait_for_start))
            (write_all-fits (eot ∷ []) s (omega arith))
          ∙ bind-ok wait_ack (λ _. send_blk (0 ∷ []) 0 true >> wait_for_start)
              (end_acked (wrote s (eot ∷ [])) (ack ∷ crc ∷ rest) e)
          ∙ bind-ok (send_blk (0 ∷ []) 0 true) (λ _. wait_for_start) sends
          ∙ started u rest m.to_read ready'.0,
      Moves-trans {t = t} {r = ack ∷ crc ∷ rest} {a = s.ymodem.blk}
          (record { written = refl; to_read = refl; room_left = refl; ymodem_after = refl })
          (record {
            written = m.written;
            to_read = refl;
            room_left = m.room_left;
            ymodem_after = m.ymodem_after;
          }),
    )

-- Against a device with room for all that is sent, which acknowledges every block and the end of the
-- file, and asks for the next file, `send` by a sender in the CRC mode with a try for each block, whose
-- header has at most 1024 bytes and whose reads fit their blocks, succeeds: it has written the header,
-- the blocks of the file in order, the end of the transmission and the last block, and has read nothing
-- further.
pub send-acked :
    (cs : List (List ℕ)) (name : Text) (size : ℕ) (s : Sender) (rest : List ℕ)
    → s.ymodem.crc_mode ≡ true
    → 1 ≤ s.ymodem.max_block_retries
    → length (header name size) ≤ 1024
    → All IsChunk cs
    → s.device.reads ≡ answers cs rest
    → length (transcript s.ymodem.blk name size cs) ≤ s.device.room
    → (s' : Sender) × (send (map bytes cs) name size s ≡ (ok tt, s'))
      × (s'.device.writes ≡ s.device.writes ++ transcript s.ymodem.blk name size cs)
      × (s'.device.reads ≡ rest)
unfolding send send_header closing
send-acked cs name size s rest mode tries short chunks e fits =
    let first = block (header name size) 0 s.ymodem.blk in
    let middle = blocks (next_blk s.ymodem.blk) cs in
    let joined = length-append first (middle ++ last_words) in
    let joined' = length-append middle last_words in
    let (t, heads, m) =
      send_blk-Moves (header name size) 0 false s (acks cs (ack ∷ ack ∷ crc ∷ rest)) (mode, tries)
        short e (omega (arith, joined)) in
    let ready = IsReady-Moves m (mode, tries) in
    let (u, files, n') = send_file-Moves cs 0 t (ack ∷ ack ∷ crc ∷ rest) ready chunks m.to_read (
      subst (λ k. length (blocks k cs) ≤ t.device.room) (sym (blk-Moves m))
        (omega (arith, joined, joined', m.room_left))) in
    let n =
      subst (λ k. Moves t u (blocks k cs) (ack ∷ ack ∷ crc ∷ rest) (number_after k cs))
        (blk-Moves m) n' in
    let (v, closes, o) =
      closing-Moves u rest (IsReady-Moves n ready) n.to_read
        (omega (arith, joined, joined', m.room_left, n.room_left)) in
    let whole = Moves-trans m (Moves-trans n o) in
    (
      v,
      bind-ok (send_header name size) (λ _. send_file (map bytes cs) 0 >> closing) heads
          ∙ bind-ok (send_file (map bytes cs) 0) (λ _. closing) files
          ∙ closes,
      whole.written,
      whole.to_read,
    )
