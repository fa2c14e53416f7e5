-- ===== src/Uboot/Ymodem/Whole.antt =====
-- A whole file against a device that acknowledges every block.
use ostool.Prelude.{
  ℕ, ◌+◌, ◌-◌, ◌≤◌, ◌≡◌, refl, sym, ap, ◌∙◌, Bool, true, false, List, [], ◌∷◌, ◌++◌, map,
  append-nil, append_assoc, arith, if◌then◌else◌, length, All, length-append,
}
use mathlib.Core.Path.{subst}
use ostool.Uboot.Ymodem.{
  Sender, Ymodem, ok, bytes, ◌>>◌, ack, eof, send_blk, send_file, on_progress, block_len,
  block_start, next_blk,
}
use ostool.Uboot.Ymodem.Retry.{frame, times, sent, bind-ok}
use ostool.Uboot.Ymodem.Blocks.{send_blk-ack, block_of, advanced}

-- The block with this number, in the CRC mode.
abbrev pub block : List ℕ → ℕ → ℕ → List ℕ
block payload pad blk = frame true payload pad (block_len payload) (block_start payload) blk

-- From one state to another: what was written, what is still to read, and the next number.
pub record Moves (s s' : Sender) (w reads : List ℕ) (blk : ℕ) : Type 0 where
  pub written : s'.device.writes ≡ s.device.writes ++ w
  pub to_read : s'.device.reads ≡ reads
  pub room_left : s'.device.room ≡ s.device.room - length w
  pub ymodem_after : s'.ymodem ≡ record (s.ymodem) { blk = blk }

pub Moves-trans :
    {s t u : Sender} {v w r q : List ℕ} {a b : ℕ}
    → Moves s t v r a
    → Moves t u w q b
    → Moves s u (v ++ w) q b
Moves-trans {s} {t} {u} {v} {w} {r} {q} {a} {b} m n = record {
  written = n.written ∙ ap (λ x. x ++ w) m.written ∙ append_assoc s.device.writes v w;
  to_read = n.to_read;
  room_left = omega (arith, n.room_left, m.room_left, length-append v w);
  ymodem_after = n.ymodem_after ∙ ap (λ (y : Ymodem). record y { blk = b }) m.ymodem_after;
}

-- A sender in the CRC mode that tries a block once at least.
abbrev pub IsReady : Sender → Type 0
IsReady s = (s.ymodem.crc_mode ≡ true) × (1 ≤ s.ymodem.max_block_retries)

pub IsReady-Moves : {s t : Sender} {w r : List ℕ} {a : ℕ} → Moves s t w r a → IsReady s → IsReady t
IsReady-Moves m (c, n) = (
  ap (λ (y : Ymodem). y.crc_mode) m.ymodem_after ∙ c,
  omega (arith, ap (λ (y : Ymodem). y.max_block_retries) m.ymodem_after),
)

pub blk-Moves : {s t : Sender} {w r : List ℕ} {a : ℕ} → Moves s t w r a → t.ymodem.blk ≡ a
blk-Moves m = ap (λ (y : Ymodem). y.blk) m.ymodem_after

abbrev pub numbered : Sender → Bool → ℕ
numbered s last = if last then 0 else s.ymodem.blk

-- The first answer to a block acknowledges it.
pub send_blk-Moves :
    (payload : List ℕ) (pad : ℕ) (last : Bool) (s : Sender) (rest : List ℕ)
    → IsReady s
    → length payload ≤ 1024
    → s.device.reads ≡ ack ∷ rest
    → length (block payload pad (numbered s last)) ≤ s.device.room
    → (s' : Sender) × (send_blk payload pad last s ≡ (ok tt, s'))
      × Moves s s' (block payload pad (numbered s last)) rest (next_blk s.ymodem.blk)
unfolding times
send_blk-Moves payload pad last s rest (mode, tries) short e fits = (
  advanced (sent s w rest),
  send_blk-ack payload pad last 0 s rest short e tries (omega (arith, ap length once))
      ∙ ap (λ x. (ok tt, advanced (sent s x rest))) once,
  record { written = refl; to_read = refl; room_left = refl; ymodem_after = refl },
)
  where
    w : List ℕ
    w = block payload pad (numbered s last)

    once : times 1 (block_of s payload pad last) ≡ w
    once =
        append-nil _
        ∙ ap (λ c. frame c payload pad (block_len payload) (block_start payload) (numbered s last))
            mode

-- The blocks of a file, from a number on, and the number after them.
unfoldable pub blocks : ℕ → List (List ℕ) → List ℕ
blocks blk [] = []
blocks blk (c ∷ cs) = block c eof blk ++ blocks (next_blk blk) cs

unfoldable pub number_after : ℕ → List (List ℕ) → ℕ
number_after blk [] = blk
number_after blk (c ∷ cs) = number_after (next_blk blk) cs

-- An acknowledgement for each.
unfoldable pub acks : List (List ℕ) → List ℕ → List ℕ
acks [] rest = rest
acks (c ∷ cs) rest = ack ∷ acks cs rest

-- What one read of the file can give.
abbrev pub IsChunk : List ℕ → Type 0
IsChunk c = (1 ≤ length c) × (length c ≤ 1024)

-- No block at all.
pub Moves-refl : (s : Sender) {r : List ℕ} → s.device.reads ≡ r → Moves s s [] r s.ymodem.blk
Moves-refl s e = record {
  written = sym (append-nil s.device.writes);
  to_read = e;
  room_left = omega arith;
  ymodem_after = refl;
}

-- The progress that is reported is not part of the line.
abbrev reported : Sender → ℕ → Sender
reported s size = record s { progress = s.progress ++ (size ∷ []) }

Moves-reported :
    {s t : Sender} {w r : List ℕ} {a : ℕ} (size : ℕ)
    → Moves s t w r a
    → Moves s (reported t size) w r a
Moves-reported size m = record {
  written = m.written;
  to_read = m.to_read;
  room_left = m.room_left;
  ymodem_after = m.ymodem_after;
}

pub send_file-Moves :
    (cs : List (List ℕ)) (size : ℕ) (s : Sender) (rest : List ℕ)
    → IsReady s
    → All IsChunk cs
    → s.device.reads ≡ acks cs rest
    → length (blocks s.ymodem.blk cs) ≤ s.device.room
    → (s' : Sender) × (send_file (map bytes cs) size s ≡ (ok tt, s'))
      × Moves s s' (blocks s.ymodem.blk cs) rest (number_after s.ymodem.blk cs)
unfolding send_file acks blocks number_after on_progress
send_file-Moves [] size s rest ready chunks e fits = (s, refl, Moves-refl s e)
send_file-Moves ([] ∷ cs) size s rest ready chunks e fits = absurd (omega (arith, chunks.0.0))
send_file-Moves ((b ∷ bs) ∷ cs) size s rest ready chunks e fits =
    let c = b ∷ bs in
    let w = block c eof s.ymodem.blk in
    let more = blocks (next_blk s.ymodem.blk) cs in
    let total = size + length c in
    let (t, sends, m) =
      send_blk-Moves c eof false s (acks cs rest) ready chunks.0.1 e
        (omega (arith, length-append w more)) in
    let t' = reported t total in
    let m' = Moves-reported total m in
    let (u, goes_on, n) =
      send_file-Moves cs total t' rest (IsReady-Moves m' ready) chunks.1 m'.to_read (
        subst (λ k. length (blocks k cs) ≤ t'.device.room) (sym (blk-Moves m'))
          (omega (arith, length-append w more, m'.room_left))) in
    (
      u,
      bind-ok (send_blk c eof false >> on_progress total) (λ _. send_file (map bytes cs) total)
            (bind-ok (send_blk c eof false) (λ _. on_progress total) sends)
          ∙ goes_on,
      Moves-trans m'
          (subst (λ k. Moves t' u (blocks k cs) rest (number_after k cs)) (blk-Moves m') n),
    )
