-- ===== src/Uboot/Ymodem/Retry.antt =====
-- What `send_blk` does with a device that takes all that is written: the frame, the repetitions,
-- and how the loop ends.
use ostool.Prelude.{
  ℕ, zero, suc, ◌+◌, ◌-◌, ◌*◌, ◌/◌, ◌%◌, ◌^◌, ◌≤◌, ◌<◌, ◌≡◌, ◌≢◌, refl, sym, ap, ◌∙◌, List, [], ◌∷◌,
  ◌++◌, Option, some, Bool, true, false, length, replicate, if◌then◌else◌, All, arith, append_assoc,
  append-nil, length-append,
}
use ostool.Uboot.Crc.{crc16_ccitt}
use ostool.Uboot.Ymodem.{
  Sender, Ymodem, Error, nak_received, Result, ok, err, M, and_then, on_answer, ◌>>=◌, ◌>>◌, ack,
  nak, write_all, ack_loop, wait_ack, fill, write_crc, write_frame, retry_loop, with_reads,
}

abbrev pub padded : List ℕ → ℕ → ℕ → List ℕ
padded payload pad len = payload ++ replicate (len - length payload) pad

-- The two bytes of the checksum, the high one first; nothing outside the CRC mode.
abbrev pub trailer : Bool → List ℕ → List ℕ
trailer crc_mode buf =
    if crc_mode then crc16_ccitt 0 buf / 2 ^ 8 % 256 ∷ crc16_ccitt 0 buf % 256 ∷ [] else []

-- One block as it goes over the line.
abbrev pub frame : Bool → List ℕ → ℕ → ℕ → ℕ → ℕ → List ℕ
frame crc_mode payload pad len p blk =
    (p ∷ blk ∷ (255 - blk) ∷ [])
    ++ (padded payload pad len ++ trailer crc_mode (padded payload pad len))

-- The sender after its device has taken some bytes.
abbrev pub wrote : Sender → List ℕ → Sender
wrote s w = record s {
  device = record (s.device) { writes = s.device.writes ++ w; room = s.device.room - length w };
}

pub write_all-fits :
    (w : List ℕ) (s : Sender) → length w ≤ s.device.room → write_all w s ≡ (ok tt, wrote s w)
unfolding write_all
write_all-fits w s h = ground arith

wrote-append : (s : Sender) (v w : List ℕ) → wrote (wrote s v) w ≡ wrote s (v ++ w)
wrote-append s v w = ground (arith, append_assoc s.device.writes v w, length-append v w)

trailer-fits :
    (b : Bool) (buf : List ℕ) (s : Sender)
    → length (trailer b buf) ≤ s.device.room
    → (if b
        then write_all (crc16_ccitt 0 buf / 2 ^ 8 % 256 ∷ crc16_ccitt 0 buf % 256 ∷ []) s
        else (ok tt, s))
      ≡ (ok tt, wrote s (trailer b buf))
trailer-fits true buf s h = write_all-fits _ s h
trailer-fits false buf s h = ground (arith, append-nil s.device.writes)

-- A step that succeeds hands its value and its state on.
pub bind-ok :
    {A B : Type 0} (m : M A) (f : A → M B) {s s' : Sender} {a : A}
    → m s ≡ (ok a, s')
    → (m >>= f) s ≡ f a s'
bind-ok m f e = ap (and_then f) e

pub write_frame-fits :
    (payload : List ℕ) (pad len p blk : ℕ) (s : Sender)
    → length payload ≤ len
    → length (frame s.ymodem.crc_mode payload pad len p blk) ≤ s.device.room
    → write_frame payload pad len p blk s
      ≡ (ok tt, wrote s (frame s.ymodem.crc_mode payload pad len p blk))
unfolding write_frame write_crc
write_frame-fits payload pad len p blk s short fits =
    bind-ok (write_all start) (λ _. fill payload pad len >>= λ x. write_all x >> write_crc x)
      (write_all-fits start s (omega arith))
    ∙ bind-ok (fill payload pad len) (λ x. write_all x >> write_crc x) filled
    ∙ bind-ok (write_all buf) (λ _. write_crc buf)
        (write_all-fits buf (wrote s start) (omega (arith, total)))
    ∙ trailer-fits s.ymodem.crc_mode buf (wrote (wrote s start) buf) (omega (arith, total))
    ∙ ap (λ x. (ok tt, x))
        (ap (λ x. wrote x (trailer s.ymodem.crc_mode buf)) (wrote-append s start buf)
          ∙ wrote-append s (start ++ buf) (trailer s.ymodem.crc_mode buf))
  where
    start : List ℕ
    start = p ∷ blk ∷ (255 - blk) ∷ []

    buf : List ℕ
    buf = padded payload pad len

    total :
        length (frame s.ymodem.crc_mode payload pad len p blk)
        ≡ 3 + length buf + length (trailer s.ymodem.crc_mode buf)
    total = omega (arith, length-append buf (trailer s.ymodem.crc_mode buf))

    filled : fill payload pad len (wrote s start) ≡ (ok buf, wrote s start)
    filled = unfold fill in ground arith

-- Some bytes that mean nothing to the sender, then the byte that does.
abbrev pub Noise : ℕ → List ℕ → Type 0
Noise nak = All λ b. (b ≢ ack) × (b ≢ nak)

pub ack_loop-ack :
    (nak : ℕ) (noise rest : List ℕ) (s : Sender)
    → Noise nak noise
    → ack_loop nak (noise ++ (ack ∷ rest)) s ≡ (ok tt, with_reads s rest)
unfolding ack_loop
ack_loop-ack nak [] rest s h = refl
ack_loop-ack nak (b ∷ bs) rest s h = ground (arith, ack_loop-ack nak bs rest s h.1)

pub ack_loop-nak :
    (nak : ℕ) (noise rest : List ℕ) (s : Sender)
    → nak ≢ ack
    → Noise nak noise
    → ack_loop nak (noise ++ (nak ∷ rest)) s ≡ (err nak_received, with_reads s rest)
unfolding ack_loop
ack_loop-nak nak [] rest s ne h = ground arith
ack_loop-nak nak (b ∷ bs) rest s ne h = ground (arith, ack_loop-nak nak bs rest s ne h.1)

pub nak-ne-ack : (y : Ymodem) → nak y ≢ ack
unfolding nak
nak-ne-ack y = ground arith

-- The same bytes again and again.
unfoldable pub times : ℕ → List ℕ → List ℕ
times zero w = []
times (suc n) w = w ++ times n w

pub length-times : (n : ℕ) (w : List ℕ) → length (times n w) ≡ n * length w
unfolding times
length-times zero w = omega arith
length-times (suc n) w = grind (arith, length-append w (times n w), length-times n w)

-- One round whose frame goes out and is answered.
retry_round :
    (payload : List ℕ) (pad len p blk retries : ℕ) (last : Option Error) (s s2 : Sender)
    → length payload ≤ len
    → length (frame s.ymodem.crc_mode payload pad len p blk) ≤ s.device.room
    → (answer : Result (Unit {0}))
    → wait_ack (wrote s (frame s.ymodem.crc_mode payload pad len p blk)) ≡ (answer, s2)
    → retry_loop payload pad len p blk (suc retries) last s
      ≡ on_answer (λ e. retry_loop payload pad len p blk retries (some e)) (answer, s2)
unfolding retry_loop
retry_round payload pad len p blk retries last s s2 short fits answer e =
    bind-ok (write_frame payload pad len p blk)
      (λ _ s1. on_answer (λ e. retry_loop payload pad len p blk retries (some e)) (wait_ack s1))
      (write_frame-fits payload pad len p blk s short fits)
    ∙ ap (on_answer (λ e. retry_loop payload pad len p blk retries (some e))) e

-- What the receiver sends: refusals, and then an acknowledgement.
abbrev pub refusals : ℕ → ℕ → List ℕ
refusals nak zero = []
refusals nak (suc k) = nak ∷ refusals nak k

-- The sender after it has sent the same block some times, with these bytes still to come.
abbrev pub sent : Sender → List ℕ → List ℕ → Sender
sent s w reads = with_reads (wrote s w) reads

-- The same rounds again, from the state that a refused round leaves.
sent-sent : (s : Sender) (v w r q : List ℕ) → sent (sent s v r) w q ≡ sent s (v ++ w) q
sent-sent s v w r q = ground (arith, append_assoc s.device.writes v w, length-append v w)

answer-ack :
    (s : Sender) (w rest : List ℕ)
    → s.device.reads ≡ ack ∷ rest
    → wait_ack (wrote s w) ≡ (ok tt, sent s w rest)
unfolding wait_ack
answer-ack s w rest e =
    ap (λ r. ack_loop (nak s.ymodem) r (wrote s w)) e
    ∙ ack_loop-ack (nak s.ymodem) [] rest (wrote s w) tt

answer-nak :
    (s : Sender) (w rest : List ℕ)
    → s.device.reads ≡ nak s.ymodem ∷ rest
    → wait_ack (wrote s w) ≡ (err nak_received, sent s w rest)
unfolding wait_ack
answer-nak s w rest e =
    ap (λ r. ack_loop (nak s.ymodem) r (wrote s w)) e
    ∙ ack_loop-nak (nak s.ymodem) [] rest (wrote s w) (nak-ne-ack s.ymodem) tt

length-times-suc : (k : ℕ) (w : List ℕ) → length (times (suc k) w) ≡ length w + length (times k w)
length-times-suc k w = unfold times in length-append w (times k w)

times-suc : (k : ℕ) (w : List ℕ) → w ++ times k w ≡ times (suc k) w
times-suc k w = unfold times in refl

times-one : (w : List ℕ) → w ≡ times 1 w
times-one w = unfold times in sym (append-nil w)

module _ (payload : List ℕ) (pad len p blk : ℕ) (short : length payload ≤ len) where
  abbrev block : Sender → List ℕ
  block s = frame s.ymodem.crc_mode payload pad len p blk

  -- As many refusals as there are tries left, less one at least, and then an acknowledgement: the
  -- block has gone out once more than it was refused.
  pub retry_loop-ack :
      (k retries : ℕ) (last : Option Error) (s : Sender) (rest : List ℕ)
      → s.device.reads ≡ refusals (nak s.ymodem) k ++ (ack ∷ rest)
      → k < retries
      → length (times (suc k) (block s)) ≤ s.device.room
      → retry_loop payload pad len p blk retries last s
        ≡ (ok tt, sent s (times (suc k) (block s)) rest)
  retry_loop-ack k zero last s rest e few fits = absurd (omega arith)
  retry_loop-ack zero (suc retries) last s rest e few fits =
      retry_round payload pad len p blk retries last s (sent s (block s) rest) short
        (omega (arith, length-times-suc 0 (block s))) (ok tt) (answer-ack s (block s) rest e)
      ∙ ap (λ w. (ok tt, sent s w rest)) (times-one (block s))
  retry_loop-ack (suc k) (suc retries) last s rest e few fits =
      let more = refusals (nak s.ymodem) k ++ (ack ∷ rest) in
      retry_round payload pad len p blk retries last s (sent s (block s) more) short
        (omega (arith, length-times-suc (suc k) (block s))) (err nak_received)
        (answer-nak s (block s) more e)
      ∙ retry_loop-ack k retries (some nak_received) (sent s (block s) more) rest refl (omega arith)
          (omega (arith, length-times-suc (suc k) (block s)))
      ∙ ap (λ x. (ok tt, x)) (sent-sent s (block s) (times (suc k) (block s)) more rest)
      ∙ ap (λ w. (ok tt, sent s w rest)) (times-suc (suc k) (block s))

  -- As many refusals as tries: the block has gone out once for each, and the loop gives up.
  pub retry_loop-nak :
      (k : ℕ) (last : Option Error) (s : Sender) (rest : List ℕ)
      → s.device.reads ≡ refusals (nak s.ymodem) (suc k) ++ rest
      → length (times (suc k) (block s)) ≤ s.device.room
      → retry_loop payload pad len p blk (suc k) last s
        ≡ (err nak_received, sent s (times (suc k) (block s)) rest)
  retry_loop-nak zero last s rest e fits =
      retry_round payload pad len p blk 0 last s (sent s (block s) rest) short
        (omega (arith, length-times-suc 0 (block s))) (err nak_received)
        (answer-nak s (block s) rest e)
      ∙ gave_up
      ∙ ap (λ w. (err nak_received, sent s w rest)) (times-one (block s))
    where
      gave_up :
          retry_loop payload pad len p blk 0 (some nak_received) (sent s (block s) rest)
          ≡ (err nak_received, sent s (block s) rest)
      gave_up = unfold retry_loop in refl
  retry_loop-nak (suc k) last s rest e fits =
      let more = refusals (nak s.ymodem) (suc k) ++ rest in
      retry_round payload pad len p blk (suc k) last s (sent s (block s) more) short
        (omega (arith, length-times-suc (suc k) (block s))) (err nak_received)
        (answer-nak s (block s) more e)
      ∙ retry_loop-nak k (some nak_received) (sent s (block s) more) rest refl
          (omega (arith, length-times-suc (suc k) (block s)))
      ∙ ap (λ x. (err nak_received, x)) (sent-sent s (block s) (times (suc k) (block s)) more rest)
      ∙ ap (λ w. (err nak_received, sent s w rest)) (times-suc (suc k) (block s))
