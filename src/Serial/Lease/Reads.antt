-- ===== src/Serial/Lease/Reads.antt =====
-- The calls of the holder of a lease, and what each does to the prefix and to the decoder.
use ostool.Prelude.{Bool, false, not, ◌&&◌, ◌||◌}
use ostool.Prelude.{
  ℕ, zero, suc, ◌≡◌, refl, sym, ap, ◌∙◌, true, Option, none, some, List, [], ◌∷◌, ◌++◌, append-nil,
  append_assoc, arith, if◌then◌else◌, Text, text_eq_refl,
}
use ostool.Server.Outcome.{Result, ok, err, has, is_empty}
use ostool.Protocol.Serial.{SerialFrameDecoder, new_decoder, push}
use ostool.Protocol.Serial.Decoder.{with_id, decode}
use ostool.Serial.Ports.{SerialLease}
use ostool.Serial.Scan.{IoError}
use ostool.Serial.Scan.Heard.{feed, feed-append, decode-append, has-append_right}
use ostool.Serial.Lease.{
  Poll, pending, ready, Reader, ReadPoll, new_reader, pop_prefix, latest, observe, poll_read,
  configure, take_observed_id,
}

pub data Call : Type 0 where
  read : ℕ → Poll (Result IoError (List ℕ)) → Call
  reconfigure take_id : Call

-- What the holder has read, what the stream has given to the lease, what of it since the last
-- configuration, and whether a read was not served by the prefix alone while bytes of it were left.
pub record Use : Type 0 where
  pub reader : Reader
  pub delivered : List ℕ
  pub fresh : List ℕ
  pub fresh_since : List ℕ
  pub disturbed : Bool

abbrev pub given : Poll (Result IoError (List ℕ)) → List ℕ
given pending = []
given (ready (err e)) = []
given (ready (ok bytes)) = bytes

-- What the stream has given in a call of `poll_read`, if it has been called.
abbrev pub fresh_of : Poll (Result IoError (List ℕ)) → ReadPoll → List ℕ
fresh_of answer p = if p.asked then given answer else []

abbrev pub is_done : Poll (Result IoError (Unit {0})) → Bool
is_done pending = false
is_done (ready (ok done)) = true
is_done (ready (err e)) = false

-- The read has succeeded, without the stream and without a command.
abbrev pub is_quiet : ReadPoll → Bool
is_quiet p = is_done p.outcome && (not p.asked && is_empty p.commands)

abbrev pub add_read : Poll (Result IoError (List ℕ)) → ReadPoll → Use → Use
add_read answer p u = record {
  reader = p.reader;
  delivered = u.delivered ++ p.bytes;
  fresh = u.fresh ++ fresh_of answer p;
  fresh_since = u.fresh_since ++ fresh_of answer p;
  disturbed = u.disturbed || (not (is_quiet p) && not (is_empty u.reader.prefix));
}

abbrev pub new_use : List ℕ → Use
new_use prefix = record {
  reader = new_reader prefix;
  delivered = [];
  fresh = [];
  fresh_since = [];
  disturbed = false;
}

module _ (lease : SerialLease) where
  unfoldable pub call : Call → Use → Use
  call (read room answer) u = add_read answer (poll_read lease room answer u.reader) u
  call reconfigure u = record u { reader = configure u.reader; fresh_since = [] }
  call take_id u = record u { reader = (take_observed_id u.reader).1 }

  unfoldable pub call_all : List Call → Use → Use
  call_all [] u = u
  call_all (c ∷ cs) u = call_all cs (call c u)

pub pop_prefix-append :
    (room : ℕ) (prefix : List ℕ) → (pop_prefix room prefix).0 ++ (pop_prefix room prefix).1 ≡ prefix
unfolding pop_prefix
pop_prefix-append zero prefix = refl
pop_prefix-append (suc room) [] = refl
pop_prefix-append (suc room) (b ∷ bs) = ap (λ r. b ∷ r) (pop_prefix-append room bs)

pub prefix-observe : (bytes : List ℕ) (r : Reader) → (observe bytes r).prefix ≡ r.prefix
unfolding observe
prefix-observe [] r = refl
prefix-observe (b ∷ bs) r =
    prefix-observe bs (record r {
      decoder = (push b r.decoder).1;
      observed = latest (push b r.decoder).0 r.observed;
    })

pub decoder-observe :
    (bytes : List ℕ) (r : Reader) → (observe bytes r).decoder ≡ feed bytes r.decoder
unfolding observe feed
decoder-observe [] r = refl
decoder-observe (b ∷ bs) r =
    decoder-observe bs (record r {
      decoder = (push b r.decoder).1;
      observed = latest (push b r.decoder).0 r.observed;
    })

has-append_left : (x : Text) (xs ys : List Text) → has x xs ≡ true → has x (xs ++ ys) ≡ true
unfolding has
has-append_left x [] ys h = absurd (cc)
has-append_left x (z ∷ xs) ys h = ground (arith, has-append_left x xs ys)

-- The identifier is one that the decoder gives on these bytes.
abbrev pub IsGiven : List ℕ → Option Text → Type 0
IsGiven bytes observed = (id : Text) → observed ≡ some id → has id (decode new_decoder bytes) ≡ true

decode_one : (b : ℕ) (d : SerialFrameDecoder) → decode d (b ∷ []) ≡ with_id (push b d).0 []
unfolding decode
decode_one b d = refl

feed_one : (b : ℕ) (d : SerialFrameDecoder) → feed (b ∷ []) d ≡ (push b d).1
unfolding feed
feed_one b d = refl

-- One more byte, with the identifier that it gives, if it gives one.
latest-IsGiven :
    (before : List ℕ) (b : ℕ) (observed o : Option Text)
    → decode new_decoder (before ++ (b ∷ [])) ≡ decode new_decoder before ++ with_id o []
    → IsGiven before observed
    → IsGiven (before ++ (b ∷ [])) (latest o observed)
unfolding has
latest-IsGiven before b observed none e h id same =
    rw (e, append-nil (decode new_decoder before)) (h id same)
latest-IsGiven before b observed (some i) e h id same =
    rw e
      (has-append_right id (decode new_decoder before) (i ∷ []) (ground (arith, text_eq_refl id)))

pub observe-IsGiven :
    (bytes before : List ℕ) (r : Reader)
    → r.decoder ≡ feed before new_decoder
    → IsGiven before r.observed
    → IsGiven (before ++ bytes) (observe bytes r).observed
unfolding observe
observe-IsGiven [] before r e h = rw (append-nil before) h
observe-IsGiven (b ∷ bs) before r e h = rw (sym (append_assoc before (b ∷ []) bs)) (
    observe-IsGiven bs (before ++ (b ∷ []))
      (record r {
        decoder = (push b r.decoder).1;
        observed = latest (push b r.decoder).0 r.observed;
      })
      (sym (
        feed-append before (b ∷ []) new_decoder
        ∙ ap (feed (b ∷ [])) (sym e)
        ∙ feed_one b r.decoder))
      (latest-IsGiven before b r.observed (push b r.decoder).0
        (decode-append before (b ∷ []) new_decoder
          ∙ ap (λ d. decode new_decoder before ++ decode d (b ∷ [])) (sym e)
          ∙ ap (λ ids. decode new_decoder before ++ ids) (decode_one b r.decoder))
        h))
