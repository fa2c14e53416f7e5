-- ===== src/Serial/Scan/Tuned.antt =====
-- What a scan has read since it last set its stream to other parameters, and what the search for a
-- wanted identifier finds in it.
use ostool.Prelude.{
  ℕ, ◌≡◌, ◌≢◌, refl, sym, ap, ◌∙◌, inl, inr, Bool, true, false, Option, none, some, List, [], ◌∷◌,
  ◌++◌, append-nil, append_assoc, arith, if◌then◌else◌, Bool-cases, Text, text_eq_refl,
}
use mathlib.Core.Path.{subst}
use ostool.Prelude.Split.{split}
use ostool.Server.Outcome.{any, has, every}
use ostool.Protocol.Serial.{SerialParameters, SerialFrameDecoder, new_decoder, push, newline}
use ostool.Protocol.Serial.Decoder.{with_id, decode, ids_of, complete, decode_lem}
use ostool.Serial.Scan.{
  Act, configured, refused, heard, Scan, history_bytes, keep_last, is_wanted, wants, seek,
}
use ostool.Serial.Scan.Heard.{
  feed, feed-append, decode-append, has-append_right, heard_bytes, heard_bytes-append,
  keep_last-append,
}

some_eq : {s t : Text} → some s ≡ some t → s ≡ t
some_eq e = cc

abbrev pub Asked : Type 0
Asked = List (Text × SerialParameters)

-- A step of the search: the identifier of the byte, if it is wanted, or that of the rest.
choose-some :
    (expected : Asked) (active : Option SerialParameters) (r : Option Text × SerialFrameDecoder)
    (rest : Option Text × SerialFrameDecoder) (ids : List Text) {id : Text}
    → (rest.0 ≡ some id → (has id ids ≡ true) × (is_wanted expected active id ≡ true))
    → (if wants expected active r.0 then r else rest).0 ≡ some id
    → (has id (with_id r.0 ids) ≡ true) × (is_wanted expected active id ≡ true)
unfolding has
choose-some expected active (none, d) rest ids later e = later e
choose-some expected active (some i, d) rest ids {id} later e =
    elim (Bool-cases (is_wanted expected active i)) [
      | inl wanted ↦
          let same : i ≡ id =
            some_eq (subst (λ b. (if b then (some i, d) else rest).0 ≡ some id) wanted e) in
          (
            (rw (same, text_eq_refl id) refl),
            (subst (λ t. is_wanted expected active t ≡ true) same wanted),
          )
      | inr other ↦
          let behind = later (subst (λ b. (if b then (some i, d) else rest).0 ≡ some id) other e) in
          (ground (arith, behind.0), behind.1)
    ]

-- The identifier that is sought is one of those that the decoder gives, and it is wanted.
pub seek-some :
    (expected : Asked) (active : Option SerialParameters) (bytes : List ℕ) (d : SerialFrameDecoder)
    {id : Text}
    → (seek expected active bytes d).0 ≡ some id
    → (has id (decode d bytes) ≡ true) × (is_wanted expected active id ≡ true)
unfolding seek decode
seek-some expected active [] d e = absurd (cc)
seek-some expected active (b ∷ bs) d {id} e =
    choose-some expected active (push b d) (seek expected active bs (push b d).1)
      (decode (push b d).1 bs) (seek-some expected active bs (push b d).1) e

none_wanted :
    (expected : Asked) (active : Option SerialParameters) (o : Option Text)
    → wants expected active o ≡ true
    → o ≢ none
none_wanted expected active none w e = absurd (cc)
none_wanted expected active (some id) w e = absurd (cc)

-- Without one, all bytes have gone through the decoder.
pub seek-none :
    (expected : Asked) (active : Option SerialParameters) (bytes : List ℕ) (d : SerialFrameDecoder)
    → (seek expected active bytes d).0 ≡ none
    → (seek expected active bytes d).1 ≡ feed bytes d
unfolding seek feed
seek-none expected active [] d e = refl
seek-none expected active (b ∷ bs) d e = elim (Bool-cases (wants expected active (push b d).0)) [
  | inl wanted ↦ absurd (
      none_wanted expected active (push b d).0 wanted (
        subst (λ c. (if c then push b d else seek expected active bs (push b d).1).0 ≡ none) wanted
          e))
  | inr other ↦ rw other (
      seek-none expected active bs (push b d).1 (
        subst (λ c. (if c then push b d else seek expected active bs (push b d).1).0 ≡ none) other
          e))
]

abbrev pub is_hearing : Act → Bool
is_hearing (heard bytes) = true
is_hearing (configured p) = false
is_hearing (refused p) = false

-- The stream has been set to these parameters, and since then only read: these are the bytes.
pub record IsTuned (p : SerialParameters) (bytes : List ℕ) (stream : List Act) : Type 0 where
  pub front : List Act
  pub back : List Act
  pub set_last : stream ≡ front ++ (configured p ∷ back)
  pub unchanged : every is_hearing back ≡ true
  pub heard_since : bytes ≡ heard_bytes back

abbrev pub IsFollowed : SerialFrameDecoder → List Act → Option SerialParameters → Type 0
IsFollowed d stream none = Unit
IsFollowed d stream (some p) =
    (bytes : List ℕ) × IsTuned p bytes stream × (d ≡ feed bytes new_decoder)

-- What holds of a scan between two turns.
pub record IsKept (s : Scan) : Type 0 where
  pub history : s.history ≡ keep_last history_bytes (heard_bytes s.stream)
  pub followed : IsFollowed s.decoder s.stream s.active_parameters

-- A board has been found: the beacon is a whole line of what has been read since the stream was set to
-- the parameters that somebody expected the board with, and the prefix is the end of everything read.
pub record IsHeard (expected : Asked) (s : Scan) (id : Text) (prefix : List ℕ) : Type 0 where
  pub parameters : SerialParameters
  pub bytes : List ℕ
  pub tuned : IsTuned parameters bytes s.stream
  pub announced : has id (ids_of (complete (split newline bytes))) ≡ true
  pub wanted : is_wanted expected (some parameters) id ≡ true
  pub kept : prefix ≡ keep_last history_bytes (heard_bytes s.stream)

every-append_one :
    (acts : List Act) (a : Act)
    → every is_hearing acts ≡ true
    → is_hearing a ≡ true
    → every is_hearing (acts ++ (a ∷ [])) ≡ true
unfolding every
every-append_one [] a h k = ground arith
every-append_one (b ∷ acts) a h k = ground (arith, every-append_one acts a)

heard_bytes_one : (bytes : List ℕ) → heard_bytes (heard bytes ∷ []) ≡ bytes
unfolding heard_bytes
heard_bytes_one bytes = append-nil bytes

heard_bytes_more :
    (acts : List Act) (bytes : List ℕ)
    → heard_bytes (acts ++ (heard bytes ∷ [])) ≡ heard_bytes acts ++ bytes
heard_bytes_more acts bytes =
    rw (heard_bytes-append acts (heard bytes ∷ []), heard_bytes_one bytes) refl

IsTuned-hear :
    (p : SerialParameters) (before bytes : List ℕ) (stream : List Act)
    → IsTuned p before stream
    → IsTuned p (before ++ bytes) (stream ++ (heard bytes ∷ []))
IsTuned-hear p before bytes stream h = record {
  front = h.front;
  back = h.back ++ (heard bytes ∷ []);
  set_last =
      ap (λ acts. acts ++ (heard bytes ∷ [])) h.set_last
      ∙ append_assoc h.front (configured p ∷ h.back) (heard bytes ∷ []);
  unchanged = every-append_one h.back (heard bytes) h.unchanged refl;
  heard_since = ap (λ b. b ++ bytes) h.heard_since ∙ sym (heard_bytes_more h.back bytes);
}

pub history_more :
    (history bytes : List ℕ) (stream : List Act)
    → history ≡ keep_last history_bytes (heard_bytes stream)
    → keep_last history_bytes (history ++ bytes)
      ≡ keep_last history_bytes (heard_bytes (stream ++ (heard bytes ∷ [])))
history_more history bytes stream e =
    rw (e, heard_bytes_more stream bytes)
      (keep_last-append history_bytes (heard_bytes stream) bytes)

pub history_same :
    (stream : List Act) (a : Act)
    → heard_bytes (a ∷ []) ≡ []
    → keep_last history_bytes (heard_bytes stream)
      ≡ keep_last history_bytes (heard_bytes (stream ++ (a ∷ [])))
history_same stream a e =
    rw (heard_bytes-append stream (a ∷ []), e, append-nil (heard_bytes stream)) refl

pub tuned_first :
    (p : SerialParameters) (stream : List Act)
    → IsFollowed new_decoder (stream ++ (configured p ∷ [])) (some p)
unfolding heard_bytes every feed
tuned_first p stream = (
  [],
  record { front = stream; back = []; set_last = refl; unchanged = refl; heard_since = refl },
  refl,
)

pub IsFollowed-hear :
    (active : Option SerialParameters) (d : SerialFrameDecoder) (stream : List Act) (bytes : List ℕ)
    → IsFollowed d stream active
    → IsFollowed (feed bytes d) (stream ++ (heard bytes ∷ [])) active
IsFollowed-hear none d stream bytes h = tt
IsFollowed-hear (some p) d stream bytes (before, tuned, e) = (
  before ++ bytes,
  IsTuned-hear p before bytes stream tuned,
  ap (feed bytes) e ∙ sym (feed-append before bytes new_decoder),
)

-- Without parameters in force nobody is wanted.
unwanted : (expected : Asked) (id : Text) → is_wanted expected none id ≡ false
unfolding any
unwanted [] id = refl
unwanted (e ∷ es) id = ground (arith, unwanted es id)

pub heard_now :
    (expected : Asked) (active : Option SerialParameters) (s : Scan) (bytes : List ℕ) (t : Scan)
    (id : Text)
    → IsFollowed s.decoder s.stream active
    → has id (decode s.decoder bytes) ≡ true
    → is_wanted expected active id ≡ true
    → t.stream ≡ s.stream ++ (heard bytes ∷ [])
    → t.history ≡ keep_last history_bytes (heard_bytes t.stream)
    → IsHeard expected t id t.history
heard_now expected none s bytes t id followed announced wanted e history =
    absurd (ground (arith, unwanted expected id))
heard_now expected (some p) s bytes t id (before, tuned, same) announced wanted e history = record {
  parameters = p;
  bytes = before ++ bytes;
  tuned = subst (IsTuned p (before ++ bytes)) (sym e) (IsTuned-hear p before bytes s.stream tuned);
  announced =
      rw (sym (decode_lem (before ++ bytes)), decode-append before bytes new_decoder, sym same)
        (has-append_right id (decode new_decoder before) (decode s.decoder bytes) announced);
  wanted = wanted;
  kept = history;
}
