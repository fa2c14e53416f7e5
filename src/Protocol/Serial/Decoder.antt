-- ===== src/Protocol/Serial/Decoder.antt =====
-- The decoder against a look at the whole stream.
use ostool.Prelude.{
  ℕ, zero, suc, ◌≤◌, ◌<◌, ◌≡◌, ◌≢◌, refl, sym, ap, ◌∙◌, inl, inr, false, Option, none, some, List,
  [], ◌∷◌, ◌++◌, append-nil, append_assoc, arith, ltb, ◌==◌, if◌then◌else◌, ltb→lt, lt→ltb, ==_iff,
  ==_refl, Bool-cases, length, take, length-append, Text,
}
use ostool.Prelude.Split.{split, with_first}
use ostool.Protocol.Serial.{SerialFrameDecoder, new_decoder, newline, line_bytes, beacon_id, push}

abbrev pub with_id : Option Text → List Text → List Text
with_id none ids = ids
with_id (some id) ids = id ∷ ids

-- The identifiers that the calls of `push` return, one call for each byte.
unfoldable pub decode : SerialFrameDecoder → List ℕ → List Text
decode d [] = []
decode d (b ∷ bs) = with_id (push b d).0 (decode (push b d).1 bs)

-- All lines but the last, which no newline ends.
unfoldable pub complete : List (List ℕ) → List (List ℕ)
complete [] = []
complete (l ∷ []) = []
complete (l ∷ m ∷ ls) = l ∷ complete (m ∷ ls)

-- What a whole line says: nothing if it is too long.
abbrev pub line_id : List ℕ → Option Text
line_id line = if ltb line_bytes (length line) then none else beacon_id line

unfoldable pub ids_of : List (List ℕ) → List Text
ids_of [] = []
ids_of (l ∷ ls) = with_id (line_id l) (ids_of ls)

-- The decoder within a line, of which these bytes have come.
abbrev after : List ℕ → SerialFrameDecoder
after front = record { line = take line_bytes front; overflow = ltb line_bytes (length front) }

take_all : (n : ℕ) (xs : List ℕ) → length xs ≤ n → take n xs ≡ xs
take_all zero [] h = refl
take_all (suc n) [] h = refl
take_all zero (x ∷ xs) h = absurd (omega arith)
take_all (suc n) (x ∷ xs) h = ap (λ r. x ∷ r) (take_all n xs (omega arith))

take-append_full : (n : ℕ) (xs ys : List ℕ) → n ≤ length xs → take n (xs ++ ys) ≡ take n xs
take-append_full zero xs ys h = refl
take-append_full (suc n) [] ys h = absurd (omega arith)
take-append_full (suc n) (x ∷ xs) ys h = ap (λ r. x ∷ r) (take-append_full n xs ys (omega arith))

length-take : (n : ℕ) (xs : List ℕ) → n ≤ length xs → length (take n xs) ≡ n
length-take zero xs h = refl
length-take (suc n) [] h = absurd (omega arith)
length-take (suc n) (x ∷ xs) h = ap (λ k. suc k) (length-take n xs (omega arith))

not_full : (n : ℕ) → n < line_bytes → (n == line_bytes) ≡ false
not_full n h = ground arith

not_over : (n : ℕ) → n ≤ line_bytes → ltb line_bytes n ≡ false
not_over n h = ground (arith, ltb→lt line_bytes n)

not_below : (n : ℕ) → ltb n line_bytes ≡ false → line_bytes ≤ n
not_below n h = ground (arith, lt→ltb n line_bytes)

-- One more byte of the line.
push-after :
    (b : ℕ) (front : List ℕ)
    → (b == newline) ≡ false
    → push b (after front) ≡ (none, after (front ++ (b ∷ [])))
unfolding push
push-after b front h = elim (Bool-cases (ltb (length front) line_bytes)) [
  | inl room ↦
      let below : length front < line_bytes = ltb→lt (length front) line_bytes room in
      rw
        (
          h,
          take_all line_bytes front (omega arith),
          take_all line_bytes (front ++ (b ∷ [])) (fits below),
          not_full (length front) below,
          not_over (length front) (omega arith),
          not_over (length (front ++ (b ∷ []))) (fits below),
        )
        refl
  | inr full ↦
      let enough : line_bytes ≤ length front = not_below (length front) full in
      rw
        (
          h,
          take-append_full line_bytes front (b ∷ []) enough,
          length-take line_bytes front enough,
          ==_refl line_bytes,
          lt→ltb line_bytes (length (front ++ (b ∷ []))) (exceeds enough),
        )
        refl
]
  where
    fits : length front < line_bytes → length (front ++ (b ∷ [])) ≤ line_bytes
    fits below = omega (arith, length-append front (b ∷ []))

    exceeds : line_bytes ≤ length front → line_bytes < length (front ++ (b ∷ []))
    exceeds enough = omega (arith, length-append front (b ∷ []))

-- The end of the line.
push-newline : (front : List ℕ) → push newline (after front) ≡ (line_id front, new_decoder)
unfolding push
push-newline front = elim (Bool-cases (ltb line_bytes (length front))) [
  | inl long ↦ rw long refl
  | inr short ↦
      let whole : take line_bytes front ≡ front = take_all line_bytes front (ground arith) in
      rw (short, whole) refl
]

-- The lines of a stream, of whose first line some bytes have come before.
unfoldable lines_from : List ℕ → List ℕ → List (List ℕ)
lines_from front [] = front ∷ []
lines_from front (b ∷ bs) =
    let rest = lines_from [] bs in
    let more = lines_from (front ++ (b ∷ [])) bs in if b == newline then front ∷ rest else more

-- These bytes stand before the first line.
abbrev with_front : List ℕ → List (List ℕ) → List (List ℕ)
with_front front [] = []
with_front front (l ∷ ls) = (front ++ l) ∷ ls

with_front_nil : (ls : List (List ℕ)) → with_front [] ls ≡ ls
with_front_nil [] = refl
with_front_nil (l ∷ ls) = refl

with_front_first :
    (b : ℕ) (front : List ℕ) (ls : List (List ℕ))
    → ls ≢ []
    → with_front (front ++ (b ∷ [])) ls ≡ with_front front (with_first b ls)
with_front_first b front [] some_line = absurd (some_line refl)
with_front_first b front (l ∷ ls) some_line =
    ap (λ first. first ∷ ls) (append_assoc front (b ∷ []) l)

with_first_some : (b : ℕ) (ls : List (List ℕ)) → with_first b ls ≢ []
with_first_some b [] = ground arith
with_first_some b (l ∷ ls) = ground arith

split_some : (bytes : List ℕ) → split newline bytes ≢ []
unfolding split
split_some [] = ground arith
split_some (b ∷ bs) = elim (Bool-cases (b == newline)) [
  | inl ends ↦ rw ends ground arith
  | inr other ↦ rw other (with_first_some b (split newline bs))
]

lines_from-split :
    (front bytes : List ℕ) → lines_from front bytes ≡ with_front front (split newline bytes)
unfolding lines_from split
lines_from-split front [] = ap (λ l. l ∷ []) (sym (append-nil front))
lines_from-split front (b ∷ bs) = elim (Bool-cases (b == newline)) [
  | inl ends ↦
      rw (ends, append-nil front)
        (ap (λ ls. front ∷ ls) (lines_from-split [] bs ∙ with_front_nil (split newline bs)))
  | inr other ↦ rw other (
      lines_from-split (front ++ (b ∷ [])) bs
      ∙ with_front_first b front (split newline bs) (split_some bs))
]

with_front_some : (front : List ℕ) (ls : List (List ℕ)) → ls ≢ [] → with_front front ls ≢ []
with_front_some front [] h = h
with_front_some front (l ∷ ls) h = ground arith

complete-cons : (l : List ℕ) (ls : List (List ℕ)) → ls ≢ [] → complete (l ∷ ls) ≡ l ∷ complete ls
unfolding complete
complete-cons l [] h = absurd (h refl)
complete-cons l (m ∷ ls) h = refl

lines_from_some : (bytes : List ℕ) → lines_from [] bytes ≢ []
lines_from_some bytes =
    rw (lines_from-split [] bytes) (with_front_some [] (split newline bytes) (split_some bytes))

decode-after :
    (front bytes : List ℕ) → decode (after front) bytes ≡ ids_of (complete (lines_from front bytes))
unfolding decode lines_from complete ids_of
decode-after front [] = refl
decode-after front (b ∷ bs) = elim (Bool-cases (b == newline)) [
  | inl ends ↦
      rw
        (
          (==_iff b newline).0 ends,
          push-newline front,
          decode-after [] bs,
          complete-cons front (lines_from [] bs) (lines_from_some bs),
        )
        refl
  | inr other ↦ rw (other, push-after b front other) (decode-after (front ++ (b ∷ [])) bs)
]

-- One call of `push` for each byte of a stream returns the identifiers of the stream's whole lines, in
-- their order: of each line that a newline ends, that has at most 64 bytes and is a beacon, with or
-- without a carriage return at its end. Lines that are longer or no beacons do not disturb the next.
pub decode_lem :
    (bytes : List ℕ) → decode new_decoder bytes ≡ ids_of (complete (split newline bytes))
decode_lem bytes =
    rw (sym (with_front_nil (split newline bytes)), sym (lines_from-split [] bytes))
      (decode-after [] bytes)
