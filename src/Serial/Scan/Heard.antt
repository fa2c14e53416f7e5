-- ===== src/Serial/Scan/Heard.antt =====
-- The bytes that a scan hears: what its decoder and its history have after several reads.
use ostool.Prelude.{
  ℕ, zero, suc, ◌+◌, ◌-◌, ◌≤◌, ◌≡◌, refl, sym, ap, ◌∙◌, inl, inr, true, Option, none, some, List,
  [], ◌∷◌, ◌++◌, append_assoc, arith, ltb, lt→ltb, Bool-cases, length, drop, length-append,
  length-drop, drop-append_le, Text,
}
use ostool.Server.Outcome.{has}
use ostool.Protocol.Serial.{SerialFrameDecoder, push}
use ostool.Protocol.Serial.Decoder.{with_id, decode}
use ostool.Serial.Scan.{Act, configured, refused, heard, keep_last}

-- The decoder after these bytes.
unfoldable pub feed : List ℕ → SerialFrameDecoder → SerialFrameDecoder
feed [] d = d
feed (b ∷ bs) d = feed bs (push b d).1

pub feed-append :
    (xs ys : List ℕ) (d : SerialFrameDecoder) → feed (xs ++ ys) d ≡ feed ys (feed xs d)
unfolding feed
feed-append [] ys d = refl
feed-append (x ∷ xs) ys d = feed-append xs ys (push x d).1

with_id-append : (o : Option Text) (xs ys : List Text) → with_id o (xs ++ ys) ≡ with_id o xs ++ ys
with_id-append none xs ys = refl
with_id-append (some id) xs ys = refl

pub decode-append :
    (xs ys : List ℕ) (d : SerialFrameDecoder)
    → decode d (xs ++ ys) ≡ decode d xs ++ decode (feed xs d) ys
unfolding decode feed
decode-append [] ys d = refl
decode-append (x ∷ xs) ys d =
    rw (decode-append xs ys (push x d).1)
      (with_id-append (push x d).0 (decode (push x d).1 xs) (decode (feed xs (push x d).1) ys))

pub has-append_right : (x : Text) (xs ys : List Text) → has x ys ≡ true → has x (xs ++ ys) ≡ true
unfolding has
has-append_right x [] ys h = h
has-append_right x (z ∷ xs) ys h = ground (arith, has-append_right x xs ys h)

-- The bytes that have been read from the stream.
unfoldable pub heard_bytes : List Act → List ℕ
heard_bytes [] = []
heard_bytes (configured p ∷ acts) = heard_bytes acts
heard_bytes (refused p ∷ acts) = heard_bytes acts
heard_bytes (heard bytes ∷ acts) = bytes ++ heard_bytes acts

pub heard_bytes-append :
    (acts more : List Act) → heard_bytes (acts ++ more) ≡ heard_bytes acts ++ heard_bytes more
unfolding heard_bytes
heard_bytes-append [] more = refl
heard_bytes-append (configured p ∷ acts) more = heard_bytes-append acts more
heard_bytes-append (refused p ∷ acts) more = heard_bytes-append acts more
heard_bytes-append (heard bytes ∷ acts) more =
    rw (heard_bytes-append acts more)
      (sym (append_assoc bytes (heard_bytes acts) (heard_bytes more)))

drop_nil : (n : ℕ) → drop {A = ℕ} n [] ≡ []
drop_nil zero = refl
drop_nil (suc n) = refl

drop-drop : (a b : ℕ) (xs : List ℕ) → drop a (drop b xs) ≡ drop (b + a) xs
drop-drop a zero xs = ap (λ k. drop k xs) (omega arith)
drop-drop a (suc b) [] = rw (drop_nil a, drop_nil (suc b + a)) refl
drop-drop a (suc b) (x ∷ xs) =
    let one_more : suc (b + a) ≡ suc b + a = omega arith in
    drop-drop a b xs ∙ ap (λ k. drop k (x ∷ xs)) one_more

keep_last-drop : (n : ℕ) (xs : List ℕ) → keep_last n xs ≡ drop (length xs - n) xs
unfolding keep_last
keep_last-drop n xs = elim (Bool-cases (ltb n (length xs))) [
  | inl longer ↦ rw longer refl
  | inr fits ↦ rw (fits, nothing (ground (arith, lt→ltb n (length xs)))) refl
]
  where
    nothing : length xs ≤ n → length xs - n ≡ 0
    nothing h = omega arith

-- What is kept of what is kept and more is what is kept of everything.
pub keep_last-append :
    (n : ℕ) (xs ys : List ℕ) → keep_last n (keep_last n xs ++ ys) ≡ keep_last n (xs ++ ys)
keep_last-append n xs ys =
    rw
      (
        keep_last-drop n xs,
        keep_last-drop n (drop (length xs - n) xs ++ ys),
        keep_last-drop n (xs ++ ys),
        sym (drop-append_le (length xs - n) xs ys (omega arith)),
        drop-drop (length (drop (length xs - n) (xs ++ ys)) - n) (length xs - n) (xs ++ ys),
        length-drop (length xs - n) (xs ++ ys),
        length-append xs ys,
      )
      (ap (λ k. drop k (xs ++ ys)) (omega arith))
