-- ===== src/Protocol/Laws.antt =====
-- A MAC address and its text.
use ostool.Prelude.{
  ℕ, zero, suc, ◌+◌, ◌*◌, ◌/◌, ◌%◌, ◌<◌, ◌≡◌, ◌≢◌, refl, sym, ap, ◌∙◌, inl, inr, false, Option,
  none, some, List, [], ◌∷◌, map, arith, ltb, ◌==◌, Bool-cases, Option-cases, length, All, IsByte,
  Text,
}
use mathlib.Core.Path.{subst}
use mathlib.Core.Option.{some-injective}
use ostool.Prelude.Split.{split, split-append, split_one, IsPiece}
use ostool.Server.Outcome.{Result, ok, err, Result-cases}
use ostool.Protocol.{
  colon, plus, MacAddress, hex_char, octet_text, mac_text, hex_digit, hex_value, from_str_radix,
  parse_octet, octet_or, parse_octets, all_read, from_str, with_digit, ParseMacAddressError,
}

-- Six bytes.
abbrev pub IsMac : MacAddress → Type 0
IsMac os = (length os ≡ 6) × All IsByte os

hex_digit-hex_char : (n : ℕ) → n < 16 → hex_digit (hex_char n) ≡ some n
unfolding hex_digit hex_char
hex_digit-hex_char n h = ground arith

hex_char-ne : (n : ℕ) → n < 16 → (hex_char n ≢ colon) × ((hex_char n == plus) ≡ false)
unfolding hex_char
hex_char-ne n h = (ground arith, ground arith)

-- A digit with room for it is taken.
hex_value-hex_char :
    (acc n : ℕ) (cs : Text)
    → n < 16
    → acc * 16 + n < 256
    → hex_value acc (hex_char n ∷ cs) ≡ hex_value (acc * 16 + n) cs
unfolding hex_value
hex_value-hex_char acc n cs h room =
    ap (with_digit (λ v. hex_value v cs) acc) (hex_digit-hex_char n h) ∙ rw fits refl
  where
    fits : ltb 255 (acc * 16 + n) ≡ false
    fits = ground arith

hex_value_done : (acc : ℕ) → hex_value acc [] ≡ some acc
unfolding hex_value
hex_value_done acc = refl

hex_value-octet :
    (o : ℕ) → o < 256 → hex_value 0 (hex_char (o / 16) ∷ hex_char (o % 16) ∷ []) ≡ some o
hex_value-octet o h =
    hex_value-hex_char 0 (o / 16) (hex_char (o % 16) ∷ []) (omega arith) (omega arith)
    ∙ hex_value-hex_char (0 * 16 + o / 16) (o % 16) [] (omega arith) (omega arith)
    ∙ hex_value_done ((0 * 16 + o / 16) * 16 + o % 16)
    ∙ ap (λ n. some n) (whole o)
  where
    whole : (o : ℕ) → (0 * 16 + o / 16) * 16 + o % 16 ≡ o
    whole o = omega arith

parse_octet-octet_text : (o : ℕ) → o < 256 → parse_octet (octet_text o) ≡ ok o
unfolding parse_octet octet_text from_str_radix
parse_octet-octet_text o h = rw ((hex_char-ne (o / 16) (omega arith)).1, hex_value-octet o h) refl

octet_text-IsPiece : (o : ℕ) → o < 256 → IsPiece colon (octet_text o)
unfolding octet_text
octet_text-IsPiece o h =
    ((hex_char-ne (o / 16) (omega arith)).0, ((hex_char-ne (o % 16) (omega arith)).0, tt))

split-mac_text :
    (o : ℕ) (os : List ℕ)
    → All IsByte (o ∷ os)
    → split colon (mac_text (o ∷ os)) ≡ map octet_text (o ∷ os)
unfolding mac_text
split-mac_text o [] h = split_one colon (octet_text o) (octet_text-IsPiece o h.0)
split-mac_text o (p ∷ os) h =
    split-append colon (octet_text o) (mac_text (p ∷ os)) (octet_text-IsPiece o h.0)
    ∙ ap (λ r. octet_text o ∷ r) (split-mac_text p os h.1)

parse_octets-map :
    (os : List ℕ) → All IsByte os → parse_octets (length os) (map octet_text os) ≡ ok (os, [])
unfolding parse_octets
parse_octets-map [] h = refl
parse_octets-map (o ∷ os) h = rw (parse_octet-octet_text o h.0, parse_octets-map os h.1) refl

-- The text of a MAC address of six bytes is read as the address.
from_str-mac_text : (mac : MacAddress) → IsMac mac → from_str (mac_text mac) ≡ ok mac
unfolding from_str
from_str-mac_text [] (six, bytes) = absurd (omega arith)
from_str-mac_text (o ∷ os) (six, bytes) =
    ap (λ p. all_read (parse_octets 6 p)) (split-mac_text o os bytes)
    ∙ ap (λ n. all_read (parse_octets n (map octet_text (o ∷ os)))) (sym six)
    ∙ ap all_read (parse_octets-map (o ∷ os) bytes)

hex_value-lt : (acc : ℕ) (cs : Text) (v : ℕ) → acc < 256 → hex_value acc cs ≡ some v → v < 256
unfolding hex_value
hex_value-lt acc [] v h e = subst (λ n. n < 256) (some-injective acc v e) h
hex_value-lt acc (c ∷ cs) v h e = elim (Option-cases (hex_digit c)) [
  | inl n ↦ absurd (cc (n, e))
  | inr (d, f) ↦ elim (Bool-cases (ltb 255 (acc * 16 + d))) [
    | inl big ↦ absurd (cc (rw (f, big) at e))
    | inr small ↦ hex_value-lt (acc * 16 + d) cs v (ground arith) (rw (f, small) at e)
  ]
]

from_str_radix-lt : (part : Text) (v : ℕ) → from_str_radix part ≡ some v → v < 256
unfolding from_str_radix
from_str_radix-lt [] v e = absurd (cc)
from_str_radix-lt (c ∷ []) v e = elim (Bool-cases (c == plus)) [
  | inl sign ↦ absurd (cc (sign, e))
  | inr digit ↦ hex_value-lt 0 (c ∷ []) v (omega arith) (rw digit at e)
]
from_str_radix-lt (c ∷ d ∷ ds) v e = elim (Bool-cases (c == plus)) [
  | inl sign ↦ hex_value-lt 0 (d ∷ ds) v (omega arith) (rw sign at e)
  | inr digit ↦ hex_value-lt 0 (c ∷ d ∷ ds) v (omega arith) (rw digit at e)
]

octet_of : Result ParseMacAddressError ℕ → ℕ
octet_of (ok o) = o
octet_of (err e) = 0

octet_or-lt :
    (r : Option ℕ) (o : ℕ) → ((v : ℕ) → r ≡ some v → v < 256) → octet_or r ≡ ok o → o < 256
unfolding octet_of
octet_or-lt none o h e = absurd (cc)
octet_or-lt (some v) o h e = subst (λ n. n < 256) (ap octet_of e) (h v refl)

parse_octet-lt : (part : Text) (o : ℕ) → parse_octet part ≡ ok o → o < 256
unfolding parse_octet
parse_octet-lt part o e = elim (Bool-cases (length part == 2)) [
  | inr other ↦ absurd (cc (other, e))
  | inl two ↦ octet_or-lt (from_str_radix part) o (λ v f. from_str_radix-lt part v f) (rw two at e)
]

octets_of : Result ParseMacAddressError (List ℕ × List Text) → List ℕ
octets_of (ok (os, parts)) = os
octets_of (err e) = []

abbrev IsRead : ℕ → List ℕ → Type 0
IsRead n os = (length os ≡ n) × All IsByte os

parse_octets-IsRead :
    (n : ℕ) (parts : List Text) (os : List ℕ) (rest : List Text)
    → parse_octets n parts ≡ ok (os, rest)
    → IsRead n os
unfolding parse_octets octets_of
parse_octets-IsRead zero parts os rest e = subst (IsRead 0) (ap octets_of e) (refl, tt)
parse_octets-IsRead (suc n) [] os rest e = absurd (cc)
parse_octets-IsRead (suc n) (part ∷ parts) os rest e = elim (Result-cases (parse_octet part)) [
  | inr (x, f) ↦ absurd (cc (rw f at e))
  | inl (o, f) ↦ elim (Result-cases (parse_octets n parts)) [
    | inr (x, g) ↦ absurd (cc (rw (f, g) at e))
    | inl ((more, left), g) ↦
        let (measured, small) = parse_octets-IsRead n parts more left g in
        subst (IsRead (suc n)) (ap octets_of (rw (f, g) at e))
          (ap (λ k. suc k) measured, (parse_octet-lt part o f, small))
  ]
]

mac_of : Result ParseMacAddressError MacAddress → MacAddress
mac_of (ok mac) = mac
mac_of (err e) = []

all_read-IsRead :
    (r : Result ParseMacAddressError (List ℕ × List Text)) (mac : MacAddress)
    → ((os : List ℕ) (rest : List Text) → r ≡ ok (os, rest) → IsRead 6 os)
    → all_read r ≡ ok mac
    → IsMac mac
unfolding mac_of
all_read-IsRead (err e) mac h f = absurd (cc)
all_read-IsRead (ok (os, [])) mac h f = subst IsMac (ap mac_of f) (h os [] refl)
all_read-IsRead (ok (os, part ∷ parts)) mac h f = absurd (cc)

-- Whatever text is accepted as a MAC address, the address is six bytes, and its own text is accepted
-- as the same address.
pub from_str-IsMac :
    (text : Text) (mac : MacAddress)
    → from_str text ≡ ok mac
    → IsMac mac × (from_str (mac_text mac) ≡ ok mac)
from_str-IsMac text mac e =
    let six =
      all_read-IsRead (parse_octets 6 (split colon text)) mac
        (λ os rest f. parse_octets-IsRead 6 (split colon text) os rest f) (unfold from_str in e) in
    (six, from_str-mac_text mac six)
