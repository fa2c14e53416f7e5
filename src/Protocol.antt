-- ===== src/Protocol.antt =====
-- httpboot-protocol/src/lib.rs: the MAC address and its text. The six octets are a list of bytes, and
-- a text is its code points: a piece that is not ASCII is refused with the same error, whether its
-- length in bytes is two or not.
pub mod Laws
pub mod Serial
use ostool.Prelude.{
  ℕ, zero, suc, ◌+◌, ◌-◌, ◌*◌, ◌/◌, ◌%◌, ◌^◌, ◌≤◌, ◌<◌, min, ◌≡◌, ◌≢◌, ◌↔◌, ◌⊎◌, refl, sym, ap, ◌∙◌,
  inl, inr, Bool, true, false, not, ◌&&◌, ◌||◌, Option, none, some, List, [], ◌∷◌, ◌++◌, map,
  append-nil, append_assoc, arith, ltb, leb, ◌==◌, if◌then◌else◌, ltb→lt, lt→ltb, ==_iff, ==_refl,
  Bool-cases, Option-cases, and_true, length, get_elem?, get_or, take, drop, replicate, All,
  length-append, All-append, IsByte, Text, codes, text_eq, text_eq_iff, text_eq_refl, text_lt,
}
use ostool.Prelude.Split.{split}
use ostool.Server.Outcome.{Result, ok, err}

abbrev pub colon : ℕ
colon = 58

abbrev pub plus : ℕ
plus = 43

abbrev pub MacAddress : Type 0
MacAddress = List ℕ

abbrev pub zero_mac : MacAddress
zero_mac = replicate 6 0

unfoldable pub hex_char : ℕ → ℕ
hex_char n = if ltb n 10 then 48 + n else 87 + n

-- `{:02x}`
unfoldable pub octet_text : ℕ → Text
octet_text octet = hex_char (octet / 16) ∷ hex_char (octet % 16) ∷ []

-- `fmt`
unfoldable pub mac_text : MacAddress → Text
mac_text [] = []
mac_text (o ∷ []) = octet_text o
mac_text (o ∷ p ∷ os) = octet_text o ++ (colon ∷ mac_text (p ∷ os))

pub data ParseMacAddressError : Type 0 where
  invalid_length invalid_octet : ParseMacAddressError

-- `char::to_digit(16)`
unfoldable pub hex_digit : ℕ → Option ℕ
hex_digit c =
    if leb 48 c && leb c 57
    then some (c - 48)
    else if leb 97 c && leb c 102
    then some (c - 87)
    else if leb 65 c && leb c 70
    then some (c - 55)
    else none

abbrev pub with_digit : (ℕ → Option ℕ) → ℕ → Option ℕ → Option ℕ
with_digit next acc none = none
with_digit next acc (some d) = if ltb 255 (acc * 16 + d) then none else next (acc * 16 + d)

unfoldable pub hex_value : ℕ → Text → Option ℕ
hex_value acc [] = some acc
hex_value acc (c ∷ cs) = with_digit (λ n. hex_value n cs) acc (hex_digit c)

-- `u8::from_str_radix(part, 16)`, which takes a plus sign before the digits.
unfoldable pub from_str_radix : Text → Option ℕ
from_str_radix [] = none
from_str_radix (c ∷ []) = if c == plus then none else hex_value 0 (c ∷ [])
from_str_radix (c ∷ d ∷ ds) = if c == plus then hex_value 0 (d ∷ ds) else hex_value 0 (c ∷ d ∷ ds)

abbrev pub octet_or : Option ℕ → Result ParseMacAddressError ℕ
octet_or none = err invalid_octet
octet_or (some o) = ok o

unfoldable pub parse_octet : Text → Result ParseMacAddressError ℕ
parse_octet part =
    if not (length part == 2) then err invalid_octet else octet_or (from_str_radix part)

abbrev pub and_octets :
    (Unit {0} → Result ParseMacAddressError (List ℕ × List Text))
    → Result ParseMacAddressError ℕ
    → Result ParseMacAddressError (List ℕ × List Text)
and_octets next (err e) = err e
and_octets next (ok o) = elim (next tt) [ err e ↦ err e | ok (os, parts) ↦ ok (o ∷ os, parts) ]

-- The loop over the octets: those that are read, and the pieces that are left.
unfoldable pub parse_octets : ℕ → List Text → Result ParseMacAddressError (List ℕ × List Text)
parse_octets zero parts = ok ([], parts)
parse_octets (suc n) [] = err invalid_length
parse_octets (suc n) (part ∷ parts) = and_octets (λ _. parse_octets n parts) (parse_octet part)

abbrev pub all_read :
    Result ParseMacAddressError (List ℕ × List Text) → Result ParseMacAddressError MacAddress
all_read (err e) = err e
all_read (ok (os, [])) = ok os
all_read (ok (os, part ∷ parts)) = err invalid_length

unfoldable pub from_str : Text → Result ParseMacAddressError MacAddress
from_str text = all_read (parse_octets 6 (split colon text))
