-- ===== src/Tests/Protocol.antt =====
-- httpboot-protocol: MAC addresses.
use ostool.Prelude.{◌≡◌, refl, [], ◌∷◌, codes}
use ostool.Prelude.Split.{split}
use ostool.Server.Outcome.{ok, err}
use ostool.Protocol.{
  MacAddress, from_str, mac_text, parse_octets, parse_octet, from_str_radix, hex_value, hex_digit,
  octet_text, hex_char, invalid_length,
}
use ostool.Protocol.Laws.{IsMac, from_str-IsMac}

abbrev mac : MacAddress
mac = 0x52 ∷ 0x54 ∷ 0 ∷ 0x12 ∷ 0xab ∷ 255 ∷ []

-- Capitals are taken, small letters are written.
reads_capitals : from_str (codes "52:54:00:12:AB:FF") ≡ ok mac
unfolding from_str split parse_octets parse_octet from_str_radix hex_value hex_digit
reads_capitals = refl

too_short : from_str (codes "52:54:00:12:ab") ≡ err invalid_length
unfolding from_str split parse_octets parse_octet from_str_radix hex_value hex_digit
too_short = refl

-- A plus sign in the place of a digit is taken.
reads_plus : from_str (codes "+1:+2:00:00:00:00") ≡ ok (1 ∷ 2 ∷ 0 ∷ 0 ∷ 0 ∷ 0 ∷ [])
unfolding from_str split parse_octets parse_octet from_str_radix hex_value hex_digit
reads_plus = refl

writes_small : mac_text mac ≡ codes "52:54:00:12:ab:ff"
unfolding mac_text octet_text hex_char
writes_small = refl

from_str-IsMac_example : IsMac mac × (from_str (mac_text mac) ≡ ok mac)
from_str-IsMac_example = from_str-IsMac (codes "52:54:00:12:AB:FF") mac reads_capitals
