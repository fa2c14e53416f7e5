-- ===== src/Tests/Serial.antt =====
-- httpboot-protocol: serial parameters, grants and the decoder of beacons.
use ostool.Prelude.{
  ℕ, ◌≡◌, ◌≢◌, refl, false, none, some, List, [], ◌∷◌, ◌++◌, arith, Text, codes, text_eq,
  text_eq_iff,
}
use ostool.Prelude.Split.{split}
use ostool.Server.Outcome.{ok, err, every}
use ostool.Protocol.Serial.{
  default_parameters, validate_parameters, valid_serial_id, SerialBinding, LoaderSerialStatus,
  bound, direct, conflict, not_ready, grant, revoke, permits_start, push, new_decoder, newline,
  return_byte, beacon_id, strip_prefix, without_return,
}
use ostool.Protocol.Serial.Decoder.{decode, ids_of, complete, decode_lem}
use ostool.Protocol.Serial.Grants.{
  GrantRequest, to_grant, to_revoke, serve_all, grant-permits_start,
}

default_is_valid : validate_parameters default_parameters ≡ ok tt
unfolding validate_parameters
default_is_valid = refl

abbrev id : Text
id = codes "0123456789abcdef0123456789abcdef"

abbrev board_status : LoaderSerialStatus
board_status = record {
  serial_id = id;
  ready = false;
  parameters = none;
  binding = none;
  error = some (codes "no UART");
}

abbrev owner : Text
owner = codes "aaaaaaaaaaaaaaaaaaaaaaaaaaaaaaaa"

abbrev stranger : Text
stranger = codes "bbbbbbbbbbbbbbbbbbbbbbbbbbbbbbbb"

abbrev direct_binding : SerialBinding
direct_binding = record { serial_id = id; binding_id = owner; mode = direct }

abbrev other_binding : SerialBinding
other_binding = record { serial_id = id; binding_id = stranger; mode = direct }

not_ready_yet : (grant (record direct_binding { mode = bound }) board_status).0 ≡ err not_ready
unfolding grant text_eq valid_serial_id every
not_ready_yet = refl

grants_direct : (grant direct_binding board_status).0 ≡ ok tt
unfolding grant text_eq valid_serial_id every
grants_direct = refl

stale_revoke : (revoke stranger (grant direct_binding board_status).1).0 ≡ err conflict
unfolding revoke grant text_eq valid_serial_id every
stale_revoke = refl

abbrev strangers : List GrantRequest
strangers = to_grant other_binding ∷ to_revoke stranger ∷ to_grant direct_binding ∷ []

another_owner : owner ≢ stranger
another_owner e = ground (arith, text_eq_iff owner stranger)

grant-permits_start_example :
    permits_start owner (serve_all strangers (grant direct_binding board_status).1)
    ≡ text_eq owner owner
grant-permits_start_example =
    grant-permits_start direct_binding board_status strangers grants_direct
      (tt, (another_owner, (tt, tt))) owner

-- A long line, an empty one, a beacon with a carriage return, another line, and the start of a line.
abbrev console : List ℕ
console =
    codes "xxxxxxxxxxxxxxxxxxxxxxxxxxxxxxxxxxxxxxxxxxxxxxxxxxxxxxxxxxxxxxxxxxxxxx"
    ++ (newline ∷ return_byte ∷ newline ∷ [])
    ++ codes "AXLOADER-SERIAL/1 "
    ++ id
    ++ (return_byte ∷ newline ∷ [])
    ++ codes "kernel"
    ++ (newline ∷ codes "AXLO")

finds_beacon : decode new_decoder console ≡ id ∷ []
unfolding decode push beacon_id strip_prefix without_return valid_serial_id every
finds_beacon = refl

decode_lem_example : decode new_decoder console ≡ ids_of (complete (split newline console))
decode_lem_example = decode_lem console
