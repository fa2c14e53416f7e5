-- ===== src/Protocol/Serial.antt =====
-- httpboot-protocol/src/serial.rs: the parameters of a serial line, the binding of a line to a boot,
-- and the decoder that finds the beacon of a board in a stream of bytes. A text is its bytes here. Of
-- the decoder's buffer the model keeps the part up to `len`. A valid identifier is ASCII, so that the
-- test for UTF-8 refuses nothing that the test on the identifier takes.
pub mod Decoder
pub mod Grants
use ostool.Prelude.{
  ℕ, zero, suc, ◌+◌, ◌-◌, ◌*◌, ◌/◌, ◌%◌, ◌^◌, ◌≤◌, ◌<◌, min, ◌≡◌, ◌≢◌, ◌↔◌, ◌⊎◌, refl, sym, ap, ◌∙◌,
  inl, inr, Bool, true, false, not, ◌&&◌, ◌||◌, Option, none, some, List, [], ◌∷◌, ◌++◌, map,
  append-nil, append_assoc, arith, ltb, leb, ◌==◌, if◌then◌else◌, ltb→lt, lt→ltb, ==_iff, ==_refl,
  Bool-cases, Option-cases, and_true, length, get_elem?, get_or, take, drop, replicate, All,
  length-append, All-append, IsByte, Text, codes, text_eq, text_eq_iff, text_eq_refl, text_lt,
}
use ostool.Server.Outcome.{Result, ok, err, every}

abbrev pub serial_beacon_prefix : List ℕ
serial_beacon_prefix = codes "AXLOADER-SERIAL/1 "

abbrev pub serial_id_bytes : ℕ
serial_id_bytes = 32

pub data SerialParity : Type 0 where
  no_parity odd even mark space : SerialParity

pub data SerialStopBits : Type 0 where
  one one_point_five two : SerialStopBits

pub data SerialFlowControl : Type 0 where
  no_flow_control rts_cts : SerialFlowControl

pub record SerialParameters : Type 0 where
  pub baud_rate : ℕ
  pub data_bits : ℕ
  pub parity : SerialParity
  pub stop_bits : SerialStopBits
  pub flow_control : SerialFlowControl

abbrev pub default_parameters : SerialParameters
default_parameters = record {
  baud_rate = 115200;
  data_bits = 8;
  parity = no_parity;
  stop_bits = one;
  flow_control = no_flow_control;
}

pub data SerialBindingMode : Type 0 where
  bound direct : SerialBindingMode

pub record SerialBinding : Type 0 where
  pub serial_id : Text
  pub binding_id : Text
  pub mode : SerialBindingMode

pub record LoaderSerialStatus : Type 0 where
  pub serial_id : Text
  pub ready : Bool
  pub parameters : Option SerialParameters
  pub binding : Option SerialBinding
  pub error : Option Text

pub data SerialProtocolError : Type 0 where
  invalid_id invalid_parameters conflict not_ready : SerialProtocolError

unfoldable pub validate_parameters : SerialParameters → Result SerialProtocolError (Unit {0})
validate_parameters p =
    if (p.baud_rate == 0) || not ((p.data_bits == 7) || (p.data_bits == 8))
    then err invalid_parameters
    else ok tt

-- `b.is_ascii_digit() || (b'a'..=b'f').contains(&b)`
abbrev pub is_id_byte : ℕ → Bool
is_id_byte b = (leb 48 b && leb b 57) || (leb 97 b && leb b 102)

unfoldable pub valid_serial_id : Text → Bool
valid_serial_id id = (length id == serial_id_bytes) && every is_id_byte id

abbrev pub is_bound : SerialBindingMode → Bool
is_bound bound = true
is_bound direct = false

abbrev pub mode_eq : SerialBindingMode → SerialBindingMode → Bool
mode_eq bound bound = true
mode_eq direct direct = true
mode_eq bound direct = false
mode_eq direct bound = false

unfoldable pub binding_eq : SerialBinding → SerialBinding → Bool
binding_eq x y =
    text_eq x.serial_id y.serial_id && text_eq x.binding_id y.binding_id && mode_eq x.mode y.mode

-- Whether another binding stands.
abbrev pub is_other : SerialBinding → Option SerialBinding → Bool
is_other binding none = false
is_other binding (some current) = not (binding_eq current binding)

unfoldable pub grant :
    SerialBinding → LoaderSerialStatus → Result SerialProtocolError (Unit {0}) × LoaderSerialStatus
grant binding s =
    if not (text_eq binding.serial_id s.serial_id) || not (valid_serial_id binding.binding_id)
    then (err conflict, s)
    else if is_bound binding.mode && not s.ready
    then (err not_ready, s)
    else if is_other binding s.binding
    then (err conflict, s)
    else (ok tt, record s { binding = some binding })

-- `b.binding_id != binding_id`, of a binding that may not be there.
abbrev pub is_not_under : Text → Option SerialBinding → Bool
is_not_under binding_id none = true
is_not_under binding_id (some b) = not (text_eq b.binding_id binding_id)

unfoldable pub revoke :
    Text → LoaderSerialStatus → Result SerialProtocolError (Unit {0}) × LoaderSerialStatus
revoke binding_id s =
    if is_not_under binding_id s.binding
    then (err conflict, s)
    else (ok tt, record s { binding = none })

unfoldable pub permits_start : Text → LoaderSerialStatus → Bool
permits_start binding_id s = elim (s.binding) [
  | none ↦ false
  | some b ↦ text_eq b.binding_id binding_id && text_eq b.serial_id s.serial_id
]

pub record SerialFrameDecoder : Type 0 where
  pub line : List ℕ
  pub overflow : Bool

abbrev pub new_decoder : SerialFrameDecoder
new_decoder = record { line = []; overflow = false }

abbrev pub newline : ℕ
newline = 10

abbrev pub return_byte : ℕ
return_byte = 13

abbrev pub line_bytes : ℕ
line_bytes = 64

-- The line without a carriage return at its end.
unfoldable pub without_return : List ℕ → List ℕ
without_return [] = []
without_return (b ∷ []) = if b == return_byte then [] else b ∷ []
without_return (b ∷ c ∷ cs) = b ∷ without_return (c ∷ cs)

unfoldable pub strip_prefix : List ℕ → List ℕ → Option (List ℕ)
strip_prefix [] xs = some xs
strip_prefix (p ∷ ps) [] = none
strip_prefix (p ∷ ps) (x ∷ xs) = let rest = strip_prefix ps xs in if p == x then rest else none

abbrev pub if_valid : Option Text → Option Text
if_valid none = none
if_valid (some id) = if valid_serial_id id then some id else none

-- The identifier of a line, if it is a beacon.
unfoldable pub beacon_id : List ℕ → Option Text
beacon_id line = if_valid (strip_prefix serial_beacon_prefix (without_return line))

unfoldable pub push : ℕ → SerialFrameDecoder → Option Text × SerialFrameDecoder
push byte d =
    if not (byte == newline)
    then (
      none,
      if length d.line == line_bytes
          then record d { overflow = true }
          else record d { line = d.line ++ (byte ∷ []) },
    )
    else (if not d.overflow then beacon_id d.line else none, new_decoder)
