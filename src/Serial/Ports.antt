-- ===== src/Serial/Ports.antt =====
-- ostool-serial/src/lib.rs: ports, the selectors of ports, and what is asked of the manager. An instant
-- is a number of milliseconds. `std::fs::canonicalize`, which reads the links of the file system, is a
-- parameter: the path that a path leads to, if there is one.
use ostool.Prelude.{
  ℕ, Bool, true, false, not, ◌&&◌, ◌||◌, Option, none, some, List, ◌==◌, if◌then◌else◌, Text,
  text_eq,
}
use ostool.Server.Outcome.{Result, ok, err, has, is_empty}
use ostool.Protocol.{MacAddress}
use ostool.Protocol.Serial.{
  SerialParameters, SerialParity, SerialStopBits, SerialFlowControl, no_parity, odd, even, mark,
  space, one, one_point_five, two, no_flow_control, rts_cts, valid_serial_id, validate_parameters,
}

pub record PortLocator : Type 0 where
  pub name : Text
  pub aliases : List Text
  pub serial_number : Option Text

pub data PortSelector : Type 0 where
  path : Text → PortSelector
  serial_number_of : Text → PortSelector

-- `==` of two optional texts
abbrev pub some_text_eq : Option Text → Option Text → Bool
some_text_eq none none = true
some_text_eq none (some t) = false
some_text_eq (some s) none = false
some_text_eq (some s) (some t) = text_eq s t

abbrev pub selector_eq : PortSelector → PortSelector → Bool
selector_eq (path p) (path q) = text_eq p q
selector_eq (path p) (serial_number_of q) = false
selector_eq (serial_number_of p) (path q) = false
selector_eq (serial_number_of p) (serial_number_of q) = text_eq p q

abbrev pub leads_to : Option Text → Text → Bool
leads_to none name = false
leads_to (some p) name = text_eq p name

unfoldable pub matches : (Text → Option Text) → PortLocator → PortSelector → Bool
matches canonicalize port (serial_number_of sn) = some_text_eq port.serial_number (some sn)
matches canonicalize port (path p) =
    text_eq port.name p || (has p port.aliases || leads_to (canonicalize p) port.name)

pub record BindRequest : Type 0 where
  pub owner : Text
  pub generation : ℕ
  pub mac_address : MacAddress
  pub boot_epoch : Text
  pub serial_id : Text
  pub parameters : SerialParameters
  pub deadline : ℕ

pub data BindError : Type 0 where
  timeout busy invalid_request : BindError
  discovery_failed : Text → BindError

pub record ManagerSnapshot : Type 0 where
  pub pending : ℕ
  pub candidates : ℕ
  pub leased : ℕ

-- A lease without its stream and the bytes that were read before it was given.
pub record SerialLease : Type 0 where
  pub locator : PortLocator
  pub token : ℕ
  pub mac : MacAddress

pub record PortReservation : Type 0 where
  pub port : Text
  pub token : ℕ

abbrev pub is_accepted : {E A : Type 0} → Result E A → Bool
is_accepted (ok a) = true
is_accepted (err e) = false

-- The test of `bind` on a request, before it is sent to the actor.
unfoldable pub check_request : BindRequest → Result BindError (Unit {0})
check_request request =
    if is_empty request.boot_epoch
      || (not (valid_serial_id request.serial_id)
          || not (is_accepted (validate_parameters request.parameters)))
    then err invalid_request
    else ok tt

abbrev parity_eq : SerialParity → SerialParity → Bool
parity_eq no_parity no_parity = true
parity_eq odd odd = true
parity_eq even even = true
parity_eq mark mark = true
parity_eq space space = true
parity_eq _ _ = false

abbrev stop_bits_eq : SerialStopBits → SerialStopBits → Bool
stop_bits_eq one one = true
stop_bits_eq one_point_five one_point_five = true
stop_bits_eq two two = true
stop_bits_eq _ _ = false

abbrev flow_control_eq : SerialFlowControl → SerialFlowControl → Bool
flow_control_eq no_flow_control no_flow_control = true
flow_control_eq rts_cts rts_cts = true
flow_control_eq _ _ = false

-- `==` of two `SerialParameters`
unfoldable pub parameters_eq : SerialParameters → SerialParameters → Bool
parameters_eq p q =
    (p.baud_rate == q.baud_rate)
    && ((p.data_bits == q.data_bits)
        && (parity_eq p.parity q.parity
            && (stop_bits_eq p.stop_bits q.stop_bits
                && flow_control_eq p.flow_control q.flow_control)))
