-- ===== src/Serial/Expected.antt =====
-- ostool-serial/src/manager.rs: the parameters that `scan` takes from the boards that are expected, a
-- `BTreeSet` in the derived order of httpboot-protocol/src/serial.rs.
use ostool.Prelude.{ℕ, List, [], ◌∷◌, if◌then◌else◌, Text, text_lt}
use ostool.Protocol.Serial.{
  SerialParameters, SerialParity, SerialStopBits, SerialFlowControl, no_parity, odd, even, mark,
  space, one, one_point_five, two, no_flow_control, rts_cts,
}
use ostool.Serial.Ports.{parameters_eq}

abbrev parity_rank : SerialParity → ℕ
parity_rank no_parity = 0
parity_rank odd = 1
parity_rank even = 2
parity_rank mark = 3
parity_rank space = 4

abbrev stop_bits_rank : SerialStopBits → ℕ
stop_bits_rank one = 0
stop_bits_rank one_point_five = 1
stop_bits_rank two = 2

abbrev flow_control_rank : SerialFlowControl → ℕ
flow_control_rank no_flow_control = 0
flow_control_rank rts_cts = 1

-- The fields in the order in which the derived `Ord` compares them.
abbrev pub ranks : SerialParameters → List ℕ
ranks p =
    p.baud_rate
    ∷ p.data_bits
    ∷ parity_rank p.parity
    ∷ stop_bits_rank p.stop_bits
    ∷ flow_control_rank p.flow_control
    ∷ []

-- `BTreeSet::insert`, on the elements in their order
unfoldable pub insert_parameters : SerialParameters → List SerialParameters → List SerialParameters
insert_parameters p [] = p ∷ []
insert_parameters p (q ∷ qs) =
    let rest = insert_parameters p qs in
    if parameters_eq p q
    then q ∷ qs
    else if text_lt (ranks p) (ranks q)
    then p ∷ q ∷ qs
    else q ∷ rest

-- The different parameters that are asked for, in their order.
unfoldable pub distinct_parameters : List (Text × SerialParameters) → List SerialParameters
distinct_parameters [] = []
distinct_parameters (e ∷ es) = insert_parameters e.1 (distinct_parameters es)
