-- ===== src/Tests/Scan.antt =====
-- ostool-serial: a scan of one port, and the reading of the lease that it gives.
use ostool.Prelude.{
  ℕ, ◌≡◌, refl, true, false, none, some, List, [], ◌∷◌, ◌++◌, Text, codes, text_eq, text_lt,
}
use ostool.Prelude.Split.{split}
use ostool.Server.Outcome.{ok, err, any, has, every, is_empty}
use ostool.Protocol.Serial.{
  SerialParameters, default_parameters, valid_serial_id, push, new_decoder, newline, beacon_id,
  strip_prefix, without_return,
}
use ostool.Protocol.Serial.Decoder.{ids_of, complete}
use ostool.Serial.Discovery.{invalidate}
use ostool.Serial.Ports.{PortLocator, SerialLease, parameters_eq}
use ostool.Serial.Expected.{distinct_parameters, insert_parameters}
use ostool.Serial.Scan.{
  Happening, fault, found, closed, would_block, Moment, Attempt, ended, ticked, arrived,
  stop_changed, Scan, configured, heard, keep_last, seek, set_parameters, rotate, turn, read_port,
  try_open, scan,
}
use ostool.Serial.Lease.{pending, ready, new_reader, pop_prefix, observe, poll_stream, poll_read}
use ostool.Serial.Lease.Reads.{Call, read, Use, new_use, call, call_all}
use ostool.Serial.Lease.Order.{call_all-in_order}
use ostool.Serial.Scan.Found.{IsFoundIn, scan-found}
use ostool.Serial.Scan.Ends.{IsEnd, scan-ends}

abbrev usb : PortLocator
usb = record { name = codes "tty0"; aliases = []; serial_number = none }

abbrev slow : SerialParameters
slow = record default_parameters { baud_rate = 9600 }

abbrev id : Text
id = codes "0123456789abcdef0123456789abcdef"

abbrev stranger : Text
stranger = codes "ffffffffffffffffffffffffffffffff"

abbrev no_text : SerialParameters → Text
no_text p = []

abbrev expected : List (Text × SerialParameters)
expected = (id, default_parameters) ∷ (stranger, slow) ∷ (id, default_parameters) ∷ []

abbrev at_moment : Happening → Moment
at_moment happening = record {
  stops = false;
  stops_now = false;
  expected = expected;
  happening = happening;
}

abbrev opens : SerialParameters → Attempt
opens p = record { stops = false; outcome = ok tt }

abbrev is_refused : SerialParameters → Attempt
is_refused p = record {
  stops = false;
  outcome = err (record { kind = would_block; text = codes "busy" });
}

-- The port is opened at 9600 baud; the second tick sets it to the parameters of the board, whose
-- beacon comes in two reads.
abbrev moments : List Moment
moments =
    at_moment (arrived (ok (codes "AXLOADER-SERIAL/1 01")))
    ∷ at_moment (ticked (ok tt))
    ∷ at_moment (ticked (ok tt))
    ∷ at_moment (arrived (ok (codes "AXLOADER-SERIAL/1 0123456789abcdef")))
    ∷ at_moment (arrived (ok (codes "0123456789abcdef\n>")))
    ∷ []

in_their_order : distinct_parameters expected ≡ slow ∷ default_parameters ∷ []
unfolding distinct_parameters insert_parameters parameters_eq text_lt
in_their_order = refl

abbrev everything : List ℕ
everything = codes "AXLOADER-SERIAL/1 01AXLOADER-SERIAL/1 0123456789abcdef0123456789abcdef\n>"

abbrev finished : Scan
finished = record {
  decoder = new_decoder;
  history = everything;
  parameter_index = 2;
  active_parameters = some default_parameters;
  stream =
      configured slow
      ∷ heard (codes "AXLOADER-SERIAL/1 01")
      ∷ configured default_parameters
      ∷ heard (codes "AXLOADER-SERIAL/1 0123456789abcdef")
      ∷ heard (codes "0123456789abcdef\n>")
      ∷ [];
  events = [];
}

finds_board : scan no_text usb 3 expected opens moments ≡ ended finished (found usb 3 id everything)
unfolding scan distinct_parameters insert_parameters parameters_eq text_lt try_open read_port turn
    rotate set_parameters keep_last seek push beacon_id strip_prefix without_return valid_serial_id
    every any text_eq
finds_board = refl

scan-found_example : IsFoundIn no_text usb 3 moments finished usb 3 id everything
scan-found_example = scan-found no_text usb 3 expected opens moments finds_board

is_busy :
    (s : Scan) × (scan no_text usb 3 expected is_refused moments
      ≡ ended s (closed (codes "tty0") 3))
unfolding scan distinct_parameters insert_parameters parameters_eq text_lt try_open
is_busy = (
  record {
    decoder = new_decoder;
    history = [];
    parameter_index = 0;
    active_parameters = none;
    stream = [];
    events = fault (codes "tty0") (codes "open/configure : busy") ∷ [];
  },
  refl,
)

abbrev asked_to_stop : Moment
asked_to_stop = record {
  stops = true;
  stops_now = true;
  expected = [];
  happening = stop_changed true;
}

scan-ends_example :
    IsEnd no_text usb 3
      (scan no_text usb 3 expected opens (at_moment (ticked (ok tt)) ∷ asked_to_stop ∷ moments))
scan-ends_example =
    scan-ends no_text usb 3 expected opens (at_moment (ticked (ok tt)) ∷ []) asked_to_stop moments
      refl

abbrev lease : SerialLease
lease = record { locator = usb; token = 4; mac = 2 ∷ [] }

abbrev beacon : List ℕ
beacon = codes "AXLOADER-SERIAL/1 0123456789abcdef0123456789abcdef\n"

-- Two reads of the prefix, then one of the stream that finds nothing, one that fails, and one with the
-- beacon of another boot.
abbrev calls : List Call
calls =
    read 3 (ready (ok beacon))
    ∷ read 512 (ready (ok beacon))
    ∷ read 512 pending
    ∷ read 512 (ready (err (record { kind = would_block; text = [] })))
    ∷ read 512 (ready (ok beacon))
    ∷ []

sees_boot : (call_all lease calls (new_use (codes "hello"))).reader.observed ≡ some id
unfolding call_all call poll_read poll_stream pop_prefix observe is_empty push beacon_id
    strip_prefix without_return valid_serial_id every
sees_boot = refl

reports_end :
    (poll_read lease 512 (ready (ok [])) (new_reader [])).commands ≡ invalidate (2 ∷ []) ∷ []
unfolding poll_read poll_stream is_empty
reports_end = refl

abbrev used : Use
used = call_all lease calls (new_use (codes "hello"))

call_all-in_order_example :
    (used.delivered ++ used.reader.prefix ≡ codes "hello" ++ used.fresh)
    × (is_empty used.reader.prefix ≡ false → used.fresh ≡ [])
    × (used.disturbed ≡ false)
    × ((i : Text)
        → used.reader.observed ≡ some i
        → has i (ids_of (complete (split newline used.fresh_since))) ≡ true)
call_all-in_order_example = call_all-in_order lease (codes "hello") calls
