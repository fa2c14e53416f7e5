-- ===== src/Tests/Ports.antt =====
-- ostool-serial: the discovery of a board and its lease.
use ostool.Prelude.{
  ℕ, ◌≡◌, refl, true, false, Option, none, some, [], ◌∷◌, map, arith, All, Text, codes, text_eq,
}
use ostool.Prelude.Map.{lookup, insert, remove, contains_key}
use ostool.Server.Outcome.{ok, err, any, filter, is_empty}
use ostool.Protocol.Serial.{default_parameters}
use ostool.Serial.Ports.{path, PortLocator, BindRequest, matches, parameters_eq, timeout}
use ostool.Serial.Discovery.{
  exclude, on_exclude, to_exclude, Discovery, new_discovery, Surroundings, bind, release, command,
  Owner, Worker, on_bind, add_pending, to_bind,
}
use ostool.Serial.Events.{on_found, on_inventory, take_pending, lease_found}
use ostool.Serial.Reconcile.{
  count_distinct, scan_window, with_scan, with_window, expire_each, expire_pending, announce,
  must_stop, stop_each, stop_candidates, answer_excluded, reserve_each, serve_reservations,
}
use ostool.Serial.Spawn.{
  wait_each, answer_waiters, is_busy_owner, enumerate, is_cached, is_taken, scan_port, scan_each,
  discover, publish_snapshot, reconcile,
}
use ostool.Serial.Turns.{commanded, found, inventoried, Reach, began, turned}
use ostool.Serial.Sound.{core, Holds}
use ostool.Serial.Sound.Kept.{Reach-Holds}
use ostool.Serial.Sound.Leased.{Turn-lease}
use ostool.Serial.Sound.Deadlines.{expire_pending-Waits, Waits, IsAccounted}

-- No path is a link.
abbrev no_links : Text → Option Text
no_links p = none

abbrev at_time : ℕ → Surroundings
at_time now = record { now = now; is_closed = λ r. false; has_senders = true }

abbrev board : Text
board = codes "b1"

abbrev usb : PortLocator
usb = record { name = codes "tty0"; aliases = []; serial_number = none }

abbrev request : BindRequest
request = record {
  owner = codes "s1";
  generation = 1;
  mac_address = 2 ∷ [];
  boot_epoch = codes "e";
  serial_id = board;
  parameters = default_parameters;
  deadline = 9000;
}

abbrev s0 : Discovery
s0 = new_discovery 0

-- Asked for a board.
abbrev s1 : Discovery
s1 = reconcile no_links (at_time 10) (command no_links (at_time 10) (bind request 7) s0)

-- Told of a port, which is scanned from now on.
abbrev s2 : Discovery
s2 = reconcile no_links (at_time 20) (on_inventory (some (usb ∷ [])) s1)

abbrev scan : Worker
scan = record { locator = usb; generation = 1; scans = true }

-- The board has been found there.
abbrev s3 : Discovery
s3 =
    reconcile no_links (at_time 30) (on_found (at_time 30) usb 1 board (record s2 { workers = [] }))

s2_scans : s2.workers ≡ scan ∷ []
unfolding reconcile expire_pending expire_each scan_window count_distinct with_scan with_window
    announce stop_candidates stop_each must_stop answer_excluded serve_reservations reserve_each
    answer_waiters wait_each is_busy_owner discover enumerate scan_each scan_port is_taken is_cached
    publish_snapshot command on_bind add_pending on_found lease_found take_pending new_discovery
    lookup insert remove contains_key any filter is_empty text_eq matches parameters_eq
s2_scans = refl

abbrev lease : Owner
lease = record { token = 2; name = codes "s1"; locator = usb }

s3_leased : lookup (codes "tty0") s3.leased ≡ some lease
unfolding reconcile expire_pending expire_each scan_window count_distinct with_scan with_window
    announce stop_candidates stop_each must_stop answer_excluded serve_reservations reserve_each
    answer_waiters wait_each is_busy_owner discover enumerate scan_each scan_port is_taken is_cached
    publish_snapshot command on_bind add_pending on_found lease_found take_pending new_discovery
    lookup insert remove contains_key any filter is_empty text_eq matches parameters_eq
s3_leased = refl

s3_replied : s3.replies ≡ (7, to_bind (ok (record { locator = usb; token = 2; mac = 2 ∷ [] }))) ∷ []
unfolding reconcile expire_pending expire_each scan_window count_distinct with_scan with_window
    announce stop_candidates stop_each must_stop answer_excluded serve_reservations reserve_each
    answer_waiters wait_each is_busy_owner discover enumerate scan_each scan_port is_taken is_cached
    publish_snapshot command on_bind add_pending on_found lease_found take_pending new_discovery
    lookup insert remove contains_key any filter is_empty text_eq matches parameters_eq
s3_replied = refl

s3-Reach : Reach no_links s3
s3-Reach =
    turned
      (turned (turned (began 0) (commanded (at_time 10) (bind request 7)))
        (inventoried (at_time 20) (some (usb ∷ []))))
      (found (at_time 30) [] [] scan board s2_scans refl)

Reach-Holds_example : Holds (core s3) []
Reach-Holds_example = Reach-Holds no_links s3 s3-Reach

-- The exclusion of the port that is being scanned, and then one of nothing.
abbrev excluding : Discovery
excluding =
    reconcile no_links (at_time 30)
      (command no_links (at_time 30) (exclude (path (codes "tty0") ∷ []) 8) s2)

abbrev excluding_nothing : Discovery
excluding_nothing =
    reconcile no_links (at_time 40) (command no_links (at_time 40) (exclude [] 9) excluding)

still_scanned : excluding.replies ≡ []
unfolding reconcile expire_pending expire_each scan_window count_distinct with_scan with_window
    announce stop_candidates stop_each must_stop answer_excluded serve_reservations reserve_each
    answer_waiters wait_each is_busy_owner discover enumerate scan_each scan_port is_taken is_cached
    publish_snapshot command on_bind on_exclude add_pending on_found lease_found take_pending
    new_discovery lookup insert remove contains_key any filter is_empty text_eq matches
    parameters_eq
still_scanned = refl

-- Both have their answer, though the scan of the port has not ended.
early_completion :
    (excluding_nothing.replies ≡ (8, to_exclude (ok tt)) ∷ (9, to_exclude (ok tt)) ∷ [])
    × (contains_key (codes "tty0") excluding_nothing.candidates ≡ true)
unfolding reconcile expire_pending expire_each scan_window count_distinct with_scan with_window
    announce stop_candidates stop_each must_stop answer_excluded serve_reservations reserve_each
    answer_waiters wait_each is_busy_owner discover enumerate scan_each scan_port is_taken is_cached
    publish_snapshot command on_bind on_exclude add_pending on_found lease_found take_pending
    new_discovery lookup insert remove contains_key any filter is_empty text_eq matches
    parameters_eq
early_completion = (refl, refl)

-- The release of an older lease of the port.
Turn-lease_example :
    lookup
      (codes "tty0")
      (reconcile no_links
        (at_time 40)
        (command no_links (at_time 40) (release (codes "tty0") 1) s3)).leased
    ≡ some lease
Turn-lease_example =
    Turn-lease no_links (codes "tty0") lease s3-Reach
      (commanded (at_time 40) (release (codes "tty0") 1)) (λ e f. ground (arith, f)) s3_leased

-- Nobody answers until the deadline.
times_out : map (λ e. e.1) (expire_pending (at_time 9000) s1).replies ≡ to_bind (err timeout) ∷ []
unfolding reconcile expire_pending expire_each scan_window count_distinct with_scan with_window
    announce stop_candidates stop_each must_stop answer_excluded serve_reservations reserve_each
    answer_waiters wait_each is_busy_owner discover enumerate scan_each scan_port is_taken is_cached
    publish_snapshot command on_bind add_pending on_found lease_found take_pending new_discovery
    lookup insert remove contains_key any filter is_empty text_eq matches parameters_eq
times_out = refl

expire_pending-Waits_example :
    All (Waits (at_time 9000)) (expire_pending (at_time 9000) s1).pending
    × All (IsAccounted (at_time 9000) (expire_pending (at_time 9000) s1)) s1.pending
expire_pending-Waits_example = expire_pending-Waits (at_time 9000) s1
