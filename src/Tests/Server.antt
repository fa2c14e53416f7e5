-- ===== src/Tests/Server.antt =====
-- ostool-server: two boards of one type, two sessions on them, and the way of a session from its
-- creation to the release of its board.
use ostool.Prelude.{◌+◌, ◌≤◌, ◌≡◌, ◌↔◌, refl, true, ◌&&◌, none, some, List, [], ◌∷◌, codes, text_eq}
use ostool.Prelude.Map.{lookup}
use ostool.Server.Outcome.{ok, has, every, find}
use ostool.Server.BoardPool.{values, allocate_board, allocate_board_with_board_id, trim}
use ostool.Server.BoardPool.Laws.{
  first_free, serves, is_free, allocate_board-first_free, allocate_board_with_board_id_iff,
}
use ostool.Server.Session.{
  SessionState, SessionStopReason, SessionBootCommand, LoaderStatusPhase, LoaderStatusResponse,
  new_inner, new_with_id, lifecycle, from_u8, as_u8, is_releasing, loader_status,
  update_loader_status, publish_boot_command, begin_release, request_stop, send_stop, BootArch,
  ImageFormat,
}
use ostool.Server.Session.Laws.{
  Operation, perform, perform_all, published_after, loader_status-perform_all, publishes, reports,
  releases, shuts_down,
}
use ostool.Server.Session.Laws
use ostool.Server.Session.Stops.{
  wins, sent, won, is_active, sent-new_inner, won-perform_all, one_if,
}
use ostool.Tests.Lab.{first_board, second_board, lab}

allocate_board-first_free_example :
    allocate_board lab (codes "a" ∷ []) (codes "rk3568") (codes "net" ∷ [])
    ≡ some (first_free (values lab) (codes "a" ∷ []) (codes "rk3568") (codes "net" ∷ []))
allocate_board-first_free_example =
    allocate_board-first_free lab (codes "a" ∷ []) (codes "rk3568") (codes "net" ∷ [])

-- The second board is the first free one, when the first is leased.
first_free-lab :
    first_free (values lab) (codes "a" ∷ []) (codes "rk3568") (codes "net" ∷ []) ≡ ok second_board
unfolding first_free find serves is_free text_eq every has
first_free-lab = refl

allocate_board_with_board_id_iff_example :
    (allocate_board_with_board_id lab (codes "a" ∷ []) (codes "rk3568") (codes " b ") []
      ≡ ok second_board)
    ↔ ((lookup (trim (codes " b ")) lab ≡ some second_board)
        × ((serves (codes "rk3568") [] second_board && is_free (codes "a" ∷ []) second_board)
            ≡ true))
allocate_board_with_board_id_iff_example =
    allocate_board_with_board_id_iff lab (codes "a" ∷ []) (codes "rk3568") (codes " b ") []
      second_board

abbrev command : SessionBootCommand
command = record {
  boot_id = codes "boot-2";
  kernel_path = codes "kernel.elf";
  kernel_size = 4096;
  kernel_sha256 = [];
  arch = BootArch.aarch64;
  image_format = ImageFormat.elf64;
  entry_symbol = none;
  initramfs = none;
  cmdline = none;
}

-- A report on an earlier boot comes after the next command.
abbrev late_report : List Operation
late_report =
    publishes (record command { boot_id = codes "boot-1" })
    ∷ publishes command
    ∷ reports (codes "r") (codes "boot-1") LoaderStatusPhase.verified
    ∷ []

abbrev shown : LoaderStatusResponse
shown = record {
  session_id = codes "s1";
  boot_id = codes "boot-2";
  registration_id = none;
  status = none;
}

loader_status-perform_all_example :
    (c : SessionBootCommand) × ((published_after none late_report ≡ some c)
      × ((shown.boot_id ≡ c.boot_id) × (shown.session_id ≡ codes "s1")))
unfolding loader_status perform_all perform publish_boot_command update_loader_status new_inner
    new_with_id text_eq
loader_status-perform_all_example =
    loader_status-perform_all 0 (codes "s1") first_board none none late_report shown refl

abbrev two_stops : List Operation
two_stops =
    Laws.stops SessionStopReason.expired
    ∷ Laws.stops SessionStopReason.api_delete
    ∷ releases
    ∷ releases
    ∷ []

sent-new_inner_example :
    sent (perform_all two_stops (new_inner 0 (codes "s1") first_board none (some []))) ≤ 1
sent-new_inner_example = sent-new_inner 0 (codes "s1") first_board none two_stops

abbrev fresh : SessionState
unfolding new_inner new_with_id as_u8
fresh = new_inner 0 (codes "s1") first_board none (some [])

won-perform_all_example :
    won two_stops fresh + is_active (perform_all two_stops fresh) ≡ is_active fresh
won-perform_all_example = won-perform_all two_stops fresh

won-two_stops : won two_stops fresh ≡ 1
unfolding won wins perform begin_release one_if as_u8 request_stop send_stop is_releasing lifecycle
    from_u8 fresh
won-two_stops = refl
