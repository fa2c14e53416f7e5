-- ===== src/Server/System/Leased.antt =====
-- What the changes of the inventory leave alone.
use ostool.Prelude.{◌≡◌, Text}
use ostool.Prelude.Map.{lookup}
use ostool.Server.State.{AppState}

-- The board and its runtime are the same in both states.
abbrev pub Untouched : Text → AppState → AppState → Type 0
Untouched k s s' =
    (lookup k s'.boards ≡ lookup k s.boards)
    × (lookup k s'.board_runtimes ≡ lookup k s.board_runtimes)
