-- ===== src/Tests/Lab.antt =====
-- Two boards of one type.
use ostool.Prelude.{false, [], ◌∷◌, codes}
use ostool.Server.BoardPool.{BoardConfig, Boards}

abbrev pub first_board : BoardConfig
first_board = record {
  id = codes "a";
  board_type = codes "rk3568";
  tags = codes "net" ∷ [];
  disabled = false;
}

abbrev pub second_board : BoardConfig
second_board = record first_board { id = codes "b" }

abbrev pub lab : Boards
lab = (codes "a", first_board) ∷ (codes "b", second_board) ∷ []
