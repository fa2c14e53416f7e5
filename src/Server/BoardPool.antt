-- ===== src/Server/BoardPool.antt =====
-- ostool-server/src/board_pool.rs: the choice of a board. Of a board's configuration the fields that
-- the choice reads; a set of identifiers is the list of them. A text is its code points.
pub mod Laws
use ostool.Prelude.{ℕ, Bool, true, false, not, ◌||◌, ◌&&◌, if◌then◌else◌, ◌==◌, leb}
use ostool.Prelude.{Option, none, some, List, [], ◌∷◌, map, Text, text_eq}
use ostool.Prelude.Map.{lookup}
use ostool.Server.Outcome.{Result, ok, err, has, any, every, filter, find, is_empty}

pub record BoardConfig : Type 0 where
  pub id : Text
  pub board_type : Text
  pub tags : List Text
  pub disabled : Bool

pub data BoardAllocationStatus : Type 0 where
  board_type_not_found : BoardAllocationStatus
  no_available_board : BoardAllocationStatus

pub data BoardAllocationWithIdStatus : Type 0 where
  board_type_not_found : BoardAllocationWithIdStatus
  board_not_found : BoardAllocationWithIdStatus
  board_type_mismatch : (board_id board_type actual_board_type : Text) → BoardAllocationWithIdStatus
  no_available_board : BoardAllocationWithIdStatus

abbrev pub Boards : Type 0
Boards = List (Text × BoardConfig)

abbrev pub values : Boards → List BoardConfig
values boards = map (λ e. e.1) boards

-- `required_tags.iter().all(|tag| board.tags.contains(tag))`
abbrev pub has_tags : List Text → BoardConfig → Bool
has_tags required_tags board = every (λ tag. has tag board.tags) required_tags

module _ (boards : Boards) (leased_boards : List Text) (board_type : Text) where
  unfoldable pub allocate_board_impl :
      Option Text → List Text → Result BoardAllocationWithIdStatus BoardConfig
  allocate_board_impl (some board_id) required_tags = elim (lookup board_id boards) [
    | none ↦ err BoardAllocationWithIdStatus.board_not_found
    | some board ↦
        if not (text_eq board.board_type board_type)
        then err
            (BoardAllocationWithIdStatus.board_type_mismatch board_id board_type board.board_type)
        else if board.disabled || has board.id leased_boards || not (has_tags required_tags board)
        then err BoardAllocationWithIdStatus.no_available_board
        else ok board
  ]
  allocate_board_impl none required_tags =
      let matching_boards = filter (has_tags required_tags) (
        filter (λ board. text_eq board.board_type board_type)
          (filter (λ board. not board.disabled) (values boards))) in
      let board_type_exists =
        any (λ board. not board.disabled && text_eq board.board_type board_type) (values boards) in
      if is_empty matching_boards
      then err (
          if board_type_exists
          then BoardAllocationWithIdStatus.no_available_board
          else BoardAllocationWithIdStatus.board_type_not_found)
      else elim (find (λ board. not (has board.id leased_boards)) matching_boards) [
        | some board ↦ ok board
        | none ↦ err BoardAllocationWithIdStatus.no_available_board
      ]

  -- `none` is the panic of `unreachable!`.
  unfoldable pub allocate_board : List Text → Option (Result BoardAllocationStatus BoardConfig)
  allocate_board required_tags = elim (allocate_board_impl none required_tags) [
    | ok board ↦ some (ok board)
    | err status ↦ elim status [
      | BoardAllocationWithIdStatus.board_type_not_found ↦
          some (err BoardAllocationStatus.board_type_not_found)
      | BoardAllocationWithIdStatus.no_available_board ↦
          some (err BoardAllocationStatus.no_available_board)
      | BoardAllocationWithIdStatus.board_not_found ↦ none
      | BoardAllocationWithIdStatus.board_type_mismatch id wanted actual ↦ none
    ]
  ]

-- `char::is_whitespace`
unfoldable pub is_whitespace : ℕ → Bool
is_whitespace c =
    (leb 9 c && leb c 13)
    || (c == 32)
    || (c == 133)
    || (c == 160)
    || (c == 5760)
    || (leb 8192 c && leb c 8202)
    || (c == 8232)
    || (c == 8233)
    || (c == 8239)
    || (c == 8287)
    || (c == 12288)

unfoldable pub trim_start : Text → Text
trim_start [] = []
trim_start (c ∷ cs) = if is_whitespace c then trim_start cs else c ∷ cs

unfoldable pub trim_end : Text → Text
trim_end [] = []
trim_end (c ∷ cs) =
    let rest = trim_end cs in if is_empty rest && is_whitespace c then [] else c ∷ rest

-- `str::trim`
unfoldable pub trim : Text → Text
trim s = trim_end (trim_start s)

unfoldable pub allocate_board_with_board_id :
    Boards → List Text → Text → Text → List Text → Result BoardAllocationWithIdStatus BoardConfig
allocate_board_with_board_id boards leased_boards board_type board_id required_tags =
    allocate_board_impl boards leased_boards board_type (some (trim board_id)) required_tags
