-- ===== src/Server/BoardPool/Laws.antt =====
-- Theorems on board_pool.rs.
use ostool.Prelude.{
  Bool, true, false, not, ◌&&◌, if◌then◌else◌, Option, none, some, List, Text, text_eq, ◌≡◌, refl,
  ap, ◌∙◌, sym, ◌↔◌, arith, Bool-cases, Option-cases, inl, inr, and_true,
}
use ostool.Prelude.Map.{lookup}
use ostool.Server.Outcome.{
  Result, ok, err, has, any, filter, find, is_empty, find-filter, filter-filter, find_empty,
  any-filter, any_mono,
}
use ostool.Server.BoardPool.{
  BoardConfig, Boards, values, has_tags, BoardAllocationStatus, allocate_board_impl, allocate_board,
  allocate_board_with_board_id, trim,
}

-- What a board has to be to serve a request.
unfoldable pub serves : Text → List Text → BoardConfig → Bool
serves board_type required_tags board =
    (not board.disabled && text_eq board.board_type board_type) && has_tags required_tags board

unfoldable pub is_free : List Text → BoardConfig → Bool
is_free leased_boards board = not (has board.id leased_boards)

-- An enabled board of the type.
unfoldable pub is_of_type : Text → BoardConfig → Bool
is_of_type board_type board = not board.disabled && text_eq board.board_type board_type

-- The choice in one pass over the boards.
unfoldable pub first_free :
    List BoardConfig → List Text → Text → List Text → Result BoardAllocationStatus BoardConfig
first_free boards leased_boards board_type required_tags =
    elim (find (λ board. serves board_type required_tags board && is_free leased_boards board)
      boards) [
        | some board ↦ ok board
        | none ↦ err (
            if any (is_of_type board_type) boards
            then BoardAllocationStatus.no_available_board
            else BoardAllocationStatus.board_type_not_found)
      ]

abbrev thrice : List BoardConfig → Text → List Text → List BoardConfig
thrice boards board_type required_tags = filter (has_tags required_tags) (
    filter (λ board. text_eq board.board_type board_type)
      (filter (λ board. not board.disabled) boards))

matching :
    (boards : List BoardConfig) (board_type : Text) (required_tags : List Text)
    → thrice boards board_type required_tags ≡ filter (serves board_type required_tags) boards
unfolding serves
matching boards board_type required_tags =
    ap (filter (has_tags required_tags)) (filter-filter _ _ boards) ∙ filter-filter _ _ boards

-- The choice among the boards that can serve.
unfoldable among :
    Bool → List Text → List BoardConfig → Option (Result BoardAllocationStatus BoardConfig)
among exists leased_boards boards =
    if is_empty boards
    then some (
        err (
          if exists
          then BoardAllocationStatus.no_available_board
          else BoardAllocationStatus.board_type_not_found))
    else elim (find (is_free leased_boards) boards) [
      | some board ↦ some (ok board)
      | none ↦ some (err BoardAllocationStatus.no_available_board)
    ]

allocate_board-among :
    (boards : Boards) (leased_boards : List Text) (board_type : Text) (required_tags : List Text)
    → allocate_board boards leased_boards board_type required_tags
      ≡ among
          (any (is_of_type board_type) (values boards))
          leased_boards
          (filter (serves board_type required_tags) (values boards))
unfolding allocate_board allocate_board_impl among is_free is_of_type
allocate_board-among boards leased_boards board_type required_tags =
    split
    ∙ ap (among (any (is_of_type board_type) (values boards)) leased_boards)
        (matching (values boards) board_type required_tags)
  where
    split :
        allocate_board boards leased_boards board_type required_tags
        ≡ among
            (any (is_of_type board_type) (values boards))
            leased_boards
            (thrice (values boards) board_type required_tags)
    split = elim (Bool-cases (is_empty (thrice (values boards) board_type required_tags))) [
      | inl e ↦ elim (Bool-cases (any (is_of_type board_type) (values boards))) [
        | inl t ↦ ground (arith)
        | inr f ↦ ground (arith)
      ]
      | inr e ↦
          elim (Option-cases
            (find (is_free leased_boards) (thrice (values boards) board_type required_tags))) [
              | inl n ↦ ground (arith)
              | inr (b, f) ↦ ground (arith)
            ]
    ]

of_type :
    (boards : List BoardConfig) (board_type : Text) (required_tags : List Text)
    → is_empty (filter (serves board_type required_tags) boards) ≡ false
    → any (is_of_type board_type) boards ≡ true
unfolding serves is_of_type
of_type boards board_type required_tags e =
    any_mono (serves board_type required_tags) (is_of_type board_type) boards
      (λ x. λ h. (and_true h).0) (any-filter (serves board_type required_tags) boards e)

among-first_free :
    (boards : List BoardConfig) (leased_boards : List Text) (board_type : Text)
    (required_tags : List Text)
    → among
        (any (is_of_type board_type) boards)
        leased_boards
        (filter (serves board_type required_tags) boards)
      ≡ some (first_free boards leased_boards board_type required_tags)
unfolding among first_free
among-first_free boards leased_boards board_type required_tags =
    elim (Bool-cases (is_empty (filter (serves board_type required_tags) boards))) [
      | inl e ↦
          rw
            (
              e,
              first_free,
              sym found
                  ∙ find_empty (is_free leased_boards)
                      (filter (serves board_type required_tags) boards) e,
            )
            refl
      | inr e ↦
          elim (Option-cases
            (find (is_free leased_boards) (filter (serves board_type required_tags) boards))) [
              | inl n ↦
                  rw (e, n, first_free, sym found ∙ n, of_type boards board_type required_tags e)
                    refl
              | inr (b, f) ↦ rw (e, f, first_free, sym found ∙ f) refl
            ]
    ]
  where
    found :
        find (is_free leased_boards) (filter (serves board_type required_tags) boards)
        ≡ find
            (λ board. serves board_type required_tags board && is_free leased_boards board)
            boards
    found = find-filter (is_free leased_boards) (serves board_type required_tags) boards

-- Whatever the boards, the leases, the type and the tags, `allocate_board` does not reach its
-- `unreachable!`, and it gives the first board in the order of the map that is enabled, of the type,
-- has every tag and is not leased; when there is none, it says that the type was not found exactly
-- when no enabled board has the type, and that no board is available otherwise.
pub allocate_board-first_free :
    (boards : Boards) (leased_boards : List Text) (board_type : Text) (required_tags : List Text)
    → allocate_board boards leased_boards board_type required_tags
      ≡ some (first_free (values boards) leased_boards board_type required_tags)
allocate_board-first_free boards leased_boards board_type required_tags =
    allocate_board-among boards leased_boards board_type required_tags
    ∙ among-first_free (values boards) leased_boards board_type required_tags

-- With a board's identifier, the allocation gives a board exactly when the map has it under the
-- trimmed identifier and it is of the type, enabled, not leased and has every tag.
pub allocate_board_with_board_id_iff :
    (boards : Boards) (leased_boards : List Text) (board_type board_id : Text)
    (required_tags : List Text) (board : BoardConfig)
    → (allocate_board_with_board_id boards leased_boards board_type board_id required_tags
        ≡ ok board)
      ↔ ((lookup (trim board_id) boards ≡ some board)
          × ((serves board_type required_tags board && is_free leased_boards board) ≡ true))
unfolding allocate_board_with_board_id allocate_board_impl serves is_free
allocate_board_with_board_id_iff boards leased_boards board_type board_id required_tags board =
    elim (Option-cases (lookup (trim board_id) boards)) [
      | inl n ↦ ground (arith)
      | inr (b, f) ↦ ground (arith)
    ]
